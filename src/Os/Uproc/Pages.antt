-- ===== src/Os/Uproc/Pages.antt =====
-- What mapping a page changes of a process, in kernel/src/os.c and in the loop of `fork` of
-- kernel/src/uproc.c.
use oslab.Prelude.{
  Outcome, undefined, ◌==◌, if◌then◌else◌, false, ℕ, zero, suc, ◌+◌, ◌<◌, ◌≡◌, arith, refl, returns,
  update, ◌∙◌, bind_inv, ltb, leb, ltb→lt, Bool-cases, inl, inr, assert, returns_inj, update_self,
}
use oslab.Os.{Kernel, Machine, Context, Status, pmm_alloc}
use oslab.Os.Uproc.{pgmap, fork_pages, prot_read_write}
use oslab.Pmm.{safe_kalloc}
use mathlib.Core.Path.{subst}
use oslab.Klib.Mem.{memcpy}
use oslab.Lock.{LockT}

-- The tasks, but for their pages: what mapping a page leaves alone.
pub record Fields : Type 0 where
  pub next : ℕ → ℕ
  pub prev : ℕ → ℕ
  pub status : ℕ → Status
  pub context : ℕ → ℕ → Context
  pub nc : ℕ → ℕ
  pub pid : ℕ → ℕ
  pub children : ℕ → ℕ
  pub parent : ℕ → ℕ
  pub bros : ℕ → ℕ
  pub nchildren : ℕ → ℕ
  pub cur_task : ℕ → ℕ
  pub currents : ℕ → ℕ
  pub cpurec : ℕ
  pub glock : LockT

abbrev pub fields : {Space : Type 0} → Kernel Space → Fields
fields s = record {
  next = s.next;
  prev = s.prev;
  status = s.status;
  context = s.context;
  nc = s.nc;
  pid = s.pid;
  children = s.children;
  parent = s.parent;
  bros = s.bros;
  nchildren = s.nchildren;
  cur_task = s.cur_task;
  currents = s.currents;
  cpurec = s.cpurec;
  glock = s.glock;
}

-- `pgmap` that returns has added one page to the task's list, at most the 64th, and changed no other field
-- of a task.
pub pgmap-fields :
    {Space : Type 0} (am : Machine Space) (task va pa prot : ℕ) (s t : Kernel Space)
    → pgmap am task va pa prot s ≡ returns t
    → (fields t ≡ fields s) × (t.np ≡ update s.np task (s.np task + 1)) × (s.np task < 64)
unfolding pgmap
pgmap-fields am task va pa prot s t run = elim (Bool-cases (ltb (s.np task) 64)) [
  | inl room ↦
      let body = rw room at run in
      let (_, _, rest) = bind_inv (assert (leb (s.np task + 1) 64)) _ body in
      let ((space, q), _, last) = bind_inv (am.vmap (s.as_of task) va pa prot s.pmm) _ rest in
      subst
        (λ (u : Kernel _).
          (fields u ≡ fields s) × (u.np ≡ update s.np task (s.np task + 1)) × (s.np task < 64))
        (returns_inj last) (refl, refl, ltb→lt (s.np task) 64 room)
  | inr full ↦ absurd (ground (arith, full, run))
]

alloc-fields :
    {Space : Type 0} (am : Machine Space) (c p : ℕ) (s t : Kernel Space)
    → pmm_alloc am.heap c am.pgsize s ≡ returns (p, t)
    → (fields t ≡ fields s) × (t.np ≡ s.np)
unfolding pmm_alloc
alloc-fields am c p s t run =
    let ((q, i, pmm), _, last) =
      bind_inv (safe_kalloc am.heap am.pgsize ((s.cpus c).ienabled, s.pmm)) _ run in
    subst (λ (u : ℕ × Kernel _). (fields u.1 ≡ fields s) × (u.1.np ≡ s.np)) (returns_inj last)
      (refl, refl)

not_null :
    {A : Type 0} {a : A} (npa : ℕ) (o : Outcome A)
    → (if npa == 0 then undefined else o) ≡ returns a
    → ((npa == 0) ≡ false) × (o ≡ returns a)
not_null npa o e = elim (Bool-cases (npa == 0)) [
  | inl z ↦ absurd (ground (arith, rw z at e))
  | inr n ↦ (n, rw n at e)
]

-- The loop of `fork` adds a page to the child for each round, and changes no other field of a task.
pub fork_pages-fields :
    {Space : Type 0} (am : Machine Space) (n i c task nproc : ℕ) (s t : Kernel Space)
    → fork_pages am n i c task nproc s ≡ returns t
    → (fields t ≡ fields s) × (t.np nproc ≡ s.np nproc + n)
unfolding fork_pages
fork_pages-fields am zero i c task nproc s t run =
    subst (λ (u : Kernel _). (fields u ≡ fields s) × (u.np nproc ≡ s.np nproc + 0))
      (returns_inj run) (refl, omega arith)
fork_pages-fields am (suc n) i c task nproc s t run =
    let ((npa, s1), got, rest) = bind_inv (pmm_alloc am.heap c am.pgsize s) _ run in
    let (a, ea) = alloc-fields am c npa s s1 got in
    let mapping = not_null npa _ rest in
    let copied = record s1 { mem = memcpy npa (s.pa task i) am.pgsize s1.mem } in
    let (s2, mapped, last) =
      bind_inv (pgmap am nproc (s.va task i) npa prot_read_write copied) _ mapping.1 in
    let (b, eb, _) = pgmap-fields am nproc (s.va task i) npa prot_read_write copied s2 mapped in
    let (d, ed) = fork_pages-fields am n (i + 1) c task nproc s2 t last in
    (d ∙ b ∙ a, ed ∙ rw eb (rw (update_self s1.np nproc (s1.np nproc + 1), ea) (omega arith)))
