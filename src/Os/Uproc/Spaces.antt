-- ===== src/Os/Uproc/Spaces.antt =====
-- Mapping the pages of a child with AM's address spaces, in kernel/src/os.c and kernel/src/uproc.c.
use oslab.Prelude.{
  ℕ, zero, suc, ◌+◌, ◌≤◌, ◌≡◌, ◌≢◌, false, true, arith, refl, returns, update, update_self,
  update_ne, ◌∙◌, bind_eq, lt→ltb, le→leb, ==_false, if◌then◌else◌, ◌<◌, ap,
}
use oslab.Klib.Mem.{memcpy}
use oslab.Pmm.{Pmm, kalloc}
use oslab.Os.{Kernel, Machine, update_at}
use oslab.Os.Uproc.{pgmap, fork_pages, prot_read_write}
use oslab.Os.Uproc.Create.{pmm_alloc_lem}

-- From the allocator's state `p` on, `n` times the allocator has a page and AM maps it in the address space, at
-- the addresses from the `i`th on.
abbrev pub CanMap : {Space : Type 0} → Machine Space → ℕ → (ℕ → ℕ) → ℕ → Space → Pmm → Type 0
CanMap am zero va i space p = Unit
CanMap am (suc n) va i space p =
    (npa : ℕ) × (p1 : Pmm) × (space1 : _) × (q : Pmm) × (kalloc am.heap am.pgsize p
      ≡ returns (npa, p1))
    × (npa ≢ 0)
    × (am.vmap space (va i) npa prot_read_write p1 ≡ returns (space1, q))
    × CanMap am n va (i + 1) space1 q

-- The child has the first `n` addresses of the parent from the `i`th on, behind those that it had.
pub record Copied {Space : Type 0} (n i task nproc : ℕ) (s t : Kernel Space) : Type 0 where
  pub older : (j : ℕ) → j < s.np nproc → t.va nproc j ≡ s.va nproc j
  pub newer : (k : ℕ) → k < n → t.va nproc (s.np nproc + k) ≡ s.va task (i + k)

Copied-one :
    {Space : Type 0} (n i task nproc : ℕ) (s s2 t : Kernel Space)
    → s2.va task ≡ s.va task
    → s2.va nproc ≡ update (s.va nproc) (s.np nproc) (s.va task i)
    → s2.np nproc ≡ s.np nproc + 1
    → Copied n (i + 1) task nproc s2 t
    → Copied (suc n) i task nproc s t
Copied-one n i task nproc s s2 t kept stored counted c = record {
  older = λ j lt.
      c.older j (omega (arith, lt, counted))
      ∙ ap (λ (f : ℕ → ℕ). f j) stored
      ∙ update_ne (s.va nproc) (s.np nproc) (s.va task i) j (λ e. absurd (omega (arith, e, lt)));
  newer = new;
}
  where
    new : (k : ℕ) → k < suc n → t.va nproc (s.np nproc + k) ≡ s.va task (i + k)
    new zero lt =
        ap (t.va nproc) {y = s.np nproc} (omega arith)
        ∙ c.older (s.np nproc) (omega (arith, counted))
        ∙ ap (λ (f : ℕ → ℕ). f (s.np nproc)) stored
        ∙ update_self (s.va nproc) (s.np nproc) (s.va task i)
        ∙ ap (s.va task) (omega arith)
    new (suc k) lt =
        ap (t.va nproc) {y = s2.np nproc + k} (omega (arith, counted))
        ∙ c.newer k (omega (arith, lt))
        ∙ ap (λ (f : ℕ → ℕ). f (i + 1 + k)) kept
        ∙ ap (s.va task) (omega arith)

-- The loop of `fork` returns if the pages can be mapped and the child has room for them, and gives it the
-- addresses of the parent.
pub fork_pages-returns :
    {Space : Type 0} (am : Machine Space) (n i c task nproc : ℕ) (s : Kernel Space)
    → nproc ≢ task
    → CanMap am n (s.va task) i (s.as_of nproc) s.pmm
    → s.np nproc + n ≤ 64
    → (t : Kernel Space) × (fork_pages am n i c task nproc s ≡ returns t)
      × Copied n i task nproc s t
unfolding fork_pages pgmap
fork_pages-returns am zero i c task nproc s ne maps room =
    (s, refl, record { older = λ j lt. refl; newer = λ k lt. absurd (omega (arith, lt)) })
fork_pages-returns am (suc n) i c task nproc s ne (npa, p1, space1, q, got, nz, mapped, more) room =
    let s1 = record s {
      pmm = p1;
      cpus =
          update s.cpus c
            (record (s.cpus c) { ienabled = if (s.cpus c).ienabled then true else false });
      mem = memcpy npa (s.pa task i) am.pgsize s.mem;
    } in
    let s2 = record s1 {
      va = update_at s.va nproc (s.np nproc) (s.va task i);
      pa = update_at s.pa nproc (s.np nproc) npa;
      np = update s.np nproc (s.np nproc + 1);
      as_of = update s.as_of nproc space1;
      pmm = q;
    } in
    let one : pgmap am nproc (s.va task i) npa prot_read_write s1 ≡ returns s2 =
      rw (lt→ltb (s.np nproc) 64 (omega arith), le→leb (s.np nproc + 1) 64 (omega arith))
        (bind_eq _ mapped) in
    let kept : s2.va task ≡ s.va task =
      update_ne s.va nproc (update (s.va nproc) (s.np nproc) (s.va task i)) task ne in
    let more2 : CanMap am n (s2.va task) (i + 1) (s2.as_of nproc) s2.pmm =
      rw (kept, update_self s.as_of nproc space1) more in
    let (t, rest, copied) =
      fork_pages-returns am n (i + 1) c task nproc s2 ne more2
        (omega (arith, update_self s.np nproc (s.np nproc + 1))) in
    (
      t,
      bind_eq _ (pmm_alloc_lem am.heap c am.pgsize npa s p1 got)
          ∙ rw (==_false npa 0 nz) (bind_eq _ one ∙ rest),
      Copied-one n i task nproc s s2 t kept (update_self s.va nproc _)
          (update_self s.np nproc (s.np nproc + 1)) copied,
    )
