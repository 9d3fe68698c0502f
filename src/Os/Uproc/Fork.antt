-- ===== src/Os/Uproc/Fork.antt =====
-- `fork` of kernel/src/uproc.c.
use oslab.Prelude.{
  ℕ, ◌+◌, ◌-◌, ◌<◌, ◌≤◌, ◌≡◌, ◌≢◌, List, ◌∷◌, arith, returns, update, update_self, ◌∙◌, bind_eq,
  sym, ap, update_ne, ==_false,
}
use oslab.Pmm.{Pmm, kalloc}
use oslab.Os.{Kernel, Machine, Context, update_at}
use oslab.Os.Uproc.{fork_pages, fork_context, set_gprx, fork, ucreate}
use oslab.Os.Uproc.Create.{Created, ucreate-Created}
use oslab.Os.Uproc.Pages.{fork_pages-fields}
use oslab.Os.Tasks.Create.{IsNew}
use oslab.Os.Inv.{IsKernel, CanLock}
use oslab.Os.Uproc.Spaces.{CanMap, fork_pages-returns}

-- A parent and its child after `fork`.
pub record Forked {Space : Type 0} (am : Machine Space) (c task nproc : ℕ) (space : Space)
    (tasks : ℕ → List ℕ) (s t : Kernel Space) : Type 0 where
  pub kernel : IsKernel am t (update tasks c (nproc ∷ tasks c))
  pub parent_context :
      t.context task (s.nc task - 1) ≡ record (s.context task (s.nc task - 1)) { gprx = s.pidrec }
  pub child_context :
      t.context nproc 0
      ≡ fork_context
          (am.ucontext space nproc (am.area_start space))
          (s.context task (s.nc task - 1))
  pub child_pid : t.pid nproc ≡ s.pidrec
  pub child_pages : t.np nproc ≡ s.np task
  pub child_addresses : (i : ℕ) → i < s.np task → t.va nproc i ≡ s.va task i
  pub family :
      (t.parent nproc ≡ task) × (t.children task ≡ nproc) × (t.bros nproc ≡ s.children task)

-- The end of `fork`: the family links and the results.
abbrev linked : {Space : Type 0} → ℕ → ℕ → Kernel Space → Kernel Space
linked task nproc s = record s {
  parent = update s.parent nproc task;
  bros = update s.bros nproc (s.children task);
  children = update s.children task nproc;
  nchildren = update s.nchildren task (s.nchildren task + 1);
}

abbrev answered : {Space : Type 0} → ℕ → ℕ → Kernel Space → Kernel Space
answered task nproc s =
    let s4 : Kernel _ = set_gprx task (s.nc task - 1) (s.pid nproc) s in
    set_gprx nproc (s4.nc nproc - 1) 0 s4

answered_context :
    {Space : Type 0} (task nproc k pid : ℕ) (own : Context) (s : Kernel Space)
    (context : ℕ → ℕ → Context)
    → task ≢ nproc
    → s.nc task - 1 ≡ k
    → s.nc nproc - 1 ≡ 0
    → s.pid nproc ≡ pid
    → s.context
      ≡ update_at (update_at context nproc 0 own) nproc 0 (fork_context own (context task k))
    → ((answered task nproc s).context task k ≡ record (context task k) { gprx = pid })
      × ((answered task nproc s).context nproc 0 ≡ fork_context own (context task k))
answered_context task nproc k pid own s context ne ek e0 ep ec =
    rw (ek, e0, ep, ec) (ground arith, ground arith)

-- What the steps of `fork` before the end leave.
record Halfway {Space : Type 0} (am : Machine Space) (c task nproc : ℕ) (space : Space)
    (tasks : ℕ → List ℕ) (s s2 : Kernel Space) : Type 0 where
  kernel : IsKernel am s2 (update tasks c (nproc ∷ tasks c))
  counts : (s2.nc task ≡ s.nc task) × (s2.nc nproc ≡ 1)
  number : s2.pid nproc ≡ s.pidrec
  contexts :
      s2.context
      ≡ update_at
          (update_at s.context nproc 0 (am.ucontext space nproc (am.area_start space)))
          nproc
          0
          (fork_context
            (am.ucontext space nproc (am.area_start space))
            (s.context task (s.nc task - 1)))
  pages : s2.np nproc ≡ s.np task
  older : s2.children task ≡ s.children task

Halfway-Forked :
    {Space : Type 0} {am : Machine Space} {s s2 : Kernel Space} {tasks : ℕ → List ℕ} {space : Space}
    (c task nproc : ℕ)
    → task ≢ nproc
    → Halfway am c task nproc space tasks s s2
    → ((i : ℕ) → i < s.np task → s2.va nproc i ≡ s.va task i)
    → Forked am c task nproc space tasks s (answered task nproc (linked task nproc s2))
Halfway-Forked {am} {s} {s2} {space} c task nproc ne h vas =
    let own = am.ucontext space nproc (am.area_start space) in
    let last =
      answered_context task nproc (s.nc task - 1) s.pidrec own (linked task nproc s2) s.context ne
        (omega (arith, h.counts.0)) (omega (arith, h.counts.1)) h.number h.contexts in
    record {
      kernel = record {
        rings = h.kernel.rings;
        same = h.kernel.same;
        turn = h.kernel.turn;
        unlocked = h.kernel.unlocked;
      };
      parent_context = last.0;
      child_context = last.1;
      child_pid = h.number;
      child_pages = h.pages;
      child_addresses = vas;
      family = (
        update_self s2.parent nproc task,
        update_self s2.children task nproc,
        update_self s2.bros nproc (s2.children task) ∙ h.older,
      );
    }

-- The child with its context, before its pages.
abbrev with_child : {Space : Type 0} → ℕ → ℕ → Kernel Space → Kernel Space
with_child task nproc s = record s {
  context =
      update_at s.context nproc 0
        (fork_context (s.context nproc 0) (s.context task (s.nc task - 1)));
}

child_lem :
    (context : ℕ → ℕ → Context) (task nproc k : ℕ) (own : Context)
    → nproc ≢ task
    → update_at (update_at context nproc 0 own) nproc 0 (
        fork_context (update_at context nproc 0 own nproc 0) (update_at context nproc 0 own task k))
      ≡ update_at (update_at context nproc 0 own) nproc 0 (fork_context own (context task k))
child_lem context task nproc k own ne =
    let e : update_at context nproc 0 own nproc 0 ≡ own = ground arith in
    let f : update_at context nproc 0 own task k ≡ context task k = ground arith in cc (e, f)

copied-Halfway :
    {Space : Type 0} {am : Machine Space} {s s1 s2 : Kernel Space} {tasks : ℕ → List ℕ}
    {space : Space} (c task nproc : ℕ)
    → task ≢ nproc
    → Created am c nproc space tasks s s1
    → fork_pages am (s1.np task) 0 c task nproc (with_child task nproc s1) ≡ returns s2
    → Halfway am c task nproc space tasks s s2
copied-Halfway {am} {s} {s1} {s2} {tasks} {space} c task nproc ne cr copied =
    let (same, more) =
      fork_pages-fields am (s1.np task) 0 c task nproc (with_child task nproc s1) s2 copied in
    let old : nproc ≢ task = λ z. ne (sym z) in
    record {
      kernel = record {
        rings =
            rw (ap (λ f. f.next) same, ap (λ f. f.prev) same, ap (λ f. f.currents) same)
              cr.kernel.rings;
        same = rw (ap (λ f. f.cur_task) same, ap (λ f. f.currents) same) cr.kernel.same;
        turn = rw (ap (λ f. f.cpurec) same) cr.kernel.turn;
        unlocked = rw (ap (λ f. f.glock) same) cr.kernel.unlocked;
      };
      counts =
          rw (ap (λ f. f.nc) same, cr.counts)
            (update_ne s.nc nproc 1 task old, update_self s.nc nproc 1);
      number = rw (ap (λ f. f.pid) same, cr.pids) (update_self s.pid nproc s.pidrec);
      contexts =
          ap (λ f. f.context) same
          ∙ rw (cr.contexts, cr.counts, update_ne s.nc nproc 1 task old)
              (child_lem s.context task nproc (s.nc task - 1) _ old);
      pages =
          more
          ∙ rw cr.pages
              (rw (update_self s.np nproc 0, update_ne s.np nproc 0 task old) (omega arith));
      older =
          rw (ap (λ f. f.children) same, cr.children_same) (update_ne s.children nproc 0 task old);
    }

fork_run :
    {Space : Type 0} (am : Machine Space) (c task nproc : ℕ) (s s1 s2 : Kernel Space)
    → ucreate am c c s ≡ returns (nproc, s1)
    → 0 < s1.nc task
    → fork_pages am (s1.np task) 0 c task nproc (with_child task nproc s1) ≡ returns s2
    → s2.pid nproc ≡ s.pidrec
    → fork am c task s ≡ returns (s.pidrec, answered task nproc (linked task nproc s2))
unfolding fork
fork_run am c task nproc s s1 s2 made pos copied e =
    bind_eq _ made
    ∙ rw (==_false (s1.nc task) 0 (omega arith)) (
        bind_eq _ copied
        ∙ ap (λ (x : ℕ). returns (x, answered task nproc (linked task nproc s2))) e)

-- `fork` of the running task, with a block for the child that is on no CPU, an address space, a number below
-- 32768, at most 64 pages and as many new pages that AM can map, returns the number: the child is next in
-- turn on the CPU, with the parent's last context on its own stack and address space and the result 0;
-- the parent's result is the child's number; the child has pages at the same addresses, and is the first of the
-- parent's children, the older ones behind it.
pub fork-Forked :
    {Space : Type 0} {am : Machine Space} {s : Kernel Space} {tasks : ℕ → List ℕ} (c task nproc : ℕ)
    (p q : Pmm) (space : Space)
    → c < am.cpu_count
    → task ≡ s.currents c
    → IsKernel am s tasks
    → CanLock c c s
    → kalloc am.heap am.sizeof_task s.pmm ≡ returns (nproc, p)
    → nproc ≢ 0
    → IsNew am s tasks nproc
    → s.pidrec < 32768
    → am.protect p ≡ returns (space, q)
    → CanMap am (s.np task) (s.va task) 0 space q
    → 0 < s.nc task
    → s.np task ≤ 64
    → (t : Kernel Space) × (fork am c task s ≡ returns (s.pidrec, t))
      × Forked am c task nproc space tasks s t
fork-Forked {am} {s} {tasks} c task nproc p q space lt is_cur v can got nz new room prot maps pos
      few =
    let ne : task ≢ nproc = λ e. ground (arith, new c lt) in
    let old : nproc ≢ task = λ z. ne (sym z) in
    let (s1, made, cr, eq) = ucreate-Created c c nproc p q space lt v can got nz new room prot in
    let n1 : s1.nc task ≡ s.nc task = rw cr.counts (update_ne s.nc nproc 1 task old) in
    let p1 : s1.np task ≡ s.np task = rw cr.pages (update_ne s.np nproc 0 task old) in
    let p2 : s1.np nproc ≡ 0 = rw cr.pages (update_self s.np nproc 0) in
    let maps1 : CanMap am (s1.np task) (s1.va task) 0 (s1.as_of nproc) s1.pmm =
      rw (p1, cr.vas, cr.space_of, eq) maps in
    let (s2, copied, at) =
      fork_pages-returns am (s1.np task) 0 c task nproc (with_child task nproc s1) old maps1
        (omega (arith, p1, p2)) in
    let h = copied-Halfway c task nproc ne cr copied in
    (
      answered task nproc (linked task nproc s2),
      fork_run am c task nproc s s1 s2 made (omega (arith, n1)) copied h.number,
      Halfway-Forked c task nproc ne h (λ i li.
          ap (s2.va nproc) {y = s1.np nproc + i} (omega (arith, p2))
          ∙ at.newer i (omega (arith, p1, li))
          ∙ ap (s1.va task) {y = i} (omega arith)
          ∙ ap (λ (f : ℕ → ℕ → ℕ). f task i) cr.vas),
    )
