-- ===== src/Os/Tasks/Teardown.antt =====
-- `kteardown` of kernel/src/kmt.c: it takes a task out of its ring and gives its memory back.
use oslab.Prelude.{
  ℕ, ◌<◌, ◌≡◌, ◌≢◌, List, ◌∷◌, ◌++◌, false, arith, refl, has, returns, update, ◌∙◌, bind_eq,
  if◌then◌else◌, true,
}
use oslab.Pmm.{pagestart, safe_kfree}
use oslab.Pmm.Layout.{IsHeap, IsBlock}
use oslab.Pmm.Inv.{IsPmm}
use oslab.Pmm.Free.{kfree-IsPmm}
use oslab.Os.{Kernel, Machine, pmm_free}
use oslab.Os.Tasks.{kteardown}
use oslab.Os.Inv.{IsKernel, CanLock, guarded}
use oslab.Ring.Many.{unlink-AreRings}

prev_kept : (next prev : ℕ → ℕ) (t : ℕ) → update prev (next t) (prev t) t ≡ prev t
prev_kept next prev t = ground arith

-- `kteardown` of a task that is on CPU `i` and not running there, in a block of the heap, returns: the
-- other tasks of the CPU keep their order, the other rings stay, and the block is free again.
pub kteardown-IsKernel :
    {Space : Type 0} {am : Machine Space} {s : Kernel Space} {tasks free : ℕ → List ℕ}
    (c task i k : ℕ) (xs ys : List ℕ)
    → i < am.cpu_count
    → IsKernel am s tasks
    → CanLock c c s
    → tasks i ≡ xs ++ task ∷ ys
    → IsHeap am.heap
    → IsPmm am.heap s.pmm free
    → k < 10
    → IsBlock am.heap k task
    → has task (free k) ≡ false
    → task ≢ pagestart am.heap
    → (t : Kernel Space) × (kteardown am c task s ≡ returns t)
      × IsKernel am t (update tasks i (xs ++ ys))
      × IsPmm am.heap t.pmm (update free k (task ∷ free k))
unfolding kteardown pmm_free safe_kfree
kteardown-IsKernel {am} {s} {tasks} c task i k xs ys lt v can e h pv lk block off ne =
    let g = guarded c c s can in
    let (p, run, valid, _, _) = kfree-IsPmm h k task pv lk block off ne in
    let prev1 : ℕ → ℕ = update s.prev (s.next task) (s.prev task) in
    let s1 = record s {
      locks = g.locks_held;
      cpus = g.cpus_held;
      prev = prev1;
      next = update s.next (prev1 task) (s.next task);
    } in
    (
      record s1 {
        locks = g.locks_after;
        cpus = update g.cpus_after c (record (g.cpus_after c) {
          ienabled = if (g.cpus_after c).ienabled then true else false;
        });
        pmm = p;
      },
      bind_eq _ g.take ∙ bind_eq _ (g.give s1 refl refl) ∙ bind_eq _ (bind_eq _ run),
      record {
        rings = rw (prev_kept s.next s.prev task) (unlink-AreRings v.rings i task xs ys lt e);
        same = v.same;
        turn = v.turn;
        unlocked = v.unlocked;
      },
      valid,
    )
