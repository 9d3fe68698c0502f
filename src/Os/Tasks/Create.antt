-- ===== src/Os/Tasks/Create.antt =====
-- `kcreate` of kernel/src/kmt.c: it deals the tasks out to the CPUs in turn.
use native.Mathlib.Nat.{mod-lt}
use oslab.Prelude.{
  ℕ, ◌+◌, ◌%◌, ◌<◌, ◌≡◌, List, ◌∷◌, false, arith, refl, has, returns, update, update_self, ◌∙◌,
  update_ne, bind_eq,
}
use oslab.Lock.{unlock}
use oslab.Os.{Kernel, Machine, running, update_at}
use oslab.Os.Tasks.{kcreate, kcreate_task, kcreate_insert}
use oslab.Os.Inv.{IsKernel, CanLock, guarded, lock_free}
use oslab.Ring.Many.{insert-AreRings}

-- A task on no CPU.
abbrev pub IsNew : {Space : Type 0} → Machine Space → Kernel Space → (ℕ → List ℕ) → ℕ → Type 0
IsNew am s tasks t = (j : ℕ) → j < am.cpu_count → has t (s.currents j ∷ tasks j) ≡ false

kcreate_insert-IsKernel :
    {Space : Type 0} {am : Machine Space} {s : Kernel Space} {tasks : ℕ → List ℕ} (task : ℕ)
    → IsKernel am s tasks
    → IsNew am s tasks task
    → IsKernel am (kcreate_insert am task s) (update tasks s.cpurec (task ∷ tasks s.cpurec))
kcreate_insert-IsKernel {am} {s} {tasks} task v new =
    let cur : ℕ = s.currents s.cpurec in
    let next1 : ℕ → ℕ = update s.next task (s.next cur) in
    let e : update next1 cur task task ≡ s.next cur =
      update_ne next1 cur task task (λ q. ground (arith, new s.cpurec v.turn))
      ∙ update_self s.next task (s.next cur) in
    record {
      rings = rw e (insert-AreRings v.rings s.cpurec task v.turn new);
      same = v.same;
      turn = mod-lt (s.cpurec + 1) (omega (arith, v.turn));
      unlocked = v.unlocked;
    }

-- `kcreate` of a task that is on no CPU returns, with the task made ready to run and put next in turn on
-- the CPU that the counter names; the counter goes on to the next CPU, the other rings stay, and the
-- lock and the CPU's nesting and interrupt flag are as before.
pub kcreate-IsKernel :
    {Space : Type 0} {am : Machine Space} {s : Kernel Space} {tasks : ℕ → List ℕ}
    (c task entry arg : ℕ)
    → IsKernel am s tasks
    → CanLock c c s
    → IsNew am s tasks task
    → (t : Kernel Space) × (kcreate am c task entry arg s ≡ returns t)
      × IsKernel am t (update tasks s.cpurec (task ∷ tasks s.cpurec))
      × (t.cpurec ≡ (s.cpurec + 1) % am.cpu_count)
      × (t.status ≡ update s.status task running)
      × (t.nc ≡ update s.nc task 1)
      × (t.context ≡ update_at s.context task 0 (am.kcontext task entry arg))
      × ((t.locks c).flag ≡ (s.locks c).flag)
      × ((t.cpus c).nest ≡ (s.cpus c).nest)
      × ((t.cpus c).ienabled ≡ (s.cpus c).ienabled)
unfolding kcreate unlock
kcreate-IsKernel {am} {s} {tasks} c task entry arg v can new =
    let s1 = kcreate_task am task entry arg s in
    let g = guarded c c s1 (record { cpu = can.cpu; free = can.free }) in
    let s2 =
      record (kcreate_insert am task
        (record s1 { locks = g.locks_held; cpus = g.cpus_held; glock = record { flag = 1 } })) {
          glock = record { flag = 0 };
        } in
    let i = kcreate_insert-IsKernel task v new in
    (
      record s2 { locks = g.locks_after; cpus = g.cpus_after },
      bind_eq _ g.take ∙ bind_eq _ (lock_free s.glock v.unlocked) ∙ g.give s2 refl refl,
      record { rings = i.rings; same = i.same; turn = i.turn; unlocked = refl },
      refl,
      refl,
      refl,
      refl,
      g.flag_same,
      g.nest_same,
      g.ienabled_same,
    )
