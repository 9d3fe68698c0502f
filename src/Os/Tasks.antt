-- ===== src/Os/Tasks.antt =====
-- kernel/src/kmt.c: the rings of tasks of the CPUs.
pub mod Create
pub mod Teardown
use oslab.Prelude.{
  ℕ, zero, suc, ◌+◌, ◌%◌, ◌==◌, if◌then◌else◌, Outcome, returns, undefined, update, ◌>>=◌,
}
use oslab.Lock.{lockinit, lock, unlock}
use oslab.Kmt.{spin_init}
use oslab.Os.{Kernel, Machine, running, update_at, lock_cpu, unlock_cpu, pmm_alloc, pmm_free}

module _ {Space : Type 0} (am : Machine Space) where
  -- The body of the first loop of `k_init`, with `os->run` as the entry; CPU `c` runs it. A store
  -- through the null pointer is undefined behaviour. The status of the idle task is not set.
  unfoldable pub k_init_idle : ℕ → ℕ → ℕ → Kernel Space → Outcome (Kernel Space)
  k_init_idle c run i s = do
    (idle, s) ← pmm_alloc am.heap c am.sizeof_task s
    if idle == 0
        then undefined
        else returns (record s {
          entry = update s.entry idle run;
          next = update s.next idle idle;
          prev = update s.prev idle idle;
          nc = update s.nc idle 0;
          cur_task = update s.cur_task i idle;
          num_task = update s.num_task i 1;
          currents = update s.currents i idle;
        })

  unfoldable pub k_init_idles : ℕ → ℕ → ℕ → ℕ → Kernel Space → Outcome (Kernel Space)
  k_init_idles zero c run i s = returns s
  k_init_idles (suc n) c run i s = k_init_idle c run i s >>= k_init_idles n c run (i + 1)

  -- The second loop.
  unfoldable pub k_init_locks : ℕ → ℕ → Kernel Space → Kernel Space
  k_init_locks zero i s = s
  k_init_locks (suc n) i s = k_init_locks n (i + 1) (record s {
    locks = update s.locks i spin_init;
    cpus = update s.cpus i (record (s.cpus i) { nest = 0 });
  })

  unfoldable pub k_init : ℕ → ℕ → Kernel Space → Outcome (Kernel Space)
  unfolding k_init_idles k_init_locks
  k_init c run s = do
    s ← k_init_idles am.cpu_count c run 0 s
    let s' : Kernel Space = k_init_locks am.cpu_count 0 s
    returns (record s' { cpurec = 0; glock = lockinit })

  -- `kcreate` up to the locks: the fields of the task itself.
  abbrev pub kcreate_task : ℕ → ℕ → ℕ → Kernel Space → Kernel Space
  kcreate_task task entry arg s = record s {
    entry = update s.entry task entry;
    context = update_at s.context task 0 (am.kcontext task entry arg);
    nc = update s.nc task 1;
    status = update s.status task running;
  }

  -- Between `lock(&glock)` and `unlock(&glock)`: the task goes behind the current task of the CPU whose
  -- turn it is.
  abbrev pub kcreate_insert : ℕ → Kernel Space → Kernel Space
  kcreate_insert task s =
      let cpu : ℕ = s.cpurec in
      let next1 : ℕ → ℕ = update s.next task (s.next (s.currents cpu)) in
      let next2 : ℕ → ℕ = update next1 (s.currents cpu) task in
      record s {
        cpurec = (cpu + 1) % am.cpu_count;
        num_task = update s.num_task cpu (s.num_task cpu + 1);
        next = next2;
        prev = update (update s.prev task (s.currents cpu)) (next2 task) task;
      }

  -- It always returns 1.
  unfoldable pub kcreate : ℕ → ℕ → ℕ → ℕ → Kernel Space → Outcome (Kernel Space)
  unfolding lock unlock
  kcreate c task entry arg s = do
    s1 ← lock_cpu c c (kcreate_task task entry arg s)
    held ← lock s1.glock
    let s2 : Kernel Space = kcreate_insert task (record s1 { glock = held })
    unlock_cpu c c (record s2 { glock = unlock s2.glock })

  unfoldable pub kteardown : ℕ → ℕ → Kernel Space → Outcome (Kernel Space)
  kteardown c task s = do
    s1 ← lock_cpu c c s
    let prev1 : ℕ → ℕ = update s1.prev (s1.next task) (s1.prev task)
    let next1 : ℕ → ℕ = update s1.next (prev1 task) (s1.next task)
    s2 ← unlock_cpu c c (record s1 { prev = prev1; next = next1 })
    pmm_free am.heap c task s2
