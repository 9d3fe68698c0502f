-- ===== src/Os.antt =====
-- The tasks of the kernel: kernel/src/kmt.c, kernel/src/os.c and kernel/src/uproc.c over the records of
-- kernel/include/common.h. A task is known by its address, and each field of `struct task` is a function of
-- the address; the name, which only messages print, is left out.
pub mod Tasks
pub mod Uproc
pub mod Trap
pub mod Inv
mod Tests
use oslab.Prelude.{ℕ, ◌+◌, ◌^◌, Bool, List, Outcome, returns, update, ◌>>=◌}
use oslab.Lock.{LockT}
use oslab.Kmt.{Spinlock, Cpu, spin_lock, spin_unlock}
use oslab.Klib.Mem.{Memory}
use oslab.Pmm.{Area, Pmm, safe_kalloc, safe_kfree}

-- AM's `Context`: the registers that the kernel reads and writes, and the others.
pub record Context : Type 0 where
  pub gprx : ℕ
  pub gpr1 : ℕ
  pub rsp0 : ℕ
  pub cr3 : ℕ
  pub others : ℕ → ℕ

pub data Status : Type 0 where
  running sleeping waiting zombie : Status

-- What the kernel uses of AM: the number of CPUs, the bounds of the heap, the contexts that it makes from
-- the address of a task, an entry and an argument, and address spaces. `protect` and `map`, with
-- the two addresses and the protection, take pages from the allocator and panic, without one or on an
-- address that cannot be mapped.
pub record Machine (Space : Type 0) : Type 0 where
  pub cpu_count : ℕ
  pub heap : Area
  pub sizeof_task : ℕ
  pub kcontext : ℕ → ℕ → ℕ → Context
  pub ucontext : Space → ℕ → ℕ → Context
  pub pgsize : ℕ
  pub area_start : Space → ℕ
  pub protect : Pmm → Outcome (Space × Pmm)
  pub unprotect : Space → Pmm → Outcome (Space × Pmm)
  pub vmap : Space → ℕ → ℕ → ℕ → Pmm → Outcome (Space × Pmm)

-- `struct task` by address, `percpu`, `currents`, `locks`, `nest` and `intenb` by CPU, and the other global
-- variables; `out` is what `putch` has printed, the last first.
pub record Kernel (Space : Type 0) : Type 0 where
  pub next : ℕ → ℕ
  pub prev : ℕ → ℕ
  pub status : ℕ → Status
  pub entry : ℕ → ℕ
  pub context : ℕ → ℕ → Context
  pub nc : ℕ → ℕ
  pub pid : ℕ → ℕ
  pub children : ℕ → ℕ
  pub parent : ℕ → ℕ
  pub bros : ℕ → ℕ
  pub nchildren : ℕ → ℕ
  pub excode : ℕ → ℕ
  pub np : ℕ → ℕ
  pub va : ℕ → ℕ → ℕ
  pub pa : ℕ → ℕ → ℕ
  pub as_of : ℕ → Space
  pub cur_task : ℕ → ℕ
  pub num_task : ℕ → ℕ
  pub currents : ℕ → ℕ
  pub locks : ℕ → Spinlock
  pub cpus : ℕ → Cpu
  pub glock : LockT
  pub cpurec : ℕ
  pub pidtables : ℕ → ℕ
  pub pidrec : ℕ
  pub pmm : Pmm
  pub mem : Memory
  pub out : List ℕ

-- `context[i]` of a task.
abbrev pub update_at {ℓ} : {A : Type ℓ} → (ℕ → ℕ → A) → ℕ → ℕ → A → ℕ → ℕ → A
update_at f t i a = update f t (update (f t) i a)

module _ {Space : Type 0} where
  -- `kmt->spin_lock(&locks[i])` and `kmt->spin_unlock(&locks[i])` on CPU `c`.
  unfoldable pub lock_cpu : ℕ → ℕ → Kernel Space → Outcome (Kernel Space)
  lock_cpu c i s = do
    (lk, cpu) ← spin_lock (s.locks i) (s.cpus c)
    returns (record s { locks = update s.locks i lk; cpus = update s.cpus c cpu })

  unfoldable pub unlock_cpu : ℕ → ℕ → Kernel Space → Outcome (Kernel Space)
  unlock_cpu c i s = do
    (lk, cpu) ← spin_unlock (s.locks i) (s.cpus c)
    returns (record s { locks = update s.locks i lk; cpus = update s.cpus c cpu })

  -- `pmm->alloc(size)` and `pmm->free(ptr)` on CPU `c`.
  unfoldable pub pmm_alloc : Area → ℕ → ℕ → Kernel Space → Outcome (ℕ × Kernel Space)
  pmm_alloc heap c size s = do
    (p, i, pmm) ← safe_kalloc heap size ((s.cpus c).ienabled, s.pmm)
    returns (p, record s { pmm = pmm; cpus = update s.cpus c (record (s.cpus c) { ienabled = i }) })

  unfoldable pub pmm_free : Area → ℕ → ℕ → Kernel Space → Outcome (Kernel Space)
  pmm_free heap c ptr s = do
    (i, pmm) ← safe_kfree heap ptr ((s.cpus c).ienabled, s.pmm)
    returns (record s { pmm = pmm; cpus = update s.cpus c (record (s.cpus c) { ienabled = i }) })
