-- ===== src/Os/Inv.antt =====
-- The invariant of the tasks of kernel/src/kmt.c, kernel/src/os.c and kernel/src/uproc.c: the tasks of
-- each CPU form a ring that holds the running one, and the rings of the CPUs share no task.
use oslab.Prelude.{
  ◌≢◌, update_ne, ◌∙◌, ℕ, ◌+◌, ◌<◌, ◌≡◌, ◌⊎◌, List, arith, refl, returns, update, update_self,
  false, if◌then◌else◌, ◌==◌,
}
use oslab.Kmt.{Spinlock, Cpu, spin_lock, spin_unlock}
use oslab.Lock.{LockT, lock}
use oslab.Kmt.SpinLaws.{IsCpu}
use oslab.Os.{Kernel, Machine, lock_cpu, unlock_cpu}
use oslab.Ring.Many.{AreRings}

-- The tasks behind the running one of CPU `i`, in the order of their turns, are `tasks i`.
pub record IsKernel {Space : Type 0} (am : Machine Space) (s : Kernel Space) (tasks : ℕ → List ℕ)
    : Type 0 where
  pub rings : AreRings s.next s.prev am.cpu_count s.currents tasks
  pub same : (i : ℕ) → i < am.cpu_count → s.cur_task i ≡ s.currents i
  pub turn : s.cpurec < am.cpu_count
  pub unlocked : s.glock.flag ≡ 0

-- CPU `c` can take the lock of CPU `i`: it is free, or the CPU holds some lock and skips it.
pub record CanLock {Space : Type 0} (c i : ℕ) (s : Kernel Space) : Type 0 where
  pub cpu : IsCpu (s.cpus c)
  pub free : ((s.locks i).flag ≡ 0) ⊎ (0 < (s.cpus c).nest)

-- A lock and an unlock, with the CPU between and after them.
record Locked (lk : Spinlock) (c : Cpu) : Type 0 where
  lk_held : Spinlock
  cpu_held : Cpu
  cpu_after : Cpu
  take : spin_lock lk c ≡ returns (lk_held, cpu_held)
  give : spin_unlock lk_held cpu_held ≡ returns (lk, cpu_after)
  nest_same : cpu_after.nest ≡ c.nest
  ienabled_same : cpu_after.ienabled ≡ c.ienabled
  off : cpu_held.ienabled ≡ false
  deeper : cpu_held.nest ≡ c.nest + 1

Locked-pair : (lk : Spinlock) (c : Cpu) → IsCpu c → (lk.flag ≡ 0) ⊎ (0 < c.nest) → Locked lk c
unfolding spin_lock spin_unlock
Locked-pair lk c v free = record {
  lk_held = if c.nest == 0 then record { flag = 1 } else lk;
  cpu_held =
      if c.nest == 0
      then record c { ienabled = false; nest = c.nest + 1; intenb = c.ienabled }
      else record c { ienabled = false; nest = c.nest + 1 };
  cpu_after = if c.nest == 0 then record c { intenb = c.ienabled } else c;
  take = ground arith;
  give = ground (arith, v.off);
  nest_same = ground arith;
  ienabled_same = ground (arith, v.off);
  off = ground arith;
  deeper = ground arith;
}

-- The kernel while the lock is held, and after it is given back in any state that has kept the locks and
-- the CPUs.
pub record Guarded {Space : Type 0} (c i : ℕ) (s : Kernel Space) : Type 0 where
  pub locks_held : ℕ → Spinlock
  pub cpus_held : ℕ → Cpu
  pub locks_after : ℕ → Spinlock
  pub cpus_after : ℕ → Cpu
  pub take : lock_cpu c i s ≡ returns (record s { locks = locks_held; cpus = cpus_held })
  pub give :
      (t : Kernel Space)
      → t.locks ≡ locks_held
      → t.cpus ≡ cpus_held
      → unlock_cpu c i t ≡ returns (record t { locks = locks_after; cpus = cpus_after })
  pub held_off : (cpus_held c).ienabled ≡ false
  pub held_nest : (cpus_held c).nest ≡ (s.cpus c).nest + 1
  pub flag_same : (locks_after i).flag ≡ (s.locks i).flag
  pub nest_same : (cpus_after c).nest ≡ (s.cpus c).nest
  pub ienabled_same : (cpus_after c).ienabled ≡ (s.cpus c).ienabled
  pub locks_kept : (j : ℕ) → i ≢ j → locks_after j ≡ s.locks j
  pub cpus_kept : (j : ℕ) → c ≢ j → cpus_after j ≡ s.cpus j

pub guarded : {Space : Type 0} (c i : ℕ) (s : Kernel Space) → CanLock c i s → Guarded c i s
unfolding lock_cpu unlock_cpu
guarded c i s can =
    let p = Locked-pair (s.locks i) (s.cpus c) can.cpu can.free in
    record {
      locks_held = update s.locks i p.lk_held;
      cpus_held = update s.cpus c p.cpu_held;
      locks_after = update (update s.locks i p.lk_held) i (s.locks i);
      cpus_after = update (update s.cpus c p.cpu_held) c p.cpu_after;
      take = rw p.take refl;
      give = λ t el ec.
          rw (el, ec, update_self s.locks i p.lk_held, update_self s.cpus c p.cpu_held, p.give)
            refl;
      held_off = rw (update_self s.cpus c p.cpu_held) p.off;
      held_nest = rw (update_self s.cpus c p.cpu_held) p.deeper;
      flag_same = rw (update_self (update s.locks i p.lk_held) i (s.locks i)) refl;
      nest_same = rw (update_self (update s.cpus c p.cpu_held) c p.cpu_after) p.nest_same;
      ienabled_same = rw (update_self (update s.cpus c p.cpu_held) c p.cpu_after) p.ienabled_same;
      locks_kept = λ j ne.
          update_ne (update s.locks i p.lk_held) i (s.locks i) j ne
          ∙ update_ne s.locks i p.lk_held j ne;
      cpus_kept = λ j ne.
          update_ne (update s.cpus c p.cpu_held) c p.cpu_after j ne
          ∙ update_ne s.cpus c p.cpu_held j ne;
    }

pub lock_free : (m : LockT) → m.flag ≡ 0 → lock m ≡ returns (record { flag = 1 })
unfolding lock
lock_free m e = rw e refl
