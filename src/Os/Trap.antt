-- ===== src/Os/Trap.antt =====
-- kernel/src/os.c: what a CPU does in a trap. A handler that calls `yield` traps again and does not come back
-- in this trap: its CPU goes on with the context that the inner trap returns.
pub mod Schedule
pub mod Switch
pub mod Exit
use oslab.Prelude.{
  ℕ, zero, suc, ◌+◌, ◌-◌, ◌*◌, ◌/◌, ◌%◌, ◌^◌, ◌==◌, Bool, true, false, leb, ltb, if◌then◌else◌,
  Option, none, some, Outcome, returns, panics, undefined, or_fuel, update, ◌>>=◌,
}
use oslab.Os.{
  Kernel, Machine, Status, Context, running, sleeping, waiting, zombie, update_at, lock_cpu,
  unlock_cpu, pmm_alloc,
}
use oslab.Os.Uproc.{pgmap, fork, getpid, exit, kputs, wakeup}

-- `status == ZOMBIE || status == WAITING`
abbrev pub is_blocked : Status → Bool
is_blocked running = false
is_blocked sleeping = false
is_blocked waiting = true
is_blocked zombie = true

-- `do { curTask = curTask->next; } while (blocked);`
unfoldable pub schedule_loop : ℕ → (ℕ → ℕ) → (ℕ → Status) → ℕ → Option ℕ
schedule_loop zero next status t = none
schedule_loop (suc fuel) next status t =
    let rest = schedule_loop fuel next status (next t) in
    if is_blocked (status (next t)) then rest else some (next t)

-- The cause of a trap: `event` with what the handlers read of it.
pub data Event : Type 0 where
  page_fault : ℕ → Event
  syscall error other : Event

-- The handlers return, or the CPU has gone on with another context.
pub data After (S : Type 0) : Type 0 where
  goes_on : S → After S
  switched : Context → S → After S

abbrev pub and_then : {S : Type 0} → After S → (S → Outcome (Context × S)) → Outcome (Context × S)
and_then (goes_on s) k = k s
and_then (switched ctx s) k = returns (ctx, s)

-- `MMAP_READ | MMAP_WRITE`
abbrev pub mmap_read_write : ℕ
mmap_read_write = 3

module _ {Space : Type 0} (am : Machine Space) where
  -- `cur->context[cur->nc++] = *context` into `context[4]`
  unfoldable pub save_context : ℕ → Context → Kernel Space → Outcome (Kernel Space)
  save_context c ctx s =
      let cur : ℕ = s.currents c in
      if ltb (s.nc cur) 4
      then returns (record s {
        context = update_at s.context cur (s.nc cur) ctx;
        nc = update s.nc cur (s.nc cur + 1);
      })
      else undefined

  -- `os_trap` from the comment on the schedule on.
  unfoldable pub reschedule : ℕ → ℕ → Kernel Space → Outcome (Context × Kernel Space)
  reschedule fuel c s = do
    s1 ← lock_cpu c c s
    t ← or_fuel (schedule_loop fuel s1.next s1.status (s1.cur_task c))
    s2 ←
        unlock_cpu c c
          (record s1 { cur_task = update s1.cur_task c t; currents = update s1.currents c t })
    let cur : ℕ = s2.currents c
    if s2.nc cur == 0
        then undefined
        else returns
            (s2.context cur (s2.nc cur - 1), record s2 { nc = update s2.nc cur (s2.nc cur - 1) })

  -- `yield()`: a trap with an event that no handler serves.
  unfoldable pub yield : ℕ → ℕ → Context → Kernel Space → Outcome (Context × Kernel Space)
  yield fuel c here s = save_context c here s >>= reschedule fuel c

  unfoldable pub pf_handler : ℕ → ℕ → Kernel Space → Outcome (Kernel Space)
  pf_handler c ref s = do
    s1 ← lock_cpu c c s
    (pa, s2) ← pmm_alloc am.heap c am.pgsize s1
    s3 ← pgmap am (s2.cur_task c) (ref / am.pgsize * am.pgsize) pa mmap_read_write s2
    unlock_cpu c c s3

  -- One test of the loop of `sleep` with the clock at `now`: on to the end of the call, or away.
  unfoldable pub sleep_round :
      ℕ → ℕ → Context → ℕ → ℕ → Kernel Space → Outcome (After (Kernel Space))
  sleep_round fuel c here until now s =
      if leb now until
      then (do (ctx, s') ← yield fuel c here s; returns (switched ctx s'))
      else returns (goes_on s)

  -- `call` is the context of the trap, `here` the place of a `yield` in a handler, `now` and `later` the
  -- clock as `sleep` reads it. The calls convert the argument to the types of their parameters.
  unfoldable pub sys_handler :
      ℕ → ℕ → Context → Context → ℕ → ℕ → Kernel Space → Outcome (After (Kernel Space))
  sys_handler fuel c call here now later s =
      let cur : ℕ = s.cur_task c in
      if call.gprx == 1
      then returns (goes_on (kputs cur call.gpr1 s))
      else if call.gprx == 14
      then sleep_round fuel c here (wakeup now call.gpr1) later s
      else if call.gprx == 3
      then (do (ctx, s') ← yield fuel c here (exit cur call.gpr1 s); returns (switched ctx s'))
      else if call.gprx == 2
      then (do
        s1 ← lock_cpu c c s
        (pid, s2) ← fork am c cur s1
        s3 ← unlock_cpu c c s2
        returns (goes_on s3))
      else if call.gprx == 12
      then (do (pid, s1) ← getpid cur s; returns (goes_on s1))
      else returns (goes_on s)

  unfoldable pub irq_handlers :
      ℕ → ℕ → Event → Context → Context → ℕ → ℕ → Kernel Space → Outcome (After (Kernel Space))
  irq_handlers fuel c (page_fault ref) call here now later s = do
    s1 ← pf_handler c ref s
    returns (goes_on s1)
  irq_handlers fuel c syscall call here now later s = sys_handler fuel c call here now later s
  irq_handlers fuel c error call here now later s = panics
  irq_handlers fuel c other call here now later s = returns (goes_on s)

  -- The context that the CPU goes on with, and the kernel. `fuel` bounds the loop of the schedule.
  unfoldable pub os_trap :
      ℕ → ℕ → Event → Context → Context → ℕ → ℕ → Kernel Space → Outcome (Context × Kernel Space)
  os_trap fuel c ev call here now later s = do
    s1 ← save_context c call s
    after ← irq_handlers fuel c ev call here now later s1
    and_then after (reschedule fuel c)
