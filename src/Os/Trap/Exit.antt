-- ===== src/Os/Trap/Exit.antt =====
-- The system call `exit` of kernel/src/os.c and kernel/src/uproc.c.
use oslab.Prelude.{
  true, ◌%◌, ◌^◌, ℕ, ◌+◌, ◌-◌, ◌<◌, ◌≡◌, ◌≢◌, List, [], ◌∷◌, ◌++◌, some, arith, refl, returns,
  update, update_self, length, bind_eq, ◌∙◌, ap, sym,
}
use oslab.Os.{Kernel, Machine, Status, Context, zombie}
use oslab.Os.Uproc.{exit}
use oslab.Os.Trap.{syscall, yield, irq_handlers, sys_handler, os_trap, switched}
use oslab.Os.Trap.Schedule.{Turn-to, first_ready, may_run}
use oslab.Os.Trap.Switch.{Switched, saved, save_lem, reschedule-Switched}
use oslab.Os.Inv.{IsKernel, CanLock}

ready_ne : (st : ℕ → Status) (cur t : ℕ) → may_run (update st cur zombie t) ≡ true → t ≢ cur
ready_ne st cur t r e = ground arith

update_twice {ℓ} :
    {A : Type ℓ} (f : ℕ → A) (i : ℕ) (a b : A) (j : ℕ) → i ≢ j → update (update f i a) i b j ≡ f j
update_twice f i a b j n = ground arith

-- The handler of the call yields and does not come back.
sys_exit :
    {Space : Type 0} (am : Machine Space) (fuel c now later : ℕ) (call here ctx : Context)
    (s s' : Kernel Space)
    → call.gprx ≡ 3
    → yield am fuel c here (exit (s.cur_task c) call.gpr1 s) ≡ returns (ctx, s')
    → irq_handlers am fuel c syscall call here now later s ≡ returns (switched ctx s')
unfolding irq_handlers sys_handler
sys_exit am fuel c now later call here ctx s s' e run = rw e (bind_eq _ run)

-- After `exit` the task is a zombie whose status is the argument cut to the 32 bits of an `int`, its CPU
-- goes on with another task, the first behind it that may run, and neither the call nor the trap comes
-- back to it: its panic is not reached. Some other task may run and has a context, and there is room for
-- the two contexts that are saved.
pub os_trap-exit :
    {Space : Type 0} {am : Machine Space} {s : Kernel Space} {tasks : ℕ → List ℕ}
    (fuel c t now later : ℕ) (call here : Context)
    → c < am.cpu_count
    → IsKernel am s tasks
    → CanLock c c s
    → length (tasks c) < fuel
    → call.gprx ≡ 3
    → first_ready (update s.status (s.currents c) zombie) (tasks c ++ s.currents c ∷ []) ≡ some t
    → s.nc (s.currents c) + 1 < 4
    → 0 < s.nc t
    → (s' : Kernel Space) × (os_trap am fuel c syscall call here now later s
        ≡ returns (s.context t (s.nc t - 1), s'))
      × (t ≢ s.currents c)
      × (s'.currents ≡ update s.currents c t)
      × (s'.status ≡ update s.status (s.currents c) zombie)
      × (s'.excode ≡ update s.excode (s.currents c) (call.gpr1 % 2 ^ 32))
      × Switched am c t tasks (saved c here (exit (s.currents c) call.gpr1 (saved c call s))) s'
unfolding os_trap exit yield
os_trap-exit {am} {s} {tasks} fuel c t now later call here lt v can enough e3 e room pos =
    let cur = s.currents c in
    let s1 = saved c call s in
    let s2 = exit cur call.gpr1 s1 in
    let s3 = saved c here s2 in
    let v3 : IsKernel am s3 tasks = record {
      rings = v.rings;
      same = v.same;
      turn = v.turn;
      unlocked = v.unlocked;
    } in
    let ne : t ≢ cur =
      ready_ne s.status cur t (Turn-to (update s.status cur zombie) (tasks c) cur t e).ready in
    let twice =
      update_twice s.nc cur (s.nc cur + 1) (update s.nc cur (s.nc cur + 1) cur + 1) t
        (λ q. ne (sym q)) in
    let pos3 : 0 < s3.nc t = rw twice pos in
    let (s', run, sw) =
      reschedule-Switched fuel c t lt v3 (record { cpu = can.cpu; free = can.free }) enough e
        pos3 in
    (
      s',
      bind_eq _ (save_lem am c call s (omega arith))
          ∙ bind_eq _ (
              sys_exit am fuel c now later call here (s3.context t (s3.nc t - 1)) s1 s' e3 (
                rw (v.same c lt) (
                  bind_eq _ (save_lem am c here s2 (rw (update_self s.nc cur (s.nc cur + 1)) room))
                  ∙ run)))
          ∙ ap (λ ctx. returns (ctx, s'))
              (rw
                (
                  twice,
                  update_twice s.context cur (update (s.context cur) (s.nc cur) call) _ t
                      (λ q. ne (sym q)),
                )
                refl),
      ne,
      sw.running,
      sw.statuses,
      sw.excodes,
      sw,
    )
