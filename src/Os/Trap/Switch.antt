-- ===== src/Os/Trap/Switch.antt =====
-- A whole trap of kernel/src/os.c that only switches the tasks.
use oslab.Prelude.{
  ◌≢◌, ℕ, ◌+◌, ◌-◌, ◌<◌, ◌≡◌, List, [], ◌∷◌, ◌++◌, some, arith, refl, returns, update, update_self,
  length, or_fuel, bind_eq, ◌∙◌, ap, sym, lt→ltb, ==_false, inl, inr, update_eq, append_snoc,
  if◌then◌else◌, ◌==◌, ℕ_discrete, update_ne,
}
use oslab.Os.{Kernel, Machine, Status, Context, update_at}
use oslab.Os.Trap.{other, save_context, reschedule, os_trap, schedule_loop, irq_handlers}
use oslab.Os.Trap.Schedule.{Turn, Turn-to, first_ready, schedule_lem}
use oslab.Os.Inv.{IsKernel, CanLock, guarded}
use oslab.Ring.Many.{AreRings, rotate-AreRings}

-- The kernel when `t` has become the running task of CPU `c` and its last context has been taken.
pub record Switched {Space : Type 0} (am : Machine Space) (c t : ℕ) (tasks : ℕ → List ℕ)
    (s s' : Kernel Space) : Type 0 where
  pub turn : Turn s.status (tasks c) (s.currents c) t
  pub kernel : IsKernel am s' (update tasks c (turn.rest ++ turn.before))
  pub running : s'.currents ≡ update s.currents c t
  pub contexts : s'.context ≡ s.context
  pub counts : s'.nc ≡ update s.nc t (s.nc t - 1)
  pub statuses : s'.status ≡ s.status
  pub excodes : s'.excode ≡ s.excode
  pub flag_same : (s'.locks c).flag ≡ (s.locks c).flag
  pub nest_same : (s'.cpus c).nest ≡ (s.cpus c).nest
  pub ienabled_same : (s'.cpus c).ienabled ≡ (s.cpus c).ienabled
  pub locks_kept : (j : ℕ) → c ≢ j → s'.locks j ≡ s.locks j
  pub cpus_kept : (j : ℕ) → c ≢ j → s'.cpus j ≡ s.cpus j
  pub others : s' ≡ record s {
    cur_task = update s.cur_task c t;
    currents = update s.currents c t;
    nc = update s.nc t (s.nc t - 1);
    locks = s'.locks;
    cpus = s'.cpus;
  }

-- The rings when the current task of CPU `c` changes.
Turn-AreRings :
    {next prev heads : ℕ → ℕ} {n : ℕ} {tasks : ℕ → List ℕ} {st : ℕ → Status} {t : ℕ} (c : ℕ)
    → AreRings next prev n heads tasks
    → c < n
    → (u : Turn st (tasks c) (heads c) t)
    → AreRings next prev n (update heads c t) (update tasks c (u.rest ++ u.before))
Turn-AreRings {next} {prev} {heads} {n} {tasks} {t} c r lt u = elim u.place [
  | inl (e, f, g) ↦ rw (update_eq heads c t f, e, update_eq tasks c u.before (sym g)) r
  | inr (ys, e, g) ↦
      rw (e, append_snoc ys (heads c) u.before) (rotate-AreRings r c t u.before ys lt g)
]

-- From the comment on the schedule on, a CPU whose ring has a task that is ready goes on with the last
-- context of the first one.
pub reschedule-Switched :
    {Space : Type 0} {am : Machine Space} {s : Kernel Space} {tasks : ℕ → List ℕ} (fuel c t : ℕ)
    → c < am.cpu_count
    → IsKernel am s tasks
    → CanLock c c s
    → length (tasks c) < fuel
    → first_ready s.status (tasks c ++ s.currents c ∷ []) ≡ some t
    → 0 < s.nc t
    → (s' : Kernel Space) × (reschedule am fuel c s ≡ returns (s.context t (s.nc t - 1), s'))
      × Switched am c t tasks s s'
unfolding reschedule
reschedule-Switched {am} {s} {tasks} fuel c t lt v can enough e pos =
    let g = guarded c c s can in
    let loop : schedule_loop fuel s.next s.status (s.cur_task c) ≡ some t =
      rw (v.same c lt) (schedule_lem s.status fuel (v.rings.ring c lt) enough ∙ e) in
    let u = Turn-to s.status (tasks c) (s.currents c) t e in
    let s2 = record s {
      locks = g.locks_held;
      cpus = g.cpus_held;
      cur_task = update s.cur_task c t;
      currents = update s.currents c t;
    } in
    (
      record s2 { locks = g.locks_after; cpus = g.cpus_after; nc = update s.nc t (s.nc t - 1) },
      bind_eq _ g.take
          ∙ bind_eq _ (ap or_fuel loop)
          ∙ bind_eq _ (g.give s2 refl refl)
          ∙ rw (update_self s.currents c t, ==_false (s.nc t) 0 (omega arith)) refl,
      record {
        turn = u;
        kernel = record {
          rings = Turn-AreRings c v.rings lt u;
          same = λ i li. ground (arith, v.same i li);
          turn = v.turn;
          unlocked = v.unlocked;
        };
        running = refl;
        contexts = refl;
        counts = refl;
        statuses = refl;
        excodes = refl;
        flag_same = g.flag_same;
        nest_same = g.nest_same;
        ienabled_same = g.ienabled_same;
        locks_kept = g.locks_kept;
        cpus_kept = g.cpus_kept;
        others = refl;
      },
    )

-- The kernel after the first lines of `os_trap`.
abbrev pub saved : {Space : Type 0} → ℕ → Context → Kernel Space → Kernel Space
saved c ctx s =
    let cur : ℕ = s.currents c in
    record s {
      context = update_at s.context cur (s.nc cur) ctx;
      nc = update s.nc cur (s.nc cur + 1);
    }

pub save_lem :
    {Space : Type 0} (am : Machine Space) (c : ℕ) (ctx : Context) (s : Kernel Space)
    → s.nc (s.currents c) < 4
    → save_context am c ctx s ≡ returns (saved c ctx s)
unfolding save_context
save_lem am c ctx s room = rw (lt→ltb (s.nc (s.currents c)) 4 room) refl

saved_context :
    (context : ℕ → ℕ → Context) (nc : ℕ → ℕ) (cur t : ℕ) (call : Context)
    → update_at context cur (nc cur) call t (update nc cur (nc cur + 1) t - 1)
      ≡ (if t == cur then call else context t (nc t - 1))
saved_context context nc cur t call = elim (ℕ_discrete cur t) [
  | yes e ↦
      rw
        (
          sym e,
          update_self nc cur (nc cur + 1),
          update_self context cur (update (context cur) (nc cur) call),
        )
        (ground arith)
  | no n ↦
      rw
        (
          update_ne nc cur (nc cur + 1) t n,
          update_ne context cur (update (context cur) (nc cur) call) t n,
        )
        (ground arith)
]

-- A trap without a handler, such as a timer's: the CPU goes on with the first task behind the running one
-- that is neither a zombie nor waiting, the running one being the last of all, and if it is the
-- running one again, with the
-- context that it has trapped with. The rings turn, and of the whole kernel nothing else changes but the
-- saved contexts, their counts, and the lock and the nesting of the CPU. That task has a saved context, and there is room for the running one's.
pub os_trap-other :
    {Space : Type 0} {am : Machine Space} {s : Kernel Space} {tasks : ℕ → List ℕ}
    (fuel c t now later : ℕ) (call here : Context)
    → c < am.cpu_count
    → IsKernel am s tasks
    → CanLock c c s
    → length (tasks c) < fuel
    → first_ready s.status (tasks c ++ s.currents c ∷ []) ≡ some t
    → s.nc (s.currents c) < 4
    → 0 < (saved c call s).nc t
    → (ctx : Context) × (s' : Kernel Space) × (os_trap am fuel c other call here now later s
        ≡ returns (ctx, s'))
      × (ctx ≡ (if t == s.currents c then call else s.context t (s.nc t - 1)))
      × Switched am c t tasks (saved c call s) s'
unfolding os_trap irq_handlers
os_trap-other {am} {s} {tasks} fuel c t now later call here lt v can enough e room has_one =
    let s1 = saved c call s in
    let v1 : IsKernel am s1 tasks = record {
      rings = v.rings;
      same = v.same;
      turn = v.turn;
      unlocked = v.unlocked;
    } in
    let (s', run, sw) =
      reschedule-Switched fuel c t lt v1 (record { cpu = can.cpu; free = can.free }) enough e
        has_one in
    (
      s1.context t (s1.nc t - 1),
      s',
      bind_eq _ (save_lem am c call s room) ∙ run,
      saved_context s.context s.nc (s.currents c) t call,
      sw,
    )
