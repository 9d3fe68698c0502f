-- ===== src/Dev/TtyTask/Ready.antt =====
-- A terminal of kernel/src/dev/dev_tty.c that is ready, and `tty_cook` on it.
use oslab.Prelude.{
  bind_panics, ℕ, suc, ◌+◌, ◌-◌, ◌^◌, ◌≤◌, ◌<◌, ◌≡◌, refl, sym, ap, ◌∙◌, ◌⊎◌, inl, inr, arith, Bool,
  true, false, Bool-cases, ◌==◌, if◌then◌else◌, update, Outcome, returns, panics, ◌>>=◌, bind_eq,
  zero,
}
use mathlib.Core.Path.{subst}
use oslab.Klib.Mem.{Memory}
use oslab.Kmt.{Sem, sem_init, sem_wait, sem_signal}
use oslab.Dev.TtyQueue.{TtyQueue, wrap, tty_enqueue, tty_pop_back}
use oslab.Dev.TtyCells.{Tty, tty_mark, mark_cells}
use oslab.Dev.TtyCells.Bounds.{IsScreen}
use oslab.Dev.Tty.{tty_cook}
use oslab.Dev.Tty.Typing.{wait_init, signal_init}

-- A terminal between two rounds: its lock is free, its cursor on the screen, and at most `k` lines
-- wait to be read.
pub record IsReady (k : ℕ) (t : Tty) : Type 0 where
  pub screen : IsScreen t
  pub unlocked : t.lock ≡ sem_init 1
  pub lines : ℕ
  pub lines_le : lines ≤ k
  pub complete : t.cooked ≡ sem_init lines

-- The screen does not depend on the locks, the queue and the memory.
retyped-IsScreen :
    (t : Tty) (lk ck : Sem) (q : TtyQueue) (mem : Memory)
    → IsScreen t
    → IsScreen (record t { lock = lk; cooked = ck; queue = q; mem = mem })
retyped-IsScreen t lk ck q mem scr = record {
  layout = record {
    columns_pos = scr.layout.columns_pos;
    counted = scr.layout.counted;
    two_cells = scr.layout.two_cells;
    ends = scr.layout.ends;
    buf_pos = scr.layout.buf_pos;
    dirty_pos = scr.layout.dirty_pos;
  };
  cell = scr.cell;
  at = scr.at;
  cell_lt = scr.cell_lt;
}

retyped-IsReady :
    {k : ℕ} {t : Tty} (l : ℕ) (q : TtyQueue) (mem : Memory)
    → IsScreen t
    → l ≤ k
    → IsReady k (record t { lock = sem_init 1; cooked = sem_init l; queue = q; mem = mem })
retyped-IsReady {t} l q mem scr le = record {
  screen = retyped-IsScreen t (sem_init 1) (sem_init l) q mem scr;
  unlocked = refl;
  lines = l;
  lines_le = le;
  complete = refl;
}

pub more : {k : ℕ} {t : Tty} → IsReady k t → IsReady (k + 1) t
more r = record {
  screen = r.screen;
  unlocked = r.unlocked;
  lines = r.lines;
  lines_le = omega (arith, r.lines_le);
  complete = r.complete;
}

pub tty_mark-IsReady : {k : ℕ} (p : ℕ) (t : Tty) → IsReady k t → IsReady k (tty_mark p t)
unfolding tty_mark
tty_mark-IsReady {k} p t r = record {
  screen = retyped-IsScreen t t.lock t.cooked t.queue (tty_mark p t).mem r.screen;
  unlocked = r.unlocked;
  lines = r.lines;
  lines_le = r.lines_le;
  complete = r.complete;
}

pub mark_cells-IsReady : {k : ℕ} (n p : ℕ) (t : Tty) → IsReady k t → IsReady k (mark_cells n p t)
unfolding mark_cells
mark_cells-IsReady zero p t r = r
mark_cells-IsReady (suc n) p t r =
    mark_cells-IsReady n (p + 8) (tty_mark p t) (tty_mark-IsReady p t r)

-- A queue that is full stops the kernel at an assertion.
enqueue-cases :
    (ch : ℕ) (q : TtyQueue) (mem : Memory)
    → (tty_enqueue ch (q, mem) ≡ panics)
      ⊎ ((q' : TtyQueue) × (mem' : Memory) × (tty_enqueue ch (q, mem) ≡ returns (q', mem')))
unfolding tty_enqueue wrap
enqueue-cases ch q mem = elim (Bool-cases (wrap q (q.rear + 1) == q.front)) [
  | inl y ↦ inl (rw y refl)
  | inr n ↦ inr (
    record q { rear = wrap q (q.rear + 1) },
    update (update mem q.rear ch) (wrap q (q.rear + 1)) 0,
    rw n refl,
  )
]

-- `tty_cook` stops at that assertion, or the terminal is ready again.
abbrev pub Cooks : ℕ → Outcome (ℕ × Tty) → Type 0
Cooks k o = (o ≡ panics) ⊎ ((ret : ℕ) × (t : Tty) × (o ≡ returns (ret, t)) × IsReady k t)

-- The same of what it does between taking and giving the lock.
abbrev Mid : ℕ → Outcome (ℕ × TtyQueue × Memory × Sem) → Type 0
Mid k o =
    (o ≡ panics)
    ⊎ ((ret : ℕ) × (q : TtyQueue) × (mem : Memory) × (l : ℕ) × (o
          ≡ returns (ret, q, mem, sem_init l))
        × (l ≤ k + 1))

if-Mid :
    (k : ℕ) (b : Bool) (x y : Outcome (ℕ × TtyQueue × Memory × Sem))
    → Mid k x
    → Mid k y
    → Mid k (if b then x else y)
if-Mid k true x y mx my = mx
if-Mid k false x y mx my = my

release :
    {k : ℕ} {t : Tty} (o : Outcome (ℕ × TtyQueue × Memory × Sem))
    → IsReady k t
    → Mid k o
    → Cooks (k + 1) (do
      (ret, q, mem, cooked) ← o
      lk' ← sem_signal (sem_init 0)
      returns (ret, record t { lock = lk'; cooked = cooked; queue = q; mem = mem }))
release o r (inl e) = inl (bind_panics _ e)
release {t} o r (inr (ret, q, mem, l, e, le)) = inr (
  ret,
  record t { lock = sem_init 1; cooked = sem_init l; queue = q; mem = mem },
  bind_eq _ e ∙ bind_eq _ (signal_init 0 (omega arith)),
  retyped-IsReady l q mem r.screen le,
)

pub tty_cook-IsReady :
    {k : ℕ} (ch : ℕ) (t : Tty) → IsReady k t → k < 2 ^ 31 - 1 → Cooks (k + 1) (tty_cook ch t)
unfolding tty_cook
tty_cook-IsReady {k} ch t r few =
    subst (Cooks (k + 1)) (sym (bind_eq _ (ap sem_wait r.unlocked ∙ wait_init 0)))
      (release _ r (if-Mid k (ch == 10) _ _ newline (if-Mid k (ch == 8) _ _ backspace plain)))
  where
    newline : Mid k (do
      s1 ← tty_enqueue ch (t.queue, t.mem)
      (q2, mem2) ← tty_enqueue 0 s1
      cooked ← sem_signal t.cooked
      returns (0, q2, mem2, cooked))
    newline = elim (enqueue-cases ch t.queue t.mem) [
      | inl e ↦ inl (bind_panics _ e)
      | inr (q1, mem1, e1) ↦ elim (enqueue-cases 0 q1 mem1) [
        | inl e ↦ inl (bind_eq _ e1 ∙ bind_panics _ e)
        | inr (q2, mem2, e2) ↦ inr (
          0,
          q2,
          mem2,
          r.lines + 1,
          bind_eq _ e1
              ∙ bind_eq _ e2
              ∙ bind_eq _
                  (ap sem_signal r.complete ∙ signal_init r.lines (omega (arith, r.lines_le, few))),
          omega (arith, r.lines_le),
        )
      ]
    ]

    backspace :
        Mid k
          (let (ret, q1, mem1) = tty_pop_back (t.queue, t.mem) in returns (ret, q1, mem1, t.cooked))
    backspace =
        let (ret, q1, mem1) = tty_pop_back (t.queue, t.mem) in
        inr (
          ret,
          q1,
          mem1,
          r.lines,
          ap (λ (c : Sem). returns (ret, q1, mem1, c)) r.complete,
          omega (arith, r.lines_le),
        )

    plain : Mid k (do (q1, mem1) ← tty_enqueue ch (t.queue, t.mem); returns (0, q1, mem1, t.cooked))
    plain = elim (enqueue-cases ch t.queue t.mem) [
      | inl e ↦ inl (bind_panics _ e)
      | inr (q1, mem1, e1) ↦ inr (
        0,
        q1,
        mem1,
        r.lines,
        bind_eq _ e1 ∙ ap (λ (c : Sem). returns (0, q1, mem1, c)) r.complete,
        omega (arith, r.lines_le),
      )
    ]
