-- ===== src/Dev/TtyTask/Round.antt =====
-- A round of the daemon of kernel/src/dev/dev_tty.c keeps both terminals.
use oslab.Prelude.{
  bind_panics, ℕ, ◌+◌, ◌-◌, ◌^◌, ◌<◌, ◌≡◌, refl, ap, ◌∙◌, ◌⊎◌, inl, inr, Bool, true, false,
  Bool-cases, ◌==◌, if◌then◌else◌, Outcome, returns, panics, bind_eq, List, [], ◌∷◌, not, ◌&&◌,
  ◌++◌, ◌||◌, ◌%◌,
}
use oslab.Dev.Input.{InputEvent}
use oslab.Dev.TtyCells.{Tty, tty_mark, tty_mark_all}
use oslab.Dev.Tty.Writing.{tty_write-Drawn}
use oslab.Dev.TtyTask.{
  TtyTask, FbWrite, current, sprites, shown, put_shown, write_shown, switch_tty, blink, type_event,
  tty_round,
}
use oslab.Dev.TtyTask.Ready.{IsReady, more, tty_mark-IsReady, mark_cells-IsReady, tty_cook-IsReady}

-- Both terminals are ready.
pub record AreReady (k : ℕ) (s : TtyTask) : Type 0 where
  pub first : IsReady k s.tty1
  pub second : IsReady k s.tty2

shown-IsReady : {k : ℕ} {s : TtyTask} → AreReady k s → IsReady k (shown s)
unfolding shown
shown-IsReady {k} {s} r = elim (Bool-cases s.on_second) [
  | inl e ↦ rw e r.second
  | inr e ↦ rw e r.first
]

put_shown-AreReady :
    {k : ℕ} {s : TtyTask} (t : Tty) → AreReady k s → IsReady k t → AreReady k (put_shown t s)
unfolding put_shown
put_shown-AreReady {k} {s} t r h = elim (Bool-cases s.on_second) [
  | inl e ↦ rw e (record { first = r.first; second = h })
  | inr e ↦ rw e (record { first = h; second = r.second })
]

write_shown-AreReady :
    {k : ℕ} (chs : List ℕ) (s : TtyTask)
    → AreReady k s
    → (out : List FbWrite) × (s' : TtyTask) × (write_shown chs s ≡ returns (out, s'))
      × AreReady k s'
unfolding write_shown
write_shown-AreReady {k} chs s r =
    let h = shown-IsReady r in
    let (sp, t, run, drawn, _, _) =
      tty_write-Drawn s.show_cursor chs (shown s) h.screen h.unlocked in
    (
      sprites sp ∷ [],
      put_shown t s,
      bind_eq _ run,
      put_shown-AreReady t r (record {
        screen = drawn.screen;
        unlocked = ap (λ (u : Tty). u.lock) drawn.kept ∙ h.unlocked;
        lines = h.lines;
        lines_le = h.lines_le;
        complete = ap (λ (u : Tty). u.cooked) drawn.kept ∙ h.complete;
      }),
    )

more-AreReady : {k : ℕ} {s : TtyTask} → AreReady k s → AreReady (k + 1) s
more-AreReady r = record { first = more r.first; second = more r.second }

-- A step of a round that returns with both terminals ready.
abbrev Keeps : ℕ → Outcome (List FbWrite × TtyTask) → Type 0
Keeps k o = (out : List FbWrite) × (s : TtyTask) × (o ≡ returns (out, s)) × AreReady k s

if-Keeps :
    (k : ℕ) (b : Bool) (x y : Outcome (List FbWrite × TtyTask))
    → Keeps k x
    → Keeps k y
    → Keeps k (if b then x else y)
if-Keeps k true x y kx ky = kx
if-Keeps k false x y kx ky = ky

tty_mark_all-IsReady : {k : ℕ} (t : Tty) → IsReady k t → IsReady k (tty_mark_all t)
unfolding tty_mark_all
tty_mark_all-IsReady t r = mark_cells-IsReady t.size t.buf t r

switch_tty-AreReady :
    {k : ℕ} (ev : InputEvent) (s : TtyTask) → AreReady k s → Keeps k (switch_tty ev s)
unfolding switch_tty
switch_tty-AreReady {k} ev s r =
    let next = if ev.word == 50 then true else if ev.word == 49 then false else s.on_second in
    let s1 : TtyTask = record s { on_second = next } in
    let r1 : AreReady k s1 = record { first = r.first; second = r.second } in
    let (out, s2, run, r2) = write_shown-AreReady [] (put_shown (tty_mark_all (shown s1)) s1) (
      put_shown-AreReady (tty_mark_all (shown s1)) r1
        (tty_mark_all-IsReady (shown s1) (shown-IsReady r1))) in
    if-Keeps k _ _ _ ([], s, refl, r) (current (shown s1).display ∷ out, s2, bind_eq _ run, r2)

blink-AreReady :
    {k : ℕ} (now : ℕ) (ev : InputEvent) (s : TtyTask) → AreReady k s → Keeps k (blink now ev s)
unfolding blink
blink-AreReady {k} now ev s r =
    let s1 : TtyTask = record s {
      known_time = now;
      show_cursor = not s.show_cursor || not (ev.word == 0);
    } in
    let r1 : AreReady k s1 = record { first = r.first; second = r.second } in
    if-Keeps k _ _ _
      (write_shown-AreReady [] (put_shown (tty_mark (shown s1).cursor (shown s1)) s1) (
        put_shown-AreReady (tty_mark (shown s1).cursor (shown s1)) r1
          (tty_mark-IsReady (shown s1).cursor (shown s1) (shown-IsReady r1))))
      ([], s, refl, r)

-- The key is one that the daemon passes on to `tty_cook`.
abbrev pub types : InputEvent → Bool
types ev = (ev.ctrl == 0) && (ev.alt == 0) && not (ev.word == 0)

type_event-AreReady :
    {k : ℕ} (ev : InputEvent) (s : TtyTask)
    → AreReady k s
    → k < 2 ^ 31 - 1
    → ((types ev ≡ true) × (type_event ev s ≡ panics)) ⊎ Keeps (k + 1) (type_event ev s)
unfolding type_event
type_event-AreReady {k} ev s r few = elim (Bool-cases (types ev)) [
  | inr n ↦ rw n (inr ([], s, refl, more-AreReady r))
  | inl y ↦ rw y (elim (tty_cook-IsReady (ev.word % 2 ^ 8) (shown s) (shown-IsReady r) few) [
    | inl e ↦ inl (refl, bind_panics _ e)
    | inr (ret, t, e, h) ↦
        (let s1 = put_shown t s in
          let r1 = put_shown-AreReady t (more-AreReady r) h in
          let (out, s2, run, r2) =
            if-Keeps (k + 1) (ret == 0) (write_shown (ev.word % 2 ^ 8 ∷ []) s1) (returns ([], s1))
              (write_shown-AreReady (ev.word % 2 ^ 8 ∷ []) s1 r1) ([], s1, refl, r1) in
          inr (out, s2, bind_eq _ e ∙ run, r2))
  ])
]

-- A round of the daemon on two ready terminals, at any time and with any event, returns with both
-- terminals ready, their locks free and their cursors on the screen, and at most one line more to read;
-- it can panic only on a key that it types, as an assertion of the queue does.
pub tty_round-AreReady :
    {k : ℕ} (now : ℕ) (ev : InputEvent) (s : TtyTask)
    → AreReady k s
    → k < 2 ^ 31 - 1
    → ((types ev ≡ true) × (tty_round now ev s ≡ panics))
      ⊎ ((out : List FbWrite) × (s' : TtyTask) × (tty_round now ev s ≡ returns (out, s'))
          × AreReady (k + 1) s')
unfolding tty_round
tty_round-AreReady {k} now ev s r few =
    let (out1, s1, run1, r1) = switch_tty-AreReady ev s r in
    elim (type_event-AreReady ev s1 r1 few) [
      | inl (y, e) ↦ inl (y, bind_eq _ run1 ∙ bind_panics _ e)
      | inr (out2, s2, run2, r2) ↦
          (let (out3, s3, run3, r3) = blink-AreReady now ev s2 r2 in
            inr (out1 ++ (out2 ++ out3), s3, bind_eq _ run1 ∙ bind_eq _ run2 ∙ bind_eq _ run3, r3))
    ]
