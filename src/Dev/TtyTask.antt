-- ===== src/Dev/TtyTask.antt =====
-- The daemon `dev_tty_task` of kernel/src/dev/dev_tty.c: what it does with an event that it has read from
-- the keyboard. It shows one of the two terminals.
pub mod Ready
pub mod Round
use oslab.Prelude.{
  ℕ, ◌+◌, ◌-◌, ◌/◌, ◌%◌, ◌^◌, Bool, true, false, not, ltb, ◌&&◌, ◌||◌, ◌==◌, if◌then◌else◌, Outcome,
  returns, ◌>>=◌, List, [], ◌∷◌, ◌++◌,
}
use oslab.Dev.Input.{InputEvent}
use oslab.Dev.TtyCells.{Tty, tty_mark, tty_mark_all}
use oslab.Dev.Tty.{Sprite, tty_write, tty_cook}

-- The variables of the daemon with `show_cursor` and the terminals "tty1" and "tty2"; `on_second` says
-- that `ttydev` is the second one.
pub record TtyTask : Type 0 where
  pub tty1 : Tty
  pub tty2 : Tty
  pub on_second : Bool
  pub show_cursor : Bool
  pub known_time : ℕ

-- What is written to the display device: which terminal it shows, or sprites.
pub data FbWrite : Type 0 where
  current : ℕ → FbWrite
  sprites : List Sprite → FbWrite

unfoldable pub shown : TtyTask → Tty
shown s = if s.on_second then s.tty2 else s.tty1

unfoldable pub put_shown : Tty → TtyTask → TtyTask
put_shown t s = if s.on_second then record s { tty2 = t } else record s { tty1 = t }

-- `ttydev->ops->write` of the characters
unfoldable pub write_shown : List ℕ → TtyTask → Outcome (List FbWrite × TtyTask)
write_shown chs s = do
  (sp, t) ← tty_write s.show_cursor chs (shown s)
  returns (sprites sp ∷ [], put_shown t s)

-- The first `if`: alt with '1' (49) or '2' (50) switches to another terminal.
unfoldable pub switch_tty : InputEvent → TtyTask → Outcome (List FbWrite × TtyTask)
switch_tty ev s =
    let next = if ev.word == 50 then true else if ev.word == 49 then false else s.on_second in
    let same = (next && s.on_second) || (not next && not s.on_second) in
    if (ev.alt == 0) || same then returns ([], s) else (do
      let s1 : TtyTask = record s { on_second = next }
      (out, s2) ← write_shown [] (put_shown (tty_mark_all (shown s1)) s1)
      returns (current (shown s1).display ∷ out, s2))

-- The third `if`: a plain key is taken by the line discipline, and shown if that says so.
unfoldable pub type_event : InputEvent → TtyTask → Outcome (List FbWrite × TtyTask)
type_event ev s =
    if (ev.ctrl == 0) && (ev.alt == 0) && not (ev.word == 0)
    then (do
      let ch : ℕ = ev.word % 2 ^ 8
      (ret, t) ← tty_cook ch (shown s)
      if ret == 0 then write_shown (ch ∷ []) (put_shown t s) else returns ([], put_shown t s))
    else returns ([], s)

-- The last `if`, at the time `now`: after a key, and after half a second without one, the cursor is
-- drawn again, shown or, without a key, the other way round.
unfoldable pub blink : ℕ → InputEvent → TtyTask → Outcome (List FbWrite × TtyTask)
blink now ev s =
    let changed = not (ev.word == 0) in
    if changed || ltb 500 ((now + 2 ^ 64 - s.known_time) % 2 ^ 64 / 1000)
    then (do
      let s1 : TtyTask = record s { known_time = now; show_cursor = not s.show_cursor || changed }
      write_shown [] (put_shown (tty_mark (shown s1).cursor (shown s1)) s1))
    else returns ([], s)

-- One round of the loop behind the reading of the event.
unfoldable pub tty_round : ℕ → InputEvent → TtyTask → Outcome (List FbWrite × TtyTask)
tty_round now ev s = do
  (out1, s1) ← switch_tty ev s
  (out2, s2) ← type_event ev s1
  (out3, s3) ← blink now ev s2
  returns (out1 ++ (out2 ++ out3), s3)
