-- ===== src/Dev/TtyQueue.antt =====
-- `struct tty_queue` of kernel/include/devices.h and its operations in kernel/src/dev/dev_tty.c: the
-- typed characters, in a ring of bytes of the memory.
pub mod Lines
use oslab.Prelude.{
  ℕ, zero, suc, ◌+◌, ◌-◌, not, ltb, ◌&&◌, ◌==◌, if◌then◌else◌, update, Outcome, returns, no_fuel,
  ◌>>=◌, ◌>>◌, assert, List, [], ◌∷◌,
}
use oslab.Klib.Mem.{Memory}

-- Addresses: of the first byte, behind the last one, of the oldest character, behind the newest one.
pub record TtyQueue : Type 0 where
  pub buf : ℕ
  pub limit : ℕ
  pub front : ℕ
  pub rear : ℕ

-- `if (p == q->end) p = q->buf;`
unfoldable pub wrap : TtyQueue → ℕ → ℕ
wrap q p = if p == q.limit then q.buf else p

unfoldable pub tty_enqueue : ℕ → TtyQueue × Memory → Outcome (TtyQueue × Memory)
unfolding wrap
tty_enqueue ch (q, mem) = do
  let rear : ℕ = wrap q (q.rear + 1)
  assert (not (rear == q.front))
  returns (record q { rear = rear }, update (update mem q.rear ch) rear 0)

-- The `int` that is returned, 0 if a character was removed.
unfoldable pub tty_pop_back : TtyQueue × Memory → ℕ × TtyQueue × Memory
tty_pop_back (q, mem) =
    let pos = if q.rear == q.buf then q.limit else q.rear in
    if not (q.front == q.limit) && not (mem (pos - 1) == 0)
    then (0, record q { rear = pos - 1 }, update mem (pos - 1) 0)
    else (1, q, mem)

-- The loop of `tty_read`, with `count - nread` the room that is left: the characters that it stores in
-- `buf`, and the queue without them.
unfoldable pub read_line : ℕ → ℕ → Memory → TtyQueue → Outcome (List ℕ × TtyQueue)
unfolding wrap
read_line zero room mem q = no_fuel
read_line (suc fuel) room mem q =
    let ch = mem q.front in
    let next : TtyQueue = record q { front = wrap q (q.front + 1) } in
    let rest = read_line fuel (room - 1) mem next in
    if ch == 0
    then returns ([], next)
    else (do (line, q') ← rest; returns ((if ltb 0 room then ch ∷ line else line), q'))
