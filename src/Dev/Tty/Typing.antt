-- ===== src/Dev/Tty/Typing.antt =====
-- `tty_cook` and `tty_read`: a line that is typed is the line that is read.
use oslab.Prelude.{
  ℕ, suc, ◌+◌, ◌-◌, ◌%◌, ◌^◌, ◌≤◌, ◌<◌, ◌≡◌, ◌≢◌, refl, sym, ap, ◌∙◌, arith, Outcome, returns, List,
  [], ◌∷◌, ◌++◌, length, length-append, take, All, ◌==◌, false, bind_eq, append_snoc, ◌>>=◌,
}
use mathlib.Core.Path.{ap₂, subst}
use oslab.Klib.Mem.{Memory}
use oslab.Kmt.{sem_init, sem_wait, sem_signal}
use oslab.Dev.TtyQueue.{read_line}
use oslab.Dev.TtyQueue.Lines.{IsQueue, ring, enqueue_lem, read_line_lem}
use oslab.Dev.TtyCells.{Tty}
use oslab.Dev.Tty.{tty_cook, tty_read}

-- The characters one after the other, as the daemon passes them on.
unfoldable pub cook_all : List ℕ → Tty → Outcome Tty
unfolding tty_cook
cook_all [] t = returns t
cook_all (ch ∷ chs) t = do (ret, t1) ← tty_cook ch t; cook_all chs t1

-- The characters that end a line, end its reading, or take one back.
pub record IsPlain (ch : ℕ) : Type 0 where
  pub no_null : ch ≢ 0
  pub no_newline : ch ≢ 10
  pub no_backspace : ch ≢ 8

-- The lock is free, `lines` lines are complete, and the queue holds `n` characters.
pub record IsTyped (t : Tty) (lines f n : ℕ) : Type 0 where
  pub unlocked : t.lock ≡ sem_init 1
  pub complete : t.cooked ≡ sem_init lines
  pub queued : IsQueue t.queue f n

pub wait_init : (v : ℕ) → sem_wait (sem_init (suc v)) ≡ returns (sem_init v)
unfolding sem_wait sem_init
wait_init v = ground arith

pub signal_init : (v : ℕ) → v < 2 ^ 31 - 1 → sem_signal (sem_init v) ≡ returns (sem_init (v + 1))
unfolding sem_signal sem_init
signal_init v lt = ground arith

ring_eq :
    (mem : Memory) (f : ℕ) {b b' n n' : ℕ} → b ≡ b' → n ≡ n' → ring mem b f n ≡ ring mem b' f n'
ring_eq mem f eb en = ap₂ (λ (b n : ℕ). ring mem b f n) eb en

no_match : {a b : ℕ} → a ≢ b → (a == b) ≡ false
no_match n = ground arith

-- A character that is neither of the special ones is appended to the queue.
cook_plain :
    (ch : ℕ) (t : Tty) (l f n : ℕ)
    → IsPlain ch
    → IsTyped t l f n
    → n < 1023
    → (t' : Tty) × (tty_cook ch t ≡ returns (0, t'))
      × IsTyped t' l f (n + 1)
      × (t'.queue.buf ≡ t.queue.buf)
      × (ring t'.mem t.queue.buf f (n + 1) ≡ ring t.mem t.queue.buf f n ++ (ch ∷ []))
unfolding tty_cook
cook_plain ch t l f n p v lt =
    let enq = enqueue_lem ch t.queue t.mem f n v.queued lt in
    (
      record t { lock = sem_init 1; queue = enq.0; mem = enq.1 },
      bind_eq _ (ap sem_wait v.unlocked ∙ wait_init 0)
          ∙ rw (no_match p.no_newline) (
              rw (no_match p.no_backspace)
                (bind_eq _ (bind_eq _ enq.2) ∙ bind_eq _ (signal_init 0 (omega arith)))),
      record { unlocked = refl; complete = v.complete; queued = enq.3 },
      ap (λ q. q.buf) enq.4,
      enq.5,
    )

cook_newline :
    (t : Tty) (l f n : ℕ)
    → IsTyped t l f n
    → n + 1 < 1023
    → l < 2 ^ 31 - 1
    → (t' : Tty) × (tty_cook 10 t ≡ returns (0, t'))
      × IsTyped t' (l + 1) f (n + 2)
      × (t'.queue.buf ≡ t.queue.buf)
      × (ring t'.mem t.queue.buf f (n + 2) ≡ ring t.mem t.queue.buf f n ++ (10 ∷ 0 ∷ []))
unfolding tty_cook
cook_newline t l f n v lt few =
    let one = enqueue_lem 10 t.queue t.mem f n v.queued (omega arith) in
    let two = enqueue_lem 0 one.0 one.1 f (n + 1) one.3 lt in
    let b : one.0.buf ≡ t.queue.buf = ap (λ q. q.buf) one.4 in
    (
      record t { lock = sem_init 1; cooked = sem_init (l + 1); queue = two.0; mem = two.1 },
      bind_eq _ (ap sem_wait v.unlocked ∙ wait_init 0)
          ∙ bind_eq _ (
              bind_eq _ one.2
              ∙ bind_eq _ two.2
              ∙ bind_eq _ (ap sem_signal v.complete ∙ signal_init l few))
          ∙ bind_eq _ (signal_init 0 (omega arith)),
      record {
        unlocked = refl;
        complete = refl;
        queued = subst (λ (k : ℕ). IsQueue two.0 f k) {y = n + 2} (omega arith) two.3;
      },
      ap (λ q. q.buf) two.4 ∙ b,
      ring_eq two.1 f {n' = n + 1 + 1} (sym b) (omega arith)
          ∙ two.5
          ∙ ap (λ l. l ++ (0 ∷ [])) (ring_eq one.1 f b refl ∙ one.5)
          ∙ append_snoc (ring t.mem t.queue.buf f n) 10 (0 ∷ []),
    )

-- The characters of a line.
cook_line :
    (xs : List ℕ) (t : Tty) (l f n : ℕ)
    → All IsPlain xs
    → IsTyped t l f n
    → n + length xs + 1 < 1023
    → l < 2 ^ 31 - 1
    → (t' : Tty) × (cook_all (xs ++ (10 ∷ [])) t ≡ returns t')
      × IsTyped t' (l + 1) f (n + length xs + 2)
      × (t'.queue.buf ≡ t.queue.buf)
      × (ring t'.mem t.queue.buf f (n + length xs + 2)
          ≡ ring t.mem t.queue.buf f n ++ (xs ++ (10 ∷ 0 ∷ [])))
unfolding cook_all
cook_line [] t l f n ps v lt few =
    let nl = cook_newline t l f n v (omega arith) few in
    (
      nl.0,
      bind_eq _ nl.1,
      subst (λ (k : ℕ). IsTyped nl.0 (l + 1) f k) {y = n + 0 + 2} (omega arith) nl.2,
      nl.3,
      ring_eq nl.0.mem f {n' = n + 2} refl (omega arith) ∙ nl.4,
    )
cook_line (x ∷ xs) t l f n ps v lt few =
    let one = cook_plain x t l f n ps.0 v (omega arith) in
    let ih = cook_line xs one.0 l f (n + 1) ps.1 one.2 (omega arith) few in
    (
      ih.0,
      bind_eq _ one.1 ∙ ih.1,
      subst (λ (k : ℕ). IsTyped ih.0 (l + 1) f k) {y = n + suc (length xs) + 2} (omega arith) ih.2,
      ih.3 ∙ one.3,
      ring_eq ih.0.mem f {n' = n + 1 + length xs + 2} (sym one.3) (omega arith)
          ∙ ih.4
          ∙ ap (λ l. l ++ (xs ++ (10 ∷ 0 ∷ []))) (ring_eq one.0.mem f one.3 refl ∙ one.4)
          ∙ append_snoc (ring t.mem t.queue.buf f n) x (xs ++ (10 ∷ 0 ∷ [])),
    )

nonzero : (xs : List ℕ) → All IsPlain xs → All (λ x. x ≢ 0) (xs ++ (10 ∷ []))
nonzero [] ps = (omega arith, tt)
nonzero (x ∷ xs) ps = (ps.0.no_null, nonzero xs ps.1)

-- On a terminal with an empty queue and a free lock, the characters of a line of at most 1020 plain characters and a
-- newline are taken without a panic, and `tty_read` then returns the line with its newline, cut to
-- `count` characters, and leaves the queue empty and the lock free.
pub tty_read-cook_all :
    (xs : List ℕ) (t : Tty) (count f : ℕ)
    → All IsPlain xs
    → length xs ≤ 1020
    → IsTyped t 0 f 0
    → (t1 t2 : Tty) × (cook_all (xs ++ (10 ∷ [])) t ≡ returns t1)
      × (tty_read (length xs + 2) count t1 ≡ returns (take count (xs ++ (10 ∷ [])), t2))
      × IsTyped t2 0 ((f + length xs + 2) % 1024) 0
unfolding tty_read
tty_read-cook_all xs t count f ps short v =
    let typed = cook_line xs t 0 f 0 ps v (omega arith) (omega arith) in
    let q = typed.0.queue in
    let line = xs ++ (10 ∷ []) in
    let len : length line ≡ length xs + 1 = length-append xs (10 ∷ []) in
    let got =
      read_line_lem line count typed.0.mem q f (0 + length xs + 2) typed.2.queued (nonzero xs ps)
        (omega (arith, len)) (omega arith)
        (ring_eq typed.0.mem f {n = suc (length line)} {n' = 0 + length xs + 2} typed.3
            (omega (arith, len))
          ∙ typed.4
          ∙ sym (append_snoc xs 10 (0 ∷ []))) in
    (
      typed.0,
      record typed.0 { cooked = sem_init 0; lock = sem_init 1; queue = got.0 },
      typed.1,
      bind_eq _ (ap sem_wait typed.2.complete ∙ wait_init 0)
          ∙ bind_eq _ (ap sem_wait typed.2.unlocked ∙ wait_init 0)
          ∙ bind_eq _ (
              ap (λ (k : ℕ). read_line k count typed.0.mem q) {y = suc (length line)}
                (omega (arith, len))
              ∙ got.1)
          ∙ bind_eq _ (signal_init 0 (omega arith)),
      record {
        unlocked = refl;
        complete = refl;
        queued =
            subst (λ (k : ℕ). IsQueue got.0 ((f + length xs + 2) % 1024) k)
              {x = 0 + length xs + 2 - suc (length line)} (omega (arith, len))
              (subst (λ (k : ℕ). IsQueue got.0 k (0 + length xs + 2 - suc (length line)))
                {x = (f + suc (length line)) % 1024} (omega (arith, len)) got.2);
      },
    )
