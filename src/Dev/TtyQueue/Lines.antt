-- ===== src/Dev/TtyQueue/Lines.antt =====
-- What the queue of typed characters holds: a ring of 1024 bytes.
use oslab.Prelude.{
  ℕ, zero, suc, ◌+◌, ◌-◌, ◌%◌, ◌≤◌, ◌<◌, ◌≡◌, ◌≢◌, refl, sym, ap, ◌∙◌, arith, Outcome, returns,
  update, update_ne, update_self, List, [], ◌∷◌, ◌++◌, length, take, All, ◌==◌, false, bind_eq, ltb,
  if◌then◌else◌, ◌>>=◌, assert, not, ◌>>◌,
}
use mathlib.Core.Path.{ap₂}
use oslab.Klib.Mem.{Memory}
use oslab.Dev.TtyQueue.{TtyQueue, tty_enqueue, read_line, wrap}

-- The `n` bytes from offset `f` of the ring at `b`.
abbrev pub ring : Memory → ℕ → ℕ → ℕ → List ℕ
ring mem b f zero = []
ring mem b f (suc n) = mem (b + f) ∷ ring mem b ((f + 1) % 1024) n

-- The queue holds `n` characters from offset `f` on.
pub record IsQueue (q : TtyQueue) (f n : ℕ) : Type 0 where
  pub sized : q.limit ≡ q.buf + 1024
  pub offset : f < 1024
  pub front_at : q.front ≡ q.buf + f
  pub rear_at : q.rear ≡ q.buf + (f + n) % 1024

ring-spare :
    (mem : Memory) (b n f i v : ℕ)
    → f < 1024
    → i < 1024
    → n ≤ (i + 1024 - f) % 1024
    → ring (update mem (b + i) v) b f n ≡ ring mem b f n
ring-spare mem b zero f i v lf li h = refl
ring-spare mem b (suc n) f i v lf li h =
    ap₂ ◌∷◌ (update_ne mem (b + i) v (b + f) (λ e. absurd (omega arith)))
      (ring-spare mem b n ((f + 1) % 1024) i v (omega arith) li (omega arith))

ring-push :
    (mem : Memory) (b n f i v : ℕ)
    → f < 1024
    → i ≡ (f + n) % 1024
    → n < 1023
    → ring (update mem (b + i) v) b f (suc n) ≡ ring mem b f n ++ (v ∷ [])
ring-push mem b zero f i v lf e lt =
    ap (λ x. x ∷ [])
      (ap (update mem (b + i) v) {y = b + i} (omega arith) ∙ update_self mem (b + i) v)
ring-push mem b (suc n) f i v lf e lt =
    ap₂ ◌∷◌ (update_ne mem (b + i) v (b + f) (λ q. absurd (omega arith)))
      (ring-push mem b n ((f + 1) % 1024) i v (omega arith) (omega arith) (omega arith))

wrap_lem :
    (q : TtyQueue) (p f : ℕ)
    → q.limit ≡ q.buf + 1024
    → f < 1024
    → p ≡ q.buf + f
    → wrap q (p + 1) ≡ q.buf + (f + 1) % 1024
unfolding wrap
wrap_lem q p f sized lt e = ground (arith, sized, lt, e)

take_nil : (n : ℕ) → take {A = ℕ} n [] ≡ []
take_nil zero = refl
take_nil (suc n) = refl

take_cons :
    (n x : ℕ) (xs : List ℕ)
    → (if ltb 0 n then x ∷ take (n - 1) xs else take (n - 1) xs) ≡ take n (x ∷ xs)
take_cons zero x xs = refl
take_cons (suc n) x xs =
    ground arith ∙ ap (λ (k : ℕ). x ∷ take k xs) {x = suc n - 1} {y = n} (omega arith)

not_zero : (c x : ℕ) → c ≡ x → x ≢ 0 → (c == 0) ≡ false
not_zero c x e n = ground arith

-- One round of the loop.
abbrev round : ℕ → ℕ → Memory → TtyQueue → ℕ → Outcome (List ℕ × TtyQueue)
round fuel room mem q p =
    if mem q.front == 0
    then returns ([], record q { front = p })
    else (read_line fuel (room - 1) mem (record q { front = p }) >>= λ r.
        returns ((if ltb 0 room then mem q.front ∷ r.0 else r.0), r.1))

-- `tty_enqueue` on fewer than 1023 characters appends the character.
pub enqueue_lem :
    (ch : ℕ) (q : TtyQueue) (mem : Memory) (f n : ℕ)
    → IsQueue q f n
    → n < 1023
    → (q' : TtyQueue) × (mem' : Memory) × (tty_enqueue ch (q, mem) ≡ returns (q', mem'))
      × IsQueue q' f (n + 1)
      × (q' ≡ record q { rear = q'.rear })
      × (ring mem' q.buf f (n + 1) ≡ ring mem q.buf f n ++ (ch ∷ []))
unfolding tty_enqueue wrap
enqueue_lem ch q mem f n v lt =
    let r = (f + n) % 1024 in
    let r' = (f + (n + 1)) % 1024 in
    (
      record q { rear = q.buf + r' },
      update (update mem (q.buf + r) ch) (q.buf + r') 0,
      ap₂
            (λ (p i : ℕ).
              assert (not (p == q.front))
              >> returns (record q { rear = p }, update (update mem i ch) p 0))
            {y = q.buf + r'} (wrap_lem q q.rear r v.sized (omega arith) v.rear_at ∙ omega arith)
            v.rear_at
          ∙ bind_eq _ (
              ap (λ b. assert (not b)) {x = q.buf + r' == q.front} {y = false}
                (ground (arith, v.front_at, v.offset))),
      record { sized = v.sized; offset = v.offset; front_at = v.front_at; rear_at = refl },
      refl,
      ap (ring (update (update mem (q.buf + r) ch) (q.buf + r') 0) q.buf f) {y = suc n}
            (omega arith)
          ∙ ring-spare (update mem (q.buf + r) ch) q.buf (suc n) f r' 0 v.offset (omega arith)
              (omega (arith, v.offset))
          ∙ ring-push mem q.buf n f r ch v.offset refl lt,
    )

-- The loop of `tty_read` on a terminated line takes the line out, and stores as much of it as there
-- is room for.
pub read_line_lem :
    (xs : List ℕ) (room : ℕ) (mem : Memory) (q : TtyQueue) (f n : ℕ)
    → IsQueue q f n
    → All (λ x. x ≢ 0) xs
    → length xs < n
    → n < 1024
    → ring mem q.buf f (suc (length xs)) ≡ xs ++ (0 ∷ [])
    → (q' : TtyQueue) × (read_line (suc (length xs)) room mem q ≡ returns (take room xs, q'))
      × IsQueue q' ((f + suc (length xs)) % 1024) (n - suc (length xs))
      × (q' ≡ record q { front = q'.front })
unfolding read_line wrap
read_line_lem [] room mem q f n v nz lt le e =
    let at : mem q.front ≡ 0 = ap mem v.front_at ∙ cc e in
    (
      record q { front = q.buf + (f + 1) % 1024 },
      ap (round 0 room mem q) (wrap_lem q q.front f v.sized v.offset v.front_at)
          ∙ (ground (arith, at)
              ∙ ap (λ l. returns (l, record q { front = q.buf + (f + 1) % 1024 }))
                  (sym (take_nil room))),
      record {
        sized = v.sized;
        offset = omega arith;
        front_at = refl;
        rear_at = v.rear_at ∙ omega arith;
      },
      refl,
    )
read_line_lem (x ∷ xs) room mem q f n v nz lt le e =
    let at : mem q.front ≡ x = ap mem v.front_at ∙ cc e in
    let next : TtyQueue = record q { front = q.buf + (f + 1) % 1024 } in
    let ih =
      read_line_lem xs (room - 1) mem next ((f + 1) % 1024) (n - 1)
        (record {
          sized = v.sized;
          offset = omega arith;
          front_at = refl;
          rear_at = v.rear_at ∙ omega arith;
        })
        nz.1 (omega arith) (omega arith) (cc e) in
    (
      ih.0,
      ap (round (suc (length xs)) room mem q) (wrap_lem q q.front f v.sized v.offset v.front_at)
          ∙ rw (not_zero (mem q.front) x at nz.0) (bind_eq _ ih.1)
          ∙ ap (λ l. returns (l, ih.0))
              (ap (λ (c : ℕ). if ltb 0 room then c ∷ take (room - 1) xs else take (room - 1) xs) at
                ∙ take_cons room x xs),
      record {
        sized = ih.2.sized;
        offset = omega arith;
        front_at = ih.2.front_at ∙ omega arith;
        rear_at = ih.2.rear_at ∙ omega arith;
      },
      ih.3,
    )
