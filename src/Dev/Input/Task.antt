-- ===== src/Dev/Input/Task.antt =====
-- The interrupt and the daemon of kernel/src/dev/dev_input.c: `sem_kbdirq`, `input_notify` and a round of
-- `dev_input_task`.
use oslab.Prelude.{
  ℕ, zero, suc, ◌+◌, ◌-◌, ◌/◌, ◌%◌, ◌^◌, ◌≤◌, ◌<◌, ◌≡◌, refl, sym, ap, ◌∙◌, arith, Bool, true,
  false, ltb, ◌&&◌, ◌||◌, if◌then◌else◌, Outcome, returns, ◌>>=◌, List, [], ◌∷◌, ◌++◌, map, length,
  All, bind_eq, returns_inj, append_snoc, length-append, ◌==◌, update, Bool-cases, inl, ==_iff, inr,
}
use mathlib.Core.Bool.{xor}
use mathlib.Core.List.{append-nil}
use oslab.Kmt.{Cpu, Sem, spin_lock, spin_unlock, sem_signal, sem_wait}
use oslab.Dev.Input.{InputEvent, Input, event, push_event, is_empty}
use oslab.Dev.Input.Queue.{IsInput, held, contents, push_refines, window}
use oslab.Dev.Input.Keyboard.{plain, input_keydown}
use oslab.Dev.Input.Keyboard.Typing.{is_letter, letter_typed}

-- The keyboard's interrupt; the context that it returns is null.
unfoldable pub input_notify : Sem → Outcome Sem
input_notify kbdirq = sem_signal kbdirq

-- A write to the keyboard is ignored.
unfoldable pub input_write : ℕ → ℕ → ℕ
input_write offset count = 0

-- What `io_read(AM_INPUT_KEYBRD)` gives: whether the key goes down, and its code.
pub record KeyEvent : Type 0 where
  pub keydown : Bool
  pub keycode : ℕ

-- The inner loop of the daemon; the keyboard's events end with the code 0.
unfoldable pub drain_keys : List KeyEvent → Cpu × Input → Outcome (Cpu × Input)
drain_keys [] s = returns s
drain_keys (key ∷ keys) s =
    if key.keycode == 0
    then returns s
    else (do s1 ← input_keydown key.keydown key.keycode s; drain_keys keys s1)

-- The second `if` of the daemon: after a tenth of a second without events the terminal gets an empty
-- one. `time` and `known_time` are `uint32_t`.
unfoldable pub tick : ℕ → ℕ → Cpu × Input → Outcome (ℕ × Cpu × Input)
tick time known_time (c, inp) =
    if ltb 100 ((time + 2 ^ 32 - known_time) % 2 ^ 32 / 1000) && is_empty inp
    then (do (c1, inp1) ← push_event (event 0 0 0) (c, inp); returns (time, c1, inp1))
    else returns (known_time, c, inp)

-- A round of the daemon: the keys that the machine gives, and the microseconds that it has run.
unfoldable pub input_round :
    List KeyEvent → ℕ → ℕ → Sem → Cpu × Input → Outcome (ℕ × Sem × Cpu × Input)
input_round keys us known_time kbdirq s = do
  s1 ← drain_keys keys s
  (known, c2, inp2) ← tick (us % 2 ^ 32) known_time s1
  kbdirq' ← sem_wait kbdirq
  returns (known, kbdirq', c2, inp2)

length-window : (events : ℕ → InputEvent) (front n : ℕ) → length (window events front n) ≡ n
length-window events front zero = refl
length-window events front (suc n) = ap suc (length-window events ((front + 1) % 128) n)

length-contents : (inp : Input) → length (contents inp) ≡ held inp
length-contents inp = length-window inp.events inp.front (held inp)

-- The modifiers of the keyboard.
abbrev Flags : Type 0
Flags = Bool × Bool × Bool × Bool × Bool × Bool × Bool

abbrev flags : Input → Flags
flags inp = (
  inp.capslock, inp.shift_left, inp.shift_right, inp.ctrl_left, inp.ctrl_right, inp.alt_left,
  inp.alt_right,
)

push_event-flags :
    (ev : InputEvent) (c c' : Cpu) (inp inp' : Input)
    → IsInput c inp
    → held inp < 127
    → push_event ev (c, inp) ≡ returns (c', inp')
    → flags inp' ≡ flags inp
unfolding push_event spin_lock spin_unlock sem_signal
push_event-flags ev c c' inp inp' v room e =
    let run : push_event ev (c, inp)
        ≡ returns (
          record c { intenb = c.ienabled },
          record inp {
            lock = record { flag = 0 };
            event_sem = record { lk = record { flag = 0 }; value = inp.event_sem.value + 1 };
            events = update inp.events inp.rear ev;
            rear = (inp.rear + 1) % 128;
          },
        ) =
      ground arith in
    ap (λ (r : Cpu × Input). flags r.1) (returns_inj (sym e ∙ run))

-- The event of a letter key under the modifiers.
abbrev pub letter_event : Input → ℕ → InputEvent
letter_event inp code =
    event 0 0
      (if xor (inp.shift_left || inp.shift_right) inp.capslock then plain code - 32 else plain code)

abbrev pub pressed : ℕ → KeyEvent
pressed code = record { keydown = true; keycode = code }

abbrev pub IsLetterKey : ℕ → Type 0
IsLetterKey code = (code < 256) × (is_letter (plain code) ≡ true)

null_key : is_letter (plain 0) ≡ false
unfolding plain
null_key = refl

letter_key-nonzero : (code : ℕ) → is_letter (plain code) ≡ true → (code == 0) ≡ false
letter_key-nonzero code l = elim (Bool-cases (code == 0)) [
  | inl z ↦
      absurd (
        ground
          (arith, sym l ∙ ap (λ (u : ℕ). is_letter (plain u)) ((==_iff code 0).0 z) ∙ null_key))
  | inr n ↦ n
]

letter_event_eq :
    (inp inp' : Input) (codes : List ℕ)
    → flags inp' ≡ flags inp
    → map (letter_event inp') codes ≡ map (letter_event inp) codes
letter_event_eq inp inp' codes e =
    ap
      (λ (f : Flags).
        map (λ (code : ℕ). event 0 0 (if xor (f.1 || f.2) f.0 then plain code - 32 else plain code))
          codes)
      e

-- The daemon takes a word of letter keys, pressed while no control and no alternate key is held and
-- with room in the queue, without a panic: it appends their events in order, capitals if
-- exactly one of a shift key and the caps lock is on.
pub word_typed :
    (codes : List ℕ) (c : Cpu) (inp : Input)
    → All IsLetterKey codes
    → IsInput c inp
    → held inp + length codes ≤ 127
    → (inp.ctrl_left || inp.ctrl_right) ≡ false
    → (inp.alt_left || inp.alt_right) ≡ false
    → (c' : Cpu) × (inp' : Input) × (drain_keys (map pressed codes) (c, inp) ≡ returns (c', inp'))
      × IsInput c' inp'
      × (contents inp' ≡ contents inp ++ map (letter_event inp) codes)
unfolding drain_keys
word_typed [] c inp ls v room no_ctrl no_alt = (c, inp, refl, v, sym (append-nil (contents inp)))
word_typed (code ∷ codes) c inp ls v room no_ctrl no_alt =
    let ev = letter_event inp code in
    let one = push_refines ev c inp v (omega arith) in
    let inp1 = one.1 in
    let same = push_event-flags ev c one.0 inp inp1 v (omega arith) one.2 in
    let counted : held inp1 ≡ held inp + 1 =
      sym (length-contents inp1)
      ∙ ap length one.4
      ∙ length-append (contents inp) (ev ∷ [])
      ∙ ap (λ (n : ℕ). n + 1) (length-contents inp) in
    let ih =
      word_typed codes one.0 inp1 ls.1 one.3 (omega (arith, counted))
        (ap (λ (f : Flags). f.3 || f.4) same ∙ no_ctrl)
        (ap (λ (f : Flags). f.5 || f.6) same ∙ no_alt) in
    (
      ih.0,
      ih.1,
      rw (letter_key-nonzero code ls.0.1)
          (bind_eq _ (letter_typed code c inp ls.0.0 ls.0.1 no_ctrl no_alt ∙ one.2) ∙ ih.2),
      ih.3,
      ih.4
          ∙ ap (λ l. l ++ map (letter_event inp1) codes) one.4
          ∙ append_snoc (contents inp) ev (map (letter_event inp1) codes)
          ∙ ap (λ l. contents inp ++ (ev ∷ l)) (letter_event_eq inp inp1 codes same),
    )
