-- ===== src/Shell/Words.antt =====
-- `parse_command_args` of src/kernel/kernel.c: how it cuts a line into words.
use mathlib.Core.List.{append_assoc, append-nil}
use phantom_os.Prelude.{
  ℕ, ◌+◌, ◌≤◌, ◌<◌, ◌≡◌, refl, ◌≢◌, ap, sym, ◌∙◌, arith, true, false, Bool-cases, inl, inr, ltb,
  ◌==◌, if◌then◌else◌, [], ◌∷◌, ◌++◌, length, take, take_all, take-append, length-append,
}
use phantom_os.CString.{Text}
use phantom_os.Shell.{
  reading_cmd, before_arg1, reading_arg1, before_arg2, reading_arg2, Parse, put_char, parse_start,
  parse_char, parse_loop, parse_command_args,
}

-- A text without a space.
abbrev pub IsWord : Text → Type 0
IsWord [] = Unit {0}
IsWord (c ∷ t) = (c ≢ b' ') × IsWord t

-- A text less its spaces.
abbrev pub without_spaces : Text → Text
without_spaces [] = []
without_spaces (c ∷ t) = if c == b' ' then without_spaces t else c ∷ without_spaces t

put_char-append : (c : ℕ) (x : Text) → length x < 63 → put_char c x ≡ x ++ c ∷ []
put_char-append c x h = ground arith

put_cmd :
    (c : ℕ) (x : Text)
    → c ≢ b' '
    → length x < 63
    → parse_char reading_cmd c (record { state = reading_cmd; cmd = x; arg1 = []; arg2 = [] })
      ≡ record { state = reading_cmd; cmd = x ++ c ∷ []; arg1 = []; arg2 = [] }
unfolding parse_char
put_cmd c x h short =
    let plain : (c == b' ') ≡ false = ground (arith, h) in
    rw plain (rw (put_char-append c x short) refl)

put_arg1 :
    (c : ℕ) (cmd x : Text)
    → c ≢ b' '
    → length x < 63
    → parse_char reading_arg1 c (record { state = reading_arg1; cmd = cmd; arg1 = x; arg2 = [] })
      ≡ record { state = reading_arg1; cmd = cmd; arg1 = x ++ c ∷ []; arg2 = [] }
unfolding parse_char
put_arg1 c cmd x h short =
    let plain : (c == b' ') ≡ false = ground (arith, h) in
    rw plain (rw (put_char-append c x short) refl)

-- What the loop does with a word.
read_cmd :
    (w t x : Text)
    → IsWord w
    → length x + length w < 64
    → parse_loop (w ++ b' ' ∷ t) (record { state = reading_cmd; cmd = x; arg1 = []; arg2 = [] })
      ≡ parse_loop t (record { state = before_arg1; cmd = x ++ w; arg1 = []; arg2 = [] })
unfolding parse_loop parse_char
read_cmd [] t x h short = rw (append-nil x) refl
read_cmd (c ∷ w) t x h short =
    ap (parse_loop (w ++ b' ' ∷ t)) (put_cmd c x h.0 (omega arith))
    ∙ read_cmd w t (x ++ c ∷ []) h.1 (omega (arith, length-append x (c ∷ []), short))
    ∙ ap
        (λ (y : Text). parse_loop t (record { state = before_arg1; cmd = y; arg1 = []; arg2 = [] }))
        (append_assoc x (c ∷ []) w)

read_arg1 :
    (w t cmd x : Text)
    → IsWord w
    → length x + length w < 64
    → parse_loop (w ++ b' ' ∷ t) (record { state = reading_arg1; cmd = cmd; arg1 = x; arg2 = [] })
      ≡ parse_loop t (record { state = before_arg2; cmd = cmd; arg1 = x ++ w; arg2 = [] })
unfolding parse_loop parse_char
read_arg1 [] t cmd x h short = rw (append-nil x) refl
read_arg1 (c ∷ w) t cmd x h short =
    ap (parse_loop (w ++ b' ' ∷ t)) (put_arg1 c cmd x h.0 (omega arith))
    ∙ read_arg1 w t cmd (x ++ c ∷ []) h.1 (omega (arith, length-append x (c ∷ []), short))
    ∙ ap
        (λ (y : Text).
          parse_loop t (record { state = before_arg2; cmd = cmd; arg1 = y; arg2 = [] }))
        (append_assoc x (c ∷ []) w)

-- The loop in its last state, and what it holds once the characters `y` are read.
abbrev second : Text → Text → Text → Parse
second cmd a x = record { state = reading_arg2; cmd = cmd; arg1 = a; arg2 = x }

abbrev kept : Text → Text → Text → Text → Parse
kept cmd a x y = second cmd a (take 63 (x ++ y))

skip_space : (c : ℕ) (t : Text) → (c == b' ') ≡ true → without_spaces (c ∷ t) ≡ without_spaces t
skip_space c t e = rw e refl

keep_char : (c : ℕ) (t : Text) → (c == b' ') ≡ false → without_spaces (c ∷ t) ≡ c ∷ without_spaces t
keep_char c t e = rw e refl

-- The second argument collects the characters of all the words behind it.
read_arg2 :
    (t cmd a x : Text)
    → length x < 64
    → parse_loop t (record { state = reading_arg2; cmd = cmd; arg1 = a; arg2 = x })
      ≡ record { state = reading_arg2; cmd = cmd; arg1 = a; arg2 = take 63 (x ++ without_spaces t) }
unfolding parse_loop parse_char
read_arg2 [] cmd a x h = rw (append-nil x, take_all 63 x (omega arith)) refl
read_arg2 (c ∷ t) cmd a x h = elim (Bool-cases (c == b' ')) [
  | inl space ↦
      let step : parse_char reading_arg2 c (second cmd a x) ≡ second cmd a x = rw space refl in
      ap (parse_loop t) step
      ∙ read_arg2 t cmd a x h
      ∙ ap (kept cmd a x) (sym (skip_space c t space))
  | inr other ↦ elim (Bool-cases (ltb (length x) 63)) [
    | inl room ↦
        let step : parse_char reading_arg2 c (second cmd a x) ≡ second cmd a (x ++ c ∷ []) =
          rw other (rw room refl) in
        ap (parse_loop t) step
        ∙ read_arg2 t cmd a (x ++ c ∷ []) (ground (arith, length-append x (c ∷ [])))
        ∙ ap (λ (y : Text). second cmd a (take 63 y)) (append_assoc x (c ∷ []) (without_spaces t))
        ∙ ap (kept cmd a x) (sym (keep_char c t other))
    | inr full ↦
        let exact : 63 ≡ length x = ground arith in
        let step : parse_char reading_arg2 c (second cmd a x) ≡ second cmd a x =
          rw other (rw full refl) in
        ap (parse_loop t) step
        ∙ read_arg2 t cmd a x h
        ∙ ap (second cmd a) (
            take-append 63 x (without_spaces t) exact
            ∙ sym (take-append 63 x (without_spaces (c ∷ t)) exact))
  ]
]

-- What a finished parse holds.
abbrev pub Holds : Text → Text → Text → Parse → Type 0
Holds cmd a b p = (p.cmd ≡ cmd) × (p.arg1 ≡ a) × (p.arg2 ≡ b)

Holds-eq : {cmd a b : Text} {p q : Parse} → p ≡ q → Holds cmd a b q → Holds cmd a b p
Holds-eq e h = rw e h

find_arg2 :
    (t cmd a : Text)
    → Holds cmd a
        (take 63 (without_spaces t))
        (parse_loop t (record { state = before_arg2; cmd = cmd; arg1 = a; arg2 = [] }))
unfolding parse_loop parse_char
find_arg2 [] cmd a = (refl, refl, refl)
find_arg2 (c ∷ t) cmd a =
    let before : Parse = record { state = before_arg2; cmd = cmd; arg1 = a; arg2 = [] } in
    elim (Bool-cases (c == b' ')) [
      | inl space ↦
          let step : parse_char before_arg2 c before ≡ before = rw space refl in
          Holds-eq (ap (parse_loop t) step) (rw space (find_arg2 t cmd a))
      | inr other ↦
          let step : parse_char before_arg2 c before ≡ second cmd a (c ∷ []) = rw other refl in
          Holds-eq (ap (parse_loop t) step ∙ read_arg2 t cmd a (c ∷ []) (omega arith))
            (rw other (refl, refl, refl))
    ]

start_arg1 :
    (t cmd : Text) (c : ℕ)
    → c ≢ b' '
    → parse_loop (c ∷ t) (record { state = before_arg1; cmd = cmd; arg1 = []; arg2 = [] })
      ≡ parse_loop t (record { state = reading_arg1; cmd = cmd; arg1 = c ∷ []; arg2 = [] })
unfolding parse_loop parse_char
start_arg1 t cmd c h =
    let plain : (c == b' ') ≡ false = ground (arith, h) in ap (parse_loop t) (rw plain refl)

words_of :
    (w a t : Text) (c : ℕ)
    → IsWord w
    → IsWord (c ∷ a)
    → length w < 64
    → length a + 1 < 64
    → Holds w
        (c ∷ a)
        (take 63 (without_spaces t))
        (parse_loop (w ++ b' ' ∷ c ∷ (a ++ b' ' ∷ t)) parse_start)
words_of w a t c hw ha sw sa =
    Holds-eq
      (read_cmd w (c ∷ (a ++ b' ' ∷ t)) [] hw (omega (arith, sw))
        ∙ start_arg1 (a ++ b' ' ∷ t) w c ha.0
        ∙ read_arg1 a t w (c ∷ []) ha.1 (omega (arith, sa)))
      (find_arg2 t w (c ∷ a))

-- A line of at most 255 characters, of two words of fewer than 64 characters, with exactly one space
-- between them and a space behind the second, and a rest, is cut into the words and the rest without
-- its spaces: all further words are run together into the second argument, of which 63 characters
-- are kept.
pub parse_command_args-words :
    (w a t : Text) (c : ℕ)
    → IsWord w
    → IsWord (c ∷ a)
    → length w < 64
    → length a + 1 < 64
    → length (w ++ b' ' ∷ c ∷ (a ++ b' ' ∷ t)) ≤ 255
    → Holds w
        (c ∷ a)
        (take 63 (without_spaces t))
        (parse_command_args (w ++ b' ' ∷ c ∷ (a ++ b' ' ∷ t)))
unfolding parse_command_args
parse_command_args-words w a t c hw ha sw sa short =
    rw (take_all 255 (w ++ b' ' ∷ c ∷ (a ++ b' ' ∷ t)) short) (words_of w a t c hw ha sw sa)
