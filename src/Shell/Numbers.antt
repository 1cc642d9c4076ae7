-- ===== src/Shell/Numbers.antt =====
-- The numbers that `stat` of src/kernel/kernel.c prints.
use phantom_os.Prelude.{
  ℕ, zero, suc, ◌+◌, ◌-◌, ◌*◌, ◌/◌, ◌%◌, ◌^◌, ◌<◌, ◌≡◌, ◌∙◌, ap, sym, refl, arith, Bool-cases, inl,
  inr, ◌==◌, [], ◌∷◌, Ends, ends, Ends-map, Ends-bind, length, ltb, true, ◌≤◌,
}
use phantom_os.CString.{Text}
use phantom_os.Shell.Listing.{digits, decimal}

-- The number that a text of decimal digits stands for, behind the digits of `v`.
abbrev pub value_after : ℕ → Text → ℕ
value_after v [] = v
value_after v (c ∷ t) = value_after (v * 10 + (c - b'0')) t

-- At most `room` digits stand before `acc`, and with it they stand for the number.
record IsNumeral (room n : ℕ) (acc t : Text) : Type 0 where
  value : value_after 0 t ≡ value_after n acc
  bound : length t ≤ length acc + room

digits-IsNumeral :
    (left room n : ℕ) (acc : Text)
    → n < 10 ^ room
    → room ≤ left
    → Ends (IsNumeral room n acc) (digits left n acc)
unfolding digits
digits-IsNumeral zero room n acc h within =
    let none_left : room ≡ 0 = omega (arith, within) in
    let no_more : n ≡ 0 = omega (arith, rw none_left at h) in
    rw no_more (ends (record { value = refl; bound = omega arith }))
digits-IsNumeral (suc left) zero n acc h within =
    let no_more : n ≡ 0 = omega (arith, h) in
    rw no_more (ends (record { value = refl; bound = omega arith }))
digits-IsNumeral (suc left) (suc room) n acc h within = elim (Bool-cases (n == 0)) [
  | inl no_more ↦
      let is : n ≡ 0 = ground (arith, no_more) in
      rw no_more
        (ends (record { value = ap (λ (v : ℕ). value_after v acc) (sym is); bound = omega arith }))
  | inr more ↦
      let whole : n / 10 * 10 + (b'0' + n % 10 - b'0') ≡ n = omega arith in
      rw more (
        Ends-map
          (digits-IsNumeral left room (n / 10) ((b'0' + n % 10) ∷ acc) (omega (arith, h))
            (omega (arith, within)))
          (λ t k. record {
            value = k.value ∙ ap (λ (v : ℕ). value_after v acc) whole;
            bound = omega (arith, k.bound);
          }))
]

-- Every number of at most 31 digits is printed, with its NUL in 32 bytes, with the digits that stand
-- for it.
pub decimal-value_after : (n : ℕ) → n < 10 ^ 31 → Ends (λ t. value_after 0 t ≡ n) (decimal n)
unfolding decimal
decimal-value_after n h = elim (Bool-cases (n == 0)) [
  | inl no_more ↦ rw no_more (ends (ground (arith, no_more)))
  | inr more ↦ rw more (
      Ends-bind (digits-IsNumeral 32 31 n [] h (omega arith)) (λ t k.
        let fits : ltb (length t) 32 ≡ true = ground (arith, k.bound) in rw fits (ends k.value)))
]
