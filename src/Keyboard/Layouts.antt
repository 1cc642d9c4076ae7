-- ===== src/Keyboard/Layouts.antt =====
-- Where the keyboard layouts of src/kernel/kernel.c have a character for a scancode.
use phantom_os.Prelude.{
  ℕ, zero, suc, ◌<◌, ◌≤◌, ◌≡◌, ◌⊎◌, inl, inr, refl, arith, ltb, Bool-cases, Bool, true, false,
  Option, none, some, List, [], ◌∷◌, length, Ends, ends, ◌>>=◌,
}
use phantom_os.Keyboard.{read_at, table_size, layout, apply_caps, translate}

read_at-within : (cs : List ℕ) (i : ℕ) → i < length cs → Ends (λ _. Unit) (read_at cs i)
unfolding read_at
read_at-within [] i h = absurd (omega arith)
read_at-within (c ∷ cs) zero h = ends tt
read_at-within (c ∷ cs) (suc i) h = read_at-within cs i (omega arith)

read_at-behind : (cs : List ℕ) (i : ℕ) → length cs ≤ i → read_at cs i ≡ none
unfolding read_at
read_at-behind [] i h = refl
read_at-behind (c ∷ cs) zero h = absurd (omega arith)
read_at-behind (c ∷ cs) (suc i) h = read_at-behind cs i (omega arith)

-- Below 90 the German tables have an entry; the US tables have 58.
abbrev pub layout_size : Bool → ℕ
layout_size true = table_size
layout_size false = 58

length-layout : (german shift : Bool) → length (layout german shift) ≡ layout_size german
length-layout true true = refl
length-layout true false = refl
length-layout false true = refl
length-layout false false = refl

-- What `translate` gives: a character within the table, a read past its end behind it.
pub data Translated (german : Bool) (scancode : ℕ) : Option ℕ → Type 0 where
  within : {c : ℕ} → scancode < layout_size german → Translated german scancode (some c)
  behind : layout_size german ≤ scancode → Translated german scancode none

-- `translate` has a character exactly for a scancode within the table of the layout.
pub translate-Translated :
    (german shift caps : Bool) (scancode : ℕ)
    → Translated german scancode (translate german shift caps scancode)
unfolding translate
translate-Translated german shift caps scancode =
    elim (Bool-cases (ltb scancode (layout_size german))) [
      | inl inside ↦
          let bound : scancode < layout_size german = ground (arith, inside) in
          from_ends bound
            (read_at-within (layout german shift) scancode (rw (length-layout german shift) bound))
      | inr outside ↦
          let bound : layout_size german ≤ scancode = ground (arith, outside) in
          rw
            (
              read_at-behind (layout german shift) scancode (rw (length-layout german shift) bound),
              ◌>>=◌,
            )
            (behind bound)
    ]
  where
    from_ends :
        {r : Option ℕ}
        → scancode < layout_size german
        → Ends (λ _. Unit) r
        → Translated german scancode (r >>= λ c. some (apply_caps caps c))
    from_ends bound (ends h) = within bound

-- A scancode that the layout covers, or that is not looked up.
abbrev pub Covers : Bool → ℕ → Type 0
Covers german scancode = (scancode < layout_size german) ⊎ (table_size ≤ scancode)

pub translate-Ends :
    (german shift caps : Bool) (scancode : ℕ)
    → scancode < layout_size german
    → Ends (λ _. Unit) (translate german shift caps scancode)
translate-Ends german shift caps scancode h =
    from h (translate-Translated german shift caps scancode)
  where
    from :
        {r : Option ℕ}
        → scancode < layout_size german
        → Translated german scancode r
        → Ends (λ _. Unit) r
    from h (within k) = ends tt
    from h (behind k) = absurd (omega (arith, h, k))
