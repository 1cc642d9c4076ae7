-- ===== src/CString/Compare.antt =====
-- `strlen`, `strcmp` and `strncmp` on buffers that hold strings.
use phantom_os.Prelude.{
  ℕ, zero, suc, ◌≡◌, refl, ap, ◌∙◌, ◌≢◌, ◌↔◌, Bool, true, false, ◌&&◌, none, some, [], ◌∷◌, ◌++◌,
  ◌==◌, arith, length, take, ==_iff, Bool-cases, inl, inr,
}
use phantom_os.CString.{Buffer, Text, ℤ, pos, sub_ℕ, strlen, strcmp, strncmp}

-- A text has no NUL, so a buffer `s ++ 0 ∷ rest` holds it as a string.
abbrev pub IsText : Text → Type 0
IsText [] = Unit {0}
IsText (c ∷ s) = (c ≢ 0) × IsText s

-- `strcmp(s, t) == 0`, on texts.
unfoldable pub text_eq : Text → Text → Bool
text_eq [] [] = true
text_eq [] (d ∷ t) = false
text_eq (c ∷ s) [] = false
text_eq (c ∷ s) (d ∷ t) = (c == d) && text_eq s t

pub text_eq_refl : (s : Text) → text_eq s s ≡ true
unfolding text_eq
text_eq_refl [] = refl
text_eq_refl (c ∷ s) = ground (arith, text_eq_refl s)

pub eq_of_text_eq : (s t : Text) → text_eq s t ≡ true → s ≡ t
unfolding text_eq
eq_of_text_eq [] [] h = refl
eq_of_text_eq [] (d ∷ t) h = cc
eq_of_text_eq (c ∷ s) [] h = cc
eq_of_text_eq (c ∷ s) (d ∷ t) h = ground (arith, eq_of_text_eq s t)

-- The length of a string is the number of characters before the first NUL.
pub strlen-length : (s : Text) (rest : Buffer) → IsText s → strlen (s ++ 0 ∷ rest) ≡ some (length s)
unfolding strlen
strlen-length [] rest h = refl
strlen-length (c ∷ s) rest h = ground (arith, strlen-length s rest h.1)

-- A buffer with no NUL makes `strlen` read past its end.
pub strlen-unterminated : (s : Text) → IsText s → strlen s ≡ none
unfolding strlen
strlen-unterminated [] h = refl
strlen-unterminated (c ∷ s) h = ground (arith, strlen-unterminated s h.1)

-- On two strings `strcmp` stays within both buffers, and returns 0 exactly when they are equal.
strcmp-eq_zero :
    (s t : Text) (rest_s rest_t : Buffer)
    → IsText s
    → IsText t
    → (d : ℤ) × (strcmp (s ++ 0 ∷ rest_s) (t ++ 0 ∷ rest_t) ≡ some d) × ((d ≡ pos 0) ↔ (s ≡ t))
unfolding strcmp
strcmp-eq_zero [] [] rs rt hs ht = (pos 0, refl, ((λ _. refl), (λ _. refl)))
strcmp-eq_zero [] (b ∷ t) rs rt hs ht = (sub_ℕ 0 b, ground arith, ((λ e. ground arith), λ e. cc))
strcmp-eq_zero (a ∷ s) [] rs rt hs ht = (sub_ℕ a 0, ground arith, ((λ e. ground arith), λ e. cc))
strcmp-eq_zero (a ∷ s) (b ∷ t) rs rt hs ht = elim (Bool-cases (a == b)) [
  | inl same ↦
      let (d, run, iff) = strcmp-eq_zero s t rs rt hs.1 ht.1 in
      (d, ground arith, ((λ e. cc (iff.0 e, (==_iff a b).0 same)), λ e. iff.1 (cc)))
  | inr differ ↦ (sub_ℕ a b, ground arith, ((λ e. ground arith), λ e. ground arith))
]

-- `text_eq` is what the test `strcmp(s, t) == 0` computes.
text_eq-strcmp :
    (s t : Text) (rest_s rest_t : Buffer)
    → IsText s
    → IsText t
    → (text_eq s t ≡ true) ↔ (strcmp (s ++ 0 ∷ rest_s) (t ++ 0 ∷ rest_t) ≡ some (pos 0))
text_eq-strcmp s t rs rt hs ht =
    let (d, run, iff) = strcmp-eq_zero s t rs rt hs ht in
    ((λ e. run ∙ ap some (iff.1 (eq_of_text_eq s t e))), λ e. rw (iff.0 (cc)) (text_eq_refl t))

-- `strncmp` returns 0 exactly when the first `n` characters are equal.
strncmp-eq_zero :
    (n : ℕ) (s t : Text) (rest_s rest_t : Buffer)
    → IsText s
    → IsText t
    → (d : ℤ) × (strncmp (s ++ 0 ∷ rest_s) (t ++ 0 ∷ rest_t) n ≡ some d)
      × ((d ≡ pos 0) ↔ (take n s ≡ take n t))
unfolding strncmp
strncmp-eq_zero zero s t rs rt hs ht = (pos 0, refl, ((λ _. refl), (λ _. refl)))
strncmp-eq_zero (suc n) [] [] rs rt hs ht = (pos 0, refl, ((λ _. refl), (λ _. refl)))
strncmp-eq_zero (suc n) [] (b ∷ t) rs rt hs ht =
    (sub_ℕ 0 b, ground arith, ((λ e. ground arith), λ e. cc))
strncmp-eq_zero (suc n) (a ∷ s) [] rs rt hs ht =
    (sub_ℕ a 0, ground arith, ((λ e. ground arith), λ e. cc))
strncmp-eq_zero (suc n) (a ∷ s) (b ∷ t) rs rt hs ht = elim (Bool-cases (a == b)) [
  | inl same ↦
      let (d, run, iff) = strncmp-eq_zero n s t rs rt hs.1 ht.1 in
      (d, ground arith, ((λ e. cc (iff.0 e, (==_iff a b).0 same)), λ e. iff.1 (cc)))
  | inr differ ↦ (sub_ℕ a b, ground arith, ((λ e. ground arith), λ e. ground arith))
]
