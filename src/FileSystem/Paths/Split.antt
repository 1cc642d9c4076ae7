-- ===== src/FileSystem/Paths/Split.antt =====
-- `fs_get_parent_path` and `fs_get_filename` of src/kernel/filesystem.c: they cut a path at its last
-- slash.
use phantom_os.Prelude.{
  ℕ, zero, suc, ◌+◌, ◌≤◌, ◌<◌, ◌≡◌, refl, ◌≢◌, ap, none, some, [], ◌∷◌, ◌++◌, ◌==◌, lt→ltb,
  if◌then◌else◌, arith, Bool-cases, inl, inr, length, ◌>>=◌, length-append, take-append,
  drop-append-cons,
}
use phantom_os.CString.{Text, codes}
use phantom_os.FileSystem.{max_path_length, max_filename_length}
use phantom_os.FileSystem.Paths.{char_at, last_slash, get_parent_path, get_filename}

-- A text without a slash.
abbrev pub NoSlash : Text → Type 0
NoSlash [] = Unit {0}
NoSlash (c ∷ t) = (c ≢ b'/') × NoSlash t

char_at-NoSlash : (t : Text) (i : ℕ) → NoSlash t → char_at t i ≢ b'/'
char_at-NoSlash [] i h = λ e. cc
char_at-NoSlash (c ∷ t) zero h = h.0
char_at-NoSlash (c ∷ t) (suc i) h = char_at-NoSlash t i h.1

-- Behind the first part of a path the characters are those of the second.
char_at-append : (d t : Text) (j i : ℕ) → j ≡ length d + i → char_at (d ++ t) j ≡ char_at t i
char_at-append [] t j i e = let same : j ≡ i = omega arith in rw same refl
char_at-append (c ∷ d) t zero i e = absurd (omega arith)
char_at-append (c ∷ d) t (suc j) i e = char_at-append d t j i (omega arith)

-- A path with no slash.
last_slash-none : (k : ℕ) (t : Text) → NoSlash t → last_slash k t ≡ none
unfolding last_slash
last_slash-none zero t h = refl
last_slash-none (suc k) t h = ground (arith, last_slash-none k t h, char_at-NoSlash t k h)

-- The slash between `d` and a last part `f` without one is found from any point in `f` on.
last_slash-between :
    (k : ℕ) (d f : Text)
    → NoSlash f
    → k ≤ length f
    → last_slash (suc (length d) + k) (d ++ b'/' ∷ f) ≡ some (length d)
unfolding last_slash
last_slash-between zero d f h le =
    let e : suc (length d) + 0 ≡ suc (length d) = omega arith in
    let at : char_at (d ++ b'/' ∷ f) (length d) ≡ b'/' =
      char_at-append d (b'/' ∷ f) (length d) 0 (omega arith) in
    rw e (rw at refl)
last_slash-between (suc k) d f h le =
    let e : suc (length d) + suc k ≡ suc (suc (length d) + k) = omega arith in
    let at : char_at (d ++ b'/' ∷ f) (suc (length d) + k) ≡ char_at f k =
      char_at-append d (b'/' ∷ f) (suc (length d) + k) (suc k) (omega arith) in
    rw e (ground (arith, at, char_at-NoSlash f k h, last_slash-between k d f h (omega arith)))

last_slash-append :
    (d f : Text) → NoSlash f → last_slash (length (d ++ b'/' ∷ f)) (d ++ b'/' ∷ f) ≡ some (length d)
last_slash-append d f h =
    let e : length (d ++ b'/' ∷ f) ≡ suc (length d) + length f =
      omega (arith, length-append d (b'/' ∷ f)) in
    rw e (last_slash-between (length f) d f h (omega arith))

-- A path `d/f` whose last part `f` has no slash splits into the directory `d`, or "/" where `d` is
-- empty, and the name `f`, provided that they fit in the arrays of 256 and 64 bytes.
pub split-append :
    (d f : Text)
    → NoSlash f
    → length (d ++ b'/' ∷ f) < max_path_length
    → length f < max_filename_length
    → (get_parent_path (d ++ b'/' ∷ f) ≡ some (if length d == 0 then codes "/" else d))
      × (get_filename (d ++ b'/' ∷ f) ≡ some f)
unfolding get_parent_path get_filename
split-append d f h short name = (
  rw (lt→ltb _ _ short, ◌>>=◌)
      (rw (last_slash-append d f h) (elim (Bool-cases (length d == 0)) [
        | inl empty ↦ rw empty refl
        | inr more ↦ rw more (ap some (take-append (length d) d _ refl))
      ])),
  rw (last_slash-append d f h, get_filename)
      (rw (drop-append-cons d f b'/') (rw (lt→ltb _ _ name) refl)),
)

-- A path without a slash is a name in the root directory, not in the current one.
pub split_name :
    (f : Text)
    → NoSlash f
    → length f < max_filename_length
    → (get_parent_path f ≡ some (codes "/")) × (get_filename f ≡ some f)
unfolding get_parent_path get_filename
split_name f h name =
    let short : length f < max_path_length = omega arith in
    (
      rw (lt→ltb _ _ short, ◌>>=◌) (rw (last_slash-none (length f) f h) refl),
      rw (last_slash-none (length f) f h, get_filename) (rw (lt→ltb _ _ name) refl),
    )
