-- ===== src/CString/Copy.antt =====
-- `strcpy`, `strncpy`, `strcat`, `memset` and `memcpy`: what the destination holds afterwards.
use phantom_os.Prelude.{
  ℕ, zero, suc, ◌+◌, ◌-◌, ◌%◌, ◌^◌, ◌≤◌, ◌<◌, ◌≡◌, refl, none, some, [], ◌∷◌, ◌++◌, arith, length,
  take, drop, replicate, length-take, take-append, drop-append,
}
use mathlib.Core.List.{append_assoc}
use phantom_os.CString.{Buffer, Text, strcpy, strncpy_loop, strncpy, strcat, memset, memcpy}
use phantom_os.CString.Compare.{IsText, strlen-length}

-- `strcpy` writes the string and its NUL and leaves the rest of the destination.
strcpy-text :
    (s : Text) (dest rest : Buffer)
    → IsText s
    → length s < length dest
    → strcpy dest (s ++ 0 ∷ rest) ≡ some (s ++ 0 ∷ drop (suc (length s)) dest)
unfolding strcpy
strcpy-text [] [] rest h fits = absurd (omega arith)
strcpy-text [] (d ∷ ds) rest h fits = refl
strcpy-text (c ∷ s) [] rest h fits = absurd (omega arith)
strcpy-text (c ∷ s) (d ∷ ds) rest h fits = ground (arith, strcpy-text s ds rest h.1 (omega arith))

-- A string that does not fit is written past the end of the destination.
strcpy-overflow :
    (s : Text) (dest rest : Buffer)
    → IsText s
    → length dest ≤ length s
    → strcpy dest (s ++ 0 ∷ rest) ≡ none
unfolding strcpy
strcpy-overflow [] [] rest h fits = refl
strcpy-overflow [] (d ∷ ds) rest h fits = absurd (omega arith)
strcpy-overflow (c ∷ s) [] rest h fits = refl
strcpy-overflow (c ∷ s) (d ∷ ds) rest h fits =
    ground (arith, strcpy-overflow s ds rest h.1 (omega arith))

strncpy_loop-take :
    (k : ℕ) (s : Text) (dest rest : Buffer)
    → IsText s
    → length (take k s) < length dest
    → strncpy_loop k dest (s ++ 0 ∷ rest)
      ≡ some (take k s ++ 0 ∷ drop (suc (length (take k s))) dest)
unfolding strncpy_loop
strncpy_loop-take zero s [] rest h fits = absurd (omega arith)
strncpy_loop-take zero s (d ∷ ds) rest h fits = refl
strncpy_loop-take (suc k) s [] rest h fits = absurd (omega arith)
strncpy_loop-take (suc k) [] (d ∷ ds) rest h fits = refl
strncpy_loop-take (suc k) (c ∷ s) (d ∷ ds) rest h fits =
    ground (arith, strncpy_loop-take k s ds rest h.1 (omega arith))

-- For `0 < n` the destination then holds the first `n - 1` characters, always terminated.
strncpy-take :
    (n : ℕ) (s : Text) (dest rest : Buffer)
    → IsText s
    → 0 < n
    → n < 2 ^ 32
    → n ≤ length dest
    → strncpy dest (s ++ 0 ∷ rest) n
      ≡ some (take (n - 1) s ++ 0 ∷ drop (suc (length (take (n - 1) s))) dest)
unfolding strncpy
strncpy-take n s dest rest h p w fits =
    let e : (n + 2 ^ 32 - 1) % 2 ^ 32 ≡ n - 1 = omega arith in
    rw e (strncpy_loop-take (n - 1) s dest rest h (omega (arith, length-take (n - 1) s)))

-- `strcat` appends the source to the string that the destination holds.
strcat-append :
    (s t : Text) (space rest : Buffer)
    → IsText s
    → IsText t
    → length t ≤ length space
    → strcat (s ++ 0 ∷ space) (t ++ 0 ∷ rest) ≡ some ((s ++ t) ++ 0 ∷ drop (length t) space)
unfolding strcat
strcat-append s t space rest hs ht fits =
    rw (strlen-length s space hs, drop-append s (0 ∷ space), take-append (length s) s _ refl)
      (rw (strcpy-text t (0 ∷ space) rest ht (omega arith), append_assoc) refl)

-- `memset(p, 0, n)` on a buffer of `n` bytes clears all of it.
pub memset-replicate : (ds : Buffer) → memset ds 0 (length ds) ≡ some (replicate (length ds) 0)
unfolding memset replicate
memset-replicate [] = refl
memset-replicate (d ∷ ds) = rw (memset-replicate ds)

-- `memcpy` replaces the first `n` bytes, and stays in bounds when both buffers have as many.
pub memcpy-take :
    (n : ℕ) (dest src : Buffer)
    → n ≤ length dest
    → n ≤ length src
    → memcpy dest src n ≡ some (take n src ++ drop n dest)
unfolding memcpy
memcpy-take zero dest src hd hs = refl
memcpy-take (suc n) [] src hd hs = absurd (omega arith)
memcpy-take (suc n) (d ∷ ds) [] hd hs = absurd (omega arith)
memcpy-take (suc n) (d ∷ ds) (c ∷ cs) hd hs = rw (memcpy-take n ds cs (omega arith) (omega arith))
