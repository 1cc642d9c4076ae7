-- ===== src/CString.antt =====
-- The string and memory functions of src/kernel/kernel.c and src/kernel/filesystem.c on buffers.
-- A buffer is the list of bytes from a pointer to the end of its array. `none` is an access past
-- that end. Bytes are character codes; the kernel only handles ASCII, so `char` is never negative.
pub mod Compare
pub mod Copy
mod Tests
use phantom_os.Prelude.{
  ℕ, zero, suc, ◌+◌, ◌-◌, ◌%◌, ◌^◌, Bool, true, false, not, ◌&&◌, ◌||◌, Option, none, some, List,
  [], ◌∷◌, ◌++◌, ◌==◌, if◌then◌else◌, leb, take, drop, ◌>>=◌,
}
use Prim.Native.Char.{code}
use Prim.Native.String.{String}

abbrev pub Buffer : Type 0
Buffer = List ℕ

-- What a buffer holds as a string, and what the other modules keep of one.
abbrev pub Text : Type 0
Text = List ℕ

-- A string literal of the source.
abbrev pub codes : String → Text
codes String.[] = []
codes (String.◌∷◌ c s) = code c ∷ codes s

-- A difference of two characters: `negsuc n` is -(n + 1).
pub data ℤ : Type 0 where
  pos : ℕ → ℤ
  negsuc : ℕ → ℤ

abbrev pub sub_ℕ : ℕ → ℕ → ℤ
sub_ℕ a b = if leb b a then pos (a - b) else negsuc (b - a - 1)

unfoldable pub strlen : Buffer → Option ℕ
strlen [] = none
strlen (c ∷ cs) = let rest = strlen cs in if c == 0 then some 0 else (rest >>= λ n. some (suc n))

unfoldable pub strcmp : Buffer → Buffer → Option ℤ
strcmp [] _ = none
strcmp (a ∷ xs) [] = none
strcmp (a ∷ xs) (b ∷ ys) =
    let rest = strcmp xs ys in
    if not (a == 0) && (not (b == 0) && a == b) then rest else some (sub_ℕ a b)

unfoldable pub strncmp : Buffer → Buffer → ℕ → Option ℤ
strncmp xs ys zero = some (pos 0)
strncmp [] _ (suc n) = none
strncmp (a ∷ xs) [] (suc n) = none
strncmp (a ∷ xs) (b ∷ ys) (suc n) =
    let rest = strncmp xs ys n in
    if not (a == b) || (a == 0 || b == 0) then some (sub_ℕ a b) else rest

-- The value is the destination after the call.
unfoldable pub strcpy : Buffer → Buffer → Option Buffer
strcpy _ [] = none
strcpy [] (c ∷ cs) = none
strcpy (d ∷ ds) (c ∷ cs) =
    let rest = strcpy ds cs in if c == 0 then some (0 ∷ ds) else (rest >>= λ out. some (c ∷ out))

-- The loop of `strncpy`, with `k` characters left of its bound `n - 1`.
unfoldable pub strncpy_loop : ℕ → Buffer → Buffer → Option Buffer
strncpy_loop _ [] _ = none
strncpy_loop zero (d ∷ ds) _ = some (0 ∷ ds)
strncpy_loop (suc k) (d ∷ ds) [] = none
strncpy_loop (suc k) (d ∷ ds) (c ∷ cs) =
    let rest = strncpy_loop k ds cs in
    if c == 0 then some (0 ∷ ds) else (rest >>= λ out. some (c ∷ out))

-- `n - 1` is computed in 32 bits.
unfoldable pub strncpy : Buffer → Buffer → ℕ → Option Buffer
strncpy dest src n = strncpy_loop ((n + 2 ^ 32 - 1) % 2 ^ 32) dest src

unfoldable pub strcat : Buffer → Buffer → Option Buffer
strcat dest src = do n ← strlen dest; tail ← strcpy (drop n dest) src; some (take n dest ++ tail)

-- `(unsigned char)value` keeps the low eight bits.
unfoldable pub memset : Buffer → ℕ → ℕ → Option Buffer
memset ds value zero = some ds
memset [] value (suc n) = none
memset (d ∷ ds) value (suc n) = memset ds value n >>= λ out. some ((value % 256) ∷ out)

unfoldable pub memcpy : Buffer → Buffer → ℕ → Option Buffer
memcpy ds ss zero = some ds
memcpy [] _ (suc n) = none
memcpy (d ∷ ds) [] (suc n) = none
memcpy (d ∷ ds) (c ∷ cs) (suc n) = memcpy ds cs n >>= λ out. some (c ∷ out)
