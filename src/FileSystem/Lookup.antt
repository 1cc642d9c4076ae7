-- ===== src/FileSystem/Lookup.antt =====
-- `fs_find_child` and `fs_resolve_path` of src/kernel/filesystem.c. They change nothing; the outer
-- `none` is a fault (a NULL or dangling pointer), the inner one is the result NULL.
use phantom_os.Prelude.{
  ℕ, zero, suc, Option, none, some, [], ◌∷◌, ◌==◌, if◌then◌else◌, length, take, ◌-◌, ◌>>=◌,
}
use phantom_os.CString.{Text, codes}
use phantom_os.CString.Compare.{text_eq}
use phantom_os.FileSystem.{is_directory, Ptr, Fs, max_path_length}

-- The loop over `children`: the slots from `i` on, `left` of them. The result is the index.
unfoldable pub find_slot : Fs → (ℕ → Option Ptr) → Text → (left i : ℕ) → Option (Option ℕ)
find_slot s children name zero i = some none
find_slot s children name (suc left) i =
    let rest = find_slot s children name left (suc i) in
    elim (children i) [
      | none ↦ rest
      | some c ↦ (s.node c >>= λ m. if text_eq m.name name then some (some i) else rest)
    ]

unfoldable pub find_child : Fs → Option Ptr → Text → Option (Option Ptr)
find_child s none name = some none
find_child s (some p) name = do
  n ← s.node p
  (if is_directory n.type
      then (find_slot s n.children name n.child_count 0 >>= λ found. elim found [
        | none ↦ some none
        | some i ↦ some (n.children i)
      ])
      else some none)

-- The text up to the first '/', and what stands behind it if there is one.
unfoldable pub split_slash : Text → Text × Option Text
split_slash [] = ([], none)
split_slash (c ∷ t) =
    let (token, next) = split_slash t in if c == b'/' then ([], some t) else (c ∷ token, next)

-- What one path component does: `current` becomes another pointer, or the path is not found.
pub data Move : Type 0 where
  to : Option Ptr → Move
  missing : Move

unfoldable pub step : Fs → Option Ptr → Text → Option Move
step s current token =
    if text_eq token (codes ".")
    then some (to current)
    else if text_eq token (codes "..")
    then (current >>= λ p. s.node p >>= λ n. some (to n.parent))
    else (find_child s current token >>= λ found. elim found [
      | none ↦ some missing
      | some q ↦ some (to (some q))
    ])

-- `while (token && *token)`, with fuel; out of fuel counts as a fault.
unfoldable pub resolve_loop : ℕ → Fs → Option Ptr → Text → Option (Option Ptr)
resolve_loop zero s current token = none
resolve_loop (suc fuel) s current [] = some current
resolve_loop (suc fuel) s current (c ∷ t) =
    let (token, next) = split_slash (c ∷ t) in
    step s current token >>= λ m. elim m [
      | missing ↦ some none
      | to q ↦ elim next [ none ↦ some q | some rest ↦ resolve_loop fuel s q rest ]
    ]

-- From `current`, behind a leading slash. `path_copy` keeps 254 characters.
unfoldable pub resolve_from : Fs → Option Ptr → Text → Option (Option Ptr)
resolve_from s current [] = some current
resolve_from s current (c ∷ t) =
    let copy = take (max_path_length - 1 - 1) (c ∷ t) in
    resolve_loop (suc (length copy)) s current copy

unfoldable pub resolve_path : Fs → Text → Option (Option Ptr)
resolve_path s [] = some s.current_dir
resolve_path s (c ∷ t) =
    if c == b'/' then resolve_from s s.root t else resolve_from s s.current_dir (c ∷ t)
