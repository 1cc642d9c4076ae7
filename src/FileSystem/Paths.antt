-- ===== src/FileSystem/Paths.antt =====
-- The path functions of src/kernel/filesystem.c. A `strcpy` or `strcat` into an array of `cap`
-- bytes faults where the text and its NUL do not fit.
pub mod Split
pub mod Walk
pub mod Components
pub mod Current
pub mod Stable
use phantom_os.Prelude.{
  ℕ, zero, suc, Option, none, some, List, [], ◌∷◌, ◌++◌, ◌==◌, ltb, if◌then◌else◌, length, take,
  drop, ◌>>=◌,
}
use mathlib.Core.List.{reverse}
use phantom_os.CString.{Text, ℤ, codes}
use phantom_os.FileSystem.{
  is_directory, Ptr, Fs, success, failure, not_directory, same_ptr, max_filename_length,
  max_path_length,
}
use phantom_os.FileSystem.Lookup.{resolve_path}

abbrev pub fit : ℕ → Text → Option Text
fit cap t = if ltb (length t) cap then some t else none

-- The character at an index of a string, with its NUL.
abbrev pub char_at : Text → ℕ → ℕ
char_at [] i = 0
char_at (c ∷ t) zero = c
char_at (c ∷ t) (suc i) = char_at t i

-- `for (i = n - 1; i >= 0; i--) if (path[i] == '/') …`; `none` is the index -1.
unfoldable pub last_slash : ℕ → Text → Option ℕ
last_slash zero path = none
last_slash (suc i) path =
    let rest = last_slash i path in if char_at path i == b'/' then some i else rest

-- `fs_get_parent_path` into an array of `MAX_PATH_LENGTH` bytes.
unfoldable pub get_parent_path : Text → Option Text
get_parent_path path = do
  parent ← fit max_path_length path
  elim (last_slash (length parent) parent) [
    | none ↦ some (codes "/")
    | some i ↦ if i == 0 then some (codes "/") else some (take i parent)
  ]

-- `fs_get_filename` into an array of `MAX_FILENAME_LENGTH` bytes.
unfoldable pub get_filename : Text → Option Text
get_filename path = elim (last_slash (length path) path) [
  | none ↦ fit max_filename_length path
  | some i ↦ fit max_filename_length (drop (suc i) path)
]

-- The names from `p` up to the root, at most `left` of them.
unfoldable pub climb : Fs → (left : ℕ) → Option Ptr → Option (List Text)
climb s zero p = some []
climb s (suc left) p =
    if same_ptr p s.root
    then some []
    else do q ← p; n ← s.node q; rest ← climb s left n.parent; some (n.name ∷ rest)

-- One round of the loop that builds the path: a separator unless the path is "/", and the name.
abbrev pub append_name : Text → Text → Text
append_name path name = if ltb 1 (length path) then (path ++ codes "/") ++ name else path ++ name

unfoldable pub build_path : Text → List Text → Option Text
build_path path [] = some path
build_path path (name ∷ names) = do
  longer ← fit max_path_length (append_name path name)
  build_path longer names

-- At most 16 components, collected from the current directory up and appended in reverse.
unfoldable pub update_current_path : Fs → Option Fs
update_current_path s =
    if same_ptr s.current_dir s.root then some (record s { current_path = codes "/" }) else do
      components ← climb s 16 s.current_dir
      path ← build_path (codes "/") (reverse components)
      some (record s { current_path = path })

unfoldable pub change_directory : Text → Fs → Option (ℤ × Fs)
change_directory path s = do
  target ← resolve_path s path
  elim target [
    | none ↦ some (failure, s)
    | some p ↦
        (s.node p >>= λ n.
        if is_directory n.type
        then (update_current_path (record s { current_dir = some p }) >>= λ s1. some (success, s1))
        else some (not_directory, s))
  ]
