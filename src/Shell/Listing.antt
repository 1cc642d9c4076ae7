-- ===== src/Shell/Listing.antt =====
-- The commands of the shell, src/kernel/kernel.c, that show the file system.
use phantom_os.Prelude.{
  ℕ, zero, suc, ◌+◌, ◌/◌, ◌%◌, Bool, true, false, Option, none, some, List, [], ◌∷◌, ◌++◌, ◌==◌,
  ltb, if◌then◌else◌, ◌>>=◌,
}
use phantom_os.CString.{Buffer, Text, codes}
use phantom_os.FileSystem.{Ptr, Node, Fs, is_directory, pool_size}
use phantom_os.FileSystem.Lookup.{resolve_path}
use phantom_os.FileSystem.Content.{read_file}
use phantom_os.Terminal.{vga_white, vga_light_blue}
use phantom_os.FileSystem.Paths.{fit}
use phantom_os.Kernel.{Kernel, Output, write, say, paint, print}

unfoldable pub cmd_pwd : Kernel → Option Kernel
cmd_pwd k = print (write k.fs.current_path ∷ say "\n" ∷ []) k

-- The directory that `ls` and `tree` show; `none` inside where the argument is none.
unfoldable pub shown_dir : Text → Fs → Option (Option Node)
shown_dir [] s = s.current_dir >>= λ d. s.node d >>= λ n. some (some n)
shown_dir (c ∷ t) s = resolve_path s (c ∷ t) >>= λ found. elim found [
  | none ↦ some none
  | some p ↦ (s.node p >>= λ n. some (if is_directory n.type then some n else none))
]

abbrev pub shown_entry : Node → List Output
shown_entry m =
    if is_directory m.type
    then paint vga_light_blue ∷ write m.name ∷ paint vga_white ∷ []
    else write m.name ∷ []

-- A loop over the children from `i` on, `left` of them; `body` also gets whether a child is the last.
unfoldable pub each_child :
    (left i : ℕ) → (ℕ → Option Ptr) → (Ptr → Bool → Option (List Output)) → Option (List Output)
each_child zero i children body = some []
each_child (suc left) i children body = children i >>= λ c.
    body c (left == 0) >>= λ os. each_child left (suc i) children body >>= λ rest. some (os ++ rest)

abbrev pub list_child : Fs → Ptr → Bool → Option (List Output)
list_child s c last = s.node c >>= λ m. some (shown_entry m ++ say " " ∷ [])

unfoldable pub list_dir : Fs → Node → Option (List Output)
list_dir s n = each_child n.child_count 0 n.children (list_child s) >>= λ os.
    some (if ltb 0 n.child_count then os ++ say "\n" ∷ [] else os)

unfoldable pub cmd_ls : Text → Kernel → Option Kernel
cmd_ls arg1 k = shown_dir arg1 k.fs >>= λ dir. elim dir [
  | none ↦ print (say "ls: cannot access '" ∷ write arg1 ∷ say "': No such directory\n" ∷ []) k
  | some n ↦ (list_dir k.fs n >>= λ os. print os k)
]

unfoldable pub indent : ℕ → List Output
indent zero = []
indent (suc depth) = say "  " ∷ indent depth

abbrev branch : ℕ → Bool → List Output
branch zero last = []
branch (suc depth) true = say "`-- " ∷ []
branch (suc depth) false = say "|-- " ∷ []

-- `tree_print_node`, on fuel: out of fuel counts as a fault.
unfoldable pub tree_print_node : (fuel : ℕ) → Fs → Ptr → ℕ → Bool → Option (List Output)
tree_print_node zero s p depth last = none
tree_print_node (suc fuel) s p depth last = s.node p >>= λ n.
    let line = indent depth ++ (branch depth last ++ (shown_entry n ++ say "\n" ∷ [])) in
    if is_directory n.type
    then (each_child n.child_count 0 n.children (λ c l. tree_print_node fuel s c (suc depth) l)
        >>= λ rest. some (line ++ rest))
    else some line

unfoldable pub tree_dir : Fs → Node → Option (List Output)
tree_dir s n =
    each_child n.child_count 0 n.children (λ c l. tree_print_node pool_size s c 0 l) >>= λ rest.
    some (paint vga_light_blue ∷ write n.name ∷ paint vga_white ∷ say "\n" ∷ rest)

unfoldable pub cmd_tree : Text → Kernel → Option Kernel
cmd_tree arg1 k = shown_dir arg1 k.fs >>= λ dir. elim dir [
  | none ↦ print (say "tree: " ∷ write arg1 ∷ say ": Not a directory\n" ∷ []) k
  | some n ↦ (tree_dir k.fs n >>= λ os. print os k)
]

-- The loops that write a number into `temp`, which has 32 bytes, and copy it back to front.
unfoldable pub digits : (left : ℕ) → ℕ → Text → Option Text
digits zero n acc = if n == 0 then some acc else none
digits (suc left) n acc =
    let rest = digits left (n / 10) ((b'0' + n % 10) ∷ acc) in if n == 0 then some acc else rest

unfoldable pub decimal : ℕ → Option Text
decimal n = if n == 0 then some (codes "0") else (digits 32 n [] >>= λ t. fit 32 t)

abbrev type_output : Node → List Output
type_output n =
    if is_directory n.type
    then paint vga_light_blue ∷ say "directory" ∷ []
    else say "regular file" ∷ []

unfoldable pub stat_node : Node → Option (List Output)
stat_node n = decimal (if is_directory n.type then n.child_count else n.size) >>= λ number. some (
    (say "  File: " ∷ write n.name ∷ say "\n" ∷ say "  Type: " ∷ [])
    ++ (type_output n
        ++ (paint vga_white
            ∷ say "\n"
            ∷ (if is_directory n.type then say "  Contents: " else say "  Size: ")
            ∷ write number
            ∷ (if is_directory n.type then say " items\n" else say " bytes\n")
            ∷ [])))

unfoldable pub cmd_stat : Text → Kernel → Option Kernel
cmd_stat [] k = print (say "stat: missing file operand\n" ∷ []) k
cmd_stat (c ∷ t) k = resolve_path k.fs (c ∷ t) >>= λ found. elim found [
  | none ↦
      print (say "stat: cannot stat '" ∷ write (c ∷ t) ∷ say "': No such file or directory\n" ∷ [])
        k
  | some p ↦ (k.fs.node p >>= λ n. stat_node n >>= λ os. print os k)
]

-- The string that a buffer holds; without a NUL its end is passed.
unfoldable pub string_at : Buffer → Option Text
string_at [] = none
string_at (c ∷ cs) =
    let rest = string_at cs in if c == 0 then some [] else (rest >>= λ t. some (c ∷ t))

-- Whether a text ends in '\n'.
unfoldable pub ends_line : Text → Bool
ends_line [] = false
ends_line (c ∷ []) = c == 10
ends_line (c ∷ d ∷ t) = ends_line (d ∷ t)

abbrev pub cat_text : Text → List Output
cat_text t = if ends_line t then write t ∷ [] else write t ∷ say "\n" ∷ []

unfoldable pub cat_node : Ptr → Kernel → Option Kernel
cat_node p k = read_file k.fs (some p) >>= λ content. elim content [
  | none ↦ some k
  | some b ↦ (k.fs.block b >>= λ bytes. string_at bytes >>= λ t. print (cat_text t) k)
]

unfoldable pub cmd_cat : Text → Kernel → Option Kernel
cmd_cat [] k = print (say "cat: missing file operand\n" ∷ []) k
cmd_cat (c ∷ t) k = resolve_path k.fs (c ∷ t) >>= λ found. elim found [
  | none ↦ print (say "cat: " ∷ write (c ∷ t) ∷ say ": No such file or directory\n" ∷ []) k
  | some p ↦
      (k.fs.node p >>= λ n.
      if is_directory n.type
      then print (say "cat: " ∷ write (c ∷ t) ∷ say ": Is a directory\n" ∷ []) k
      else cat_node p k)
]
