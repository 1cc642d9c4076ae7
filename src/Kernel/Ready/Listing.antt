-- ===== src/Kernel/Ready/Listing.antt =====
-- The commands of the shell, src/kernel/kernel.c, that show the file system end without a fault.
use phantom_os.Prelude.{
  ℕ, zero, suc, ◌+◌, ◌^◌, ◌≤◌, ◌<◌, ◌≡◌, ◌≢◌, ◌⊎◌, arith, Bool, true, false, Bool-cases,
  Option-cases, inl, inr, ◌==◌, if◌then◌else◌, Option, none, some, List, [], ◌∷◌, drop, replicate,
  Ends, ends, Ends-bind, Ends-map, Ends-if, ◌>>=◌,
}
use phantom_os.CString.{Buffer, Text}
use phantom_os.FileSystem.{Ptr, Node, Fs, is_directory, pool_size}
use phantom_os.FileSystem.Content.{read_file}
use phantom_os.FileSystem.Invariant.{IsChild}
use phantom_os.FileSystem.Invariant.Resolve.{IsValidPtr, resolve_path-IsValidPtr}
use phantom_os.FileSystem.Invariant.Tidy.{text_limit, HasTail}
use phantom_os.FileSystem.Operations.Files.{IsFiles}
use phantom_os.FileSystem.Operations.Copy.{found_node}
use phantom_os.Kernel.{Kernel, Output, write, say, print}
use phantom_os.Kernel.Ready.{IsReady, print-IsReady}
use phantom_os.Shell.Numbers.{decimal-value_after}
use phantom_os.Shell.Listing.{
  shown_dir, each_child, list_dir, cmd_ls, tree_print_node, tree_dir, cmd_tree, decimal, stat_node,
  cmd_stat, string_at, cat_text, cat_node, cmd_cat,
}

-- A call ends without a fault.
abbrev pub Total {ℓ} : {A : Type ℓ} → Option A → Type ℓ
Total r = Ends (λ _. Unit) r

-- The directory that a command shows is a node of the file system.
data IsShown (s : Fs) : Option Node → Type 0 where
  nothing : IsShown s none
  shown : (p : Ptr) (n : Node) → s.node p ≡ some n → IsShown s (some n)

shown_dir-IsShown : {s : Fs} (arg1 : Text) → IsFiles s → Ends (IsShown s) (shown_dir arg1 s)
unfolding shown_dir
shown_dir-IsShown {s} [] ok =
    let (d, at, dir) = ok.well.tree.current in
    rw (at, ◌>>=◌) (rw (dir.found, ◌>>=◌) (ends (shown d dir.target dir.found)))
shown_dir-IsShown {s} (c ∷ t) ok =
    let (found, e, valid) = resolve_path-IsValidPtr (c ∷ t) ok.well.tree in
    rw (e, ◌>>=◌) (from found valid)
  where
    pick :
        (b : Bool) (p : Ptr) (n : Node) → s.node p ≡ some n → IsShown s (if b then some n else none)
    pick true p n at = shown p n at
    pick false p n at = nothing

    from :
        (found : Option Ptr)
        → IsValidPtr s found
        → Ends (IsShown s) (elim found [
          | none ↦ some none
          | some p ↦ (s.node p >>= λ n. some (if is_directory n.type then some n else none))
        ])
    from none valid = ends nothing
    from (some p) valid =
        let (n, at, placed) = found_node s valid in
        rw (at, ◌>>=◌) (ends (pick (is_directory n.type) p n at))

-- Every slot of a directory below its count holds a child, to which `body` applies.
each_child-Total :
    {s : Fs} {p : Ptr} {n : Node} (left i : ℕ) {body : Ptr → Bool → Option (List Output)}
    → IsFiles s
    → s.node p ≡ some n
    → i + left ≤ n.child_count
    → ((c : Ptr) (last : Bool) → p < c → IsChild s.node p c → Total (body c last))
    → Total (each_child left i n.children body)
unfolding each_child
each_child-Total zero i ok cell h total = ends tt
each_child-Total {s} {p} {n} (suc left) i {body} ok cell h total =
    let node = ok.well.tree.nodes p n cell in
    elim (Option-cases (n.children i)) [
      | inl empty ↦ absurd (node.used i (omega arith) empty)
      | inr (c, slot) ↦
          rw (slot, ◌>>=◌)
            (Ends-bind
              (total c (left == 0) ((ok.tidy.nodes p n cell).order i c slot) (node.child i c slot))
              (λ os _.
                Ends-bind (each_child-Total left (suc i) ok cell (omega arith) total)
                  (λ rest _. ends tt)))
    ]

list_dir-Total :
    {s : Fs} {p : Ptr} {n : Node} → IsFiles s → s.node p ≡ some n → Total (list_dir s n)
unfolding list_dir
list_dir-Total {s} {p} {n} ok cell =
    Ends-bind
      (each_child-Total n.child_count 0 ok cell (omega arith)
        (λ c last before child. rw (child.found, ◌>>=◌) (ends tt)))
      (λ os _. ends tt)

-- `tree_print_node` ends: a child stands behind its directory in the pool.
pub tree_print_node-Total :
    (fuel : ℕ) {s : Fs} {p : Ptr} {n : Node} (depth : ℕ) (last : Bool)
    → IsFiles s
    → s.node p ≡ some n
    → pool_size ≤ p + fuel
    → Total (tree_print_node fuel s p depth last)
unfolding tree_print_node
tree_print_node-Total zero {s} {p} {n} depth last ok cell enough =
    absurd (omega (arith, enough, ok.well.pool.node_end p n cell, ok.well.pool.bound))
tree_print_node-Total (suc fuel) {s} {p} {n} depth last ok cell enough =
    rw (cell, ◌>>=◌)
      (Ends-if (is_directory n.type)
        (Ends-bind
          (each_child-Total n.child_count 0 ok cell (omega arith) (λ c l before child.
            tree_print_node-Total fuel (suc depth) l ok child.found (omega arith)))
          (λ rest _. ends tt))
        (ends tt))

tree_dir-Total :
    {s : Fs} {p : Ptr} {n : Node} → IsFiles s → s.node p ≡ some n → Total (tree_dir s n)
unfolding tree_dir
tree_dir-Total {s} {p} {n} ok cell =
    Ends-bind
      (each_child-Total n.child_count 0 ok cell (omega arith) (λ c last before child.
        tree_print_node-Total pool_size 0 last ok child.found (omega arith)))
      (λ os _. ends tt)

decimal-Total : (n : ℕ) → n < 10 ^ 31 → Total (decimal n)
decimal-Total n h = Ends-map (decimal-value_after n h) (λ t _. tt)

stat_node-Total :
    {s : Fs} {p : Ptr} {n : Node} → IsFiles s → s.node p ≡ some n → Total (stat_node n)
unfolding stat_node
stat_node-Total {s} {p} {n} ok cell =
    Ends-bind
      (decimal-Total (if is_directory n.type then n.child_count else n.size)
        (small (is_directory n.type)))
      (λ number _. ends tt)
  where
    small : (b : Bool) → (if b then n.child_count else n.size) < 10 ^ 31
    small true = omega (arith, (ok.well.tree.nodes p n cell).count_bound)
    small false = omega (arith, (ok.tidy.nodes p n cell).text)

-- A NUL ends a string.
string_at-Total : (m : ℕ) (bytes rest : Buffer) → drop m bytes ≡ 0 ∷ rest → Total (string_at bytes)
unfolding string_at
string_at-Total m [] rest e = absurd (nothing_left m e)
  where
    nothing_left : (m : ℕ) {rest : Buffer} → drop {A = ℕ} m [] ≢ 0 ∷ rest
    nothing_left zero e = cc (e)
    nothing_left (suc m) e = cc (e)
string_at-Total zero (c ∷ bytes) rest e = let nul : c ≡ 0 = cc (e) in rw nul (ends tt)
string_at-Total (suc m) (c ∷ bytes) rest e =
    Ends-if (c == 0) (ends tt) (Ends-bind (string_at-Total m bytes rest e) (λ t _. ends tt))

tail-Total : (bytes : Buffer) → HasTail bytes → Total (string_at bytes)
unfolding replicate
tail-Total bytes tail = string_at-Total text_limit bytes (replicate 295 0) tail

cat_node-IsReady :
    {k : Kernel} {p : Ptr} {n : Node}
    → IsReady k
    → k.fs.node p ≡ some n
    → is_directory n.type ≡ false
    → Ends IsReady (cat_node p k)
unfolding cat_node read_file
cat_node-IsReady {k} {p} {n} h cell file =
    rw (cell, ◌>>=◌) (rw file (shown_content (Option-cases n.content)))
  where
    shown_content :
        (n.content ≡ none) ⊎ ((b : Ptr) × (n.content ≡ some b))
        → Ends IsReady (elim n.content [
          | none ↦ some k
          | some b ↦ (k.fs.block b >>= λ bytes. string_at bytes >>= λ t. print (cat_text t) k)
        ])
    shown_content (inl empty) = rw empty (ends h)
    shown_content (inr (b, buffer)) =
        let (bytes, at, full) = (h.files.well.tree.nodes p n cell).bytes b buffer in
        rw buffer (
          rw (at, ◌>>=◌)
            (Ends-bind (tail-Total bytes (h.files.tidy.tails b bytes at))
              (λ t _. print-IsReady (cat_text t) h)))

pub cmd_cat-IsReady : (arg1 : Text) {k : Kernel} → IsReady k → Ends IsReady (cmd_cat arg1 k)
unfolding cmd_cat
cmd_cat-IsReady [] h = print-IsReady (say "cat: missing file operand\n" ∷ []) h
cmd_cat-IsReady (c ∷ t) {k} h =
    let (found, e, valid) = resolve_path-IsValidPtr (c ∷ t) h.files.well.tree in
    rw (e, ◌>>=◌) (from found valid)
  where
    from :
        (found : Option Ptr)
        → IsValidPtr k.fs found
        → Ends IsReady (elim found [
          | none ↦ print (say "cat: " ∷ write (c ∷ t) ∷ say ": No such file or directory\n" ∷ []) k
          | some p ↦
              (k.fs.node p >>= λ n.
              if is_directory n.type
              then print (say "cat: " ∷ write (c ∷ t) ∷ say ": Is a directory\n" ∷ []) k
              else cat_node p k)
        ])
    from none valid = print-IsReady _ h
    from (some p) valid =
        let (n, at, placed) = found_node k.fs valid in
        rw (at, ◌>>=◌)
          (elim (Bool-cases (is_directory n.type)) [
            | inl dir ↦ rw dir (print-IsReady _ h)
            | inr file ↦ rw file (cat_node-IsReady h at file)
          ])

pub cmd_stat-IsReady : (arg1 : Text) {k : Kernel} → IsReady k → Ends IsReady (cmd_stat arg1 k)
unfolding cmd_stat
cmd_stat-IsReady [] h = print-IsReady (say "stat: missing file operand\n" ∷ []) h
cmd_stat-IsReady (c ∷ t) {k} h =
    let (found, e, valid) = resolve_path-IsValidPtr (c ∷ t) h.files.well.tree in
    rw (e, ◌>>=◌) (from found valid)
  where
    from :
        (found : Option Ptr)
        → IsValidPtr k.fs found
        → Ends IsReady (elim found [
          | none ↦
              print
                (say "stat: cannot stat '"
                  ∷ write (c ∷ t)
                  ∷ say "': No such file or directory\n"
                  ∷ [])
                k
          | some p ↦ (k.fs.node p >>= λ n. stat_node n >>= λ os. print os k)
        ])
    from none valid = print-IsReady _ h
    from (some p) valid =
        let (n, at, placed) = found_node k.fs valid in
        rw (at, ◌>>=◌) (Ends-bind (stat_node-Total h.files at) (λ os _. print-IsReady os h))

-- A command that prints what it finds in a directory, or a message.
shown-IsReady :
    {k : Kernel} {r : Option Node} (os : List Output) {body : Node → Option (List Output)}
    → IsReady k
    → IsShown k.fs r
    → ((p : Ptr) (n : Node) → k.fs.node p ≡ some n → Total (body n))
    → Ends IsReady (elim r [ none ↦ print os k | some n ↦ (body n >>= λ out. print out k) ])
shown-IsReady os h nothing total = print-IsReady os h
shown-IsReady os h (shown p n at) total = Ends-bind (total p n at) (λ out _. print-IsReady out h)

pub cmd_ls-IsReady : (arg1 : Text) {k : Kernel} → IsReady k → Ends IsReady (cmd_ls arg1 k)
unfolding cmd_ls
cmd_ls-IsReady arg1 h =
    Ends-bind (shown_dir-IsShown arg1 h.files)
      (λ dir d. shown-IsReady _ h d (λ p n at. list_dir-Total h.files at))

pub cmd_tree-IsReady : (arg1 : Text) {k : Kernel} → IsReady k → Ends IsReady (cmd_tree arg1 k)
unfolding cmd_tree
cmd_tree-IsReady arg1 h =
    Ends-bind (shown_dir-IsShown arg1 h.files)
      (λ dir d. shown-IsReady _ h d (λ p n at. tree_dir-Total h.files at))
