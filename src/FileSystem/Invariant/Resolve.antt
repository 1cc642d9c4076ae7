-- ===== src/FileSystem/Invariant/Resolve.antt =====
-- In a well-formed file system `fs_resolve_path` never faults, and ends.
use phantom_os.Prelude.{
  ℕ, zero, suc, ◌<◌, ◌≡◌, refl, ap, ◌-◌, Option, none, some, [], ◌∷◌, arith, length, take,
  Bool-cases, Option-cases, ◌>>=◌, ◌==◌, inl, inr,
}
use phantom_os.CString.{Text, codes}
use phantom_os.CString.Compare.{text_eq}
use phantom_os.FileSystem.{Ptr, Node, Fs, max_path_length}
use phantom_os.FileSystem.Lookup.{
  split_slash, Move, to, missing, step, resolve_loop, resolve_from, resolve_path,
}
use phantom_os.FileSystem.Invariant.{Nodes, IsPlaced, IsPlacedDir, IsTree}
use phantom_os.FileSystem.Invariant.Find.{Lookup, nothing, child, find_child-Lookup}

-- A pointer that the resolution of a path may return.
abbrev pub IsValidPtr : Fs → Option Ptr → Type 0
IsValidPtr s none = Unit {0}
IsValidPtr s (some p) = IsPlaced s.node p

abbrev pub IsValidMove : Nodes → Move → Type 0
IsValidMove g missing = Unit {0}
IsValidMove g (to none) = ⊥
IsValidMove g (to (some q)) = IsPlaced g q

IsPlaced-of_dir : {g : Nodes} {p : Ptr} → IsPlacedDir g p → IsPlaced g p
IsPlaced-of_dir d = record { target = d.target; found = d.found; placed = d.placed }

move_of :
    {g : Nodes} {p : Ptr} {n : Node} {name : Text} {r : Option Ptr}
    → Lookup g p n name r
    → (m : Move) × ((elim r [ none ↦ some missing | some q ↦ some (to (some q)) ]) ≡ some m)
      × IsValidMove g m
move_of (nothing h) = (missing, refl, tt)
move_of (child i c m u full cell same back) =
    (to (some c), refl, record { target = m; found = cell; placed = λ e. cc })

-- One component of a path, from a node that has a parent.
pub step-IsValidMove :
    {s : Fs} {p : Ptr} (token : Text)
    → IsTree s
    → IsPlaced s.node p
    → (m : Move) × (step s (some p) token ≡ some m) × IsValidMove s.node m
unfolding step
step-IsValidMove {s} {p} token tree at = elim (Bool-cases (text_eq token (codes "."))) [
  | inl dot ↦ (to (some p), rw dot, at)
  | inr other ↦ elim (Bool-cases (text_eq token (codes ".."))) [
    | inl dots ↦ elim (Option-cases at.target.parent) [
      | inl orphan ↦ absurd (at.placed orphan)
      | inr (q, up) ↦ (
        to (some q),
        rw (other, dots) (rw at.found (rw up refl)),
        IsPlaced-of_dir ((tree.nodes p at.target at.found).above q up),
      )
    ]
    | inr name ↦
        let (r, run, look) = find_child-Lookup s token (tree.nodes p at.target at.found) at.found in
        let (m, e, ok) = move_of look in (m, rw (other, name) (rw run e), ok)
  ]
]

-- What stands behind a separator is shorter than the text.
length-split_slash :
    (t : Text) (rest : Text) → (split_slash t).1 ≡ some rest → length rest < length t
unfolding split_slash
length-split_slash [] rest e = cc
length-split_slash (c ∷ t) rest e = ground (arith, length-split_slash t rest)

-- Where the loop goes on after one component, given what it does on the rest of the path.
resolve_rest :
    (s : Fs) (fuel : ℕ) (m : Move) (next : Option Text)
    → IsValidMove s.node m
    → ((rest : Text) → next ≡ some rest → length rest < fuel)
    → ((q : Ptr) (rest : Text)
        → IsPlaced s.node q
        → length rest < fuel
        → (r : Option Ptr) × (resolve_loop fuel s (some q) rest ≡ some r) × IsValidPtr s r)
    → (r : Option Ptr) × ((elim m [
      | missing ↦ some none
      | to q ↦ elim next [ none ↦ some q | some rest ↦ resolve_loop fuel s q rest ]
    ])
        ≡ some r)
      × IsValidPtr s r
resolve_rest s fuel missing next ok short again = (none, refl, tt)
resolve_rest s fuel (to none) next ok short again = absurd ok
resolve_rest s fuel (to (some q)) none ok short again = (some q, refl, ok)
resolve_rest s fuel (to (some q)) (some rest) ok short again = again q rest ok (short rest refl)

-- With more fuel than characters the loop ends at a node, or reports that there is none.
resolve_loop-IsValidPtr :
    {s : Fs} (fuel : ℕ) {p : Ptr} (t : Text)
    → IsTree s
    → IsPlaced s.node p
    → length t < fuel
    → (r : Option Ptr) × (resolve_loop fuel s (some p) t ≡ some r) × IsValidPtr s r
unfolding resolve_loop
resolve_loop-IsValidPtr zero t tree at f = absurd (omega arith)
resolve_loop-IsValidPtr (suc fuel) {p} [] tree at f = (some p, refl, at)
resolve_loop-IsValidPtr {s} (suc fuel) {p} (c ∷ t) tree at f =
    let (token, next) = split_slash (c ∷ t) in
    let (m, run, ok) = step-IsValidMove token tree at in
    rw (run, ◌>>=◌)
      (resolve_rest s fuel m next ok (λ rest e. omega (arith, length-split_slash (c ∷ t) rest e))
        (λ q rest at' f'. resolve_loop-IsValidPtr fuel rest tree at' f'))

-- A pointer that holds a directory with a parent, as the root and the current directory do.
abbrev HoldsDir : Fs → Option Ptr → Type 0
HoldsDir s start = (d : Ptr) × (start ≡ some d) × IsPlacedDir s.node d

resolve_from-IsValidPtr :
    {s : Fs} (start : Option Ptr) (t : Text)
    → IsTree s
    → HoldsDir s start
    → (r : Option Ptr) × (resolve_from s start t ≡ some r) × IsValidPtr s r
unfolding resolve_from
resolve_from-IsValidPtr start [] tree (d, e, at) = (some d, rw e, IsPlaced-of_dir at)
resolve_from-IsValidPtr {s} start (c ∷ t) tree (d, e, at) =
    let copy = take (max_path_length - 1 - 1) (c ∷ t) in
    rw e (resolve_loop-IsValidPtr (suc (length copy)) copy tree (IsPlaced-of_dir at) (omega arith))

-- In a well-formed file system `fs_resolve_path` ends without a fault on every path, and returns
-- NULL or a node that has a parent.
pub resolve_path-IsValidPtr :
    {s : Fs} (path : Text)
    → IsTree s
    → (r : Option Ptr) × (resolve_path s path ≡ some r) × IsValidPtr s r
unfolding resolve_path
resolve_path-IsValidPtr {s} [] tree =
    let (d, e, ok) = tree.current in (some d, ap some e, IsPlaced-of_dir ok)
resolve_path-IsValidPtr {s} (c ∷ t) tree = elim (Bool-cases (c == b'/')) [
  | inl slash ↦ rw slash (resolve_from-IsValidPtr s.root t tree tree.root_dir)
  | inr relative ↦ rw relative (resolve_from-IsValidPtr s.current_dir (c ∷ t) tree tree.current)
]
