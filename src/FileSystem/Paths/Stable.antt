-- ===== src/FileSystem/Paths/Stable.antt =====
-- `fs_resolve_path` of src/kernel/filesystem.c leads to the same node where a call changes no
-- directory.
use phantom_os.Prelude.{
  ℕ, zero, suc, ◌-◌, ◌≡◌, refl, ap, sym, ◌∙◌, ◌↔◌, Option, none, some, [], ◌∷◌, ◌==◌, Bool-cases,
  Option-cases, inl, inr, ◌>>=◌, length, take,
}
use phantom_os.CString.{Text, codes}
use phantom_os.CString.Compare.{text_eq}
use phantom_os.FileSystem.{Ptr, Node, Fs, max_path_length}
use phantom_os.FileSystem.Lookup.{
  find_child, split_slash, Move, to, missing, step, resolve_loop, resolve_from, resolve_path,
}
use phantom_os.FileSystem.Invariant.{IsPlaced, IsPlacedDir, IsTree}
use phantom_os.FileSystem.Invariant.Find.{find_child-Lookup}
use phantom_os.FileSystem.Invariant.Resolve.{IsValidMove, step-IsValidMove}
use phantom_os.FileSystem.Directory.{Entry, find_child-Entry}

-- The directories of two states have the same entries, and the nodes the same parents.
pub record SameView (s s' : Fs) : Type 0 where
  pub nodes :
      (q : Ptr) (n : Node)
      → s.node q ≡ some n
      → (n' : Node) × (s'.node q ≡ some n') × (n'.parent ≡ n.parent)
  pub entries : (p : Ptr) (name : Text) (c : Ptr) → Entry s'.node p name c ↔ Entry s.node p name c
  pub same_root : s'.root ≡ s.root
  pub same_dir : s'.current_dir ≡ s.current_dir

pub SameView-refl : (s : Fs) → SameView s s
SameView-refl s = record {
  nodes = λ q n e. (n, e, refl);
  entries = λ p name c. ((λ e. e), λ e. e);
  same_root = refl;
  same_dir = refl;
}

module _ {s s' : Fs} (tree : IsTree s) (tree' : IsTree s') (v : SameView s s') where
  find_child-same :
      {p : Ptr} {n : Node} (name : Text)
      → s.node p ≡ some n
      → find_child s' (some p) name ≡ find_child s (some p) name
  find_child-same {p} {n} name cell =
      let (n', cell', up) = v.nodes p n cell in
      let (r, run, look) = find_child-Lookup s name (tree.nodes p n cell) cell in
      let before = find_child-Entry s name tree cell in
      let after = find_child-Entry s' name tree' cell' in
      elim (Option-cases r) [
        | inl nothing ↦
            let gone = before.1.0 (rw nothing at run) in
            after.1.1 (λ c e. gone c ((v.entries p name c).0 e)) ∙ sym (rw nothing at run)
        | inr (c, there) ↦
            let found = rw there at run in
            (after.0 c).1 ((v.entries p name c).1 ((before.0 c).0 found)) ∙ sym found
      ]

  step-same :
      {p : Ptr} (token : Text) → IsPlaced s.node p → step s' (some p) token ≡ step s (some p) token
  unfolding step
  step-same {p} token at = elim (Bool-cases (text_eq token (codes "."))) [
    | inl dot ↦ rw dot refl
    | inr other ↦ elim (Bool-cases (text_eq token (codes ".."))) [
      | inl dots ↦
          let (n', cell', up) = v.nodes p at.target at.found in
          rw (other, dots) (rw (cell', at.found, ◌>>=◌) (rw up refl))
      | inr name ↦ rw (other, name) (rw (find_child-same token at.found) refl)
    ]
  ]

  rest_same :
      (fuel : ℕ) (m : Move) (next : Option Text)
      → IsValidMove s.node m
      → ((q : Ptr) (rest : Text)
          → IsPlaced s.node q
          → resolve_loop fuel s' (some q) rest ≡ resolve_loop fuel s (some q) rest)
      → (elim m [
        | missing ↦ some none
        | to q ↦ elim next [ none ↦ some q | some rest ↦ resolve_loop fuel s' q rest ]
      ])
        ≡ (elim m [
          | missing ↦ some none
          | to q ↦ elim next [ none ↦ some q | some rest ↦ resolve_loop fuel s q rest ]
        ])
  rest_same fuel missing next ok again = refl
  rest_same fuel (to none) next ok again = absurd ok
  rest_same fuel (to (some q)) none ok again = refl
  rest_same fuel (to (some q)) (some rest) ok again = again q rest ok

  resolve_loop-same :
      (fuel : ℕ) {p : Ptr} (t : Text)
      → IsPlaced s.node p
      → resolve_loop fuel s' (some p) t ≡ resolve_loop fuel s (some p) t
  unfolding resolve_loop
  resolve_loop-same zero t at = refl
  resolve_loop-same (suc fuel) [] at = refl
  resolve_loop-same (suc fuel) (c ∷ t) at =
      let (token, next) = split_slash (c ∷ t) in
      let (m, run, ok) = step-IsValidMove token tree at in
      rw (step-same token at)
        (rw (run, ◌>>=◌) (rest_same fuel m next ok (λ q rest at'. resolve_loop-same fuel rest at')))

  resolve_from-same :
      {d : Ptr} (start start' : Option Ptr) (t : Text)
      → start' ≡ start
      → start ≡ some d
      → IsPlacedDir s.node d
      → resolve_from s' start' t ≡ resolve_from s start t
  unfolding resolve_from
  resolve_from-same start start' [] same e at = ap some same
  resolve_from-same start start' (c ∷ t) same e at =
      let copy = take (max_path_length - 1 - 1) (c ∷ t) in
      rw (same, e)
        (resolve_loop-same (suc (length copy)) copy
          (record { target = at.target; found = at.found; placed = at.placed }))

  -- Every path leads to the same node.
  pub resolve_path-same : (path : Text) → resolve_path s' path ≡ resolve_path s path
  unfolding resolve_path
  resolve_path-same [] = ap some v.same_dir
  resolve_path-same (c ∷ t) = elim (Bool-cases (c == b'/')) [
    | inl slash ↦
        let (d, e, at) = tree.root_dir in
        rw slash (resolve_from-same s.root s'.root t v.same_root e at)
    | inr relative ↦
        let (d, e, at) = tree.current in
        rw relative (resolve_from-same s.current_dir s'.current_dir (c ∷ t) v.same_dir e at)
  ]
