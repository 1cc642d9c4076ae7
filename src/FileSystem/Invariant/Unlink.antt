-- ===== src/FileSystem/Invariant/Unlink.antt =====
-- `fs_remove_child` keeps the file system well-formed.
use phantom_os.Prelude.{
  ℕ, zero, suc, ◌+◌, ◌-◌, ◌<◌, ◌≡◌, refl, ap, sym, ◌∙◌, Option, none, some, arith, ◌&&◌, ◌==◌,
  ==_iff, if◌then◌else◌, leb, ltb, Bool-cases, inl, inr,
}
use phantom_os.CString.{Buffer}
use phantom_os.FileSystem.{Ptr, Node, Fs, update}
use phantom_os.FileSystem.Tree.{shift_left, unlink}
use phantom_os.FileSystem.Invariant.{Nodes, IsNode, IsTree}
use phantom_os.FileSystem.Invariant.Update.{
  modified, changed, modified_get, modified_inv, IsPlacedDir-modified, Moves, Moves-DistinctNames,
  Keeps-IsNode, Keeps-refl, touch-IsTree,
}

-- The inner loop of `fs_remove_child` moves the slots behind `j` one down.
pub shift_left_lem :
    (rounds j : ℕ) (children : ℕ → Option Ptr) (x : ℕ)
    → shift_left rounds j children x
      ≡ (if leb j x && ltb x (j + rounds) then children (suc x) else children x)
unfolding shift_left
shift_left_lem zero j children x = ground arith
shift_left_lem (suc rounds) j children x =
    ground (arith, shift_left_lem rounds (suc j) (update children j (children (suc j))) x)

abbrev pub without_slot : ℕ → Node → Node
without_slot i n = record n {
  children = update (shift_left (n.child_count - 1 - i) i n.children) (n.child_count - 1) none;
  child_count = n.child_count - 1;
}

-- The slot of the old array that a slot of the new one holds.
abbrev pub old_slot : ℕ → ℕ → ℕ
old_slot i x = if ltb x i then x else suc x

module _ {g : Nodes} {blocks : Ptr → Option Buffer} {p : Ptr} {n : Node} (i : ℕ)
    (ok : IsNode g blocks p n) (below : i < n.child_count) where
  pub without_slot-children : (x : ℕ) → (without_slot i n).children x ≡ n.children (old_slot i x)
  without_slot-children x =
      ground (
        arith,
        shift_left_lem (n.child_count - 1 - i) i n.children x,
        ok.unused x,
        ok.unused (suc x),
      )

  module _ (g' : Nodes) (move : Moves g g') where
    without_slot-IsNode : IsNode g' blocks p (without_slot i n)
    without_slot-IsNode = record {
      name_bound = ok.name_bound;
      count_bound = omega (arith, ok.count_bound);
      size_bound = ok.size_bound;
      used = λ x h. rw (without_slot-children x) (ok.used (old_slot i x) (ground arith));
      unused = λ x h. without_slot-children x ∙ ok.unused (old_slot i x) (ground arith);
      child = λ x c e. move.child (ok.child (old_slot i x) c (sym (without_slot-children x) ∙ e));
      distinct = λ x y c d a b hx hy ha hb same.
          let e : old_slot i x ≡ old_slot i y =
            Moves-DistinctNames n move ok.child ok.distinct (old_slot i x) (old_slot i y) c d a b
              (sym (without_slot-children x) ∙ hx) (sym (without_slot-children y) ∙ hy) ha hb
              same in
          ground arith;
      leaf = λ h. absurd (omega (arith, ok.leaf h));
      above = λ q h. move.dir (ok.above q h);
      bytes = ok.bytes;
    }

-- The memory of `fs_remove_child`, before it sets the time.
abbrev pub unlinked : Ptr → ℕ → Nodes → Nodes
unlinked p i g = modified p (without_slot i) g

module _ (g : Nodes) (p : Ptr) (i : ℕ) where
  pub unlinked-Moves : Moves g (unlinked p i g)
  unlinked-Moves = record {
    child = λ {q} {c} k. record {
      target = changed p (without_slot i) c k.target;
      found = modified_get p (without_slot i) g k.found;
      back = ground (arith, k.back);
    };
    dir = λ {q} d.
        IsPlacedDir-modified p (without_slot i) g (λ k. ground arith) (λ k h. ground arith) d;
    name = λ q c m' k e.
        let (m, e0, em) = modified_inv p (without_slot i) g e in
        (m, e0, ap (λ (x : Node). x.name) em ∙ ground arith);
  }

  unlinked-IsNode :
      {blocks : Ptr → Option Buffer} {n : Node}
      → g p ≡ some n
      → i < n.child_count
      → ((q : Ptr) (k : Node) → g q ≡ some k → IsNode g blocks q k)
      → (q : Ptr) (k' : Node) → unlinked p i g q ≡ some k'
      → IsNode (unlinked p i g) blocks q k'
  unlinked-IsNode {n} cell below nodes q k' e =
      let (k, e0, ek) = modified_inv p (without_slot i) g e in
      elim (Bool-cases (p == q)) [
        | inl is_p ↦
            let p_q : p ≡ q = (==_iff p q).0 is_p in
            let kn : k ≡ n = cc (e0, cell) in
            let pk : k' ≡ without_slot i n = ek ∙ rw is_p (ap (without_slot i) kn) in
            rw (pk, ← p_q)
              (without_slot-IsNode i (nodes p n cell) below (unlinked p i g) unlinked-Moves)
        | inr not_p ↦
            let same : k' ≡ k = ek ∙ rw not_p refl in
            rw same (Keeps-IsNode k k unlinked-Moves (Keeps-refl k) (nodes q k e0))
      ]

-- What `fs_remove_child` writes keeps the file system well-formed.
pub unlink-IsTree :
    {s : Fs} {p : Ptr} {n : Node} (i : ℕ)
    → IsTree s
    → s.node p ≡ some n
    → i < n.child_count
    → IsTree (unlink p i s)
unfolding unlink
unlink-IsTree {s} {p} i tree cell below = touch-IsTree p (record {
  nodes = unlinked-IsNode s.node p i cell below tree.nodes;
  root_dir = let (r, e, d) = tree.root_dir in (r, e, (unlinked-Moves s.node p i).dir d);
  current = let (r, e, d) = tree.current in (r, e, (unlinked-Moves s.node p i).dir d);
})
