-- ===== src/FileSystem/Invariant/Attach.antt =====
-- `fs_add_child` keeps the file system well-formed, and the new child is found by its name.
use phantom_os.Prelude.{
  ℕ, ◌+◌, ◌<◌, ◌≡◌, refl, ◌≢◌, ap, sym, ◌∙◌, Option, none, some, arith, true, false, ◌⊎◌, ◌==◌,
  ==_iff, Bool-cases, inl, inr,
}
use Prim.Native.Nat.{zero-le}
use phantom_os.CString.{Buffer}
use phantom_os.FileSystem.{Ptr, Node, Fs, is_directory, update, max_files_per_dir}
use phantom_os.FileSystem.Tree.{attach}
use phantom_os.FileSystem.Invariant.{Nodes, IsChild, IsPlacedDir, IsNode, IsTree, DistinctNames}
use phantom_os.FileSystem.Invariant.Find.{NoSlot}
use phantom_os.FileSystem.Invariant.Update.{
  modified, changed, modified_get, modified_inv, IsPlacedDir-modified, Moves, Moves-DistinctNames,
  Keeps-IsNode, Keeps-refl, slot-lt, touch-IsTree,
}

abbrev pub with_child : Ptr → Node → Node
with_child c n = record n {
  children = update n.children n.child_count (some c);
  child_count = n.child_count + 1;
}

abbrev pub with_parent : Ptr → Node → Node
with_parent p m = record m { parent = some p }

-- The two nodes that `fs_add_child` changes, before it sets the time.
abbrev pub linked : Ptr → Ptr → Nodes → Nodes
linked p c g = modified c (with_parent p) (modified p (with_child c) g)

-- What the checks of `fs_add_child` establish for a directory `n` at `p` and a node `m` at `c`
-- that has no parent yet.
pub record IsLinkable (g : Nodes) (p c : Ptr) (n m : Node) : Type 0 where
  pub cell_p : g p ≡ some n
  pub cell_c : g c ≡ some m
  pub dir : is_directory n.type ≡ true
  pub placed : n.parent ≢ none
  pub orphan : m.parent ≡ none
  pub room : n.child_count < max_files_per_dir
  pub fresh : NoSlot g n.children m.name 0 n.child_count

abbrev pub twice_changed : Ptr → Ptr → Ptr → Node → Node
twice_changed p c q k = changed c (with_parent p) q (changed p (with_child c) q k)

-- Names and types stay, and a node that has a parent keeps it.
pub twice_changed-name : (p c q : Ptr) (k : Node) → (twice_changed p c q k).name ≡ k.name
twice_changed-name p c q k = ground arith

module _ (g : Nodes) (p c : Ptr) (n m : Node) (l : IsLinkable g p c n m) where
  -- A node with a parent is not the new child.
  not_child : (q : Ptr) (k : Node) → g q ≡ some k → k.parent ≢ none → (c == q) ≡ false
  not_child q k e h = elim (Bool-cases (c == q)) [
    | inl same ↦ absurd (h (cc (e, l.cell_c, l.orphan, (==_iff c q).0 same)))
    | inr other ↦ other
  ]

  pub linked_get :
      (q : Ptr) (k : Node) → g q ≡ some k → linked p c g q ≡ some (twice_changed p c q k)
  linked_get q k e =
      modified_get c (with_parent p) (modified p (with_child c) g)
        (modified_get p (with_child c) g e)

  pub linked_inv :
      (q : Ptr) (k' : Node)
      → linked p c g q ≡ some k'
      → (k : Node) × (g q ≡ some k) × (k' ≡ twice_changed p c q k)
  linked_inv q k' e =
      let (k1, e1, c1) = modified_inv c (with_parent p) (modified p (with_child c) g) e in
      let (k, e0, c0) = modified_inv p (with_child c) g e1 in
      (k, e0, c1 ∙ ap (changed c (with_parent p) q) c0)

  linked-IsChild : {q x : Ptr} → IsChild g q x → IsChild (linked p c g) q x
  linked-IsChild {x} k = record {
    target = twice_changed p c x k.target;
    found = linked_get x k.target k.found;
    back =
        let other : (c == x) ≡ false = not_child x k.target k.found (λ e. cc (e, k.back)) in
        ground (arith, k.back);
  }

  linked-IsPlacedDir : {q : Ptr} → IsPlacedDir g q → IsPlacedDir (linked p c g) q
  linked-IsPlacedDir {q} d =
      IsPlacedDir-modified c (with_parent p) (modified p (with_child c) g) (λ k. ground arith)
        (λ k h. ground arith)
        (IsPlacedDir-modified p (with_child c) g (λ k. ground arith) (λ k h. ground arith) d)

  linked-Moves : Moves g (linked p c g)
  linked-Moves = record {
    child = linked-IsChild;
    dir = linked-IsPlacedDir;
    name = λ q x k' k e.
        let (k0, e0, ek) = linked_inv x k' e in
        (k0, e0, ap (λ (a : Node). a.name) ek ∙ twice_changed-name p c x k0);
  }

  -- The directory itself is another node, since it has a parent.
  apart : (c == p) ≡ false
  apart = not_child p n l.cell_p l.placed

  children-IsChild : IsChild (linked p c g) p c
  children-IsChild = record {
    target = twice_changed p c c m;
    found = linked_get c m l.cell_c;
    back = ground arith;
  }

  -- The new slot holds no name of an old one.
  new_name :
      {blocks : Ptr → Option Buffer}
      → IsNode g blocks p n
      → (j : ℕ) (d : Ptr) (b : Node) → n.children j ≡ some d
      → linked p c g d ≡ some b
      → b.name ≢ m.name
  new_name ok j d b hj e same =
      let (b0, e0, eb) = linked_inv d b e in
      l.fresh j d b0 zero-le (slot-lt j ok hj) hj e0
        (sym (twice_changed-name p c d b0) ∙ sym (ap (λ (a : Node). a.name) eb) ∙ same)

  -- Slots of the directory after the change: the new one, and the old ones.
  pub slot-cases :
      {blocks : Ptr → Option Buffer}
      → IsNode g blocks p n
      → (j : ℕ) (d : Ptr) → (with_child c n).children j ≡ some d
      → ((j ≡ n.child_count) × (d ≡ c)) ⊎ ((j < n.child_count) × (n.children j ≡ some d))
  slot-cases ok j d e = elim (Bool-cases (n.child_count == j)) [
    | inl new ↦ inl (ground arith, ground arith)
    | inr old ↦ let e' : n.children j ≡ some d = ground arith in inr (slot-lt j ok e', e')
  ]

  pub child_name : (d : Ptr) (a : Node) → d ≡ c → linked p c g d ≡ some a → a.name ≡ m.name
  child_name d a same e =
      let (k, e0, ek) = linked_inv d a e in
      let km : k ≡ m = cc (e0, l.cell_c) in
      ap (λ (x : Node). x.name) ek ∙ twice_changed-name p c d k ∙ ap (λ (x : Node). x.name) km

  with_child-DistinctNames :
      {blocks : Ptr → Option Buffer}
      → IsNode g blocks p n
      → DistinctNames (linked p c g) (with_child c n)
  with_child-DistinctNames ok i j d e a b hi hj ha hb same = elim (slot-cases ok i d hi) [
    | inl (new, is_c) ↦ elim (slot-cases ok j e hj) [
      | inl (new', is_c') ↦ new ∙ sym new'
      | inr (below, old) ↦ absurd (new_name ok j e b old hb (sym same ∙ child_name d a is_c ha))
    ]
    | inr (below, old) ↦ elim (slot-cases ok j e hj) [
      | inl (new', is_c') ↦ absurd (new_name ok i d a old ha (same ∙ child_name e b is_c' hb))
      | inr (below', old') ↦
          Moves-DistinctNames n linked-Moves ok.child ok.distinct i j d e a b old old' ha hb same
    ]
  ]

  parent-IsPlacedDir : IsPlacedDir g p
  parent-IsPlacedDir = record { target = n; found = l.cell_p; is_dir = l.dir; placed = l.placed }

  with_child-IsNode :
      {blocks : Ptr → Option Buffer}
      → IsNode g blocks p n
      → IsNode (linked p c g) blocks p (with_child c n)
  with_child-IsNode ok = record {
    name_bound = ok.name_bound;
    count_bound = ground (arith, l.room);
    size_bound = ok.size_bound;
    used = λ i h e. ground (arith, ok.used i);
    unused = λ i h. ground (arith, ok.unused i);
    child = λ i d e. elim (slot-cases ok i d e) [
      | inl (new, same) ↦ rw same children-IsChild
      | inr (below, old) ↦ linked-IsChild (ok.child i d old)
    ];
    distinct = with_child-DistinctNames ok;
    leaf = λ h. absurd (cc (h, l.dir));
    above = λ q h. linked-IsPlacedDir (ok.above q h);
    bytes = ok.bytes;
  }

  with_parent-IsNode :
      {blocks : Ptr → Option Buffer}
      → IsNode g blocks c m
      → IsNode (linked p c g) blocks c (with_parent p m)
  with_parent-IsNode ok =
      let ok' = Keeps-IsNode m m linked-Moves (Keeps-refl m) ok in
      record {
        name_bound = ok'.name_bound;
        count_bound = ok'.count_bound;
        size_bound = ok'.size_bound;
        used = ok'.used;
        unused = ok'.unused;
        child = ok'.child;
        distinct = ok'.distinct;
        leaf = ok'.leaf;
        above = λ q h. let e : p ≡ q = cc in rw (← e) (linked-IsPlacedDir parent-IsPlacedDir);
        bytes = ok'.bytes;
      }

  -- Every node of the changed memory.
  linked-IsNode :
      {blocks : Ptr → Option Buffer}
      → ((q : Ptr) (k : Node) → g q ≡ some k → IsNode g blocks q k)
      → (q : Ptr) (k' : Node) → linked p c g q ≡ some k'
      → IsNode (linked p c g) blocks q k'
  linked-IsNode {blocks} nodes q k' e =
      let (k, e0, ek) = linked_inv q k' e in
      elim (Bool-cases (c == q)) [
        | inl is_c ↦
            let c_q : c ≡ q = (==_iff c q).0 is_c in
            let not_p : (p == q) ≡ false = ground (arith, apart) in
            let km : k ≡ m = cc (e0, l.cell_c) in
            let ck : k' ≡ with_parent p m = ek ∙ rw (is_c, not_p) (ap (with_parent p) km) in
            rw (ck, ← c_q) (with_parent-IsNode (nodes c m l.cell_c))
        | inr not_c ↦ elim (Bool-cases (p == q)) [
          | inl is_p ↦
              let p_q : p ≡ q = (==_iff p q).0 is_p in
              let kn : k ≡ n = cc (e0, l.cell_p) in
              let pk : k' ≡ with_child c n = ek ∙ rw (not_c, is_p) (ap (with_child c) kn) in
              rw (pk, ← p_q) (with_child-IsNode (nodes p n l.cell_p))
          | inr not_p ↦
              let same : k' ≡ k = ek ∙ rw (not_c, not_p) refl in
              rw same (Keeps-IsNode k k linked-Moves (Keeps-refl k) (nodes q k e0))
        ]
      ]

-- What `fs_add_child` writes keeps the file system well-formed.
pub attach-IsTree :
    {s : Fs} {p c : Ptr} {n m : Node} → IsTree s → IsLinkable s.node p c n m → IsTree (attach p c s)
unfolding attach
attach-IsTree {s} {p} {c} {n} {m} tree l = touch-IsTree p (record {
  nodes = linked-IsNode s.node p c n m l tree.nodes;
  root_dir = let (r, e, d) = tree.root_dir in (r, e, linked-IsPlacedDir s.node p c n m l d);
  current = let (r, e, d) = tree.current in (r, e, linked-IsPlacedDir s.node p c n m l d);
})
