-- ===== src/FileSystem/Invariant/Update.antt =====
-- Changes of one node: `modify` keeps a file system well-formed where only the size and the times
-- change.
use phantom_os.Prelude.{
  ℕ, ◌+◌, ◌%◌, ◌^◌, ◌≤◌, ◌<◌, ◌≡◌, refl, ◌≢◌, ap, sym, ◌∙◌, Option, none, some, arith, true, false,
  ◌==◌, ltb, ltb→lt, ==_iff, if◌then◌else◌, Bool-cases, Option-cases, inl, inr,
}
use mathlib.Core.Option
use phantom_os.CString.{Buffer}
use phantom_os.FileSystem.{Ptr, Node, Fs, is_directory, update, modify, max_file_size}
use phantom_os.FileSystem.Tree.{touch}
use phantom_os.FileSystem.Alloc.{get_current_time}
use phantom_os.FileSystem.Invariant.{
  Nodes, IsChild, IsPlacedDir, IsNode, IsTree, IsBlock, DistinctNames,
}

-- The memory of `modify`.
abbrev pub modified : Ptr → (Node → Node) → Nodes → Nodes
modified p f g = update g p (Option.map f (g p))

-- The node at `q` after the change at `p`.
abbrev pub changed : Ptr → (Node → Node) → Ptr → Node → Node
changed p f q n = if p == q then f n else n

pub modified_get :
    (p : Ptr) (f : Node → Node) (g : Nodes) {q : Ptr} {n : Node}
    → g q ≡ some n
    → modified p f g q ≡ some (changed p f q n)
modified_get p f g {q} {n} e = elim (Bool-cases (p == q)) [
  | inl same ↦ rw same (rw ((==_iff p q).0 same) (rw e refl))
  | inr other ↦ rw other e
]

modified-none :
    (p : Ptr) (f : Node → Node) (g : Nodes) {q : Ptr} → g q ≡ none → modified p f g q ≡ none
modified-none p f g {q} e = elim (Bool-cases (p == q)) [
  | inl same ↦ rw same (rw ((==_iff p q).0 same) (rw e refl))
  | inr other ↦ rw other e
]

pub modified_inv :
    (p : Ptr) (f : Node → Node) (g : Nodes) {q : Ptr} {n' : Node}
    → modified p f g q ≡ some n'
    → (n : Node) × (g q ≡ some n) × (n' ≡ changed p f q n)
modified_inv p f g {q} {n'} e = elim (Option-cases (g q)) [
  | inl empty ↦ absurd (cc (e, modified-none p f g empty))
  | inr (n, full) ↦ (n, full, cc (e, modified_get p f g full))
]

-- The parts of a node on which the invariant depends, but for a bounded size.
pub record Keeps (n n' : Node) : Type 0 where
  pub same_name : n'.name ≡ n.name
  pub same_type : n'.type ≡ n.type
  pub same_content : n'.content ≡ n.content
  pub same_parent : n'.parent ≡ n.parent
  pub same_children : n'.children ≡ n.children
  pub same_count : n'.child_count ≡ n.child_count
  pub size_bound : n.size ≤ max_file_size → n'.size ≤ max_file_size

-- A change of one node that keeps its type and gives it no less of a parent.
pub IsPlacedDir-modified :
    (p : Ptr) (f : Node → Node) (g : Nodes) {q : Ptr}
    → ((n : Node) → (changed p f q n).type ≡ n.type)
    → ((n : Node) → n.parent ≢ none → (changed p f q n).parent ≢ none)
    → IsPlacedDir g q
    → IsPlacedDir (modified p f g) q
IsPlacedDir-modified p f g {q} same grows d = record {
  target = changed p f q d.target;
  found = modified_get p f g d.found;
  is_dir = ap is_directory (same d.target) ∙ d.is_dir;
  placed = grows d.target d.placed;
}

-- A node stays well-formed where its data buffer stays one.
pub IsNode-blocks :
    {g : Nodes} {blocks blocks' : Ptr → Option Buffer} {p : Ptr} {n : Node}
    → ((b : Ptr) → IsBlock blocks b → IsBlock blocks' b)
    → IsNode g blocks p n
    → IsNode g blocks' p n
IsNode-blocks grow ok = record {
  name_bound = ok.name_bound;
  count_bound = ok.count_bound;
  size_bound = ok.size_bound;
  used = ok.used;
  unused = ok.unused;
  child = ok.child;
  distinct = ok.distinct;
  leaf = ok.leaf;
  above = ok.above;
  bytes = λ b e. grow b (ok.bytes b e);
}

-- A slot that is not NULL is below the count.
pub slot-lt :
    {g : Nodes} {blocks : Ptr → Option Buffer} {p : Ptr} {n : Node} {c : Ptr} (j : ℕ)
    → IsNode g blocks p n
    → n.children j ≡ some c
    → j < n.child_count
slot-lt {n} j ok e = elim (Bool-cases (ltb j n.child_count)) [
  | inl below ↦ ltb→lt j n.child_count below
  | inr above ↦ absurd (cc (e, ok.unused j (ground arith)))
]

-- What another memory has to keep for the nodes that did not change.
pub record Moves (g g' : Nodes) : Type 0 where
  pub child : {q c : Ptr} → IsChild g q c → IsChild g' q c
  pub dir : {q : Ptr} → IsPlacedDir g q → IsPlacedDir g' q
  pub name :
      (q c : Ptr) (m' : Node)
      → IsChild g q c
      → g' c ≡ some m'
      → (m : Node) × (g c ≡ some m) × (m'.name ≡ m.name)

-- Slots with distinct names keep them.
pub Moves-DistinctNames :
    {g g' : Nodes} {q : Ptr} (n : Node)
    → Moves g g'
    → ((i : ℕ) (c : Ptr) → n.children i ≡ some c → IsChild g q c)
    → DistinctNames g n
    → DistinctNames g' n
Moves-DistinctNames {q} n move child distinct i j c d a b hi hj ha hb same =
    let (a0, ea, na) = move.name q c a (child i c hi) ha in
    let (b0, eb, nb) = move.name q d b (child j d hj) hb in
    distinct i j c d a0 b0 hi hj ea eb (sym na ∙ same ∙ nb)

pub Keeps-IsNode :
    {g g' : Nodes} {blocks : Ptr → Option Buffer} {q : Ptr} (n n' : Node)
    → Moves g g'
    → Keeps n n'
    → IsNode g blocks q n
    → IsNode g' blocks q n'
Keeps-IsNode n n' move k ok = record {
  name_bound = rw k.same_name ok.name_bound;
  count_bound = rw k.same_count ok.count_bound;
  size_bound = k.size_bound ok.size_bound;
  used = λ i h. rw k.same_children (ok.used i (omega arith));
  unused = λ i h. rw k.same_children (ok.unused i (omega arith));
  child = λ i c e. move.child (ok.child i c (rw k.same_children at e));
  distinct = λ i j c d a b hi hj.
      Moves-DistinctNames n move ok.child ok.distinct i j c d a b (rw k.same_children at hi)
        (rw k.same_children at hj);
  leaf = λ h. k.same_count ∙ ok.leaf (rw k.same_type at h);
  above = λ q' h. move.dir (ok.above q' (rw k.same_parent at h));
  bytes = λ b h. ok.bytes b (rw k.same_content at h);
}

pub Keeps-refl : (n : Node) → Keeps n n
Keeps-refl n = record {
  same_name = refl;
  same_type = refl;
  same_content = refl;
  same_parent = refl;
  same_children = refl;
  same_count = refl;
  size_bound = λ h. h;
}

module _ (p : Ptr) (f : Node → Node) (g : Nodes) (keeps : (n : Node) → Keeps n (f n)) where
  pub changed-Keeps : (q : Ptr) (n : Node) → Keeps n (changed p f q n)
  changed-Keeps q n = elim (p == q) as (λ b. Keeps n (if b then f n else n)) [
    | true ↦ keeps n
    | false ↦ Keeps-refl n
  ]

  Keeps-Moves : Moves g (modified p f g)
  Keeps-Moves = record {
    child = λ {q} {c} k. record {
      target = changed p f c k.target;
      found = modified_get p f g k.found;
      back = (changed-Keeps c k.target).same_parent ∙ k.back;
    };
    dir = λ {q}.
        IsPlacedDir-modified p f g (λ n. (changed-Keeps q n).same_type)
          (λ n h. rw (changed-Keeps q n).same_parent h);
    name = λ q c m' k e.
        let (m, e0, cm) = modified_inv p f g e in
        (m, e0, ap (λ (x : Node). x.name) cm ∙ (changed-Keeps c m).same_name);
  }

-- A change of one node that keeps the parts on which the invariant depends.
pub modify-IsTree :
    (p : Ptr) (f : Node → Node) {s : Fs}
    → ((n : Node) → Keeps n (f n))
    → IsTree s
    → IsTree (modify p f s)
modify-IsTree p f {s} keeps tree = record {
  nodes = λ q n' e.
      let (n, e0, c) = modified_inv p f s.node e in
      rw c (
        Keeps-IsNode n (changed p f q n) (Keeps-Moves p f s.node keeps)
          (changed-Keeps p f s.node keeps q n) (tree.nodes q n e0));
  root_dir = let (r, e, d) = tree.root_dir in (r, e, (Keeps-Moves p f s.node keeps).dir d);
  current = let (r, e, d) = tree.current in (r, e, (Keeps-Moves p f s.node keeps).dir d);
}

-- The clock is no part of the invariant.
pub tick-IsTree : {s : Fs} (t : ℕ) → IsTree s → IsTree (record s { time_counter = t })
tick-IsTree t tree = record { nodes = tree.nodes; root_dir = tree.root_dir; current = tree.current }

abbrev pub touched : ℕ → Node → Node
touched t n = record n { modification_time = t }

pub touched-Keeps : (t : ℕ) (n : Node) → Keeps n (touched t n)
touched-Keeps t n = record {
  same_name = refl;
  same_type = refl;
  same_content = refl;
  same_parent = refl;
  same_children = refl;
  same_count = refl;
  size_bound = λ h. h;
}

pub touch-IsTree : (p : Ptr) {s : Fs} → IsTree s → IsTree (touch p s)
unfolding touch get_current_time
touch-IsTree p {s} tree =
    modify-IsTree p _ (touched-Keeps ((s.time_counter + 1) % 2 ^ 32)) (tick-IsTree _ tree)
