-- ===== src/FileSystem/Invariant/Find.antt =====
-- In a well-formed file system `fs_find_child` never faults, and finds the child of a name.
use phantom_os.Prelude.{
  ℕ, zero, suc, ◌+◌, ◌≤◌, ◌<◌, ◌≡◌, refl, ◌≢◌, Option, none, some, arith, Bool-cases, Option-cases,
  ◌>>=◌, ==_iff, ◌==◌, inl, inr,
}
use phantom_os.CString.{Buffer, Text}
use phantom_os.CString.Compare.{text_eq, text_eq_refl, eq_of_text_eq}
use phantom_os.FileSystem.{Ptr, Node, Fs, is_directory}
use phantom_os.FileSystem.Lookup.{find_slot, find_child}
use phantom_os.FileSystem.Invariant.{Nodes, IsNode}

-- What `find_slot` returns: the first slot from `i` on that holds a node of that name.
abbrev pub SlotHolds : Nodes → (ℕ → Option Ptr) → Text → ℕ → Type 0
SlotHolds g children name i =
    (c : Ptr) × (m : Node) × (children i ≡ some c) × (g c ≡ some m) × (m.name ≡ name)

abbrev pub NoSlot : Nodes → (ℕ → Option Ptr) → Text → ℕ → ℕ → Type 0
NoSlot g children name lo hi =
    (j : ℕ) (c : Ptr) (m : Node)
    → lo ≤ j
    → j < hi
    → children j ≡ some c
    → g c ≡ some m
    → m.name ≢ name

pub data Found (g : Nodes) (children : ℕ → Option Ptr) (name : Text) (lo hi : ℕ)
    : Option ℕ → Type 0 where
  absent : NoSlot g children name lo hi → Found g children name lo hi none
  present :
      (i : ℕ)
      → lo ≤ i
      → i < hi
      → SlotHolds g children name i
      → NoSlot g children name lo i
      → Found g children name lo hi (some i)

-- Every slot that is not NULL points to a node.
abbrev pub NoDangling : Nodes → (ℕ → Option Ptr) → Type 0
NoDangling g children = (i : ℕ) (c : Ptr) → children i ≡ some c → (m : Node) × (g c ≡ some m)

-- A slot of another name, or of none, extends the range that was searched.
NoSlot-skip :
    (g : Nodes) (children : ℕ → Option Ptr) (name : Text) (lo hi : ℕ)
    → ((c : Ptr) (m : Node) → children lo ≡ some c → g c ≡ some m → m.name ≢ name)
    → NoSlot g children name (suc lo) hi
    → NoSlot g children name lo hi
NoSlot-skip g children name lo hi miss h j c m l u hc hm = elim (Bool-cases (lo == j)) [
  | inl e ↦ miss c m (rw ((==_iff lo j).0 e) hc) hm
  | inr e ↦ h j c m (ground arith) u hc hm
]

Found-skip :
    {g : Nodes} {children : ℕ → Option Ptr} {name : Text} {lo hi : ℕ} {r : Option ℕ}
    → ((c : Ptr) (m : Node) → children lo ≡ some c → g c ≡ some m → m.name ≢ name)
    → Found g children name (suc lo) hi r
    → Found g children name lo hi r
Found-skip {g} {children} miss (absent h) = absent (NoSlot-skip g children _ _ _ miss h)
Found-skip {g} {children} miss (present i l u holds h) =
    present i (omega arith) u holds (NoSlot-skip g children _ _ i miss h)

-- The search of `fs_find_child` never faults, and finds the first slot with the name.
pub find_slot-Found :
    (s : Fs) (children : ℕ → Option Ptr) (name : Text) (left i hi : ℕ)
    → NoDangling s.node children
    → i + left ≡ hi
    → (r : Option ℕ) × (find_slot s children name left i ≡ some r)
      × Found s.node children name i hi r
unfolding find_slot
find_slot-Found s children name zero i hi safe e =
    (none, refl, absent (λ j c m l u. absurd (omega arith)))
find_slot-Found s children name (suc left) i hi safe e =
    let (r, run, found) = find_slot-Found s children name left (suc i) hi safe (omega arith) in
    elim (Option-cases (children i)) [
      | inl empty ↦ (r, ground arith, Found-skip (λ c m hc. absurd (cc)) found)
      | inr (c, full) ↦
          let (m, cell) = safe i c full in
          elim (Bool-cases (text_eq m.name name)) [
            | inl hit ↦ (
              some i,
              ground arith,
              present i (omega arith) (omega arith)
                  (c, m, full, cell, eq_of_text_eq m.name name hit)
                  (λ j d k l u. absurd (omega arith)),
            )
            | inr miss ↦
                (r, ground arith, Found-skip (λ d k hd hk same. cc (text_eq_refl name)) found)
          ]
    ]

-- What `fs_find_child` returns for the node `n` at `p`.
pub data Lookup (g : Nodes) (p : Ptr) (n : Node) (name : Text) : Option Ptr → Type 0 where
  nothing : NoSlot g n.children name 0 n.child_count → Lookup g p n name none
  child :
      (i : ℕ) (c : Ptr) (m : Node)
      → i < n.child_count
      → n.children i ≡ some c
      → g c ≡ some m
      → m.name ≡ name
      → m.parent ≡ some p
      → Lookup g p n name (some c)

-- Slots of a node of a tree do not dangle.
pub NoDangling-IsNode :
    {g : Nodes} {blocks : Ptr → Option Buffer} {p : Ptr} {n : Node}
    → IsNode g blocks p n
    → NoDangling g n.children
NoDangling-IsNode ok i c e = let k = ok.child i c e in (k.target, k.found)

Lookup-of :
    {g : Nodes} {blocks : Ptr → Option Buffer} {p : Ptr} {n : Node} (name : Text) {r : Option ℕ}
    → IsNode g blocks p n
    → Found g n.children name 0 n.child_count r
    → (q : Option Ptr) × ((elim r [ none ↦ some none | some i ↦ some (n.children i) ]) ≡ some q)
      × Lookup g p n name q
Lookup-of name ok (absent h) = (none, refl, nothing h)
Lookup-of {p} {n} name ok (present i l u (c, m, full, cell, same) h) =
    let k = ok.child i c full in
    (some c, rw full, child i c m u full cell same (cc (k.found, k.back)))

-- On a node of a tree `fs_find_child` never faults; it finds the child of that name, or NULL if
-- there is none.
pub find_child-Lookup :
    (s : Fs) {p : Ptr} {n : Node} (name : Text)
    → IsNode s.node s.block p n
    → s.node p ≡ some n
    → (r : Option Ptr) × (find_child s (some p) name ≡ some r) × Lookup s.node p n name r
unfolding find_child
find_child-Lookup s {p} {n} name ok cell = elim (Bool-cases (is_directory n.type)) [
  | inl dir ↦
      let (r, run, found) =
        find_slot-Found s n.children name n.child_count 0 n.child_count (NoDangling-IsNode ok)
          (omega arith) in
      let (q, e, look) = Lookup-of name ok found in
      (q, rw (cell, ◌>>=◌) (rw dir (rw (run, ◌>>=◌) e)), look)
  | inr file ↦ (
    none,
    rw (cell, ◌>>=◌) (rw file refl),
    nothing (λ j c m l u. absurd (omega (arith, ok.leaf file))),
  )
]
