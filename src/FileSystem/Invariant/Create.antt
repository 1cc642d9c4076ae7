-- ===== src/FileSystem/Invariant/Create.antt =====
-- `fs_create_file` keeps the file system well-formed.
use phantom_os.Prelude.{
  ◌⊎◌, ◌≤◌, ℕ, ◌+◌, ◌%◌, ◌^◌, ◌<◌, ◌≡◌, refl, ◌≢◌, ap, ◌∙◌, inl, inr, Option, none, some, arith,
  ◌==◌, ==_iff, ==_refl, Bool-cases, leb, length, length-take, length-replicate,
}
use phantom_os.CString.{Buffer, Text}
use phantom_os.FileSystem.{
  FileType, regular, directory, Ptr, Node, Fs, update, pool_size, node_size, max_file_size,
  max_total_files,
}
use phantom_os.FileSystem.Alloc.{
  kmalloc, get_current_time, zero_block, alloc_content, stored_name, init_node, create_file,
  no_children,
}
use phantom_os.FileSystem.Invariant.{Nodes, IsNode, IsTree, IsBlock}
use phantom_os.FileSystem.Invariant.Update.{Moves, Keeps-IsNode, Keeps-refl, IsNode-blocks}
use phantom_os.FileSystem.Invariant.Pool.{
  HasPool, kmalloc-cases, fresh_node, fresh_block, IsPool-new_node, IsPool-new_block,
}

-- The whole invariant.
pub record IsWellFormed (s : Fs) : Type 0 where
  pub tree : IsTree s
  pub pool : HasPool s

-- A node as `fs_create_file` leaves it: empty and in no directory.
pub record IsFresh (name : Text) (type : FileType) (n : Node) : Type 0 where
  pub named : n.name ≡ stored_name name
  pub typed : n.type ≡ type
  pub orphan : n.parent ≡ none
  pub empty : n.children ≡ no_children
  pub none_yet : n.child_count ≡ 0
  pub sized : n.size ≡ 0

pub no_child :
    {name : Text} {type : FileType} {n : Node}
    → IsFresh name type n
    → (i : ℕ) (c : Ptr) → n.children i ≢ some c
no_child f i c e = cc (e, ap (λ (slots : ℕ → Option Ptr). slots i) f.empty)

update_ne {ℓ} : {A : Type ℓ} (f : ℕ → A) (p q : ℕ) (v : A) → p ≢ q → update f p v q ≡ f q
update_ne f p q v h = ground arith

-- A new node changes nothing for the others.
module _ (g : Nodes) (p : Ptr) (n : Node) (new : g p ≡ none) where
  other_node : (q : Ptr) (k : Node) → g q ≡ some k → update g p (some n) q ≡ some k
  other_node q k e = update_ne g p q (some n) (λ same. cc (new, e, same)) ∙ e

  new_node-Moves : Moves g (update g p (some n))
  new_node-Moves = record {
    child = λ {q} {c} k. record {
      target = k.target;
      found = other_node c k.target k.found;
      back = k.back;
    };
    dir = λ {q} d. record {
      target = d.target;
      found = other_node q d.target d.found;
      is_dir = d.is_dir;
      placed = d.placed;
    };
    name = λ q c m' k e.
        let same : m' ≡ k.target = cc (e, other_node c k.target k.found) in
        (k.target, k.found, ap (λ (x : Node). x.name) same);
  }

  IsFresh-IsNode :
      {name : Text} {type : FileType} {blocks : Ptr → Option Buffer}
      → IsFresh name type n
      → ((b : Ptr) → n.content ≡ some b → IsBlock blocks b)
      → IsNode (update g p (some n)) blocks p n
  IsFresh-IsNode {name} f bytes = record {
    name_bound = rw f.named (omega (arith, length-take 62 name));
    count_bound = omega arith;
    size_bound = omega arith;
    used = λ i h. absurd (omega arith);
    unused = λ i h. rw f.empty refl;
    child = λ i c e. absurd (no_child f i c e);
    distinct = λ i j c d a b hi. absurd (no_child f i c hi);
    leaf = λ h. f.none_yet;
    above = λ q e. absurd (cc (e, f.orphan));
    bytes = bytes;
  }

-- Every node, where the data buffers only grow.
module _ (g : Nodes) (p : Ptr) (n : Node) (new : g p ≡ none) {blocks blocks' : Ptr → Option Buffer}
    {name : Text} {type : FileType} (f : IsFresh name type n)
    (grow : (b : Ptr) → IsBlock blocks b → IsBlock blocks' b)
    (bytes : (b : Ptr) → n.content ≡ some b → IsBlock blocks' b) where
  new_node-nodes :
      ((q : Ptr) (k : Node) → g q ≡ some k → IsNode g blocks q k)
      → (q : Ptr) (k' : Node) → update g p (some n) q ≡ some k'
      → IsNode (update g p (some n)) blocks' q k'
  new_node-nodes old q k' e = elim (Bool-cases (p == q)) [
    | inl is_p ↦
        let p_q : p ≡ q = (==_iff p q).0 is_p in
        let kn : k' ≡ n = ground arith in rw (kn, ← p_q) (IsFresh-IsNode g p n new f bytes)
    | inr not_p ↦
        let e0 : g q ≡ some k' = ground arith in
        Keeps-IsNode k' k' (new_node-Moves g p n new) (Keeps-refl k')
          (IsNode-blocks grow (old q k' e0))
  ]

-- A state with a new node.
abbrev pub with_node : Fs → Ptr → Node → (ℕ → Option Buffer) → (offset time total : ℕ) → Fs
with_node s p n blocks offset time total = record s {
  memory_offset = offset;
  time_counter = time;
  node = update s.node p (some n);
  block = blocks;
  file_list_head = some p;
  total_files = total;
}

-- What `fs_create_file` does: nothing, or it adds a fresh node at an address that was free.
pub data Created (s : Fs) (name : Text) (type : FileType) : Option Ptr × Fs → Type 0 where
  refused : Created s name type (none, s)
  made :
      (p : Ptr) (n : Node) (blocks : Ptr → Option Buffer) (offset time total : ℕ)
      → s.node p ≡ none
      → IsFresh name type n
      → IsWellFormed (with_node s p n blocks offset time total)
      → ((b : Ptr) (x : Buffer) → s.block b ≡ some x → blocks b ≡ some x)
      → s.memory_offset ≤ p
      → ((b : Ptr) (x : Buffer) → blocks b ≡ some x → (s.block b ≡ some x) ⊎ (x ≡ zero_block))
      → Created s name type (some p, with_node s p n blocks offset time total)

module _ (s : Fs) (ok : IsWellFormed s) (name : Text) (type : FileType) where
  open ok use {tree, pool}

  with_node-IsTree :
      (p : Ptr) (n : Node) (blocks : Ptr → Option Buffer) (offset time total : ℕ)
      → s.node p ≡ none
      → IsFresh name type n
      → ((b : Ptr) → IsBlock s.block b → IsBlock blocks b)
      → ((b : Ptr) → n.content ≡ some b → IsBlock blocks b)
      → IsTree (with_node s p n blocks offset time total)
  with_node-IsTree p n blocks offset time total new f grow bytes =
      let move = new_node-Moves s.node p n new in
      record {
        nodes = new_node-nodes s.node p n new f grow bytes tree.nodes;
        root_dir = let (r, e, d) = tree.root_dir in (r, e, move.dir d);
        current = let (r, e, d) = tree.current in (r, e, move.dir d);
      }

-- The node that `init_node` writes.
abbrev pub fresh_at : Text → FileType → Option Ptr → Option Ptr → ℕ → Node
fresh_at name type content head t = record {
  name = stored_name name;
  type = type;
  size = 0;
  creation_time = t;
  modification_time = t;
  content = content;
  parent = none;
  children = no_children;
  child_count = 0;
  next = head;
}

fresh_at-IsFresh :
    (name : Text) (type : FileType) (content head : Option Ptr) (t : ℕ)
    → IsFresh name type (fresh_at name type content head t)
fresh_at-IsFresh name type content head t = record {
  named = refl;
  typed = refl;
  orphan = refl;
  empty = refl;
  none_yet = refl;
  sized = refl;
}

zero_block-length : length zero_block ≡ max_file_size
unfolding zero_block
zero_block-length = length-replicate max_file_size 0

-- A node without a data buffer.
made_empty :
    (s : Fs) (name : Text) (type : FileType) (t total : ℕ)
    → IsWellFormed s
    → s.memory_offset + node_size < pool_size
    → let p = s.memory_offset in
      Created s name type (
        some p,
        with_node s p (fresh_at name type none s.file_list_head t) s.block (p + node_size) t total,
      )
made_empty s name type t total ok room =
    let p = s.memory_offset in
    let n = fresh_at name type none s.file_list_head t in
    let new = fresh_node p ok.pool (omega arith) in
    let f = fresh_at-IsFresh name type none s.file_list_head t in
    made p n s.block (p + node_size) t total new f
      (record {
        tree =
            with_node-IsTree s ok name type p n s.block (p + node_size) t total new f (λ b h. h)
              (λ b e. absurd (cc));
        pool = IsPool-new_node n ok.pool room;
      })
      (λ b x e. e) (omega arith) (λ b x e. inl e)

-- A node with a cleared data buffer behind it.
made_with_block :
    (s : Fs) (name : Text) (type : FileType) (t total : ℕ)
    → IsWellFormed s
    → s.memory_offset + node_size + max_file_size < pool_size
    → let p = s.memory_offset in
      let b = s.memory_offset + node_size in
      Created s name type (
        some p,
        with_node s p
            (fresh_at name type (some b) s.file_list_head t)
            (update s.block b (some zero_block))
            (b + max_file_size)
            t
            total,
      )
made_with_block s name type t total ok room =
    let p = s.memory_offset in
    let b = p + node_size in
    let n = fresh_at name type (some b) s.file_list_head t in
    let blocks = update s.block b (some zero_block) in
    let new = fresh_node p ok.pool (omega arith) in
    let f = fresh_at-IsFresh name type (some b) s.file_list_head t in
    let keep : ((d : Ptr) (x : Buffer) → s.block d ≡ some x → blocks d ≡ some x) =
      λ d x e. ground (arith, fresh_block b ok.pool (omega arith)) in
    made p n blocks (b + max_file_size) t total new f
      (record {
        tree =
            with_node-IsTree s ok name type p n blocks (b + max_file_size) t total new f
              (λ d (x, e, h). (x, keep d x e, h))
              (λ d e.
                let same : b ≡ d = cc in
                rw (← same) (zero_block, rw (==_refl b) refl, zero_block-length));
        pool = IsPool-new_block zero_block (IsPool-new_node n ok.pool (omega arith)) room;
      })
      keep (omega arith)
      (λ d x e. elim (Bool-cases (b == d)) [
        | inl same ↦ inr (cc (rw same at e))
        | inr other ↦ inl (rw other at e)
      ])

-- The data buffer of a regular file, with and without room for it.
alloc_content-none :
    (s : Fs) → kmalloc max_file_size s ≡ (none, s) → alloc_content regular s ≡ (none, s)
unfolding alloc_content
alloc_content-none s e = rw (e, alloc_content) (rw e refl)

pub alloc_content-some :
    (s s' : Fs) (b : Ptr)
    → kmalloc max_file_size s ≡ (some b, s')
    → alloc_content regular s ≡ (some b, record s' { block = update s'.block b (some zero_block) })
unfolding alloc_content
alloc_content-some s s' b e = rw (e, alloc_content) (rw e refl)

alloc_content-directory : (s : Fs) → alloc_content directory s ≡ (none, s)
unfolding alloc_content
alloc_content-directory s = refl

init_node-Created :
    (s : Fs) (name : Text) (type : FileType)
    → IsWellFormed s
    → s.memory_offset + node_size < pool_size
    → Created s name type (
        init_node name type s.memory_offset
          (record s { memory_offset = s.memory_offset + node_size }))
unfolding init_node get_current_time
init_node-Created s name directory ok room =
    let t = (s.time_counter + 1) % 2 ^ 32 in
    let s1 : Fs = record s { memory_offset = s.memory_offset + node_size; time_counter = t } in
    rw (alloc_content-directory s1)
      (made_empty s name directory t ((s.total_files + 1) % 2 ^ 32) ok room)
init_node-Created s name regular ok room =
    let t = (s.time_counter + 1) % 2 ^ 32 in
    let total = (s.total_files + 1) % 2 ^ 32 in
    let s1 : Fs = record s { memory_offset = s.memory_offset + node_size; time_counter = t } in
    elim (kmalloc-cases max_file_size s1 (omega arith) (omega arith)) [
      | inl (failed, full) ↦
          rw (alloc_content-none s1 failed) (made_empty s name regular t total ok room)
      | inr (got, more) ↦
          rw (alloc_content-some s1 _ (s.memory_offset + node_size) got)
            (made_with_block s name regular t total ok more)
    ]

-- In a well-formed file system `fs_create_file` either changes nothing and returns NULL, or returns
-- a free address of the pool at which the fresh node then stands, and the result is well-formed.
pub create_file-Created :
    (s : Fs) (name : Text) (type : FileType)
    → IsWellFormed s
    → Created s name type (create_file name type s)
unfolding create_file
create_file-Created s name type ok = elim (Bool-cases (leb max_total_files s.total_files)) [
  | inl many ↦ rw many refused
  | inr few ↦ elim (kmalloc-cases node_size s ok.pool.bound (omega arith)) [
    | inl (failed, full) ↦ rw (few, failed) (rw failed refused)
    | inr (got, room) ↦ rw (few, got) (rw got (init_node-Created s name type ok room))
  ]
]

-- The state after `fs_create_file`.
pub create_file-IsWellFormed :
    (s : Fs) (name : Text) (type : FileType)
    → IsWellFormed s
    → IsWellFormed (create_file name type s).1
create_file-IsWellFormed s name type ok =
    Created-IsWellFormed ok (create_file-Created s name type ok)
  where
    Created-IsWellFormed :
        {r : Option Ptr × Fs} → IsWellFormed s → Created s name type r → IsWellFormed r.1
    Created-IsWellFormed ok refused = ok
    Created-IsWellFormed ok (made p n blocks offset time total new f ok' keep above grown) = ok'
