-- ===== src/FileSystem/Invariant/Pool.antt =====
-- The memory pool: what `kmalloc` hands out lies within the pool and overlaps nothing else.
use phantom_os.Prelude.{
  ℕ, ◌+◌, ◌%◌, ◌^◌, ◌≤◌, ◌<◌, ◌≡◌, refl, ◌≢◌, ◌⊎◌, inl, inr, Option, none, some, arith, Bool-cases,
  Option-cases, leb,
}
use phantom_os.CString.{Buffer}
use phantom_os.FileSystem.{Ptr, Node, Fs, update, pool_size, node_size, max_file_size}
use phantom_os.FileSystem.Alloc.{kmalloc}
use phantom_os.FileSystem.Invariant.{Nodes}

-- Two ranges of the pool that share no byte.
abbrev pub Apart : (p n q m : ℕ) → Type 0
Apart p n q m = (p + n ≤ q) ⊎ (q + m ≤ p)

-- The nodes and data buffers lie below the offset, each apart from the others.
pub record IsPool (offset : ℕ) (g : Nodes) (blocks : Ptr → Option Buffer) : Type 0 where
  pub bound : offset < pool_size
  pub node_end : (p : Ptr) (n : Node) → g p ≡ some n → p + node_size ≤ offset
  pub block_end : (b : Ptr) (x : Buffer) → blocks b ≡ some x → b + max_file_size ≤ offset
  pub nodes_apart :
      (p q : Ptr) (n m : Node) → g p ≡ some n → g q ≡ some m → p ≢ q → Apart p node_size q node_size
  pub blocks_apart :
      (b d : Ptr) (x y : Buffer)
      → blocks b ≡ some x
      → blocks d ≡ some y
      → b ≢ d
      → Apart b max_file_size d max_file_size
  pub node_block_apart :
      (p b : Ptr) (n : Node) (x : Buffer)
      → g p ≡ some n
      → blocks b ≡ some x
      → Apart p node_size b max_file_size

abbrev pub HasPool : Fs → Type 0
HasPool s = IsPool s.memory_offset s.node s.block

-- `kmalloc` either fails and changes nothing, or returns the old offset and moves it past the new
-- block, which ends within the pool.
pub kmalloc-cases :
    (size : ℕ) (s : Fs)
    → s.memory_offset < pool_size
    → size < pool_size
    → ((kmalloc size s ≡ (none, s)) × (pool_size ≤ s.memory_offset + size))
      ⊎ ((kmalloc size s
            ≡ (some s.memory_offset, record s { memory_offset = s.memory_offset + size }))
          × (s.memory_offset + size < pool_size))
unfolding kmalloc
kmalloc-cases size s h k =
    let e : (s.memory_offset + size) % 2 ^ 32 ≡ s.memory_offset + size = omega arith in
    elim (Bool-cases (leb pool_size (s.memory_offset + size))) [
      | inl full ↦ inl (rw e (rw full refl), ground arith)
      | inr room ↦ inr (rw e (rw room refl), ground arith)
    ]

module _ {offset : ℕ} {g : Nodes} {blocks : Ptr → Option Buffer} where
  -- A change of nodes in place.
  pub IsPool-nodes :
      {g' : Nodes}
      → ((p : Ptr) (n' : Node) → g' p ≡ some n' → (n : Node) × (g p ≡ some n))
      → IsPool offset g blocks
      → IsPool offset g' blocks
  IsPool-nodes old ok = record {
    bound = ok.bound;
    node_end = λ p n e. ok.node_end p _ (old p n e).1;
    block_end = ok.block_end;
    nodes_apart = λ p q n m e f. ok.nodes_apart p q _ _ (old p n e).1 (old q m f).1;
    blocks_apart = ok.blocks_apart;
    node_block_apart = λ p b n x e f. ok.node_block_apart p b _ x (old p n e).1 f;
  }

  -- A write into data buffers in place.
  pub IsPool-blocks :
      {blocks' : Ptr → Option Buffer}
      → ((b : Ptr) (x' : Buffer) → blocks' b ≡ some x' → (x : Buffer) × (blocks b ≡ some x))
      → IsPool offset g blocks
      → IsPool offset g blocks'
  IsPool-blocks old ok = record {
    bound = ok.bound;
    node_end = ok.node_end;
    block_end = λ b x e. ok.block_end b _ (old b x e).1;
    nodes_apart = ok.nodes_apart;
    blocks_apart = λ b d x y e f. ok.blocks_apart b d _ _ (old b x e).1 (old d y f).1;
    node_block_apart = λ p b n x e f. ok.node_block_apart p b n _ e (old b x f).1;
  }

  -- Whatever lies at the offset or above it is new.
  pub fresh_node : (p : Ptr) → IsPool offset g blocks → offset ≤ p → g p ≡ none
  fresh_node p ok above = elim (Option-cases (g p)) [
    | inl new ↦ new
    | inr (n, old) ↦ absurd (omega (arith, ok.node_end p n old))
  ]

  pub fresh_block : (b : Ptr) → IsPool offset g blocks → offset ≤ b → blocks b ≡ none
  fresh_block b ok above = elim (Option-cases (blocks b)) [
    | inl new ↦ new
    | inr (x, old) ↦ absurd (omega (arith, ok.block_end b x old))
  ]

  -- A new node at the offset.
  pub IsPool-new_node :
      (n : Node)
      → IsPool offset g blocks
      → offset + node_size < pool_size
      → IsPool (offset + node_size) (update g offset (some n)) blocks
  IsPool-new_node n ok room = record {
    bound = room;
    node_end = λ p m e. ground (arith, ok.node_end p m);
    block_end = λ b x e. ground (arith, ok.block_end b x);
    nodes_apart =
        λ p q k m e f ne. ground (arith, ok.nodes_apart p q k m, ok.node_end p k, ok.node_end q m);
    blocks_apart = ok.blocks_apart;
    node_block_apart = λ p b k x e f. ground (arith, ok.node_block_apart p b k x, ok.block_end b x);
  }

  -- A new data buffer at the offset.
  pub IsPool-new_block :
      (y : Buffer)
      → IsPool offset g blocks
      → offset + max_file_size < pool_size
      → IsPool (offset + max_file_size) g (update blocks offset (some y))
  IsPool-new_block y ok room = record {
    bound = room;
    node_end = λ p m e. ground (arith, ok.node_end p m);
    block_end = λ b x e. ground (arith, ok.block_end b x);
    nodes_apart = ok.nodes_apart;
    blocks_apart = λ b d x z e f ne.
        ground (arith, ok.blocks_apart b d x z, ok.block_end b x, ok.block_end d z);
    node_block_apart = λ p b k x e f. ground (arith, ok.node_block_apart p b k x, ok.node_end p k);
  }
