-- ===== src/FileSystem/Operations/Files.antt =====
-- The invariant of the file system as the shell and the editor use it, and the calls that keep it.
use phantom_os.Prelude.{
  ℕ, ◌+◌, ◌%◌, ◌^◌, ◌<◌, ◌≡◌, refl, ◌≢◌, ◌⊎◌, inl, inr, ap, ◌∙◌, Option, none, some, arith, true,
  Bool-cases, ◌==◌, replicate,
}
use phantom_os.CString.{Buffer, Text, ℤ}
use phantom_os.FileSystem.{modify, success, failure, FileType, Ptr, Node, Fs, is_directory}
use phantom_os.FileSystem.Alloc.{get_current_time, zero_block, create_file}
use phantom_os.FileSystem.Tree.{touch, attach, add_child}
use phantom_os.FileSystem.Invariant.Create.{
  IsWellFormed, IsFresh, with_node, Created, refused, made, create_file-Created,
}
use phantom_os.FileSystem.Invariant.Tidy.{HasTail, IsTidy, attach-IsTidy}
use phantom_os.FileSystem.Invariant.Update.{changed, modified_get}
use phantom_os.FileSystem.Directory.Add.{Added, added, full, taken, add_child-Added}
use phantom_os.FileSystem.Operations.Steps.{attach-HasPool}

pub record IsFiles (s : Fs) : Type 0 where
  pub well : IsWellFormed s
  pub tidy : IsTidy s

zero_block-HasTail : HasTail zero_block
unfolding zero_block replicate
zero_block-HasTail = refl

-- What `fs_create_file` leaves when it returns the node at `q`.
pub record NewNode (s : Fs) (name : Text) (type : FileType) (q : Ptr) (s' : Fs) : Type 0 where
  pub files : IsFiles s'
  pub node : Node
  pub at : s'.node q ≡ some node
  pub fresh : IsFresh name type node
  pub kept : (d : Ptr) (m : Node) → s.node d ≡ some m → (d < q) × (s'.node d ≡ some m)
  pub same_dir : s'.current_dir ≡ s.current_dir

pub data CreatedFiles (s : Fs) (name : Text) (type : FileType) : Option Ptr × Fs → Type 0 where
  no_node : CreatedFiles s name type (none, s)
  new_node : (q : Ptr) (s' : Fs) → NewNode s name type q s' → CreatedFiles s name type (some q, s')

with_node-IsTidy :
    {s : Fs} {name : Text} {type : FileType} (p : Ptr) (n : Node) (blocks : Ptr → Option Buffer)
    (offset time total : ℕ)
    → IsTidy s
    → IsFresh name type n
    → ((b : Ptr) (x : Buffer) → blocks b ≡ some x → (s.block b ≡ some x) ⊎ (x ≡ zero_block))
    → IsTidy (with_node s p n blocks offset time total)
with_node-IsTidy {s} p n blocks offset time total ok f grown = record {
  nodes = λ q k e. elim (Bool-cases (p == q)) [
    | inl same ↦
        let kn : n ≡ k = cc (rw same at e) in
        rw (← kn) (record {
          order = λ i c h. absurd (cc (h, ap (λ (slots : ℕ → Option Ptr). slots i) f.empty));
          text = omega (arith, f.sized);
        })
    | inr other ↦ ok.nodes q k (rw other at e)
  ];
  tails = λ b x e. elim (grown b x e) [
    | inl old ↦ ok.tails b x old
    | inr zero ↦ rw zero zero_block-HasTail
  ];
}

Created-CreatedFiles :
    {s : Fs} {name : Text} {type : FileType} {r : Option Ptr × Fs}
    → IsFiles s
    → Created s name type r
    → CreatedFiles s name type r
Created-CreatedFiles ok refused = no_node
Created-CreatedFiles {s} ok (made p n blocks offset time total new f well keep above grown) =
    new_node p (with_node s p n blocks offset time total) (record {
      files = record {
        well = well;
        tidy = with_node-IsTidy p n blocks offset time total ok.tidy f grown;
      };
      node = n;
      at = ground arith;
      fresh = f;
      kept = λ d m e.
          let lower : d < p = omega (arith, ok.well.pool.node_end d m e, above) in
          (lower, ground (arith, lower, e));
      same_dir = refl;
    })

-- `fs_create_file` keeps the invariant, and puts a new node behind all others.
pub create_file-CreatedFiles :
    {s : Fs} (name : Text) (type : FileType)
    → IsFiles s
    → CreatedFiles s name type (create_file name type s)
create_file-CreatedFiles {s} name type ok =
    Created-CreatedFiles ok (create_file-Created s name type ok.well)

-- A node of some type at a pointer.
pub record HasNode (s : Fs) (q : Ptr) (type : FileType) : Type 0 where
  pub node : Node
  pub at : s.node q ≡ some node
  pub typed : node.type ≡ type

pub modify-HasNode :
    (p : Ptr) (f : Node → Node) {s : Fs} {q : Ptr} {type : FileType}
    → ((n : Node) → (f n).type ≡ n.type)
    → HasNode s q type
    → HasNode (modify p f s) q type
modify-HasNode p f {s} {q} same h = record {
  node = changed p f q h.node;
  at = modified_get p f s.node h.at;
  typed = elim (Bool-cases (p == q)) [
    | inl here ↦ rw here (same h.node ∙ h.typed)
    | inr there ↦ rw there h.typed
  ];
}

pub touch-HasNode :
    (p : Ptr) {s : Fs} {q : Ptr} {type : FileType} → HasNode s q type → HasNode (touch p s) q type
unfolding touch get_current_time
touch-HasNode p {s} h =
    modify-HasNode p _ {s = record s { time_counter = (s.time_counter + 1) % 2 ^ 32 }} (λ n. refl)
      (record { node = h.node; at = h.at; typed = h.typed })

attach-HasNode :
    (p c : Ptr) {s : Fs} {q : Ptr} {type : FileType}
    → HasNode s q type
    → HasNode (attach p c s) q type
unfolding attach
attach-HasNode p c h =
    touch-HasNode p (modify-HasNode c _ (λ n. refl) (modify-HasNode p _ (λ n. refl) h))

-- The outcomes of `fs_add_child`: the node is in its place, or nothing changed.
pub data AddedFiles (s : Fs) (c : Ptr) (m : Node) : Option (ℤ × Fs) → Type 0 where
  placed_child :
      (s' : Fs)
      → IsFiles s'
      → HasNode s' c m.type
      → s'.current_dir ≡ s.current_dir
      → AddedFiles s c m (some (success, s'))
  no_place : AddedFiles s c m (some (failure, s))

pub attach-current_dir : (p c : Ptr) (s : Fs) → (attach p c s).current_dir ≡ s.current_dir
unfolding attach touch get_current_time
attach-current_dir p c s = refl

Added-AddedFiles :
    {s : Fs} {p c : Ptr} {n m : Node} {r : Option (ℤ × Fs)}
    → IsFiles s
    → p < c
    → s.node c ≡ some m
    → Added s p c n m r
    → AddedFiles s c m r
Added-AddedFiles {s} {p} {c} ok before at (added l tree map other) =
    placed_child (attach p c s)
      (record {
        well = record { tree = tree; pool = attach-HasPool p c s ok.well.pool };
        tidy = attach-IsTidy p c before ok.tidy;
      })
      (attach-HasNode p c (record { node = _; at = at; typed = refl })) (attach-current_dir p c s)
Added-AddedFiles ok before at (full h) = no_place
Added-AddedFiles ok before at (taken d e) = no_place

-- `fs_add_child` of a newer node without a parent to a directory keeps the invariant.
pub add_child-AddedFiles :
    {s : Fs} {p c : Ptr} {n m : Node}
    → IsFiles s
    → s.node p ≡ some n
    → is_directory n.type ≡ true
    → n.parent ≢ none
    → s.node c ≡ some m
    → m.parent ≡ none
    → p < c
    → AddedFiles s c m (add_child (some p) (some c) s)
add_child-AddedFiles ok cell dir placed at orphan before =
    Added-AddedFiles ok before at (add_child-Added ok.well.tree cell dir placed at orphan)
