-- ===== src/FileSystem/Operations/Making.antt =====
-- A new file with a name in the current directory: `fs_create_file` and `fs_add_child` of
-- src/kernel/filesystem.c where there is room for it.
use mathlib.Core.List.{append-nil}
use phantom_os.Prelude.{
  ℕ, ◌+◌, ◌-◌, ◌%◌, ◌^◌, ◌<◌, ◌≤◌, ◌≡◌, ◌≢◌, refl, ◌∙◌, Option, none, some, false, [], ◌∷◌, ◌++◌,
  ◌==◌, ==_iff, ==_refl, arith, Bool-cases, inl, inr, ◌>>=◌, length, leb,
}
use phantom_os.CString.{Text, codes}
use phantom_os.CString.Compare.{text_eq, eq_of_text_eq}
use phantom_os.FileSystem.{
  regular, Ptr, Fs, update, max_path_length, max_total_files, max_file_size, node_size, pool_size,
}
use phantom_os.FileSystem.Alloc.{kmalloc, get_current_time, zero_block, init_node, create_file}
use phantom_os.FileSystem.Lookup.{find_child, step, resolve_path}
use phantom_os.FileSystem.Invariant.Create.{with_node, fresh_at, alloc_content-some, no_child}
use phantom_os.FileSystem.Directory.{Entry}
use phantom_os.FileSystem.Operations.Files.{
  IsFiles, CreatedFiles, new_node, NewNode, create_file-CreatedFiles,
}
use phantom_os.FileSystem.Operations.Texts.{HoldsText}
use phantom_os.FileSystem.Paths.Walk.{IsName, walk, resolve_path-walk}

-- A name that is resolved in the current directory.
pub record IsPlainName (w : Text) : Type 0 where
  pub name : IsName w
  pub no_dot : w ≢ codes "."
  pub no_dots : w ≢ codes ".."
  pub short : length w ≤ 62

not_eq : (s t : Text) → s ≢ t → text_eq s t ≡ false
not_eq s t ne = elim (Bool-cases (text_eq s t)) [
  | inl same ↦ absurd (ne (eq_of_text_eq s t same))
  | inr other ↦ other
]

walk-name :
    (s : Fs) (d : Option Ptr) (w : Text) (r : Option Ptr)
    → IsPlainName w
    → find_child s d w ≡ some r
    → walk s d (w ∷ []) ≡ some r
unfolding walk step
walk-name s d w none h e = rw (not_eq w _ h.no_dot, not_eq w _ h.no_dots) (rw (e, ◌>>=◌) refl)
walk-name s d w (some q) h e = rw (not_eq w _ h.no_dot, not_eq w _ h.no_dots) (rw (e, ◌>>=◌) refl)

-- A name without a slash, other than . and .., is looked up in the current directory.
pub resolve_path-name :
    (s : Fs) (w : Text) (r : Option Ptr)
    → IsPlainName w
    → find_child s s.current_dir w ≡ some r
    → resolve_path s w ≡ some r
resolve_path-name s w r h e =
    let short : length (w ++ []) ≤ max_path_length - 1 - 1 =
      rw (append-nil w) (omega (arith, h.short)) in
    rw (append-nil w) at ((resolve_path-walk s w [] (h.name, tt) short).1)
    ∙ walk-name s s.current_dir w r h e

-- Room for a file in the table of files and in the pool.
pub record HasSpace (s : Fs) : Type 0 where
  pub few : s.total_files < max_total_files
  pub room : s.memory_offset + node_size + max_file_size < pool_size

-- The state that `fs_create_file` then leaves.
abbrev pub with_file : Text → Fs → Fs
with_file name s =
    let p = s.memory_offset in
    let b = p + node_size in
    let t = (s.time_counter + 1) % 2 ^ 32 in
    with_node s p (fresh_at name regular (some b) s.file_list_head t)
      (update s.block b (some zero_block)) (b + max_file_size) t ((s.total_files + 1) % 2 ^ 32)

kmalloc-room :
    (size : ℕ) (s : Fs)
    → s.memory_offset + size < pool_size
    → kmalloc size s ≡ (some s.memory_offset, record s { memory_offset = s.memory_offset + size })
unfolding kmalloc
kmalloc-room size s h =
    let same : (s.memory_offset + size) % 2 ^ 32 ≡ s.memory_offset + size = omega (arith, h) in
    let free : leb pool_size (s.memory_offset + size) ≡ false = ground (arith, h) in
    rw (same, free) refl

pub create_file-room :
    (name : Text) (s : Fs)
    → HasSpace s
    → create_file name regular s ≡ (some s.memory_offset, with_file name s)
unfolding create_file init_node get_current_time
create_file-room name s h =
    let few : leb max_total_files s.total_files ≡ false = ground (arith, h.few) in
    let t = (s.time_counter + 1) % 2 ^ 32 in
    let s1 : Fs = record s { memory_offset = s.memory_offset + node_size } in
    let s2 : Fs = record s1 { time_counter = t } in
    let node_there : kmalloc node_size s ≡ (some s.memory_offset, s1) =
      kmalloc-room node_size s (omega (arith, h.room)) in
    let data_there =
      alloc_content-some s2 _ s2.memory_offset (kmalloc-room max_file_size s2 h.room) in
    rw (few, node_there) (rw node_there (rw data_there refl))

-- The fresh file.
pub with_file-HoldsText : (name : Text) (s : Fs) → HoldsText (with_file name s) s.memory_offset []
unfolding zero_block
with_file-HoldsText name s = record {
  node =
      fresh_at name regular (some (s.memory_offset + node_size)) s.file_list_head
        ((s.time_counter + 1) % 2 ^ 32);
  buffer = s.memory_offset + node_size;
  file = record { cell = rw (==_refl s.memory_offset) refl; file = refl; buffer = refl };
  bytes = rw (==_refl (s.memory_offset + node_size)) refl;
  plain = tt;
  short = omega arith;
}

pub with_file-buffer :
    (name : Text) (s : Fs) → (with_file-HoldsText name s).buffer ≡ s.memory_offset + node_size
unfolding with_file-HoldsText
with_file-buffer name s = refl

created_node :
    {s : Fs} {name : Text} {q : Ptr} {s' : Fs}
    → CreatedFiles s name regular (some q, s')
    → NewNode s name regular q s'
created_node (new_node q s' new) = new

pub with_file-NewNode :
    (name : Text) (s : Fs)
    → IsFiles s
    → HasSpace s
    → NewNode s name regular s.memory_offset (with_file name s)
with_file-NewNode name s ok h =
    created_node (rw (create_file-room name s h) at (create_file-CreatedFiles name regular ok))

-- The new node is in no directory, and no directory of its own.
pub with_file-Entry :
    {s : Fs} (name : Text) (d : Ptr) (w : Text) (c : Ptr)
    → IsFiles s
    → NewNode s name regular s.memory_offset (with_file name s)
    → Entry (with_file name s).node d w c
    → Entry s.node d w c
with_file-Entry {s} name d w c ok new e = elim (Bool-cases (s.memory_offset == d)) [
  | inl same ↦
      let here : s.memory_offset ≡ d = (==_iff s.memory_offset d).0 same in
      let is : e.dir ≡ new.node = cc (new.at, e.dir_at, here) in
      absurd (no_child new.fresh e.slot c (rw is at e.holds))
  | inr other ↦
      let dir_at : s.node d ≡ some e.dir = rw other at e.dir_at in
      let k = (ok.well.tree.nodes d e.dir dir_at).child e.slot c e.holds in
      let is : k.target ≡ e.target = cc ((new.kept c k.target k.found).1, e.target_at) in
      record {
        dir = e.dir;
        dir_at = dir_at;
        slot = e.slot;
        holds = e.holds;
        target = k.target;
        target_at = k.found;
        named = rw is e.named;
      }
]
