-- ===== src/FileSystem/Operations/Copied.antt =====
-- `fs_copy_file` of src/kernel/filesystem.c where it succeeds.
use mathlib.Core.List.{append_assoc, append-nil}
use phantom_os.Prelude.{
  ℕ, zero, suc, ◌+◌, ◌-◌, ◌≤◌, ◌≡◌, ◌≢◌, refl, ap, sym, ◌∙◌, none, some, true, false, [], ◌∷◌, ◌++◌,
  ◌==◌, arith, Bool-cases, inl, inr, ◌>>=◌, length, take, drop, take_all, take-append-drop,
  length-take, replicate, ltb, end_value,
}
use phantom_os.CString.{Text, ℤ}
use phantom_os.CString.Compare.{IsText}
use phantom_os.FileSystem.{regular, Ptr, Node, Fs, is_directory, success, max_file_size, node_size}
use phantom_os.FileSystem.Alloc.{create_file}
use phantom_os.FileSystem.Content.{write_file}
use phantom_os.FileSystem.Lookup.{resolve_path}
use phantom_os.FileSystem.Tree.{attach}
use phantom_os.FileSystem.Paths.{get_parent_path, get_filename}
use phantom_os.FileSystem.Paths.Stable.{SameView, SameView-refl}
use phantom_os.FileSystem.Transfer.{copy_content, place_copy, copy_to, copy_file}
use phantom_os.FileSystem.Invariant.Pool.{fresh_block}
use phantom_os.FileSystem.Invariant.Resolve.{resolve_path-IsValidPtr}
use phantom_os.FileSystem.Invariant.Tidy.{text_limit}
use phantom_os.FileSystem.Directory.{find_child-Entry}
use phantom_os.FileSystem.Directory.Add.{add_child-Added}
use phantom_os.FileSystem.Operations.Files.{IsFiles}
use phantom_os.FileSystem.Operations.Copy.{found_node}
use phantom_os.FileSystem.Operations.Contents.{Stays, Stays-refl, drop-nil}
use phantom_os.FileSystem.Operations.Texts.{
  padded, overwrite, HoldsText, Overwritten, write_file-Overwritten,
}
use phantom_os.FileSystem.Operations.Making.{
  HasSpace, with_file, create_file-room, with_file-NewNode, with_file-HoldsText, with_file-buffer,
  with_file-Entry,
}
use phantom_os.FileSystem.Operations.Placing.{
  HasPlace, NewFile, with_file-keeps, placed_file, attach-HoldsText,
}

-- The source of a copy: a file with a text, whose size is the length of the text at most.
pub record IsSource (s : Fs) (p : Ptr) (t : Text) : Type 0 where
  pub holds : HoldsText s p t
  pub sized : holds.node.size ≤ length t

-- The text that is copied.
abbrev pub copied_text : {s : Fs} {p : Ptr} {t : Text} → IsSource s p t → Text
copied_text {t = t} h = take h.holds.node.size t

-- The place of a new data buffer is none of a file.
data_apart :
    {s : Fs} {p : Ptr} {t : Text}
    → IsFiles s
    → HasSpace s
    → (h : HoldsText s p t) → s.memory_offset + node_size ≢ h.buffer
data_apart {s} ok space h same =
    let b = s.memory_offset + node_size in
    let new : s.block b ≡ none = fresh_block b ok.well.pool (omega arith) in
    absurd (cc (new, h.bytes, same))

not_same : (b c : ℕ) → b ≢ c → (b == c) ≡ false
not_same b c ne = ground arith

-- `fs_create_file` leaves the source alone.
with_file-source :
    {s : Fs} {p : Ptr} {t : Text} (w : Text)
    → IsFiles s
    → HasSpace s
    → (h : HoldsText s p t) → HoldsText (with_file w s) p t
with_file-source {s} w ok space h =
    let apart = not_same (s.memory_offset + node_size) h.buffer (data_apart ok space h) in
    record {
      node = h.node;
      buffer = h.buffer;
      file = record {
        cell = ((with_file-NewNode w s ok space).kept _ h.node h.file.cell).1;
        file = h.file.file;
        buffer = h.file.buffer;
      };
      bytes = rw apart h.bytes;
      plain = h.plain;
      short = h.short;
    }

-- What the copy of the content leaves: the new file at `q` has the text, and the source stays.
record CopiedContent (s : Fs) (p q : Ptr) (t u : Text) (s' : Fs) : Type 0 where
  stays : Stays s s'
  same_view : SameView s s'
  copy : HoldsText s' q u
  source : HoldsText s' p t

IsText-take : (n : ℕ) (t : Text) → IsText t → IsText (take n t)
IsText-take zero t h = tt
IsText-take (suc n) [] h = tt
IsText-take (suc n) (c ∷ t) h = (h.0, IsText-take n t h.1)

overwrite-nil : (u : Text) → overwrite u [] ≡ u
overwrite-nil u = ap (λ (x : Text). u ++ x) (drop-nil (length u)) ∙ append-nil u

-- The write of `n` bytes of the data of a text.
write_prefix-Overwritten :
    {s : Fs} {q : Ptr} (n : ℕ) (t : Text)
    → IsFiles s
    → (fresh : HoldsText s q []) → IsText t
    → length t ≤ text_limit
    → n ≤ length t
    → (r : ℤ × Fs) × (write_file (some q) (padded t) n s ≡ some r)
      × Overwritten s q fresh.buffer (take n t) [] r
write_prefix-Overwritten {s} {q} n t ok fresh plain short within =
    let u = take n t in
    let after = drop n t ++ replicate (max_file_size - length t) 0 in
    let size : length u ≡ n = omega (arith, length-take n t, within) in
    let bytes : u ++ after ≡ padded t =
      sym (append_assoc u (drop n t) _)
      ∙ ap (λ (x : Text). x ++ replicate (max_file_size - length t) 0) (take-append-drop n t) in
    let (r, run, w) = end_value (
      write_file-Overwritten u after ok fresh (IsText-take n t plain)
        (omega (arith, size, within, short))) in
    (r, cc (run, size, bytes), w)

copy_content-CopiedContent :
    {s : Fs} {p q : Ptr} {t : Text}
    → IsFiles s
    → (h : IsSource s p t) → (fresh : HoldsText s q []) → q ≢ p
    → fresh.buffer ≢ h.holds.buffer
    → (s' : Fs) × (copy_content p q s ≡ some s') × CopiedContent s p q t (copied_text h) s'
unfolding copy_content
copy_content-CopiedContent {s} {p} {q} {t} ok h fresh ne apart =
    let n = h.holds.node in
    elim (Bool-cases (ltb 0 n.size)) [
      | inl more ↦
          let (r, run, w) =
            write_prefix-Overwritten n.size t ok fresh h.holds.plain h.holds.short h.sized in
          (
            r.1,
            rw (h.holds.file.cell, ◌>>=◌)
                (rw h.holds.file.buffer
                  (rw more (rw (h.holds.bytes, ◌>>=◌) (rw (run, ◌>>=◌) refl)))),
            record {
              stays = w.stays;
              same_view = w.same_view;
              copy = rw (overwrite-nil (copied_text h)) at w.holds;
              source = w.others p t h.holds ne apart;
            },
          )
      | inr none_there ↦
          let empty : n.size ≡ 0 = ground arith in
          (
            s,
            rw (h.holds.file.cell, ◌>>=◌) (rw h.holds.file.buffer (rw none_there refl)),
            record {
              stays = Stays-refl ok;
              same_view = SameView-refl s;
              copy = rw empty fresh;
              source = h.holds;
            },
          )
    ]

-- A copy of the file at `p`: the new file with its text, and the file itself.
pub record CopiedFile (s : Fs) (p d : Ptr) (w t u : Text) (s' : Fs) : Type 0 where
  pub new : NewFile s d s.memory_offset w u s'
  pub source : HoldsText s' p t

-- The rest of a copy behind `fs_create_file`.
place_copy-CopiedFile :
    {s : Fs} {p d : Ptr} {t : Text} (w : Text)
    → IsFiles s
    → HasSpace s
    → (h : IsSource s p t) → (place : HasPlace s d w) → place.node.parent ≢ none
    → length w ≤ 62
    → (s' : Fs) × (place_copy p d s.memory_offset (with_file w s) ≡ some (success, s'))
      × CopiedFile s p d w t (copied_text h) s'
unfolding place_copy with_file-source
place_copy-CopiedFile {s} {p} {d} {t} w ok space h place placed short =
    let q = s.memory_offset in
    let new = with_file-NewNode w s ok space in
    let source = with_file-source w ok space h.holds in
    let fresh = with_file-HoldsText w s in
    let later : q ≢ p = omega (arith, (new.kept p h.holds.node h.holds.file.cell).0) in
    let (s1, run, k) =
      copy_content-CopiedContent new.files (record { holds = source; sized = h.sized }) fresh later
        (λ e. data_apart ok space h.holds (sym (with_file-buffer w s) ∙ e)) in
    let (dir_before, dir_cell) = new.kept d place.node place.at in
    let (dir, dir_at, kd) = k.stays.nodes d place.node dir_cell in
    let (node, node_at, kn) = k.stays.nodes q new.node new.at in
    let named : node.name ≡ w = kn.same_name ∙ new.fresh.named ∙ take_all 62 w short in
    let gone = (find_child-Entry s w ok.well.tree place.at).1.0 place.free in
    let (added, file) =
      placed_file {w = w} k.stays.files dir_before named k.copy (k.stays.same_dir ∙ new.same_dir)
        (λ p v c e. (k.same_view.entries p v c).1 (with_file-keeps w p v c new e))
        (rw kd.same_count place.slots)
        (λ c e.
          gone c (with_file-Entry w d w c ok new ((k.same_view.entries d w c).0 (rw named at e))))
        (add_child-Added k.stays.files.well.tree dir_at (ap is_directory kd.same_type ∙ place.dir)
          (rw kd.same_parent placed) node_at (kn.same_parent ∙ new.fresh.orphan)) in
    (
      attach d q s1,
      rw (run, ◌>>=◌) (rw (added, ◌>>=◌) refl),
      record { new = file; source = attach-HoldsText d q k.source },
    )

-- A node that a path leads to has a parent.
pub found_parent :
    {s : Fs} (path : Text) {d : Ptr} (n : Node)
    → IsFiles s
    → resolve_path s path ≡ some (some d)
    → s.node d ≡ some n
    → n.parent ≢ none
found_parent {s} path {d} n ok found at =
    let (r, run, valid) = resolve_path-IsValidPtr path ok.well.tree in
    let is : r ≡ some d = cc (found, run) in
    let (m, m_at, placed) = found_node s (rw is at valid) in
    let same : m ≡ n = cc (m_at, at) in rw same at placed

copy_to-place_copy :
    (s : Fs) (p : Ptr) (dest : Text) {d : Ptr} {n : Node} {dir_path w : Text} {r : ℤ × Fs}
    → get_parent_path dest ≡ some dir_path
    → get_filename dest ≡ some w
    → resolve_path s dir_path ≡ some (some d)
    → s.node d ≡ some n
    → is_directory n.type ≡ true
    → create_file w regular s ≡ (some s.memory_offset, with_file w s)
    → place_copy p d s.memory_offset (with_file w s) ≡ some r
    → copy_to p dest s ≡ some r
unfolding copy_to
copy_to-place_copy s p dest up base found at dir made placed =
    rw (up, ◌>>=◌)
      (rw (base, ◌>>=◌) (rw (found, ◌>>=◌) (rw (at, ◌>>=◌) (rw (dir, made) (rw made placed)))))

copy_file-copy_to :
    (s : Fs) (src dest : Text) {p : Ptr} {n : Node}
    → resolve_path s src ≡ some (some p)
    → s.node p ≡ some n
    → is_directory n.type ≡ false
    → copy_file src dest s ≡ copy_to p dest s
unfolding copy_file
copy_file-copy_to s src dest found at file = rw (found, ◌>>=◌) (rw (at, ◌>>=◌) (rw file refl))

-- In a well-formed file system with room for a file, the copy of a file that holds a text, whose size
-- is the length of the text at most, to a new name of at most 62 characters in a directory with a
-- free slot succeeds: the directory then has the name, for a new file that holds as much of the text
-- as the size says; the source still holds its text, every entry of a directory stays, and the file
-- system is well-formed.
pub copy_file-CopiedFile :
    {s : Fs} {p d : Ptr} {t : Text} (src dest dir_path w : Text)
    → IsFiles s
    → HasSpace s
    → resolve_path s src ≡ some (some p)
    → (h : IsSource s p t) → get_parent_path dest ≡ some dir_path
    → get_filename dest ≡ some w
    → resolve_path s dir_path ≡ some (some d)
    → HasPlace s d w
    → length w ≤ 62
    → (s' : Fs) × (copy_file src dest s ≡ some (success, s'))
      × CopiedFile s p d w t (take h.holds.node.size t) s'
copy_file-CopiedFile {s} {p} src dest dir_path w ok space source h up base found place short =
    let (s', done, copied) =
      place_copy-CopiedFile w ok space h place (found_parent dir_path place.node ok found place.at)
        short in
    (
      s',
      copy_file-copy_to s src dest source h.holds.file.cell h.holds.file.file
          ∙ copy_to-place_copy s p dest up base found place.at place.dir
              (create_file-room w s space) done,
      copied,
    )
