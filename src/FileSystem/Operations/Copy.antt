-- ===== src/FileSystem/Operations/Copy.antt =====
-- `fs_copy_file` and `fs_move_file` of src/kernel/filesystem.c keep the invariant.
use phantom_os.Prelude.{
  suc, ◌<◌, ◌≡◌, refl, ◌≢◌, ap, ◌∙◌, Option, none, some, Bool, true, false, if◌then◌else◌, ltb,
  arith, Bool-cases, Option-cases, inl, inr, ◌>>=◌, Ends, ends, Ends-bind, length, length-drop,
  drop, take, ◌==◌,
}
use phantom_os.CString.{Text, codes, ℤ}
use phantom_os.FileSystem.{
  success, failure, regular, Ptr, Node, Fs, is_directory, max_path_length, max_filename_length,
}
use phantom_os.FileSystem.Alloc.{create_file}
use phantom_os.FileSystem.Lookup.{resolve_path}
use phantom_os.FileSystem.Tree.{delete_node}
use phantom_os.FileSystem.Paths.{last_slash, get_parent_path, get_filename}
use phantom_os.FileSystem.Transfer.{
  is_zero, copy_content, place_copy, copy_to, copy_file, move_file,
}
use phantom_os.FileSystem.Invariant.Resolve.{IsValidPtr, resolve_path-IsValidPtr}
use phantom_os.FileSystem.Operations.Files.{
  IsFiles, CreatedFiles, no_node, new_node, create_file-CreatedFiles, AddedFiles, placed_child,
  no_place, add_child-AddedFiles,
}
use phantom_os.FileSystem.Operations.Removal.{delete_node-Leaves}
use phantom_os.FileSystem.Operations.Contents.{Stays, Stays-refl, write_file-Stays}

-- The state after a call with a code keeps the invariant.
abbrev pub KeepsFiles : ℤ × Fs → Type 0
KeepsFiles r = IsFiles r.1

copy_content-Stays :
    {s : Fs} {src q : Ptr} {n m : Node}
    → IsFiles s
    → s.node src ≡ some n
    → s.node q ≡ some m
    → Ends (Stays s) (copy_content src q s)
unfolding copy_content
copy_content-Stays {s} {src} {q} {n} ok cell target = elim (Option-cases n.content) [
  | inl empty ↦ rw (cell, ◌>>=◌) (rw empty (ends (Stays-refl ok)))
  | inr (b, buffer) ↦ elim (Bool-cases (ltb 0 n.size)) [
    | inl more ↦
        let (bytes, at, full) = (ok.well.tree.nodes src n cell).bytes b buffer in
        let short = (ok.tidy.nodes src n cell).text in
        rw (cell, ◌>>=◌)
          (rw buffer (
            rw more (
              rw (at, ◌>>=◌)
                (Ends-bind
                  (write_file-Stays bytes n.size ok target (omega (arith, full, short)) short)
                  (λ r h. ends h)))))
    | inr none_there ↦ rw (cell, ◌>>=◌) (rw buffer (rw none_there (ends (Stays-refl ok))))
  ]
]

-- What is known of the new file and of its directory before the copy.
record IsPlacing (s : Fs) (src d q : Ptr) : Type 0 where
  files : IsFiles s
  source : Node
  source_at : s.node src ≡ some source
  dir : Node
  dir_at : s.node d ≡ some dir
  is_dir : is_directory dir.type ≡ true
  placed : dir.parent ≢ none
  new : Node
  new_at : s.node q ≡ some new
  orphan : new.parent ≡ none
  order : d < q

after_add :
    {s : Fs} {q : Ptr} {m : Node} {r : Option (ℤ × Fs)}
    → IsFiles s
    → s.node q ≡ some m
    → AddedFiles s q m r
    → Ends KeepsFiles (
        r >>= λ r.
        if is_zero r.0
        then some (success, r.1)
        else (delete_node (some q) r.1 >>= λ r'. some (failure, r'.1)))
after_add ok at (placed_child s' files here dir) = ends files
after_add ok at no_place =
    Ends-bind (delete_node-Leaves ok (record { node = _; at = at; typed = refl }))
      (λ r' h. ends h.files)

place_copy-KeepsFiles :
    {s : Fs} {src d q : Ptr} → IsPlacing s src d q → Ends KeepsFiles (place_copy src d q s)
unfolding place_copy
place_copy-KeepsFiles {s} {src} {d} {q} h =
    Ends-bind (copy_content-Stays h.files h.source_at h.new_at) (λ s1 st.
      let (dir, dir_at, kd) = st.nodes d h.dir h.dir_at in
      let (new, new_at, kn) = st.nodes q h.new h.new_at in
      after_add st.files new_at (
        add_child-AddedFiles st.files dir_at (ap is_directory kd.same_type ∙ h.is_dir)
          (rw kd.same_parent h.placed) new_at (kn.same_parent ∙ h.orphan) h.order))

get_parent_path-some :
    (path : Text) → length path < max_path_length → (dir : Text) × (get_parent_path path ≡ some dir)
unfolding get_parent_path
get_parent_path-some path h =
    let short : ltb (length path) max_path_length ≡ true = ground arith in
    elim (Option-cases (last_slash (length path) path)) [
      | inl no_slash ↦ (codes "/", rw (short, ◌>>=◌) (rw no_slash refl))
      | inr (i, slash) ↦ (
        if i == 0 then codes "/" else take i path,
        rw (short, ◌>>=◌) (rw slash (if_some (i == 0) (codes "/") (take i path))),
      )
    ]
  where
    if_some : (b : Bool) (x y : Text) → (if b then some x else some y) ≡ some (if b then x else y)
    if_some true x y = refl
    if_some false x y = refl

get_filename-some :
    (path : Text)
    → length path < max_filename_length
    → (name : Text) × (get_filename path ≡ some name)
unfolding get_filename
get_filename-some path h = elim (Option-cases (last_slash (length path) path)) [
  | inl no_slash ↦
      let short : ltb (length path) max_filename_length ≡ true = ground arith in
      (path, rw (no_slash, get_filename) (rw short refl))
  | inr (i, slash) ↦
      let short : ltb (length (drop (suc i) path)) max_filename_length ≡ true =
        ground (arith, length-drop (suc i) path) in
      (drop (suc i) path, rw (slash, get_filename) (rw short refl))
]

created-place_copy :
    {s : Fs} {src d : Ptr} {n m : Node} {name : Text} {r : Option Ptr × Fs}
    → IsFiles s
    → s.node src ≡ some n
    → s.node d ≡ some m
    → is_directory m.type ≡ true
    → m.parent ≢ none
    → CreatedFiles s name regular r
    → Ends KeepsFiles (elim r.0 [ none ↦ some (failure, r.1) | some q ↦ place_copy src d q r.1 ])
created-place_copy ok cell dir_at is_dir placed no_node = ends ok
created-place_copy {src} {d} {n} {m} ok cell dir_at is_dir placed (new_node q s' new) =
    place_copy-KeepsFiles (record {
      files = new.files;
      source = n;
      source_at = (new.kept src n cell).1;
      dir = m;
      dir_at = (new.kept d m dir_at).1;
      is_dir = is_dir;
      placed = placed;
      new = new.node;
      new_at = new.at;
      orphan = new.fresh.orphan;
      order = (new.kept d m dir_at).0;
    })

-- What a found pointer is.
pub found_node :
    (s : Fs) {p : Ptr}
    → IsValidPtr s (some p)
    → (n : Node) × (s.node p ≡ some n) × (n.parent ≢ none)
found_node s v = (v.target, v.found, v.placed)

copy_to-KeepsFiles :
    {s : Fs} {src : Ptr} {n : Node} (dest : Text)
    → IsFiles s
    → s.node src ≡ some n
    → length dest < max_filename_length
    → Ends KeepsFiles (copy_to src dest s)
unfolding copy_to
copy_to-KeepsFiles {s} {src} {n} dest ok cell short =
    let (dir_path, e1) = get_parent_path-some dest (omega arith) in
    let (name, e2) = get_filename-some dest short in
    let (found, e3, valid) = resolve_path-IsValidPtr dir_path ok.well.tree in
    rw (e1, ◌>>=◌) (rw (e2, ◌>>=◌) (rw (e3, ◌>>=◌) (place found valid name)))
  where
    place :
        (found : Option Ptr)
        → IsValidPtr s found
        → (name : Text)
        → Ends KeepsFiles (elim found [
          | none ↦ some (failure, s)
          | some d ↦
              (s.node d >>= λ m.
              if is_directory m.type
              then (let (f, s1) = create_file name regular s in
                  elim f [ none ↦ some (failure, s1) | some q ↦ place_copy src d q s1 ])
              else some (failure, s))
        ])
    place none valid name = ends ok
    place (some d) valid name =
        let (m, at, placed) = found_node s valid in
        rw (at, ◌>>=◌)
          (elim (Bool-cases (is_directory m.type)) [
            | inl dir ↦ rw dir (
                created-place_copy ok cell at dir placed (create_file-CreatedFiles name regular ok))
            | inr file ↦ rw file (ends ok)
          ])

-- `fs_copy_file` of any two paths, the second of less than 64 characters, ends without a fault.
pub copy_file-KeepsFiles :
    {s : Fs} (src dest : Text)
    → IsFiles s
    → length dest < max_filename_length
    → Ends KeepsFiles (copy_file src dest s)
unfolding copy_file
copy_file-KeepsFiles {s} src dest ok short =
    let (found, e, valid) = resolve_path-IsValidPtr src ok.well.tree in
    rw (e, ◌>>=◌) (from found valid)
  where
    from :
        (found : Option Ptr)
        → IsValidPtr s found
        → Ends KeepsFiles (elim found [
          | none ↦ some (failure, s)
          | some p ↦
              (s.node p >>= λ n.
              if is_directory n.type then some (failure, s) else copy_to p dest s)
        ])
    from none valid = ends ok
    from (some p) valid =
        let (n, at, placed) = found_node s valid in
        rw (at, ◌>>=◌)
          (elim (Bool-cases (is_directory n.type)) [
            | inl dir ↦ rw dir (ends ok)
            | inr file ↦ rw file (copy_to-KeepsFiles dest ok at short)
          ])

after_copy :
    {s : Fs} (src : Text)
    → IsFiles s
    → Ends KeepsFiles (
        resolve_path s src >>= λ found. elim found [
          | none ↦ some (failure, s)
          | some p ↦ (delete_node (some p) s >>= λ r'. some (success, r'.1))
        ])
after_copy {s} src ok =
    let (found, e, valid) = resolve_path-IsValidPtr src ok.well.tree in
    rw (e, ◌>>=◌) (remove found valid)
  where
    remove :
        (found : Option Ptr)
        → IsValidPtr s found
        → Ends KeepsFiles (elim found [
          | none ↦ some (failure, s)
          | some p ↦ (delete_node (some p) s >>= λ r'. some (success, r'.1))
        ])
    remove none valid = ends ok
    remove (some p) valid =
        let (n, at, placed) = found_node s valid in
        Ends-bind (delete_node-Leaves ok (record { node = n; at = at; typed = refl }))
          (λ r h. ends h.files)

-- `fs_move_file` likewise.
pub move_file-KeepsFiles :
    {s : Fs} (src dest : Text)
    → IsFiles s
    → length dest < max_filename_length
    → Ends KeepsFiles (move_file src dest s)
unfolding move_file
move_file-KeepsFiles src dest ok short = Ends-bind (copy_file-KeepsFiles src dest ok short) (λ r h.
    elim (Bool-cases (is_zero r.0)) [
      | inl copied ↦ rw copied (after_copy src h)
      | inr failed ↦ rw failed (ends h)
    ])
