-- ===== src/FileSystem/Operations/Change.antt =====
-- `fs_change_directory` of src/kernel/filesystem.c, and the fault of `fs_update_current_path`.
use mathlib.Core.List.{reverse}
use phantom_os.Prelude.{
  ◌≡◌, refl, ◌≢◌, sym, ◌∙◌, Option, none, some, if◌then◌else◌, Bool-cases, Option-cases, inl, inr,
  ◌>>=◌, Ends, ends,
}
use phantom_os.CString.{Text, codes}
use phantom_os.FileSystem.{success, failure, not_directory, Ptr, Fs, is_directory, same_ptr}
use phantom_os.FileSystem.Paths.{climb, build_path, update_current_path, change_directory}
use phantom_os.FileSystem.Invariant.{IsPlacedDir}
use phantom_os.FileSystem.Invariant.Resolve.{IsValidPtr, resolve_path-IsValidPtr}
use phantom_os.FileSystem.Paths.Current.{update_current_path-root, update_current_path-below}
use phantom_os.FileSystem.Operations.Files.{IsFiles}
use phantom_os.FileSystem.Operations.Copy.{KeepsFiles, found_node}

-- `fs_update_current_path` has room for the path of every directory.
abbrev pub PathsFit : Fs → Type 0
PathsFit s =
    (p : Ptr)
    → IsPlacedDir s.node p
    → update_current_path (record s { current_dir = some p }) ≢ none

-- The current directory and its path are no other part of the invariant.
moved-IsFiles :
    {s : Fs} (p : Ptr) (path : Text)
    → IsFiles s
    → IsPlacedDir s.node p
    → IsFiles (record s { current_dir = some p; current_path = path })
moved-IsFiles p path ok dir = record {
  well = record {
    tree = record {
      nodes = ok.well.tree.nodes;
      root_dir = ok.well.tree.root_dir;
      current = (p, refl, dir);
    };
    pool = ok.well.pool;
  };
  tidy = record { nodes = ok.tidy.nodes; tails = ok.tidy.tails };
}

-- Only the path is changed.
update_current_path-path :
    (s : Fs) {s' : Fs}
    → update_current_path s ≡ some s'
    → (path : Text) × (s' ≡ record s { current_path = path })
unfolding update_current_path
update_current_path-path s {s'} e = elim (Bool-cases (same_ptr s.current_dir s.root)) [
  | inl root ↦ (codes "/", some-injective (sym e ∙ update_current_path-root s root))
  | inr other ↦ elim (Option-cases (climb s 16 s.current_dir)) [
    | inl fault ↦ absurd (none_some (sym (rw other (rw (fault, ◌>>=◌) refl)) ∙ e))
    | inr (names, up) ↦ elim (Option-cases (build_path (codes "/") (reverse names))) [
      | inl fault ↦
          absurd (none_some (sym (rw other (rw (up, ◌>>=◌) (rw (fault, ◌>>=◌) refl))) ∙ e))
      | inr (path, built) ↦
          (path, some-injective (sym e ∙ update_current_path-below s names path other up built))
    ]
  ]
]
  where
    some-injective : {a b : Fs} → some a ≡ some b → a ≡ b
    some-injective h = cc (h)

    none_some : {a : Fs} → none ≢ some a
    none_some h = cc (h)

-- `fs_change_directory` of any path ends without a fault where there is room for the new path.
pub change_directory-KeepsFiles :
    {s : Fs} (path : Text) → IsFiles s → PathsFit s → Ends KeepsFiles (change_directory path s)
unfolding change_directory
change_directory-KeepsFiles {s} path ok fit =
    let (found, e, valid) = resolve_path-IsValidPtr path ok.well.tree in
    rw (e, ◌>>=◌) (go found valid)
  where
    go :
        (found : Option Ptr)
        → IsValidPtr s found
        → Ends KeepsFiles (elim found [
          | none ↦ some (failure, s)
          | some p ↦
              (s.node p >>= λ n.
              if is_directory n.type
              then (update_current_path (record s { current_dir = some p }) >>= λ s1.
                  some (success, s1))
              else some (not_directory, s))
        ])
    go none valid = ends ok
    go (some p) valid =
        let (n, at, placed) = found_node s valid in
        rw (at, ◌>>=◌)
          (elim (Bool-cases (is_directory n.type)) [
            | inl dir ↦
                let there : IsPlacedDir s.node p = record {
                  target = n;
                  found = at;
                  is_dir = dir;
                  placed = placed;
                } in
                rw dir
                  (elim (Option-cases (update_current_path (record s { current_dir = some p }))) [
                    | inl fault ↦ absurd (fit p there fault)
                    | inr (s', run) ↦
                        let (new, is) =
                          update_current_path-path (record s { current_dir = some p }) run in
                        rw (run, ◌>>=◌) (ends (rw is (moved-IsFiles p new ok there)))
                  ])
            | inr file ↦ rw file (ends ok)
          ])
