-- ===== src/FileSystem/Operations/Placing.antt =====
-- A new file in a directory: `fs_add_child` of src/kernel/filesystem.c after `fs_create_file`.

use phantom_os.Prelude.{
  ◌+◌, ◌%◌, ◌^◌, ◌<◌, ◌≤◌, ◌≡◌, refl, ap, sym, ◌∙◌, Option, none, some, true, [], ◌==◌, ==_iff,
  ==_refl, arith, Bool-cases, inl, inr, length, take_all,
}
use phantom_os.CString.{Text, ℤ}
use phantom_os.FileSystem.{regular, Ptr, Node, Fs, is_directory, modify, success, max_files_per_dir}
use phantom_os.FileSystem.Alloc.{get_current_time}
use phantom_os.FileSystem.Lookup.{find_child, resolve_path}
use phantom_os.FileSystem.Tree.{touch, attach, add_child}
use phantom_os.FileSystem.Invariant.Tidy.{attach-IsTidy}
use phantom_os.FileSystem.Invariant.Update.{changed, modified_get}
use phantom_os.FileSystem.Directory.{Entry, find_child-Entry}
use phantom_os.FileSystem.Directory.Add.{Added, added, full, taken, add_child-Added}
use phantom_os.FileSystem.Operations.Steps.{attach-HasPool}
use phantom_os.FileSystem.Operations.Files.{IsFiles, NewNode, attach-current_dir}
use phantom_os.FileSystem.Operations.Texts.{HoldsText}
use phantom_os.FileSystem.Operations.Making.{
  IsPlainName, resolve_path-name, HasSpace, with_file, with_file-HoldsText, with_file-NewNode,
  with_file-Entry,
}

pub modify-HoldsText :
    (p : Ptr) (f : Node → Node) {s : Fs} {q : Ptr} {t : Text}
    → ((n : Node) → ((f n).type ≡ n.type) × ((f n).content ≡ n.content))
    → HoldsText s q t
    → HoldsText (modify p f s) q t
modify-HoldsText p f {s} {q} same h = record {
  node = changed p f q h.node;
  buffer = h.buffer;
  file = record {
    cell = modified_get p f s.node h.file.cell;
    file = elim (Bool-cases (p == q)) [
      | inl here ↦ rw here (ap is_directory (same h.node).0 ∙ h.file.file)
      | inr there ↦ rw there h.file.file
    ];
    buffer = elim (Bool-cases (p == q)) [
      | inl here ↦ rw here ((same h.node).1 ∙ h.file.buffer)
      | inr there ↦ rw there h.file.buffer
    ];
  };
  bytes = h.bytes;
  plain = h.plain;
  short = h.short;
}

pub touch-HoldsText :
    (p : Ptr) {s : Fs} {q : Ptr} {t : Text} → HoldsText s q t → HoldsText (touch p s) q t
unfolding touch get_current_time
touch-HoldsText p {s} h =
    modify-HoldsText p _ {s = record s { time_counter = (s.time_counter + 1) % 2 ^ 32 }}
      (λ n. (refl, refl))
      (record {
        node = h.node;
        buffer = h.buffer;
        file = record { cell = h.file.cell; file = h.file.file; buffer = h.file.buffer };
        bytes = h.bytes;
        plain = h.plain;
        short = h.short;
      })

pub attach-HoldsText :
    (p c : Ptr) {s : Fs} {q : Ptr} {t : Text} → HoldsText s q t → HoldsText (attach p c s) q t
unfolding attach
attach-HoldsText p c h =
    touch-HoldsText p
      (modify-HoldsText c _ (λ n. (refl, refl)) (modify-HoldsText p _ (λ n. (refl, refl)) h))

-- The new file at `q`, in the directory at `d`, has the name `w` and the text `t`.
pub record NewFile (s : Fs) (d q : Ptr) (w t : Text) (s' : Fs) : Type 0 where
  pub files : IsFiles s'
  pub entry : Entry s'.node d w q
  pub holds : HoldsText s' q t
  pub same_dir : s'.current_dir ≡ s.current_dir
  pub others : (p : Ptr) (v : Text) (c : Ptr) → Entry s.node p v c → Entry s'.node p v c

pub placed_file :
    {s s' : Fs} {d q : Ptr} {n m : Node} {w t : Text} {r : Option (ℤ × Fs)}
    → IsFiles s'
    → d < q
    → m.name ≡ w
    → HoldsText s' q t
    → s'.current_dir ≡ s.current_dir
    → ((p : Ptr) (v : Text) (c : Ptr) → Entry s.node p v c → Entry s'.node p v c)
    → n.child_count < max_files_per_dir
    → ((c : Ptr) → ¬ Entry s'.node d m.name c)
    → Added s' d q n m r
    → (r ≡ some (success, attach d q s')) × NewFile s d q w t (attach d q s')
placed_file {s' = s'} {d} {q} {n} {m} ok before named holds dir keep room free
      (added l tree map other) =
    (
      refl,
      record {
        files = record {
          well = record { tree = tree; pool = attach-HasPool d q s' ok.well.pool };
          tidy = attach-IsTidy d q before ok.tidy;
        };
        entry = (map _ q).1 (inr (sym named, refl));
        holds = attach-HoldsText d q holds;
        same_dir = attach-current_dir d q s' ∙ dir;
        others = λ p v c e. elim (Bool-cases (d == p)) [
          | inl same ↦
              let here : d ≡ p = (==_iff d p).0 same in
              rw (← here) ((map v c).1 (inl (rw here (keep p v c e))))
          | inr ne ↦ (other p v c (λ same. cc (ne, same, ==_refl p))).1 (keep p v c e)
        ];
      },
    )
placed_file ok before named holds dir keep room free (full h) = absurd (omega (arith, h, room))
placed_file ok before named holds dir keep room free (taken c e) = absurd (free c e)

pub with_file-keeps :
    {s : Fs} (name : Text) (p : Ptr) (v : Text) (c : Ptr)
    → NewNode s name regular s.memory_offset (with_file name s)
    → Entry s.node p v c
    → Entry (with_file name s).node p v c
with_file-keeps name p v c new e = record {
  dir = e.dir;
  dir_at = (new.kept p e.dir e.dir_at).1;
  slot = e.slot;
  holds = e.holds;
  target = e.target;
  target_at = (new.kept c e.target e.target_at).1;
  named = e.named;
}

-- The directory at `d` has room for a name that it does not have.
pub record HasPlace (s : Fs) (d : Ptr) (w : Text) : Type 0 where
  pub node : Node
  pub at : s.node d ≡ some node
  pub dir : is_directory node.type ≡ true
  pub slots : node.child_count < max_files_per_dir
  pub free : find_child s (some d) w ≡ some none

-- Where there is room, a new file is made and added to the current directory.
pub add_file-NewFile :
    {s : Fs} {d : Ptr} (w : Text)
    → IsFiles s
    → HasSpace s
    → s.current_dir ≡ some d
    → HasPlace s d w
    → length w ≤ 62
    → let s2 = attach d s.memory_offset (with_file w s) in
      (add_child (some d) (some s.memory_offset) (with_file w s) ≡ some (success, s2))
      × NewFile s d s.memory_offset w [] s2
add_file-NewFile {s} {d} w ok space here h short =
    let new = with_file-NewNode w s ok space in
    let (e, at, dir) = ok.well.tree.current in
    let same : e ≡ d = cc (at, here) in
    let is : dir.target ≡ h.node = cc (same, dir.found, h.at) in
    let named : new.node.name ≡ w = new.fresh.named ∙ take_all 62 w short in
    let gone = (find_child-Entry s w ok.well.tree h.at).1.0 h.free in
    let (before, cell) = new.kept d h.node h.at in
    placed_file new.files before named (with_file-HoldsText w s) new.same_dir
      (λ p v c e. with_file-keeps w p v c new e) h.slots
      (λ c e. gone c (with_file-Entry w d w c ok new (rw named at e)))
      (add_child-Added new.files.well.tree cell h.dir (rw is at dir.placed) new.at new.fresh.orphan)

-- The path of that file leads to it.
pub NewFile-resolve_path :
    {s s2 : Fs} {w t : Text} {d q : Ptr}
    → s.current_dir ≡ some d
    → IsPlainName w
    → NewFile s d q w t s2
    → resolve_path s2 w ≡ some (some q)
NewFile-resolve_path {s2 = s2} {w} {d} {q} at plain f =
    let current : s2.current_dir ≡ some d = f.same_dir ∙ at in
    let found = ((find_child-Entry s2 w f.files.well.tree f.entry.dir_at).0 q).1 f.entry in
    resolve_path-name s2 w (some q) plain
      (ap (λ (x : Option Ptr). find_child s2 x w) current ∙ found)
