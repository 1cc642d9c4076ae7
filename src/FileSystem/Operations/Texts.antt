-- ===== src/FileSystem/Operations/Texts.antt =====
-- Files that hold a text, and `fs_write_file` of src/kernel/filesystem.c on them.
use mathlib.Core.List.{append_assoc}
use phantom_os.Prelude.{
  ℕ, zero, suc, ◌+◌, ◌-◌, ◌%◌, ◌^◌, ◌≤◌, ◌≡◌, ◌≢◌, refl, ap, sym, ◌∙◌, some, false, [], ◌∷◌, ◌++◌,
  ◌==◌, ==_refl, arith, Ends, Ends-value, length, take, drop, replicate, length-append, take-append,
  length-drop,
}
use phantom_os.CString.{Text, ℤ, pos, Buffer}
use phantom_os.CString.Compare.{IsText}
use phantom_os.FileSystem.{Ptr, Node, Fs, max_file_size}
use phantom_os.FileSystem.Content.{clamp_size, write_content, write_file}
use phantom_os.FileSystem.Invariant.Update.{changed, changed-Keeps, modified_get}
use phantom_os.FileSystem.Invariant.Tidy.{text_limit}
use phantom_os.FileSystem.Directory.{Keeps-Entry}
use phantom_os.FileSystem.Operations.Files.{IsFiles}
use phantom_os.FileSystem.Operations.Contents.{Stays, sized-Keeps, written-Stays}
use phantom_os.FileSystem.Operations.Write.{
  IsFile, sized, written, write_content-written, write_file-write_content,
}
use phantom_os.FileSystem.Paths.Stable.{SameView}

-- The bytes of a data buffer with a text.
abbrev pub padded : Text → Buffer
padded t = t ++ replicate (max_file_size - length t) 0

-- A regular file whose data is a text with zeros behind it.
pub record HoldsText (s : Fs) (p : Ptr) (t : Text) : Type 0 where
  pub node : Node
  pub buffer : Ptr
  pub file : IsFile s p node buffer
  pub bytes : s.block buffer ≡ some (padded t)
  pub plain : IsText t
  pub short : length t ≤ text_limit

-- A text written over another one: the end of a longer old text stays.
abbrev pub overwrite : Text → Text → Text
overwrite u t = u ++ drop (length u) t

IsText-append : (u t : Text) → IsText u → IsText t → IsText (u ++ t)
IsText-append [] t h k = k
IsText-append (c ∷ u) t h k = (h.0, IsText-append u t h.1 k)

IsText-drop : (n : ℕ) (t : Text) → IsText t → IsText (drop n t)
IsText-drop zero t h = h
IsText-drop (suc n) [] h = h
IsText-drop (suc n) (c ∷ t) h = IsText-drop n t h.1

drop-replicate : (k n m : ℕ) → m ≡ n - k → drop {A = ℕ} k (replicate n 0) ≡ replicate m 0
unfolding replicate
drop-replicate zero n m e = ap (λ (i : ℕ). replicate i 0) (omega (arith, e))
drop-replicate (suc k) zero m e =
    let none_left : zero ≡ m = omega (arith, e) in ap (λ (i : ℕ). replicate i 0) none_left
drop-replicate (suc k) (suc n) m e = drop-replicate k n m (omega (arith, e))

drop-zeros :
    (k : ℕ) (t : Text) (n m : ℕ)
    → m ≡ n - (k - length t)
    → drop k (t ++ replicate n 0) ≡ drop k t ++ replicate m 0
drop-zeros zero t n m e = ap (λ (i : ℕ). t ++ replicate i 0) (omega (arith, e))
drop-zeros (suc k) [] n m e = drop-replicate (suc k) n m (omega (arith, e))
drop-zeros (suc k) (c ∷ t) n m e = drop-zeros k t n m (omega (arith, e))

overwrite-padded :
    (u t : Text)
    → length u ≤ text_limit
    → length t ≤ text_limit
    → u ++ drop (length u) (padded t) ≡ padded (overwrite u t)
overwrite-padded u t hu ht =
    let rest = max_file_size - length (overwrite u t) in
    let count : rest ≡ max_file_size - length t - (length u - length t) =
      omega (arith, hu, ht, length-append u (drop (length u) t), length-drop (length u) t) in
    ap (λ (x : Buffer). u ++ x) (drop-zeros (length u) t (max_file_size - length t) rest count)
    ∙ sym (append_assoc u (drop (length u) t) (replicate rest 0))

written-SameView :
    (s : Fs) (p b : Ptr) (new : Buffer) (size : ℕ)
    → size ≤ max_file_size
    → SameView s (written s p b new size)
written-SameView s p b new size h =
    let time = (s.time_counter + 1) % 2 ^ 32 in
    let keeps = sized-Keeps size time h in
    record {
      nodes = λ q n e. (
        changed p (sized size time) q n,
        modified_get p (sized size time) s.node e,
        (changed-Keeps p (sized size time) s.node keeps q n).same_parent,
      );
      entries = λ q name c. Keeps-Entry p (sized size time) s.node keeps q name c;
      same_root = refl;
      same_dir = refl;
    }

-- What a write of the text `u` over the text `t` of the file at `p` leaves; `b` is its data buffer.
pub record Overwritten (s : Fs) (p b : Ptr) (u t : Text) (r : ℤ × Fs) : Type 0 where
  pub code : r.0 ≡ pos (length u)
  pub stays : Stays s r.1
  pub holds : HoldsText r.1 p (overwrite u t)
  pub same_view : SameView s r.1
  pub others : (q : Ptr) (v : Text) (h : HoldsText s q v) → p ≢ q → b ≢ h.buffer → HoldsText r.1 q v

written-others :
    (s : Fs) (p b : Ptr) (new : Buffer) (size : ℕ) (q : Ptr) (v : Text) (h : HoldsText s q v)
    → p ≢ q
    → b ≢ h.buffer
    → HoldsText (written s p b new size) q v
written-others s p b new size q v h ne apart =
    let other_node : (p == q) ≡ false = ground arith in
    let other_block : (b == h.buffer) ≡ false = ground arith in
    record {
      node = h.node;
      buffer = h.buffer;
      file = record {
        cell = rw other_node h.file.cell;
        file = h.file.file;
        buffer = h.file.buffer;
      };
      bytes = rw other_block h.bytes;
      plain = h.plain;
      short = h.short;
    }

-- `fs_write_file` of a text of at most 3,800 characters to a file with such a text.
pub write_file-Overwritten :
    {s : Fs} {p : Ptr} {t : Text} (u after : Text)
    → IsFiles s
    → (h : HoldsText s p t) → IsText u
    → length u ≤ text_limit
    → Ends (Overwritten s p h.buffer u t) (write_file (some p) (u ++ after) (length u) s)
write_file-Overwritten {s} {p} {t} u after ok h plain fits =
    let b = h.buffer in
    let size = length u in
    let exact : clamp_size size ≡ size = ground (arith, fits) in
    let long : size ≤ length (u ++ after) = omega (arith, length-append u after) in
    let (old, at, full) = (ok.well.tree.nodes p h.node h.file.cell).bytes b h.file.buffer in
    let same : old ≡ padded t = cc (at, h.bytes) in
    let new = take size (u ++ after) ++ drop size old in
    let is : new ≡ padded (overwrite u t) =
      rw (take-append size u after refl, same) (overwrite-padded u t fits h.short) in
    Ends-value
      (write_file-write_content (u ++ after) size h.file
        ∙ ap (λ (k : ℕ). write_content p b (u ++ after) k s) exact
        ∙ write_content-written s p (u ++ after) old size at long (omega (arith, fits, full)))
      (record {
        code = refl;
        stays = written-Stays p (u ++ after) old size ok at full long fits;
        holds = record {
          node = sized size ((s.time_counter + 1) % 2 ^ 32) h.node;
          buffer = b;
          file = record {
            cell = rw (==_refl p) (rw h.file.cell refl);
            file = h.file.file;
            buffer = h.file.buffer;
          };
          bytes = rw (==_refl b) (ap some is);
          plain = IsText-append u (drop size t) plain (IsText-drop size t h.plain);
          short = omega (arith, fits, h.short, length-append u (drop size t), length-drop size t);
        };
        same_view = written-SameView s p b new size (omega (arith, fits));
        others = written-others s p b new size;
      })
