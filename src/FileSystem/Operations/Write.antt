-- ===== src/FileSystem/Operations/Write.antt =====
-- `fs_write_file` and `fs_read_file` of src/kernel/filesystem.c.
use phantom_os.Prelude.{
  ℕ, suc, ◌+◌, ◌%◌, ◌^◌, ◌≤◌, ◌≡◌, refl, ◌↔◌, ap, sym, ◌∙◌, some, false, ◌∷◌, ◌++◌, ◌==◌, ==_iff,
  ==_refl, arith, Bool-cases, inl, inr, ◌>>=◌, length, take, drop, length-append, length-take,
  length-drop, take-append, drop-append_le, min,
}
use mathlib.Core.List.{append_assoc}
use phantom_os.CString.{Buffer, Text, ℤ, pos}
use phantom_os.CString.Copy.{memcpy-take}
use phantom_os.FileSystem.{Ptr, Node, Fs, is_directory, update, modify, max_file_size}
use phantom_os.FileSystem.Alloc.{get_current_time}
use phantom_os.FileSystem.Content.{clamp_size, write_content, write_file}
use phantom_os.FileSystem.Invariant.{IsTree, IsBlock}
use phantom_os.FileSystem.Invariant.Update.{modify-IsTree, IsNode-blocks}
use phantom_os.FileSystem.Invariant.Pool.{IsPool-blocks}
use phantom_os.FileSystem.Invariant.Create.{IsWellFormed}
use phantom_os.FileSystem.Operations.Steps.{modified-IsPool}

abbrev pub sized : ℕ → ℕ → Node → Node
sized size t n = record n { size = size; modification_time = t }

-- The state after `size` bytes were written, with the buffer `new` at `b`.
abbrev pub written : Fs → (p b : Ptr) → Buffer → (size : ℕ) → Fs
written s p b new size =
    modify p (sized size ((s.time_counter + 1) % 2 ^ 32)) (record s {
      block = update s.block b (some new);
      time_counter = (s.time_counter + 1) % 2 ^ 32;
    })

-- A data buffer may be replaced by another one.
with_block-IsTree :
    {s : Fs} (b : Ptr) (new : Buffer) (t : ℕ)
    → length new ≡ max_file_size
    → IsTree s
    → IsTree (record s { block = update s.block b (some new); time_counter = t })
with_block-IsTree {s} b new t full tree = record {
  nodes = λ p n e. IsNode-blocks keep (tree.nodes p n e);
  root_dir = tree.root_dir;
  current = tree.current;
}
  where
    keep : (d : Ptr) → IsBlock s.block d → IsBlock (update s.block b (some new)) d
    keep d (x, e, h) = elim (Bool-cases (b == d)) [
      | inl same ↦ (new, rw same refl, full)
      | inr other ↦ (x, rw other e, h)
    ]

pub written-IsWellFormed :
    {s : Fs} (p b : Ptr) (old new : Buffer) (size : ℕ)
    → IsWellFormed s
    → s.block b ≡ some old
    → length new ≡ max_file_size
    → size ≤ max_file_size
    → IsWellFormed (written s p b new size)
written-IsWellFormed {s} p b old new size ok at full h = record {
  tree =
      modify-IsTree p _
        (λ n. record {
          same_name = refl;
          same_type = refl;
          same_content = refl;
          same_parent = refl;
          same_children = refl;
          same_count = refl;
          size_bound = λ _. h;
        })
        (with_block-IsTree b new _ full ok.tree);
  pool = modified-IsPool p _ (IsPool-blocks still ok.pool);
}
  where
    still :
        (d : Ptr) (x' : Buffer)
        → update s.block b (some new) d ≡ some x'
        → (x : Buffer) × (s.block d ≡ some x)
    still d x' e = elim (Bool-cases (b == d)) [
      | inl same ↦ (old, rw (← (==_iff b d).0 same) at)
      | inr other ↦ (x', ground arith)
    ]

-- A regular file with a data buffer.
pub record IsFile (s : Fs) (p : Ptr) (n : Node) (b : Ptr) : Type 0 where
  pub cell : s.node p ≡ some n
  pub file : is_directory n.type ≡ false
  pub buffer : n.content ≡ some b

pub write_content-written :
    (s : Fs) (p : Ptr) {b : Ptr} (bytes old : Buffer) (k : ℕ)
    → s.block b ≡ some old
    → k ≤ length bytes
    → k ≤ length old
    → write_content p b bytes k s ≡ some (pos k, written s p b (take k bytes ++ drop k old) k)
unfolding write_content get_current_time
write_content-written s p bytes old k at long fits =
    let copied = memcpy-take k old bytes fits long in rw (at, ◌>>=◌) (rw (copied, ◌>>=◌) refl)

pub write_file-write_content :
    {s : Fs} {p b : Ptr} {n : Node} (bytes : Buffer) (size : ℕ)
    → IsFile s p n b
    → write_file (some p) bytes size s ≡ write_content p b bytes (clamp_size size) s
unfolding write_file
write_file-write_content bytes size f = rw (f.cell, ◌>>=◌) (rw (f.file, f.buffer) refl)

clamp_size-min : (size : ℕ) → clamp_size size ≡ min size 4096
clamp_size-min size = ground arith

-- On a regular file of a well-formed file system `fs_write_file` never faults, given as many bytes
-- as it copies: it returns their number, the size or 4096 if that is less, and sets the size of the
-- file to it; the data buffer then begins with these bytes and keeps its old ones behind them, and
-- the file system stays well-formed.
pub write_file-take :
    {s : Fs} {p b : Ptr} {n : Node} (bytes : Buffer) (size : ℕ)
    → IsWellFormed s
    → IsFile s p n b
    → min size 4096 ≤ length bytes
    → (old : Buffer) × (s' : Fs) × (n' : Node) × (s.block b ≡ some old)
      × (write_file (some p) bytes size s ≡ some (pos (min size 4096), s'))
      × (s'.block b ≡ some (take (min size 4096) bytes ++ drop (min size 4096) old))
      × (s'.node p ≡ some n')
      × (n'.size ≡ min size 4096)
      × IsWellFormed s'
write_file-take {s} {p} {b} {n} bytes size ok f long =
    let (old, at, full) = (ok.tree.nodes p n f.cell).bytes b f.buffer in
    let k = min size 4096 in
    let within : k ≤ max_file_size = omega arith in
    let new = take k bytes ++ drop k old in
    let kept : length new ≡ max_file_size =
      omega (
        arith,
        length-append (take k bytes) (drop k old),
        length-take k bytes,
        length-drop k old,
      ) in
    (
      old,
      written s p b new k,
      sized k ((s.time_counter + 1) % 2 ^ 32) n,
      at,
      write_file-write_content bytes size f
          ∙ ap (λ (m : ℕ). write_content p b bytes m s) (clamp_size-min size)
          ∙ write_content-written s p bytes old k at long (omega arith),
      rw (==_refl b) refl,
      rw (==_refl p) (rw f.cell refl),
      refl,
      written-IsWellFormed p b old new k ok at kept within,
    )

-- `fs_write_file` returns 0 only for an empty write: the callers that compare the code with 0 take
-- every other success for an error.
pub write_file-eq_zero :
    {s : Fs} {p b : Ptr} {n : Node} (bytes : Buffer) (size : ℕ)
    → IsWellFormed s
    → IsFile s p n b
    → clamp_size size ≤ length bytes
    → (r : ℤ × Fs) × (write_file (some p) bytes size s ≡ some r) × ((r.0 ≡ pos 0) ↔ (size ≡ 0))
write_file-eq_zero {s} {p} {b} {n} bytes size ok f long =
    let same = clamp_size-min size in
    let (old, s', n', at, run, new, cell, sized_to, ok') =
      write_file-take bytes size ok f (omega (arith, long, same)) in
    ((pos (min size 4096), s'), run, ((λ e. ground arith), λ e. ground arith))

-- Writing a text over a longer one leaves the end of the old text in the file: its data then reads
-- as the new text followed by the rest of the old one.
write_file-stale :
    {s : Fs} {p b : Ptr} {n : Node} (t u : Text) (rest after : Buffer)
    → IsWellFormed s
    → IsFile s p n b
    → s.block b ≡ some (t ++ 0 ∷ rest)
    → length u ≤ length t
    → (s' : Fs) × (write_file (some p) (u ++ 0 ∷ after) (length u) s ≡ some (pos (length u), s'))
      × (s'.block b ≡ some ((u ++ drop (length u) t) ++ 0 ∷ rest))
write_file-stale {s} {p} {b} {n} t u rest after ok f at short =
    let (old, s', n', at', run, new, cell, sized_to, ok') =
      write_file-take (u ++ 0 ∷ after) (length u) ok f (ground (arith, longer)) in
    let same : old ≡ t ++ 0 ∷ rest = cc (at, at') in
    (
      s',
      rw exact at run,
      new
          ∙ ap some (
              rw (exact, same, take-append (length u) u (0 ∷ after) refl)
                (rw (drop-append_le (length u) t (0 ∷ rest) short)
                  (sym (append_assoc u (drop (length u) t) (0 ∷ rest))))),
    )
  where
    -- The old text fits in the buffer, and so does the new one.
    fits : length u ≤ max_file_size
    fits =
        let (old, e, full) = (ok.tree.nodes p n f.cell).bytes b f.buffer in
        let same : old ≡ t ++ 0 ∷ rest = cc (at, e) in
        omega (arith, full, ap length same, length-append t (0 ∷ rest))

    exact : min (length u) 4096 ≡ length u
    exact = omega (arith, fits)

    longer : length (u ++ 0 ∷ after) ≡ length u + suc (length after)
    longer = length-append u (0 ∷ after)
