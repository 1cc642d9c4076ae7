-- ===== src/FileSystem/Operations/Contents.antt =====
-- `fs_write_file` of src/kernel/filesystem.c keeps the invariant where it writes a text of at most
-- 3,800 bytes.
use phantom_os.Prelude.{
  ℕ, zero, suc, ◌+◌, ◌%◌, ◌^◌, ◌≤◌, ◌≡◌, refl, ap, sym, ◌∙◌, none, some, true, false, [], ◌∷◌, ◌++◌,
  ◌==◌, arith, Bool-cases, Option-cases, inl, inr, ◌>>=◌, Ends, Ends-value, length, take, drop,
  length-append, length-take, length-drop,
}
use phantom_os.CString.{Buffer}
use phantom_os.FileSystem.{failure, Ptr, Node, Fs, is_directory, max_file_size}
use phantom_os.FileSystem.Content.{clamp_size, write_content, write_file}
use phantom_os.FileSystem.Invariant.Update.{Keeps, changed, modified_get, changed-Keeps}
use phantom_os.FileSystem.Invariant.Tidy.{text_limit, IsTidy, modify-IsTidy}
use phantom_os.FileSystem.Operations.Write.{
  sized, written, written-IsWellFormed, write_content-written, write_file-write_content,
}
use phantom_os.FileSystem.Operations.Files.{IsFiles}

-- A call that changes only contents: every node keeps its place.
pub record Stays (s s' : Fs) : Type 0 where
  pub files : IsFiles s'
  pub nodes :
      (q : Ptr) (n : Node) → s.node q ≡ some n → (n' : Node) × (s'.node q ≡ some n') × Keeps n n'
  pub same_root : s'.root ≡ s.root
  pub same_dir : s'.current_dir ≡ s.current_dir

Keeps-refl : (n : Node) → Keeps n n
Keeps-refl n = record {
  same_name = refl;
  same_type = refl;
  same_content = refl;
  same_parent = refl;
  same_children = refl;
  same_count = refl;
  size_bound = λ h. h;
}

pub Stays-refl : {s : Fs} → IsFiles s → Stays s s
Stays-refl ok = record {
  files = ok;
  nodes = λ q n e. (n, e, Keeps-refl n);
  same_root = refl;
  same_dir = refl;
}

pub drop-nil : (k : ℕ) → drop {A = ℕ} k [] ≡ []
drop-nil zero = refl
drop-nil (suc k) = refl

-- A drop behind the part that was written.
drop-written :
    (m : ℕ) (new old : Buffer) → length new ≤ m → drop m (new ++ drop (length new) old) ≡ drop m old
drop-written m [] old h = refl
drop-written zero (c ∷ new) old h = absurd (omega arith)
drop-written (suc m) (c ∷ new) [] h =
    ap (λ (x : Buffer). drop m (new ++ x)) (sym (drop-nil (length new)))
    ∙ drop-written m new [] (omega arith)
    ∙ drop-nil m
drop-written (suc m) (c ∷ new) (d ∷ old) h = drop-written m new old (omega arith)

written-IsTidy :
    {s : Fs} (p b : Ptr) (bytes old : Buffer) (k : ℕ)
    → IsTidy s
    → s.block b ≡ some old
    → k ≤ length bytes
    → k ≤ text_limit
    → IsTidy (written s p b (take k bytes ++ drop k old) k)
written-IsTidy {s} p b bytes old k ok at long h =
    modify-IsTidy p _ (λ n t. record { order = t.order; text = h })
      (record {
        nodes = ok.nodes;
        tails = λ d x e. elim (Bool-cases (b == d)) [
          | inl same ↦
              let is : take k bytes ++ drop k old ≡ x = cc (rw same at e) in
              let size : length (take k bytes) ≡ k = omega (arith, length-take k bytes, long) in
              rw (← is) (
                rw size at (drop-written text_limit (take k bytes) old (omega (arith, size, h)))
                ∙ ok.tails b old at)
          | inr other ↦ ok.tails d x (rw other at e)
        ];
      })

pub sized-Keeps : (size t : ℕ) → size ≤ max_file_size → (n : Node) → Keeps n (sized size t n)
sized-Keeps size t h n = record {
  same_name = refl;
  same_type = refl;
  same_content = refl;
  same_parent = refl;
  same_children = refl;
  same_count = refl;
  size_bound = λ _. h;
}

pub written-Stays :
    {s : Fs} (p : Ptr) {b : Ptr} (bytes old : Buffer) (k : ℕ)
    → IsFiles s
    → s.block b ≡ some old
    → length old ≡ max_file_size
    → k ≤ length bytes
    → k ≤ text_limit
    → Stays s (written s p b (take k bytes ++ drop k old) k)
written-Stays {s} p {b} bytes old k ok at full long h =
    let new = take k bytes ++ drop k old in
    let kept : length new ≡ max_file_size = omega (
      arith,
      full,
      length-append (take k bytes) (drop k old),
      length-take k bytes,
      length-drop k old,
      long,
      h,
    ) in
    let keeps = sized-Keeps k ((s.time_counter + 1) % 2 ^ 32) (omega (arith, h)) in
    record {
      files = record {
        well = written-IsWellFormed p b old new k ok.well at kept (omega (arith, h));
        tidy = written-IsTidy p b bytes old k ok.tidy at long h;
      };
      nodes = λ q n e. (
        changed p (sized k ((s.time_counter + 1) % 2 ^ 32)) q n,
        modified_get p _ s.node e,
        changed-Keeps p (sized k ((s.time_counter + 1) % 2 ^ 32)) s.node keeps q n,
      );
      same_root = refl;
      same_dir = refl;
    }

write_file-directory :
    (s : Fs) (p : Ptr) (n : Node) (bytes : Buffer) (size : ℕ)
    → s.node p ≡ some n
    → is_directory n.type ≡ true
    → write_file (some p) bytes size s ≡ some (failure, s)
unfolding write_file
write_file-directory s p n bytes size cell dir = rw (cell, ◌>>=◌) (rw dir refl)

write_file-no_content :
    (s : Fs) (p : Ptr) (n : Node) (bytes : Buffer) (size : ℕ)
    → s.node p ≡ some n
    → is_directory n.type ≡ false
    → n.content ≡ none
    → write_file (some p) bytes size s ≡ some (failure, s)
unfolding write_file
write_file-no_content s p n bytes size cell file empty = rw (cell, ◌>>=◌) (rw file (rw empty refl))

-- `fs_write_file` of such a text to any node ends without a fault.
pub write_file-Stays :
    {s : Fs} {p : Ptr} {n : Node} (bytes : Buffer) (size : ℕ)
    → IsFiles s
    → s.node p ≡ some n
    → size ≤ length bytes
    → size ≤ text_limit
    → Ends (λ r. Stays s r.1) (write_file (some p) bytes size s)
write_file-Stays {s} {p} {n} bytes size ok cell long h = elim (Bool-cases (is_directory n.type)) [
  | inl dir ↦ Ends-value (write_file-directory s p n bytes size cell dir) (Stays-refl ok)
  | inr file ↦ elim (Option-cases n.content) [
    | inl empty ↦
        Ends-value (write_file-no_content s p n bytes size cell file empty) (Stays-refl ok)
    | inr (b, buffer) ↦
        let (old, at, full) = (ok.well.tree.nodes p n cell).bytes b buffer in
        let exact : clamp_size size ≡ size = ground (arith, h) in
        let run =
          write_file-write_content {s = s} {p = p} {b = b} {n = n} bytes size
            (record { cell = cell; file = file; buffer = buffer }) in
        Ends-value
          (run
            ∙ ap (λ (k : ℕ). write_content p b bytes k s) exact
            ∙ write_content-written s p bytes old size at long (omega (arith, h, full)))
          (written-Stays p bytes old size ok at full long h)
  ]
]
