-- ===== src/FileSystem/Operations/Delete.antt =====
-- `fs_delete_node` of src/kernel/filesystem.c.
use phantom_os.Prelude.{
  ℕ, ◌+◌, ◌-◌, ◌%◌, ◌^◌, ◌<◌, ◌≡◌, refl, ◌≢◌, ap, sym, ◌↔◌, Option, none, some, true, ◌&&◌, ◌==◌,
  ==_iff, ==_refl, ltb, arith, Bool-cases, Option-cases, inl, inr, ◌>>=◌,
}
use phantom_os.CString.{Text, ℤ}
use phantom_os.FileSystem.{Ptr, Node, Fs, is_directory, same_ptr, success, failure}
use phantom_os.FileSystem.Alloc.{get_current_time}
use phantom_os.FileSystem.Tree.{touch, unlink, detach, delete_node}
use phantom_os.FileSystem.Invariant.Create.{IsWellFormed}
use phantom_os.FileSystem.Directory.{Entry}
use phantom_os.FileSystem.Directory.Remove.{Removed, removed, missing, remove_child-Removed}
use phantom_os.FileSystem.Operations.Steps.{unlink-HasPool}

-- The name that a node has in its parent, if it has a parent.
abbrev pub OwnEntry : Node → Ptr → Text → Type 0
OwnEntry n q name = (n.parent ≡ some q) × (name ≡ n.name)

-- The state `s'` has the entries of `s`, less the one that the node `n` had in its parent.
pub record Without (n : Node) (s s' : Fs) : Type 0 where
  pub ok : IsWellFormed s'
  pub entries :
      (q : Ptr) (name : Text) (d : Ptr)
      → Entry s'.node q name d ↔ (Entry s.node q name d × (¬ OwnEntry n q name))
  pub same_root : s'.root ≡ s.root
  pub same_dir : s'.current_dir ≡ s.current_dir
  pub same_total : s'.total_files ≡ s.total_files

unlink-root : (q : Ptr) (i : ℕ) (s : Fs) → (unlink q i s).root ≡ s.root
unfolding unlink touch get_current_time
unlink-root q i s = refl

unlink-current_dir : (q : Ptr) (i : ℕ) (s : Fs) → (unlink q i s).current_dir ≡ s.current_dir
unfolding unlink touch get_current_time
unlink-current_dir q i s = refl

unlink-total_files : (q : Ptr) (i : ℕ) (s : Fs) → (unlink q i s).total_files ≡ s.total_files
unfolding unlink touch get_current_time
unlink-total_files q i s = refl

pub Without-Removed :
    {s : Fs} {q : Ptr} {n : Node} {r : Option (ℤ × Fs)}
    → IsWellFormed s
    → n.parent ≡ some q
    → Removed s q n.name r
    → (s' : Fs) × ((r >>= λ out. some out.1) ≡ some s') × Without n s s'
Without-Removed {s} {q} {n} ok up (removed i c e tree map other) = (
  unlink q i s,
  refl,
  record {
    ok = record { tree = tree; pool = unlink-HasPool q i s ok.pool };
    entries = λ p name d. elim (Bool-cases (q == p)) [
      | inl is_q ↦
          let qp : q ≡ p = (==_iff q p).0 is_q in
          let at = map name d in
          rw (← qp) (
            (λ h. let (old, ne) = at.0 h in (old, λ own. ne own.1)),
            λ (old, no_own). at.1 (old, λ same. no_own (up, same)),
          )
      | inr not_q ↦
          let ne : q ≢ p = ground arith in
          let at = other p name d ne in ((λ h. (at.0 h, λ own. ne (cc (own.0, up)))), λ h. at.1 h.0)
    ];
    same_root = unlink-root q i s;
    same_dir = unlink-current_dir q i s;
    same_total = unlink-total_files q i s;
  },
)
Without-Removed {s} {q} ok up (missing none_there) = (
  s,
  refl,
  record {
    ok = ok;
    entries = λ p name d. (
      (λ h. (h, λ own. let pq : p ≡ q = cc (own.0, up) in none_there d (rw (← own.1, ← pq) h))),
      λ h. h.0,
    );
    same_root = refl;
    same_dir = refl;
    same_total = refl;
  },
)

-- A well-formed file system always detaches a node from its parent.
detach-Without :
    {s : Fs} {p : Ptr} {n : Node}
    → IsWellFormed s
    → s.node p ≡ some n
    → (s' : Fs) × (detach n.parent n.name s ≡ some s') × Without n s s'
unfolding detach
detach-Without {s} {p} {n} ok cell = elim (Option-cases n.parent) [
  | inl orphan ↦ (
    s,
    rw orphan refl,
    record {
      ok = ok;
      entries = λ q name d. ((λ h. (h, λ own. cc (own.0, orphan))), λ h. h.0);
      same_root = refl;
      same_dir = refl;
      same_total = refl;
    },
  )
  | inr (q, up) ↦
      let dir = (ok.tree.nodes p n cell).above q up in
      let (s', e, w) =
        Without-Removed ok up (remove_child-Removed n.name ok.tree dir.found dir.is_dir) in
      (s', rw up e, w)
]

-- `fs.total_files` is a count that nothing else depends on.
abbrev pub counted : ℕ → Fs → Fs
counted k s = record s { total_files = k }

counted-IsWellFormed : (k : ℕ) (s : Fs) → IsWellFormed s → IsWellFormed (counted k s)
counted-IsWellFormed k s ok = record {
  tree = record { nodes = ok.tree.nodes; root_dir = ok.tree.root_dir; current = ok.tree.current };
  pool = ok.pool;
}

-- The outcomes of `fs_delete_node` for the node `n` at `p`.
pub data Deleted (s : Fs) (p : Ptr) (n : Node) : Option (ℤ × Fs) → Type 0 where
  is_root : s.root ≡ some p → Deleted s p n (some (failure, s))
  not_empty : is_directory n.type ≡ true → 0 < n.child_count → Deleted s p n (some (failure, s))
  deleted :
      (s' : Fs)
      → s.root ≢ some p
      → n.child_count ≡ 0
      → Without n s s'
      → IsWellFormed (counted ((s.total_files + 2 ^ 32 - 1) % 2 ^ 32) s')
      → Deleted s p n (some (success, counted ((s.total_files + 2 ^ 32 - 1) % 2 ^ 32) s'))

same_ptr-eq : (p q : Option Ptr) → same_ptr p q ≡ true → p ≡ q
same_ptr-eq none none e = refl
same_ptr-eq none (some q) e = cc
same_ptr-eq (some p) none e = cc
same_ptr-eq (some p) (some q) e = ap some ((==_iff p q).0 e)

same_ptr_refl : (p : Ptr) → same_ptr (some p) (some p) ≡ true
same_ptr_refl p = ==_refl p

pub delete_node-Deleted :
    {s : Fs} {p : Ptr} {n : Node}
    → IsWellFormed s
    → s.node p ≡ some n
    → Deleted s p n (delete_node (some p) s)
unfolding delete_node
delete_node-Deleted {s} {p} {n} ok cell = elim (Bool-cases (same_ptr (some p) s.root)) [
  | inl root ↦ rw root (is_root (sym (same_ptr-eq (some p) s.root root)))
  | inr other ↦
      let ne : s.root ≢ some p = λ e. cc (other, e, same_ptr_refl p) in
      rw other (
        rw (cell, ◌>>=◌)
          (elim (Bool-cases (is_directory n.type && ltb 0 n.child_count)) [
            | inl busy ↦ rw busy (not_empty (ground arith) (ground arith))
            | inr free ↦
                let (s', run, w) = detach-Without ok cell in
                let empty : n.child_count ≡ 0 = ground (arith, (ok.tree.nodes p n cell).leaf) in
                rw free (
                  rw (run, ◌>>=◌)
                    (rw w.same_total (deleted s' ne empty w (counted-IsWellFormed _ s' w.ok))))
          ]))
]
