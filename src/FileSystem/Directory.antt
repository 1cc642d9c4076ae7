-- ===== src/FileSystem/Directory.antt =====
-- A directory seen from outside: a partial map from names to nodes. `fs_find_child` of
-- src/kernel/filesystem.c is its lookup.
pub mod Add
pub mod Remove
use Prim.Native.Nat.{zero-le}
use phantom_os.Prelude.{
  ℕ, ◌<◌, ◌≡◌, refl, ◌≢◌, ap, sym, ◌∙◌, ◌↔◌, Option, none, some, arith, Option-cases, ◌==◌,
  if◌then◌else◌, Bool, true, false, inl, inr, ◌%◌, ◌+◌, ◌^◌,
}
use phantom_os.CString.{Buffer, Text}
use phantom_os.FileSystem.{Ptr, Node, Fs, modify}
use phantom_os.FileSystem.Lookup.{find_child}
use phantom_os.FileSystem.Tree.{touch}
use phantom_os.FileSystem.Alloc.{get_current_time}
use phantom_os.FileSystem.Invariant.{Nodes, IsChild, IsNode, IsTree, DistinctNames}
use phantom_os.FileSystem.Invariant.Find.{Lookup, nothing, child, find_child-Lookup}
use phantom_os.FileSystem.Invariant.Update.{
  modified, changed, modified_get, modified_inv, Keeps, changed-Keeps, slot-lt, touched-Keeps,
  touched,
}

-- The directory at `p` has the node at `c` under the name `name`.
pub record Entry (g : Nodes) (p : Ptr) (name : Text) (c : Ptr) : Type 0 where
  pub dir : Node
  pub dir_at : g p ≡ some dir
  pub slot : ℕ
  pub holds : dir.children slot ≡ some c
  pub target : Node
  pub target_at : g c ≡ some target
  pub named : target.name ≡ name

Entry-of_Lookup :
    {g : Nodes} {p : Ptr} {n : Node} {name : Text} {r : Option Ptr} {c : Ptr}
    → g p ≡ some n
    → Lookup g p n name r
    → r ≡ some c
    → Entry g p name c
Entry-of_Lookup cell (nothing h) e = absurd (cc)
Entry-of_Lookup {n} {c} cell (child i d m u full at same back) e = record {
  dir = n;
  dir_at = cell;
  slot = i;
  holds = full ∙ e;
  target = m;
  target_at = cc (at, e);
  named = same;
}

Lookup-Entry :
    {g : Nodes} {blocks : Ptr → Option Buffer} {p : Ptr} {n : Node} {name : Text} {r : Option Ptr}
    {c : Ptr}
    → IsNode g blocks p n
    → g p ≡ some n
    → Lookup g p n name r
    → Entry g p name c
    → r ≡ some c
Lookup-Entry {n} {c} ok cell (nothing h) e =
    let dn : e.dir ≡ n = cc (cell, e.dir_at) in
    let holds : n.children e.slot ≡ some c = cc (dn, e.holds) in
    absurd (h e.slot c e.target zero-le (slot-lt e.slot ok holds) holds e.target_at e.named)
Lookup-Entry {n} {c} ok cell (child i d m u full at same back) e =
    let dn : e.dir ≡ n = cc (cell, e.dir_at) in
    let holds : n.children e.slot ≡ some c = cc (dn, e.holds) in
    let slots : i ≡ e.slot =
      ok.distinct i e.slot d c m e.target full holds at e.target_at (same ∙ sym e.named) in
    cc (slots, full, holds)

-- In a well-formed file system `fs_find_child` on a directory returns exactly the entry of that
-- name, and NULL exactly if there is none.
pub find_child-Entry :
    (s : Fs) {p : Ptr} {n : Node} (name : Text)
    → IsTree s
    → s.node p ≡ some n
    → ((c : Ptr) → (find_child s (some p) name ≡ some (some c)) ↔ Entry s.node p name c)
      × ((find_child s (some p) name ≡ some none) ↔ ((c : Ptr) → ¬ Entry s.node p name c))
find_child-Entry s {p} {n} name tree cell =
    let ok = tree.nodes p n cell in
    let (r, run, look) = find_child-Lookup s name ok cell in
    (
      (λ c. (
        (λ e. Entry-of_Lookup cell look (cc (run, e))),
        λ e. rw run (ap some (Lookup-Entry ok cell look e)),
      )),
      (
        (λ e c entry. cc (run, e, Lookup-Entry ok cell look entry)),
        λ none_there. elim (Option-cases r) [
          | inl empty ↦ rw run (ap some empty)
          | inr (c, full) ↦ absurd (none_there c (Entry-of_Lookup cell look full))
        ],
      ),
    )

-- A change of the node at `q` that keeps names, and the slots of the node at `p`, is not seen in the
-- directory at `p`.
module _ (q : Ptr) (f : Node → Node) (g : Nodes) (p : Ptr)
    (names : (n : Node) → (f n).name ≡ n.name)
    (slots : (n : Node) → (changed q f p n).children ≡ n.children) where
  same-name : (c : Ptr) (n : Node) → (changed q f c n).name ≡ n.name
  same-name c n = elim (q == c) as (λ b. (if b then f n else n).name ≡ n.name) [
    | true ↦ names n
    | false ↦ refl
  ]

  pub Entry-modified : (name : Text) (c : Ptr) → Entry (modified q f g) p name c ↔ Entry g p name c
  Entry-modified name c = (
    (λ e.
        let (d, d_at, ed) = modified_inv q f g e.dir_at in
        let (m, m_at, em) = modified_inv q f g e.target_at in
        record {
          dir = d;
          dir_at = d_at;
          slot = e.slot;
          holds = cc (ed, slots d, e.holds);
          target = m;
          target_at = m_at;
          named = cc (em, same-name c m, e.named);
        }),
    (λ e. record {
      dir = changed q f p e.dir;
      dir_at = modified_get q f g e.dir_at;
      slot = e.slot;
      holds = cc (slots e.dir, e.holds);
      target = changed q f c e.target;
      target_at = modified_get q f g e.target_at;
      named = same-name c e.target ∙ e.named;
    }),
  )

-- Changes of sizes and times are not seen.
pub Keeps-Entry :
    (q : Ptr) (f : Node → Node) (g : Nodes)
    → ((n : Node) → Keeps n (f n))
    → (p : Ptr) (name : Text) (c : Ptr) → Entry (modified q f g) p name c ↔ Entry g p name c
Keeps-Entry q f g keeps p =
    Entry-modified q f g p (λ n. (keeps n).same_name)
      (λ n. (changed-Keeps q f g keeps p n).same_children)

-- The time that `fs_add_child` and `fs_remove_child` set is no part of the map.
pub touch-Entry :
    (q : Ptr) (s : Fs) (p : Ptr) (name : Text) (c : Ptr)
    → Entry (touch q s).node p name c ↔ Entry s.node p name c
unfolding touch get_current_time
touch-Entry q s =
    let t = (s.time_counter + 1) % 2 ^ 32 in Keeps-Entry q (touched t) s.node (touched-Keeps t)
