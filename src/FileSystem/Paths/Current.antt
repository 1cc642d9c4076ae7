-- ===== src/FileSystem/Paths/Current.antt =====
-- `fs_update_current_path` of src/kernel/filesystem.c: the path that it builds for the current
-- directory leads back to it.
use mathlib.Core.List.{reverse, reverse-cons, append_assoc, append-nil}
use phantom_os.Prelude.{
  ℕ, zero, suc, ◌≤◌, ◌<◌, ◌≡◌, refl, ap, ◌∙◌, Option, none, some, List, [], ◌∷◌, ◌++◌, ltb, arith,
  true, false, length, ◌>>=◌, length-append,
}
use phantom_os.CString.{Text, codes}
use phantom_os.CString.Compare.{text_eq}
use phantom_os.FileSystem.{Ptr, Node, Fs, same_ptr, max_path_length}
use phantom_os.FileSystem.Lookup.{find_child, Move, to, missing, step, resolve_from, resolve_path}
use phantom_os.FileSystem.Paths.{append_name, climb, build_path, update_current_path}
use phantom_os.FileSystem.Invariant.{IsTree}
use phantom_os.FileSystem.Directory.{Entry, find_child-Entry}
use phantom_os.FileSystem.Paths.Walk.{IsName, AllNames, join, join_tail, walk, resolve_path-walk}

-- A name that a path can hold: a component other than "." and "..".
pub record IsPathName (w : Text) : Type 0 where
  pub name : IsName w
  pub not_dot : text_eq w (codes ".") ≡ false
  pub not_dots : text_eq w (codes "..") ≡ false

-- The nodes from the root down to `p`, with the names from `p` up to the root.
pub data PathTo (s : Fs) : Ptr → List Text → Type 0 where
  at_root : (r : Ptr) → s.root ≡ some r → PathTo s r []
  below :
      (p c : Ptr) (n m : Node) (ws : List Text)
      → PathTo s p ws
      → s.node p ≡ some n
      → Entry s.node p m.name c
      → s.node c ≡ some m
      → m.parent ≡ some p
      → same_ptr (some c) s.root ≡ false
      → IsPathName m.name
      → PathTo s c (m.name ∷ ws)

same_root : (q : Option Ptr) (r : Ptr) → q ≡ some r → same_ptr (some r) q ≡ true
same_root none r e = cc
same_root (some x) r e = ground (arith, e)

-- The climb collects the names.
climb-PathTo :
    {s : Fs} {p : Ptr} {ws : List Text} (left : ℕ)
    → PathTo s p ws
    → length ws ≤ left
    → climb s left (some p) ≡ some ws
unfolding climb
climb-PathTo zero (at_root r e) h = refl
climb-PathTo {s} (suc left) (at_root r e) h = rw (same_root s.root r e) refl
climb-PathTo zero (below p c n m ws up cell e at parent ne name) h = absurd (omega arith)
climb-PathTo (suc left) (below p c n m ws up cell e at parent ne name) h =
    rw (ne) (rw (at, ◌>>=◌) (rw (parent, climb-PathTo left up (omega arith), ◌>>=◌) refl))

-- Appending the names in order gives the joined path.
build_path-join_tail :
    (path : Text) (ws : List Text)
    → 1 < length path
    → length (path ++ join_tail ws) < max_path_length
    → build_path path ws ≡ some (path ++ join_tail ws)
unfolding build_path
build_path-join_tail path [] more h = rw (append-nil path) refl
build_path-join_tail path (w ∷ ws) more h =
    let longer = (path ++ codes "/") ++ w in
    let named : append_name path w ≡ longer = ground (arith, more) in
    let whole : longer ++ join_tail ws ≡ path ++ join_tail (w ∷ ws) =
      append_assoc (path ++ codes "/") w (join_tail ws)
      ∙ append_assoc path (codes "/") (w ++ join_tail ws) in
    let short : length (longer ++ join_tail ws) < max_path_length = rw whole h in
    let more' : 1 < length longer =
      omega (arith, length-append (path ++ codes "/") w, length-append path (codes "/"), more) in
    let fits : ltb (length longer) max_path_length ≡ true =
      ground (arith, length-append longer (join_tail ws), short) in
    let rest = build_path-join_tail longer ws more' short in
    rw (named) (rw (fits, ◌>>=◌) (rest ∙ ap some whole))

build_path-join :
    (w : Text) (ws : List Text)
    → IsName w
    → length (b'/' ∷ join (w ∷ ws)) < max_path_length
    → build_path (codes "/") (w ∷ ws) ≡ some (b'/' ∷ join (w ∷ ws))
unfolding build_path
build_path-join [] ws name h = absurd name
build_path-join (c ∷ w) ws name h =
    let fits : ltb (length (b'/' ∷ c ∷ w)) max_path_length ≡ true =
      ground (arith, length-append (c ∷ w) (join_tail ws), h) in
    rw (fits, ◌>>=◌) (build_path-join_tail (b'/' ∷ c ∷ w) ws (omega arith) h)

-- One more component.
walk_more :
    (s : Fs) (r : Option Move) (ws : List Text) (w : Text) (q : Ptr)
    → (r >>= λ m. elim m [ missing ↦ some none | to k ↦ walk s k ws ]) ≡ some (some q)
    → ((k : Option Ptr)
        → walk s k ws ≡ some (some q)
        → walk s k (ws ++ w ∷ []) ≡ walk s (some q) (w ∷ []))
    → (r >>= λ m. elim m [ missing ↦ some none | to k ↦ walk s k (ws ++ w ∷ []) ])
      ≡ walk s (some q) (w ∷ [])
walk_more s none ws w q e again = cc
walk_more s (some missing) ws w q e again = cc
walk_more s (some (to k)) ws w q e again = again k e

walk-append :
    (s : Fs) (current : Option Ptr) (ws : List Text) (w : Text) (q : Ptr)
    → walk s current ws ≡ some (some q)
    → walk s current (ws ++ w ∷ []) ≡ walk s (some q) (w ∷ [])
unfolding walk
walk-append s current [] w q e = let same : current ≡ some q = cc (e) in rw same refl
walk-append s current (v ∷ ws) w q e =
    walk_more s (step s current v) ws w q e (λ k h. walk-append s k ws w q h)

AllNames-append : (ws : List Text) (w : Text) → AllNames ws → IsName w → AllNames (ws ++ w ∷ [])
AllNames-append [] w h k = (k, tt)
AllNames-append (v ∷ ws) w h k = (h.0, AllNames-append ws w h.1 k)

PathTo-AllNames : {s : Fs} {p : Ptr} {ws : List Text} → PathTo s p ws → AllNames (reverse ws)
PathTo-AllNames (at_root r e) = tt
PathTo-AllNames (below p c n m ws up cell e at parent ne name) =
    rw (reverse-cons m.name ws) (AllNames-append (reverse ws) m.name (PathTo-AllNames up) name.name)

step-Entry :
    {s : Fs} {p c : Ptr} {n : Node} (w : Text)
    → IsTree s
    → s.node p ≡ some n
    → Entry s.node p w c
    → IsPathName w
    → step s (some p) w ≡ some (to (some c))
unfolding step
step-Entry {s} {p} {c} w tree cell e name =
    let found : find_child s (some p) w ≡ some (some c) =
      ((find_child-Entry s w tree cell).0 c).1 e in
    rw name.not_dot (rw name.not_dots (rw (found, ◌>>=◌) refl))

walk-step :
    (s : Fs) (p q : Ptr) (w : Text)
    → step s (some p) w ≡ some (to (some q))
    → walk s (some p) (w ∷ []) ≡ some (some q)
unfolding walk
walk-step s p q w e = rw (e, ◌>>=◌) refl

walk-nil : (s : Fs) (current : Option Ptr) → walk s current [] ≡ some current
unfolding walk
walk-nil s current = refl

-- The walk from the root along the names comes to the node.
walk-PathTo :
    {s : Fs} {p : Ptr} {ws : List Text}
    → IsTree s
    → PathTo s p ws
    → walk s s.root (reverse ws) ≡ some (some p)
walk-PathTo {s} tree (at_root r e) = walk-nil s s.root ∙ ap some e
walk-PathTo {s} tree (below p c n m ws up cell e at parent ne name) = rw (reverse-cons m.name ws) (
    walk-append s s.root (reverse ws) m.name p (walk-PathTo tree up)
    ∙ walk-step s p c m.name (step-Entry m.name tree cell e name))

first_name :
    (w : Text) (ws : List Text) → (v : Text) × (vs : List Text) × (reverse (w ∷ ws) ≡ v ∷ vs)
first_name w ws = snoc (reverse ws) (reverse-cons w ws)
  where
    snoc :
        (xs : List Text)
        → reverse (w ∷ ws) ≡ xs ++ w ∷ []
        → (v : Text) × (vs : List Text) × (reverse (w ∷ ws) ≡ v ∷ vs)
    snoc [] e = (w, [], e)
    snoc (x ∷ xs) e = (x, xs ++ w ∷ [], e)

-- The names of a path, the first one written out.
named-path :
    (s : Fs) (c : Ptr) (names : List Text) (v : Text) (vs : List Text)
    → names ≡ v ∷ vs
    → AllNames names
    → walk s s.root names ≡ some (some c)
    → length (b'/' ∷ join names) < max_path_length
    → (build_path (codes "/") names ≡ some (b'/' ∷ join names))
      × (resolve_path s (b'/' ∷ join names) ≡ some (some c))
named-path s c names v vs e = rw e (λ ok found short. (
  build_path-join v vs ok.0 short,
  (resolve_path-walk s v vs ok (omega (arith, short))).0 ∙ found,
))

pub update_current_path-root :
    (s : Fs)
    → same_ptr s.current_dir s.root ≡ true
    → update_current_path s ≡ some (record s { current_path = codes "/" })
unfolding update_current_path
update_current_path-root s e = rw e refl

pub update_current_path-below :
    (s : Fs) (names : List Text) (path : Text)
    → same_ptr s.current_dir s.root ≡ false
    → climb s 16 s.current_dir ≡ some names
    → build_path (codes "/") (reverse names) ≡ some path
    → update_current_path s ≡ some (record s { current_path = path })
unfolding update_current_path
update_current_path-below s names path e up built = rw e (rw (up, ◌>>=◌) (rw (built, ◌>>=◌) refl))

resolve_path-root : (s : Fs) → resolve_path s (codes "/") ≡ some s.root
unfolding resolve_path resolve_from
resolve_path-root s = refl

-- Where the current directory is at most 16 levels below the root and its path, of names other than
-- "." and "..", fits in 256 bytes, `fs_update_current_path` sets exactly the path of the names from
-- the root, and `fs_resolve_path` of it leads back to the current directory.
pub update_current_path-PathTo :
    {s : Fs} {c : Ptr} {ws : List Text}
    → IsTree s
    → s.current_dir ≡ some c
    → PathTo s c ws
    → length ws ≤ 16
    → length (b'/' ∷ join (reverse ws)) < max_path_length
    → (update_current_path s ≡ some (record s { current_path = b'/' ∷ join (reverse ws) }))
      × (resolve_path s (b'/' ∷ join (reverse ws)) ≡ some (some c))
update_current_path-PathTo {s} tree here (at_root r e) deep short = (
  update_current_path-root s
      (ap (λ (q : Option Ptr). same_ptr q s.root) here ∙ same_root s.root r e),
  resolve_path-root s ∙ ap some e,
)
update_current_path-PathTo {s} {c} {ws} tree here (below p d n m names up cell e at parent ne name)
      deep short =
    let path = below p d n m names up cell e at parent ne name in
    let (v, vs, first) = first_name m.name names in
    let (built, found) =
      named-path s d (reverse (m.name ∷ names)) v vs first (PathTo-AllNames path)
        (walk-PathTo tree path) short in
    (
      update_current_path-below s (m.name ∷ names) _
          (ap (λ (q : Option Ptr). same_ptr q s.root) here ∙ ne)
          (ap (climb s 16) here ∙ climb-PathTo 16 path deep) built,
      found,
    )
