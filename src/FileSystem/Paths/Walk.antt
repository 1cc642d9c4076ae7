-- ===== src/FileSystem/Paths/Walk.antt =====
-- `fs_resolve_path` of src/kernel/filesystem.c against a reference: it follows the components of a
-- path one by one.

use mathlib.Core.List.{append-nil}
use phantom_os.Prelude.{
  ℕ, zero, suc, ◌-◌, ◌≤◌, ◌<◌, ◌≡◌, refl, ◌≢◌, ap, sym, ◌∙◌, Option, none, some, List, [], ◌∷◌,
  ◌++◌, ◌==◌, arith, false, length, take_all, ◌>>=◌, length-append,
}
use phantom_os.CString.{Text}
use phantom_os.FileSystem.{Ptr, Fs, max_path_length}
use phantom_os.FileSystem.Lookup.{
  split_slash, Move, to, missing, step, resolve_loop, resolve_from, resolve_path,
}
use phantom_os.FileSystem.Paths.Split.{NoSlash}

-- A path component: not empty, and without a slash.
abbrev pub IsName : Text → Type 0
IsName [] = ⊥
IsName (c ∷ t) = (c ≢ b'/') × NoSlash t

abbrev pub AllNames : List Text → Type 0
AllNames [] = Unit {0}
AllNames (w ∷ ws) = IsName w × AllNames ws

-- The components with a slash before each, and between them.
abbrev pub join_tail : List Text → Text
join_tail [] = []
join_tail (w ∷ ws) = b'/' ∷ (w ++ join_tail ws)

abbrev pub join : List Text → Text
join [] = []
join (w ∷ ws) = w ++ join_tail ws

-- The reference: one step for each component, until one is missing.
unfoldable pub walk : Fs → Option Ptr → List Text → Option (Option Ptr)
walk s current [] = some current
walk s current (w ∷ ws) =
    step s current w >>= λ m. elim m [ missing ↦ some none | to q ↦ walk s q ws ]

split_slash-name : (w : Text) → NoSlash w → split_slash w ≡ (w, none)
unfolding split_slash
split_slash-name [] h = refl
split_slash-name (c ∷ w) h = ground (arith, split_slash-name w h.1)

split_slash-append : (w t : Text) → NoSlash w → split_slash (w ++ b'/' ∷ t) ≡ (w, some t)
unfolding split_slash
split_slash-append [] t h = refl
split_slash-append (c ∷ w) t h = ground (arith, split_slash-append w t h.1)

-- Two ways to go on after a step agree if they agree from every node.
pub bind_move :
    (r : Option Move) {onward onward' : Option Ptr → Option (Option Ptr)}
    → ((q : Option Ptr) → onward q ≡ onward' q)
    → (r >>= λ m. elim m [ missing ↦ some none | to q ↦ onward q ])
      ≡ (r >>= λ m. elim m [ missing ↦ some none | to q ↦ onward' q ])
bind_move none h = refl
bind_move (some missing) h = refl
bind_move (some (to q)) h = h q

-- The loop over the text of a path does what the walk over its components does.
pub resolve_loop-walk :
    (s : Fs) (fuel : ℕ) (current : Option Ptr) (ws : List Text)
    → AllNames ws
    → length (join ws) < fuel
    → resolve_loop fuel s current (join ws) ≡ walk s current ws
unfolding resolve_loop walk
resolve_loop-walk s zero current ws names f = absurd (omega arith)
resolve_loop-walk s (suc fuel) current [] names f = refl
resolve_loop-walk s (suc fuel) current ([] ∷ ws) names f = absurd names.0
resolve_loop-walk s (suc fuel) current ((c ∷ t) ∷ []) names f =
    let split : split_slash (c ∷ (t ++ [])) ≡ (c ∷ t, none) =
      rw (append-nil (c ∷ t)) (split_slash-name (c ∷ t) names.0) in
    rw split (bind_move (step s current (c ∷ t)) (λ q. rw split refl))
resolve_loop-walk s (suc fuel) current ((c ∷ t) ∷ v ∷ ws) names f =
    let split : split_slash (c ∷ (t ++ join_tail (v ∷ ws))) ≡ (c ∷ t, some (join (v ∷ ws))) =
      split_slash-append (c ∷ t) (join (v ∷ ws)) names.0 in
    rw split (
      bind_move (step s current (c ∷ t)) (λ q. rw split (
        resolve_loop-walk s fuel q (v ∷ ws) names.1
          (omega (arith, length-append (c ∷ t) (join_tail (v ∷ ws)))))))

resolve_loop-nil :
    (fuel : ℕ) (s : Fs) (current : Option Ptr) → resolve_loop (suc fuel) s current [] ≡ some current
unfolding resolve_loop
resolve_loop-nil fuel s current = refl

-- A path that fits the buffer is the text that the loop reads.
resolve_from-loop :
    (s : Fs) (start : Option Ptr) (t : Text)
    → length t ≤ max_path_length - 1 - 1
    → resolve_from s start t ≡ resolve_loop (suc (length t)) s start t
unfolding resolve_from
resolve_from-loop s start [] h = sym (resolve_loop-nil 0 s start)
resolve_from-loop s start (c ∷ t) h =
    ap (λ (x : Text). resolve_loop (suc (length x)) s start x)
      (take_all (max_path_length - 1 - 1) (c ∷ t) h)

resolve_from-walk :
    (s : Fs) (start : Option Ptr) (ws : List Text)
    → AllNames ws
    → length (join ws) ≤ max_path_length - 1 - 1
    → resolve_from s start (join ws) ≡ walk s start ws
resolve_from-walk s start ws names short =
    resolve_from-loop s start (join ws) short
    ∙ resolve_loop-walk s (suc (length (join ws))) start ws names (omega arith)

-- A name does not begin with a slash.
join-first :
    (w : Text) (ws : List Text)
    → IsName w
    → (c : ℕ) × (t : Text) × (join (w ∷ ws) ≡ c ∷ t) × ((c == b'/') ≡ false)
join-first [] ws h = absurd h
join-first (c ∷ w) ws h = (c, w ++ join_tail ws, refl, ground (arith, h.0))

-- A path of at most 254 characters behind the leading slash is resolved as the walk over its
-- components: from the root with a leading slash, and from the current directory without one.
pub resolve_path-walk :
    (s : Fs) (w : Text) (ws : List Text)
    → AllNames (w ∷ ws)
    → length (join (w ∷ ws)) ≤ max_path_length - 1 - 1
    → (resolve_path s (b'/' ∷ join (w ∷ ws)) ≡ walk s s.root (w ∷ ws))
      × (resolve_path s (join (w ∷ ws)) ≡ walk s s.current_dir (w ∷ ws))
unfolding resolve_path
resolve_path-walk s w ws names short =
    let (c, t, e, plain) = join-first w ws names.0 in
    let relative = resolve_from-walk s s.current_dir (w ∷ ws) names short in
    (resolve_from-walk s s.root (w ∷ ws) names short, rw e (rw plain (rw e at relative)))
