-- ===== src/FileSystem/Paths/Components.antt =====
-- `fs_resolve_path` of src/kernel/filesystem.c on any path.
use phantom_os.Prelude.{ℕ, ◌==◌, Option, none, some, List, [], ◌∷◌, if◌then◌else◌}
use phantom_os.CString.{Text}

-- A character before the first of some texts.
abbrev push : ℕ → List Text → List Text
push c [] = (c ∷ []) ∷ []
push c (w ∷ ws) = (c ∷ w) ∷ ws

-- The texts between the slashes.
abbrev pub split : Text → List Text
split [] = [] ∷ []
split (c ∷ t) = let rest = split t in if c == b'/' then [] ∷ rest else push c rest

-- The texts without an empty one at the end.
abbrev pub but_last_empty : List Text → List Text
but_last_empty [] = []
but_last_empty ([] ∷ []) = []
but_last_empty ((c ∷ w) ∷ []) = (c ∷ w) ∷ []
but_last_empty (w ∷ v ∷ ws) = w ∷ but_last_empty (v ∷ ws)

-- The components of a path: a slash at its end is ignored, but elsewhere an empty component counts.
abbrev pub components : Text → List Text
components t = but_last_empty (split t)

-- What the texts are, from the first of them and the rest of the path.
abbrev split_rest : Text → Option Text → List Text
split_rest w none = w ∷ []
split_rest w (some t) = w ∷ split t
