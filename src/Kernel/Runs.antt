-- ===== src/Kernel/Runs.antt =====
-- Sequences of interrupts of the keyboard, as src/kernel/kernel.c handles them after its start.
use phantom_os.Prelude.{
  ℕ, ◌%◌, ◌≡◌, Option, some, List, [], ◌∷◌, ◌>>=◌, Ends, ends, end_value, Bool-cases, inl, inr,
  false, if◌then◌else◌, refl, Bool, true, Ends-value,
}
use phantom_os.Keyboard.Layouts.{Covers}
use phantom_os.Kernel.{Kernel}
use phantom_os.Kernel.Handler.{keyboard_handler}
use phantom_os.Kernel.Ready.{IsReady}
use phantom_os.Kernel.Ready.Keys.{HasRoom, keyboard_handler-IsReady}

-- The bytes of the keyboard, one interrupt after another. A halted processor takes none.
unfoldable pub presses : List ℕ → Kernel → Option Kernel
presses [] k = some k
presses (byte ∷ bytes) k =
    if k.halted then some k else (keyboard_handler byte k >>= λ k'. presses bytes k')

if_true {ℓ} : {A : Type ℓ} (b : Bool) (x y : A) → b ≡ true → (if b then x else y) ≡ x
if_true true x y e = refl
if_true false x y e = cc

if_false {ℓ} : {A : Type ℓ} (b : Bool) (x y : A) → b ≡ false → (if b then x else y) ≡ y
if_false true x y e = cc
if_false false x y e = refl

pub presses-halted : (bytes : List ℕ) (k : Kernel) → k.halted ≡ true → presses bytes k ≡ some k
unfolding presses
presses-halted [] k off = refl
presses-halted (byte ∷ bytes) k off = if_true k.halted _ _ off

pub presses-on :
    (byte : ℕ) (bytes : List ℕ) (k : Kernel)
    → k.halted ≡ false
    → presses (byte ∷ bytes) k ≡ (keyboard_handler byte k >>= presses bytes)
unfolding presses
presses-on byte bytes k on = if_false k.halted _ _ on

-- Before each byte that is handled there is room, and its scancode is in the table of the layout or
-- not looked up.
abbrev pub RoomAlong : List ℕ → Kernel → Type 0
RoomAlong [] k = Unit {0}
RoomAlong (byte ∷ bytes) k =
    k.halted ≡ false
    → HasRoom (byte % 256) k
      × Covers k.use_german_layout (byte % 128)
      × ((k' : Kernel) → keyboard_handler byte k ≡ some k' → RoomAlong bytes k')

-- From a well-formed state every sequence of bytes is handled without a fault to its end, or until
-- `exit` halts the processor, and the state after it is well-formed, provided that before each byte
-- that is handled there is room for the paths of the directories and, for a backspace in the insert
-- mode of the editor at the start of a line below the first, for the line that is joined to the one
-- above, and that its scancode is in the table of the layout or at least 90.
pub presses-IsReady :
    (bytes : List ℕ) {k : Kernel} → IsReady k → RoomAlong bytes k → Ends IsReady (presses bytes k)
unfolding presses
presses-IsReady [] h room = ends h
presses-IsReady (byte ∷ bytes) {k} h along = elim (Bool-cases k.halted) [
  | inl off ↦ Ends-value (presses-halted (byte ∷ bytes) k off) h
  | inr on ↦
      let (room, covers, next) = along on in
      let (k', run, ready) = end_value (keyboard_handler-IsReady byte h room covers) in
      rw (presses-on byte bytes k on) (rw (run, ◌>>=◌) (presses-IsReady bytes ready (next k' run)))
]
