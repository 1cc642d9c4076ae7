-- ===== src/Editor/Rows.antt =====
-- The loops of src/kernel/editor.c that move rows.
use phantom_os.Prelude.{
  ℕ, zero, suc, ◌+◌, ◌-◌, ◌≤◌, ◌<◌, ◌≡◌, ◌∙◌, Bool-cases, inl, inr, arith, true, false, ◌&&◌, ltb,
  leb, if◌then◌else◌,
}
use phantom_os.CString.{Text}
use phantom_os.FileSystem.{update}
use phantom_os.Editor.{Rows, shift_down, shift_up}

-- Each row from `i - k + 1` to `i` becomes the one above it.
pub shift_down-row :
    (k i j : ℕ) (rows : Rows)
    → k ≤ i
    → shift_down k i rows j ≡ (if ltb (i - k) j && leb j i then rows (j - 1) else rows j)
unfolding shift_down
shift_down-row zero i j rows h = ground arith
shift_down-row (suc k) i j rows h =
    ground (arith, shift_down-row k (i - 1) j (update rows i (rows (i - 1))) (omega arith))

-- Each row from `i` to `i + k - 1` becomes the one below it.
pub shift_up-row :
    (k i j : ℕ) (rows : Rows)
    → shift_up k i rows j ≡ (if leb i j && ltb j (i + k) then rows (suc j) else rows j)
unfolding shift_up
shift_up-row zero i j rows = ground arith
shift_up-row (suc k) i j rows =
    ground (arith, shift_up-row k (suc i) j (update rows i (rows (suc i))))

-- The rows below the split row move down and up again.
pub shift-back :
    (rows : Rows) (n y i : ℕ) (head tail line : Text)
    → line ≡ rows y
    → y < n
    → i < n
    → let down = shift_down (n - (y + 1)) n rows in
      shift_up (n - (y + 1)) (y + 1) (update (update (update down (y + 1) tail) y head) y line) i
      ≡ rows i
shift-back rows n y i head tail line e hy hi =
    let down = shift_down (n - (y + 1)) n rows in
    let changed = update (update (update down (y + 1) tail) y head) y line in
    let up = shift_up-row (n - (y + 1)) (y + 1) i changed in
    let below = shift_down-row (n - (y + 1)) n (suc i) rows (omega arith) in
    let here = shift_down-row (n - (y + 1)) n i rows (omega arith) in
    elim (Bool-cases (ltb y i)) [
      | inl under ↦
          let moved : (leb (y + 1) i && ltb i (y + 1 + (n - (y + 1)))) ≡ true = ground arith in
          let other : changed (suc i) ≡ down (suc i) = ground arith in
          let test : (ltb (n - (n - (y + 1))) (suc i) && leb (suc i) n) ≡ true = ground arith in
          let back : down (suc i) ≡ rows i = below ∙ ground (arith, test) in
          up ∙ rw moved (other ∙ back)
      | inr above ↦
          let kept : (leb (y + 1) i && ltb i (y + 1 + (n - (y + 1)))) ≡ false = ground arith in
          let test : (ltb (n - (n - (y + 1))) i && leb i n) ≡ false = ground arith in
          let same : down i ≡ rows i = here ∙ ground (arith, test) in
          up ∙ rw kept (ground (arith, same, e))
    ]
