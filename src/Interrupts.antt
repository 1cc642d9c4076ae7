-- ===== src/Interrupts.antt =====
-- The interrupt descriptor table of src/kernel/kernel.c. A write outside its 256 entries is a fault.
mod Tests
pub mod Start
use phantom_os.Prelude.{
  ℕ, suc, ◌+◌, ◌*◌, ◌/◌, ◌%◌, ◌^◌, ◌<◌, ◌≡◌, refl, ◌≢◌, ◌==◌, Option, none, some, arith, Bool, true,
  false, ltb, if◌then◌else◌,
}
use phantom_os.FileSystem.{update}

abbrev pub idt_size : ℕ
idt_size = 256

-- `struct idt_entry`
pub record IdtEntry : Type 0 where
  pub offset_low : ℕ
  pub selector : ℕ
  pub zero_byte : ℕ
  pub type_attr : ℕ
  pub offset_high : ℕ

-- The values that `idt_set_entry` stores; `& 0xFFFF` and `>> 16` are written with `%` and `/`.
abbrev pub idt_entry : (handler selector type_attr : ℕ) → IdtEntry
idt_entry handler selector type_attr = record {
  offset_low = handler % 2 ^ 16;
  selector = selector;
  zero_byte = 0;
  type_attr = type_attr;
  offset_high = (handler / 2 ^ 16) % 2 ^ 16;
}

unfoldable pub idt_set_entry :
    (num handler selector type_attr : ℕ) → (ℕ → IdtEntry) → Option (ℕ → IdtEntry)
idt_set_entry num handler selector type_attr idt =
    if ltb num idt_size then some (update idt num (idt_entry handler selector type_attr)) else none

-- The address that the processor reads from an entry.
abbrev pub handler_of : IdtEntry → ℕ
handler_of e = e.offset_high * 2 ^ 16 + e.offset_low

-- For a number below 256 and a 32-bit address `idt_set_entry` fills one entry, from which the two
-- halves give back the address, keeps the selector and the attributes, and changes no other entry.
pub idt_set_entry-handler_of :
    (num handler selector type_attr : ℕ) (idt : ℕ → IdtEntry)
    → num < idt_size
    → handler < 2 ^ 32
    → (idt' : ℕ → IdtEntry) × (idt_set_entry num handler selector type_attr idt ≡ some idt')
      × (handler_of (idt' num) ≡ handler)
      × ((idt' num).selector ≡ selector)
      × ((idt' num).type_attr ≡ type_attr)
      × ((other : ℕ) → num ≢ other → idt' other ≡ idt other)
unfolding idt_set_entry
idt_set_entry-handler_of num handler selector type_attr idt h w =
    let e = idt_entry handler selector type_attr in
    let same : update idt num e num ≡ e = ground arith in
    (
      update idt num e,
      ground arith,
      rw same (omega arith),
      rw same refl,
      rw same refl,
      λ other ne. ground arith,
    )
