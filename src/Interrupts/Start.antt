-- ===== src/Interrupts/Start.antt =====
-- `init_idt` of src/kernel/kernel.c.
use mathlib.Core.List.{append_assoc}
use phantom_os.Prelude.{
  ℕ, ◌+◌, ◌-◌, ◌*◌, ◌%◌, ◌^◌, ◌<◌, ◌≡◌, ◌≢◌, ◌∙◌, refl, sym, arith, Bool, true, Option, some, List,
  [], ◌∷◌, ◌++◌, ◌>>=◌, Ends, ends, Ends-bind, ◌/◌,
}
use phantom_os.FileSystem.{update}
use phantom_os.Interrupts.{IdtEntry, idt_size, handler_of, idt_set_entry, idt_set_entry-handler_of}
use phantom_os.Ports.{Machine, Bus, inb, outb}
use phantom_os.Terminal.{Terminal}

-- `struct idt_ptr`
pub record IdtPointer : Type 0 where
  pub limit : ℕ
  pub base : ℕ

-- `loaded` is the register that `lidt` sets, and `interrupts` is set by `sti`.
pub record Cpu (m : Machine) : Type 0 where
  pub bus : Bus m
  pub idt : ℕ → IdtEntry
  pub idt_pointer : IdtPointer
  pub loaded : Option IdtPointer
  pub interrupts : Bool

-- The entries of the timer and the keyboard, both with the handler of the keyboard.
unfoldable pub install_handlers : ℕ → (ℕ → IdtEntry) → Option (ℕ → IdtEntry)
install_handlers handler idt =
    idt_set_entry 0x20 handler 8 0x8E idt >>= λ idt1. idt_set_entry 0x21 handler 8 0x8E idt1

-- `vga[5] = 0x0F`: the colours of the third cell.
abbrev pub mark_cell : Terminal → Terminal
mark_cell t = record t { buffer = update t.buffer 2 (t.buffer 2 % 2 ^ 8 + 0x0F * 2 ^ 8) }

-- An entry has 8 bytes; `base` is the address of the table.
abbrev pub table_pointer : ℕ → IdtPointer
table_pointer base = record { limit = idt_size * 8 - 1; base = base }

module _ (m : Machine) where
  -- The interrupt controllers put their lines at 0x20 and 0x28, and all but the keyboard's are masked.
  unfoldable pub remap_pic : Bus m → Bus m
  remap_pic b =
      let b1 = outb m 0xA0 0x11 (outb m 0x20 0x11 b) in
      let b2 = outb m 0xA1 0x28 (outb m 0x21 0x20 b1) in
      let b3 = outb m 0xA1 0x02 (outb m 0x21 0x04 b2) in
      let b4 = outb m 0xA1 0x01 (outb m 0x21 0x01 b3) in
      outb m 0x21 0xFD (outb m 0xA1 0xFF (outb m 0x21 0xFF b4))

  -- `handler` is the address of the interrupt routine.
  unfoldable pub init_idt : (handler base : ℕ) → Cpu m → Terminal → Option (Cpu m × Terminal)
  init_idt handler base cpu t = install_handlers handler cpu.idt >>= λ idt. some (
    record {
      bus = (inb m 0x21 (remap_pic cpu.bus)).1;
      idt = idt;
      idt_pointer = table_pointer base;
      loaded = some (table_pointer base);
      interrupts = true;
    },
    mark_cell t,
  )

-- Both interrupts lead to the handler, and no other entry is changed.
pub record IsInstalled (handler : ℕ) (old idt : ℕ → IdtEntry) : Type 0 where
  pub timer : handler_of (idt 0x20) ≡ handler
  pub keyboard : handler_of (idt 0x21) ≡ handler
  pub others : (n : ℕ) → n ≢ 0x20 → n ≢ 0x21 → idt n ≡ old n

install_handlers-IsInstalled :
    (handler : ℕ) (idt : ℕ → IdtEntry)
    → handler < 2 ^ 32
    → Ends (IsInstalled handler idt) (install_handlers handler idt)
unfolding install_handlers
install_handlers-IsInstalled handler idt word =
    let (idt1, run1, timer, sel1, attr1, other1) =
      idt_set_entry-handler_of 0x20 handler 8 0x8E idt (omega arith) word in
    let (idt2, run2, keyboard, sel2, attr2, other2) =
      idt_set_entry-handler_of 0x21 handler 8 0x8E idt1 (omega arith) word in
    let kept : idt2 0x20 ≡ idt1 0x20 = other2 0x20 (omega arith) in
    rw (run1, ◌>>=◌)
      (rw run2 (
        ends (record {
          timer = rw kept timer;
          keyboard = keyboard;
          others = λ n e f. other2 n (λ g. f (sym g)) ∙ other1 n (λ g. e (sym g));
        })))

-- The commands for the two interrupt controllers, in their order.
abbrev pub pic_commands : List (ℕ × ℕ)
pic_commands =
    (0x20, 0x11)
    ∷ (0xA0, 0x11)
    ∷ (0x21, 0x20)
    ∷ (0xA1, 0x28)
    ∷ (0x21, 0x04)
    ∷ (0xA1, 0x02)
    ∷ (0x21, 0x01)
    ∷ (0xA1, 0x01)
    ∷ (0x21, 0xFF)
    ∷ (0xA1, 0xFF)
    ∷ (0x21, 0xFD)
    ∷ []

-- The third cell of the screen, at the byte offsets 4 and 5 of its memory, has its character and is
-- white on black; nothing else is changed.
pub record IsMarked (t t' : Terminal) : Type 0 where
  pub character : t'.buffer 2 % 256 ≡ t.buffer 2 % 256
  pub colours : t'.buffer 2 / 256 ≡ 15
  pub others : (i : ℕ) → i ≢ 2 → t'.buffer i ≡ t.buffer i
  pub same_row : t'.row ≡ t.row
  pub same_column : t'.column ≡ t.column
  pub same_color : t'.color ≡ t.color

mark_cell-IsMarked : (t : Terminal) → IsMarked t (mark_cell t)
mark_cell-IsMarked t = record {
  character = omega arith;
  colours = omega arith;
  others = λ i ne. ground arith;
  same_row = refl;
  same_column = refl;
  same_color = refl;
}

-- What `init_idt` leaves: the table of 256 entries of 8 bytes is filled and loaded, and interrupts are
-- on.
pub record IsLoaded {m : Machine} (handler base : ℕ) (cpu cpu' : Cpu m) : Type 0 where
  pub installed : IsInstalled handler cpu.idt cpu'.idt
  pub table : cpu'.loaded ≡ some (record { limit = 2047; base = base })
  pub enabled : cpu'.interrupts ≡ true
  pub sent : cpu'.bus.written ≡ cpu.bus.written ++ pic_commands

pub init_idt-IsLoaded :
    (m : Machine) (handler base : ℕ) (cpu : Cpu m) (t : Terminal)
    → handler < 2 ^ 32
    → Ends (λ r. IsLoaded handler base cpu r.0 × IsMarked t r.1) (init_idt m handler base cpu t)
unfolding init_idt remap_pic
init_idt-IsLoaded m handler base cpu t word =
    Ends-bind (install_handlers-IsInstalled handler cpu.idt word) (λ idt h. ends (
      record { installed = h; table = refl; enabled = refl; sent = simp append_assoc },
      mark_cell-IsMarked t,
    ))
