-- ===== src/Interrupts/Tests.antt =====
-- The entry of the keyboard interrupt.
use phantom_os.Prelude.{ℕ, ◌≡◌, ◌≢◌, none, some, false, arith}
use phantom_os.Keyboard.Start.Answering.{answering, idle_bus}
use phantom_os.Terminal.{Terminal}
use phantom_os.Interrupts.Start.{Cpu}
use phantom_os.Interrupts.{IdtEntry, idt_set_entry, handler_of, idt_set_entry-handler_of}

abbrev cleared_idt : ℕ → IdtEntry
cleared_idt _ = record {
  offset_low = 0;
  selector = 0;
  zero_byte = 0;
  type_attr = 0;
  offset_high = 0;
}

idt_set_entry-handler_of_example :
    (idt' : ℕ → IdtEntry) × (idt_set_entry 33 1193046 8 142 cleared_idt ≡ some idt')
    × (handler_of (idt' 33) ≡ 1193046)
    × ((idt' 33).selector ≡ 8)
    × ((idt' 33).type_attr ≡ 142)
    × ((other : ℕ) → 33 ≢ other → idt' other ≡ cleared_idt other)
idt_set_entry-handler_of_example =
    idt_set_entry-handler_of 33 1193046 8 142 cleared_idt (omega arith) (omega arith)

abbrev idle_cpu : Cpu answering
idle_cpu = record {
  bus = idle_bus;
  idt = cleared_idt;
  idt_pointer = record { limit = 0; base = 0 };
  loaded = none;
  interrupts = false;
}

abbrev blank_screen : Terminal
blank_screen = record { row = 0; column = 0; color = 7; buffer = λ _. 0 }
