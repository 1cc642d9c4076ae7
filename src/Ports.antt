-- ===== src/Ports.antt =====
-- The port functions of src/kernel/kernel.c. What stands behind the ports is no part of the program:
-- it is a parameter, the machine.
use phantom_os.Prelude.{ℕ, ◌/◌, ◌%◌, ◌^◌, Bool, ◌==◌, List, [], ◌∷◌, ◌++◌}

-- What a read of a port gives and does, and what a write does.
pub record Machine : Type 1 where
  pub Device : Type 0
  pub read : ℕ → Device → ℕ × Device
  pub write : ℕ → ℕ → Device → Device

-- The machine's state, and the writes to the ports so far, without those that only take time.
pub record Bus (m : Machine) : Type 0 where
  pub device : m.Device
  pub written : List (ℕ × ℕ)

-- The bit `k` of a byte, `x & (1 << k)`.
abbrev pub has_bit : (k x : ℕ) → Bool
has_bit k x = (x / 2 ^ k) % 2 == 1

module _ (m : Machine) where
  abbrev pub inb : ℕ → Bus m → ℕ × Bus m
  inb port b = let r = m.read port b.device in (r.0, record b { device = r.1 })

  abbrev pub outb : ℕ → ℕ → Bus m → Bus m
  outb port val b = record {
    device = m.write port val b.device;
    written = b.written ++ (port, val) ∷ [];
  }

  -- A write to the unused port 0x80.
  abbrev pub io_wait : Bus m → Bus m
  io_wait b = record b { device = m.write 0x80 0 b.device }
