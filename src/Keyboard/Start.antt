-- ===== src/Keyboard/Start.antt =====
-- `keyboard_init` of src/kernel/kernel.c. Its loops run on fuel; `none` means that it is used up.
pub mod Replies
pub mod Answering
pub mod Silent
use phantom_os.Prelude.{
  ℕ, zero, suc, ◌+◌, ◌-◌, ◌*◌, ◌/◌, ◌%◌, ◌^◌, Bool, Option, none, some, if◌then◌else◌, ◌>>=◌,
}
use phantom_os.Ports.{Machine, Bus, has_bit, inb, outb, io_wait}

-- `config |= 0x01; config &= ~0x10;`
abbrev pub enable : ℕ → ℕ
enable config = let c = config - config % 2 + 1 in c - (c / 2 ^ 4) % 2 * 2 ^ 4

module _ (m : Machine) where
  -- `outb(port, val); io_wait();`
  abbrev pub send : ℕ → ℕ → Bus m → Bus m
  send port val b = io_wait m (outb m port val b)

  -- `while (inb(KEYBOARD_STATUS_PORT) & 0x02) io_wait();`
  unfoldable pub await_input : (fuel : ℕ) → Bus m → Option (Bus m)
  await_input zero b = none
  await_input (suc fuel) b =
      let status = inb m 0x64 b in
      let rest = await_input fuel (io_wait m status.1) in
      if has_bit 1 status.0 then rest else some status.1

  -- `while (inb(KEYBOARD_STATUS_PORT) & 0x01) { inb(KEYBOARD_DATA_PORT); io_wait(); }`
  unfoldable pub flush_output : (fuel : ℕ) → Bus m → Option (Bus m)
  flush_output zero b = none
  flush_output (suc fuel) b =
      let status = inb m 0x64 b in
      let rest = flush_output fuel (io_wait m (inb m 0x60 status.1).1) in
      if has_bit 0 status.0 then rest else some status.1

  -- `while (!(inb(KEYBOARD_STATUS_PORT) & 0x01)) io_wait();`
  unfoldable pub await_output : (fuel : ℕ) → Bus m → Option (Bus m)
  await_output zero b = none
  await_output (suc fuel) b =
      let status = inb m 0x64 b in
      let rest = await_output fuel (io_wait m status.1) in
      if has_bit 0 status.0 then some status.1 else rest

  -- The configuration byte is read, changed and written back.
  unfoldable pub configure : Bus m → Bus m
  configure b =
      let config = inb m 0x60 (send 0x64 0x20 b) in
      send 0x60 (enable config.0) (send 0x64 0x60 config.1)

  -- A reply is waited for and read.
  unfoldable pub read_reply : (fuel : ℕ) → Bus m → Option (Bus m)
  read_reply fuel b = await_output fuel b >>= λ b1. some (inb m 0x60 b1).1

  unfoldable pub keyboard_init : (fuel : ℕ) → Bus m → Option (Bus m)
  keyboard_init fuel b = do
    b ← await_input fuel b
    b ← flush_output fuel (send 0x64 0xA7 (send 0x64 0xAD b))
    b ← read_reply fuel (send 0x60 0xFF (send 0x64 0xAE (configure b)))
    b ← read_reply fuel b
    read_reply fuel (send 0x60 0xF4 b)
