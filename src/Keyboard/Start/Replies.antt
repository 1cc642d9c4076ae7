-- ===== src/Keyboard/Start/Replies.antt =====
-- What `keyboard_init` of src/kernel/kernel.c relies on of the controller, and what it then does.
use mathlib.Core.List.{append_assoc}
use phantom_os.Prelude.{
  ℕ, zero, suc, ◌+◌, ◌/◌, ◌%◌, ◌^◌, ◌≤◌, ◌<◌, ◌≡◌, refl, ◌∙◌, arith, true, false, Bool-cases, inl,
  inr, List, [], ◌∷◌, ◌++◌, Ends, ends, Ends-bind, Ends-map,
}
use phantom_os.Ports.{Machine, Bus, has_bit, inb, io_wait}
use phantom_os.Keyboard.Start.{
  enable, send, await_input, flush_output, await_output, configure, read_reply, keyboard_init,
}

-- A controller that answers in time, while no interrupt takes a reply. Within `limit` polls the last
-- byte is taken and a reply that is owed is there. A poll and the wait take nothing from it, a read
-- takes at most one reply. It is ready if the next byte for port 0x60 is for the keyboard: not behind
-- the command 0x60, which takes it as the configuration, but behind the command 0xAE and each byte
-- for the keyboard, once it had time. A keyboard that is then reset owes an acknowledgement and the
-- result of its self-test, and one that is enabled an acknowledgement.
pub record Controller (m : Machine) (limit : ℕ) : Type 1 where
  pub busy : m.Device → ℕ
  pub queued : m.Device → ℕ
  pub delay : m.Device → ℕ
  pub owed : m.Device → ℕ
  pub ready : m.Device → Type 0
  pub busy_bound : (d : m.Device) → busy d < limit
  pub queued_bound : (d : m.Device) → queued d < limit
  pub delay_bound : (d : m.Device) → delay d < limit
  pub busy_falls :
      (d : m.Device)
      → has_bit 1 (m.read 0x64 d).0 ≡ true
      → busy (m.write 0x80 0 (m.read 0x64 d).1) < busy d
  pub queue_falls :
      (d : m.Device)
      → has_bit 0 (m.read 0x64 d).0 ≡ true
      → queued (m.write 0x80 0 (m.read 0x60 (m.read 0x64 d).1).1) < queued d
  pub delay_falls :
      (d : m.Device)
      → 0 < owed d
      → has_bit 0 (m.read 0x64 d).0 ≡ false
      → delay (m.write 0x80 0 (m.read 0x64 d).1) < delay d
  pub poll_owed : (d : m.Device) → owed (m.read 0x64 d).1 ≡ owed d
  pub wait_owed : (d : m.Device) → owed (m.write 0x80 0 d) ≡ owed d
  pub read_owed : (d : m.Device) → owed d ≤ owed (m.read 0x60 d).1 + 1
  pub poll_ready : (d : m.Device) → ready d → ready (m.read 0x64 d).1
  pub wait_ready : (d : m.Device) → ready d → ready (m.write 0x80 0 d)
  pub read_ready : (d : m.Device) → ready d → ready (m.read 0x60 d).1
  pub command_ready : (d : m.Device) → ready (m.write 0x80 0 (m.write 0x64 0xAE d))
  pub data_ready : (d : m.Device) (val : ℕ) → ready d → ready (m.write 0x80 0 (m.write 0x60 val d))
  pub reset_owed : (d : m.Device) → ready d → 2 ≤ owed (m.write 0x60 0xFF d)
  pub enable_owed : (d : m.Device) → ready d → 1 ≤ owed (m.write 0x60 0xF4 d)

module _ (m : Machine) (limit : ℕ) (c : Controller m limit) where
  -- Nothing is written but to take time.
  SameWrites : Bus m → Bus m → Type 0
  SameWrites b b' = b'.written ≡ b.written

  await_input-SameWrites :
      (fuel : ℕ) (b : Bus m) → c.busy b.device < fuel → Ends (SameWrites b) (await_input m fuel b)
  unfolding await_input SameWrites
  await_input-SameWrites zero b h = absurd (omega arith)
  await_input-SameWrites (suc fuel) b h = elim (Bool-cases (has_bit 1 (m.read 0x64 b.device).0)) [
    | inl wait ↦ rw wait (
        await_input-SameWrites fuel (io_wait m (inb m 0x64 b).1)
          (omega (arith, c.busy_falls b.device wait)))
    | inr free ↦ rw free (ends refl)
  ]

  flush_output-SameWrites :
      (fuel : ℕ) (b : Bus m)
      → c.queued b.device < fuel
      → Ends (SameWrites b) (flush_output m fuel b)
  unfolding flush_output SameWrites
  flush_output-SameWrites zero b h = absurd (omega arith)
  flush_output-SameWrites (suc fuel) b h = elim (Bool-cases (has_bit 0 (m.read 0x64 b.device).0)) [
    | inl more ↦ rw more (
        flush_output-SameWrites fuel (io_wait m (inb m 0x60 (inb m 0x64 b).1).1)
          (omega (arith, c.queue_falls b.device more)))
    | inr empty ↦ rw empty (ends refl)
  ]

  -- A reply is read, and no more of what the controller owes.
  record Replied (lost : ℕ) (b b' : Bus m) : Type 0 where
    same : b'.written ≡ b.written
    owed : c.owed b.device ≤ c.owed b'.device + lost
    ready : c.ready b'.device

  await_output-Replied :
      (fuel : ℕ) (b : Bus m)
      → c.delay b.device < fuel
      → 0 < c.owed b.device
      → c.ready b.device
      → Ends (Replied 0 b) (await_output m fuel b)
  unfolding await_output
  await_output-Replied zero b h owes ready = absurd (omega arith)
  await_output-Replied (suc fuel) b h owes ready =
      let polled = (m.read 0x64 b.device).1 in
      let after = io_wait m (inb m 0x64 b).1 in
      let same : c.owed after.device ≡ c.owed b.device =
        c.wait_owed polled ∙ c.poll_owed b.device in
      let still = c.poll_ready b.device ready in
      elim (Bool-cases (has_bit 0 (m.read 0x64 b.device).0)) [
        | inl there ↦ rw there (
            ends
              (record { same = refl; owed = omega (arith, c.poll_owed b.device); ready = still }))
        | inr wait ↦ rw wait (
            Ends-map
              (await_output-Replied fuel after (omega (arith, h, c.delay_falls b.device owes wait))
                (omega (arith, same, owes)) (c.wait_ready polled still))
              (λ b' p. record {
                same = p.same;
                owed = omega (arith, p.owed, same);
                ready = p.ready;
              }))
      ]

  read_reply-Replied :
      (b : Bus m)
      → 0 < c.owed b.device
      → c.ready b.device
      → Ends (Replied 1 b) (read_reply m limit b)
  unfolding read_reply
  read_reply-Replied b owes ready =
      Ends-bind (await_output-Replied limit b (c.delay_bound b.device) owes ready) (λ b1 p.
        ends (record {
          same = p.same;
          owed = omega (arith, p.owed, c.read_owed b1.device);
          ready = c.read_ready b1.device p.ready;
        }))

-- Bit 0 is set and bit 4 cleared; the bits 1 to 3 and 5 to 7 stay.
pub record IsEnabled (config value : ℕ) : Type 0 where
  pub interrupt : has_bit 0 value ≡ true
  pub clock : has_bit 4 value ≡ false
  pub low_bits : (value / 2) % 8 ≡ (config / 2) % 8
  pub high_bits : value / 2 ^ 5 ≡ config / 2 ^ 5

enable-IsEnabled : (config : ℕ) → IsEnabled config (enable config)
enable-IsEnabled config = record {
  interrupt = ground arith;
  clock = ground arith;
  low_bits = omega arith;
  high_bits = omega arith;
}

-- The commands for the controller and the keyboard, in their order.
abbrev pub keyboard_commands : ℕ → List (ℕ × ℕ)
keyboard_commands value =
    (0x64, 0xAD)
    ∷ (0x64, 0xA7)
    ∷ (0x64, 0x20)
    ∷ (0x64, 0x60)
    ∷ (0x60, value)
    ∷ (0x64, 0xAE)
    ∷ (0x60, 0xFF)
    ∷ (0x60, 0xF4)
    ∷ []

-- What a call of `keyboard_init` has written: the new configuration is made of the one that the
-- controller, asked for it, gives.
pub record IsSetUp {m : Machine} (b b' : Bus m) : Type 0 where
  pub config : ℕ
  pub value : ℕ
  pub asked : m.Device
  pub answer : (m.read 0x60 (m.write 0x80 0 (m.write 0x64 0x20 asked))).0 ≡ config
  pub enabled : IsEnabled config value
  pub sent : b'.written ≡ b.written ++ keyboard_commands value

module _ (m : Machine) (limit : ℕ) (c : Controller m limit) where
  -- While no interrupt takes a reply, with a controller that answers within `limit` polls, fuel
  -- `limit` is enough for `keyboard_init`, which sends its commands in their order and writes back the
  -- configuration that the controller gives with the interrupt of the keyboard enabled, its clock
  -- enabled, and the other bits unchanged.
  pub keyboard_init-IsSetUp : (b : Bus m) → Ends (IsSetUp b) (keyboard_init m limit b)
  unfolding keyboard_init configure SameWrites
  keyboard_init-IsSetUp b =
      Ends-bind (await_input-SameWrites m limit c limit b (c.busy_bound b.device)) (λ b1 w1.
        let b2 = send m 0x64 0xA7 (send m 0x64 0xAD b1) in
        Ends-bind (flush_output-SameWrites m limit c limit b2 (c.queued_bound b2.device)) (λ b3 w3.
          let config = (inb m 0x60 (send m 0x64 0x20 b3)).0 in
          let b4 = send m 0x64 0xAE (configure m b3) in
          let ready4 = c.command_ready (configure m b3).device in
          let reset = m.write 0x60 0xFF b4.device in
          let two : 2 ≤ c.owed (m.write 0x80 0 reset) =
            omega (arith, c.wait_owed reset, c.reset_owed b4.device ready4) in
          Ends-bind
            (read_reply-Replied m limit c (send m 0x60 0xFF b4) (omega (arith, two))
              (c.data_ready b4.device 0xFF ready4))
            (λ b5 w5.
              Ends-bind (read_reply-Replied m limit c b5 (omega (arith, two, w5.owed)) w5.ready)
                (λ b6 w6.
                  let on = m.write 0x60 0xF4 b6.device in
                  Ends-map
                    (read_reply-Replied m limit c (send m 0x60 0xF4 b6)
                      (omega (arith, c.wait_owed on, c.enable_owed b6.device w6.ready))
                      (c.data_ready b6.device 0xF4 w6.ready))
                    (λ b7 w7. record {
                      config = config;
                      value = enable config;
                      asked = b3.device;
                      answer = refl;
                      enabled = enable-IsEnabled config;
                      sent = w7.same ∙ simp (w6.same, w5.same, w3, w1, append_assoc);
                    })))))
