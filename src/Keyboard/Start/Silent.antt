-- ===== src/Keyboard/Start/Silent.antt =====
-- `keyboard_init` of src/kernel/kernel.c without a keyboard that answers.
use phantom_os.Prelude.{ℕ, zero, suc, ◌≡◌, refl, false, Option, none, some, ◌>>=◌}
use phantom_os.Ports.{Machine, Bus, has_bit, inb, io_wait}
use phantom_os.Keyboard.Start.{
  send, await_input, flush_output, await_output, configure, read_reply, keyboard_init,
}

bind-none :
    {A B : Type 0} (r : Option A) {f : A → Option B} → ((a : A) → f a ≡ none) → (r >>= f) ≡ none
bind-none none h = refl
bind-none (some a) h = h a

module _ (m : Machine) (silent : (d : m.Device) → has_bit 0 (m.read 0x64 d).0 ≡ false) where
  await_output-silent : (fuel : ℕ) (b : Bus m) → await_output m fuel b ≡ none
  unfolding await_output
  await_output-silent zero b = refl
  await_output-silent (suc fuel) b =
      rw (silent b.device) (await_output-silent fuel (io_wait m (inb m 0x64 b).1))

  -- Where the status register never shows a reply, `keyboard_init` does not end, whatever the fuel.
  pub keyboard_init-silent : (fuel : ℕ) (b : Bus m) → keyboard_init m fuel b ≡ none
  unfolding keyboard_init read_reply
  keyboard_init-silent fuel b = bind-none (await_input m fuel b) (λ b1.
      bind-none (flush_output m fuel (send m 0x64 0xA7 (send m 0x64 0xAD b1))) (λ b2.
        rw (await_output-silent fuel (send m 0x60 0xFF (send m 0x64 0xAE (configure m b2))), ◌>>=◌)
          refl))
