-- ===== src/Keyboard/Tests.antt =====
-- Keys in both layouts.
use phantom_os.Ports.{Machine, Bus}
use phantom_os.Keyboard.Start.Silent.{keyboard_init-silent}
use phantom_os.Prelude.{[], Ends, ◌≡◌, refl, true, false, none, some}
use phantom_os.Keyboard.{read_at, translate}
use phantom_os.Keyboard.Start.{keyboard_init}
use phantom_os.Keyboard.Start.Replies.{IsSetUp, keyboard_init-IsSetUp}
use phantom_os.Keyboard.Start.Answering.{answering, idle_bus, answering-Controller}
use phantom_os.Keyboard.Layouts.{Translated, translate-Translated}

-- The key F11 of a US keyboard has no entry in the table.
translate-Translated_example : Translated false 87 (translate false false false 87)
translate-Translated_example = translate-Translated false false false 87

-- 'y' and 'z' change their places.
german_y : translate true false false 44 ≡ some b'y'
unfolding translate read_at
german_y = refl

us_z : translate false false false 44 ≡ some b'z'
unfolding translate read_at
us_z = refl

caps : translate true false true 30 ≡ some b'A'
unfolding translate read_at
caps = refl

us_f11 : translate false false false 87 ≡ none
unfolding translate read_at
us_f11 = refl

keyboard_init-IsSetUp_example : Ends (IsSetUp idle_bus) (keyboard_init answering 3 idle_bus)
keyboard_init-IsSetUp_example = keyboard_init-IsSetUp answering 3 answering-Controller idle_bus

-- A bus without a device reads as zero.
abbrev no_device : Machine
no_device = record { Device = Unit; read = λ _ d. (0, d); write = λ _ _ d. d }

abbrev no_device_bus : Bus no_device
no_device_bus = record { device = tt; written = [] }

keyboard_init-silent_example : keyboard_init no_device 1000 no_device_bus ≡ none
keyboard_init-silent_example = keyboard_init-silent no_device (λ d. refl) 1000 no_device_bus
