-- ===== src/Keyboard/Start/Answering.antt =====
-- A controller that has each reply at once and keeps its configuration, for runs of
-- src/kernel/kernel.c.
use phantom_os.Prelude.{
  ℕ, ◌+◌, ◌≤◌, ◌<◌, ◌≡◌, refl, arith, Bool, true, false, ◌==◌, if◌then◌else◌, [],
}
use phantom_os.Ports.{Machine, Bus, has_bit}
use phantom_os.Keyboard.Start.Replies.{Controller}

-- The replies that are not read yet.
pub data Pending : Type 0 where
  nothing : Pending
  one_reply : ℕ → Pending
  two_replies : ℕ → ℕ → Pending

-- `awaits` says that the next byte is the configuration.
pub record Answerer : Type 0 where
  replies : Pending
  awaits : Bool
  config : ℕ

abbrev count : Pending → ℕ
count nothing = 0
count (one_reply r) = 1
count (two_replies r r') = 2

abbrev next : Pending → ℕ
next nothing = 0
next (one_reply r) = r
next (two_replies r r') = r

abbrev take_one : Pending → Pending
take_one nothing = nothing
take_one (one_reply r) = nothing
take_one (two_replies r r') = one_reply r'

abbrev status : Pending → ℕ
status nothing = 0x1C
status (one_reply r) = 0x1D
status (two_replies r r') = 0x1D

-- What the keyboard replies to a byte.
abbrev reply_to : ℕ → Pending → Pending
reply_to val p =
    if val == 0xFF then two_replies 0xFA 0xAA else if val == 0xF4 then one_reply 0xFA else p

-- The command 0x20 asks for the configuration, 0x60 announces a new one.
abbrev command : ℕ → Answerer → Answerer
command val d = record {
  replies = if val == 0x20 then one_reply d.config else d.replies;
  awaits = val == 0x60;
  config = d.config;
}

abbrev data_byte : ℕ → Answerer → Answerer
data_byte val d = record {
  replies = if d.awaits then d.replies else reply_to val d.replies;
  awaits = false;
  config = if d.awaits then val else d.config;
}

abbrev pub answering : Machine
answering = record {
  Device = Answerer;
  read = λ port d.
      if port == 0x64
      then (status d.replies, d)
      else if port == 0x60
      then (next d.replies, record d { replies = take_one d.replies })
      else (0, d);
  write = λ port val d.
      if port == 0x64 then command val d else if port == 0x60 then data_byte val d else d;
}

abbrev pub idle_bus : Bus answering
idle_bus = record {
  device = record { replies = nothing; awaits = false; config = 0x30 };
  written = [];
}

count_bound : (p : Pending) → count p < 3
count_bound nothing = omega arith
count_bound (one_reply r) = omega arith
count_bound (two_replies r r') = omega arith

queue_falls : (p : Pending) → has_bit 0 (status p) ≡ true → count (take_one p) < count p
queue_falls nothing e = absurd (cc)
queue_falls (one_reply r) e = omega arith
queue_falls (two_replies r r') e = omega arith

none_owed : (p : Pending) → 0 < count p → has_bit 0 (status p) ≡ false → 0 < 0
none_owed nothing owes e = owes
none_owed (one_reply r) owes e = cc
none_owed (two_replies r r') owes e = cc

never_busy : (p : Pending) → has_bit 1 (status p) ≡ true → 0 < 0
never_busy nothing e = cc
never_busy (one_reply r) e = cc
never_busy (two_replies r r') e = cc

read_one : (p : Pending) → count p ≤ count (take_one p) + 1
read_one nothing = omega arith
read_one (one_reply r) = omega arith
read_one (two_replies r r') = omega arith

owed_for_key :
    (b : Bool) (p p' : Pending) (n : ℕ) → b ≡ false → n ≤ count p' → n ≤ count (if b then p else p')
owed_for_key true p p' n e h = absurd (cc)
owed_for_key false p p' n e h = h

pub answering-Controller : Controller answering 3
answering-Controller = record {
  busy = λ _. 0;
  queued = λ d. count d.replies;
  delay = λ _. 0;
  owed = λ d. count d.replies;
  ready = λ d. d.awaits ≡ false;
  busy_bound = λ d. omega arith;
  queued_bound = λ d. count_bound d.replies;
  delay_bound = λ d. omega arith;
  busy_falls = λ d. never_busy d.replies;
  queue_falls = λ d. queue_falls d.replies;
  delay_falls = λ d. none_owed d.replies;
  poll_owed = λ d. refl;
  wait_owed = λ d. refl;
  read_owed = λ d. read_one d.replies;
  poll_ready = λ d h. h;
  wait_ready = λ d h. h;
  read_ready = λ d h. h;
  command_ready = λ d. refl;
  data_ready = λ d val h. refl;
  reset_owed = λ d h. owed_for_key d.awaits d.replies (two_replies 0xFA 0xAA) 2 h (omega arith);
  enable_owed = λ d h. owed_for_key d.awaits d.replies (one_reply 0xFA) 1 h (omega arith);
}
