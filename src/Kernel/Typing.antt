-- ===== src/Kernel/Typing.antt =====
-- A line typed in the shell, `keyboard_handler` of src/kernel/kernel.c.
use mathlib.Core.List.{append_assoc, append-nil}
use phantom_os.Prelude.{
  ℕ, ◌+◌, ◌≤◌, ◌<◌, ◌≡◌, ◌≢◌, ◌∙◌, refl, sym, ap, fun_ext, arith, Bool, true, false, Option, none,
  some, List, [], ◌∷◌, ◌++◌, length, length-append, ltb, if◌then◌else◌, ◌>>=◌, bind_assoc,
  Bool-cases, inl, inr, suc,
}
use phantom_os.CString.{Text}
use phantom_os.Keyboard.{read_at, translate, table_size}
use phantom_os.Terminal.{Terminal, terminal_putchar, terminal_write}
use phantom_os.Editor.{Editor}
use phantom_os.Kernel.{Kernel, shell_prompt}
use phantom_os.Shell.Commands.{process_command}
use phantom_os.Kernel.Handler.{
  editor_key, enter_line, shell_char, shell_key, put_key, press, keyboard_handler, handle_byte,
  acknowledge,
}
use phantom_os.Kernel.Runs.{presses, presses-halted, presses-on}

-- The bytes of keys that have the characters of `text`: no Shift or Caps Lock, Enter or release.
pub data Types (german shift caps : Bool) : List ℕ → Text → Type 0 where
  none_typed : Types german shift caps [] []
  one_typed :
      (byte c : ℕ) {bytes : List ℕ} {text : Text}
      → byte < 90
      → byte ≢ 42
      → byte ≢ 54
      → byte ≢ 58
      → translate german shift caps byte ≡ some c
      → c ≢ 0
      → c ≢ 10
      → Types german shift caps bytes text
      → Types german shift caps (byte ∷ bytes) (c ∷ text)

-- The shell with more characters on its command line.
pub typed : Text → Kernel → Terminal → Kernel
typed text k t = record k {
  input = k.input ++ text;
  terminal = t;
  acknowledged = k.acknowledged + length text;
}

press-shell : (byte : ℕ) (k : Kernel) → k.current_editor ≡ none → press byte k ≡ shell_key byte k
unfolding press
press-shell byte k shell = in_shell k.current_editor shell
  where
    in_shell :
        (o : Option Editor)
        → o ≡ none
        → (elim o [ some e ↦ editor_key byte e k | none ↦ shell_key byte k ]) ≡ shell_key byte k
    in_shell o is = rw is refl

handler-press :
    (byte : ℕ) (k : Kernel)
    → byte < 90
    → byte ≢ 42
    → byte ≢ 54
    → byte ≢ 58
    → handle_byte byte k ≡ press byte k
unfolding handle_byte
handler-press byte k low not42 not54 not58 = ground arith

shell_key-char :
    (byte c : ℕ) (k : Kernel)
    → byte < 90
    → translate k.use_german_layout k.shift_pressed k.caps_lock byte ≡ some c
    → shell_key byte k ≡ shell_char c k
unfolding shell_key
shell_key-char byte c k low at = rw (the) (rw (at, ◌>>=◌) refl)
  where
    the : ltb byte table_size ≡ true
    the = ground arith

shell_char-put :
    (c : ℕ) (k : Kernel)
    → c ≢ 0
    → c ≢ 10
    → length k.input < 255
    → shell_char c k ≡ put_key c (record k { input = k.input ++ c ∷ [] })
unfolding shell_char
shell_char-put c k not0 not10 room = ground arith

then_typed :
    (c : ℕ) (text : Text) (bytes : List ℕ) (k : Kernel) (r : Option Terminal)
    → ((t : Terminal)
        → presses bytes (typed (c ∷ []) k t)
          ≡ (terminal_write text t >>= λ t'. some (typed text (typed (c ∷ []) k t) t')))
    → ((r >>= λ t. some (typed (c ∷ []) k t)) >>= presses bytes)
      ≡ ((r >>= terminal_write text) >>= λ t'. some (typed (c ∷ text) k t'))
unfolding typed
then_typed c text bytes k none next = refl
then_typed c text bytes k (some t) next =
    next t ∙ rw (append_assoc k.input (c ∷ []) text, count k.acknowledged (length text)) refl
  where
    count : (n m : ℕ) → n + 1 + m ≡ n + suc m
    count n m = omega arith

typed_one :
    (byte c : ℕ) (k : Kernel)
    → k.halted ≡ false
    → handle_byte byte k ≡ put_key c (record k { input = k.input ++ c ∷ [] })
    → keyboard_handler byte k ≡ (terminal_putchar c k.terminal >>= λ t. some (typed (c ∷ []) k t))
unfolding keyboard_handler acknowledge typed
typed_one byte c k on e = rw e (
    bind_assoc (terminal_putchar c k.terminal) _ _
    ∙ ap (λ f. terminal_putchar c k.terminal >>= f)
        (fun_ext (λ t.
          ap
            (λ (b : Bool). some (record k {
              input = k.input ++ c ∷ [];
              terminal = t;
              acknowledged = if b then k.acknowledged else k.acknowledged + 1;
            }))
            on)))

typed_keys :
    {german shift caps : Bool} {bytes : List ℕ} {text : Text}
    → Types german shift caps bytes text
    → (k : Kernel) → k.use_german_layout ≡ german
    → k.shift_pressed ≡ shift
    → k.caps_lock ≡ caps
    → k.current_editor ≡ none
    → k.halted ≡ false
    → length k.input + length text ≤ 255
    → presses bytes k ≡ (terminal_write text k.terminal >>= λ t. some (typed text k t))
unfolding presses terminal_write typed
typed_keys none_typed k g s l shell on room = rw (append-nil k.input, no_more k.acknowledged) refl
  where
    no_more : (n : ℕ) → n + 0 ≡ n
    no_more n = omega arith
typed_keys (one_typed byte c {bytes} {text} low n42 n54 n58 at n0 n10 more) k g s l shell on room =
    let one : handle_byte byte k ≡ put_key c (record k { input = k.input ++ c ∷ [] }) =
      handler-press byte k low n42 n54 n58
      ∙ press-shell byte k shell
      ∙ shell_key-char byte c k low (rw (g, s, l) at)
      ∙ shell_char-put c k n0 n10 (omega (arith, room)) in
    presses-on byte bytes k on
    ∙ rw (typed_one byte c k on one) (
        then_typed c text bytes k (terminal_putchar c k.terminal) (λ t.
          typed_keys more (typed (c ∷ []) k t) g s l shell on
            (omega (arith, room, length-append k.input (c ∷ [])))))

enter-char : (german shift caps : Bool) → translate german shift caps 28 ≡ some 10
unfolding translate read_at
enter-char true true true = refl
enter-char true true false = refl
enter-char true false true = refl
enter-char true false false = refl
enter-char false true true = refl
enter-char false true false = refl
enter-char false false true = refl
enter-char false false false = refl

bind-some : {A : Type 0} (r : Option A) → (r >>= λ a. some a) ≡ r
bind-some none = refl
bind-some (some a) = refl

terminal_write-last :
    (s : Text) (c : ℕ) (t : Terminal)
    → terminal_write (s ++ c ∷ []) t ≡ (terminal_write s t >>= terminal_putchar c)
unfolding terminal_write
terminal_write-last [] c t = bind-some (terminal_putchar c t)
terminal_write-last (d ∷ s) c t =
    ap (λ f. terminal_putchar d t >>= f) (fun_ext (λ t1. terminal_write-last s c t1))
    ∙ sym (bind_assoc (terminal_putchar d t) _ _)

enter-key : (k : Kernel) → k.current_editor ≡ none → handle_byte 28 k ≡ enter_line k
unfolding handle_byte shell_char
enter-key k shell =
    press-shell 28 k shell
    ∙ shell_key-char 28 10 k (omega arith)
        (enter-char k.use_german_layout k.shift_pressed k.caps_lock)

presses-append :
    (xs ys : List ℕ) (k : Kernel) → presses (xs ++ ys) k ≡ (presses xs k >>= presses ys)
unfolding presses
presses-append [] ys k = refl
presses-append (x ∷ xs) ys k = elim (Bool-cases k.halted) [
  | inl off ↦
      presses-halted (x ∷ (xs ++ ys)) k off
      ∙ sym (rw (presses-halted (x ∷ xs) k off) (presses-halted ys k off))
  | inr on ↦
      presses-on x (xs ++ ys) k on
      ∙ ap (λ f. keyboard_handler x k >>= f) (fun_ext (λ k1. presses-append xs ys k1))
      ∙ sym (bind_assoc (keyboard_handler x k) (presses xs) (presses ys))
      ∙ ap (λ r. r >>= presses ys) (sym (presses-on x xs k on))
]

-- The command `line` is carried out, and a new command line begins.
unfoldable pub carried_out : Text → Kernel → Option Kernel
carried_out line k = process_command line k >>= λ k'.
    if k'.halted then some k' else shell_prompt (record k' { input = [] })

-- The Enter key behind a line that is typed.
enter_line-carried_out :
    (line : Text) (k : Kernel) (n : ℕ) (t : Terminal)
    → enter_line (record k { input = line; terminal = t; acknowledged = n }) ≡ (
        terminal_putchar 10 t >>= λ t'.
        carried_out line (record k { input = line; terminal = t'; acknowledged = n }))
unfolding enter_line carried_out
enter_line-carried_out line k n t = bind_assoc (terminal_putchar 10 t) _ _

then_enter :
    (k : Kernel)
    → k.current_editor ≡ none
    → k.halted ≡ false
    → presses (28 ∷ []) k ≡ (enter_line k >>= λ k'. some (acknowledge k'))
unfolding presses keyboard_handler
then_enter k shell on =
    presses-on 28 [] k on
    ∙ rw (enter-key k shell) (bind-some (enter_line k >>= λ k'. some (acknowledge k')))

-- A line of at most 255 characters, typed in the shell without Shift or Caps Lock in between, and
-- Enter behind it: the line and a newline are written on the terminal, each interrupt but the last is
-- ended, and then the command is carried out that has exactly these characters, and the last
-- interrupt is ended if the command does not halt the processor.
pub presses-carried_out :
    {bytes : List ℕ} {line : Text} (k : Kernel)
    → Types k.use_german_layout k.shift_pressed k.caps_lock bytes line
    → k.current_editor ≡ none
    → k.halted ≡ false
    → k.input ≡ []
    → length line ≤ 255
    → presses (bytes ++ 28 ∷ []) k ≡ (
        terminal_write (line ++ 10 ∷ []) k.terminal >>= λ t.
        carried_out line
          (record k { input = line; terminal = t; acknowledged = k.acknowledged + length line })
        >>= λ k'. some (acknowledge k'))
unfolding typed
presses-carried_out {bytes} {line} k keys shell on fresh room =
    presses-append bytes (28 ∷ []) k
    ∙ rw (typed_keys keys k refl refl refl shell on (omega (arith, room, ap length fresh))) (
        bind_assoc written (λ t. some (typed line k t)) (presses (28 ∷ []))
        ∙ ap (λ f. written >>= f)
            (fun_ext (λ t.
              then_enter (typed line k t) shell on
              ∙ rw fresh (
                  rw (enter_line-carried_out line k (k.acknowledged + length line) t)
                    (bind_assoc (terminal_putchar 10 t) _ _))))
        ∙ sym (bind_assoc written (terminal_putchar 10) next)
        ∙ ap (λ r. r >>= next) (sym (terminal_write-last line 10 k.terminal)))
  where
    written : Option Terminal
    written = terminal_write line k.terminal

    next : Terminal → Option Kernel
    next t =
        carried_out line
          (record k { input = line; terminal = t; acknowledged = k.acknowledged + length line })
        >>= λ k'. some (acknowledge k')
