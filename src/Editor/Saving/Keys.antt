-- ===== src/Editor/Saving/Keys.antt =====
-- `editor_process_command` and `editor_process_key` of src/kernel/editor.c leave the editor and the
-- file system within their bounds.
use phantom_os.Prelude.{
  ℕ, ◌-◌, ◌≡◌, ◌⊎◌, arith, Bool, true, false, Bool-cases, inl, inr, ltb, ◌==◌, not, ◌&&◌,
  if◌then◌else◌, some, [], ◌∷◌, ◌++◌, length, length-append, length-take, Ends, ends, Ends-bind,
  Ends-if, refl,
}
use phantom_os.CString.{Text, codes}
use phantom_os.CString.Compare.{text_eq}
use phantom_os.FileSystem.{Fs}
use phantom_os.FileSystem.Operations.Files.{IsFiles}
use phantom_os.Editor.{EditorMode, normal, insert, command, exiting, Editor}
use phantom_os.Editor.Keys.{
  set_status, is_exiting, run_command, editor_process_command, command_key, mode_key,
  editor_process_key,
}
use phantom_os.Editor.Session.{IsSession, JoinFits, BackspaceFits}
use phantom_os.Editor.Session.Keys.{normal_key-IsSession, arrow_key-IsSession, insert_key-IsSession}
use phantom_os.Editor.Saving.{IsEditing, renamed-IsSession, editor_save_file-IsEditing}

leaving-IsEditing :
    {e : Editor} {s : Fs} → IsSession e → IsFiles s → IsEditing (record e { mode = exiting }, s)
leaving-IsEditing {e} h ok = record {
  session =
      renamed-IsSession exiting e.command_buffer e.status_message e.modified h h.command_bound
        h.status_bound;
  files = ok;
}

run_command-IsEditing :
    (text : Text) {e : Editor} {s : Fs}
    → IsSession e
    → IsFiles s
    → Ends IsEditing (run_command text e s)
unfolding run_command
run_command-IsEditing text {e} {s} h ok =
    Ends-if (text_eq text (codes "w")) (editor_save_file-IsEditing h ok) (
      Ends-if (text_eq text (codes "q")) (ends (asked e.modified)) (
        Ends-if (text_eq text (codes "q!")) (ends (leaving-IsEditing h ok)) (
          Ends-if (text_eq text (codes "wq"))
            (Ends-bind (editor_save_file-IsEditing h ok) (λ r k. ends (left r k r.0.modified)))
            (ends (record {
              session =
                  renamed-IsSession e.mode e.command_buffer _ e.modified h h.command_bound
                    (omega arith);
              files = ok;
            })))))
  where
    asked :
        (b : Bool)
        → IsEditing (
          if b
              then set_status (codes "No write since last change (add ! to override)") e
              else record e { mode = exiting },
          s,
        )
    asked true = record {
      session =
          renamed-IsSession e.mode e.command_buffer _ e.modified h h.command_bound (omega arith);
      files = ok;
    }
    asked false = leaving-IsEditing h ok

    left :
        (r : Editor × Fs)
        → IsEditing r
        → (b : Bool) → IsEditing (if b then r.0 else record r.0 { mode = exiting }, r.1)
    left r k true = record { session = k.session; files = k.files }
    left r k false = leaving-IsEditing k.session k.files

process_command-IsEditing :
    {e : Editor} {s : Fs} → IsSession e → IsFiles s → Ends IsEditing (editor_process_command e s)
unfolding editor_process_command
process_command-IsEditing {e} h ok = Ends-bind (run_command-IsEditing e.command_buffer h ok) (λ r k.
    ends (record {
      session =
          renamed-IsSession r.0.mode [] r.0.status_message r.0.modified k.session (omega arith)
            k.session.status_bound;
      files = k.files;
    }))

command_key-IsEditing :
    (key scancode : ℕ) {e : Editor} {s : Fs}
    → IsSession e
    → IsFiles s
    → Ends IsEditing (command_key key scancode e s)
unfolding command_key
command_key-IsEditing key scancode {e} {s} h ok =
    Ends-if (scancode == 1)
      (ends (record {
        session = renamed-IsSession normal [] _ e.modified h (omega arith) (omega arith);
        files = ok;
      }))
      (Ends-if (scancode == 28)
        (Ends-bind (process_command-IsEditing h ok) (λ r k. ends (after r k (is_exiting r.0.mode))))
        (Ends-if (scancode == 14)
          (ends (record {
            session =
                renamed-IsSession e.mode _ e.status_message e.modified h
                  (omega (
                    arith,
                    length-take (length e.command_buffer - 1) e.command_buffer,
                    h.command_bound,
                  ))
                  h.status_bound;
            files = ok;
          }))
          (put (Bool-cases (not (key == 0) && ltb (length e.command_buffer) 78)))))
  where
    after :
        (r : Editor × Fs)
        → IsEditing r
        → (b : Bool) → IsEditing (if b then r.0 else record r.0 { mode = normal }, r.1)
    after r k true = record { session = k.session; files = k.files }
    after r k false = record {
      session =
          renamed-IsSession normal r.0.command_buffer r.0.status_message r.0.modified k.session
            k.session.command_bound k.session.status_bound;
      files = k.files;
    }

    put :
        ((not (key == 0) && ltb (length e.command_buffer) 78) ≡ true)
          ⊎ ((not (key == 0) && ltb (length e.command_buffer) 78) ≡ false)
        → Ends IsEditing (
            if not (key == 0) && ltb (length e.command_buffer) 78
            then some (record e { command_buffer = e.command_buffer ++ key ∷ [] }, s)
            else some (e, s))
    put (inl room) = rw room (
        ends (record {
          session =
              renamed-IsSession e.mode (e.command_buffer ++ key ∷ []) e.status_message e.modified h
                (ground (arith, room, length-append e.command_buffer (key ∷ []))) h.status_bound;
          files = ok;
        }))
    put (inr other) = rw other (ends (record { session = h; files = ok }))

mode_key-IsEditing :
    (m : EditorMode) (key scancode : ℕ) {e : Editor} {s : Fs}
    → IsSession e
    → (m ≡ insert → scancode ≡ 14 → JoinFits e)
    → IsFiles s
    → Ends IsEditing (mode_key m key scancode e s)
unfolding mode_key
mode_key-IsEditing normal key scancode {e} {s} h fits ok =
    Ends-bind (normal_key-IsSession key h) (λ e1 h1.
      Ends-bind (arrow_key-IsSession scancode h1 (ends h1))
        (λ e2 h2. ends (record { session = h2; files = ok })))
mode_key-IsEditing insert key scancode h fits ok =
    Ends-bind (insert_key-IsSession key scancode h (fits refl))
      (λ e1 h1. ends (record { session = h1; files = ok }))
mode_key-IsEditing command key scancode h fits ok = command_key-IsEditing key scancode h ok
mode_key-IsEditing exiting key scancode h fits ok = ends (record { session = h; files = ok })

-- Every key in every mode ends without a fault and keeps the text, the cursor, the command, the
-- messages and the file system within their bounds; for a backspace in the insert mode at the start
-- of a line below the first, there has to be room for the line that is joined to the one above.
pub editor_process_key-IsEditing :
    (key scancode : ℕ) {e : Editor} {s : Fs}
    → IsSession e
    → BackspaceFits scancode e
    → IsFiles s
    → Ends IsEditing (editor_process_key key scancode e s)
unfolding editor_process_key
editor_process_key-IsEditing key scancode {e} h fits ok =
    mode_key-IsEditing e.mode key scancode h fits ok
