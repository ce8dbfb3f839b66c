-- ===== src/Tui/App/Intents.antt =====
-- What a key may ask of the program.
use loreloom.Prelude.{
  ℕ, ◌≡◌, refl, Bool, true, false, ◌&&◌, ◌||◌, not, arith, Option, none, some, ◌==◌, Text,
  if◌then◌else◌,
}
use loreloom.Tui.Editor.{Unicode, InputEditor, submit}
use loreloom.Tui.App.{TuiApp, can_submit, can_cancel}
use loreloom.Tui.App.Keys.{
  KeyCode, char, function_key, enter, escape, tab, page_up, page_down, left, right, up, down, home,
  end_key, backspace_key, delete_key, other_key, Modifiers, KeyEvent, UiIntent, submission, cancel,
  quit, Answer, edited_or_panic, answer_submit, handle_char, handle_editor_key, handle_key, is_char,
  is_release, no_modifiers, is_mods_shortcut,
}

-- An answer that depends on a test.
by-test :
    {A Q : Type 0} (b : Bool) {x y r : A}
    → (b ≡ true → x ≡ r → Q)
    → (b ≡ false → y ≡ r → Q)
    → (if b then x else y) ≡ r
    → Q
by-test true f g h = f refl h
by-test false f g h = g refl h

module _ {Activity : Type 0} (u : Unicode) (cells : Text → ℕ) where
  -- What is behind an intent: a text of the editor that may be sent, a run to cancel, or control and c.
  abbrev pub Justified : KeyEvent → TuiApp Activity → UiIntent → Type 0
  Justified key app (submission t) =
      (app.overlay ≡ false)
      × (can_submit app ≡ true)
      × (t ≡ app.editor.text)
      × (u.is_blank t ≡ false)
  Justified key app cancel = (app.overlay ≡ false) × (can_cancel app ≡ true)
  Justified key app quit = (is_char b'c' key.code ≡ true) × (key.modifiers.control ≡ true)

  -- The same, without the overlay.
  abbrev Allowed : TuiApp Activity → UiIntent → Type 0
  Allowed app (submission t) =
      (can_submit app ≡ true) × (t ≡ app.editor.text) × (u.is_blank t ≡ false)
  Allowed app cancel = can_cancel app ≡ true
  Allowed app quit = true ≡ false

  silent-panic :
      (app : TuiApp Activity) (o : Option InputEditor) (app' : TuiApp Activity) (i : UiIntent)
      → edited_or_panic u cells app o ≡ some (app', some i)
      → Allowed app i
  silent-panic app none app' i h = ground arith
  silent-panic app (some e) app' i h = ground arith

  submit-Allowed :
      (app app' : TuiApp Activity) (i : UiIntent)
      → can_submit app ≡ true
      → answer_submit u cells app ≡ some (app', some i)
      → Allowed app i
  unfolding submit
  submit-Allowed app app' i c h = ground arith

  handle_char-Allowed :
      (c : ℕ) (utf8 : ℕ → Text) (m : Modifiers) (app app' : TuiApp Activity) (i : UiIntent)
      → handle_char u cells c utf8 m app ≡ some (app', some i)
      → Allowed app i
  unfolding handle_char
  handle_char-Allowed c utf8 m app app' i h =
      by-test (c == b'j' && m.control) (λ t q. ground (arith, q))
        (λ t.
          by-test (c == b'p' && m.control) (λ t q. silent-panic app _ app' i q)
            (λ t.
              by-test (c == b'n' && m.control) (λ t q. silent-panic app _ app' i q)
                (λ t.
                  by-test (not (m.control || m.alt)) (λ t q. ground (arith, q))
                    (λ t q. ground (arith, q)))))
        h

  handle_editor_key-Allowed :
      (utf8 : ℕ → Text) (code : KeyCode) (m : Modifiers) (app app' : TuiApp Activity) (i : UiIntent)
      → handle_editor_key u cells utf8 code m app ≡ some (app', some i)
      → Allowed app i
  unfolding handle_editor_key
  handle_editor_key-Allowed utf8 enter m app app' i h =
      by-test m.alt (λ t q. ground (arith, q))
        (λ t.
          by-test (no_modifiers m && can_submit app)
            (λ t q. submit-Allowed app app' i (ground (arith, t)) q) (λ t q. ground (arith, q)))
        h
  handle_editor_key-Allowed utf8 escape m app app' i h = ground arith
  handle_editor_key-Allowed utf8 tab m app app' i h = ground arith
  handle_editor_key-Allowed utf8 page_up m app app' i h = ground arith
  handle_editor_key-Allowed utf8 page_down m app app' i h = ground arith
  handle_editor_key-Allowed utf8 left m app app' i h = ground arith
  handle_editor_key-Allowed utf8 right m app app' i h = ground arith
  handle_editor_key-Allowed utf8 up m app app' i h = silent-panic app _ app' i h
  handle_editor_key-Allowed utf8 down m app app' i h = silent-panic app _ app' i h
  handle_editor_key-Allowed utf8 home m app app' i h = ground arith
  handle_editor_key-Allowed utf8 end_key m app app' i h = ground arith
  handle_editor_key-Allowed utf8 backspace_key m app app' i h = ground arith
  handle_editor_key-Allowed utf8 delete_key m app app' i h = ground arith
  handle_editor_key-Allowed utf8 (char c) m app app' i h = handle_char-Allowed c utf8 m app app' i h
  handle_editor_key-Allowed utf8 (function_key n) m app app' i h = ground arith
  handle_editor_key-Allowed utf8 other_key m app app' i h = ground arith

  -- A key that submits does so with the text of the editor, which is not blank, where the program
  -- takes input and the list of mods is closed; one that cancels does so where something can be
  -- cancelled and the list is closed; and only the letter c with the control key quits.
  pub handle_key-Justified :
      (utf8 : ℕ → Text) (key : KeyEvent) (app app' : TuiApp Activity) (i : UiIntent)
      → handle_key u cells utf8 key app ≡ some (app', some i)
      → Justified key app i
  unfolding handle_key
  handle_key-Justified utf8 key app app' i h =
      by-test (is_release key.kind) (λ t q. ground (arith, q))
        (λ t.
          by-test (is_char b'c' key.code && key.modifiers.control)
            (λ t q. pressed-quit key app app' i t q)
            (λ t.
              by-test app.overlay (λ t q. ground (arith, q))
                (λ o.
                  by-test (is_mods_shortcut key) (λ t q. ground (arith, q))
                    (λ t q.
                      uncovered key app i o
                        (handle_editor_key-Allowed utf8 key.code key.modifiers app app' i q)))))
        h
    where
      pressed-quit :
          (key : KeyEvent) (app app' : TuiApp Activity) (i : UiIntent)
          → (is_char b'c' key.code && key.modifiers.control) ≡ true
          → ◌≡◌ {A = Answer Activity} (some (app, some quit)) (some (app', some i))
          → Justified key app i
      pressed-quit key app app' i t q = ground (arith, t, q)

      uncovered :
          (key : KeyEvent) (app : TuiApp Activity) (i : UiIntent)
          → app.overlay ≡ false
          → Allowed app i
          → Justified key app i
      uncovered key app (submission t) o (a, b, c) = (o, a, b, c)
      uncovered key app cancel o a = (o, a)
      uncovered key app quit o a = ground (arith, a)
