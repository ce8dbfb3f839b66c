-- ===== src/Tui/App/Steady.antt =====
-- The screen and the indexes on each key, for `handle_key` of crates/loreloom-tui/src/state.rs.
use loreloom.Prelude.{
  ℕ, ◌-◌, ◌≡◌, ◌≢◌, ◌≤◌, refl, Bool, true, false, ◌&&◌, ◌||◌, not, inl, inr, arith, Option, none,
  some, Option-cases, [], ◌∷◌, ◌==◌, get_elem?, if◌then◌else◌, Result-cases, ok, err, Text,
}
use loreloom.Prelude.Words.{saturating_add, usize_max}
use loreloom.Tui.Editor.{
  Unicode, Segmentation, InputEditor, EditorError, insert, grapheme_count, history_previous,
  history_next,
}
use loreloom.Tui.Editor.Cursor.{
  IsSound, Step, Step-IsSound, history_previous-total, history_next-total,
}
use loreloom.Tui.Editor.Cursor
use loreloom.Tui.App.{
  TuiApp, with_editor, insert_or_keep, scroll_up, scroll_down, scroll_up_lines, scroll_down_lines,
  toggle_mods_overlay, scroll_mods_up_lines, scroll_mods_down_lines,
}
use loreloom.Tui.App.Layout.{input_layout, input_layout-covers}
use loreloom.Tui.App.Keys.{
  KeyCode, char, function_key, enter, escape, tab, page_up, page_down, left, right, up, down, home,
  end_key, backspace_key, delete_key, other_key, Modifiers, KeyEvent, UiIntent, quit, is_release,
  is_char, is_escape, is_mods_shortcut, Answer, edited, edited_or_panic, answer_submit,
  move_input_vertical, move_to, nearest, handle_mods_code, handle_mods_key, handle_char,
  handle_editor_key, handle_key,
}

module _ {Activity : Type 0} (u : Unicode) where
  pub record IsSteady (app : TuiApp Activity) : Type 0 where
    pub editor_sound : IsSound u app.editor
    pub transcript_bound : app.transcript_scroll ≤ app.transcript_scroll_max
    pub mods_bound : app.mods_scroll ≤ app.mods_scroll_max

  -- An answer that is no panic, with a screen in order.
  abbrev pub Good : Answer Activity → Type 0
  Good answer = (r : TuiApp Activity × Option UiIntent) × (answer ≡ some r) × IsSteady r.0

  if-Good : (b : Bool) {x y : Answer Activity} → Good x → Good y → Good (if b then x else y)
  if-Good true p q = p
  if-Good false p q = q

  if-IsSteady :
      (b : Bool) {x y : TuiApp Activity} → IsSteady x → IsSteady y → IsSteady (if b then x else y)
  if-IsSteady true p q = p
  if-IsSteady false p q = q

  answered : (app : TuiApp Activity) (i : Option UiIntent) → IsSteady app → Good (some (app, i))
  answered app i s = ((app, i), refl, s)

module _ (u : Unicode) (l : Segmentation u) where
  move_to-IsSound :
      (is_down : Bool) (target : Option (ℕ × ℕ)) (e : InputEditor)
      → IsSound u e
      → IsSound u (move_to u is_down target e)
  move_to-IsSound is_down (some (t, d)) e s = Step-IsSound u l (Cursor.placed t) s
  move_to-IsSound true none e s = Step-IsSound u l (Cursor.placed (grapheme_count u e.text)) s
  move_to-IsSound false none e s = s

module _ {Activity : Type 0} (u : Unicode) (l : Segmentation u) (cells : Text → ℕ) where
  edit-IsSteady :
      (app : TuiApp Activity) {e : InputEditor}
      → Step u l app.editor e
      → IsSteady u app
      → IsSteady u (with_editor e app)
  edit-IsSteady app t s = record {
    editor_sound = Step-IsSound u l t s.editor_sound;
    transcript_bound = s.transcript_bound;
    mods_bound = s.mods_bound;
  }

  insert_or_keep-ok :
      (value : Text) (app : TuiApp Activity) {e : InputEditor}
      → insert u value app.editor ≡ ok e
      → insert_or_keep u value app ≡ with_editor e app
  unfolding insert_or_keep
  insert_or_keep-ok value app q = ground (arith, q)

  insert_or_keep-err :
      (value : Text) (app : TuiApp Activity) {x : EditorError}
      → insert u value app.editor ≡ err x
      → insert_or_keep u value app ≡ app
  unfolding insert_or_keep
  insert_or_keep-err value app q = ground (arith, q)

  insert_or_keep-IsSteady :
      (value : Text) (app : TuiApp Activity)
      → IsSteady u app
      → IsSteady u (insert_or_keep u value app)
  insert_or_keep-IsSteady value app s = elim (Result-cases (insert u value app.editor)) [
    | inl (e, q) ↦
        rw (insert_or_keep-ok value app q) (edit-IsSteady app (Cursor.inserted value q) s)
    | inr (x, q) ↦ rw (insert_or_keep-err value app q) s
  ]

  -- An editor in order, or none at all.
  edited_or_panic-Good :
      (app : TuiApp Activity) (o : Option InputEditor)
      → o ≢ none
      → ((e : InputEditor) → o ≡ some e → IsSound u e)
      → IsSteady u app
      → Good u (edited_or_panic u cells app o)
  edited_or_panic-Good app none n f s = absurd (n refl)
  edited_or_panic-Good app (some e) n f s = answered u (with_editor e app) none (record {
    editor_sound = f e refl;
    transcript_bound = s.transcript_bound;
    mods_bound = s.mods_bound;
  })

  vertical-result :
      (is_down : Bool) (app : TuiApp Activity) {e : InputEditor}
      → move_input_vertical u cells app.input_width is_down app.editor ≡ some e
      → (target : Option (ℕ × ℕ)) × (e ≡ move_to u is_down target app.editor)
  unfolding move_input_vertical
  vertical-result is_down app h =
      elim (Option-cases (
        get_elem? (input_layout u cells app.editor.text app.input_width).positions
          app.editor.cursor)) [
            | inl n ↦ ground (arith, n)
            | inr ((column, row), q) ↦ (
              nearest column (if is_down then saturating_add usize_max row 1 else row - 1) 0 none
                  (input_layout u cells app.editor.text app.input_width).positions,
              ground (arith, q),
            )
          ]

  vertical-total :
      (is_down : Bool) (app : TuiApp Activity)
      → IsSteady u app
      → move_input_vertical u cells app.input_width is_down app.editor ≢ none
  unfolding move_input_vertical
  vertical-total is_down app s h =
      elim (Option-cases (
        get_elem? (input_layout u cells app.editor.text app.input_width).positions
          app.editor.cursor)) [
            | inl n ↦
                input_layout-covers u cells app.editor.text app.input_width app.editor.cursor
                  s.editor_sound.cursor_bound n
            | inr ((column, row), q) ↦ ground (arith, q)
          ]

  vertical-Good :
      (is_down : Bool) (app : TuiApp Activity)
      → IsSteady u app
      → Good u (
          edited_or_panic u cells app
            (move_input_vertical u cells app.input_width is_down app.editor))
  vertical-Good is_down app s =
      edited_or_panic-Good app (move_input_vertical u cells app.input_width is_down app.editor)
        (vertical-total is_down app s)
        (λ e q.
          let (target, k) = vertical-result is_down app q in
          rw k (move_to-IsSound u l is_down target app.editor s.editor_sound))
        s

  submit-Good : (app : TuiApp Activity) → IsSteady u app → Good u (answer_submit u cells app)
  submit-Good app s = answered u _ _ (edit-IsSteady app Cursor.submitted s)

  handle_char-Good :
      (c : ℕ) (utf8 : ℕ → Text) (m : Modifiers) (app : TuiApp Activity)
      → IsSteady u app
      → Good u (handle_char u cells c utf8 m app)
  unfolding handle_char
  handle_char-Good c utf8 m app s =
      if-Good u (c == b'j' && m.control) (answered u _ _ (insert_or_keep-IsSteady (10 ∷ []) app s))
        (if-Good u (c == b'p' && m.control)
          (edited_or_panic-Good app (history_previous u app.editor)
            (history_previous-total u l app.editor s.editor_sound)
            (λ e q. Step-IsSound u l (Cursor.previous q) s.editor_sound) s)
          (if-Good u (c == b'n' && m.control)
            (edited_or_panic-Good app (history_next u app.editor)
              (history_next-total u l app.editor s.editor_sound)
              (λ e q. Step-IsSound u l (Cursor.next q) s.editor_sound) s)
            (if-Good u (not (m.control || m.alt))
              (answered u _ _ (insert_or_keep-IsSteady (utf8 c) app s)) (answered u _ _ s))))

  editor-Good :
      (app : TuiApp Activity) {e : InputEditor}
      → Step u l app.editor e
      → IsSteady u app
      → Good u (edited u cells app e)
  editor-Good app t s = answered u _ none (edit-IsSteady app t s)

  handle_editor_key-Good :
      (utf8 : ℕ → Text) (code : KeyCode) (m : Modifiers) (app : TuiApp Activity)
      → IsSteady u app
      → Good u (handle_editor_key u cells utf8 code m app)
  unfolding handle_editor_key scroll_up scroll_down scroll_up_lines scroll_down_lines
  handle_editor_key-Good utf8 enter m app s =
      if-Good u m.alt (answered u _ _ (insert_or_keep-IsSteady (10 ∷ []) app s))
        (if-Good u _ (submit-Good app s) (answered u _ _ s))
  handle_editor_key-Good utf8 escape m app s = if-Good u _ (answered u _ _ s) (answered u _ _ s)
  handle_editor_key-Good utf8 tab m app s = answered u _ _ (record {
    editor_sound = s.editor_sound;
    transcript_bound = s.transcript_bound;
    mods_bound = s.mods_bound;
  })
  handle_editor_key-Good utf8 page_up m app s = answered u _ _ (record {
    editor_sound = s.editor_sound;
    transcript_bound = omega arith;
    mods_bound = s.mods_bound;
  })
  handle_editor_key-Good utf8 page_down m app s = answered u _ _ (record {
    editor_sound = s.editor_sound;
    transcript_bound = omega (arith, s.transcript_bound);
    mods_bound = s.mods_bound;
  })
  handle_editor_key-Good utf8 left m app s = editor-Good app Cursor.left s
  handle_editor_key-Good utf8 right m app s = editor-Good app Cursor.right s
  handle_editor_key-Good utf8 up m app s = vertical-Good false app s
  handle_editor_key-Good utf8 down m app s = vertical-Good true app s
  handle_editor_key-Good utf8 home m app s = editor-Good app Cursor.home s
  handle_editor_key-Good utf8 end_key m app s = editor-Good app Cursor.end_of_line s
  handle_editor_key-Good utf8 backspace_key m app s = editor-Good app Cursor.erased s
  handle_editor_key-Good utf8 delete_key m app s = editor-Good app Cursor.deleted s
  handle_editor_key-Good utf8 (char c) m app s = handle_char-Good c utf8 m app s
  handle_editor_key-Good utf8 (function_key n) m app s = answered u _ _ s
  handle_editor_key-Good utf8 other_key m app s = answered u _ _ s

  -- Only the list of mods is scrolled.
  mods-IsSteady :
      (app : TuiApp Activity) (scroll : ℕ) (overlay : Bool)
      → scroll ≤ app.mods_scroll_max
      → IsSteady u app
      → IsSteady u (record app { mods_scroll = scroll; overlay = overlay })
  mods-IsSteady app scroll overlay h s = record {
    editor_sound = s.editor_sound;
    transcript_bound = s.transcript_bound;
    mods_bound = h;
  }

  handle_mods_code-IsSteady :
      (code : KeyCode) (app : TuiApp Activity)
      → IsSteady u app
      → IsSteady u (handle_mods_code u cells code app)
  unfolding handle_mods_code scroll_mods_up_lines scroll_mods_down_lines
  handle_mods_code-IsSteady up app s =
      mods-IsSteady app _ app.overlay (omega (arith, s.mods_bound)) s
  handle_mods_code-IsSteady down app s = mods-IsSteady app _ app.overlay (omega arith) s
  handle_mods_code-IsSteady page_up app s =
      mods-IsSteady app _ app.overlay (omega (arith, s.mods_bound)) s
  handle_mods_code-IsSteady page_down app s = mods-IsSteady app _ app.overlay (omega arith) s
  handle_mods_code-IsSteady _ app s = s

  -- Whatever key is pressed, a screen in order stays in order, and no index into the layout of the
  -- input or into the history is out of range: the cursor is within the text, the place in the
  -- history within the history, and both scrolls within their bounds. It holds over graphemes with
  -- the laws of `Segmentation`, whatever number of cells they take.
  pub handle_key-IsSteady :
      (utf8 : ℕ → Text) (key : KeyEvent) (app : TuiApp Activity)
      → IsSteady u app
      → Good u (handle_key u cells utf8 key app)
  unfolding handle_key handle_mods_key toggle_mods_overlay
  handle_key-IsSteady utf8 key app s = if-Good u (is_release key.kind) (answered u app none s) (
      if-Good u (is_char b'c' key.code && key.modifiers.control) (answered u app (some quit) s) (
        if-Good u app.overlay
          (answered u _ none (
            if-IsSteady u (is_escape key.code || is_mods_shortcut key)
              (mods-IsSteady app app.mods_scroll false s.mods_bound s)
              (handle_mods_code-IsSteady key.code app s)))
          (if-Good u (is_mods_shortcut key)
            (answered u _ none (
              if-IsSteady u app.overlay (mods-IsSteady app app.mods_scroll false s.mods_bound s)
                (mods-IsSteady app 0 true (omega arith) s)))
            (handle_editor_key-Good utf8 key.code key.modifiers app s))))
