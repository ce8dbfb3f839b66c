-- ===== src/Tui/App/Keys.antt =====
-- `handle_key`, `handle_mouse` and `handle_paste` of crates/loreloom-tui/src/state.rs. A panic of the
-- history is `none`.
use loreloom.Prelude.{
  ℕ, suc, ◌+◌, ◌-◌, Bool, true, false, ◌&&◌, ◌||◌, not, Option, none, some, List, [], ◌∷◌, ltb,
  ◌==◌, if◌then◌else◌, get_elem?, Text, Result, ok, err,
}
use loreloom.Prelude.Words.{saturating_add, usize_max}
use loreloom.Tui.Editor.{
  Unicode, InputEditor, EditorError, insert, set_cursor, grapheme_count, submit, move_left,
  move_right, move_home, move_end, backspace, delete, history_previous, history_next,
}
use loreloom.Tui.App.Layout.{input_layout}
use loreloom.Tui.App.{
  TuiApp, toggle, can_submit, can_cancel, scroll_up, scroll_down, scroll_up_lines,
  scroll_down_lines, toggle_mods_overlay, scroll_mods_up_lines, scroll_mods_down_lines, page_of,
  with_editor, insert_or_keep,
}

pub data KeyCode : Type 0 where
  char function_key : ℕ → KeyCode
  enter escape tab page_up page_down left right up down home end_key backspace_key delete_key
        other_key :
      KeyCode

-- `other` stands for the modifiers that no test of the program names.
pub record Modifiers : Type 0 where
  pub shift : Bool
  pub control : Bool
  pub alt : Bool
  pub other : Bool

pub data KeyEventKind : Type 0 where
  press repeat release : KeyEventKind

pub record KeyEvent : Type 0 where
  pub code : KeyCode
  pub modifiers : Modifiers
  pub kind : KeyEventKind

pub data UiIntent : Type 0 where
  submission : Text → UiIntent
  cancel quit : UiIntent

abbrev pub is_release : KeyEventKind → Bool
is_release release = true
is_release _ = false

abbrev pub is_char : ℕ → KeyCode → Bool
is_char c (char d) = d == c
is_char c _ = false

abbrev pub is_escape : KeyCode → Bool
is_escape escape = true
is_escape _ = false

abbrev pub no_modifiers : Modifiers → Bool
no_modifiers m = not (m.shift || m.control || m.alt || m.other)

unfoldable pub is_mods_shortcut : KeyEvent → Bool
is_mods_shortcut key =
    elim key.code [ function_key n ↦ n == 2 | _ ↦ false ]
    || ((is_char b'o' key.code || is_char b'O' key.code) && key.modifiers.control)
    || ((is_char b'm' key.code || is_char b'M' key.code) && key.modifiers.alt)
    || is_char 181 key.code

abbrev distance : ℕ → ℕ → ℕ
distance a b = (a - b) + (b - a)

-- The best place so far, with its distance, and the first nearest of the rest in the row.
abbrev pub nearest : ℕ → ℕ → ℕ → Option (ℕ × ℕ) → List (ℕ × ℕ) → Option (ℕ × ℕ)
nearest column row i best [] = best
nearest column row i none ((c, r) ∷ rest) =
    nearest column row (suc i) (if r == row then some (i, distance c column) else none) rest
nearest column row i (some (j, d)) ((c, r) ∷ rest) =
    nearest column row (suc i)
      (if r == row && ltb (distance c column) d then some (i, distance c column) else some (j, d))
      rest

abbrev pub move_to : Unicode → Bool → Option (ℕ × ℕ) → InputEditor → InputEditor
move_to u is_down (some (target, d)) e = set_cursor u target e
move_to u true none e = set_cursor u (grapheme_count u e.text) e
move_to u false none e = e

-- `positions[cursor]`, which panics out of range: `none`.
unfoldable pub move_input_vertical :
    Unicode → (Text → ℕ) → ℕ → Bool → InputEditor → Option InputEditor
move_input_vertical u cells width is_down e =
    let positions = (input_layout u cells e.text width).positions in
    elim (get_elem? positions e.cursor) [
      | none ↦ none
      | some (column, row) ↦ some (
          move_to u is_down
            (nearest column (if is_down then saturating_add usize_max row 1 else row - 1) 0 none
              positions)
            e)
    ]

abbrev pub Answer : Type 0 → Type 0
Answer Activity = Option (TuiApp Activity × Option UiIntent)

abbrev wheel_rows : ℕ
wheel_rows = 3

module _ {Activity : Type 0} (u : Unicode) (cells : Text → ℕ) where
  abbrev pub edited : TuiApp Activity → InputEditor → Answer Activity
  edited app e = some (with_editor e app, none)

  abbrev pub edited_or_panic : TuiApp Activity → Option InputEditor → Answer Activity
  edited_or_panic app none = none
  edited_or_panic app (some e) = edited app e

  abbrev pub answer_submit : TuiApp Activity → Answer Activity
  answer_submit app =
      let (e, text) = submit u app.editor in
      some (with_editor e app, elim text [ none ↦ none | some t ↦ some (submission t) ])

  -- The keys while the list of mods is open.
  unfoldable pub handle_mods_code : KeyCode → TuiApp Activity → TuiApp Activity
  handle_mods_code up app = scroll_mods_up_lines 1 app
  handle_mods_code down app = scroll_mods_down_lines 1 app
  handle_mods_code page_up app = scroll_mods_up_lines (page_of app.mods_page_rows) app
  handle_mods_code page_down app = scroll_mods_down_lines (page_of app.mods_page_rows) app
  handle_mods_code _ app = app

  unfoldable pub handle_mods_key : KeyEvent → TuiApp Activity → TuiApp Activity
  handle_mods_key key app =
      if is_escape key.code || is_mods_shortcut key
      then record app { overlay = false }
      else handle_mods_code key.code app

  -- A letter: a shortcut with the control key, or text.
  unfoldable pub handle_char : ℕ → (ℕ → Text) → Modifiers → TuiApp Activity → Answer Activity
  handle_char c utf8 m app =
      if c == b'j' && m.control
      then some (insert_or_keep u (10 ∷ []) app, none)
      else if c == b'p' && m.control
      then edited_or_panic app (history_previous u app.editor)
      else if c == b'n' && m.control
      then edited_or_panic app (history_next u app.editor)
      else if not (m.control || m.alt)
      then some (insert_or_keep u (utf8 c) app, none)
      else some (app, none)

  -- The keys while no list is open; `utf8` is the encoding of a character.
  unfoldable pub handle_editor_key :
      (ℕ → Text) → KeyCode → Modifiers → TuiApp Activity → Answer Activity
  handle_editor_key utf8 enter m app =
      if m.alt
      then some (insert_or_keep u (10 ∷ []) app, none)
      else if no_modifiers m && can_submit app
      then answer_submit app
      else some (app, none)
  handle_editor_key utf8 escape m app =
      if can_cancel app then some (app, some cancel) else some (app, none)
  handle_editor_key utf8 tab m app =
      some (record app { narrow_page = toggle app.narrow_page }, none)
  handle_editor_key utf8 page_up m app = some (scroll_up app, none)
  handle_editor_key utf8 page_down m app = some (scroll_down app, none)
  handle_editor_key utf8 left m app = edited app (move_left u app.editor)
  handle_editor_key utf8 right m app = edited app (move_right u app.editor)
  handle_editor_key utf8 up m app =
      edited_or_panic app (move_input_vertical u cells app.input_width false app.editor)
  handle_editor_key utf8 down m app =
      edited_or_panic app (move_input_vertical u cells app.input_width true app.editor)
  handle_editor_key utf8 home m app = edited app (move_home u app.editor)
  handle_editor_key utf8 end_key m app = edited app (move_end u app.editor)
  handle_editor_key utf8 backspace_key m app = edited app (backspace u app.editor)
  handle_editor_key utf8 delete_key m app = edited app (delete u app.editor)
  handle_editor_key utf8 (char c) m app = handle_char c utf8 m app
  handle_editor_key utf8 (function_key n) m app = some (app, none)
  handle_editor_key utf8 other_key m app = some (app, none)

  unfoldable pub handle_key : (ℕ → Text) → KeyEvent → TuiApp Activity → Answer Activity
  handle_key utf8 key app =
      if is_release key.kind
      then some (app, none)
      else if is_char b'c' key.code && key.modifiers.control
      then some (app, some quit)
      else if app.overlay
      then some (handle_mods_key key app, none)
      else if is_mods_shortcut key
      then some (toggle_mods_overlay app, none)
      else handle_editor_key utf8 key.code key.modifiers app

  unfoldable pub handle_paste : Text → TuiApp Activity → Result EditorError (TuiApp Activity)
  handle_paste text app =
      if app.overlay
      then ok app
      else elim (insert u text app.editor) [ ok e ↦ ok (with_editor e app) | err e ↦ err e ]

  unfoldable pub handle_wheel : Bool → TuiApp Activity → TuiApp Activity
  handle_wheel is_up app =
      if app.overlay
      then (if is_up
          then scroll_mods_up_lines wheel_rows app
          else scroll_mods_down_lines wheel_rows app)
      else if is_up
      then scroll_up_lines wheel_rows app
      else scroll_down_lines wheel_rows app
