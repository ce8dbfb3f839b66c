-- ===== src/Tui/Examples.antt =====
-- Runs on concrete values for the theorems of the terminal: a Unicode of ASCII texts, where each byte is
-- a grapheme of its own.
use loreloom.Prelude.{
  ℕ, zero, suc, ◌≡◌, ◌≢◌, ◌≤◌, refl, ap, Bool, true, false, arith, none, some, List, [], ◌∷◌, ◌++◌,
  length, take, bytes, Text, ok, ◌&&◌, ◌==◌,
}
use loreloom.Tui.Editor.{
  Unicode, Segmentation, InputEditor, empty_editor, concat, grapheme_count, insert, submit,
  history_previous, history_next, restore_failed_submission,
}
use loreloom.Tui.Editor.Cursor.{start, step, inserted, Reachable-IsSound, Reachable-safe}
use loreloom.Tui.Editor.History.{
  back, forward, and_then, returned, forward-back, restore_failed_submission-submit,
}
use loreloom.Tui.App.{TuiApp, UiSnapshot, story, idle, with_editor}
use loreloom.Tui.App.Keys.{
  KeyEvent, enter, press, submission, handle_key, handle_editor_key, is_mods_shortcut,
}
use loreloom.Tui.App.Steady.{IsSteady, Good, handle_key-IsSteady}
use loreloom.Tui.App.Intents.{Justified, handle_key-Justified}

abbrev single : Text → List Text
single [] = []
single (c ∷ t) = (c ∷ []) ∷ single t

abbrev only_spaces : Text → Bool
only_spaces [] = true
only_spaces (c ∷ t) = c == 32 && only_spaces t

abbrev ascii : Unicode
ascii = record { graphemes = single; is_blank = only_spaces }

concat-single : (t : Text) → concat (single t) ≡ t
concat-single [] = refl
concat-single (c ∷ t) = ap (λ r. c ∷ r) (concat-single t)

single-kept :
    (t rest : Text) (k : ℕ)
    → k ≤ length (single t)
    → k ≤ length (single (concat (take k (single t)) ++ rest))
single-kept t rest zero h = omega arith
single-kept [] rest (suc k) h = ground arith
single-kept (c ∷ t) rest (suc k) h = omega (arith, single-kept t rest k (omega (arith, h)))

ascii-Segmentation : Segmentation ascii
ascii-Segmentation = record { joined = concat-single; kept = single-kept }

abbrev typed : InputEditor
typed = record empty_editor { text = bytes "go"; cursor = 2 }

typed-inserted : insert ascii (bytes "go") empty_editor ≡ ok typed
unfolding insert
typed-inserted = refl

Reachable-safe_example :
    (2 ≤ grapheme_count ascii (bytes "go"))
    × (history_previous ascii typed ≢ none)
    × (history_next ascii typed ≢ none)
Reachable-safe_example =
    Reachable-safe ascii ascii-Segmentation (step start (inserted (bytes "go") typed-inserted))

abbrev recalling : InputEditor
recalling = record typed { history = bytes "look" ∷ bytes "wait" ∷ [] }

forward-back_example :
    and_then ascii (back ascii 2 recalling) (forward ascii 2) ≡ some (returned ascii recalling)
forward-back_example = forward-back ascii 1 recalling refl (omega arith)

restore_failed_submission-submit_example :
    restore_failed_submission ascii (bytes "go") (submit ascii recalling).0
    ≡ returned ascii recalling
restore_failed_submission-submit_example = restore_failed_submission-submit ascii recalling refl

-- Each byte takes a cell.
abbrev one_cell : Text → ℕ
one_cell g = length g

abbrev quiet : UiSnapshot ℕ
quiet = record {
  revision = 3;
  transcript = [];
  tool_activity = [];
  phase = idle;
  can_submit = true;
  can_cancel = false;
}

abbrev screen : TuiApp ℕ
screen = with_editor typed (record {
  snapshot = quiet;
  editor = empty_editor;
  narrow_page = story;
  overlay = false;
  transcript_scroll = 0;
  transcript_scroll_max = 4;
  transcript_page_rows = 1;
  mods_scroll = 0;
  mods_scroll_max = 0;
  mods_page_rows = 1;
  working_phase = none;
  spinner_frame = 0;
  input_width = 80;
  pending_submission = none;
  live_tool_activity = none;
})

abbrev enter_key : KeyEvent
enter_key = record {
  code = enter;
  modifiers = record { shift = false; control = false; alt = false; other = false };
  kind = press;
}

abbrev utf8 : ℕ → Text
utf8 c = c ∷ []

screen-IsSteady : IsSteady ascii screen
screen-IsSteady = record {
  editor_sound =
      Reachable-IsSound ascii ascii-Segmentation
        (step start (inserted (bytes "go") typed-inserted));
  transcript_bound = omega arith;
  mods_bound = omega arith;
}

handle_key-IsSteady_example : Good ascii (handle_key ascii one_cell utf8 enter_key screen)
handle_key-IsSteady_example =
    handle_key-IsSteady ascii ascii-Segmentation one_cell utf8 enter_key screen screen-IsSteady

abbrev sent : TuiApp ℕ
sent = with_editor (record empty_editor { history = bytes "go" ∷ [] }) screen

handle_key-Justified_example : Justified ascii one_cell enter_key screen (submission (bytes "go"))
unfolding handle_key is_mods_shortcut handle_editor_key submit
handle_key-Justified_example =
    handle_key-Justified ascii one_cell utf8 enter_key screen sent (submission (bytes "go")) refl
