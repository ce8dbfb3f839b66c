-- ===== src/Tui/App.antt =====
-- `TuiApp` of crates/loreloom-tui/src/state.rs, what it does on a key, the wheel and a paste, and
-- `move_input_vertical` of render.rs. Keys are those of crossterm that the program reads; the cells
-- that a grapheme takes on the screen are a parameter. Of a snapshot the fields that the state reads are kept.
pub mod Layout
pub mod Keys
pub mod Steady
pub mod Intents
use loreloom.Prelude.{
  ℕ, zero, suc, ◌+◌, ◌-◌, ◌%◌, ◌^◌, min, max, Bool, true, false, ◌&&◌, ◌||◌, not, Option, none,
  some, List, [], ◌∷◌, ltb, ◌==◌, if◌then◌else◌, get_elem?, Text, text_beq, Result, ok, err,
}
use loreloom.Prelude.Words.{saturating_add}
use loreloom.Core.Revision.{Revision}
use loreloom.Core.Domain.Facts.{TranscriptSpeaker}
use loreloom.Core.Domain.Facts
use loreloom.Tui.Editor.{
  Unicode, InputEditor, EditorError, empty_editor, insert, set_cursor, grapheme_count,
}

pub data NarrowPage : Type 0 where
  state story : NarrowPage

abbrev pub toggle : NarrowPage → NarrowPage
toggle state = story
toggle story = state

pub data RuntimePhase : Type 0 where
  idle persisting_input narrator_thinking resolving_orchestration npc_thinking updating_world :
      RuntimePhase
  completed cancelled failed : RuntimePhase

abbrev pub is_terminal : RuntimePhase → Bool
is_terminal idle = true
is_terminal completed = true
is_terminal cancelled = true
is_terminal failed = true
is_terminal _ = false

pub record ShownItem : Type 0 where
  pub speaker : TranscriptSpeaker
  pub text : Text
  pub revision : Option Revision

pub record UiSnapshot (Activity : Type 0) : Type 0 where
  pub revision : Revision
  pub transcript : List ShownItem
  pub tool_activity : List Activity
  pub phase : RuntimePhase
  pub can_submit : Bool
  pub can_cancel : Bool

pub data RuntimeUiEvent (Activity : Type 0) : Type 0 where
  snapshot : UiSnapshot Activity → RuntimeUiEvent Activity
  phase_changed : RuntimePhase → RuntimeUiEvent Activity
  tool_activity_changed : List Activity → RuntimeUiEvent Activity

pub record PendingSubmission : Type 0 where
  pub text : Text
  pub after_revision : Revision

-- `overlay` says whether the list of mods is open, the only overlay.
pub record TuiApp (Activity : Type 0) : Type 0 where
  pub snapshot : UiSnapshot Activity
  pub editor : InputEditor
  pub narrow_page : NarrowPage
  pub overlay : Bool
  pub transcript_scroll : ℕ
  pub transcript_scroll_max : ℕ
  pub transcript_page_rows : ℕ
  pub mods_scroll : ℕ
  pub mods_scroll_max : ℕ
  pub mods_page_rows : ℕ
  pub working_phase : Option RuntimePhase
  pub spinner_frame : ℕ
  pub input_width : ℕ
  pub pending_submission : Option PendingSubmission
  pub live_tool_activity : Option (List Activity)

abbrev pub u16_max : ℕ
u16_max = 65_535

-- The line of the player that was submitted, in a revision that is newer.
abbrev is_submitted : PendingSubmission → ShownItem → Bool
is_submitted p i =
    elim i.speaker [ Facts.player _ _ ↦ true | _ ↦ false ]
    && text_beq i.text p.text
    && elim i.revision [ none ↦ false | some r ↦ ltb p.after_revision r ]

abbrev any_submitted : PendingSubmission → List ShownItem → Bool
any_submitted p [] = false
any_submitted p (i ∷ rest) = is_submitted p i || any_submitted p rest

-- The rows of a page but one, and at least one.
abbrev pub page_of : ℕ → ℕ
page_of rows = max (rows - 1) 1

module _ {Activity : Type 0} where
  unfoldable pub new_app : UiSnapshot Activity → TuiApp Activity
  new_app s = record {
    snapshot = s;
    editor = empty_editor;
    narrow_page = story;
    overlay = false;
    transcript_scroll = 0;
    transcript_scroll_max = 0;
    transcript_page_rows = 1;
    mods_scroll = 0;
    mods_scroll_max = 0;
    mods_page_rows = 1;
    working_phase = none;
    spinner_frame = 0;
    input_width = 80;
    pending_submission = none;
    live_tool_activity = none;
  }

  abbrev is_committed : Option PendingSubmission → UiSnapshot Activity → Bool
  is_committed none s = false
  is_committed (some p) s = any_submitted p s.transcript

  unfoldable pub apply_runtime_event : RuntimeUiEvent Activity → TuiApp Activity → TuiApp Activity
  apply_runtime_event (snapshot s) app =
      let terminal = is_terminal s.phase in
      let pending_committed = is_committed app.pending_submission s in
      record app {
        snapshot = s;
        working_phase = if terminal then none else app.working_phase;
        pending_submission = if terminal || pending_committed then none else app.pending_submission;
        live_tool_activity = none;
      }
  apply_runtime_event (phase_changed phase) app =
      if is_terminal phase then record app { working_phase = none } else record app {
        working_phase = some phase;
        spinner_frame = 0;
        live_tool_activity = elim app.live_tool_activity [ none ↦ some [] | some a ↦ some a ];
      }
  apply_runtime_event (tool_activity_changed activity) app = record app {
    live_tool_activity = some activity;
  }

  unfoldable pub show_submitted_input : Text → TuiApp Activity → TuiApp Activity
  show_submitted_input input app = record app {
    pending_submission = some (record { text = input; after_revision = app.snapshot.revision });
    live_tool_activity = some [];
    transcript_scroll = 0;
  }

  abbrev is_working : TuiApp Activity → Bool
  is_working app = elim app.working_phase [ none ↦ false | some _ ↦ true ]

  unfoldable pub tick_spinner : TuiApp Activity → TuiApp Activity
  tick_spinner app =
      if is_working app
      then record app { spinner_frame = suc app.spinner_frame % 2 ^ 8 % 10 }
      else app

  abbrev pub can_submit : TuiApp Activity → Bool
  can_submit app = not (is_working app) && app.snapshot.can_submit

  abbrev pub can_cancel : TuiApp Activity → Bool
  can_cancel app = is_working app || app.snapshot.can_cancel

  unfoldable pub scroll_up_lines : ℕ → TuiApp Activity → TuiApp Activity
  scroll_up_lines rows app = record app {
    transcript_scroll =
        min (saturating_add u16_max app.transcript_scroll rows) app.transcript_scroll_max;
  }

  unfoldable pub scroll_down_lines : ℕ → TuiApp Activity → TuiApp Activity
  scroll_down_lines rows app = record app { transcript_scroll = app.transcript_scroll - rows }

  unfoldable pub update_transcript_layout : ℕ → ℕ → TuiApp Activity → TuiApp Activity
  update_transcript_layout maximum page_rows app = record app {
    transcript_scroll_max = maximum;
    transcript_page_rows = max page_rows 1;
    transcript_scroll = min app.transcript_scroll maximum;
  }

  unfoldable pub toggle_mods_overlay : TuiApp Activity → TuiApp Activity
  toggle_mods_overlay app =
      if app.overlay
      then record app { overlay = false }
      else record app { overlay = true; mods_scroll = 0 }

  unfoldable pub scroll_mods_up_lines : ℕ → TuiApp Activity → TuiApp Activity
  scroll_mods_up_lines rows app = record app { mods_scroll = app.mods_scroll - rows }

  unfoldable pub scroll_mods_down_lines : ℕ → TuiApp Activity → TuiApp Activity
  scroll_mods_down_lines rows app = record app {
    mods_scroll = min (saturating_add u16_max app.mods_scroll rows) app.mods_scroll_max;
  }

  unfoldable pub update_mods_layout : ℕ → ℕ → TuiApp Activity → TuiApp Activity
  update_mods_layout maximum page_rows app = record app {
    mods_scroll_max = maximum;
    mods_page_rows = max page_rows 1;
    mods_scroll = min app.mods_scroll maximum;
  }

  unfoldable pub scroll_up : TuiApp Activity → TuiApp Activity
  unfolding scroll_up_lines
  scroll_up app = scroll_up_lines (page_of app.transcript_page_rows) app

  unfoldable pub scroll_down : TuiApp Activity → TuiApp Activity
  unfolding scroll_down_lines
  scroll_down app = scroll_down_lines (page_of app.transcript_page_rows) app

  abbrev pub with_editor : InputEditor → TuiApp Activity → TuiApp Activity
  with_editor e app = record app { editor = e }

  -- `let _ = app.editor.insert(..)`: where the text would be too long, nothing changes.
  unfoldable pub insert_or_keep : Unicode → Text → TuiApp Activity → TuiApp Activity
  insert_or_keep u value app = elim (insert u value app.editor) [
    | ok e ↦ with_editor e app
    | err _ ↦ app
  ]
