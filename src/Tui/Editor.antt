-- ===== src/Tui/Editor.antt =====
-- `InputEditor` of crates/loreloom-tui/src/editor.rs. A text is its bytes. `Unicode` is what the program
-- takes from elsewhere: the graphemes of a text, and whether `trim` leaves nothing of it.
pub mod Places
pub mod Cursor
pub mod History
use loreloom.Prelude.{
  ℕ, zero, suc, ◌+◌, ◌-◌, min, ◌≡◌, ◌≤◌, Bool, true, false, ◌||◌, Option, none, some, List, [], ◌∷◌,
  ◌++◌, ltb, leb, ◌==◌, if◌then◌else◌, length, get_elem?, get_or, take, drop, Result, ok, err, Text,
  text_beq, bytes,
}
use loreloom.Prelude.Words.{usize_max, saturating_add}

pub record Unicode : Type 0 where
  pub graphemes : Text → List Text
  pub is_blank : Text → Bool

abbrev pub concat : List Text → Text
concat [] = []
concat (g ∷ gs) = g ++ concat gs

-- What the editor relies on: the graphemes make up the text, and the first of them, followed by
-- anything, are at least as many graphemes again.
pub record Segmentation (u : Unicode) : Type 0 where
  pub joined : (t : Text) → concat (u.graphemes t) ≡ t
  pub kept :
      (t rest : Text) (k : ℕ)
      → k ≤ length (u.graphemes t)
      → k ≤ length (u.graphemes (concat (take k (u.graphemes t)) ++ rest))

abbrev pub max_input_bytes : ℕ
max_input_bytes = 65_536

pub data EditorError : Type 0 where
  too_long : EditorError

pub record InputEditor : Type 0 where
  pub text : Text
  pub cursor : ℕ
  pub history : List Text
  pub history_index : Option ℕ
  pub history_draft : Option Text

abbrev pub empty_editor : InputEditor
empty_editor = record {
  text = [];
  cursor = 0;
  history = [];
  history_index = none;
  history_draft = none;
}

abbrev is_newline : Text → Bool
is_newline grapheme = text_beq grapheme (10 ∷ []) || text_beq grapheme (13 ∷ 10 ∷ [])

-- The place after the last newline: `rposition`, counted from `i`.
abbrev pub after_newline : ℕ → ℕ → List Text → ℕ
after_newline i found [] = found
after_newline i found (g ∷ gs) = after_newline (suc i) (if is_newline g then suc i else found) gs

abbrev next_offset : Option ℕ → Option ℕ
next_offset none = none
next_offset (some n) = some (suc n)

-- The offset of the first newline: `position`.
abbrev pub newline_offset : List Text → Option ℕ
newline_offset [] = none
newline_offset (g ∷ gs) =
    let rest = newline_offset gs in if is_newline g then some 0 else next_offset rest

unfoldable pub line_start : List Text → ℕ → ℕ
line_start graphemes cursor = after_newline 0 0 (take (min cursor (length graphemes)) graphemes)

unfoldable pub line_end : List Text → ℕ → ℕ
line_end graphemes cursor = elim (newline_offset (drop (min cursor (length graphemes)) graphemes)) [
  | none ↦ length graphemes
  | some offset ↦ cursor + offset
]

-- The byte at which a grapheme starts; past the last one, the length of the text.
abbrev pub byte_of : List Text → ℕ → ℕ
byte_of [] i = 0
byte_of (g ∷ gs) zero = 0
byte_of (g ∷ gs) (suc i) = length g + byte_of gs i

-- The first grapheme that starts at a byte or after it; `start` is where the first one starts.
abbrev pub cursor_from : ℕ → List Text → ℕ → ℕ
cursor_from start [] b = 0
cursor_from start (g ∷ gs) b =
    let rest = cursor_from (start + length g) gs b in if leb b start then 0 else suc rest

abbrev pub detach_history : InputEditor → InputEditor
detach_history e = record e { history_index = none; history_draft = none }

abbrev pub last_is : List Text → Text → Bool
last_is [] t = false
last_is (x ∷ []) t = text_beq x t
last_is (x ∷ y ∷ xs) t = last_is (y ∷ xs) t

abbrev pub pop : List Text → List Text
pop [] = []
pop (x ∷ []) = []
pop (x ∷ y ∷ xs) = x ∷ pop (y ∷ xs)

module _ (u : Unicode) where
  abbrev pub grapheme_count : Text → ℕ
  grapheme_count t = length (u.graphemes t)

  abbrev pub byte_index : InputEditor → ℕ → ℕ
  byte_index e i = byte_of (u.graphemes e.text) i

  unfoldable pub with_text : Text → Result EditorError InputEditor
  with_text text =
      if ltb max_input_bytes (length text)
      then err too_long
      else ok (record empty_editor { text = text; cursor = grapheme_count text })

  -- `insert_str` at the byte of the cursor
  unfoldable pub insert : Text → InputEditor → Result EditorError InputEditor
  insert value e =
      let b = byte_index e e.cursor in
      let text = take b e.text ++ value ++ drop b e.text in
      if ltb max_input_bytes (saturating_add usize_max (length e.text) (length value))
      then err too_long
      else ok (record (detach_history e) {
        text = text;
        cursor = cursor_from 0 (u.graphemes text) (b + length value);
      })

  unfoldable pub set_cursor : ℕ → InputEditor → InputEditor
  set_cursor cursor e = record e { cursor = min cursor (grapheme_count e.text) }

  unfoldable pub move_left : InputEditor → InputEditor
  move_left e = record e { cursor = e.cursor - 1 }

  unfoldable pub move_right : InputEditor → InputEditor
  move_right e = record e {
    cursor = min (saturating_add usize_max e.cursor 1) (grapheme_count e.text);
  }

  unfoldable pub move_home : InputEditor → InputEditor
  move_home e = record e { cursor = line_start (u.graphemes e.text) e.cursor }

  unfoldable pub move_end : InputEditor → InputEditor
  move_end e = record e { cursor = line_end (u.graphemes e.text) e.cursor }

  unfoldable pub move_up : InputEditor → InputEditor
  move_up e =
      let graphemes = u.graphemes e.text in
      let start = line_start graphemes e.cursor in
      let column = e.cursor - start in
      let previous_end = start - 1 in
      let previous_start = line_start graphemes previous_end in
      if start == 0
      then e
      else record e { cursor = previous_start + min column (previous_end - previous_start) }

  unfoldable pub move_down : InputEditor → InputEditor
  move_down e =
      let graphemes = u.graphemes e.text in
      let end = line_end graphemes e.cursor in
      let column = e.cursor - line_start graphemes e.cursor in
      let next_start = suc end in
      let next_end = line_end graphemes next_start in
      if end == length graphemes
      then e
      else record e { cursor = next_start + min column (next_end - next_start) }

  -- `replace_range(start..end, "")` for two graphemes that follow each other
  abbrev pub without : InputEditor → ℕ → ℕ → Text
  without e from to = take (byte_index e from) e.text ++ drop (byte_index e to) e.text

  unfoldable pub backspace : InputEditor → InputEditor
  backspace e = if e.cursor == 0 then e else record (detach_history e) {
    text = without e (e.cursor - 1) e.cursor;
    cursor = e.cursor - 1;
  }

  unfoldable pub delete : InputEditor → InputEditor
  delete e =
      if e.cursor == grapheme_count e.text
      then e
      else record (detach_history e) { text = without e e.cursor (suc e.cursor) }

  -- `history[index]`, which panics out of range: `none`.
  unfoldable pub select_history : ℕ → InputEditor → Option InputEditor
  select_history index e = elim (get_elem? e.history index) [
    | none ↦ none
    | some text ↦
        some (record e { text = text; cursor = grapheme_count text; history_index = some index })
  ]

  unfoldable pub history_previous : InputEditor → Option InputEditor
  history_previous e =
      let last = length e.history - 1 in
      if length e.history == 0 then some e else elim e.history_index [
        | some index ↦ select_history (index - 1) e
        | none ↦ select_history last (record e { history_draft = some e.text })
      ]

  abbrev pub draft_or_empty : Option Text → Text
  draft_or_empty none = []
  draft_or_empty (some t) = t

  unfoldable pub history_next : InputEditor → Option InputEditor
  history_next e =
      let draft = draft_or_empty e.history_draft in
      elim e.history_index [
        | none ↦ some e
        | some index ↦
            if ltb (suc index) (length e.history)
            then select_history (suc index) e
            else some (record e {
              text = draft;
              cursor = grapheme_count draft;
              history_index = none;
              history_draft = none;
            })
      ]

  unfoldable pub submit : InputEditor → InputEditor × Option Text
  submit e = if u.is_blank e.text then (e, none) else (
    record (detach_history e) { text = []; cursor = 0; history = e.history ++ e.text ∷ [] },
    some e.text,
  )

  unfoldable pub restore_failed_submission : Text → InputEditor → InputEditor
  restore_failed_submission submitted e = record (detach_history e) {
    text = submitted;
    cursor = grapheme_count submitted;
    history = if last_is e.history submitted then pop e.history else e.history;
  }
