-- ===== src/Tui/Editor/Cursor.antt =====
-- The cursor stays within the text, and the place in the history within the history.
use loreloom.Prelude.{
  ℕ, suc, ◌+◌, ◌-◌, min, ◌≡◌, ◌≢◌, ◌≤◌, ◌<◌, refl, sym, ap, ◌∙◌, true, false, Bool-cases, inl, inr,
  arith, none, some, Option-cases, List, ◌++◌, ◌==◌, ltb, length, get_elem?, take, drop, ok, Text,
}
use loreloom.Tui.Editor.{
  Unicode, Segmentation, concat, InputEditor, empty_editor, line_start, line_end, byte_of,
  grapheme_count, with_text, insert, set_cursor, move_left, move_right, move_home, move_end,
  move_up, move_down, backspace, delete, select_history, history_previous, history_next, submit,
  restore_failed_submission,
}
use loreloom.Tui.Editor.Places.{
  line_start-le, line_end-le, cursor_from-le, take-concat, below, get_elem?-lt, get_elem?-within,
}

-- The editor is in order.
pub record IsSound (u : Unicode) (e : InputEditor) : Type 0 where
  pub cursor_bound : e.cursor ≤ grapheme_count u e.text
  pub index_bound : (i : ℕ) → e.history_index ≡ some i → i < length e.history
  pub no_draft : e.history_index ≡ none → e.history_draft ≡ none

module _ (u : Unicode) (l : Segmentation u) where
  -- What is left of a text before a grapheme, with anything after it, has as many graphemes again.
  prefix_count :
      (e : InputEditor) (k : ℕ) (rest : Text)
      → k ≤ grapheme_count u e.text
      → k ≤ grapheme_count u (take (byte_of (u.graphemes e.text) k) e.text ++ rest)
  prefix_count e k rest h = rw (sym (prefix k)) at (l.kept e.text rest k h)
    where
      prefix :
          (k : ℕ)
          → take (byte_of (u.graphemes e.text) k) e.text ≡ concat (take k (u.graphemes e.text))
      prefix k =
          ap (λ t. take (byte_of (u.graphemes e.text) k) t) (sym (l.joined e.text))
          ∙ take-concat (u.graphemes e.text) k

  insert-IsSound :
      (value : Text) (e : InputEditor) {e' : InputEditor} → insert u value e ≡ ok e' → IsSound u e'
  unfolding insert
  insert-IsSound value e h = record {
    cursor_bound = ground (
      arith,
      cursor_from-le 0
          (u.graphemes (
            take (byte_of (u.graphemes e.text) e.cursor) e.text
            ++ value
            ++ drop (byte_of (u.graphemes e.text) e.cursor) e.text))
          (byte_of (u.graphemes e.text) e.cursor + length value),
    );
    index_bound = λ i q. ground arith;
    no_draft = λ q. ground arith;
  }

  backspace-IsSound : (e : InputEditor) → IsSound u e → IsSound u (backspace u e)
  unfolding backspace
  backspace-IsSound e s = elim (Bool-cases (e.cursor == 0)) [
    | inl y ↦ rw y s
    | inr n ↦ rw n (record {
      cursor_bound =
          prefix_count e (e.cursor - 1) (drop (byte_of (u.graphemes e.text) e.cursor) e.text)
            (omega (arith, s.cursor_bound));
      index_bound = λ i q. ground arith;
      no_draft = λ q. refl;
    })
  ]

  delete-IsSound : (e : InputEditor) → IsSound u e → IsSound u (delete u e)
  unfolding delete
  delete-IsSound e s = elim (Bool-cases (e.cursor == grapheme_count u e.text)) [
    | inl y ↦ rw y s
    | inr n ↦ rw n (record {
      cursor_bound =
          prefix_count e e.cursor (drop (byte_of (u.graphemes e.text) (suc e.cursor)) e.text)
            s.cursor_bound;
      index_bound = λ i q. ground arith;
      no_draft = λ q. refl;
    })
  ]

  -- The moves of the cursor change nothing else.
  moved-IsSound :
      (e : InputEditor) (c : ℕ)
      → IsSound u e
      → c ≤ grapheme_count u e.text
      → IsSound u (record e { cursor = c })
  moved-IsSound e c s h = record {
    cursor_bound = h;
    index_bound = s.index_bound;
    no_draft = s.no_draft;
  }

  move_up-IsSound : (e : InputEditor) → IsSound u e → IsSound u (move_up u e)
  unfolding move_up
  move_up-IsSound e s = elim (Bool-cases (line_start (u.graphemes e.text) e.cursor == 0)) [
    | inl y ↦ rw y s
    | inr n ↦ rw n (moved-IsSound e _ s (up-le (u.graphemes e.text) e.cursor s.cursor_bound))
  ]
    where
      up-le :
          (gs : List Text) (c : ℕ)
          → c ≤ length gs
          → line_start gs (line_start gs c - 1)
              + min
                  (c - line_start gs c)
                  (line_start gs c - 1 - line_start gs (line_start gs c - 1))
            ≤ length gs
      up-le gs c h = omega (arith, h, line_start-le gs c, line_start-le gs (line_start gs c - 1))

  move_down-IsSound : (e : InputEditor) → IsSound u e → IsSound u (move_down u e)
  unfolding move_down
  move_down-IsSound e s =
      elim (Bool-cases (line_end (u.graphemes e.text) e.cursor == length (u.graphemes e.text))) [
        | inl y ↦ rw y s
        | inr n ↦
            rw n (moved-IsSound e _ s (down-le (u.graphemes e.text) e.cursor s.cursor_bound n))
      ]
    where
      down-le :
          (gs : List Text) (c : ℕ)
          → c ≤ length gs
          → (line_end gs c == length gs) ≡ false
          → suc (line_end gs c)
              + min (c - line_start gs c) (line_end gs (suc (line_end gs c)) - suc (line_end gs c))
            ≤ length gs
      down-le gs c h n =
          let d = line_end-le gs c h in
          let k = below (line_end gs c) (length gs) d n in
          omega (arith, k, line_end-le gs (suc (line_end gs c)) k)

  select_history-IsSound :
      (index : ℕ) (e : InputEditor) {e' : InputEditor}
      → select_history u index e ≡ some e'
      → IsSound u e'
  unfolding select_history
  select_history-IsSound index e h = elim (Option-cases (get_elem? e.history index)) [
    | inl n ↦ ground (arith, n)
    | inr (t, q) ↦ record {
      cursor_bound = ground (arith, q);
      index_bound = λ i r. ground (arith, q, get_elem?-lt e.history index q);
      no_draft = λ r. ground (arith, q);
    }
  ]

  history_previous-IsSound :
      (e : InputEditor) {e' : InputEditor}
      → IsSound u e
      → history_previous u e ≡ some e'
      → IsSound u e'
  unfolding history_previous
  history_previous-IsSound e {e'} s h = elim (Bool-cases (length e.history == 0)) [
    | inl y ↦ rw (unchanged y) at s
    | inr n ↦ elim (Option-cases e.history_index) [
      | inl q ↦
          select_history-IsSound (length e.history - 1) (record e { history_draft = some e.text })
            (ground (arith, n, q))
      | inr (i, q) ↦ select_history-IsSound (i - 1) e (ground (arith, n, q))
    ]
  ]
    where
      unchanged : (length e.history == 0) ≡ true → e ≡ e'
      unchanged y = ground (arith, y)

  history_next-IsSound :
      (e : InputEditor) {e' : InputEditor} → IsSound u e → history_next u e ≡ some e' → IsSound u e'
  unfolding history_next
  history_next-IsSound e {e'} s h = elim (Option-cases e.history_index) [
    | inl q ↦ rw (unchanged q) at s
    | inr (i, q) ↦ elim (Bool-cases (ltb (suc i) (length e.history))) [
      | inl y ↦ select_history-IsSound (suc i) e (ground (arith, q, y))
      | inr n ↦ record {
        cursor_bound = ground (arith, q, n);
        index_bound = λ j r. ground (arith, q, n);
        no_draft = λ r. ground (arith, q, n);
      }
    ]
  ]
    where
      unchanged : e.history_index ≡ none → e ≡ e'
      unchanged q = ground (arith, q)

  -- The history is never read out of range.
  pub history_previous-total : (e : InputEditor) → IsSound u e → history_previous u e ≢ none
  unfolding history_previous select_history
  history_previous-total e s h = elim (Option-cases e.history_index) [
    | inl q ↦ ground (arith, q, get_elem?-within e.history (length e.history - 1))
    | inr (i, q) ↦ ground (arith, q, s.index_bound i q, get_elem?-within e.history (i - 1))
  ]

  pub history_next-total : (e : InputEditor) → IsSound u e → history_next u e ≢ none
  unfolding history_next select_history
  history_next-total e s h = elim (Option-cases e.history_index) [
    | inl q ↦ ground (arith, q)
    | inr (i, q) ↦ ground (arith, q, get_elem?-within e.history (suc i))
  ]

  -- One operation of the editor.
  pub data Step (e : InputEditor) : InputEditor → Type 0 where
    inserted : (value : Text) {e' : InputEditor} → insert u value e ≡ ok e' → Step e e'
    placed : (cursor : ℕ) → Step e (set_cursor u cursor e)
    left : Step e (move_left u e)
    right : Step e (move_right u e)
    home : Step e (move_home u e)
    end_of_line : Step e (move_end u e)
    up : Step e (move_up u e)
    down : Step e (move_down u e)
    erased : Step e (backspace u e)
    deleted : Step e (delete u e)
    previous : {e' : InputEditor} → history_previous u e ≡ some e' → Step e e'
    next : {e' : InputEditor} → history_next u e ≡ some e' → Step e e'
    submitted : Step e (submit u e).0
    restored : (text : Text) → Step e (restore_failed_submission u text e)

  pub data Reachable : InputEditor → Type 0 where
    start : Reachable empty_editor
    opened : (text : Text) {e : InputEditor} → with_text u text ≡ ok e → Reachable e
    step : {e e' : InputEditor} → Reachable e → Step e e' → Reachable e'

  pub Step-IsSound : {e e' : InputEditor} → Step e e' → IsSound u e → IsSound u e'
  unfolding set_cursor move_left move_right move_home move_end submit restore_failed_submission
  Step-IsSound {e = e} (inserted value h) s = insert-IsSound value e h
  Step-IsSound {e = e} (placed c) s =
      moved-IsSound e (min c (grapheme_count u e.text)) s (omega arith)
  Step-IsSound {e = e} left s = moved-IsSound e (e.cursor - 1) s (omega (arith, s.cursor_bound))
  Step-IsSound {e = e} right s = moved-IsSound e _ s (omega arith)
  Step-IsSound {e = e} home s = moved-IsSound e _ s (line_start-le (u.graphemes e.text) e.cursor).1
  Step-IsSound {e = e} end_of_line s =
      moved-IsSound e _ s (line_end-le (u.graphemes e.text) e.cursor s.cursor_bound)
  Step-IsSound {e = e} up s = move_up-IsSound e s
  Step-IsSound {e = e} down s = move_down-IsSound e s
  Step-IsSound {e = e} erased s = backspace-IsSound e s
  Step-IsSound {e = e} deleted s = delete-IsSound e s
  Step-IsSound {e = e} (previous h) s = history_previous-IsSound e s h
  Step-IsSound {e = e} (next h) s = history_next-IsSound e s h
  Step-IsSound {e = e} submitted s = elim (Bool-cases (u.is_blank e.text)) [
    | inl y ↦ rw y s
    | inr n ↦ rw n (record {
      cursor_bound = omega arith;
      index_bound = λ i q. ground arith;
      no_draft = λ q. refl;
    })
  ]
  Step-IsSound {e = e} (restored text) s = record {
    cursor_bound = omega arith;
    index_bound = λ i q. ground arith;
    no_draft = λ q. refl;
  }

  pub Reachable-IsSound : {e : InputEditor} → Reachable e → IsSound u e
  unfolding with_text
  Reachable-IsSound start = record {
    cursor_bound = omega arith;
    index_bound = λ i q. ground arith;
    no_draft = λ q. refl;
  }
  Reachable-IsSound (opened text h) = record {
    cursor_bound = ground arith;
    index_bound = λ i q. ground arith;
    no_draft = λ q. ground arith;
  }
  Reachable-IsSound (step r t) = Step-IsSound t (Reachable-IsSound r)

  -- In every editor that is reached from a new one by any of its operations, over graphemes with the
  -- laws of `Segmentation`, the cursor is within the text, and neither step in the history reads it
  -- out of range.
  pub Reachable-safe :
      {e : InputEditor}
      → Reachable e
      → (e.cursor ≤ grapheme_count u e.text)
        × (history_previous u e ≢ none)
        × (history_next u e ≢ none)
  Reachable-safe {e = e} r =
      let s = Reachable-IsSound r in
      (s.cursor_bound, history_previous-total e s, history_next-total e s)
