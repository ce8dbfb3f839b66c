-- ===== src/Tui/App/Layout.antt =====
-- `input_layout` of crates/loreloom-tui/src/render.rs: the rows of the input and where each place of the
-- cursor stands in them. The cells that a grapheme takes, `Line::width` of ratatui, are a parameter.
use loreloom.Prelude.{
  ℕ, zero, suc, ◌+◌, ◌-◌, ◌≡◌, ◌≢◌, ◌≤◌, ◌<◌, min, max, Bool, ◌&&◌, ◌||◌, not, none, List, [], ◌∷◌,
  ◌++◌, arith, ltb, leb, if◌then◌else◌, length, length-append, get_elem?, Text, text_beq, bytes,
  Bool-cases, inl, inr,
}
use loreloom.Tui.Editor.{Unicode, grapheme_count}

pub record InputLayout : Type 0 where
  pub rows : List Text
  pub positions : List (ℕ × ℕ)
  pub column : ℕ

abbrev is_line_break : Text → Bool
is_line_break g = text_beq g (10 ∷ []) || text_beq g (13 ∷ 10 ∷ []) || text_beq g (13 ∷ [])

-- `rows.last_mut().push_str(grapheme)`
abbrev push_last : Text → List Text → List Text
push_last g [] = []
push_last g (row ∷ []) = (row ++ g) ∷ []
push_last g (row ∷ next ∷ rest) = row ∷ push_last g (next ∷ rest)

module _ (cells : Text → ℕ) (width : ℕ) (indent : Text) where
  abbrev break_row : InputLayout → InputLayout
  break_row l = record l { rows = l.rows ++ indent ∷ []; column = length indent }

  abbrev mark : InputLayout → InputLayout
  mark l = record l {
    positions = l.positions ++ (min l.column (width - 1), length l.rows - 1) ∷ [];
  }

  abbrev write : Text → ℕ → InputLayout → InputLayout
  write g taken l = record l { rows = push_last g l.rows; column = l.column + taken }

  abbrev cells_of : Text → ℕ
  cells_of g = if is_line_break g then 0 else cells g

  -- The grapheme begins a new row.
  abbrev wraps : Text → InputLayout → Bool
  wraps g l = not (is_line_break g) && (ltb width (l.column + cells_of g) || leb width l.column)

  -- One round of the loop.
  unfoldable pub place_grapheme : Text → InputLayout → InputLayout
  place_grapheme g l =
      let marked = mark (if wraps g l then break_row l else l) in
      if is_line_break g then break_row marked else write g (cells_of g) marked

  abbrev place_all : List Text → InputLayout → InputLayout
  place_all [] l = l
  place_all (g ∷ gs) l = place_all gs (place_grapheme g l)

  place_grapheme-positions :
      (g : Text) (l : InputLayout)
      → length (place_grapheme g l).positions ≡ suc (length l.positions)
  unfolding place_grapheme
  place_grapheme-positions g l =
      let here = length-append {0} l.positions in
      elim (Bool-cases (wraps g l)) [
        | inl y ↦ elim (Bool-cases (is_line_break g)) [
          | inl b ↦ rw (y, b) (omega (arith, here))
          | inr b ↦ rw (y, b) (omega (arith, here))
        ]
        | inr y ↦ elim (Bool-cases (is_line_break g)) [
          | inl b ↦ rw (y, b) (omega (arith, here))
          | inr b ↦ rw (y, b) (omega (arith, here))
        ]
      ]

  place_all-positions :
      (gs : List Text) (l : InputLayout)
      → length (place_all gs l).positions ≡ length l.positions + length gs
  place_all-positions [] l = omega arith
  place_all-positions (g ∷ gs) l =
      omega (arith, place_all-positions gs (place_grapheme g l), place_grapheme-positions g l)

-- The prompt of the first row, in UTF-8.
abbrev prompt : Text
prompt = 226 ∷ 128 ∷ 186 ∷ 32 ∷ []

abbrev indent_of : ℕ → Text
indent_of width = if leb 4 width then bytes "  " else []

abbrev first_row : ℕ → Text
first_row width = if leb 4 width then prompt else []

unfoldable pub input_layout : Unicode → (Text → ℕ) → Text → ℕ → InputLayout
unfolding place_grapheme
input_layout u cells text width =
    let cols = max width 1 in
    place_all cells cols (indent_of cols) (u.graphemes text ++ [] ∷ [])
      (record { rows = first_row cols ∷ []; positions = []; column = length (indent_of cols) })

get_elem?-lt : {A : Type 0} (xs : List A) (i : ℕ) → i < length xs → get_elem? xs i ≢ none
get_elem?-lt [] i h = absurd (omega arith)
get_elem?-lt (x ∷ xs) zero h = λ e. ground arith
get_elem?-lt (x ∷ xs) (suc i) h = get_elem?-lt xs i (omega (arith, h))

-- The layout has a position for every place of the cursor.
pub input_layout-covers :
    (u : Unicode) (cells : Text → ℕ) (t : Text) (width c : ℕ)
    → c ≤ grapheme_count u t
    → get_elem? (input_layout u cells t width).positions c ≢ none
unfolding input_layout
input_layout-covers u cells t width c h =
    let cols = max width 1 in
    get_elem?-lt _ c (
      omega (
        arith,
        h,
        place_all-positions cells cols (indent_of cols) (u.graphemes t ++ [] ∷ []) (record {
          rows = first_row cols ∷ [];
          positions = [];
          column = length (indent_of cols);
        }),
        length-append {0} (u.graphemes t) ([] ∷ []),
      ))
