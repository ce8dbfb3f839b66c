-- ===== src/Tui/Editor/Places.antt =====
-- Places in a line of graphemes and in a list: bounds of lines, bytes and cursors.
use loreloom.Prelude.{
  ℕ, zero, suc, ◌+◌, min, ◌≡◌, ◌≢◌, ◌≤◌, ◌<◌, refl, ap, ◌∙◌, false, inl, inr, arith, none, some,
  Option-cases, List, [], ◌∷◌, ◌++◌, ◌==◌, length, length-take, length-drop, get_elem?, take, drop,
  Text,
}
use loreloom.Tui.Editor.{
  concat, after_newline, newline_offset, line_start, line_end, byte_of, cursor_from,
}

after_newline-le :
    (i found : ℕ) (gs : List Text) → found ≤ i → after_newline i found gs ≤ i + length gs
after_newline-le i found [] h = omega (arith, h)
after_newline-le i found (g ∷ gs) h =
    ground (arith, after_newline-le (suc i) (suc i) gs, after_newline-le (suc i) found gs)

pub line_start-le : (gs : List Text) (c : ℕ) → (line_start gs c ≤ c) × (line_start gs c ≤ length gs)
unfolding line_start
line_start-le gs c =
    let h = after_newline-le 0 0 (take (min c (length gs)) gs) (omega arith) in
    let k = length-take (min c (length gs)) gs in (omega (arith, h, k), omega (arith, h, k))

newline_offset-lt : (gs : List Text) (n : ℕ) → newline_offset gs ≡ some n → n < length gs
newline_offset-lt [] n h = ground arith
newline_offset-lt (g ∷ gs) n h = elim (Option-cases (newline_offset gs)) [
  | inl e ↦ ground (arith, e)
  | inr (m, e) ↦ ground (arith, e, newline_offset-lt gs m e)
]

pub line_end-le : (gs : List Text) (c : ℕ) → c ≤ length gs → line_end gs c ≤ length gs
unfolding line_end
line_end-le gs c h = elim (Option-cases (newline_offset (drop (min c (length gs)) gs))) [
  | inl e ↦ ground (arith, e)
  | inr (n, e) ↦ ground (
    arith,
    e,
    newline_offset-lt (drop (min c (length gs)) gs) n e,
    length-drop (min c (length gs)) gs,
  )
]

pub cursor_from-le : (start : ℕ) (gs : List Text) (b : ℕ) → cursor_from start gs b ≤ length gs
cursor_from-le start [] b = omega arith
cursor_from-le start (g ∷ gs) b = ground (arith, cursor_from-le (start + length g) gs b)

zero_add : (n : ℕ) → 0 + n ≡ n
zero_add n = omega arith

suc_add : (m n : ℕ) → suc m + n ≡ suc (m + n)
suc_add m n = omega arith

take-append : (xs ys : Text) (n : ℕ) → take (length xs + n) (xs ++ ys) ≡ xs ++ take n ys
take-append [] ys n = rw (zero_add n) refl
take-append (x ∷ xs) ys n =
    ap (λ m. take m (x ∷ (xs ++ ys))) (suc_add (length xs) n)
    ∙ ap (λ t. x ∷ t) (take-append xs ys n)

pub take-concat : (gs : List Text) (k : ℕ) → take (byte_of gs k) (concat gs) ≡ concat (take k gs)
take-concat [] zero = refl
take-concat [] (suc k) = refl
take-concat (g ∷ gs) zero = refl
take-concat (g ∷ gs) (suc k) =
    take-append g (concat gs) (byte_of gs k) ∙ ap (λ t. g ++ t) (take-concat gs k)

pub below : (a b : ℕ) → a ≤ b → (a == b) ≡ false → a < b
below a b h n = ground arith

pub get_elem?-lt : (ts : List Text) (i : ℕ) {t : Text} → get_elem? ts i ≡ some t → i < length ts
get_elem?-lt [] i h = ground arith
get_elem?-lt (x ∷ ts) zero h = omega arith
get_elem?-lt (x ∷ ts) (suc i) h = omega (arith, get_elem?-lt ts i h)

pub get_elem?-within : (ts : List Text) (i : ℕ) → i < length ts → get_elem? ts i ≢ none
get_elem?-within [] i h = ground arith
get_elem?-within (x ∷ ts) zero h = λ n. ground arith
get_elem?-within (x ∷ ts) (suc i) h = get_elem?-within ts i (omega (arith, h))
