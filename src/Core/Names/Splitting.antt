-- ===== src/Core/Names/Splitting.antt =====
-- What `split` and `split_once` find.
use loreloom.Prelude.{
  ℕ, ◌≡◌, refl, ap, Bool, true, false, ◌||◌, some, List, [], ◌∷◌, ◌++◌, arith, ◌==◌, ==_iff,
  Bool-cases, Option-cases, inl, inr, Text,
}
use loreloom.Core.Names.{all, split, split_once, all_segments, cons_head}

-- The byte does not stand in the text.
abbrev pub Lacks : ℕ → Text → Type 0
Lacks separator [] = Unit
Lacks separator (c ∷ cs) = ((c == separator) ≡ false) × Lacks separator cs

-- A text is split at the first separator.
pub split_once-append :
    (separator : ℕ) (xs ys : Text)
    → Lacks separator xs
    → split_once separator (xs ++ separator ∷ ys) ≡ some (xs, ys)
unfolding split_once
split_once-append separator [] ys h = ground (arith, ==_iff separator separator)
split_once-append separator (x ∷ xs) ys h = rw (h.0, split_once-append separator xs ys h.1)

-- What is found is a split of the text at a separator.
pub split_once_sound :
    (separator : ℕ) (value xs ys : Text)
    → split_once separator value ≡ some (xs, ys)
    → value ≡ xs ++ separator ∷ ys
unfolding split_once
split_once_sound separator [] xs ys e = cc
split_once_sound separator (c ∷ cs) xs ys e = elim (Bool-cases (c == separator)) [
  | inl here ↦ ground (arith, ==_iff c separator)
  | inr later ↦ elim (Option-cases (split_once separator cs)) [
    | inl missing ↦ ground arith
    | inr ((a, b), found) ↦ ground (arith, split_once_sound separator cs a b found)
  ]
]

all_segments_mono :
    (q r : Text → Bool) (ss : List Text)
    → ((s : Text) → q s ≡ true → r s ≡ true)
    → all_segments q ss ≡ true
    → all_segments r ss ≡ true
all_segments_mono q r [] h e = refl
all_segments_mono q r (s ∷ ss) h e = ground (arith, h s, all_segments_mono q r ss h)

all-cons_head :
    (p : ℕ → Bool) (c : ℕ) (ss : List Text)
    → all_segments (all p) (cons_head c ss) ≡ true
    → (p c ≡ true) × (all_segments (all p) ss ≡ true)
all-cons_head p c [] e = ground arith
all-cons_head p c (s ∷ ss) e = ground arith

-- If the bytes of every segment satisfy `p`, a byte of the text satisfies it or is a separator.
pub all-split :
    (p : ℕ → Bool) (separator : ℕ) (value : Text)
    → all_segments (all p) (split separator value) ≡ true
    → all (λ c. p c || c == separator) value ≡ true
unfolding split
all-split p separator [] e = refl
all-split p separator (c ∷ cs) e = elim (Bool-cases (c == separator)) [
  | inl here ↦ ground (arith, all-split p separator cs)
  | inr later ↦
      let rest : all_segments (all p) (cons_head c (split separator cs)) ≡ true = rw later at e in
      ground (arith, all-cons_head p c (split separator cs) rest, all-split p separator cs)
]

pub all_segments-split :
    (p : ℕ → Bool) (q : Text → Bool) (separator : ℕ) (value : Text)
    → ((s : Text) → q s ≡ true → all p s ≡ true)
    → all_segments q (split separator value) ≡ true
    → all (λ c. p c || c == separator) value ≡ true
all_segments-split p q separator value h e =
    all-split p separator value (all_segments_mono q (all p) (split separator value) h e)

-- A text whose bytes all satisfy a test that the byte fails lacks the byte.
pub all-Lacks :
    (p : ℕ → Bool) (separator : ℕ) (value : Text)
    → p separator ≡ false
    → all p value ≡ true
    → Lacks separator value
all-Lacks p separator [] h e = tt
all-Lacks p separator (c ∷ cs) h e =
    let here : p c ≡ true = ground arith in
    let rest : all p cs ≡ true = ground arith in
    elim (Bool-cases (c == separator)) [
      | inl same ↦ let at = (==_iff c separator).0 same in absurd (cc (ap p at))
      | inr differs ↦ (differs, all-Lacks p separator cs h rest)
    ]
