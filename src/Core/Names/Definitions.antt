-- ===== src/Core/Names/Definitions.antt =====
-- What a definition identifier is made of.
use loreloom.Prelude.{
  ℕ, ◌≤◌, ◌≡◌, refl, Bool, true, ◌||◌, ◌∷◌, ◌++◌, arith, ◌==◌, ok, ◌>>=◌, Text, length,
  Option-cases, inl, inr, >>=-eq-ok, Result,
}
use loreloom.Core.Names.{
  all, is_ascii_lowercase, is_ascii_digit, split, all_segments, is_mod_segment, parse_mod_id,
  is_kind, is_local_key, definition_parts, check_definition, parse_definition_id, format_definition,
  new_definition_id, definition_mod_id, definition_kind, definition_local_key, split_once, is_ok,
  NameError,
}
use loreloom.Core.Names.Splitting.{
  Lacks, split_once-append, split_once_sound, all_segments-split, all-Lacks,
}

abbrev is_segment_byte : ℕ → Bool
is_segment_byte c = is_ascii_lowercase c || is_ascii_digit c || c == b'-'

is_mod_segment-bytes : (s : Text) → is_mod_segment s ≡ true → all is_segment_byte s ≡ true
unfolding is_mod_segment
is_mod_segment-bytes s e = ground arith

parse_mod_id-segments :
    (m m' : Text) → parse_mod_id m ≡ ok m' → all_segments is_mod_segment (split b'.' m) ≡ true
unfolding parse_mod_id
parse_mod_id-segments m m' e = ground arith

-- A valid mod identifier has no colon.
mod_id-Lacks : (m m' : Text) → parse_mod_id m ≡ ok m' → Lacks b':' m
mod_id-Lacks m m' e =
    let segments = parse_mod_id-segments m m' e in
    all-Lacks (λ c. is_segment_byte c || c == b'.') b':' m refl
      (all_segments-split is_segment_byte is_mod_segment b'.' m is_mod_segment-bytes segments)

definition_parts-format :
    (m k l : Text)
    → Lacks b':' m
    → Lacks b'/' k
    → definition_parts (format_definition m k l) ≡ ok (m, k, l)
unfolding definition_parts
definition_parts-format m k l hm hk =
    rw (split_once-append b':' m (k ++ b'/' ∷ l) hm, split_once-append b'/' k l hk)

check_definition-ok :
    (value : Text) (parts : Text × Text × Text) (d : Text)
    → check_definition value parts ≡ ok d
    → d ≡ value
unfolding check_definition
check_definition-ok value (m, k, l) d e = ground arith

-- An identifier that `new` makes of a valid mod identifier, a kind without `/` and a local key gives
-- back its three parts.
pub new_definition_id-parts :
    (m k l d : Text)
    → parse_mod_id m ≡ ok m
    → Lacks b'/' k
    → new_definition_id m k l ≡ ok d
    → (definition_mod_id d ≡ ok m) × (definition_kind d ≡ ok k) × (definition_local_key d ≡ ok l)
unfolding new_definition_id definition_mod_id definition_kind definition_local_key
new_definition_id-parts m k l d valid hk e =
    let hm = mod_id-Lacks m m valid in
    let parts = definition_parts-format m k l hm hk in
    let at = check_definition-ok (format_definition m k l) (m, k, l) d (rw parts at e) in
    (rw (at, split_once-append b':' m (k ++ b'/' ∷ l) hm) valid, rw (at, parts), rw (at, parts))

definition_parts_sound :
    (value m k l : Text) → definition_parts value ≡ ok (m, k, l) → value ≡ format_definition m k l
unfolding definition_parts
definition_parts_sound value m k l e = elim (Option-cases (split_once b':' value)) [
  | inl missing ↦ absurd (cc (rw missing at e))
  | inr ((a, rest), found) ↦
      let more = rw (found, ◌>>=◌) at e in
      elim (Option-cases (split_once b'/' rest)) [
        | inl missing ↦ absurd (cc (rw missing at more))
        | inr ((b, c), found') ↦
            let same : ◌≡◌ {A = Result NameError (Text × Text × Text)} (ok (a, b, c))
                (ok (m, k, l)) =
              rw found' at more in
            ground (
              arith,
              split_once_sound b':' value a rest found,
              split_once_sound b'/' rest b c found',
            )
      ]
]

parse_mod_id-of_ok : (m : Text) → is_ok (parse_mod_id m) ≡ true → parse_mod_id m ≡ ok m
unfolding parse_mod_id
parse_mod_id-of_ok m e = ground arith

check_definition_sound :
    (value m k l d : Text)
    → check_definition value (m, k, l) ≡ ok d
    → (length value ≤ 255)
      × (is_ok (parse_mod_id m) ≡ true)
      × (is_kind k ≡ true)
      × (is_local_key l ≡ true)
unfolding check_definition
check_definition_sound value m k l d e = ground arith

-- An identifier that `parse` accepts is returned as it is, has at most 255 bytes, and is a valid mod
-- identifier, a valid kind and a valid local key in the canonical format.
pub parse_definition_id_sound :
    (value d : Text)
    → parse_definition_id value ≡ ok d
    → (d ≡ value)
      × (length value ≤ 255)
      × (m : Text) × (k : Text) × (l : Text) × (value ≡ format_definition m k l)
      × (parse_mod_id m ≡ ok m)
      × (is_kind k ≡ true)
      × (is_local_key l ≡ true)
unfolding parse_definition_id
parse_definition_id_sound value d e =
    let ((m, k, l), parts, checked) =
      >>=-eq-ok (definition_parts value) (check_definition value) e in
    let (short, good, kind, key) = check_definition_sound value m k l d checked in
    (
      check_definition-ok value (m, k, l) d checked,
      short,
      m,
      k,
      l,
      definition_parts_sound value m k l parts,
      parse_mod_id-of_ok m good,
      kind,
      key,
    )
