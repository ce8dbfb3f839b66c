-- ===== src/Core/Names.antt =====
-- Validated names: `RecordType` and `RecordId` of crates/loreloom-core/src/record.rs, `ModId` and
-- `ContentDefinitionId` of identity.rs. A name is the list of its bytes, and `str::split` and
-- `split_once` at an ASCII character are those of Rust's standard library.
pub mod Splitting
pub mod Definitions
use loreloom.Prelude.{
  ℕ, ◌+◌, Bool, true, false, ◌&&◌, ◌||◌, not, Option, none, some, List, [], ◌∷◌, ◌++◌, ltb, leb,
  ◌==◌, if◌then◌else◌, length, Result, ok, err, ◌>>=◌, ◌>>◌, ok_or, map_err, Text, text_beq, bytes,
}

abbrev pub all : (ℕ → Bool) → List ℕ → Bool
all p [] = true
all p (c ∷ cs) = p c && all p cs

abbrev pub is_ascii_lowercase : ℕ → Bool
is_ascii_lowercase c = leb b'a' c && leb c b'z'

abbrev pub is_ascii_digit : ℕ → Bool
is_ascii_digit c = leb b'0' c && leb c b'9'

abbrev is_ascii_uppercase : ℕ → Bool
is_ascii_uppercase c = leb b'A' c && leb c b'Z'

abbrev is_ascii_alphanumeric : ℕ → Bool
is_ascii_alphanumeric c = is_ascii_lowercase c || is_ascii_uppercase c || is_ascii_digit c

abbrev is_ascii : ℕ → Bool
is_ascii c = ltb c 128

-- `first().is_some_and(p)` and `last().is_some_and(p)`
abbrev first_is : (ℕ → Bool) → Text → Bool
first_is p [] = false
first_is p (c ∷ cs) = p c

abbrev last_is : (ℕ → Bool) → Text → Bool
last_is p [] = false
last_is p (c ∷ []) = p c
last_is p (c ∷ d ∷ cs) = last_is p (d ∷ cs)

abbrev pub non_empty : Text → Bool
non_empty [] = false
non_empty (c ∷ cs) = true

-- `value.contains("__")`
abbrev has_double_underscore : Text → Bool
has_double_underscore [] = false
has_double_underscore (c ∷ []) = false
has_double_underscore (c ∷ d ∷ cs) = (c == b'_' && d == b'_') || has_double_underscore (d ∷ cs)

abbrev is_word_byte : ℕ → Bool
is_word_byte c = is_ascii_lowercase c || is_ascii_digit c || c == b'_'

pub data NameError : Type 0 where
  invalid_record_type invalid_record_id invalid_mod_id invalid_content_definition_id : NameError

unfoldable pub parse_record_type : Text → Result NameError Text
parse_record_type value =
    let valid =
      non_empty value
      && leb (length value) 64
      && all is_ascii value
      && first_is is_ascii_lowercase value
      && last_is (λ c. is_ascii_lowercase c || is_ascii_digit c) value
      && all is_word_byte value in
    if not valid || has_double_underscore value then err invalid_record_type else ok value

abbrev is_id_byte : ℕ → Bool
is_id_byte c =
    is_ascii_lowercase c
    || is_ascii_digit c
    || c == b'_'
    || c == b'-'
    || c == b'.'
    || c == b':'
    || c == b'/'

unfoldable pub parse_record_id : Text → Result NameError Text
parse_record_id value =
    if non_empty value && leb (length value) 255 && all is_ascii value && all is_id_byte value
    then ok value
    else err invalid_record_id

abbrev cons_head : ℕ → List Text → List Text
cons_head c [] = (c ∷ []) ∷ []
cons_head c (s ∷ ss) = (c ∷ s) ∷ ss

-- `value.split(separator)`
unfoldable pub split : ℕ → Text → List Text
split separator [] = [] ∷ []
split separator (c ∷ cs) =
    let rest = split separator cs in if c == separator then [] ∷ rest else cons_head c rest

abbrev cons_first : ℕ → Option (Text × Text) → Option (Text × Text)
cons_first c none = none
cons_first c (some (a, b)) = some (c ∷ a, b)

-- `value.split_once(separator)`
unfoldable pub split_once : ℕ → Text → Option (Text × Text)
split_once separator [] = none
split_once separator (c ∷ cs) =
    let rest = split_once separator cs in
    if c == separator then some ([], cs) else cons_first c rest

abbrev all_segments : (Text → Bool) → List Text → Bool
all_segments p [] = true
all_segments p (s ∷ ss) = p s && all_segments p ss

abbrev count_segments : List Text → ℕ
count_segments = length

unfoldable pub is_mod_segment : Text → Bool
is_mod_segment segment =
    non_empty segment
    && leb (length segment) 63
    && first_is is_ascii_alphanumeric segment
    && last_is is_ascii_alphanumeric segment
    && all (λ c. is_ascii_lowercase c || is_ascii_digit c || c == b'-') segment

unfoldable pub parse_mod_id : Text → Result NameError Text
unfolding split is_mod_segment
parse_mod_id value =
    let segments = split b'.' value in
    if leb 3 (length value)
      && leb (length value) 127
      && all is_ascii value
      && leb 2 (count_segments segments)
      && all_segments is_mod_segment segments
    then ok value
    else err invalid_mod_id

unfoldable pub is_kind : Text → Bool
is_kind kind = non_empty kind && leb (length kind) 32 && all is_word_byte kind

unfoldable pub is_key_segment : Text → Bool
is_key_segment segment =
    non_empty segment
    && not (text_beq segment (bytes "."))
    && not (text_beq segment (bytes ".."))
    && leb (length segment) 64
    && all (λ c. is_ascii_lowercase c || is_ascii_digit c || c == b'-' || c == b'_') segment

unfoldable pub is_local_key : Text → Bool
unfolding split is_key_segment
is_local_key key =
    non_empty key && leb (length key) 128 && all_segments is_key_segment (split b'/' key)

abbrev is_ok : {A : Type 0} → Result NameError A → Bool
is_ok (ok _) = true
is_ok (err _) = false

-- The two splits of a definition identifier, before its parts are checked.
unfoldable pub definition_parts : Text → Result NameError (Text × Text × Text)
unfolding split_once
definition_parts value = do
  (mod_text, rest) ← ok_or (split_once b':' value) invalid_content_definition_id
  (kind, local_key) ← ok_or (split_once b'/' rest) invalid_content_definition_id
  ok (mod_text, kind, local_key)

unfoldable pub check_definition : Text → Text × Text × Text → Result NameError Text
unfolding parse_mod_id is_kind is_local_key
check_definition value (mod_text, kind, local_key) =
    if ltb 255 (length value)
      || not (all is_ascii value)
      || not (is_ok (parse_mod_id mod_text))
      || not (is_kind kind)
      || not (is_local_key local_key)
    then err invalid_content_definition_id
    else ok value

unfoldable pub parse_definition_id : Text → Result NameError Text
unfolding definition_parts check_definition
parse_definition_id value = definition_parts value >>= check_definition value

-- `format!("{mod_id}:{kind}/{local_key}")`
abbrev pub format_definition : Text → Text → Text → Text
format_definition mod_id kind local_key = mod_id ++ (b':' ∷ (kind ++ (b'/' ∷ local_key)))

unfoldable pub new_definition_id : Text → Text → Text → Result NameError Text
unfolding parse_definition_id
new_definition_id mod_id kind local_key =
    parse_definition_id (format_definition mod_id kind local_key)

unfoldable pub definition_mod_id : Text → Result NameError Text
unfolding split_once parse_mod_id
definition_mod_id value = do
  (mod_id, _) ← ok_or (split_once b':' value) invalid_content_definition_id
  parse_mod_id mod_id

unfoldable pub definition_kind : Text → Result NameError Text
unfolding definition_parts
definition_kind value = do (_, kind, _) ← definition_parts value; ok kind

unfoldable pub definition_local_key : Text → Result NameError Text
unfolding definition_parts
definition_local_key value = do (_, _, local_key) ← definition_parts value; ok local_key
