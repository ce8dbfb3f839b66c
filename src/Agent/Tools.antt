-- ===== src/Agent/Tools.antt =====
-- The helpers of crates/loreloom-agent/src/runner.rs that read tool results and responses. The JSON
-- library and the parser of event identifiers are parameters: `Json` has the accessors that the code
-- calls.
pub mod Reading
use mathlib.Core.List.{flatten}
use loreloom.Prelude.{
  ℕ, ◌+◌, ◌-◌, ◌/◌, ◌<◌, Bool, true, false, ◌&&◌, ◌||◌, not, Option, none, some, List, [], ◌∷◌,
  ◌++◌, ltb, leb, ◌==◌, if◌then◌else◌, length, Text, bytes,
}
use loreloom.Prelude.Words.{u64_max, saturating_add}

pub record Json : Type 1 where
  pub Value : Type 0
  pub field : Value → Text → Option Value
  pub as_str : Value → Option Text
  pub as_bool : Value → Option Bool
  pub as_array : Value → Option (List Value)
  -- `serde_json::from_value::<Revision>`
  pub as_revision : Value → Option ℕ
  -- `str::parse::<EventId>`
  pub parse_event : Text → Option ℕ

pub data Content (Value : Type 0) : Type 0 where
  json : Value → Content Value
  other : Content Value

pub record ToolResult (Value : Type 0) : Type 0 where
  pub call_id : Text
  pub content : List (Content Value)
  pub is_error : Bool

-- `byte.is_ascii_lowercase()`, `is_ascii_digit()`
abbrev pub is_lower : ℕ → Bool
is_lower c = leb b'a' c && leb c b'z'

abbrev pub is_digit : ℕ → Bool
is_digit c = leb b'0' c && leb c b'9'

abbrev pub is_code_byte : ℕ → Bool
is_code_byte c = is_lower c || is_digit c || c == b'_'

abbrev pub all_bytes : (ℕ → Bool) → Text → Bool
all_bytes p [] = true
all_bytes p (c ∷ cs) = p c && all_bytes p cs

-- The filter of `tool_error_code`.
unfoldable pub is_safe_code : Text → Bool
is_safe_code code = not (length code == 0) && leb (length code) 64 && all_bytes is_code_byte code

abbrev or_else {ℓ} : {A : Type ℓ} → Option A → Option A → Option A
or_else none b = b
or_else (some a) b = some a

-- `events.contains(&event)`
abbrev pub has_event : ℕ → List ℕ → Bool
has_event e [] = false
has_event e (f ∷ fs) = f == e || has_event e fs

unfoldable pub push_event : List ℕ → ℕ → List ℕ
push_event events event = if has_event event events then events else events ++ event ∷ []

abbrev pub and_then {ℓ} : {A B : Type ℓ} → Option A → (A → Option B) → Option B
and_then none f = none
and_then (some a) f = f a

module _ (j : Json) where
  open j use {Value, field, as_str, as_bool, as_array, as_revision, parse_event}

  raise_revision : ℕ → Option ℕ → ℕ
  raise_revision revision none = revision
  raise_revision revision (some r) = if ltb revision r then r else revision

  -- `advance_tool_revision`: the context's revision after the result.
  unfoldable pub advance_tool_revision : List (Content Value) → ℕ → ℕ
  unfolding raise_revision
  advance_tool_revision [] revision = revision
  advance_tool_revision (other ∷ rest) revision = advance_tool_revision rest revision
  advance_tool_revision (json value ∷ rest) revision =
      advance_tool_revision rest
        (raise_revision revision (and_then (field value (bytes "revision")) as_revision))

  safe_code : Option Text → Option Text
  safe_code none = none
  safe_code (some code) = if is_safe_code code then some code else none

  unfoldable pub tool_error_code : List (Content Value) → Option Text
  unfolding safe_code
  tool_error_code [] = none
  tool_error_code (other ∷ rest) = tool_error_code rest
  tool_error_code (json value ∷ rest) =
      or_else (safe_code (and_then (field value (bytes "code")) as_str)) (tool_error_code rest)

  abbrev is_true : Option Bool → Bool
  is_true none = false
  is_true (some b) = b

  unfoldable pub is_turn_barrier : List (Content Value) → Bool
  is_turn_barrier [] = false
  is_turn_barrier (other ∷ rest) = is_turn_barrier rest
  is_turn_barrier (json value ∷ rest) =
      is_true (and_then (field value (bytes "turn_barrier")) as_bool) || is_turn_barrier rest

  push_parsed : List ℕ → Option ℕ → List ℕ
  unfolding push_event
  push_parsed events none = events
  push_parsed events (some event) = push_event events event

  event_of : Value → Option ℕ
  event_of value = and_then (as_str value) parse_event

  push_all : List Value → List ℕ → List ℕ
  unfolding push_parsed event_of
  push_all [] events = events
  push_all (value ∷ rest) events = push_all rest (push_parsed events (event_of value))

  -- `event_ids` if it is an array, else `event_id`.
  collect_from : Value → List ℕ → Option (List Value) → List ℕ
  unfolding push_all
  collect_from value events (some committed) = push_all committed events
  collect_from value events none =
      push_parsed events (and_then (field value (bytes "event_id")) event_of)

  unfoldable pub collect_events : List (Content Value) → List ℕ → List ℕ
  unfolding collect_from
  collect_events [] events = events
  collect_events (other ∷ rest) events = collect_events rest events
  collect_events (json value ∷ rest) events =
      collect_events rest
        (collect_from value events (and_then (field value (bytes "event_ids")) as_array))

-- `estimate_request_tokens`, from the code points of the encoded request.
unfoldable pub count_chars : ℕ → ℕ → List ℕ → ℕ × ℕ
count_chars ascii non_ascii [] = (ascii, non_ascii)
count_chars ascii non_ascii (c ∷ cs) =
    count_chars (if ltb c 128 then saturating_add u64_max ascii 1 else ascii)
      (if ltb c 128 then non_ascii else saturating_add u64_max non_ascii 1) cs

-- `ascii.div_ceil(3)`
abbrev div_ceil : ℕ → ℕ → ℕ
div_ceil a b = (a + (b - 1)) / b

unfoldable pub estimate_tokens : List ℕ → ℕ
unfolding count_chars
estimate_tokens chars =
    let (ascii, non_ascii) = count_chars 0 0 chars in
    saturating_add u64_max (div_ceil ascii 3) non_ascii
