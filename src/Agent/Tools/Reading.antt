-- ===== src/Agent/Tools/Reading.antt =====
-- The readers of tool results of crates/loreloom-agent/src/runner.rs.
use loreloom.Prelude.{
  ℕ, ◌≤◌, ◌≡◌, refl, true, false, ◌||◌, Option, none, some, List, [], ◌∷◌, ◌++◌, arith, ◌==◌,
  ==_iff, length, Text, bytes, Bool-cases, inl, inr,
}
use loreloom.Agent.Tools.{
  Json, Content, json, other, has_event, push_event, collect_events, advance_tool_revision,
  tool_error_code, all_bytes, is_code_byte, is_safe_code, push_parsed, push_all, collect_from,
  event_of, raise_revision, and_then,
}

-- No event twice.
abbrev pub Unrepeated : List ℕ → Type 0
Unrepeated [] = Unit
Unrepeated (e ∷ es) = (has_event e es ≡ false) × Unrepeated es

has_event-append_one :
    (e f : ℕ) (es : List ℕ) → has_event e (es ++ f ∷ []) ≡ (has_event e es || (f == e))
has_event-append_one e f [] = ground arith
has_event-append_one e f (g ∷ es) = ground (arith, has_event-append_one e f es)

append_one-Unrepeated :
    (f : ℕ) (es : List ℕ) → has_event f es ≡ false → Unrepeated es → Unrepeated (es ++ f ∷ [])
append_one-Unrepeated f [] h u = (refl, tt)
append_one-Unrepeated f (e ∷ es) h u =
    ground (arith, has_event-append_one e f es, append_one-Unrepeated f es, ==_iff e f, ==_iff f e)

push_event-Unrepeated : (es : List ℕ) (e : ℕ) → Unrepeated es → Unrepeated (push_event es e)
unfolding push_event
push_event-Unrepeated es e u = elim (Bool-cases (has_event e es)) [
  | inl old ↦ rw old u
  | inr new ↦ rw new (append_one-Unrepeated e es new u)
]

module _ (j : Json) where
  open j use {Value, field, as_str, as_array, parse_event, as_revision}

  push_parsed-Unrepeated :
      (es : List ℕ) (o : Option ℕ) → Unrepeated es → Unrepeated (push_parsed j es o)
  unfolding push_parsed
  push_parsed-Unrepeated es none u = u
  push_parsed-Unrepeated es (some e) u = push_event-Unrepeated es e u

  push_all-Unrepeated :
      (vs : List Value) (es : List ℕ) → Unrepeated es → Unrepeated (push_all j vs es)
  unfolding push_all
  push_all-Unrepeated [] es u = u
  push_all-Unrepeated (v ∷ vs) es u =
      push_all-Unrepeated vs _ (push_parsed-Unrepeated es (event_of j v) u)

  collect_from-Unrepeated :
      (v : Value) (es : List ℕ) (o : Option (List Value))
      → Unrepeated es
      → Unrepeated (collect_from j v es o)
  unfolding collect_from
  collect_from-Unrepeated v es (some vs) u = push_all-Unrepeated vs es u
  collect_from-Unrepeated v es none u = push_parsed-Unrepeated es _ u

  -- Collecting the events of a tool result into a list that holds no event twice gives a list that
  -- holds no event twice.
  pub collect_events-Unrepeated :
      (cs : List (Content Value)) (es : List ℕ)
      → Unrepeated es
      → Unrepeated (collect_events j cs es)
  unfolding collect_events
  collect_events-Unrepeated [] es u = u
  collect_events-Unrepeated (other ∷ cs) es u = collect_events-Unrepeated cs es u
  collect_events-Unrepeated (json v ∷ cs) es u =
      collect_events-Unrepeated cs _
        (collect_from-Unrepeated v es (and_then (field v (bytes "event_ids")) as_array) u)

  raise_revision-le : (r : ℕ) (o : Option ℕ) → r ≤ raise_revision j r o
  unfolding raise_revision
  raise_revision-le r none = omega arith
  raise_revision-le r (some n) = ground arith

  -- A tool result never takes the revision of the tool context back.
  pub advance_tool_revision-le :
      (cs : List (Content Value)) (r : ℕ) → r ≤ advance_tool_revision j cs r
  unfolding advance_tool_revision
  advance_tool_revision-le [] r = omega arith
  advance_tool_revision-le (other ∷ cs) r = advance_tool_revision-le cs r
  advance_tool_revision-le (json v ∷ cs) r =
      let raised = and_then (field v (bytes "revision")) as_revision in
      omega
        (arith, raise_revision-le r raised, advance_tool_revision-le cs (raise_revision j r raised))

  -- An error code that is passed on has 1 to 64 bytes, each a lowercase letter, a digit or `_`.
  pub tool_error_code-safe :
      (cs : List (Content Value)) (code : Text)
      → tool_error_code j cs ≡ some code
      → (1 ≤ length code) × (length code ≤ 64) × (all_bytes is_code_byte code ≡ true)
  unfolding tool_error_code is_safe_code
  tool_error_code-safe [] code e = cc
  tool_error_code-safe (other ∷ cs) code e = tool_error_code-safe cs code e
  tool_error_code-safe (json v ∷ cs) code e = ground (arith, tool_error_code-safe cs code)
