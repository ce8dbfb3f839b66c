-- ===== src/Agent/Budget.antt =====
-- crates/loreloom-agent/src/budget.rs: the limits of a turn and what it has used. A method that
-- changes the usage and may fail returns the usage beside its result: what was written before an
-- error stays written.
pub mod Limits
pub mod Strictest
use loreloom.Prelude.{
  ℕ, ◌+◌, ◌≤◌, Bool, true, false, ◌&&◌, ◌||◌, Option, none, some, List, [], ◌∷◌, min, ltb, leb,
  if◌then◌else◌, Result, ok, err,
}
use loreloom.Prelude.Words.{u32_max, u64_max, usize_max, saturating_add}

pub data BudgetReason : Type 0 where
  model_calls tool_calls input_tokens output_tokens total_tokens model_output_bytes : BudgetReason
  deadline missing_token_usage agent_turns orchestration_rounds : BudgetReason

pub record ResourceBudget : Type 0 where
  pub max_model_calls : ℕ
  pub max_tool_calls : ℕ
  pub max_input_tokens : ℕ
  pub max_output_tokens : ℕ
  pub max_total_tokens : ℕ
  pub max_model_output_bytes : ℕ
  pub max_elapsed_ms : ℕ
  pub require_reported_tokens : Bool

abbrev pub default_budget : ResourceBudget
default_budget = record {
  max_model_calls = 16;
  max_tool_calls = 64;
  max_input_tokens = 524_288;
  max_output_tokens = 32_768;
  max_total_tokens = 557_056;
  max_model_output_bytes = 1_048_576;
  max_elapsed_ms = 600_000;
  require_reported_tokens = false;
}

unfoldable pub min_budget : ResourceBudget → ResourceBudget → ResourceBudget
min_budget a b = record {
  max_model_calls = min a.max_model_calls b.max_model_calls;
  max_tool_calls = min a.max_tool_calls b.max_tool_calls;
  max_input_tokens = min a.max_input_tokens b.max_input_tokens;
  max_output_tokens = min a.max_output_tokens b.max_output_tokens;
  max_total_tokens = min a.max_total_tokens b.max_total_tokens;
  max_model_output_bytes = min a.max_model_output_bytes b.max_model_output_bytes;
  max_elapsed_ms = min a.max_elapsed_ms b.max_elapsed_ms;
  require_reported_tokens = a.require_reported_tokens || b.require_reported_tokens;
}

-- `values.reduce(Self::min)`
abbrev pub reduce_min : ResourceBudget → List ResourceBudget → ResourceBudget
reduce_min b [] = b
reduce_min b (c ∷ cs) = reduce_min (min_budget b c) cs

unfoldable pub strictest : List ResourceBudget → ResourceBudget
unfolding min_budget
strictest [] = default_budget
strictest (b ∷ bs) = reduce_min b bs

pub record ResourceUsage : Type 0 where
  pub model_calls : ℕ
  pub tool_calls : ℕ
  pub input_tokens : ℕ
  pub output_tokens : ℕ
  pub total_tokens : ℕ
  pub model_output_bytes : ℕ
  pub missing_token_reports : ℕ

abbrev pub no_usage : ResourceUsage
no_usage = record {
  model_calls = 0;
  tool_calls = 0;
  input_tokens = 0;
  output_tokens = 0;
  total_tokens = 0;
  model_output_bytes = 0;
  missing_token_reports = 0;
}

abbrev pub Outcome : Type 0
Outcome = Result BudgetReason (Unit {0})

abbrev pub sum_usage : ResourceUsage → ResourceUsage → ResourceUsage
sum_usage u other = record {
  model_calls = saturating_add u32_max u.model_calls other.model_calls;
  tool_calls = saturating_add u32_max u.tool_calls other.tool_calls;
  input_tokens = saturating_add u64_max u.input_tokens other.input_tokens;
  output_tokens = saturating_add u64_max u.output_tokens other.output_tokens;
  total_tokens = saturating_add u64_max u.total_tokens other.total_tokens;
  model_output_bytes = saturating_add usize_max u.model_output_bytes other.model_output_bytes;
  missing_token_reports =
      saturating_add u32_max u.missing_token_reports other.missing_token_reports;
}

-- The checks at the end of `merge`, in their order.
unfoldable pub check_usage : ResourceUsage → ResourceBudget → Outcome
check_usage u b =
    if ltb b.max_model_calls u.model_calls
    then err model_calls
    else if ltb b.max_tool_calls u.tool_calls
    then err tool_calls
    else if ltb b.max_input_tokens u.input_tokens
    then err input_tokens
    else if ltb b.max_output_tokens u.output_tokens
    then err output_tokens
    else if ltb b.max_total_tokens u.total_tokens
    then err total_tokens
    else if ltb b.max_model_output_bytes u.model_output_bytes
    then err model_output_bytes
    else if b.require_reported_tokens && ltb 0 u.missing_token_reports
    then err missing_token_usage
    else ok tt

unfoldable pub merge : ResourceUsage → ResourceUsage → ResourceBudget → Outcome × ResourceUsage
unfolding check_usage
merge u other b = let u' = sum_usage u other in (check_usage u' b, u')

abbrev pub past_deadline : ResourceBudget → ℕ → Bool
past_deadline b elapsed_ms = ltb b.max_elapsed_ms elapsed_ms

unfoldable pub before_model : ResourceUsage → ResourceBudget → ℕ → Outcome × ResourceUsage
before_model u b elapsed_ms =
    if past_deadline b elapsed_ms
    then (err deadline, u)
    else if leb b.max_model_calls u.model_calls
    then (err model_calls, u)
    else (ok tt, record u { model_calls = u.model_calls + 1 })

unfoldable pub before_tool : ResourceUsage → ResourceBudget → ℕ → Outcome × ResourceUsage
before_tool u b elapsed_ms =
    if past_deadline b elapsed_ms
    then (err deadline, u)
    else if leb b.max_tool_calls u.tool_calls
    then (err tool_calls, u)
    else (ok tt, record u { tool_calls = u.tool_calls + 1 })

-- The token counts that a provider may report with a response.
pub record TokenUsage : Type 0 where
  pub input_tokens : Option ℕ
  pub output_tokens : Option ℕ
  pub total_tokens : Option ℕ

abbrev pub or_zero : Option ℕ → ℕ
or_zero none = 0
or_zero (some n) = n

abbrev total_of : Option ℕ → Option ℕ → Option ℕ → ℕ
total_of (some n) i o = n
total_of none i o = saturating_add u64_max (or_zero i) (or_zero o)

abbrev pub count_tokens : ResourceUsage → TokenUsage → ResourceUsage
count_tokens u t = record u {
  input_tokens = saturating_add u64_max u.input_tokens (or_zero t.input_tokens);
  output_tokens = saturating_add u64_max u.output_tokens (or_zero t.output_tokens);
  total_tokens =
      saturating_add u64_max u.total_tokens
        (total_of t.total_tokens t.input_tokens t.output_tokens);
}

-- What follows `let Some(usage) = &response.usage`.
unfoldable pub account :
    ResourceUsage → ResourceBudget → Option TokenUsage → Outcome × ResourceUsage
account u b none =
    let u' = record u {
      missing_token_reports = saturating_add u32_max u.missing_token_reports 1;
    } in
    (if b.require_reported_tokens then err missing_token_usage else ok tt, u')
account u b (some t) =
    let u' = count_tokens u t in
    (
      if ltb b.max_input_tokens u'.input_tokens
          then err input_tokens
          else if ltb b.max_output_tokens u'.output_tokens
          then err output_tokens
          else if ltb b.max_total_tokens u'.total_tokens
          then err total_tokens
          else ok tt,
      u',
    )

unfoldable pub after_response :
    ResourceUsage → ResourceBudget → Option TokenUsage → ℕ → ℕ → Outcome × ResourceUsage
unfolding account
after_response u b usage output_bytes elapsed_ms =
    if past_deadline b elapsed_ms
    then (err deadline, u)
    else (let u' = record u {
      model_output_bytes = saturating_add usize_max u.model_output_bytes output_bytes;
    } in
        if ltb b.max_model_output_bytes u'.model_output_bytes
        then (err model_output_bytes, u')
        else account u' b usage)
