-- ===== src/Agent/Budget/Limits.antt =====
-- The usage of crates/loreloom-agent/src/budget.rs against the limits of the budget.
use loreloom.Prelude.{ℕ, ◌+◌, min, ◌≤◌, ◌<◌, ◌≡◌, ◌↔◌, true, Option, none, some, arith, ok}
use loreloom.Prelude.Words.{u32_max, u64_max, usize_max, saturating_add}
use loreloom.Agent.Budget.{
  ResourceBudget, ResourceUsage, TokenUsage, check_usage, merge, before_model, before_tool,
  after_response, sum_usage, or_zero,
}

-- The usage respects every limit of the budget.
pub record IsWithin (u : ResourceUsage) (b : ResourceBudget) : Type 0 where
  pub model_calls : u.model_calls ≤ b.max_model_calls
  pub tool_calls : u.tool_calls ≤ b.max_tool_calls
  pub input_tokens : u.input_tokens ≤ b.max_input_tokens
  pub output_tokens : u.output_tokens ≤ b.max_output_tokens
  pub total_tokens : u.total_tokens ≤ b.max_total_tokens
  pub model_output_bytes : u.model_output_bytes ≤ b.max_model_output_bytes

-- The calls that a turn makes are counted one by one, and never pass their limits, also where the
-- call is refused.
pub record CallsWithin (u : ResourceUsage) (b : ResourceBudget) : Type 0 where
  pub model_calls : u.model_calls ≤ b.max_model_calls
  pub tool_calls : u.tool_calls ≤ b.max_tool_calls

pub before_model-CallsWithin :
    (u : ResourceUsage) (b : ResourceBudget) (ms : ℕ)
    → CallsWithin u b
    → CallsWithin (before_model u b ms).1 b
unfolding before_model
before_model-CallsWithin u b ms h = ground arith

pub before_tool-CallsWithin :
    (u : ResourceUsage) (b : ResourceBudget) (ms : ℕ)
    → CallsWithin u b
    → CallsWithin (before_tool u b ms).1 b
unfolding before_tool
before_tool-CallsWithin u b ms h = ground arith

pub after_response-CallsWithin :
    (u : ResourceUsage) (b : ResourceBudget) (t : Option TokenUsage) (n ms : ℕ)
    → CallsWithin u b
    → CallsWithin (after_response u b t n ms).1 b
unfolding after_response
after_response-CallsWithin u b none n ms h = ground arith
after_response-CallsWithin u b (some t) n ms h = ground arith

-- What a provider says of the tokens in all, or the sum of what it says of both kinds.
abbrev pub said_total : TokenUsage → ℕ
said_total t = elim t.total_tokens [
  | none ↦ or_zero t.input_tokens + or_zero t.output_tokens
  | some n ↦ n
]

-- The usage with a response of `n` bytes, without the limits of machine words.
abbrev pub with_response : ResourceUsage → Option TokenUsage → ℕ → ResourceUsage
with_response u none n = record u {
  model_output_bytes = u.model_output_bytes + n;
  missing_token_reports = u.missing_token_reports + 1;
}
with_response u (some t) n = record u {
  model_output_bytes = u.model_output_bytes + n;
  input_tokens = u.input_tokens + or_zero t.input_tokens;
  output_tokens = u.output_tokens + or_zero t.output_tokens;
  total_tokens = u.total_tokens + said_total t;
}

-- The limits are below the largest machine words, so that a saturated sum is beyond the limit.
pub record IsRoomy (b : ResourceBudget) : Type 0 where
  pub model_calls : b.max_model_calls < u32_max
  pub tool_calls : b.max_tool_calls < u32_max
  pub input_tokens : b.max_input_tokens < u64_max
  pub output_tokens : b.max_output_tokens < u64_max
  pub total_tokens : b.max_total_tokens < u64_max
  pub model_output_bytes : b.max_model_output_bytes < usize_max

-- The usage passes every check of `merge`.
pub record Accepts (u : ResourceUsage) (b : ResourceBudget) : Type 0 where
  pub within : IsWithin u b
  pub reported : b.require_reported_tokens ≡ true → u.missing_token_reports ≡ 0

check_usage-Accepts :
    (u : ResourceUsage) (b : ResourceBudget) → check_usage u b ≡ ok tt → Accepts u b
unfolding check_usage
check_usage-Accepts u b e = ground arith

Accepts-check_usage :
    (u : ResourceUsage) (b : ResourceBudget) → Accepts u b → check_usage u b ≡ ok tt
unfolding check_usage
Accepts-check_usage u b h = ground arith

pub merge-Accepts :
    (u other : ResourceUsage) (b : ResourceBudget)
    → ((merge u other b).0 ≡ ok tt) ↔ Accepts (sum_usage u other) b
unfolding merge
merge-Accepts u other b =
    (check_usage-Accepts (sum_usage u other) b, Accepts-check_usage (sum_usage u other) b)

-- The sums of two usages, without the limits of machine words.
abbrev pub both : ResourceUsage → ResourceUsage → ResourceUsage
both u other = record {
  model_calls = u.model_calls + other.model_calls;
  tool_calls = u.tool_calls + other.tool_calls;
  input_tokens = u.input_tokens + other.input_tokens;
  output_tokens = u.output_tokens + other.output_tokens;
  total_tokens = u.total_tokens + other.total_tokens;
  model_output_bytes = u.model_output_bytes + other.model_output_bytes;
  missing_token_reports = u.missing_token_reports + other.missing_token_reports;
}

-- What machine words hold of a usage.
abbrev pub in_words : ResourceUsage → ResourceUsage
in_words u = record {
  model_calls = min u.model_calls u32_max;
  tool_calls = min u.tool_calls u32_max;
  input_tokens = min u.input_tokens u64_max;
  output_tokens = min u.output_tokens u64_max;
  total_tokens = min u.total_tokens u64_max;
  model_output_bytes = min u.model_output_bytes usize_max;
  missing_token_reports = min u.missing_token_reports u32_max;
}

saturating_add-min : (top a b : ℕ) → saturating_add top a b ≡ min (a + b) top
saturating_add-min top a b = ground arith

sum_usage-in_words : (u other : ResourceUsage) → sum_usage u other ≡ in_words (both u other)
sum_usage-in_words u other = λ i. record {
  model_calls = saturating_add-min u32_max u.model_calls other.model_calls i;
  tool_calls = saturating_add-min u32_max u.tool_calls other.tool_calls i;
  input_tokens = saturating_add-min u64_max u.input_tokens other.input_tokens i;
  output_tokens = saturating_add-min u64_max u.output_tokens other.output_tokens i;
  total_tokens = saturating_add-min u64_max u.total_tokens other.total_tokens i;
  model_output_bytes = saturating_add-min usize_max u.model_output_bytes other.model_output_bytes i;
  missing_token_reports =
      saturating_add-min u32_max u.missing_token_reports other.missing_token_reports i;
}

in_words-Accepts :
    (u : ResourceUsage) (b : ResourceBudget) → IsRoomy b → Accepts (in_words u) b ↔ Accepts u b
in_words-Accepts u b roomy = (λ h. ground arith, λ h. ground arith)

-- Under limits below the largest machine words, `merge` accepts exactly where the true sums of both
-- usages respect every limit and, if reports are required, no report is missing; and whether it
-- accepts or not, it leaves each true sum, or the largest machine word where the sum is larger.
pub merge-ok_iff :
    (u other : ResourceUsage) (b : ResourceBudget)
    → IsRoomy b
    → (((merge u other b).0 ≡ ok tt) ↔ Accepts (both u other) b)
      × ((merge u other b).1 ≡ in_words (both u other))
unfolding merge
merge-ok_iff u other b roomy =
    let (down, up) = in_words-Accepts (both u other) b roomy in
    let (sound, complete) = merge-Accepts u other b in
    let same = sum_usage-in_words u other in
    ((λ e. down (rw (← same) (sound e)), λ h. complete (rw same (up h))), same)
