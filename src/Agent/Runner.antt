-- ===== src/Agent/Runner.antt =====
-- crates/loreloom-agent/src/runner.rs: the loop of one model turn, whose state is in Agent/Turn. An early
-- `return` of the loop is the error of a `Result`.
pub mod Keeps
pub mod Safety
pub mod Termination
use loreloom.Agent.Turn.{
  FailureStage, projection, provider, completed, cancelled, budget_exhausted, failed, TurnStatus,
  ToolCallOutcome, started, finished, Diagnostic, request_encoding, from_bridge_error, has_name,
  ToolContext, Request, text, other_content, AssistantContent, Completion, responded, refused,
  cancelled_first, Provider, Turn, TurnOutcome, Step, outcome, failure_outcome,
}
use loreloom.Prelude.{
  ℕ, zero, suc, ◌+◌, ◌-◌, Bool, true, false, ◌&&◌, not, Option, none, some, List, [], ◌∷◌, ◌++◌,
  min, ltb, ◌==◌, if◌then◌else◌, length, Text, bytes, text_beq, Result, ok, err, ◌>>=◌,
}
use loreloom.Agent.Budget.{
  BudgetReason, ResourceBudget, ResourceUsage, TokenUsage, Outcome, no_usage, before_model,
  before_tool, after_response,
}
use loreloom.Agent.Budget
use loreloom.Agent.Tools.{
  Json, Content, json, other, ToolResult, advance_tool_revision, tool_error_code, is_turn_barrier,
  collect_events, estimate_tokens,
}

module _ (p : Provider) where
  open p use {
    World, Message, Response, BridgeError, Call, reader, call_id, call_name, content,
    response_calls, response_usage, assistant_message, tool_message, code_json, encode,
    is_cancelled, elapsed_ms, project, complete, execute,
  }

  unfoldable pub check_cancelled : Turn p → Step p (Turn p)
  check_cancelled t =
      let (flag, w) = is_cancelled t.world in
      let t' = record t { world = w } in if flag then err (outcome p cancelled none t') else ok t'

  check_estimate : ℕ → Turn p → Option (List ℕ) → Step p (Turn p)
  check_estimate max_context_tokens t none = err (failure_outcome p projection request_encoding t)
  check_estimate max_context_tokens t (some chars) =
      if ltb max_context_tokens (estimate_tokens chars)
      then err (outcome p (budget_exhausted BudgetReason.input_tokens) none t)
      else ok t

  unfoldable pub check_context : ℕ → Turn p → Step p (Turn p)
  unfolding check_estimate
  check_context max_context_tokens t = check_estimate max_context_tokens t (encode t.request)

  -- The usage after a budgeted call, or the end of the turn.
  settle : Turn p → Outcome × ResourceUsage → Step p (Turn p)
  settle t (ok _, u) = ok (record t { usage = u })
  settle t (err reason, u) = err (outcome p (budget_exhausted reason) none (record t { usage = u }))

  unfoldable pub charge_model : ResourceBudget → Turn p → Step p (Turn p)
  unfolding settle
  charge_model b t =
      let (ms, w) = elapsed_ms t.world in
      settle (record t { world = w }) (before_model t.usage b ms)

  abbrev capped : Option ℕ → ℕ → ℕ
  capped none remaining = remaining
  capped (some n) remaining = min n remaining

  unfoldable pub cap_output : ResourceBudget → Turn p → Step p (Turn p)
  cap_output b t =
      let remaining = b.max_output_tokens - t.usage.output_tokens in
      if remaining == 0
      then err (outcome p (budget_exhausted BudgetReason.output_tokens) none t)
      else ok (record t {
        request = record t.request {
          max_output_tokens = some (capped t.request.max_output_tokens remaining);
        };
      })

  after_project : Turn p → Option BridgeError × World → Step p (Turn p)
  after_project t (none, w) = ok (record t { world = w })
  after_project t (some e, w) =
      err (failure_outcome p projection (from_bridge_error projection e) (record t { world = w }))

  unfoldable pub project_request : Turn p → Step p (Turn p)
  unfolding after_project
  project_request t = after_project t (project t.request t.world)

  after_complete : Turn p → Completion Response BridgeError × World → Step p (Response × Turn p)
  after_complete t (responded r, w) = ok (r, record t { world = w })
  after_complete t (refused e, w) =
      err (failure_outcome p provider (from_bridge_error provider e) (record t { world = w }))
  after_complete t (cancelled_first, w) = err (outcome p cancelled none (record t { world = w }))

  unfoldable pub call_model : Turn p → Step p (Response × Turn p)
  unfolding after_complete
  call_model t = after_complete t (complete t.request t.world)

  abbrev pub response_text : List AssistantContent → Text
  response_text [] = []
  response_text (text s ∷ rest) = s ++ response_text rest
  response_text (other_content ∷ rest) = response_text rest

  unfoldable pub charge_response : ResourceBudget → Response → Turn p → Step p (Turn p)
  unfolding settle
  charge_response b r t =
      let (ms, w) = elapsed_ms t.world in
      settle (record t { world = w })
        (after_response t.usage b (response_usage r) (length (response_text (content r))) ms)

  unfoldable pub charge_tool : ResourceBudget → Turn p → Step p (Turn p)
  unfolding settle
  charge_tool b t =
      let (ms, w) = elapsed_ms t.world in settle (record t { world = w }) (before_tool t.usage b ms)

  error_result : Call → Text → ToolResult reader.Value
  error_result call code = record {
    call_id = call_id call;
    content = json (code_json code) ∷ [];
    is_error = true;
  }

  or_error : Call → Option (ToolResult reader.Value) → ToolResult reader.Value
  unfolding error_result
  or_error call (some result) = result
  or_error call none = error_result call (bytes "tool_execution_error")

  unfoldable pub execute_tool : List Text → Turn p → Call → ToolResult reader.Value × World
  unfolding or_error
  execute_tool offered_tools t call =
      if has_name (call_name call) offered_tools
      then (let (result, w) = execute t.tool_context call t.world in (or_error call result, w))
      else (error_result call (bytes "tool_not_offered"), t.world)

  -- What a result changes: the events and the revision where it is no error, the lists always.
  unfoldable pub record_result : Turn p → Call → ToolResult reader.Value → World → Turn p
  record_result t call result w =
      let call_outcome : ToolCallOutcome = record {
        call_id = call_id call;
        name = call_name call;
        is_error = result.is_error;
        error_code = if result.is_error then tool_error_code reader result.content else none;
      } in
      record t {
        request = record t.request { messages = t.request.messages ++ tool_message result ∷ [] };
        tool_context = record t.tool_context {
          revision =
              if result.is_error
              then t.tool_context.revision
              else advance_tool_revision reader result.content t.tool_context.revision;
        };
        tool_results = t.tool_results ++ result ∷ [];
        tool_calls = t.tool_calls ++ call_outcome ∷ [];
        committed_events =
            if result.is_error
            then t.committed_events
            else collect_events reader result.content t.committed_events;
        progress = t.progress ++ finished call_outcome ∷ [];
        world = w;
      }

  unfoldable pub finish_call : Turn p → Call → ToolResult reader.Value × World → Step p (Turn p)
  unfolding record_result
  finish_call t call (result, w) =
      let t' = record_result t call result w in
      if not result.is_error && is_turn_barrier reader result.content
      then err (outcome p completed none t')
      else ok t'

  abbrev announce : Turn p → Call → Turn p
  announce t call = record t {
    progress = t.progress ++ started (call_id call) (call_name call) ∷ [];
  }

  unfoldable pub run_call : ResourceBudget → List Text → Turn p → Call → Step p (Turn p)
  run_call b offered_tools t call = do
    t1 ← check_cancelled t
    t2 ← charge_tool b t1
    let t3 = announce t2 call
    finish_call t3 call (execute_tool offered_tools t3 call)

  unfoldable pub run_calls : ResourceBudget → List Text → List Call → Turn p → Step p (Turn p)
  run_calls b offered_tools [] t = ok t
  run_calls b offered_tools (call ∷ calls) t =
      run_call b offered_tools t call >>= λ t'. run_calls b offered_tools calls t'

  -- The tool calls of a response, or the end of the turn where it asks for none.
  unfoldable pub answer_turn :
      ResourceBudget → List Text → Response → List Call → Turn p → Step p (Turn p)
  answer_turn b offered_tools r [] t =
      err (outcome p completed (some (response_text (content r))) t)
  answer_turn b offered_tools r (call ∷ calls) t = run_calls b offered_tools (call ∷ calls) t

  abbrev push_response : Response → Turn p → Turn p
  push_response r t = record t {
    request = record t.request { messages = t.request.messages ++ assistant_message r ∷ [] };
  }

  -- One round of the loop.
  unfoldable pub run_round : ResourceBudget → ℕ → List Text → Turn p → Step p (Turn p)
  run_round b max_context_tokens offered_tools t = do
    t1 ← check_cancelled t
    t2 ← check_context max_context_tokens t1
    t3 ← charge_model b t2
    t4 ← cap_output b t3
    t5 ← project_request t4
    (r, t6) ← call_model t5
    t7 ← charge_response b r t6
    answer_turn b offered_tools r (response_calls r) (push_response r t7)

  -- `none` is no more fuel.
  unfoldable pub run_rounds : ℕ → ResourceBudget → ℕ → List Text → Turn p → Option (TurnOutcome p)
  run_rounds zero b max_context_tokens offered_tools t = none
  run_rounds (suc fuel) b max_context_tokens offered_tools t =
      elim (run_round b max_context_tokens offered_tools t) [
        | ok t' ↦ run_rounds fuel b max_context_tokens offered_tools t'
        | err o ↦ some o
      ]

  abbrev pub start : Request Message → ToolContext → World → Turn p
  start request tool_context w = record {
    request = request;
    tool_context = tool_context;
    usage = no_usage;
    tool_results = [];
    tool_calls = [];
    committed_events = [];
    progress = [];
    world = w;
  }

  -- `run_turn_with_progress`: each round counts one model call, so one round more than the budget
  -- has calls is enough fuel.
  unfoldable pub run_turn :
      Request Message → ToolContext → ResourceBudget → ℕ → World → Option (TurnOutcome p)
  run_turn request tool_context b max_context_tokens w =
      run_rounds (suc b.max_model_calls) b max_context_tokens request.tools
        (start request tool_context w)
