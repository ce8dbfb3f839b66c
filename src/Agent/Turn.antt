-- ===== src/Agent/Turn.antt =====
-- What a model turn of crates/loreloom-agent/src/runner.rs reads and changes. The provider, the tools,
-- the clock and the shared cancellation token answer through `Provider`, whose `World` is everything
-- outside: each question may change it. The local variables of the loop are the record `Turn`.
use loreloom.Prelude.{
  ℕ, Bool, true, false, Option, none, some, List, [], ◌∷◌, if◌then◌else◌, Text, text_beq, Result,
}
use loreloom.Agent.Budget.{BudgetReason, ResourceUsage, TokenUsage}
use loreloom.Agent.Tools.{Json, ToolResult}

pub record ToolContext : Type 0 where
  pub actor_id : ℕ
  pub revision : ℕ
  pub session_id : ℕ
  pub capabilities : List Text

pub record Request (Message : Type 0) : Type 0 where
  pub messages : List Message
  pub tools : List Text
  pub max_output_tokens : Option ℕ

-- `AssistantContent`
pub data AssistantContent : Type 0 where
  text : Text → AssistantContent
  other_content : AssistantContent

-- What `select` returns first: the response or error of the provider, or the cancellation.
pub data Completion (Response BridgeError : Type 0) : Type 0 where
  responded : Response → Completion Response BridgeError
  refused : BridgeError → Completion Response BridgeError
  cancelled_first : Completion Response BridgeError

pub record Provider : Type 1 where
  pub World : Type 0
  pub Message : Type 0
  pub Response : Type 0
  pub BridgeError : Type 0
  pub Call : Type 0
  pub reader : Json
  pub call_id : Call → Text
  pub call_name : Call → Text
  pub content : Response → List AssistantContent
  pub response_calls : Response → List Call
  pub response_usage : Response → Option TokenUsage
  pub assistant_message : Response → Message
  pub tool_message : ToolResult reader.Value → Message
  -- `json!({ "code": code })`
  pub code_json : Text → reader.Value
  -- The code points of `serde_json::to_string(request)`.
  pub encode : Request Message → Option (List ℕ)
  pub is_cancelled : World → Bool × World
  pub elapsed_ms : World → ℕ × World
  pub project : Request Message → World → Option BridgeError × World
  pub complete : Request Message → World → Completion Response BridgeError × World
  pub execute : ToolContext → Call → World → Option (ToolResult reader.Value) × World

pub data FailureStage : Type 0 where
  projection provider : FailureStage

pub data TurnStatus : Type 0 where
  completed cancelled : TurnStatus
  budget_exhausted : BudgetReason → TurnStatus
  failed : FailureStage → TurnStatus

pub record ToolCallOutcome : Type 0 where
  pub call_id : Text
  pub name : Text
  pub is_error : Bool
  pub error_code : Option Text

pub data ToolCallProgress : Type 0 where
  started : Text → Text → ToolCallProgress
  finished : ToolCallOutcome → ToolCallProgress

-- `ModelFailureDiagnostic`, of a request that cannot be encoded or of an error of the provider.
pub data Diagnostic (BridgeError : Type 0) : Type 0 where
  request_encoding : Diagnostic BridgeError
  from_bridge_error : FailureStage → BridgeError → Diagnostic BridgeError

abbrev pub has_name : Text → List Text → Bool
has_name name [] = false
has_name name (n ∷ ns) = if text_beq n name then true else has_name name ns

module _ (p : Provider) where
  open p use {
    World, Message, Response, BridgeError, Call, reader, call_id, call_name, content,
    response_calls, response_usage, assistant_message, tool_message, code_json, encode,
    is_cancelled, elapsed_ms, project, complete, execute,
  }

  pub record Turn : Type 0 where
    pub request : Request Message
    pub tool_context : ToolContext
    pub usage : ResourceUsage
    pub tool_results : List (ToolResult reader.Value)
    pub tool_calls : List ToolCallOutcome
    pub committed_events : List ℕ
    pub progress : List ToolCallProgress
    pub world : World

  pub record TurnOutcome : Type 0 where
    pub status : TurnStatus
    pub final_text : Option Text
    pub failure : Option (Diagnostic BridgeError)
    pub turn : Turn

  abbrev pub Step : Type 0 → Type 0
  Step A = Result TurnOutcome A

  abbrev pub outcome : TurnStatus → Option Text → Turn → TurnOutcome
  outcome status final_text t = record {
    status = status;
    final_text = final_text;
    failure = none;
    turn = t;
  }

  abbrev pub failure_outcome : FailureStage → Diagnostic BridgeError → Turn → TurnOutcome
  failure_outcome stage d t = record {
    status = failed stage;
    final_text = none;
    failure = some d;
    turn = t;
  }
