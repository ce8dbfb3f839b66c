-- ===== src/Agent/Examples.antt =====
-- Runs of a turn, of the budget and of the readers on concrete values: a provider that asks for one
-- tool call in its first response and answers in its second.
use loreloom.Prelude.{
  ℕ, suc, ◌≡◌, ◌↔◌, refl, true, false, Option, none, some, [], ◌∷◌, arith, ok, bytes, Text,
  text_beq, if◌then◌else◌, ◌==◌,
}
use loreloom.Agent.Budget.{
  ResourceBudget, ResourceUsage, default_budget, no_usage, merge, strictest, TokenUsage,
}
use loreloom.Agent.Budget.Limits.{IsRoomy, Accepts, both, in_words, merge-ok_iff}
use loreloom.Agent.Budget.Strictest.{MergesUnderAll, merge-strictest}
use loreloom.Agent.Tools.{Json, json, ToolResult, collect_events}
use loreloom.Agent.Tools.Reading.{Unrepeated, collect_events-Unrepeated}
use loreloom.Agent.Turn.{Provider, Request, ToolContext, responded, TurnOutcome, text}
use loreloom.Agent.Runner.{run_turn}
use loreloom.Agent.Runner.Safety.{EndsSound}
use loreloom.Agent.Runner.Termination.{run_turn-total}
use loreloom.Agent.Cancellation.{
  Token, armed, poll_read, poll_lock, poll_recheck, poll_push, cancel_swap, cancel_lock,
  cancel_wake, cancel_unlock, first_poll, lock_taken, flag_reread, waker_pushed, flag_set,
  cancel_locked, waker_woken, cancel_unlocked, Reachable, start, more, has, pending, finished,
}
use loreloom.Agent.Cancellation.Wakeups.{Reachable-woken}

data Doc : Type 0 where
  committed : ℕ → ℕ → Doc
  revision_doc : ℕ → Doc
  text_doc : Text → Doc
  code_doc : Text → Doc

abbrev doc_field : Doc → Text → Option Doc
doc_field (committed e r) name =
    if text_beq name (bytes "revision")
    then some (revision_doc r)
    else if text_beq name (bytes "event_id")
    then some (text_doc (e ∷ []))
    else none
doc_field (revision_doc r) name = none
doc_field (text_doc t) name = none
doc_field (code_doc c) name = if text_beq name (bytes "code") then some (text_doc c) else none

abbrev doc_str : Doc → Option Text
doc_str (committed e r) = none
doc_str (revision_doc r) = none
doc_str (text_doc t) = some t
doc_str (code_doc c) = none

abbrev doc_revision : Doc → Option ℕ
doc_revision (committed e r) = none
doc_revision (revision_doc r) = some r
doc_revision (text_doc t) = none
doc_revision (code_doc c) = none

abbrev one_byte : Text → Option ℕ
one_byte [] = none
one_byte (e ∷ es) = some e

abbrev doc_reader : Json
doc_reader = record {
  Value = Doc;
  field = doc_field;
  as_str = doc_str;
  as_bool = λ _. none;
  as_array = λ _. none;
  as_revision = doc_revision;
  parse_event = one_byte;
}

abbrev move_result : ToolResult Doc
move_result = record { call_id = bytes "c1"; content = json (committed 9 4) ∷ []; is_error = false }

-- Its world is the number of responses given.
abbrev two_rounds : Provider
two_rounds = record {
  World = ℕ;
  Message = Text;
  Response = ℕ;
  BridgeError = Text;
  Call = Text;
  reader = doc_reader;
  call_id = λ c. c;
  call_name = λ c. bytes "move";
  content = λ n. text (bytes "done") ∷ [];
  response_calls = λ n. if n == 0 then bytes "c1" ∷ [] else [];
  response_usage = λ n. none;
  assistant_message = λ n. bytes "assistant";
  tool_message = λ r. r.call_id;
  code_json = code_doc;
  encode = λ r. some (bytes "{}");
  is_cancelled = λ w. (false, w);
  elapsed_ms = λ w. (1, w);
  project = λ r w. (none, w);
  complete = λ r w. (responded w, suc w);
  execute = λ c call w. (some move_result, w);
}

abbrev request : Request Text
request = record { messages = []; tools = bytes "move" ∷ []; max_output_tokens = none }

abbrev context : ToolContext
context = record { actor_id = 1; revision = 3; session_id = 2; capabilities = [] }

run_turn-total_example :
    (o : TurnOutcome two_rounds) × (run_turn two_rounds request context default_budget 100 0
      ≡ some o)
    × EndsSound two_rounds default_budget 3 o
run_turn-total_example = run_turn-total two_rounds request context default_budget 100 0

abbrev two_calls : ResourceUsage
two_calls = record no_usage { model_calls = 2; input_tokens = 300 }

abbrev tight : ResourceBudget
tight = record default_budget { max_model_calls = 4; require_reported_tokens = true }

merge-strictest_example :
    ((merge two_calls two_calls (strictest (default_budget ∷ tight ∷ []))).0 ≡ ok tt)
    ↔ MergesUnderAll two_calls two_calls (default_budget ∷ tight ∷ [])
merge-strictest_example = merge-strictest two_calls two_calls default_budget (tight ∷ [])

tight-IsRoomy : IsRoomy tight
tight-IsRoomy = ground arith

merge-ok_iff_example :
    (((merge two_calls two_calls tight).0 ≡ ok tt) ↔ Accepts (both two_calls two_calls) tight)
    × ((merge two_calls two_calls tight).1 ≡ in_words (both two_calls two_calls))
merge-ok_iff_example = merge-ok_iff two_calls two_calls tight tight-IsRoomy

abbrev reported : Option TokenUsage
reported = some (record { input_tokens = some 10; output_tokens = some 5; total_tokens = none })

collect_events-Unrepeated_example :
    Unrepeated
      (collect_events doc_reader (json (committed 9 4) ∷ json (committed 9 5) ∷ []) (8 ∷ []))
collect_events-Unrepeated_example =
    collect_events-Unrepeated doc_reader (json (committed 9 4) ∷ json (committed 9 5) ∷ []) (8 ∷ [])
      (ground arith)

-- Task 1 has reread the flag under the mutex when the flag is set, and is listed after that.
abbrev raced : Token
raced = cancel_swap (poll_recheck 1 (poll_lock 1 (poll_read 1 armed)))

abbrev emptied : Token
emptied = cancel_unlock (cancel_wake 1 [] (cancel_lock (poll_push 1 raced)))

raced-Reachable : Reachable raced
unfolding poll_read poll_lock poll_recheck
raced-Reachable =
    more
      (more (more (more start (first_poll 1 refl)) (lock_taken 1 refl refl)) (flag_reread 1 refl))
      (flag_set refl)

emptied-Reachable : Reachable emptied
unfolding poll_read poll_lock poll_recheck poll_push cancel_swap cancel_lock cancel_wake
emptied-Reachable =
    more
      (more (more (more raced-Reachable (waker_pushed 1 refl)) (cancel_locked refl refl))
        (waker_woken 1 [] refl refl))
      (cancel_unlocked refl refl)

emptied_run : (emptied.cancel ≡ finished) × (emptied.polls 1 ≡ pending)
unfolding poll_read poll_lock poll_recheck poll_push cancel_swap cancel_lock cancel_wake
    cancel_unlock
emptied_run = (refl, refl)

Reachable-woken_example : has 1 emptied.woken ≡ true
Reachable-woken_example = Reachable-woken emptied 1 emptied-Reachable emptied_run.0 emptied_run.1
