-- ===== src/Agent/Runner/Safety.antt =====
-- What holds at every stage of a turn, and of its outcome, whatever the provider, the tools, the
-- clock and the cancellation do.
use loreloom.Prelude.{
  ℕ, suc, ◌≤◌, ◌≡◌, refl, ◌++◌, map, Bool, true, false, Option, none, some, List, [], ◌∷◌, arith,
  length, length-append, not, ◌&&◌, Bool-cases, inl, inr, ok, err, Text, if◌then◌else◌,
}
use mathlib.Core.List.{map-append}
use loreloom.Agent.Budget.{
  ResourceBudget, ResourceUsage, Outcome, TokenUsage, before_model, before_tool, after_response,
}
use loreloom.Agent.Budget.Limits.{CallsWithin, before_model-CallsWithin, after_response-CallsWithin}
use loreloom.Agent.Tools.{
  ToolResult, collect_events, advance_tool_revision, is_turn_barrier, tool_error_code,
}
use loreloom.Agent.Tools.Reading.{Unrepeated, collect_events-Unrepeated, advance_tool_revision-le}
use loreloom.Agent.Turn.{
  ToolCallOutcome, ToolCallProgress, started, finished, Provider, Turn, TurnOutcome, Step,
  Completion, responded, refused, cancelled_first,
}
use loreloom.Agent.Runner.{
  check_cancelled, check_context, charge_model, cap_output, project_request, call_model,
  charge_response, charge_tool, finish_call, record_result, run_call, run_calls, answer_turn,
  announce, push_response, response_text, after_complete, after_project, settle,
}
use loreloom.Agent.Runner.Keeps.{Holds, Holds-bind, RoundRules}

after_response-tool_calls :
    (u : ResourceUsage) (b : ResourceBudget) (t : Option TokenUsage) (n ms : ℕ)
    → (after_response u b t n ms).1.tool_calls ≡ u.tool_calls
unfolding after_response
after_response-tool_calls u b none n ms = ground arith
after_response-tool_calls u b (some t) n ms = ground arith

module _ (p : Provider) (b : ResourceBudget) (first : ℕ) where
  open p use {World, Message, Response, Call, reader, response_usage, response_calls}

  -- What an outcome says of a result: whether it is an error, and the code of the error.
  abbrev pub verdict : ToolCallOutcome → Bool × Option Text
  verdict o = (o.is_error, o.error_code)

  abbrev pub verdict_of : ToolResult reader.Value → Bool × Option Text
  verdict_of r = (r.is_error, if r.is_error then tool_error_code reader r.content else none)

  -- The reports of progress: each call is announced, and its outcome follows.
  abbrev pub reports : List ToolCallOutcome → List ToolCallProgress
  reports [] = []
  reports (o ∷ os) = started o.call_id o.name ∷ finished o ∷ reports os

  -- The counted calls respect the budget; each counted tool call has its outcome listed, with the
  -- verdict of the result in the same place, and was reported as started and then as finished with
  -- that outcome; no event is listed twice, and the revision that tools see has not gone back.
  pub record IsSound (t : Turn p) : Type 0 where
    pub calls : CallsWithin t.usage b
    pub paired : map verdict t.tool_calls ≡ map verdict_of t.tool_results
    pub counted : length t.tool_calls ≡ t.usage.tool_calls
    pub reported : t.progress ≡ reports t.tool_calls
    pub events : Unrepeated t.committed_events
    pub later : first ≤ t.tool_context.revision

  abbrev pub EndsSound : TurnOutcome p → Type 0
  EndsSound o = IsSound o.turn

  abbrev Sound : Step p (Turn p) → Type 0
  Sound = Holds p IsSound EndsSound

  check_cancelled-Sound : (t : Turn p) → IsSound t → Sound (check_cancelled p t)
  unfolding check_cancelled
  check_cancelled-Sound t s = ground arith

  check_context-Sound : (n : ℕ) (t : Turn p) → IsSound t → Sound (check_context p n t)
  unfolding check_context
  check_context-Sound n t s = ground arith

  -- A usage that keeps the limits and the number of tool calls may be written.
  settle-Sound :
      (t : Turn p) (r : Outcome × ResourceUsage)
      → IsSound t
      → CallsWithin r.1 b
      → r.1.tool_calls ≡ t.usage.tool_calls
      → Sound (settle p t r)
  unfolding settle
  settle-Sound t (ok _, u) s c m = ground arith
  settle-Sound t (err reason, u) s c m = ground arith

  abbrev at_world : Turn p → World → Turn p
  at_world t w = record t { world = w }

  at_world-IsSound : (t : Turn p) (w : World) → IsSound t → IsSound (at_world t w)
  at_world-IsSound t w s = ground arith

  charge_model-Sound : (t : Turn p) → IsSound t → Sound (charge_model p b t)
  unfolding charge_model
  charge_model-Sound t s =
      let (ms, w) = p.elapsed_ms t.world in
      settle-Sound (at_world t w) (before_model t.usage b ms) (at_world-IsSound t w s)
        (before_model-CallsWithin t.usage b ms s.calls) (unfold before_model in ground arith)

  charge_response-Sound : (r : Response) (t : Turn p) → IsSound t → Sound (charge_response p b r t)
  unfolding charge_response
  charge_response-Sound r t s =
      let (ms, w) = p.elapsed_ms t.world in
      let n = length (response_text p (p.content r)) in
      settle-Sound (at_world t w) (after_response t.usage b (response_usage r) n ms)
        (at_world-IsSound t w s)
        (after_response-CallsWithin t.usage b (response_usage r) n ms s.calls)
        (after_response-tool_calls t.usage b (response_usage r) n ms)

  cap_output-Sound : (t : Turn p) → IsSound t → Sound (cap_output p b t)
  unfolding cap_output
  cap_output-Sound t s = ground arith

  after_project-Sound :
      (t : Turn p) (r : Option p.BridgeError × World) → IsSound t → Sound (after_project p t r)
  unfolding after_project
  after_project-Sound t (none, w) s = at_world-IsSound t w s
  after_project-Sound t (some e, w) s = at_world-IsSound t w s

  project_request-Sound : (t : Turn p) → IsSound t → Sound (project_request p t)
  unfolding project_request
  project_request-Sound t s = after_project-Sound t (p.project t.request t.world) s

  abbrev SoundPair : Response × Turn p → Type 0
  SoundPair r = IsSound r.1

  after_complete-Sound :
      (t : Turn p) (r : Completion Response p.BridgeError × World)
      → IsSound t
      → Holds p SoundPair EndsSound (after_complete p t r)
  unfolding after_complete
  after_complete-Sound t (responded r, w) s = at_world-IsSound t w s
  after_complete-Sound t (refused e, w) s = at_world-IsSound t w s
  after_complete-Sound t (cancelled_first, w) s = at_world-IsSound t w s

  call_model-Sound : (t : Turn p) → IsSound t → Holds p SoundPair EndsSound (call_model p t)
  unfolding call_model
  call_model-Sound t s = after_complete-Sound t (p.complete t.request t.world) s

  -- After a tool call is charged one more is counted than is listed.
  record IsCharged (t : Turn p) : Type 0 where
    calls : CallsWithin t.usage b
    paired : map verdict t.tool_calls ≡ map verdict_of t.tool_results
    ahead : suc (length t.tool_calls) ≡ t.usage.tool_calls
    reported : t.progress ≡ reports t.tool_calls
    events : Unrepeated t.committed_events
    later : first ≤ t.tool_context.revision

  charge_tool-IsCharged : (t : Turn p) → IsSound t → Holds p IsCharged EndsSound (charge_tool p b t)
  unfolding charge_tool before_tool settle
  charge_tool-IsCharged t s = ground arith

  kept_events :
      (is_error : Bool) (r : ToolResult reader.Value) (es : List ℕ)
      → Unrepeated es
      → Unrepeated (if is_error then es else collect_events reader r.content es)
  kept_events true r es u = u
  kept_events false r es u = collect_events-Unrepeated reader r.content es u

  kept_revision :
      (is_error : Bool) (r : ToolResult reader.Value) (n : ℕ)
      → first ≤ n
      → first ≤ (if is_error then n else advance_tool_revision reader r.content n)
  kept_revision true r n h = h
  kept_revision false r n h = omega (arith, advance_tool_revision-le reader r.content n)

  reports-append_one :
      (os : List ToolCallOutcome) (o : ToolCallOutcome)
      → reports (os ++ o ∷ []) ≡ (reports os ++ started o.call_id o.name ∷ []) ++ finished o ∷ []
  reports-append_one [] o = refl
  reports-append_one (q ∷ os) o = rw (reports-append_one os o)

  record_result-IsSound :
      (t : Turn p) (call : Call) (result : ToolResult reader.Value) (w : World)
      → IsCharged t
      → IsSound (record_result p (announce p t call) call result w)
  unfolding record_result
  record_result-IsSound t call result w c = record {
    calls = c.calls;
    paired = rw (map-append, map-append, c.paired);
    counted = omega (arith, c.ahead, length-append {0} t.tool_calls);
    reported = rw (c.reported, reports-append_one);
    events = kept_events result.is_error result t.committed_events c.events;
    later = kept_revision result.is_error result t.tool_context.revision c.later;
  }

  finish_call-Sound :
      (t : Turn p) (call : Call) (r : ToolResult reader.Value × World)
      → IsCharged t
      → Sound (finish_call p (announce p t call) call r)
  unfolding finish_call
  finish_call-Sound t call (result, w) c =
      let s = record_result-IsSound t call result w c in
      let barrier = not result.is_error && is_turn_barrier reader result.content in
      elim (Bool-cases barrier) [ inl y ↦ rw y s | inr n ↦ rw n s ]

  run_call-Sound :
      (offered : List Text) (t : Turn p) (call : Call)
      → IsSound t
      → Sound (run_call p b offered t call)
  unfolding run_call
  run_call-Sound offered t call s =
      Holds-bind p IsSound IsSound EndsSound (check_cancelled p t) _ (check_cancelled-Sound t s)
        λ t1 s1.
          Holds-bind p IsCharged IsSound EndsSound (charge_tool p b t1) _
            (charge_tool-IsCharged t1 s1) (λ t2 c. finish_call-Sound t2 call _ c)

  run_calls-Sound :
      (offered : List Text) (calls : List Call) (t : Turn p)
      → IsSound t
      → Sound (run_calls p b offered calls t)
  unfolding run_calls
  run_calls-Sound offered [] t s = s
  run_calls-Sound offered (call ∷ calls) t s =
      Holds-bind p IsSound IsSound EndsSound (run_call p b offered t call) _
        (run_call-Sound offered t call s) (run_calls-Sound offered calls)

  answer_turn-Sound :
      (offered : List Text) (r : Response) (calls : List Call) (t : Turn p)
      → IsSound t
      → Sound (answer_turn p b offered r calls t)
  unfolding answer_turn
  answer_turn-Sound offered r [] t s = s
  answer_turn-Sound offered r (call ∷ calls) t s = run_calls-Sound offered (call ∷ calls) t s

  push_response-IsSound : (r : Response) (t : Turn p) → IsSound t → IsSound (push_response p r t)
  push_response-IsSound r t s = ground arith

  pub IsSound-rules :
      (n : ℕ) (offered : List Text) → RoundRules p b n offered IsSound IsSound EndsSound
  IsSound-rules n offered = record {
    cancelled = check_cancelled-Sound;
    context = check_context-Sound n;
    charged = charge_model-Sound;
    capped = cap_output-Sound;
    projected = project_request-Sound;
    called = call_model-Sound;
    accounted = charge_response-Sound;
    answered = λ r t s.
        answer_turn-Sound offered r (response_calls r) (push_response p r t)
          (push_response-IsSound r t s);
  }
