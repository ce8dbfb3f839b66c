-- ===== src/Agent/Runner/Termination.antt =====
-- The rounds of a turn and the model calls that they count, in crates/loreloom-agent/src/runner.rs.
use loreloom.Prelude.{
  ℕ, zero, suc, ◌+◌, ◌≤◌, ◌<◌, ◌≡◌, refl, Option, none, some, List, [], ◌∷◌, arith, ok, err, Text,
  Result-cases, inl, inr, length, ◌∙◌, not, ◌&&◌, Bool-cases,
}
use loreloom.Agent.Budget.{
  Outcome, ResourceBudget, ResourceUsage, TokenUsage, before_model, before_tool, after_response,
}
use loreloom.Agent.Tools.{ToolResult, is_turn_barrier}
use loreloom.Agent.Turn.{
  Provider, Turn, TurnOutcome, Request, ToolContext, Completion, responded, refused,
  cancelled_first,
}
use loreloom.Agent.Runner.{
  check_cancelled, check_context, charge_model, cap_output, project_request, call_model,
  charge_response, charge_tool, finish_call, run_call, run_calls, answer_turn, push_response,
  run_round, run_rounds, run_turn, start, settle, after_project, after_complete, response_text,
  announce,
}
use loreloom.Agent.Runner.Keeps.{
  Holds, Holds-bind, RoundRules, round_rule, run_rounds-more, run_rounds-last,
}
use loreloom.Agent.Runner.Safety.{IsSound, EndsSound, IsSound-rules}

after_response-model_calls :
    (u : ResourceUsage) (b : ResourceBudget) (t : Option TokenUsage) (n ms : ℕ)
    → (after_response u b t n ms).1.model_calls ≡ u.model_calls
unfolding after_response
after_response-model_calls u b none n ms = ground arith
after_response-model_calls u b (some t) n ms = ground arith

module _ (p : Provider) (b : ResourceBudget) (n : ℕ) (offered : List Text) (k : ℕ) where
  open p use {World, Response, Call, response_calls}

  abbrev Counted : ℕ → Turn p → Type 0
  Counted m t = t.usage.model_calls ≡ m

  record HasCharged (t : Turn p) : Type 0 where
    counted : Counted (suc k) t
    allowed : suc k ≤ b.max_model_calls

  abbrev Any : TurnOutcome p → Type 0
  Any o = Unit

  charge_model-HasCharged : (t : Turn p) → Counted k t → Holds p HasCharged Any (charge_model p b t)
  unfolding charge_model before_model settle
  charge_model-HasCharged t h = ground arith

  settle-HasCharged :
      (t : Turn p) (r : Outcome × ResourceUsage)
      → r.1.model_calls ≡ suc k
      → suc k ≤ b.max_model_calls
      → Holds p HasCharged Any (settle p t r)
  unfolding settle
  settle-HasCharged t (ok _, u) c a = record { counted = c; allowed = a }
  settle-HasCharged t (err reason, u) c a = tt

  charge_response-HasCharged :
      (r : Response) (t : Turn p) → HasCharged t → Holds p HasCharged Any (charge_response p b r t)
  unfolding charge_response
  charge_response-HasCharged r t h =
      let (ms, w) = p.elapsed_ms t.world in
      let m = length (response_text p (p.content r)) in
      settle-HasCharged (record t { world = w })
        (after_response t.usage b (p.response_usage r) m ms)
        (after_response-model_calls t.usage b (p.response_usage r) m ms ∙ h.counted) h.allowed

  cap_output-HasCharged : (t : Turn p) → HasCharged t → Holds p HasCharged Any (cap_output p b t)
  unfolding cap_output
  cap_output-HasCharged t h = ground arith

  after_project-HasCharged :
      (t : Turn p) (r : Option p.BridgeError × World)
      → HasCharged t
      → Holds p HasCharged Any (after_project p t r)
  unfolding after_project
  after_project-HasCharged t (none, w) h = record { counted = h.counted; allowed = h.allowed }
  after_project-HasCharged t (some e, w) h = tt

  after_complete-HasCharged :
      (t : Turn p) (r : Completion Response p.BridgeError × World)
      → HasCharged t
      → Holds p (λ r'. HasCharged r'.1) Any (after_complete p t r)
  unfolding after_complete
  after_complete-HasCharged t (responded r, w) h = record {
    counted = h.counted;
    allowed = h.allowed;
  }
  after_complete-HasCharged t (refused e, w) h = tt
  after_complete-HasCharged t (cancelled_first, w) h = tt

  finish_call-HasCharged :
      (t : Turn p) (call : Call) (r : ToolResult p.reader.Value × World)
      → HasCharged t
      → Holds p HasCharged Any (finish_call p t call r)
  unfolding finish_call
  finish_call-HasCharged t call (result, w) h =
      let barrier = not result.is_error && is_turn_barrier p.reader result.content in
      elim (Bool-cases barrier) [
        | inl y ↦ rw y tt
        | inr no_barrier ↦ rw no_barrier (record { counted = h.counted; allowed = h.allowed })
      ]

  check_cancelled-HasCharged :
      (t : Turn p) → HasCharged t → Holds p HasCharged Any (check_cancelled p t)
  unfolding check_cancelled
  check_cancelled-HasCharged t h = ground arith

  charge_tool-HasCharged : (t : Turn p) → HasCharged t → Holds p HasCharged Any (charge_tool p b t)
  unfolding charge_tool before_tool settle
  charge_tool-HasCharged t h = ground arith

  run_calls-HasCharged :
      (calls : List Call) (t : Turn p)
      → HasCharged t
      → Holds p HasCharged Any (run_calls p b offered calls t)
  unfolding run_calls run_call
  run_calls-HasCharged [] t h = h
  run_calls-HasCharged (call ∷ calls) t h =
      Holds-bind p HasCharged HasCharged Any (run_call p b offered t call) _
        (Holds-bind p HasCharged HasCharged Any (check_cancelled p t) _
          (check_cancelled-HasCharged t h)
          λ t1 h1.
            Holds-bind p HasCharged HasCharged Any (charge_tool p b t1) _
              (charge_tool-HasCharged t1 h1)
              λ t2 h2.
                finish_call-HasCharged (announce p t2 call) call _
                  (record { counted = h2.counted; allowed = h2.allowed }))
        (run_calls-HasCharged calls)

  answer_turn-HasCharged :
      (r : Response) (calls : List Call) (t : Turn p)
      → HasCharged t
      → Holds p HasCharged Any (answer_turn p b offered r calls t)
  unfolding answer_turn
  answer_turn-HasCharged r [] t h = tt
  answer_turn-HasCharged r (call ∷ calls) t h = run_calls-HasCharged (call ∷ calls) t h

  charged_rules : RoundRules p b n offered (Counted k) HasCharged Any
  unfolding check_cancelled check_context project_request call_model
  charged_rules = record {
    cancelled = λ t h. ground arith;
    context = λ t h. ground arith;
    charged = charge_model-HasCharged;
    capped = cap_output-HasCharged;
    projected = λ t. after_project-HasCharged t (p.project t.request t.world);
    called = λ t. after_complete-HasCharged t (p.complete t.request t.world);
    accounted = charge_response-HasCharged;
    answered = λ r t h.
        answer_turn-HasCharged r (response_calls r) (push_response p r t)
          (record { counted = h.counted; allowed = h.allowed });
  }

  -- A round that goes on has counted one model call, within the budget.
  round_counts :
      (t : Turn p) {t' : Turn p}
      → Counted k t
      → run_round p b n offered t ≡ ok t'
      → t'.usage.model_calls ≡ suc k
  round_counts t h e =
      let round = round_rule p b n offered charged_rules t h in
      let after : HasCharged _ = rw e at round in after.counted

module _ (p : Provider) (b : ResourceBudget) (n : ℕ) (offered : List Text) (first : ℕ) where
  run_rounds-total :
      (fuel : ℕ) (t : Turn p)
      → IsSound p b first t
      → b.max_model_calls < fuel + t.usage.model_calls
      → (o : TurnOutcome p) × (run_rounds p fuel b n offered t ≡ some o) × EndsSound p b first o
  run_rounds-total zero t s h = absurd (omega (arith, s.calls.model_calls))
  run_rounds-total (suc fuel) t s h =
      let round = round_rule p b n offered (IsSound-rules p b first n offered) t s in
      elim (Result-cases (run_round p b n offered t)) [
        | inl (t', good) ↦
            let counts = round_counts p b n offered t.usage.model_calls t {t' = t'} refl good in
            let (o, ends, sound) =
              run_rounds-total fuel t' (rw good at round) (omega (arith, counts)) in
            (o, run_rounds-more p b n offered fuel t t' good ∙ ends, sound)
        | inr (o, bad) ↦ (o, run_rounds-last p b n offered fuel t o bad, rw bad at round)
      ]

  start-IsSound :
      (request : Request p.Message) (c : ToolContext) (w : p.World)
      → first ≤ c.revision
      → IsSound p b first (start p request c w)
  start-IsSound request c w h = ground arith

-- Whatever the provider, the tools, the clock and the cancellation do, a turn ends: it returns an
-- outcome, in which the calls made respect the budget; as many tool outcomes are listed as tool
-- calls were counted, each with the verdict and the error code of the result in the same place of
-- the list of results; the progress is exactly, for each outcome listed, the call reported as
-- started and then as finished with that outcome; no event is listed twice, and the revision is not
-- older than the one that the turn began with.
pub run_turn-total :
    (p : Provider) (request : Request p.Message) (c : ToolContext) (b : ResourceBudget) (n : ℕ)
    (w : p.World)
    → (o : TurnOutcome p) × (run_turn p request c b n w ≡ some o) × EndsSound p b c.revision o
unfolding run_turn
run_turn-total p request c b n w =
    run_rounds-total p b n request.tools c.revision (suc b.max_model_calls) (start p request c w)
      (start-IsSound p b n request.tools c.revision request c w (omega arith)) (omega arith)
