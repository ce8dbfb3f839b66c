-- ===== src/Agent/Runner/Keeps.antt =====
-- Rules for the stages of a turn: what holds of the value that a stage passes on, and of the outcome
-- with which it ends the turn.
use loreloom.Agent.Budget.{ResourceBudget}
use loreloom.Prelude.{ℕ, suc, ◌≡◌, some, Text, ok, err, ◌>>=◌, List}
use loreloom.Agent.Turn.{Provider, Turn, TurnOutcome, Step}
use loreloom.Agent.Runner.{
  check_cancelled, check_context, charge_model, cap_output, project_request, call_model,
  charge_response, answer_turn, push_response, run_round, run_rounds,
}

module _ (p : Provider) where
  abbrev pub Holds : {A : Type 0} → (A → Type 0) → (TurnOutcome p → Type 0) → Step p A → Type 0
  Holds P Q (ok a) = P a
  Holds P Q (err o) = Q o

  pub Holds-bind :
      {A B : Type 0} (P : A → Type 0) (R : B → Type 0) (Q : TurnOutcome p → Type 0) (m : Step p A)
      (f : A → Step p B)
      → Holds P Q m
      → ((a : A) → P a → Holds R Q (f a))
      → Holds R Q (m >>= f)
  Holds-bind P R Q (ok a) f h k = k a h
  Holds-bind P R Q (err o) f h k = h

-- The rules for the stages of a round: `Before` holds until the model call is charged, `During` from
-- then on, and `Ends` of an outcome.
module _ (p : Provider) (b : ResourceBudget) (n : ℕ) (offered : List Text) where
  open p use {Response, response_calls}

  pub record RoundRules (Before During : Turn p → Type 0) (Ends : TurnOutcome p → Type 0)
      : Type 0 where
    pub cancelled : (t : Turn p) → Before t → Holds p Before Ends (check_cancelled p t)
    pub context : (t : Turn p) → Before t → Holds p Before Ends (check_context p n t)
    pub charged : (t : Turn p) → Before t → Holds p During Ends (charge_model p b t)
    pub capped : (t : Turn p) → During t → Holds p During Ends (cap_output p b t)
    pub projected : (t : Turn p) → During t → Holds p During Ends (project_request p t)
    pub called : (t : Turn p) → During t → Holds p (λ r. During r.1) Ends (call_model p t)
    pub accounted :
        (r : Response) (t : Turn p) → During t → Holds p During Ends (charge_response p b r t)
    pub answered :
        (r : Response) (t : Turn p)
        → During t
        → Holds p During Ends (answer_turn p b offered r (response_calls r) (push_response p r t))

  module _ {Before During : Turn p → Type 0} {Ends : TurnOutcome p → Type 0}
      (rules : RoundRules Before During Ends) where
    abbrev after_model : Response × Turn p → Step p (Turn p)
    after_model (r, t) = charge_response p b r t >>= λ t'.
        answer_turn p b offered r (response_calls r) (push_response p r t')

    after_model_rule : (r : Response × Turn p) → During r.1 → Holds p During Ends (after_model r)
    after_model_rule (r, t) h =
        Holds-bind p During During Ends (charge_response p b r t) _ (rules.accounted r t h)
          (rules.answered r)

    pub round_rule : (t : Turn p) → Before t → Holds p During Ends (run_round p b n offered t)
    unfolding run_round
    round_rule t h =
        Holds-bind p Before During Ends (check_cancelled p t) _ (rules.cancelled t h) λ t1 h1.
          Holds-bind p Before During Ends (check_context p n t1) _ (rules.context t1 h1) λ t2 h2.
            Holds-bind p During During Ends (charge_model p b t2) _ (rules.charged t2 h2) λ t3 h3.
              Holds-bind p During During Ends (cap_output p b t3) _ (rules.capped t3 h3) λ t4 h4.
                Holds-bind p During During Ends (project_request p t4) _ (rules.projected t4 h4)
                  λ t5 h5.
                    Holds-bind p (λ r. During r.1) During Ends (call_model p t5) _
                      (rules.called t5 h5) after_model_rule

  pub run_rounds-more :
      (fuel : ℕ) (t t' : Turn p)
      → run_round p b n offered t ≡ ok t'
      → run_rounds p (suc fuel) b n offered t ≡ run_rounds p fuel b n offered t'
  unfolding run_rounds
  run_rounds-more fuel t t' e = rw (e, run_rounds)

  pub run_rounds-last :
      (fuel : ℕ) (t : Turn p) (o : TurnOutcome p)
      → run_round p b n offered t ≡ err o
      → run_rounds p (suc fuel) b n offered t ≡ some o
  unfolding run_rounds
  run_rounds-last fuel t o e = rw (e, run_rounds)
