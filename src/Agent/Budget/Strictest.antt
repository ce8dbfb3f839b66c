-- ===== src/Agent/Budget/Strictest.antt =====
-- `ResourceBudget::strictest` of crates/loreloom-agent/src/budget.rs.
use loreloom.Prelude.{◌≡◌, ◌↔◌, List, [], ◌∷◌, arith, ok}
use loreloom.Agent.Budget.{
  ResourceBudget, ResourceUsage, min_budget, reduce_min, strictest, merge, sum_usage,
}
use loreloom.Agent.Budget.Limits.{Accepts, merge-Accepts}

min_budget-Accepts :
    (u : ResourceUsage) (a b : ResourceBudget)
    → Accepts u (min_budget a b) ↔ (Accepts u a × Accepts u b)
unfolding min_budget
min_budget-Accepts u a b = (λ h. ground arith, λ h. ground arith)

abbrev pub AcceptedByAll : ResourceUsage → List ResourceBudget → Type 0
AcceptedByAll u [] = Unit
AcceptedByAll u (b ∷ bs) = Accepts u b × AcceptedByAll u bs

reduce_min-Accepts :
    (u : ResourceUsage) (b : ResourceBudget) (bs : List ResourceBudget)
    → Accepts u (reduce_min b bs) ↔ (Accepts u b × AcceptedByAll u bs)
reduce_min-Accepts u b [] = (λ h. (h, tt), λ h. h.0)
reduce_min-Accepts u b (c ∷ cs) =
    let ih = reduce_min-Accepts u (min_budget b c) cs in
    let both = min_budget-Accepts u b c in
    (
      λ h. let p = ih.0 h in let q = both.0 p.0 in (q.0, (q.1, p.1)),
      λ h. ih.1 (both.1 (h.0, h.1.0), h.1.1),
    )

abbrev pub MergesUnderAll : ResourceUsage → ResourceUsage → List ResourceBudget → Type 0
MergesUnderAll u other [] = Unit
MergesUnderAll u other (b ∷ bs) = ((merge u other b).0 ≡ ok tt) × MergesUnderAll u other bs

AcceptedByAll-MergesUnderAll :
    (u other : ResourceUsage) (bs : List ResourceBudget)
    → AcceptedByAll (sum_usage u other) bs ↔ MergesUnderAll u other bs
AcceptedByAll-MergesUnderAll u other [] = (λ h. tt, λ h. tt)
AcceptedByAll-MergesUnderAll u other (b ∷ bs) =
    let here = merge-Accepts u other b in
    let rest = AcceptedByAll-MergesUnderAll u other bs in
    (λ h. (here.1 h.0, rest.0 h.1), λ h. (here.0 h.0, rest.1 h.1))

-- A merge of usages under the strictest of some budgets, of which there is at least one, is accepted
-- exactly where it is accepted under each of them.
pub merge-strictest :
    (u other : ResourceUsage) (b : ResourceBudget) (bs : List ResourceBudget)
    → ((merge u other (strictest (b ∷ bs))).0 ≡ ok tt) ↔ MergesUnderAll u other (b ∷ bs)
unfolding strictest
merge-strictest u other b bs =
    let whole = merge-Accepts u other (strictest (b ∷ bs)) in
    let parts = reduce_min-Accepts (sum_usage u other) b bs in
    let each = AcceptedByAll-MergesUnderAll u other (b ∷ bs) in
    (λ h. each.0 (parts.0 (whole.0 h)), λ h. whole.1 (parts.1 (each.1 h)))
