-- ===== src/World/Containers/Visiting.antt =====
-- The walk up from an item, `ensure_no_container_cycle` of crates/loreloom-world/src/game_world.rs.
use loreloom.Prelude.{
  ℕ, zero, suc, ◌≤◌, ◌<◌, ◌≡◌, ◌↔◌, refl, sym, ap, ◌∙◌, true, false, Bool-cases, inl, inr, arith,
  Option, none, some, Option-cases, List, [], ◌∷◌, ◌==◌, ==_iff, if◌then◌else◌, length, ok, nat_eq,
}
use loreloom.Prelude.Map.{Map, get, contains}
use loreloom.Core.Domain.Identities.{ObjectId}
use loreloom.World.Types.{GameWorld, item_of}
use loreloom.World.Containers.{holder, climb, enough, ensure_no_container_cycle}

module _ {V : Type 0} where
  -- The entries whose keys were not visited.
  abbrev pub unvisited : Map ObjectId V → List ObjectId → ℕ
  unvisited [] visited = 0
  unvisited ((id, r) ∷ m) visited =
      let rest = unvisited m visited in if contains id visited then rest else suc rest

  unvisited-le : (m : Map ObjectId V) (visited : List ObjectId) → unvisited m visited ≤ length m
  unvisited-le [] visited = omega arith
  unvisited-le ((id, r) ∷ m) visited = ground (arith, unvisited-le m visited)

  unvisited-visit_le :
      (m : Map ObjectId V) (id : ObjectId) (visited : List ObjectId)
      → unvisited m (id ∷ visited) ≤ unvisited m visited
  unfolding contains
  unvisited-visit_le [] id visited = omega arith
  unvisited-visit_le ((j, r) ∷ m) id visited = ground (arith, unvisited-visit_le m id visited)

  -- A visit to a new entry.
  pub unvisited-visit :
      (m : Map ObjectId V) (id : ObjectId) (visited : List ObjectId) (r : V)
      → get id m ≡ some r
      → contains id visited ≡ false
      → unvisited m (id ∷ visited) < unvisited m visited
  unfolding contains get
  unvisited-visit [] id visited r h n = ground arith
  unvisited-visit ((j, q) ∷ m) id visited r h n = ground (
    arith,
    unvisited-visit m id visited r,
    unvisited-visit_le m id visited,
    ==_iff id j,
    ==_iff j id,
  )

  pub unvisited-nil : (m : Map ObjectId V) → unvisited m [] < suc (length m)
  unvisited-nil m = omega (arith, unvisited-le m [])

module _ (w : GameWorld) where
  -- The way up from a place does not pass the item, and ends.
  pub data Clear (moved : ObjectId) : Option ObjectId → Type 0 where
    top : Clear moved none
    up : (id : ObjectId) → (id == moved) ≡ false → Clear moved (holder w id) → Clear moved (some id)

  -- The way up has a number of steps.
  abbrev Tall : ℕ → Option ObjectId → Type 0
  Tall zero p = p ≡ none
  Tall (suc n) p = (id : ObjectId) × (p ≡ some id) × Tall n (holder w id)

  some-inj : {i j : ObjectId} → some i ≡ some j → i ≡ j
  some-inj h = ground arith

  Tall-unique : (n m : ℕ) (p : Option ObjectId) → Tall n p → Tall m p → n ≡ m
  Tall-unique zero zero p a b = refl
  Tall-unique zero (suc m) p a (j, e, b) = ground arith
  Tall-unique (suc n) zero p (i, e, a) b = ground arith
  Tall-unique (suc n) (suc m) p (i, e, a) (j, f, b) =
      ap suc (Tall-unique n m (holder w j) (rw (some-inj (sym e ∙ f)) at a) b)

  pub holder-none : (id : ObjectId) → get id w.objects ≡ none → holder w id ≡ none
  unfolding item_of
  holder-none id h = ground (arith, h)

  climb-Clear :
      (fuel : ℕ) (moved : ObjectId) (p : Option ObjectId) (visited : List ObjectId)
      → climb fuel w moved p visited ≡ ok tt
      → Clear moved p
  unfolding climb
  climb-Clear fuel moved none visited h = top
  climb-Clear zero moved (some id) visited h = ground arith
  climb-Clear (suc fuel) moved (some id) visited h = elim (Bool-cases (id == moved)) [
    | inl y ↦ ground (arith, y)
    | inr n ↦ up id n (climb-Clear fuel moved (holder w id) (id ∷ visited) (ground (arith, n)))
  ]

  Clear-Tall : (moved : ObjectId) {p : Option ObjectId} → Clear moved p → (n : ℕ) × Tall n p
  Clear-Tall moved top = (0, refl)
  Clear-Tall moved (up id n c) = let (k, t) = Clear-Tall moved c in (suc k, (id, refl, t))

  -- What was visited is further from the top.
  abbrev Lower : ℕ → List ObjectId → Type 0
  Lower n visited = (v : ObjectId) → contains v visited ≡ true → (m : ℕ) × (n < m) × Tall m (some v)

  Lower-visit :
      (n : ℕ) (id : ObjectId) (visited : List ObjectId)
      → Tall n (holder w id)
      → Lower (suc n) visited
      → Lower n (id ∷ visited)
  unfolding contains
  Lower-visit n id visited t l v y = elim (Bool-cases (id == v)) [
    | inl same ↦ (suc n, omega arith, (id, ap some (sym ((==_iff id v).0 same)), t))
    | inr other ↦ let (m, less, s) = l v (ground (arith, other)) in (m, omega (arith, less), s)
  ]

  climb-step :
      (fuel : ℕ) (moved id : ObjectId) (visited : List ObjectId)
      → (id == moved) ≡ false
      → contains id visited ≡ false
      → climb (suc fuel) w moved (some id) visited ≡ climb fuel w moved (holder w id) (id ∷ visited)
  unfolding climb
  climb-step fuel moved id visited d k = rw (d, k)

  Clear-climb :
      (fuel : ℕ) (moved : ObjectId) (p : Option ObjectId) (visited : List ObjectId) (n : ℕ)
      → Clear moved p
      → Tall n p
      → Lower n visited
      → unvisited w.objects visited < fuel
      → climb fuel w moved p visited ≡ ok tt
  unfolding climb
  Clear-climb fuel moved none visited n c t l f = refl
  Clear-climb zero moved (some id) visited n c t l f = ground arith
  Clear-climb (suc fuel) moved (some id) visited zero c t l f = ground arith
  Clear-climb (suc fuel) moved (some id) visited (suc n) (up _ d c) (j, e, t) l f =
      elim (Bool-cases (contains id visited)) [
        | inl y ↦
            (let (m, less, s) = l id y in
              ground (arith, less, Tall-unique (suc n) m (some id) (j, e, t) s))
        | inr k ↦ elim (Option-cases (get id w.objects)) [
          | inl o ↦
              climb-step fuel moved id visited d k
              ∙ ap (λ q. climb fuel w moved q (id ∷ visited)) (holder-none id o)
          | inr (r, o) ↦
              climb-step fuel moved id visited d k
              ∙ (Clear-climb fuel moved (holder w id) (id ∷ visited) n c
                  (rw (sym (some-inj e)) at t)
                  (Lower-visit n id visited (rw (sym (some-inj e)) at t) l)
                  (omega (arith, f, unvisited-visit w.objects id visited r o k)))
        ]
      ]

  -- The check for a cycle of containers accepts a place for an item exactly where the way up from
  -- that place ends without passing the item: the set of visited items never refuses such a way, and
  -- the fuel is enough.
  pub ensure_no_container_cycle-ok_iff :
      (moved : ObjectId) (p : Option ObjectId)
      → (ensure_no_container_cycle w moved p ≡ ok tt) ↔ Clear moved p
  unfolding ensure_no_container_cycle contains
  ensure_no_container_cycle-ok_iff moved p = (
    climb-Clear (enough w) moved p [],
    λ c.
        let (n, t) = Clear-Tall moved c in
        Clear-climb (enough w) moved p [] n c t (λ v e. ground arith) (unvisited-nil w.objects),
  )
