-- ===== src/World/Containers/Weights.antt =====
-- The recursion of `item_tree_weight` of crates/loreloom-world/src/game_world.rs: its steps and its result.
use loreloom.Prelude.{
  ℕ, zero, suc, ◌<◌, ◌≡◌, ◌≤◌, ◌⊎◌, sym, refl, ap, ◌∙◌, true, Bool-cases, inl, inr, arith, none,
  Option-cases, List, [], ◌∷◌, Result, nat_eq, ok, err, map_err, some, Bool, false, Option,
  Result-cases,
}
use loreloom.Prelude.Map.{get, contains}
use loreloom.Core.Fixed.{Fixed, add}
use loreloom.Core.Domain.Identities.{ObjectId}
use loreloom.Core.Domain.Objects.{ItemRecord}
use loreloom.World.Types.{GameWorld, WorldError, item_of, items}
use loreloom.World.Containers.{
  DefinitionRegistry, tree_weight, item_tree_weight, own_weight, add_children, enough, finished,
  is_id,
}
use loreloom.World.Containers.Weighing.{body, tree_weight-body, IsWeight, finished-IsWeight}
use loreloom.World.Containers.Visiting.{unvisited, unvisited-visit, unvisited-nil}

-- The recursion ran out of fuel.
abbrev pub runs_out : Result (Option WorldError) Fixed → Bool
runs_out (ok weight) = false
runs_out (err (some e)) = false
runs_out (err none) = true

add_children-ends :
    (weigh : ItemRecord → Result (Option WorldError) Fixed) (id : ObjectId) (total : Fixed)
    (children : List ItemRecord)
    → ((child : ItemRecord) → runs_out (weigh child) ≡ false)
    → runs_out (add_children some weigh id total children) ≡ false
unfolding add_children
add_children-ends weigh id total [] h = refl
add_children-ends weigh id total (child ∷ rest) h =
    elim (Bool-cases (is_id child.contained_by id)) [
      | inr out ↦ rw (out, add_children) (add_children-ends weigh id total rest h)
      | inl inside ↦ elim (Result-cases (weigh child)) [
        | inr (none, bad) ↦ absurd (ground (arith, h child))
        | inr (some e, bad) ↦ rw (inside, add_children, bad) refl
        | inl (weight, good) ↦ elim (Result-cases (add total weight)) [
          | inr (e, bad) ↦ rw (inside, add_children, good, bad) refl
          | inl (sum, fits) ↦
              rw (inside, add_children, good, fits) (add_children-ends weigh id sum rest h)
        ]
      ]
    ]

module _ (w : GameWorld) (registry : DefinitionRegistry) where
  -- A visited item, or none, has no children that are weighed.
  abbrev IsLeaf : List ObjectId → ObjectId → Type 0
  IsLeaf visited id = (contains id visited ≡ true) ⊎ (item_of id w ≡ none)

  body-same :
      (visited : List ObjectId) (id : ObjectId)
      (weigh other : ItemRecord → Result (Option WorldError) Fixed)
      → IsLeaf visited id ⊎ ((child : ItemRecord) → weigh child ≡ other child)
      → body w registry visited id weigh ≡ body w registry visited id other
  body-same visited id weigh other (inl (inl y)) = ground (arith, y)
  body-same visited id weigh other (inl (inr n)) = ground (arith, n)
  body-same visited id weigh other (inr h) = ap (body w registry visited id) (λ i child. h child i)

  body-ends :
      (visited : List ObjectId) (id : ObjectId)
      (weigh : ItemRecord → Result (Option WorldError) Fixed)
      → IsLeaf visited id ⊎ ((child : ItemRecord) → runs_out (weigh child) ≡ false)
      → runs_out (body w registry visited id weigh) ≡ false
  body-ends visited id weigh (inl (inl y)) = ground (arith, y)
  body-ends visited id weigh (inl (inr n)) = ground (arith, n)
  body-ends visited id weigh (inr h) = elim (Bool-cases (contains id visited)) [
    | inl y ↦ rw y refl
    | inr n ↦ elim (Option-cases (item_of id w)) [
      | inl missing ↦ rw (n, missing) refl
      | inr (i, there) ↦ elim (Result-cases (own_weight registry i)) [
        | inr (e, bad) ↦ rw (n, there, bad) refl
        | inl (own, good) ↦ rw (n, there, good) (add_children-ends weigh id own (items w) h)
      ]
    ]
  ]

  item_of-none : (id : ObjectId) → get id w.objects ≡ none → item_of id w ≡ none
  unfolding item_of
  item_of-none id h = ground (arith, h)

  -- What is shown of every child is shown with fewer items left to visit.
  IsLeaf-cases :
      (f : ℕ) (visited : List ObjectId) (id : ObjectId)
      → unvisited w.objects visited < suc f
      → IsLeaf visited id ⊎ (unvisited w.objects (id ∷ visited) < f)
  IsLeaf-cases f visited id h = elim (Bool-cases (contains id visited)) [
    | inl y ↦ inl (inl y)
    | inr n ↦ elim (Option-cases (get id w.objects)) [
      | inl o ↦ inl (inr (item_of-none id o))
      | inr (r, o) ↦ inr (omega (arith, h, unvisited-visit w.objects id visited r o n))
    ]
  ]

  tree_weight-fuel :
      (f : ℕ) (visited : List ObjectId) (id : ObjectId)
      → unvisited w.objects visited < f
      → tree_weight (suc f) w registry visited id ≡ tree_weight f w registry visited id
  tree_weight-fuel zero visited id h = ground arith
  tree_weight-fuel (suc f) visited id h =
      tree_weight-body w registry (suc f) visited id
      ∙ body-same visited id _ _ (elim (IsLeaf-cases f visited id h) [
        | inl leaf ↦ inl leaf
        | inr less ↦ inr (λ child. tree_weight-fuel f (id ∷ visited) child.id less)
      ])
      ∙ sym (tree_weight-body w registry f visited id)

  tree_weight-ends :
      (f : ℕ) (visited : List ObjectId) (id : ObjectId)
      → unvisited w.objects visited < f
      → runs_out (tree_weight f w registry visited id) ≡ false
  tree_weight-ends zero visited id h = ground arith
  tree_weight-ends (suc f) visited id h = rw (tree_weight-body w registry f visited id) (
      body-ends visited id _ (elim (IsLeaf-cases f visited id h) [
        | inl leaf ↦ inl leaf
        | inr less ↦ inr (λ child. tree_weight-ends f (id ∷ visited) child.id less)
      ]))

  finished-same :
      (r : Result (Option WorldError) Fixed) → runs_out r ≡ false → r ≡ map_err some (finished r)
  finished-same (ok weight) h = refl
  finished-same (err (some e)) h = refl
  finished-same (err none) h = cc

  le-cases : (a b : ℕ) → a ≤ suc b → (a ≡ suc b) ⊎ (a ≤ b)
  le-cases a b h = ground arith

  tree_weight-enough :
      (fuel : ℕ) (id : ObjectId)
      → enough w ≤ fuel
      → tree_weight fuel w registry [] id ≡ tree_weight (enough w) w registry [] id
  tree_weight-enough zero id h = ground arith
  tree_weight-enough (suc fuel) id h = elim (le-cases (enough w) fuel h) [
    | inl e ↦ ap (λ f. tree_weight f w registry [] id) (sym e)
    | inr k ↦
        tree_weight-fuel fuel [] id (omega (arith, k, unvisited-nil w.objects))
        ∙ tree_weight-enough fuel id k
  ]

  -- The recursion that weighs an item with all that it holds ends, also where items hold each other
  -- in a cycle: with one step more than there are objects, or any larger number of steps, it does
  -- not run out of steps, and its result, an error of the program or a weight, is that of
  -- `item_tree_weight`; a weight that is returned is what the item itself weighs, added to what each
  -- item inside it weighs in the same sense.
  pub item_tree_weight-fuel :
      (fuel : ℕ) (id : ObjectId)
      → enough w ≤ fuel
      → (tree_weight fuel w registry [] id ≡ map_err some (item_tree_weight w registry id))
        × IsWeight w registry id (item_tree_weight w registry id)
  unfolding item_tree_weight
  item_tree_weight-fuel fuel id h = (
    tree_weight-enough fuel id h
        ∙ finished-same (tree_weight (enough w) w registry [] id)
            (tree_weight-ends (enough w) [] id (unvisited-nil w.objects)),
    finished-IsWeight w registry (enough w) id (tree_weight (enough w) w registry [] id) refl,
  )
