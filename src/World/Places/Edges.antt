-- ===== src/World/Places/Edges.antt =====
-- The ways between places lead both ways and stay within a scene.
use loreloom.Prelude.{
  ◌≡◌, refl, sym, ap, ◌∙◌, true, false, Bool-cases, inl, inr, ◌⊎◌, arith, none, some, Option-cases,
  ◌==◌, ==_iff, ==_refl, if◌then◌else◌, nat_eq, Result-cases, ok, err, List, [], ◌∷◌, ◌||◌,
}
use loreloom.Prelude.Map.{get, get-insert, insert, contains}
use loreloom.Core.Revision.{Revision}
use loreloom.Core.Domain.{DomainRecord, place, object_id}
use loreloom.Core.Domain.Identities.{ObjectId, ActorId, ActionId, DisplayName, ShortText}
use loreloom.Core.Domain.Origins.{GeneratedOrigin, generated}
use loreloom.Core.Domain.Objects.{PlaceRecord}
use loreloom.World.Types.{
  GameWorld, WorldError, IdGenerator, character_of, require_place, generate, as_place, conclude,
  spawn_record,
}
use loreloom.World.Places.{
  create_place, place_place, write_place, check_create_place, new_place, add_edge,
}
use loreloom.World.Places.Residence.{place_of}

-- A way from `a` to `b` has a way back, and both are places of one scene.
abbrev pub IsPaired : GameWorld → Type 0
IsPaired w =
    (a b : ObjectId) (p : PlaceRecord)
    → place_of a w ≡ some p
    → contains b p.edges ≡ true
    → (q : PlaceRecord) × (place_of b w ≡ some q)
      × (contains a q.edges ≡ true)
      × (q.scene_id ≡ p.scene_id)

contains-add_edge :
    (id b : ObjectId) (edges : List ObjectId)
    → contains b (add_edge id edges) ≡ (id == b || contains b edges)
unfolding contains
contains-add_edge id b edges = ground (arith, ==_iff id b)

get-place :
    (id : ObjectId) (w : GameWorld) {p : PlaceRecord}
    → place_of id w ≡ some p
    → get id w.objects ≡ some (place p)
get-place id w h = elim (Option-cases (get id w.objects)) [
  | inl n ↦ ground (arith, n)
  | inr (r, e) ↦ e ∙ ap some (as_place-inv r (ground (arith, e)))
]
  where
    as_place-inv : (r : DomainRecord) {p : PlaceRecord} → as_place r ≡ some p → r ≡ place p
    as_place-inv r h = ground arith

-- What the creation of a place has checked and written.
pub record Opened (w w' : GameWorld) : Type 0 where
  pub connected_to : ObjectId
  pub current : PlaceRecord
  pub fresh : PlaceRecord
  pub current_before : place_of connected_to w ≡ some current
  pub same_scene : fresh.scene_id ≡ current.scene_id
  pub only_edge : fresh.edges ≡ connected_to ∷ []
  pub is_new : get fresh.id w.objects ≡ none
  pub objects_after :
      w'.objects
      ≡ insert fresh.id (place fresh) (
          insert connected_to
            (place (record current { edges = add_edge fresh.id current.edges }))
            w.objects)

abbrev widened : {w w' : GameWorld} → Opened w w' → PlaceRecord
widened t = record t.current { edges = add_edge t.fresh.id t.current.edges }

module _ (w w' : GameWorld) (t : Opened w w') where
  place_of-opened :
      (id : ObjectId)
      → place_of id w' ≡ (
          if t.fresh.id == id
          then some t.fresh
          else if t.connected_to == id
          then some (widened t)
          else place_of id w)
  place_of-opened id = ground (
    arith,
    t.objects_after,
    get-insert t.fresh.id id (place t.fresh) (insert t.connected_to (place (widened t)) w.objects),
    get-insert t.connected_to id (place (widened t)) w.objects,
  )

  place_of-fresh : place_of t.fresh.id w ≡ none
  place_of-fresh = ground (arith, t.is_new)

  distinct : (t.fresh.id == t.connected_to) ≡ false
  distinct = ground (arith, ==_iff t.fresh.id t.connected_to, t.current_before, place_of-fresh)

  only_way : (b : ObjectId) → contains b t.fresh.edges ≡ true → (t.connected_to == b) ≡ true
  unfolding contains
  only_way b h = ground (arith, t.only_edge)

  way_back : contains t.connected_to t.fresh.edges ≡ true
  unfolding contains
  way_back = ground (arith, t.only_edge, ==_refl t.connected_to)

  -- The way back in the new world from a place that had one in the old.
  widen :
      (a b : ObjectId) (q : PlaceRecord)
      → place_of b w ≡ some q
      → contains a q.edges ≡ true
      → (r : PlaceRecord) × (place_of b w' ≡ some r)
        × (contains a r.edges ≡ true)
        × (r.scene_id ≡ q.scene_id)
  widen a b q e c = elim (Bool-cases (t.connected_to == b)) [
    | inl y ↦ (
      widened t,
      ground (arith, y, distinct, ==_iff t.connected_to b, place_of-opened b),
      ground (
        arith,
        y,
        e,
        c,
        ==_iff t.connected_to b,
        t.current_before,
        contains-add_edge t.fresh.id a t.current.edges,
      ),
      ground (arith, y, e, ==_iff t.connected_to b, t.current_before),
    )
    | inr n ↦
        (q, ground (arith, n, e, place_of-fresh, ==_iff t.fresh.id b, place_of-opened b), c, refl)
  ]

  Opened-IsPaired : IsPaired w → IsPaired w'
  Opened-IsPaired h a b p e c = elim (Bool-cases (t.fresh.id == a)) [
    | inl y ↦ (
      widened t,
      ground (
        arith,
        y,
        e,
        c,
        distinct,
        only_way b,
        ==_iff t.fresh.id a,
        ==_iff t.connected_to b,
        place_of-opened a,
        place_of-opened b,
      ),
      ground (
        arith,
        y,
        ==_iff t.fresh.id a,
        ==_refl a,
        contains-add_edge t.fresh.id a t.current.edges,
      ),
      ground (arith, y, e, t.same_scene, place_of-opened a),
    )
    | inr n ↦ elim (Bool-cases (t.connected_to == a)) [
      | inl y ↦ elim (Bool-cases (t.fresh.id == b)) [
        | inl z ↦ (
          t.fresh,
          ground (arith, z, place_of-opened b),
          ground (arith, y, way_back, ==_iff t.connected_to a),
          ground (arith, n, y, e, t.same_scene, place_of-opened a),
        )
        | inr m ↦
            (let (q, f, d, k) =
                h a b t.current (ground (arith, y, ==_iff t.connected_to a, t.current_before)) (
                  ground (
                    arith,
                    n,
                    y,
                    m,
                    e,
                    c,
                    place_of-opened a,
                    contains-add_edge t.fresh.id b t.current.edges,
                  )) in
              let (r, f', d', k') = widen a b q f d in
              (r, f', d', k' ∙ k ∙ ground (arith, n, y, e, place_of-opened a)))
      ]
      | inr k ↦
          (let (q, f, d, l) = h a b p (ground (arith, n, k, e, place_of-opened a)) c in
            let (r, f', d', l') = widen a b q f d in (r, f', d', l' ∙ l))
    ]
  ]

check_create_place-ok :
    (actor_id : ActorId) (w : GameWorld) {connected_to : ObjectId}
    → check_create_place actor_id w ≡ ok connected_to
    → (current : PlaceRecord) × (place_of connected_to w ≡ some current)
      × (current.scene_id ≡ w.state.active_scene)
unfolding check_create_place require_place
check_create_place-ok actor_id w h = elim (Option-cases (character_of actor_id w)) [
  | inl e ↦ ground (arith, e)
  | inr (c, e) ↦ elim (Option-cases (place_of c.location w)) [
    | inl f ↦ ground (arith, e, f)
    | inr (p, f) ↦ (p, ground (arith, e, f), ground (arith, e, f))
  ]
]

-- Either nothing is written, or both places are: the spawn of the new place does not fail.
place_place-cases :
    (g : IdGenerator) (actor_id : ActorId) (connected_to : ObjectId) (p : PlaceRecord)
    (action_id : ActionId) (revision : Revision) (w : GameWorld) (s : g.Ids) (current : PlaceRecord)
    → place_of connected_to w ≡ some current
    → p.scene_id ≡ current.scene_id
    → p.edges ≡ connected_to ∷ []
    → ((place_place g actor_id connected_to p action_id revision w s).world ≡ w)
      ⊎ Opened w (place_place g actor_id connected_to p action_id revision w s).world
unfolding place_place write_place spawn_record object_id conclude
place_place-cases g actor_id connected_to p action_id revision w s current e f k =
    elim (Option-cases (get p.id w.objects)) [
      | inr (r, o) ↦ inl (ground (arith, o))
      | inl o ↦ inr (record {
        connected_to = connected_to;
        current = current;
        fresh = p;
        current_before = e;
        same_scene = f;
        only_edge = k;
        is_new = o;
        objects_after = ground (
          arith,
          o,
          get-place connected_to w e,
          get-insert connected_to p.id
              (place (record current { edges = add_edge p.id current.edges })) w.objects,
          ==_iff connected_to p.id,
        );
      })
    ]

-- If every way between two places leads back and stays within a scene, that still holds after a
-- place is created, or refused.
pub create_place-IsPaired :
    (g : IdGenerator) (actor_id : ActorId) (display_name : DisplayName) (description : ShortText)
    (origin : GeneratedOrigin) (action_id : ActionId) (revision : Revision) (w : GameWorld)
    (s : g.Ids)
    → IsPaired w
    → IsPaired
        (create_place g actor_id display_name description origin action_id revision w s).world
unfolding create_place
create_place-IsPaired g actor_id display_name description origin action_id revision w s h =
    elim (Result-cases (check_create_place actor_id w)) [
      | inr (e, q) ↦ rw (unchecked q) h
      | inl (connected_to, q) ↦ elim (Result-cases (generate g s).0) [
        | inr (e, k) ↦ rw (unmade q k) h
        | inl (id, k) ↦
            (let (current, f, same) = check_create_place-ok actor_id w q in
              let p =
                new_place id w.state.active_scene display_name description (connected_to ∷ [])
                  (generated origin) in
              rw (placed q k)
                (elim (place_place-cases g actor_id connected_to p action_id revision w
                  (generate g s).1 current f (sym same) refl) [
                    | inl kept ↦ rw kept h
                    | inr t ↦ Opened-IsPaired w _ t h
                  ]))
      ]
    ]
  where
    unchecked :
        {e : WorldError}
        → check_create_place actor_id w ≡ err e
        → (create_place g actor_id display_name description origin action_id revision w s).world ≡ w
    unchecked q = ground (arith, q)

    unmade :
        {connected_to : ObjectId} {e : WorldError}
        → check_create_place actor_id w ≡ ok connected_to
        → (generate g s).0 ≡ err e
        → (create_place g actor_id display_name description origin action_id revision w s).world ≡ w
    unmade q k = ground (arith, q, k)

    placed :
        {connected_to id : ObjectId}
        → check_create_place actor_id w ≡ ok connected_to
        → (generate g s).0 ≡ ok id
        → create_place g actor_id display_name description origin action_id revision w s
          ≡ place_place g actor_id connected_to
              (new_place id w.state.active_scene display_name description
                (connected_to ∷ [])
                (generated origin))
              action_id
              revision
              w
              (generate g s).1
    placed q k = ground (arith, q, k)
