-- ===== src/World/Types.antt =====
-- The state of `GameWorld` and what its commands share: crates/loreloom-world/src/game_world.rs and
-- error.rs. An entity of bevy has one component, made when its record is spawned, so `objects` maps an
-- identifier to the record itself.
use loreloom.Prelude.{
  ℕ, Option, none, some, List, [], ◌∷◌, String, if◌then◌else◌, Result, ok, err, ◌>>=◌, ok_or,
  map_err, Text, nat_eq, ◌||◌, ltb,
}
use loreloom.Prelude.Map.{Map, get, insert}
use loreloom.Core.Revision.{Revision, RevisionError, FixedError}
use loreloom.Core.Record.{RecordKey}
use loreloom.Core.Domain.{DomainRecord, object_id, item, character, place, scene}
use loreloom.Core.Domain.Identities.{
  ObjectId, ActorId, ActionId, TranscriptItemId, ContentDefinitionId, ShortText, IdentityError,
  validate_uuid_v7, new_text,
}
use loreloom.Core.Domain.Objects.{
  WorldStateRecord, SceneRecord, PlaceRecord, CharacterRecord, ItemRecord,
}
use loreloom.Core.Domain.Facts.{TranscriptItemRecord}
use loreloom.Core.Domain.Protocol.{WorldEventKind}
use loreloom.Core.Codec.Validation.{DomainError}
use loreloom.Core.ChangeSet.{WorldEvent}

-- The errors of the content crate are not looked into.
pub data WorldError : Type 0 where
  conflict : Revision → Revision → WorldError
  object_not_found wrong_object_kind : ObjectId → WorldError
  definition_not_found : ContentDefinitionId → WorldError
  duplicate_identity world_state content_error : WorldError
  domain_rule invariant : String → WorldError
  domain_error : DomainError → WorldError
  revision_error : RevisionError → WorldError
  fixed_error : FixedError → WorldError
  identity_error : IdentityError → WorldError

pub record RuleLimits : Type 0 where
  pub max_triggered_rules : ℕ
  pub max_evaluated_predicates : ℕ
  pub max_applied_effects : ℕ
  pub max_cascade_depth : ℕ

abbrev pub default_limits : RuleLimits
default_limits = record {
  max_triggered_rules = 128;
  max_evaluated_predicates = 1_024;
  max_applied_effects = 512;
  max_cascade_depth = 8;
}

unfoldable pub validate_rule_limits : RuleLimits → Result WorldError (Unit {0})
validate_rule_limits limits =
    let maximum = default_limits in
    if ltb maximum.max_triggered_rules limits.max_triggered_rules
      || ltb maximum.max_evaluated_predicates limits.max_evaluated_predicates
      || ltb maximum.max_applied_effects limits.max_applied_effects
      || ltb maximum.max_cascade_depth limits.max_cascade_depth
    then err (invariant "rule_limits.maximum")
    else ok tt

-- `IdGenerator`: the trait that makes new identifiers, with its state.
pub record IdGenerator : Type 1 where
  pub Ids : Type 0
  pub next_uuid_v7 : Ids → ℕ × Ids

-- The session parameters and the configuration are left out: no command here reads them.
pub record GameWorld : Type 0 where
  pub revision : Revision
  pub state : WorldStateRecord
  pub objects : Map ObjectId DomainRecord
  pub transcripts : Map TranscriptItemId TranscriptItemRecord

-- The four parts of `ChangeParts`.
pub record ChangeParts : Type 0 where
  pub records : List DomainRecord
  pub deletes : List RecordKey
  pub events : List WorldEvent
  pub safe_summary : ShortText

abbrev pub as_item : DomainRecord → Option ItemRecord
as_item (item value) = some value
as_item _ = none

abbrev pub as_character : DomainRecord → Option CharacterRecord
as_character (character value) = some value
as_character _ = none

abbrev pub as_place : DomainRecord → Option PlaceRecord
as_place (place value) = some value
as_place _ = none

abbrev pub as_scene : DomainRecord → Option SceneRecord
as_scene (scene value) = some value
as_scene _ = none

-- `objects.get(&id)` and the component of a type, if the entity has it.
abbrev pub component {ℓ} :
    {A : Type ℓ} → (DomainRecord → Option A) → ObjectId → GameWorld → Option A
component pick id w = elim (get id w.objects) [ none ↦ none | some r ↦ pick r ]

unfoldable pub item_of : ObjectId → GameWorld → Option ItemRecord
item_of = component as_item

unfoldable pub character_of : ActorId → GameWorld → Option CharacterRecord
character_of = component as_character

unfoldable pub require_place : ObjectId → GameWorld → Result WorldError PlaceRecord
require_place id w = ok_or (component as_place id w) (wrong_object_kind id)

unfoldable pub require_scene : ObjectId → GameWorld → Result WorldError SceneRecord
require_scene id w = ok_or (component as_scene id w) (wrong_object_kind id)

-- `items`: the items among the entities.
abbrev pub items_among : Map ObjectId DomainRecord → List ItemRecord
items_among [] = []
items_among ((id, r) ∷ m) =
    let rest = items_among m in elim (as_item r) [ some i ↦ i ∷ rest | none ↦ rest ]

abbrev pub items : GameWorld → List ItemRecord
items w = items_among w.objects

-- `require_object`, `get_mut` for a component, and the write through it, which it returns.
abbrev pub edit :
    {A : Type 0}
    → (DomainRecord → Option A)
    → (A → DomainRecord)
    → ObjectId
    → (A → A)
    → GameWorld
    → Result WorldError (A × GameWorld)
edit pick wrap id f w = do
  r ← ok_or (get id w.objects) (object_not_found id)
  a ← ok_or (pick r) (wrong_object_kind id)
  ok (f a, record w { objects = insert id (wrap (f a)) w.objects })

unfoldable pub spawn_record : DomainRecord → GameWorld → Result WorldError GameWorld
spawn_record r w = do
  id ← ok_or (object_id r) world_state
  elim (get id w.objects) [
    | some _ ↦ err duplicate_identity
    | none ↦ ok (record w { objects = insert id r w.objects })
  ]

-- `ShortText::new` for the summaries, which are short
unfoldable pub summary : Text → Result WorldError ShortText
summary value = map_err (λ _. invariant "safe_summary_bound") (new_text 4096 value)

module _ (g : IdGenerator) where
  -- `generate_with` of an identifier
  unfoldable pub generate : g.Ids → Result WorldError ℕ × g.Ids
  generate s =
      let (uuid, rest) = g.next_uuid_v7 s in (map_err identity_error (validate_uuid_v7 uuid), rest)

  unfoldable pub event :
      ActionId → ActorId → Revision → WorldEventKind → g.Ids → Result WorldError WorldEvent × g.Ids
  unfolding generate
  event action actor revision kind s =
      let (id, rest) = generate s in
      (
        id >>= (λ i. ok (record {
          id = i;
          action_id = action;
          actor_id = actor;
          revision = revision;
          kind = kind;
        })),
        rest,
      )

  -- What a command leaves: the world and the generator, also after an error, and its parts.
  pub record Done : Type 0 where
    pub world : GameWorld
    pub ids : g.Ids
    pub result : Result WorldError ChangeParts

  -- The end of a command that has one event.
  unfoldable pub conclude :
      ActionId
      → ActorId
      → Revision
      → List DomainRecord
      → WorldEventKind
      → Text
      → GameWorld
      → g.Ids
      → Done
  unfolding event summary
  conclude action actor revision records kind text w s =
      let (made, rest) = event action actor revision kind s in
      record {
        world = w;
        ids = rest;
        result = do
          e ← made
          short ← summary text
          ok (record { records = records; deletes = []; events = e ∷ []; safe_summary = short });
      }

  -- An error before anything is written.
  abbrev pub refused : GameWorld → g.Ids → WorldError → Done
  refused w s e = record { world = w; ids = s; result = err e }
