-- ===== src/World/Transcripts.antt =====
-- `append_transcripts` of crates/loreloom-world/src/game_world.rs, with the check of who may read what. A
-- private copy of a line of the player is a receipt: it names the line that it is of.
pub mod Receipts
use loreloom.Prelude.{
  ℕ, nat_eq, Bool, true, false, ◌&&◌, ◌||◌, not, Option, none, some, List, [], ◌∷◌, ◌==◌, ltb,
  if◌then◌else◌, Result, ok, err, ◌>>=◌, ◌>>◌, map_err, ensure, text_beq, bytes,
}
use loreloom.Prelude.Map.{Map, get, insert, contains}
use loreloom.Core.Revision.{Revision}
use loreloom.Core.Domain.{DomainRecord, transcript_item}
use loreloom.Core.Domain.Identities.{ActorId, TranscriptItemId}
use loreloom.Core.Domain.Facts.{
  TranscriptAudience, npc, TranscriptSpeaker, narrator, actor, TranscriptItemRecord,
}
use loreloom.Core.Domain.Facts
use loreloom.Core.Codec.Validation.{validate_domain, is_some}
use loreloom.World.Types.{
  GameWorld, WorldError, domain_rule, domain_error, character_of, ChangeParts, summary,
}

abbrev pub Transcripts : Type 0
Transcripts = Map TranscriptItemId TranscriptItemRecord

-- `==` of two audiences, speakers and optional numbers
abbrev pub same_audience : TranscriptAudience → TranscriptAudience → Bool
same_audience Facts.player Facts.player = true
same_audience (npc a) (npc b) = a == b
same_audience _ _ = false

abbrev pub same_number : Option ℕ → Option ℕ → Bool
same_number none none = true
same_number (some a) (some b) = a == b
same_number _ _ = false

abbrev same_speaker : TranscriptSpeaker → TranscriptSpeaker → Bool
same_speaker (Facts.player a m) (Facts.player b n) = a == b && text_beq m n
same_speaker narrator narrator = true
same_speaker (actor a m) (actor b n) = same_number a b && text_beq m n
same_speaker Facts.system Facts.system = true
same_speaker _ _ = false

-- `left > right` on optional revisions: `None` is the least.
abbrev after_revision : Option Revision → Option Revision → Bool
after_revision none r = false
after_revision (some a) none = true
after_revision (some a) (some b) = ltb b a

abbrev is_public : TranscriptAudience → Bool
is_public Facts.player = true
is_public (npc a) = false

abbrev is_player_speaker : TranscriptSpeaker → Bool
is_player_speaker (Facts.player a m) = true
is_player_speaker _ = false

abbrev speaks_as : TranscriptSpeaker → ActorId → Bool
speaks_as (actor (some owner) m) id = owner == id
speaks_as _ id = false

abbrev no_events : TranscriptItemRecord → Bool
no_events t = elim t.supporting_events [ [] ↦ true | _ ↦ false ]

-- The line of the player that a receipt is of.
abbrev is_source : TranscriptItemRecord → TranscriptItemRecord → Bool
is_source source t =
    is_public source.audience
    && is_player_speaker source.speaker
    && text_beq source.text t.text
    && same_speaker source.speaker t.speaker
    && source.session_id == t.session_id
    && not (after_revision source.revision t.revision)
    && no_events t

-- A private line that is no receipt is spoken by its owner.
unfoldable pub check_private :
    Transcripts
    → ActorId
    → TranscriptItemRecord
    → Option TranscriptItemId
    → Result WorldError (Unit {0})
check_private stored id t (some source_id) = elim (get source_id stored) [
  | none ↦ err (domain_rule "transcript_source")
  | some source ↦ ensure (is_source source t) (domain_rule "transcript_source")
]
check_private stored id t none =
    ensure (speaks_as t.speaker id && no_events t) (domain_rule "transcript_private_speaker")

unfoldable pub check_audience :
    GameWorld → TranscriptItemRecord → TranscriptAudience → Result WorldError (Unit {0})
check_audience w t Facts.player =
    ensure (not (is_some t.source_id)) (domain_rule "transcript_public_source")
check_audience w t (npc id) = do
  ensure (is_some (character_of id w)) (domain_rule "transcript_owner")
  check_private w.transcripts id t t.source_id

unfoldable pub validate_transcript_audience :
    GameWorld → TranscriptItemRecord → Result WorldError (Unit {0})
validate_transcript_audience w t = check_audience w t t.audience

-- Another receipt of the same line for the same reader, among those stored and among the new ones.
unfoldable pub received : TranscriptItemRecord → Transcripts → Bool
received t [] = false
received t ((id, other) ∷ m) =
    (same_audience other.audience t.audience && same_number other.source_id t.source_id)
    || received t m

unfoldable pub received_beside : TranscriptItemRecord → List TranscriptItemRecord → Bool
received_beside t [] = false
received_beside t (other ∷ rest) =
    (not (other.id == t.id)
      && same_audience other.audience t.audience
      && same_number other.source_id t.source_id)
    || received_beside t rest

-- The owner of a private line, or the actor that speaks as the player, is not the one given.
abbrev other_owner : TranscriptAudience → ActorId → Bool
other_owner (npc owner) id = not (owner == id)
other_owner Facts.player id = false

abbrev other_player : TranscriptItemRecord → ActorId → Bool
other_player t id = elim t.speaker [
  | Facts.player speaker m ↦ not (speaker == id) && is_public t.audience
  | _ ↦ false
]

-- One turn of the loop over the new items.
unfoldable pub check_item :
    ActorId
    → Revision
    → GameWorld
    → List TranscriptItemRecord
    → List TranscriptItemId
    → TranscriptItemRecord
    → Result WorldError (Unit {0})
check_item actor_id revision w items seen t = do
  map_err domain_error (validate_domain (transcript_item t))
  validate_transcript_audience w t
  ensure (not (is_some t.source_id && (received t w.transcripts || received_beside t items)))
      (domain_rule "transcript_duplicate_receipt")
  ensure (not (other_owner t.audience actor_id)) (domain_rule "transcript_owner")
  ensure
      (same_number t.revision (some revision)
        && not (contains t.id seen)
        && not (is_some (get t.id w.transcripts)))
      (domain_rule "transcript_item_invalid")
  ensure (not (other_player t actor_id)) (domain_rule "transcript_player_actor")

unfoldable pub check_items :
    ActorId
    → Revision
    → GameWorld
    → List TranscriptItemRecord
    → List TranscriptItemId
    → List TranscriptItemRecord
    → Result WorldError (Unit {0})
check_items actor_id revision w items seen [] = ok tt
check_items actor_id revision w items seen (t ∷ rest) = do
  check_item actor_id revision w items seen t
  check_items actor_id revision w items (t.id ∷ seen) rest

-- `sort_by_key`: the printed identifiers of one kind are in the order of their numbers.
unfoldable pub insert_by_id :
    TranscriptItemRecord → List TranscriptItemRecord → List TranscriptItemRecord
insert_by_id t [] = t ∷ []
insert_by_id t (other ∷ rest) =
    let more = insert_by_id t rest in if ltb other.id t.id then other ∷ more else t ∷ other ∷ rest

unfoldable pub sort_by_id : List TranscriptItemRecord → List TranscriptItemRecord
sort_by_id [] = []
sort_by_id (t ∷ rest) = insert_by_id t (sort_by_id rest)

unfoldable pub store_all : List TranscriptItemRecord → Transcripts → Transcripts
store_all [] stored = stored
store_all (t ∷ rest) stored = store_all rest (insert t.id t stored)

abbrev as_records : List TranscriptItemRecord → List DomainRecord
as_records [] = []
as_records (t ∷ rest) = transcript_item t ∷ as_records rest

abbrev is_empty : List TranscriptItemRecord → Bool
is_empty [] = true
is_empty (t ∷ rest) = false

-- The checks read only; with them passed the items are stored.
unfoldable pub append_transcripts :
    ActorId
    → List TranscriptItemRecord
    → Revision
    → GameWorld
    → GameWorld × Result WorldError ChangeParts
append_transcripts actor_id items revision w =
    let sorted = sort_by_id items in
    elim (ensure (not (is_empty items)) (domain_rule "transcript_items_empty")
      >> check_items actor_id revision w items [] items) [
        | err e ↦ (w, err e)
        | ok _ ↦ (
          record w { transcripts = store_all sorted w.transcripts },
          (do
            short ← summary (bytes "transcript appended")
            ok (record {
              records = as_records sorted;
              deletes = [];
              events = [];
              safe_summary = short;
            })),
        )
      ]
