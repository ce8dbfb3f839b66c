-- ===== src/Core/ChangeSet.antt =====
-- `ExecutionChangeSet` of crates/loreloom-core/src/protocol.rs: what a command changed, and the record
-- operations that it becomes. The two loops over `upserts` and `deletes` share the set `seen`.
pub mod Collecting
pub mod Sorting
pub mod Effect
pub mod Examples
use loreloom.Prelude.{
  ℕ, suc, Bool, ◌&&◌, ◌||◌, not, Option, some, none, List, [], ◌∷◌, leb, if◌then◌else◌, Result, ok,
  err, ◌>>=◌, ◌>>◌, ensure, ◌=?◌,
}
use loreloom.Prelude.Words.{u32_max}
use loreloom.Prelude.Map.{Map, contains}
use loreloom.Core.Revision.{Revision}
use loreloom.Core.Record.{
  RecordKey, key_eq, RecordProvenance, RecordMutation, upsert, delete, VersionedRecordOp,
}
use loreloom.Core.Migration.{Value}
use loreloom.Core.Domain.{DomainRecord}
use loreloom.Core.Domain.Identities.{ActionId, ActorId, EventId, ShortText}
use loreloom.Core.Domain.Protocol.{WorldEventKind}
use loreloom.Core.Codec.{Codec, CodecError, domain, domain_key, to_envelope}
use loreloom.Core.Codec.Validation.{invalid_value, text_ltb}

pub record WorldEvent : Type 0 where
  pub id : EventId
  pub action_id : ActionId
  pub actor_id : ActorId
  pub revision : Revision
  pub kind : WorldEventKind

pub record ExecutionChangeSet : Type 0 where
  pub action_id : ActionId
  pub expected_revision : Revision
  pub revision : Revision
  pub upserts : List DomainRecord
  pub deletes : List RecordKey
  pub events : List WorldEvent
  pub safe_summary : ShortText

abbrev pub Mutations : Type 0
Mutations = Map RecordKey (RecordMutation Value)

-- `Ord` of `RecordKey`: the type first, then the identifier.
abbrev pub key_ltb : RecordKey → RecordKey → Bool
key_ltb a b =
    text_ltb a.record_type b.record_type
    || (not (text_ltb b.record_type a.record_type) && text_ltb a.record_id b.record_id)

unfoldable pub collect_deletes : List RecordKey → List RecordKey → Result CodecError Mutations
collect_deletes seen [] = ok []
collect_deletes seen (k ∷ ks) = do
  ensure (not (contains k seen)) (domain (invalid_value "change_set.duplicate_record"))
  rest ← collect_deletes (k ∷ seen) ks
  ok ((k, delete k) ∷ rest)

-- A stable sort of the mutations by their keys.
unfoldable pub insert_sorted : RecordKey → RecordMutation Value → Mutations → Mutations
insert_sorted j m [] = (j, m) ∷ []
insert_sorted j m ((i, w) ∷ rest) =
    let more = insert_sorted j m rest in
    if key_ltb i j then (i, w) ∷ more else (j, m) ∷ (i, w) ∷ rest

unfoldable pub sort_mutations : Mutations → Mutations
sort_mutations [] = []
sort_mutations ((k, m) ∷ rest) = insert_sorted k m (sort_mutations rest)

-- `enumerate` with the conversion of the order to a `u32`
unfoldable pub enumerate :
    Revision → ActionId → ℕ → Mutations → Result CodecError (List (VersionedRecordOp Value))
enumerate revision action order [] = ok []
enumerate revision action order ((k, m) ∷ rest) = do
  ensure (leb order u32_max) (domain (invalid_value "change_set.operation_count"))
  more ← enumerate revision action (suc order) rest
  ok (record { revision = revision; action_id = action; order = order; mutation = m } ∷ more)

abbrev pub provenance_of : ActionId → Option RecordProvenance
provenance_of action =
    some (record { action_id = some action; mod_id = none; definition_id = none })

module _ (c : Codec) where
  unfoldable pub collect :
      Revision
      → Option RecordProvenance
      → List RecordKey
      → List DomainRecord
      → List RecordKey
      → Result CodecError Mutations
  unfolding collect_deletes
  collect revision provenance seen [] deletes = collect_deletes seen deletes
  collect revision provenance seen (r ∷ upserts) deletes = do
    k ← domain_key c r
    ensure (not (contains k seen)) (domain (invalid_value "change_set.duplicate_record"))
    envelope ← to_envelope c r revision provenance
    rest ← collect revision provenance (k ∷ seen) upserts deletes
    ok ((k, upsert envelope) ∷ rest)

  unfoldable pub record_ops :
      ExecutionChangeSet → Result CodecError (List (VersionedRecordOp Value))
  unfolding collect sort_mutations enumerate
  record_ops s = do
    mutations ← collect s.revision (provenance_of s.action_id) [] s.upserts s.deletes
    enumerate s.revision s.action_id 0 (sort_mutations mutations)
