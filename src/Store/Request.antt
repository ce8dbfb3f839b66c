-- ===== src/Store/Request.antt =====
-- `CommitRequest::validate` of crates/loreloom-store/src/request.rs.
use loreloom.Prelude.{
  ℕ, suc, Bool, true, false, ◌&&◌, ◌||◌, not, Option, none, some, List, [], ◌∷◌, ◌==◌,
  if◌then◌else◌, bytes, text_beq, Result, ok, err, ◌>>=◌, ◌>>◌, map_err, ensure, ◌=?◌,
}
use loreloom.Core.Revision.{Revision, next}
use loreloom.Core.Names.{parse_record_type, parse_record_id}
use loreloom.Core.Record.{RecordKey, VersionedRecordOp, RecordMutation, upsert, delete, key, key_eq}
use loreloom.Store.Types.{
  Host, StoreError, invalid_commit, revision_error, domain_error, WorldCommand, WorldEvent,
  Transcript, CommittedAction,
}

abbrev pub ids_beq : List ℕ → List ℕ → Bool
ids_beq = text_beq

abbrev pub has_id : ℕ → List ℕ → Bool
has_id a [] = false
has_id a (b ∷ bs) = b == a || has_id a bs

-- The set of the identifiers is as large as the list.
abbrev pub all_distinct : List ℕ → Bool
all_distinct [] = true
all_distinct (a ∷ as') = not (has_id a as') && all_distinct as'

abbrev has_key : RecordKey → List RecordKey → Bool
has_key k [] = false
has_key k (j ∷ js) = j =? k || has_key k js

module _ (h : Host) where
  open h use {Kind, EventKind, Body, Value, show_transcript}

  pub record CommitRequest : Type 0 where
    pub command : WorldCommand Kind
    pub record_ops : List (VersionedRecordOp Value)
    pub events : List (WorldEvent EventKind)
    pub transcripts : List (Transcript Body)
    pub safe_outcome : CommittedAction

  abbrev Check : Type 0
  Check = Result StoreError (Unit {0})

  fits_revision : Revision → RecordMutation Value → Bool
  fits_revision revision (upsert r) = r.revision == revision
  fits_revision revision (delete k) = true

  -- The loop over `record_ops.iter().enumerate()`.
  unfoldable pub check_ops : ℕ → Revision → ℕ → List (VersionedRecordOp Value) → Check
  unfolding fits_revision
  check_ops action revision order [] = ok tt
  check_ops action revision order (op ∷ ops) =
      let rest = check_ops action revision (suc order) ops in
      if not (op.action_id == action) || not (op.revision == revision) || not (op.order == order)
      then err (invalid_commit "record_op_identity")
      else if not (fits_revision revision op.mutation)
      then err (invalid_commit "record_op_envelope_revision")
      else rest

  unfoldable pub events_belong : WorldCommand Kind → Revision → List (WorldEvent EventKind) → Bool
  events_belong c revision [] = true
  events_belong c revision (e ∷ es) =
      e.action_id == c.action_id
      && e.actor_id == c.actor_id
      && e.revision == revision
      && events_belong c revision es

  unfoldable pub event_ids : List (WorldEvent EventKind) → List ℕ
  event_ids [] = []
  event_ids (e ∷ es) = e.id ∷ event_ids es

  unfoldable pub upsert_keys : List (VersionedRecordOp Value) → List RecordKey
  upsert_keys [] = []
  upsert_keys (op ∷ ops) = elim op.mutation [
    | upsert r ↦ key r ∷ upsert_keys ops
    | delete k ↦ upsert_keys ops
  ]

  -- `DomainRecord::TranscriptItem(transcript).key()`
  unfoldable pub transcript_key : ℕ → Result StoreError RecordKey
  transcript_key id = do
    record_type ← map_err domain_error (parse_record_type (bytes "transcript_item"))
    record_id ← map_err domain_error (parse_record_id (show_transcript id))
    ok (record { record_type = record_type; record_id = record_id })

  abbrev is_revision : Option Revision → Revision → Bool
  is_revision none revision = false
  is_revision (some r) revision = r == revision

  unfoldable pub check_transcripts : Revision → List RecordKey → List (Transcript Body) → Check
  unfolding transcript_key
  check_transcripts revision keys [] = ok tt
  check_transcripts revision keys (t ∷ ts) = do
    ensure (is_revision t.revision revision) (invalid_commit "transcript_revision")
    k ← transcript_key t.id
    ensure (has_key k keys) (invalid_commit "transcript_record_op")
    check_transcripts revision keys ts

  abbrev is_empty : List (VersionedRecordOp Value) → Bool
  is_empty [] = true
  is_empty (op ∷ ops) = false

  unfoldable pub validate : CommitRequest → Check
  unfolding check_ops events_belong event_ids upsert_keys check_transcripts
  validate r = do
    revision ← map_err revision_error (next r.command.expected_revision)
    ensure (r.safe_outcome.action_id == r.command.action_id && r.safe_outcome.revision == revision)
        (invalid_commit "safe_outcome_identity")
    ensure (not (is_empty r.record_ops)) (invalid_commit "record_ops_empty")
    check_ops r.command.action_id revision 0 r.record_ops
    let ids = event_ids r.events
    ensure (ids_beq ids r.safe_outcome.event_ids && all_distinct ids) (invalid_commit "event_ids")
    ensure (events_belong r.command revision r.events) (invalid_commit "event_identity")
    check_transcripts revision (upsert_keys r.record_ops) r.transcripts
