-- ===== src/Store/Types.antt =====
-- The values that the store handles: crates/loreloom-store/src/models.rs, request.rs and error.rs, and
-- the commands and events of crates/loreloom-core/src/protocol.rs. `Host` is what the store builds on:
-- the JSON encoder, SHA-256, the printing of identifiers, and the database with its transactions.
-- What a command, an event or a transcript says is not looked at here, and is of any type.
use loreloom.Prelude.{ℕ, Bool, Option, List, String, Text}
use loreloom.Prelude.Int.{ℤ}
use loreloom.Core.Revision.{Revision, RevisionError}
use loreloom.Core.Names.{NameError}
use loreloom.Core.Record.{VersionedRecordOp, RecordError}

pub data StoreError : Type 0 where
  save_already_exists save_not_found save_not_initialized invalid_save_head_count : StoreError
  backend : String → StoreError
  json : String → StoreError
  integrity : String → StoreError
  revision_out_of_range : Revision → StoreError
  invalid_commit : String → StoreError
  revision_error : RevisionError → StoreError
  domain_error : NameError → StoreError
  record_error : RecordError → StoreError
  persistence_error : StoreError

pub record WorldCommand (Kind : Type 0) : Type 0 where
  pub action_id : ℕ
  pub actor_id : ℕ
  pub expected_revision : Revision
  pub kind : Kind

pub record WorldEvent (EventKind : Type 0) : Type 0 where
  pub id : ℕ
  pub action_id : ℕ
  pub actor_id : ℕ
  pub revision : Revision
  pub kind : EventKind

pub record Transcript (Body : Type 0) : Type 0 where
  pub id : ℕ
  pub revision : Option Revision
  pub body : Body

pub record CommittedAction : Type 0 where
  pub action_id : ℕ
  pub revision : Revision
  pub event_ids : List ℕ
  pub safe_summary : Text

pub data CommitResult : Type 0 where
  committed : CommittedAction → CommitResult
  already_committed : CommittedAction → CommitResult
  conflict : Revision → Revision → CommitResult
  action_identity_conflict : ℕ → CommitResult

pub data ActionResolution : Type 0 where
  not_committed : Revision → ActionResolution
  resolved : CommittedAction → ActionResolution
  identity_conflict : ℕ → ActionResolution

pub record SaveHeadRow (Json : Type 0) : Type 0 where
  pub save_id : Text
  pub revision : ℤ
  pub manifest : Json
  pub checksum : Text

pub record RecordOpRow (Json : Type 0) : Type 0 where
  pub id : Text
  pub save_id : Text
  pub revision : ℤ
  pub op_order : ℕ
  pub action_id : Text
  pub payload : Json
  pub checksum : Text

pub record WorldEventRow (Json : Type 0) : Type 0 where
  pub id : Text
  pub save_id : Text
  pub revision : ℤ
  pub event_id : Text
  pub payload : Json
  pub checksum : Text

pub record TranscriptRow (Json : Type 0) : Type 0 where
  pub id : Text
  pub save_id : Text
  pub revision : ℤ
  pub transcript_id : Text
  pub payload : Json
  pub checksum : Text

pub record ActionCommitRow (Json : Type 0) : Type 0 where
  pub id : Text
  pub save_id : Text
  pub action_id : Text
  pub revision : ℤ
  pub request_digest : Text
  pub command : Json
  pub outcome : Json
  pub checksum : Text

-- What the database answers to the commit of a transaction. `lost` is a serialization failure, and
-- comes with the database as the other writer left it. Any other error may hide that the transaction
-- took effect: `broken` says whether it did.
pub data Verdict (Db : Type 0) : Type 0 where
  durable : Verdict Db
  lost : Db → Verdict Db
  broken : Bool → Verdict Db

pub record Host : Type 1 where
  -- what the store does not look into
  pub Kind : Type 0
  pub EventKind : Type 0
  pub Body : Type 0
  pub Value : Type 0
  pub Manifest : Type 0
  pub save_id : Manifest → Text
  pub validate_manifest : Manifest → Bool
  pub same_manifest : Manifest → Manifest → Bool
  -- `Display` of `ActionId`, `EventId` and `TranscriptItemId`, and `{:020}` and `{:010}`
  pub show_action : ℕ → Text
  pub show_event : ℕ → Text
  pub show_transcript : ℕ → Text
  pub padded : ℕ → ℕ → Text
  -- serde_json
  pub Json : Type 0
  pub object : List (String × Json) → Json
  pub string : Text → Json
  pub number : ℕ → Json
  pub to_vec : Json → Option Text
  pub command_vec : WorldCommand Kind → Option Text
  pub command_json : WorldCommand Kind → Option Json
  pub outcome_json : CommittedAction → Option Json
  pub op_json : VersionedRecordOp Value → Option Json
  pub event_json : WorldEvent EventKind → Option Json
  pub transcript_json : Transcript Body → Option Json
  pub manifest_json : Manifest → Option Json
  pub decode_command : Json → Option (WorldCommand Kind)
  pub decode_outcome : Json → Option CommittedAction
  pub decode_manifest : Json → Option Manifest
  -- sha2
  pub sha256 : Text → Text
  -- the database: reads by key (`none` is a record that is not found), and writes
  pub Db : Type 0
  pub head_row : Text → Db → Option (SaveHeadRow Json)
  pub action_row : Text → Db → Option (ActionCommitRow Json)
  pub create_op : RecordOpRow Json → Db → Db
  pub create_event : WorldEventRow Json → Db → Db
  pub create_transcript : TranscriptRow Json → Db → Db
  pub create_action : ActionCommitRow Json → Db → Db
  pub update_head : SaveHeadRow Json → Db → Db

-- Which calls of the backend fail during one operation, and how its commit ends.
pub record Weather (h : Host) : Type 0 where
  pub fails : String → Bool
  pub verdict : Verdict (h.Db)
