-- ===== src/Store/Rows.antt =====
-- The rows of crates/loreloom-store/src/store.rs: the preparation of a commit, and the validation of a
-- row that is read back.
use loreloom.Prelude.{
  ℕ, ◌^◌, ◌-◌, Bool, false, ◌&&◌, Option, none, some, List, [], ◌∷◌, ◌++◌, leb, ◌==◌, if◌then◌else◌,
  Text, text_beq, Result, ok, err, ◌>>=◌, ◌>>◌, ok_or, ensure,
}
use loreloom.Prelude.Int.{ℤ, pos, negsuc}
use loreloom.Core.Revision.{Revision}
use loreloom.Core.Record.{VersionedRecordOp}
use loreloom.Store.Types.{
  Host, StoreError, json, integrity, revision_out_of_range, invalid_commit, persistence_error,
  WorldCommand, WorldEvent, Transcript, CommittedAction, SaveHeadRow, RecordOpRow, WorldEventRow,
  TranscriptRow, ActionCommitRow,
}
use loreloom.Store.Request.{CommitRequest}
use loreloom.Store.Checksums.{
  Fallible, to_json, request_digest, head_checksum, record_op_checksum, event_checksum,
  transcript_checksum, action_checksum,
}

unfoldable pub revision_to_i64 : Revision → Result StoreError ℤ
revision_to_i64 r = if leb r (2 ^ 63 - 1) then ok (pos r) else err (revision_out_of_range r)

unfoldable pub revision_from_i64 : ℤ → Result StoreError Revision
revision_from_i64 (pos n) = ok n
revision_from_i64 (negsuc n) = err (integrity "negative_revision")

module _ (h : Host) where
  open h use {
    Kind, EventKind, Body, Value, Manifest, save_id, validate_manifest, show_action, show_event,
    show_transcript, padded, Json, object, string, number, to_vec, command_vec, command_json,
    outcome_json, op_json, event_json, transcript_json, manifest_json, decode_command,
    decode_outcome, decode_manifest, sha256,
  }

  -- `format!("{:020}/{order:010}", …)` and its like
  abbrev op_row_id : Revision → ℕ → Text
  op_row_id revision order = padded 20 revision ++ (b'/' ∷ padded 10 order)

  abbrev event_row_id : Revision → ℕ → Text
  event_row_id revision event = padded 20 revision ++ (b'/' ∷ show_event event)

  abbrev transcript_row_id : Revision → ℕ → Text
  transcript_row_id revision transcript = padded 20 revision ++ (b'/' ∷ show_transcript transcript)

  -- What the commit writes: `PreparedCommit` with the rows that it becomes.
  pub record PreparedCommit : Type 0 where
    pub save : Text
    pub revision : ℤ
    pub record_ops : List (RecordOpRow Json)
    pub events : List (WorldEventRow Json)
    pub transcripts : List (TranscriptRow Json)
    pub action : ActionCommitRow Json
    pub head_checksum : Text

  unfoldable pub prepare_ops :
      Text → Text → ℤ → List (VersionedRecordOp Value) → Fallible h (List (RecordOpRow Json))
  prepare_ops save action revision [] = ok []
  prepare_ops save action revision (op ∷ ops) = do
    payload ← to_json h (op_json op) "encode record operation"
    checksum ← record_op_checksum h save op.revision op.order (show_action op.action_id) payload
    rest ← prepare_ops save action revision ops
    ok (
        record {
          id = op_row_id op.revision op.order;
          save_id = save;
          revision = revision;
          op_order = op.order;
          action_id = action;
          payload = payload;
          checksum = checksum;
        }
        ∷ rest)

  unfoldable pub prepare_events :
      Text → ℤ → List (WorldEvent EventKind) → Fallible h (List (WorldEventRow Json))
  prepare_events save revision [] = ok []
  prepare_events save revision (e ∷ es) = do
    payload ← to_json h (event_json e) "encode world event"
    checksum ← event_checksum h save e.revision e.id payload
    rest ← prepare_events save revision es
    ok (
        record {
          id = event_row_id e.revision e.id;
          save_id = save;
          revision = revision;
          event_id = show_event e.id;
          payload = payload;
          checksum = checksum;
        }
        ∷ rest)

  -- `prepare_transcripts`: a transcript of a commit names its revision, one of the first checkpoint
  -- may name none.
  revision_suits : Bool → Option Revision → Revision → Bool
  revision_suits initial none revision = initial
  revision_suits initial (some r) revision = r == revision

  unfoldable pub prepare_transcripts :
      Text → Revision → List (Transcript Body) → Bool → Fallible h (List (TranscriptRow Json))
  unfolding revision_suits
  prepare_transcripts save revision [] initial = ok []
  prepare_transcripts save revision (t ∷ ts) initial = do
    ensure (revision_suits initial t.revision revision) (invalid_commit "transcript_revision")
    payload ← to_json h (transcript_json t) "encode transcript"
    checksum ← transcript_checksum h save revision t.id payload
    stored ← revision_to_i64 revision
    rest ← prepare_transcripts save revision ts initial
    ok (
        record {
          id = transcript_row_id revision t.id;
          save_id = save;
          revision = stored;
          transcript_id = show_transcript t.id;
          payload = payload;
          checksum = checksum;
        }
        ∷ rest)

  -- The row of the action, of which the rest of the commit hangs.
  unfoldable pub prepare_action :
      Text → ℤ → WorldCommand Kind → CommittedAction → Fallible h (ActionCommitRow Json)
  prepare_action save revision command outcome = do
    request ← request_digest h command
    command_value ← to_json h (command_json command) "encode committed command"
    outcome_value ← to_json h (outcome_json outcome) "encode committed outcome"
    checksum ←
        action_checksum h save (show_action command.action_id) outcome.revision request
          command_value outcome_value
    ok (record {
      id = show_action command.action_id;
      save_id = save;
      action_id = show_action command.action_id;
      revision = revision;
      request_digest = request;
      command = command_value;
      outcome = outcome_value;
      checksum = checksum;
    })

  -- `PreparedCommit::new`
  unfoldable pub prepare : Manifest → CommitRequest h → Fallible h PreparedCommit
  prepare manifest r = do
    let revision = r.safe_outcome.revision
    let save = save_id manifest
    stored ← revision_to_i64 revision
    action ← prepare_action save stored r.command r.safe_outcome
    manifest_value ← to_json h (manifest_json manifest) "encode committed manifest"
    checksum ← head_checksum h revision manifest_value
    ops ← prepare_ops save (show_action r.command.action_id) stored r.record_ops
    events ← prepare_events save stored r.events
    transcripts ← prepare_transcripts save revision r.transcripts false
    ok (record {
      save = save;
      revision = stored;
      record_ops = ops;
      events = events;
      transcripts = transcripts;
      action = action;
      head_checksum = checksum;
    })

  unfoldable pub validate_head_row : SaveHeadRow Json → Fallible h (Manifest × Revision)
  validate_head_row row = do
    revision ← revision_from_i64 row.revision
    checksum ← head_checksum h revision row.manifest
    ensure (text_beq checksum row.checksum) (integrity "save_head_checksum")
    manifest ← ok_or (decode_manifest row.manifest) (json "decode save manifest")
    ensure (validate_manifest manifest) persistence_error
    ensure (text_beq row.save_id (save_id manifest)) (integrity "save_head_identity")
    ok (manifest, revision)

  unfoldable pub validate_action_row : ActionCommitRow Json → Text → Fallible h CommittedAction
  validate_action_row row save = do
    revision ← revision_from_i64 row.revision
    ensure (text_beq row.save_id save && text_beq row.id row.action_id)
        (integrity "action_commit_checksum")
    checksum ←
        action_checksum h save row.action_id revision row.request_digest row.command row.outcome
    ensure (text_beq checksum row.checksum) (integrity "action_commit_checksum")
    command ← ok_or (decode_command row.command) (json "decode committed command")
    outcome ← ok_or (decode_outcome row.outcome) (json "decode committed outcome")
    ensure
        (text_beq (show_action command.action_id) row.action_id
          && outcome.action_id == command.action_id
          && outcome.revision == revision)
        (integrity "action_commit_projection")
    request ← request_digest h command
    ensure (text_beq request row.request_digest) (integrity "action_commit_projection")
    ok outcome
