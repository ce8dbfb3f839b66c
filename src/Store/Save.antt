-- ===== src/Store/Save.antt =====
-- `SaveStore::commit` and `SaveStore::resolve_action` of crates/loreloom-store/src/store.rs. A transaction
-- is a copy of the database that the commit makes durable, or that is dropped.
pub mod Written
pub mod Idempotence
pub mod Atomicity
pub mod Head
use loreloom.Prelude.{
  ℕ, Bool, true, false, Option, none, some, List, [], ◌∷◌, ◌==◌, if◌then◌else◌, String, Text,
  text_beq, Result, ok, err, ◌>>=◌, ◌>>◌, ensure, not,
}
use loreloom.Core.Revision.{Revision}
use loreloom.Store.Types.{
  Host, StoreError, backend, WorldCommand, CommittedAction, CommitResult, committed,
  already_committed, conflict, action_identity_conflict, ActionResolution, not_committed, resolved,
  identity_conflict, SaveHeadRow, ActionCommitRow, RecordOpRow, WorldEventRow, TranscriptRow,
  Verdict, durable, lost, broken, Weather,
}
use loreloom.Store.Request.{CommitRequest, validate}
use loreloom.Store.Checksums.{request_digest, Fallible}
use loreloom.Store.Rows.{PreparedCommit, prepare, validate_head_row, validate_action_row}

module _ (h : Host) where
  open h use {
    Kind, Manifest, save_id, show_action, Json, Db, head_row, action_row, create_op, create_event,
    create_transcript, create_action, update_head,
  }

  pub record SaveStore : Type 0 where
    pub db : Db
    pub manifest : Manifest
    pub revision : Revision

  -- A call of the backend.
  abbrev pub call : Weather h → String → Fallible h (Unit {0})
  call w operation = ensure (not (w.fails operation)) (backend operation)

  abbrev write_each : {Row : Type 0} → (Row → Db → Db) → List Row → Db → Db
  write_each write [] tx = tx
  write_each write (row ∷ rows) tx = write_each write rows (write row tx)

  -- The rows of a commit in their order, and the head with its new revision and checksum.
  unfoldable pub write_commit : PreparedCommit h → SaveHeadRow Json → Db → Db
  write_commit p head tx =
      update_head (record head { revision = p.revision; checksum = p.head_checksum })
        (create_action p.action (
          write_each create_transcript p.transcripts
            (write_each create_event p.events (write_each create_op p.record_ops tx))))

  unfoldable pub load_head : Weather h → Text → Db → Fallible h (Manifest × Revision)
  load_head w save db = do
    call w "load save head"
    elim (head_row save db) [
      | none ↦ err (backend "load save head")
      | some row ↦ validate_head_row h row
    ]

  -- What an operation leaves behind.
  abbrev pub Reply : Type 0 → Type 0
  Reply A = Fallible h A × SaveStore

  abbrev pub replies : {A : Type 0} → SaveStore → Fallible h A → Reply A
  replies s r = (r, s)

  -- The end of the transaction.
  unfoldable pub finish : Weather h → SaveStore → CommitRequest h → Db → Reply CommitResult
  unfolding load_head
  finish w s r tx = elim w.verdict [
    | durable ↦
        (ok (committed r.safe_outcome), record s { db = tx; revision = r.safe_outcome.revision })
    | lost db ↦ elim (load_head w (save_id s.manifest) db) [
      | err e ↦ (err e, record s { db = db })
      | ok (_, actual) ↦ (
        ok (conflict r.command.expected_revision actual),
        record s { db = db; revision = actual },
      )
    ]
    | broken took_effect ↦ (
      err (backend "commit durable transaction"),
      if took_effect then record s { db = tx } else s,
    )
  ]

  abbrev call_for : {Row : Type 0} → Weather h → String → List Row → Fallible h (Unit {0})
  call_for w operation [] = ok tt
  call_for w operation (row ∷ rows) = call w operation

  -- The writes of the transaction: any that fails drops it.
  unfoldable pub write_stage : Weather h → PreparedCommit h → Fallible h (Unit {0})
  write_stage w p = do
    call_for w "write record operation" p.record_ops
    call_for w "write world event" p.events
    call_for w "write transcript" p.transcripts
    call w "write action commit"
    call w "advance save head"

  unfoldable pub advance :
      Weather h
      → SaveStore
      → CommitRequest h
      → PreparedCommit h
      → SaveHeadRow Json
      → Revision
      → Reply CommitResult
  unfolding write_stage finish write_commit
  advance w s r p head actual =
      if not (actual == r.command.expected_revision)
      then replies s
          (call w "rollback revision conflict" >> ok (conflict r.command.expected_revision actual))
      else elim (write_stage w p) [
        | err e ↦ (err e, s)
        | ok _ ↦ finish w s r (write_commit p head s.db)
      ]

  unfoldable pub check_head :
      Weather h
      → SaveStore
      → CommitRequest h
      → PreparedCommit h
      → Option (SaveHeadRow Json)
      → Reply CommitResult
  unfolding advance
  check_head w s r p none = (err (backend "read save head for commit"), s)
  check_head w s r p (some head) = elim (validate_head_row h head) [
    | err e ↦ (err e, s)
    | ok (_, actual) ↦ advance w s r p head actual
  ]

  unfoldable pub duplicate :
      Weather h
      → SaveStore
      → CommitRequest h
      → PreparedCommit h
      → ActionCommitRow Json
      → Fallible h CommitResult
  duplicate w s r p existing = do
    outcome ← validate_action_row h existing (save_id s.manifest)
    call w "rollback duplicate action"
    if text_beq existing.request_digest p.action.request_digest
        then ok (already_committed outcome)
        else ok (action_identity_conflict r.command.action_id)

  unfoldable pub check_action :
      Weather h
      → SaveStore
      → CommitRequest h
      → PreparedCommit h
      → Option (ActionCommitRow Json)
      → Reply CommitResult
  unfolding check_head duplicate
  check_action w s r p (some existing) = replies s (duplicate w s r p existing)
  check_action w s r p none = elim (call w "read save head for commit") [
    | err e ↦ (err e, s)
    | ok _ ↦ check_head w s r p (head_row p.save s.db)
  ]

  unfoldable pub begin : Weather h → SaveStore → CommitRequest h → Fallible h (PreparedCommit h)
  begin w s r = do
    validate h r
    p ← prepare h s.manifest r
    call w "begin durable transaction"
    call w "read action identity"
    ok p

  unfoldable pub commit : Weather h → SaveStore → CommitRequest h → Reply CommitResult
  unfolding begin check_action
  commit w s r = elim (begin w s r) [
    | err e ↦ (err e, s)
    | ok p ↦ check_action w s r p (action_row p.action.id s.db)
  ]

  unfoldable pub resolve_found :
      SaveStore → WorldCommand Kind → Text → ActionCommitRow Json → Fallible h ActionResolution
  resolve_found s command digest row = do
    outcome ← validate_action_row h row (save_id s.manifest)
    if text_beq row.request_digest digest
        then ok (resolved outcome)
        else ok (identity_conflict command.action_id)

  unfoldable pub resolve_missing : Weather h → SaveStore → Reply ActionResolution
  unfolding load_head
  resolve_missing w s = elim (load_head w (save_id s.manifest) s.db) [
    | err e ↦ (err e, s)
    | ok (_, revision) ↦ (ok (not_committed revision), record s { revision = revision })
  ]

  unfoldable pub resolve_action : Weather h → SaveStore → WorldCommand Kind → Reply ActionResolution
  unfolding resolve_found resolve_missing
  resolve_action w s command =
      elim (request_digest h command >>= λ digest. call w "resolve action identity" >> ok digest) [
        | err e ↦ (err e, s)
        | ok digest ↦ elim (action_row (show_action command.action_id) s.db) [
          | some row ↦ replies s (resolve_found s command digest row)
          | none ↦ resolve_missing w s
        ]
      ]
