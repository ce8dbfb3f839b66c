-- ===== src/Store/Save/Idempotence.antt =====
-- A commit that is sent again, and `SaveStore::resolve_action`, of crates/loreloom-store/src/store.rs.
use loreloom.Prelude.{
  ◌≡◌, refl, ap, ◌∙◌, false, some, List, [], ◌∷◌, arith, Text, text_beq_refl, ==_refl, ◌=?◌,
  text_eq, ok, =?_refl,
}
use loreloom.Prelude.Int.{ℤ}
use loreloom.Core.Revision.{Revision}
use loreloom.Store.Types.{
  Host, WorldCommand, CommittedAction, committed, already_committed, resolved, SaveHeadRow,
  ActionCommitRow, Weather, RecordOpRow, WorldEventRow, TranscriptRow,
}
use loreloom.Store.Laws.{Lawful}
use loreloom.Store.Request.{CommitRequest, validate}
use loreloom.Store.Checksums.{request_digest, action_checksum}
use loreloom.Store.Rows.{
  PreparedCommit, prepare, prepare_action, validate_action_row, revision_to_i64, revision_from_i64,
}
use loreloom.Store.Save.{
  SaveStore, begin, commit, check_action, duplicate, write_commit, write_each, resolve_action,
  resolve_found,
}
use loreloom.Store.Save.Written.{commit-Commits, Calm, call-Calm, begin-parts}

module _ (h : Host) (laws : Lawful h) where
  open h use {
    Kind, Manifest, Json, Db, save_id, show_action, action_row, create_op, create_event,
    create_transcript, create_action,
  }

  -- What `prepare_action` computes for a command and its outcome.
  prepare_action-parts :
      (save : Text) (stored : ℤ) (c : WorldCommand Kind) (o : CommittedAction)
      (row : ActionCommitRow Json)
      → prepare_action h save stored c o ≡ ok row
      → (row.id ≡ show_action c.action_id)
        × (row.save_id ≡ save)
        × (row.action_id ≡ show_action c.action_id)
        × (row.revision ≡ stored)
        × (request_digest h c ≡ ok row.request_digest)
        × (h.command_json c ≡ some row.command)
        × (h.outcome_json o ≡ some row.outcome)
        × (action_checksum h save
              (show_action c.action_id)
              o.revision
              row.request_digest
              row.command
              row.outcome
            ≡ ok row.checksum)
  unfolding prepare_action
  prepare_action-parts save stored c o row e = ground arith

  pub stored_revision :
      (n : Revision) (stored : ℤ) → revision_to_i64 n ≡ ok stored → revision_from_i64 stored ≡ ok n
  unfolding revision_to_i64 revision_from_i64
  stored_revision n stored e = ground arith

  -- The row of an action is valid when it is read back.
  prepare_action-valid :
      (save : Text) (stored : ℤ) (c : WorldCommand Kind) (o : CommittedAction)
      (row : ActionCommitRow Json)
      → revision_to_i64 o.revision ≡ ok stored
      → o.action_id ≡ c.action_id
      → prepare_action h save stored c o ≡ ok row
      → validate_action_row h row save ≡ ok o
  unfolding validate_action_row
  prepare_action-valid save stored c o row s same e =
      let (id, own, action, rev, digest, cj, oj, checksum) =
        prepare_action-parts save stored c o row e in
      let dc = laws.command_decodes c row.command cj in
      let do' = laws.outcome_decodes o row.outcome oj in
      let sr = stored_revision o.revision stored s in
      rw (rev, sr, own, id, action, checksum, dc, do', validate_action_row)
        (simp (same, digest, text_beq_refl, ==_refl))

  -- The writes before the action's row leave the rows of other actions.
  ops-kept :
      (k : Text) (ops : List (RecordOpRow Json)) (db : Db)
      → action_row k (write_each h create_op ops db) ≡ action_row k db
  ops-kept k [] db = refl
  ops-kept k (op ∷ ops) db = ops-kept k ops (create_op op db) ∙ laws.action_after_op k op db

  events-kept :
      (k : Text) (es : List (WorldEventRow Json)) (db : Db)
      → action_row k (write_each h create_event es db) ≡ action_row k db
  events-kept k [] db = refl
  events-kept k (e ∷ es) db = events-kept k es (create_event e db) ∙ laws.action_after_event k e db

  transcripts-kept :
      (k : Text) (ts : List (TranscriptRow Json)) (db : Db)
      → action_row k (write_each h create_transcript ts db) ≡ action_row k db
  transcripts-kept k [] db = refl
  transcripts-kept k (t ∷ ts) db =
      transcripts-kept k ts (create_transcript t db) ∙ laws.action_after_transcript k t db

  -- A commit is found under the identity of its action.
  write_commit-action :
      (p : PreparedCommit h) (head : SaveHeadRow Json) (db : Db)
      → action_row p.action.id (write_commit h p head db) ≡ some p.action
  unfolding write_commit
  write_commit-action p head db =
      rw (laws.action_after_head, laws.action_after_action, =?_refl p.action.id)

  -- A commit writes no action but its own.
  write_commit-others :
      (k : Text) (p : PreparedCommit h) (head : SaveHeadRow Json) (db : Db)
      → (p.action.id =? k) ≡ false
      → action_row k (write_commit h p head db) ≡ action_row k db
  unfolding write_commit
  write_commit-others k p head db other = rw (
    laws.action_after_head, laws.action_after_action, other, transcripts-kept, events-kept,
    ops-kept,
  )

  -- What a prepared commit holds of its action.
  pub prepare-action :
      (m : Manifest) (r : CommitRequest h) (p : PreparedCommit h)
      → prepare h m r ≡ ok p
      → (revision_to_i64 r.safe_outcome.revision ≡ ok p.revision)
        × (prepare_action h (save_id m) p.revision r.command r.safe_outcome ≡ ok p.action)
        × (p.save ≡ save_id m)
  unfolding prepare
  prepare-action m r p e = ground arith

  validate-outcome :
      (r : CommitRequest h) → validate h r ≡ ok tt → r.safe_outcome.action_id ≡ r.command.action_id
  unfolding validate
  validate-outcome r e = ground arith

  begin-Calm :
      (w : Weather h) (s : SaveStore h) (r : CommitRequest h) (p : PreparedCommit h)
      → Calm h w
      → validate h r ≡ ok tt
      → prepare h s.manifest r ≡ ok p
      → begin h w s r ≡ ok p
  unfolding begin
  begin-Calm w s r p calm v e =
      rw (v, begin, e, call-Calm h w _ calm, call-Calm h w "read action identity" calm)

  -- What a commit that succeeded leaves behind is found again.
  committed-row :
      (w : Weather h) (s : SaveStore h) (r : CommitRequest h) (o : CommittedAction)
      (s' : SaveStore h)
      → commit h w s r ≡ (ok (committed o), s')
      → (p : PreparedCommit h) × (validate h r ≡ ok tt)
        × (prepare h s'.manifest r ≡ ok p)
        × (action_row p.action.id s'.db ≡ some p.action)
        × (validate_action_row h p.action (save_id s'.manifest) ≡ ok o)
  committed-row w s r o s' e =
      let c = commit-Commits h w s r o s' e in
      let (v, prepared) = begin-parts h w s r c.prepared c.begun in
      let (stored, action, save) = prepare-action s.manifest r c.prepared prepared in
      let valid =
        prepare_action-valid (save_id s.manifest) c.prepared.revision r.command r.safe_outcome
          c.prepared.action stored (validate-outcome r v) action in
      (
        c.prepared,
        v,
        rw c.kept prepared,
        ap (action_row c.prepared.action.id) c.written ∙ write_commit-action c.prepared c.head s.db,
        rw (c.kept, c.outcome) valid,
      )

  -- Over a host with the laws of `Lawful`, after a commit has returned `committed` with an outcome,
  -- the same request sent again, while no call of the backend fails, returns `already_committed`
  -- with that outcome and leaves the store as it is.
  pub commit-again :
      (w w' : Weather h) (s : SaveStore h) (r : CommitRequest h) (o : CommittedAction)
      (s' : SaveStore h)
      → commit h w s r ≡ (ok (committed o), s')
      → Calm h w'
      → commit h w' s' r ≡ (ok (already_committed o), s')
  unfolding commit check_action duplicate
  commit-again w w' s r o s' e calm =
      let (p, v, prepared, found, valid) = committed-row w s r o s' e in
      rw (
        begin-Calm w' s' r p calm v prepared,
        commit,
        found,
        check_action,
        duplicate,
        valid,
        call-Calm h w' _ calm,
        text_beq_refl,
      )

  -- Over a host with the laws of `Lawful`, after a commit has returned `committed` with an outcome,
  -- `resolve_action` for its command, while no call of the backend fails, returns that outcome and
  -- leaves the store as it is.
  pub resolve_action-commit :
      (w w' : Weather h) (s : SaveStore h) (r : CommitRequest h) (o : CommittedAction)
      (s' : SaveStore h)
      → commit h w s r ≡ (ok (committed o), s')
      → Calm h w'
      → resolve_action h w' s' r.command ≡ (ok (resolved o), s')
  unfolding resolve_action resolve_found
  resolve_action-commit w w' s r o s' e calm =
      let (p, v, prepared, found, valid) = committed-row w s r o s' e in
      let (stored, action, save) = prepare-action s'.manifest r p prepared in
      let (id, own, aid, rev, digest, cj, oj, checksum) =
        prepare_action-parts (save_id s'.manifest) p.revision r.command r.safe_outcome p.action
          action in
      rw (
        digest,
        call-Calm h w' _ calm,
        resolve_action,
        ← id,
        found,
        resolve_found,
        valid,
        text_beq_refl,
      )
