-- ===== src/Store/Save/Head.antt =====
-- The head of a save after `SaveStore::commit` of crates/loreloom-store/src/store.rs.
use loreloom.Prelude.{
  ◌≡◌, ◌≢◌, ap, sym, ◌∙◌, true, false, some, arith, Text, text_beq, text_beq_iff, text_beq_refl, ok,
  err, =?_refl, text_eq,
}
use loreloom.Prelude.Int.{ℤ}
use loreloom.Core.Revision.{Revision}
use loreloom.Store.Types.{Host, integrity, CommittedAction, committed, SaveHeadRow, Weather}
use loreloom.Store.Laws.{Lawful}
use loreloom.Store.Request.{CommitRequest}
use loreloom.Store.Checksums.{head_checksum}
use loreloom.Store.Rows.{PreparedCommit, prepare, validate_head_row, revision_to_i64}
use loreloom.Store.Save.{SaveStore, commit, write_commit, load_head}
use loreloom.Store.Save.Written.{commit-Commits, Calm, call-Calm, begin-parts}
use loreloom.Store.Save.Idempotence.{prepare-action, stored_revision}

module _ (h : Host) (laws : Lawful h) where
  open h use {Manifest, Json, Db, head_row, save_id}

  -- What a valid head holds.
  pub validate_head_row-parts :
      (row : SaveHeadRow Json) (m : Manifest) (n : Revision)
      → validate_head_row h row ≡ ok (m, n)
      → (h.decode_manifest row.manifest ≡ some m)
        × (h.validate_manifest m ≡ true)
        × (row.save_id ≡ save_id m)
  unfolding validate_head_row
  validate_head_row-parts row m n e = ground (arith, text_beq_iff row.save_id (save_id m))

  -- The head that a commit writes is valid.
  advanced-valid :
      (row : SaveHeadRow Json) (m : Manifest) (n o : Revision) (stored : ℤ) (checksum : Text)
      → validate_head_row h row ≡ ok (m, n)
      → revision_to_i64 o ≡ ok stored
      → head_checksum h o row.manifest ≡ ok checksum
      → validate_head_row h (record row { revision = stored; checksum = checksum }) ≡ ok (m, o)
  unfolding validate_head_row
  advanced-valid row m n o stored checksum valid s sum =
      let (decoded, good, same) = validate_head_row-parts row m n valid in
      rw (stored_revision h laws o stored s, validate_head_row, sum, decoded, good, same)
        (simp (text_beq_refl))

  -- The checksum of a prepared commit is that of the head it writes.
  prepare-checksum :
      (m : Manifest) (r : CommitRequest h) (p : PreparedCommit h) (v : Json)
      → prepare h m r ≡ ok p
      → h.manifest_json m ≡ some v
      → head_checksum h r.safe_outcome.revision v ≡ ok p.head_checksum
  unfolding prepare
  prepare-checksum m r p v e encoded = ground arith

  write_commit-head :
      (p : PreparedCommit h) (head : SaveHeadRow Json) (db : Db) (k : Text)
      → head.save_id ≡ k
      → head_row k (write_commit h p head db)
        ≡ some (record head { revision = p.revision; checksum = p.head_checksum })
  unfolding write_commit
  write_commit-head p head db k own = rw (laws.head_after_head, own, =?_refl k)

  -- Over a host with the laws of `Lawful`, after a commit has returned `committed` on a store whose
  -- manifest is the one that the head's row encodes, the head is loaded, while no call of the
  -- backend fails, with that manifest and the revision of the outcome.
  pub load_head-commit :
      (w w' : Weather h) (s : SaveStore h) (r : CommitRequest h) (o : CommittedAction)
      (s' : SaveStore h) (row : SaveHeadRow Json)
      → commit h w s r ≡ (ok (committed o), s')
      → head_row (save_id s.manifest) s.db ≡ some row
      → h.manifest_json s.manifest ≡ some row.manifest
      → Calm h w'
      → load_head h w' (save_id s.manifest) s'.db ≡ ok (s.manifest, o.revision)
  unfolding load_head
  load_head-commit w w' s r o s' row e at encoded calm =
      let c = commit-Commits h w s r o s' e in
      let (v, prepared) = begin-parts h w s r c.prepared c.begun in
      let (stored, action, save) = prepare-action h laws s.manifest r c.prepared prepared in
      let found : some row ≡ some c.head =
        sym at ∙ ap (λ k. head_row k s.db) (sym save) ∙ c.found in
      let same : row ≡ c.head = cc in
      let current : validate_head_row h row ≡ ok (c.manifest, r.command.expected_revision) =
        rw same c.current in
      let (decoded, good, own) = validate_head_row-parts row c.manifest _ current in
      let m : s.manifest ≡ c.manifest =
        cc (laws.manifest_decodes s.manifest row.manifest encoded, decoded) in
      let valid =
        advanced-valid row s.manifest r.command.expected_revision r.safe_outcome.revision
          c.prepared.revision c.prepared.head_checksum (rw m current) stored
          (prepare-checksum s.manifest r c.prepared row.manifest prepared encoded) in
      let there =
        ap (head_row (save_id s.manifest)) c.written
        ∙ write_commit-head c.prepared c.head s.db (save_id s.manifest)
            (ap (λ (a : SaveHeadRow Json). a.save_id) (sym same) ∙ own ∙ ap save_id (sym m)) in
      rw (call-Calm h w' _ calm, load_head, there, ← same, valid, c.outcome)

  -- A head whose checksum is of another manifest is refused.
  stale_head :
      (row : SaveHeadRow Json) (o : Revision) (stored : ℤ) (checksum sum : Text)
      → revision_to_i64 o ≡ ok stored
      → head_checksum h o row.manifest ≡ ok sum
      → sum ≢ checksum
      → validate_head_row h (record row { revision = stored; checksum = checksum })
        ≡ err (integrity "save_head_checksum")
  unfolding validate_head_row
  stale_head row o stored checksum sum s durable_at differ =
      let unequal : text_beq sum checksum ≡ false = ground (arith, text_beq_iff sum checksum) in
      rw (stored_revision h laws o stored s, validate_head_row, durable_at, unequal)

  -- Over a host with the laws of `Lawful`, after a commit has returned `committed` on a store whose
  -- manifest is not the one in the head's row, so that the two give different head checksums at the
  -- new revision, loading the head of that save is refused with the integrity error
  -- `save_head_checksum`, while no call of the backend fails.
  pub load_head-commit_stale :
      (w w' : Weather h) (s : SaveStore h) (r : CommitRequest h) (o : CommittedAction)
      (s' : SaveStore h) (row : SaveHeadRow Json) (v : Json) (durable_sum written_sum : Text)
      → commit h w s r ≡ (ok (committed o), s')
      → head_row (save_id s.manifest) s.db ≡ some row
      → row.save_id ≡ save_id s.manifest
      → h.manifest_json s.manifest ≡ some v
      → head_checksum h o.revision v ≡ ok written_sum
      → head_checksum h o.revision row.manifest ≡ ok durable_sum
      → durable_sum ≢ written_sum
      → Calm h w'
      → load_head h w' (save_id s.manifest) s'.db ≡ err (integrity "save_head_checksum")
  unfolding load_head
  load_head-commit_stale w w' s r o s' row v durable_sum written_sum e there own encoded written_at
        durable_at differ calm =
      let c = commit-Commits h w s r o s' e in
      let (valid, prepared) = begin-parts h w s r c.prepared c.begun in
      let (stored, action, save) = prepare-action h laws s.manifest r c.prepared prepared in
      let found : some row ≡ some c.head =
        sym there ∙ ap (λ k. head_row k s.db) (sym save) ∙ c.found in
      let same : row ≡ c.head = cc in
      let sum = prepare-checksum s.manifest r c.prepared v prepared encoded in
      let rev : o.revision ≡ r.safe_outcome.revision =
        ap (λ (a : CommittedAction). a.revision) c.outcome in
      let wrote : c.prepared.head_checksum ≡ written_sum = cc (sum, rw rev at written_at) in
      let new =
        ap (head_row (save_id s.manifest)) c.written
        ∙ write_commit-head c.prepared c.head s.db (save_id s.manifest)
            (ap (λ (a : SaveHeadRow Json). a.save_id) (sym same) ∙ own) in
      rw (call-Calm h w' _ calm, load_head, new, ← same)
        (stale_head row r.safe_outcome.revision c.prepared.revision c.prepared.head_checksum
          durable_sum stored (rw rev at durable_at) (λ q. differ (q ∙ wrote)))
