-- ===== src/Store/Adopt.antt =====
-- `SaveStore::adopt_content_locks` of crates/loreloom-store/src/store.rs. The candidate is the manifest
-- of the store with its two locks replaced.
use loreloom.Prelude.{
  ◌≡◌, ap, sym, ◌∙◌, true, false, ◌||◌, Option, none, some, arith, ◌==◌, if◌then◌else◌, Text,
  text_eq, =?_refl, ok, err, ◌>>=◌, ◌>>◌, ensure, not, Result-cases, inl, inr, text_beq_refl,
  ==_iff,
}
use loreloom.Core.Revision.{Revision}
use loreloom.Store.Types.{
  Host, backend, invalid_commit, persistence_error, SaveHeadRow, durable, lost, broken, Weather,
}
use loreloom.Store.Laws.{Lawful}
use loreloom.Store.Checksums.{Fallible, to_json, head_checksum}
use loreloom.Store.Rows.{validate_head_row, revision_from_i64}
use loreloom.Store.Save.{SaveStore, Reply, call, replies, load_head}
use loreloom.Store.Save.Written.{Calm, call-Calm}
use loreloom.Store.Save.Head.{validate_head_row-parts}

module _ (h : Host) where
  open h use {
    Manifest, save_id, same_manifest, validate_manifest, manifest_json, Json, Db, head_row,
    update_head,
  }

  -- What is computed before the transaction.
  unfoldable pub prepare_adoption : Weather h → SaveStore h → Manifest → Fallible h (Json × Text)
  prepare_adoption w s candidate = do
    ensure (validate_manifest candidate) persistence_error
    value ← to_json h (manifest_json candidate) "encode adopted save manifest"
    checksum ← head_checksum h s.revision value
    call h w "begin content lock adoption"
    call h w "read save head for content lock adoption"
    ok (value, checksum)

  -- The end of the transaction, in which the head's row is written.
  unfoldable pub finish_adoption :
      Weather h → SaveStore h → Manifest → SaveHeadRow Json → Reply h (Unit {0})
  finish_adoption w s candidate written = elim w.verdict [
    | durable ↦ (ok tt, record s { db = update_head written s.db; manifest = candidate })
    | lost db ↦ (err (backend "commit content lock adoption"), record s { db = db })
    | broken took_effect ↦ (
      err (backend "commit content lock adoption"),
      if took_effect then record s { db = update_head written s.db } else s,
    )
  ]

  unfoldable pub write_adoption :
      Weather h
      → SaveStore h
      → Manifest
      → Json × Text
      → SaveHeadRow Json
      → Manifest × Revision
      → Reply h (Unit {0})
  unfolding finish_adoption
  write_adoption w s candidate (value, checksum) head (durable_manifest, durable_revision) =
      if not (same_manifest durable_manifest s.manifest) || not (durable_revision == s.revision)
      then replies h s (
          call h w "rollback stale content lock adoption"
          >> err (invalid_commit "content_lock_adoption_head"))
      else if same_manifest candidate s.manifest
      then replies h s (call h w "rollback unchanged content lock adoption" >> ok tt)
      else if w.fails "write adopted content locks"
      then (err (backend "write adopted content locks"), s)
      else finish_adoption w s candidate (record head { manifest = value; checksum = checksum })

  unfoldable check_adoption :
      Weather h
      → SaveStore h
      → Manifest
      → Json × Text
      → Option (SaveHeadRow Json)
      → Reply h (Unit {0})
  unfolding write_adoption
  check_adoption w s candidate prepared none =
      (err (backend "read save head for content lock adoption"), s)
  check_adoption w s candidate prepared (some head) = elim (validate_head_row h head) [
    | err e ↦ (err e, s)
    | ok found ↦ write_adoption w s candidate prepared head found
  ]

  unfoldable pub adopt_content_locks : Weather h → SaveStore h → Manifest → Reply h (Unit {0})
  unfolding prepare_adoption check_adoption
  adopt_content_locks w s candidate = elim (prepare_adoption w s candidate) [
    | err e ↦ (err e, s)
    | ok prepared ↦ check_adoption w s candidate prepared (head_row (save_id s.manifest) s.db)
  ]

module _ (h : Host) (laws : Lawful h) where
  open h use {
    Manifest, save_id, same_manifest, validate_manifest, manifest_json, Json, Db, head_row,
    update_head,
  }

  prepare_adoption-parts :
      (w : Weather h) (s : SaveStore h) (candidate : Manifest) (v : Json) (sum : Text)
      → prepare_adoption h w s candidate ≡ ok (v, sum)
      → (validate_manifest candidate ≡ true)
        × (manifest_json candidate ≡ some v)
        × (head_checksum h s.revision v ≡ ok sum)
  unfolding prepare_adoption
  prepare_adoption-parts w s candidate v sum e = ground arith

  finish_adoption-ok :
      (w : Weather h) (s : SaveStore h) (candidate : Manifest) (row : SaveHeadRow Json)
      {s' : SaveStore h}
      → finish_adoption h w s candidate row ≡ (ok tt, s')
      → (s'.db ≡ update_head row s.db) × (s'.manifest ≡ candidate)
  unfolding finish_adoption
  finish_adoption-ok w s candidate row e = ground arith

  write_adoption-ok :
      (w : Weather h) (s : SaveStore h) (candidate : Manifest) (v : Json) (sum : Text)
      (row : SaveHeadRow Json) (m : Manifest) (n : Revision) {s' : SaveStore h}
      → same_manifest candidate s.manifest ≡ false
      → write_adoption h w s candidate (v, sum) row (m, n) ≡ (ok tt, s')
      → (same_manifest m s.manifest ≡ true)
        × (n ≡ s.revision)
        × (s'.db ≡ update_head (record row { manifest = v; checksum = sum }) s.db)
        × (s'.manifest ≡ candidate)
  unfolding write_adoption
  write_adoption-ok w s candidate v sum row m n other e = ground (
    arith,
    ==_iff n s.revision,
    finish_adoption-ok w s candidate (record row { manifest = v; checksum = sum }),
  )

  validate_head_row-revision :
      (row : SaveHeadRow Json) (m : Manifest) (n : Revision)
      → validate_head_row h row ≡ ok (m, n)
      → revision_from_i64 row.revision ≡ ok n
  unfolding validate_head_row
  validate_head_row-revision row m n e = ground arith

  -- A valid head stays valid with another manifest of the same save.
  adopted-valid :
      (row : SaveHeadRow Json) (m candidate : Manifest) (n : Revision) (v : Json) (sum : Text)
      → validate_head_row h row ≡ ok (m, n)
      → validate_manifest candidate ≡ true
      → manifest_json candidate ≡ some v
      → head_checksum h n v ≡ ok sum
      → save_id candidate ≡ save_id m
      → validate_head_row h (record row { manifest = v; checksum = sum }) ≡ ok (candidate, n)
  unfolding validate_head_row
  adopted-valid row m candidate n v sum valid good encoded summed same =
      let (decoded, fine, own) = validate_head_row-parts h laws row m n valid in
      rw
        (
          validate_head_row-revision row m n valid,
          validate_head_row,
          summed,
          laws.manifest_decodes candidate v encoded,
          good,
          own,
          same,
        )
        (simp (text_beq_refl))

  -- A successful adoption of another manifest.
  record Adopts (s : SaveStore h) (candidate : Manifest) (s' : SaveStore h) : Type 0 where
    value : Json
    sum : Text
    row : SaveHeadRow Json
    durable_manifest : Manifest
    good : validate_manifest candidate ≡ true
    encoded : manifest_json candidate ≡ some value
    summed : head_checksum h s.revision value ≡ ok sum
    valid : validate_head_row h row ≡ ok (durable_manifest, s.revision)
    same : same_manifest durable_manifest s.manifest ≡ true
    written : s'.db ≡ update_head (record row { manifest = value; checksum = sum }) s.db
    kept : s'.manifest ≡ candidate

  check_adoption-Adopts :
      (w : Weather h) (s : SaveStore h) (candidate : Manifest) (v : Json) (sum : Text)
      (found : Option (SaveHeadRow Json)) {s' : SaveStore h}
      → prepare_adoption h w s candidate ≡ ok (v, sum)
      → same_manifest candidate s.manifest ≡ false
      → check_adoption h w s candidate (v, sum) found ≡ (ok tt, s')
      → Adopts s candidate s'
  unfolding check_adoption
  check_adoption-Adopts w s candidate v sum none ready other e = absurd (cc e)
  check_adoption-Adopts w s candidate v sum (some row) ready other e =
      elim (Result-cases (validate_head_row h row)) [
        | inr (x, bad) ↦ absurd (cc (rw (bad, check_adoption) at e))
        | inl ((m, n), valid) ↦
            let (good, encoded, summed) = prepare_adoption-parts w s candidate v sum ready in
            let (same, current, written, kept) =
              write_adoption-ok w s candidate v sum row m n other
                (rw (valid, check_adoption) at e) in
            record {
              value = v;
              sum = sum;
              row = row;
              durable_manifest = m;
              good = good;
              encoded = encoded;
              summed = summed;
              valid = rw (← current) valid;
              same = same;
              written = written;
              kept = kept;
            }
      ]

  adopt_content_locks-Adopts :
      (w : Weather h) (s : SaveStore h) (candidate : Manifest) {s' : SaveStore h}
      → adopt_content_locks h w s candidate ≡ (ok tt, s')
      → same_manifest candidate s.manifest ≡ false
      → Adopts s candidate s'
  unfolding adopt_content_locks
  adopt_content_locks-Adopts w s candidate e other =
      elim (Result-cases (prepare_adoption h w s candidate)) [
        | inr (x, bad) ↦ absurd (cc (rw (bad, adopt_content_locks) at e))
        | inl ((v, sum), ready) ↦
            check_adoption-Adopts w s candidate v sum (head_row (save_id s.manifest) s.db) ready
              other (rw (ready, adopt_content_locks) at e)
      ]

  -- Over a host with the laws of `Lawful`, after another manifest of the same save has been adopted,
  -- the head is loaded, while no call of the backend fails, with that manifest and the revision of
  -- the store, which holds that manifest too.
  pub load_head-adopt_content_locks :
      (w w' : Weather h) (s : SaveStore h) (candidate : Manifest) (s' : SaveStore h)
      → adopt_content_locks h w s candidate ≡ (ok tt, s')
      → same_manifest candidate s.manifest ≡ false
      → save_id candidate ≡ save_id s.manifest
      → Calm h w'
      → (load_head h w' (save_id candidate) s'.db ≡ ok (candidate, s.revision))
        × (s'.manifest ≡ candidate)
  unfolding load_head
  load_head-adopt_content_locks w w' s candidate s' e other id calm =
      let a = adopt_content_locks-Adopts w s candidate e other in
      let m = laws.same_manifest_eq a.durable_manifest s.manifest a.same in
      let of_save = id ∙ ap save_id (sym m) in
      let (decoded, fine, own) =
        validate_head_row-parts h laws a.row a.durable_manifest s.revision a.valid in
      let new = record a.row { manifest = a.value; checksum = a.sum } in
      let there : head_row (save_id candidate) (update_head new s.db) ≡ some new =
        rw (laws.head_after_head, own, of_save, =?_refl (save_id a.durable_manifest)) in
      let valid =
        adopted-valid a.row a.durable_manifest candidate s.revision a.value a.sum a.valid a.good
          a.encoded a.summed of_save in
      (rw (call-Calm h w' _ calm, load_head, a.written, there, valid), a.kept)
