-- ===== src/Core/Record/Checkpoint.antt =====
-- Replays over a checkpoint that was taken between two operations, in crates/loreloom-core/src/record.rs.
use loreloom.Prelude.{
  ◌∙◌, ◌≤◌, ◌<◌, ◌≡◌, refl, ap, none, List, [], ◌∷◌, ◌++◌, arith, Result, ok, ◌>>=◌, >>=-eq-ok,
  Result-cases, inl, inr,
}
use mathlib.Core.List.{append_assoc, append-nil}
use loreloom.Prelude.Map.{get, insert}
use loreloom.Prelude.Map.Entries.{Entries, Distinct, insert-append, get-prefix}
use loreloom.Core.Revision.{Revision}
use loreloom.Core.Record.{
  RecordEnvelope, VersionedRecordOp, RecordSet, Cursor, RecordError, key, key_eq, insert_checkpoint,
  load_checkpoint, enter, perform, replay, fresh, rebuild_records,
}
use loreloom.Core.Record.Replay.{Stored, IsCurrent, rebuild_records-IsCurrent}

module _ {Value : Type 0} where
  -- `records.into_values()`
  abbrev pub values : RecordSet Value → List (RecordEnvelope Value)
  values [] = []
  values ((k, r) ∷ m) = r ∷ values m

  insert_checkpoint-new :
      (n : Revision) (records : RecordSet Value) (r : RecordEnvelope Value)
      → r.revision ≤ n
      → get (key r) records ≡ none
      → insert_checkpoint n records r ≡ ok (insert (key r) r records)
  unfolding insert_checkpoint
  insert_checkpoint-new n records r h fresh_key = ground arith

  reload :
      (n : Revision) (done rest : RecordSet Value)
      → Entries (Stored n) rest
      → Distinct (done ++ rest)
      → load_checkpoint n done (values rest) ≡ ok (done ++ rest)
  unfolding load_checkpoint
  reload n done [] s d = rw append-nil
  reload n done ((k, r) ∷ rest) s d =
      let own : get (key r) done ≡ none = rw (← s.0.0) (get-prefix k r done rest d) in
      let regroup = append_assoc done ((k, r) ∷ []) rest in
      let inserted = insert_checkpoint-new n done r s.0.1 own in
      let placed = insert-append (key r) r done own in
      let extended = done ++ (k, r) ∷ [] in
      let next-eq : insert (key r) r done ≡ extended = rw (placed, ← s.0.0) refl in
      let rest-eq = reload n extended rest s.1 (rw regroup d) in
      rw (inserted, next-eq) (rest-eq ∙ ap ok regroup)

  -- The records of a replay, saved as a checkpoint, are loaded as they were.
  pub load_checkpoint-values :
      (n : Revision) (records : RecordSet Value)
      → IsCurrent n records
      → load_checkpoint n [] (values records) ≡ ok records
  load_checkpoint-values n records c = reload n [] records c.stored c.distinct

  pub replay-append :
      (c : Cursor Value) (xs ys : List (VersionedRecordOp Value))
      → replay c (xs ++ ys) ≡ (replay c xs >>= λ d. replay d ys)
  unfolding replay
  replay-append c [] ys = refl
  replay-append c (op ∷ xs) ys = elim (Result-cases (enter c op)) [
    | inr (e, bad) ↦ rw bad
    | inl (d, good) ↦ elim (Result-cases (perform d op)) [
      | inr (e, bad) ↦ rw (good, bad)
      | inl (d', good') ↦ rw (good, good') (replay-append d' xs ys)
    ]
  ]

  -- What follows a checkpoint opens a later revision, if there is anything.
  abbrev pub OpensAfter : Revision → List (VersionedRecordOp Value) → Type 0
  OpensAfter n [] = Unit
  OpensAfter n (op ∷ ops) = n < op.revision

  enter-fresh :
      (c : Cursor Value) (op : VersionedRecordOp Value)
      → c.revision < op.revision
      → enter (fresh c.revision c.records) op ≡ enter c op
  unfolding enter
  enter-fresh c op h = ground arith

  abbrev result : Cursor Value → Result RecordError (Revision × RecordSet Value)
  result c = ok (c.revision, c.records)

  replay-fresh :
      (c : Cursor Value) (ops : List (VersionedRecordOp Value))
      → OpensAfter c.revision ops
      → (replay (fresh c.revision c.records) ops >>= result) ≡ (replay c ops >>= result)
  unfolding replay
  replay-fresh c [] h = refl
  replay-fresh c (op ∷ ops) h = rw (enter-fresh c op h)

  -- Replaying `early` over a checkpoint, saving the records as a new checkpoint and replaying `late`
  -- over that gives what replaying both over the old checkpoint gives, errors included, if the first
  -- replay succeeds and the first operation of `late` is of a later revision than the new
  -- checkpoint's.
  pub rebuild_records-checkpoint :
      (n : Revision) (checkpoint : List (RecordEnvelope Value))
      (early late : List (VersionedRecordOp Value)) (m : Revision) (records : RecordSet Value)
      → rebuild_records n checkpoint early ≡ ok (m, records)
      → OpensAfter m late
      → rebuild_records m (values records) late ≡ rebuild_records n checkpoint (early ++ late)
  unfolding rebuild_records
  rebuild_records-checkpoint n checkpoint early late m records e h =
      let current = rebuild_records-IsCurrent n checkpoint early m records e in
      let (loaded, l, e1) = >>=-eq-ok (load_checkpoint n [] checkpoint) _ e in
      let (c, r, e2) = >>=-eq-ok (replay (fresh n loaded) early) _ e1 in
      let at : m ≡ c.revision = ground arith in
      let has : records ≡ c.records = ground arith in
      let joined : replay (fresh n loaded) (early ++ late) ≡ replay c late =
        replay-append (fresh n loaded) early late ∙ rw r refl in
      rw (load_checkpoint-values m records current, l, joined, at, has)
        (replay-fresh c late (rw (← at) h))
