-- ===== src/Core/Record/Replay.antt =====
-- What a replay keeps of the records, in crates/loreloom-core/src/record.rs.
use loreloom.Prelude.{◌≤◌, ◌≡◌, refl, List, [], ◌∷◌, arith, ok, >>=-eq-ok}
use loreloom.Prelude.Map.{insert, remove}
use loreloom.Prelude.Map.Entries.{
  Entries, Distinct, insert-Distinct, remove-Distinct, insert-Entries, remove-Entries,
}
use loreloom.Core.Revision.{Revision, next}
use loreloom.Core.Record.{
  RecordKey, RecordEnvelope, VersionedRecordOp, RecordMutation, upsert, delete, RecordSet, Cursor,
  key, insert_checkpoint, load_checkpoint, enter, mutate, perform, replay, fresh, rebuild_records,
  key_eq,
}

module _ {Value : Type 0} where
  -- Each envelope is stored under its own key, and is not newer than the revision.
  abbrev pub Stored : Revision → RecordKey → RecordEnvelope Value → Type 0
  Stored revision k r = (k ≡ key r) × (r.revision ≤ revision)

  pub record IsCurrent (revision : Revision) (records : RecordSet Value) : Type 0 where
    pub stored : Entries (Stored revision) records
    pub distinct : Distinct records

  stored_later :
      {m n : Revision} (records : RecordSet Value)
      → m ≤ n
      → Entries (Stored m) records
      → Entries (Stored n) records
  stored_later [] h s = tt
  stored_later ((k, r) ∷ records) h s = ((s.0.0, omega arith), stored_later records h s.1)

  insert-IsCurrent :
      (n : Revision) (records : RecordSet Value) (r : RecordEnvelope Value)
      → r.revision ≤ n
      → IsCurrent n records
      → IsCurrent n (insert (key r) r records)
  insert-IsCurrent n records r h c = record {
    stored = insert-Entries (Stored n) (key r) r records (refl, h) c.stored;
    distinct = insert-Distinct (key r) r records c.distinct;
  }

  insert_checkpoint-ok :
      (n : Revision) (records : RecordSet Value) (r : RecordEnvelope Value) {more : RecordSet Value}
      → insert_checkpoint n records r ≡ ok more
      → (more ≡ insert (key r) r records) × (r.revision ≤ n)
  unfolding insert_checkpoint
  insert_checkpoint-ok n records r e = ground arith

  load_checkpoint-IsCurrent :
      (n : Revision) (records : RecordSet Value) (rs : List (RecordEnvelope Value))
      {loaded : RecordSet Value}
      → load_checkpoint n records rs ≡ ok loaded
      → IsCurrent n records
      → IsCurrent n loaded
  unfolding load_checkpoint
  load_checkpoint-IsCurrent n records [] {loaded} e c =
      let same : records ≡ loaded = cc in rw (← same) c
  load_checkpoint-IsCurrent n records (r ∷ rs) e c =
      let (more, inserted, rest) = >>=-eq-ok (insert_checkpoint n records r) _ e in
      let (at, h) = insert_checkpoint-ok n records r inserted in
      load_checkpoint-IsCurrent n more rs rest (rw at (insert-IsCurrent n records r h c))

  -- What a replay has built is current at the cursor's revision.
  abbrev pub InSync : Cursor Value → Type 0
  InSync c = IsCurrent c.revision c.records

  enter-ok :
      (c : Cursor Value) (op : VersionedRecordOp Value) {d : Cursor Value}
      → enter c op ≡ ok d
      → (d.records ≡ c.records) × (d.revision ≡ op.revision) × (c.revision ≤ d.revision)
  unfolding enter next
  enter-ok c op e = ground arith

  enter-InSync :
      (c : Cursor Value) (op : VersionedRecordOp Value) {d : Cursor Value}
      → enter c op ≡ ok d
      → InSync c
      → InSync d
  enter-InSync c op {d} e s =
      let (same, _, later) = enter-ok c op e in
      rw same (record { stored = stored_later c.records later s.stored; distinct = s.distinct })

  mutate-IsCurrent :
      (n : Revision) (records : RecordSet Value) (m : RecordMutation Value) {more : RecordSet Value}
      → mutate n records m ≡ ok more
      → IsCurrent n records
      → IsCurrent n more
  unfolding mutate
  mutate-IsCurrent n records (upsert r) {more} e c =
      let (at, h) : (more ≡ insert (key r) r records) × (r.revision ≤ n) = ground arith in
      rw at (insert-IsCurrent n records r h c)
  mutate-IsCurrent n records (delete k) {more} e c =
      let at : more ≡ remove k records = ground arith in
      rw at (record {
        stored = remove-Entries (Stored n) k records c.stored;
        distinct = remove-Distinct k records c.distinct;
      })

  perform-ok :
      (c : Cursor Value) (op : VersionedRecordOp Value) {d : Cursor Value}
      → perform c op ≡ ok d
      → (d.revision ≡ c.revision) × (mutate c.revision c.records op.mutation ≡ ok d.records)
  unfolding perform
  perform-ok c op e = ground arith

  perform-InSync :
      (c : Cursor Value) (op : VersionedRecordOp Value) {d : Cursor Value}
      → perform c op ≡ ok d
      → InSync c
      → InSync d
  perform-InSync c op {d} e s =
      let (same, done) = perform-ok c op e in
      rw same (mutate-IsCurrent c.revision c.records op.mutation done s)

  replay-InSync :
      (c : Cursor Value) (ops : List (VersionedRecordOp Value)) {d : Cursor Value}
      → replay c ops ≡ ok d
      → InSync c
      → InSync d
  unfolding replay
  replay-InSync c [] {d} e s = let same : c ≡ d = cc in rw (← same) s
  replay-InSync c (op ∷ ops) e s =
      let (a, entered, e1) = >>=-eq-ok (enter c op) _ e in
      let (b, performed, e2) = >>=-eq-ok (perform a op) _ e1 in
      replay-InSync b ops e2 (perform-InSync a op performed (enter-InSync c op entered s))

  empty-IsCurrent : (n : Revision) → IsCurrent n []
  empty-IsCurrent n = record { stored = tt; distinct = tt }

  -- Whatever the stored checkpoint and operations hold, the records that `rebuild_records` returns
  -- are each stored once, under their own key, and none is newer than the revision returned.
  pub rebuild_records-IsCurrent :
      (n : Revision) (checkpoint : List (RecordEnvelope Value))
      (ops : List (VersionedRecordOp Value)) (m : Revision) (records : RecordSet Value)
      → rebuild_records n checkpoint ops ≡ ok (m, records)
      → IsCurrent m records
  unfolding rebuild_records
  rebuild_records-IsCurrent n checkpoint ops m records e =
      let (loaded, l, e1) = >>=-eq-ok (load_checkpoint n [] checkpoint) _ e in
      let (c, r, e2) = >>=-eq-ok (replay (fresh n loaded) ops) _ e1 in
      let at : c.revision ≡ m = ground arith in
      let has : c.records ≡ records = ground arith in
      let start = load_checkpoint-IsCurrent n [] checkpoint l (empty-IsCurrent n) in
      rw (← at, ← has) (replay-InSync (fresh n loaded) ops r start)
