-- ===== src/Core/ChangeSet/Effect.antt =====
-- Replaying the operations of a change set over the records of the revision before.
use loreloom.Prelude.{
  ℕ, suc, ◌+◌, ◌≤◌, ◌≡◌, refl, true, Bool-cases, inl, inr, arith, Option, none, some, List, [], ◌∷◌,
  if◌then◌else◌, ◌=?◌, ok, Result-cases, length, ==_refl, >>=-eq-ok, ◌≢◌, Option-cases, ◌∙◌, sym,
}
use loreloom.Prelude.Words.{u32_max}
use loreloom.Prelude.Map.{get, contains, insert, remove, get-insert, get-remove}
use loreloom.Prelude.Map.Entries.{Distinct, Entries}
use loreloom.Core.Revision.{Revision, next, next-ok}
use loreloom.Core.Record.{
  RecordKey, key_eq, key_beq_iff, RecordMutation, upsert, delete, RecordEnvelope, RecordSet,
  VersionedRecordOp, Cursor, mutate, perform, enter, replay, fresh,
}
use loreloom.Core.Migration.{Value}
use loreloom.Core.Codec.{Codec}
use loreloom.Core.ChangeSet.{
  Mutations, ExecutionChangeSet, collect, sort_mutations, enumerate, record_ops, provenance_of,
}
use loreloom.Core.ChangeSet.Sorting.{
  get-sort_mutations, sort_mutations-Distinct, sort_mutations-Entries,
}
use loreloom.Core.ChangeSet.Collecting.{Fits, upserted, wanted, Collected, collect-Collected}

abbrev pub Envelope : Type 0
Envelope = RecordEnvelope Value

-- What a mutation makes of the record under its key.
abbrev after : Option (RecordMutation Value) → Option Envelope → Option Envelope
after none old = old
after (some (upsert e)) old = some e
after (some (delete k)) old = none

-- A record that is deleted is there.
abbrev Present : RecordMutation Value → Option Envelope → Type 0
Present (upsert e) old = Unit
Present (delete k) old = old ≢ none

mutate-after :
    (revision : Revision) (k : RecordKey) (m : RecordMutation Value) (records : RecordSet Value)
    → Fits revision k m
    → Present m (get k records)
    → (more : RecordSet Value) × (mutate revision records m ≡ ok more)
      × ((j : RecordKey)
          → get j more ≡ (if k =? j then after (some m) (get j records) else get j records))
unfolding mutate
mutate-after revision k (upsert e) records f p =
    (insert k e records, ground (arith, f), λ j. get-insert k j e records)
mutate-after revision k (delete i) records f p = elim (Option-cases (get k records)) [
  | inl n ↦ absurd (p n)
  | inr (old, e) ↦ (remove k records, ground (arith, f, e), λ j. get-remove k j records)
]

-- The operations of a list of mutations, and what the replay makes of the records.
module _ (revision : Revision) (action : ℕ) where
  pub record At (n : ℕ) (c : Cursor Value) : Type 0 where
    pub revision_at : c.revision ≡ revision
    pub action_at : c.action ≡ some action
    pub order_at : c.expected_order ≡ n

  -- What is left to do can be done.
  pub record Ready (n : ℕ) (ms : Mutations) (records : RecordSet Value) : Type 0 where
    pub distinct : Distinct ms
    pub fitting : Entries (Fits revision) ms
    pub present :
        (k : RecordKey) {m : RecordMutation Value} → get k ms ≡ some m → Present m (get k records)
    pub few : n + length ms ≤ u32_max

  perform-after :
      (n : ℕ) (k : RecordKey) (m : RecordMutation Value) (c : Cursor Value)
      → At n c
      → suc n ≤ u32_max
      → Fits revision k m
      → Present m (get k c.records)
      → (d : Cursor Value) × (perform c
            (record { revision = revision; action_id = action; order = n; mutation = m })
          ≡ ok d)
        × At (suc n) d
        × ((j : RecordKey)
            → get j d.records
              ≡ (if k =? j then after (some m) (get j c.records) else get j c.records))
  unfolding perform
  perform-after n k m c a s f p =
      let (more, e, g) = mutate-after revision k m c.records f p in
      (
        record c { expected_order = suc n; records = more },
        ground (arith, e, a.revision_at, a.action_at, a.order_at, ==_refl action, ==_refl n),
        record { revision_at = a.revision_at; action_at = a.action_at; order_at = refl },
        g,
      )

  abbrev op_of : ℕ → RecordMutation Value → VersionedRecordOp Value
  op_of n m = record { revision = revision; action_id = action; order = n; mutation = m }

  enumerate-cons :
      (n : ℕ) (k : RecordKey) (m : RecordMutation Value) (ms : Mutations)
      {ops : List (VersionedRecordOp Value)}
      → enumerate revision action n ((k, m) ∷ ms) ≡ ok ops
      → (more : List (VersionedRecordOp Value)) × (enumerate revision action (suc n) ms ≡ ok more)
        × (ops ≡ op_of n m ∷ more)
  unfolding enumerate
  enumerate-cons n k m ms h = elim (Result-cases (enumerate revision action (suc n) ms)) [
    | inl (more, e) ↦ (more, e, ground (arith, e))
    | inr (x, e) ↦ ground (arith, e)
  ]

  enter-At :
      (n i : ℕ) (m : RecordMutation Value) (c : Cursor Value) → At n c → enter c (op_of i m) ≡ ok c
  unfolding enter
  enter-At n i m c a = ground (arith, a.revision_at, a.action_at, ==_refl revision)

  Ready-next :
      (n : ℕ) (k : RecordKey) (m : RecordMutation Value) (ms : Mutations)
      (records more : RecordSet Value)
      → Ready n ((k, m) ∷ ms) records
      → ((j : RecordKey)
          → get j more ≡ (if k =? j then after (some m) (get j records) else get j records))
      → Ready (suc n) ms more
  unfolding get
  Ready-next n k m ms records more y g = record {
    distinct = y.distinct.1;
    fitting = y.fitting.1;
    present = λ j {m = w} e. elim (Bool-cases (k =? j)) [
      | inl t ↦ ground (arith, y.distinct.0, key_beq_iff k j)
      | inr t ↦ rw (g j, t) (y.present j {m = w} (ground (arith, t)))
    ];
    few = omega (arith, y.few);
  }

  replay-after :
      (n : ℕ) (ms : Mutations) (c : Cursor Value) {ops : List (VersionedRecordOp Value)}
      → At n c
      → Ready n ms c.records
      → enumerate revision action n ms ≡ ok ops
      → (d : Cursor Value) × (replay c ops ≡ ok d)
        × ((j : RecordKey) → get j d.records ≡ after (get j ms) (get j c.records))
  unfolding enumerate replay get enter
  replay-after n [] c a y h = (c, ground arith, λ j. refl)
  replay-after n ((k, m) ∷ ms) c a y h =
      let (more, e, q) = enumerate-cons n k m ms h in
      let (d, p, b, g) =
        perform-after n k m c a (omega (arith, y.few)) y.fitting.0
          (y.present k (ground (arith, key_beq_iff k k))) in
      let (z, r, f) = replay-after (suc n) ms d b (Ready-next n k m ms c.records d.records y g) e in
      (
        z,
        ground (arith, q, enter-At n n m c a, p, r),
        λ j. ground (arith, f j, g j, y.distinct.0, key_beq_iff k j),
      )

  length-enumerate :
      (n : ℕ) (ms : Mutations) {ops : List (VersionedRecordOp Value)}
      → enumerate revision action n ms ≡ ok ops
      → length ops ≡ length ms
  unfolding enumerate
  length-enumerate n [] h = ground arith
  length-enumerate n ((k, m) ∷ ms) h =
      let (more, e, q) = enumerate-cons n k m ms h in
      ground (arith, q, length-enumerate (suc n) ms e)

  abbrev started : RecordSet Value → Cursor Value
  started records = record {
    revision = revision;
    action = some action;
    expected_order = 0;
    records = records;
  }

  enter-fresh :
      (before : Revision) (records : RecordSet Value) (m : RecordMutation Value)
      → next before ≡ ok revision
      → enter (fresh before records) (op_of 0 m) ≡ ok (started records)
  unfolding enter
  enter-fresh before records m h = ground (arith, h, next-ok before h, ==_refl revision)

  started-At : (records : RecordSet Value) → At 0 (started records)
  started-At records = record { revision_at = refl; action_at = refl; order_at = refl }

  replay-fresh :
      (before : Revision) (ms : Mutations) (records : RecordSet Value)
      {ops : List (VersionedRecordOp Value)}
      → next before ≡ ok revision
      → Ready 0 ms records
      → enumerate revision action 0 ms ≡ ok ops
      → (d : Cursor Value) × (replay (fresh before records) ops ≡ ok d)
        × ((j : RecordKey) → get j d.records ≡ after (get j ms) (get j records))
  unfolding replay enumerate get
  replay-fresh before [] records g y h = (fresh before records, ground arith, λ j. refl)
  replay-fresh before ((k, m) ∷ ms) records g y h =
      let (more, e, q) = enumerate-cons 0 k m ms h in
      let (d, r, f) = replay-after 0 ((k, m) ∷ ms) (started records) (started-At records) y h in
      (
        d,
        ground (
          arith,
          q,
          enter-fresh before records m g,
          enter-At 0 0 m (started records) (started-At records),
          r,
        ),
        f,
      )

module _ (c : Codec) (s : ExecutionChangeSet) where
  -- The record under a key after the change set: as it is upserted, gone, or as it was.
  abbrev pub outcome : RecordSet Value → RecordKey → Option Envelope
  outcome records k = elim (upserted c s.revision (provenance_of s.action_id) k s.upserts) [
    | some e ↦ some e
    | none ↦ if contains k s.deletes then none else get k records
  ]

  wanted-Present :
      (k : RecordKey) (m : RecordMutation Value) (records : RecordSet Value)
      → ((j : RecordKey) → contains j s.deletes ≡ true → get j records ≢ none)
      → wanted c s.revision (provenance_of s.action_id) k s.upserts s.deletes ≡ some m
      → Present m (get k records)
  wanted-Present k (upsert e) records p h = tt
  wanted-Present k (delete j) records p h = p k (ground arith)

  sorted-Ready :
      (ms : Mutations) (records : RecordSet Value)
      → Collected c s.revision (provenance_of s.action_id) [] s.upserts s.deletes ms
      → ((j : RecordKey) → contains j s.deletes ≡ true → get j records ≢ none)
      → length (sort_mutations ms) ≤ u32_max
      → Ready s.revision s.action_id 0 (sort_mutations ms) records
  sorted-Ready ms records g p few = record {
    distinct = sort_mutations-Distinct ms g.distinct;
    fitting = sort_mutations-Entries (Fits s.revision) ms g.fitting;
    present = λ k {m = m} q.
        wanted-Present k m records p
          (sym (g.found k) ∙ sym (get-sort_mutations k ms g.distinct) ∙ q);
    few = omega (arith, few);
  }

  -- The operations that a change set becomes, if it is accepted, its revision follows that of some
  -- records, its deleted keys are among them and there are fewer than 2^32 operations, replay over
  -- those records without an error, and leave under every key what the change set says: the envelope
  -- of the first upserted record with that key, nothing if it is deleted, and otherwise what was
  -- there.
  pub replay-record_ops :
      (revision : Revision) (records : RecordSet Value) {ops : List (VersionedRecordOp Value)}
      → record_ops c s ≡ ok ops
      → next revision ≡ ok s.revision
      → ((k : RecordKey) → contains k s.deletes ≡ true → get k records ≢ none)
      → length ops ≤ u32_max
      → (d : Cursor Value) × (replay (fresh revision records) ops ≡ ok d)
        × ((k : RecordKey) → get k d.records ≡ outcome records k)
  unfolding record_ops
  replay-record_ops revision records {ops} h g p few =
      let (ms, e, f) =
        >>=-eq-ok (collect c s.revision (provenance_of s.action_id) [] s.upserts s.deletes)
          (λ mutations. enumerate s.revision s.action_id 0 (sort_mutations mutations)) h in
      let g' =
        collect-Collected c s.revision (provenance_of s.action_id) [] s.upserts s.deletes e in
      let y =
        sorted-Ready ms records g' p
          (omega (arith, few, length-enumerate s.revision s.action_id 0 (sort_mutations ms) f)) in
      let (d, r, b) =
        replay-fresh s.revision s.action_id revision (sort_mutations ms) records g y f in
      (d, r, λ k. ground (arith, b k, get-sort_mutations k ms g'.distinct, g'.found k))
