-- ===== src/Core/ChangeSet/Collecting.antt =====
-- The mutations that the two loops of `record_ops` collect, seen as a map: `wanted` reads them off the
-- change set, one key at a time.
use loreloom.Prelude.{
  ◌≡◌, refl, true, false, Bool-cases, inl, inr, arith, Option, none, some, List, [], ◌∷◌,
  if◌then◌else◌, ◌=?◌, ok, err, Result-cases,
}
use loreloom.Prelude.Map.{get, contains}
use loreloom.Prelude.Map.Entries.{Distinct, Entries}
use loreloom.Core.Revision.{Revision}
use loreloom.Core.Record.{
  RecordKey, key_eq, key_beq_iff, key, RecordMutation, upsert, delete, RecordEnvelope,
  RecordProvenance,
}
use loreloom.Core.Migration.{Value, new_envelope}
use loreloom.Core.Domain.{DomainRecord}
use loreloom.Core.Codec.{Codec, domain_key, to_envelope, record_type, record_id}
use loreloom.Core.ChangeSet.{Mutations, collect, collect_deletes}

-- A mutation fits its key and the revision of the change set.
abbrev pub Fits : Revision → RecordKey → RecordMutation Value → Type 0
Fits revision k (upsert e) = (key e ≡ k) × (e.revision ≡ revision)
Fits revision k (delete j) = j ≡ k

pub to_envelope-Fits :
    (c : Codec) (r : DomainRecord) (revision : Revision) (provenance : Option RecordProvenance)
    {e : RecordEnvelope Value} {k : RecordKey}
    → domain_key c r ≡ ok k
    → to_envelope c r revision provenance ≡ ok e
    → Fits revision k (upsert e)
unfolding to_envelope domain_key new_envelope
to_envelope-Fits c r revision provenance h g = elim (Result-cases (record_type c r)) [
  | inr (x, n) ↦ ground (arith, n)
  | inl (t, v) ↦ elim (Result-cases (record_id c r)) [
    | inr (x, n) ↦ ground (arith, v, n)
    | inl (i, w) ↦ ground (arith, v, w)
  ]
]

module _ (c : Codec) (revision : Revision) (provenance : Option RecordProvenance) where
  -- The envelope of the first record with a key.
  abbrev pub upserted : RecordKey → List DomainRecord → Option (RecordEnvelope Value)
  upserted k [] = none
  upserted k (r ∷ rs) =
      let rest = upserted k rs in
      elim (domain_key c r) [
        | err _ ↦ rest
        | ok j ↦
            if j =? k
            then elim (to_envelope c r revision provenance) [ err _ ↦ none | ok e ↦ some e ]
            else rest
      ]

  abbrev pub deleted : RecordKey → List RecordKey → Option (RecordMutation Value)
  deleted k ks = if contains k ks then some (delete k) else none

  abbrev pub wanted : RecordKey → List DomainRecord → List RecordKey → Option (RecordMutation Value)
  wanted k rs ks = elim (upserted k rs) [ some e ↦ some (upsert e) | none ↦ deleted k ks ]

  pub record Collected (seen : List RecordKey) (rs : List DomainRecord) (ks : List RecordKey)
      (ms : Mutations) : Type 0 where
    pub unseen : (k : RecordKey) → contains k seen ≡ true → get k ms ≡ none
    pub distinct : Distinct ms
    pub fitting : Entries (Fits revision) ms
    pub found : (k : RecordKey) → get k ms ≡ wanted k rs ks

  -- One mutation more, of a key that was not seen.
  extend :
      (seen : List RecordKey) (j : RecordKey) (m : RecordMutation Value) (rs : List DomainRecord)
      (ks : List RecordKey) {rs' : List DomainRecord} {ks' : List RecordKey} {ms all : Mutations}
      → all ≡ (j, m) ∷ ms
      → contains j seen ≡ false
      → Fits revision j m
      → ((k : RecordKey) → wanted k rs' ks' ≡ (if j =? k then some m else wanted k rs ks))
      → Collected (j ∷ seen) rs ks ms
      → Collected seen rs' ks' all
  unfolding get contains
  extend seen j m rs ks q n f w g = rw q (record {
    unseen = λ k e. ground (arith, g.unseen k, key_beq_iff j k);
    distinct = (g.unseen j (ground (arith, key_beq_iff j j)), g.distinct);
    fitting = (f, g.fitting);
    found = λ k. ground (arith, g.found k, w k);
  })

  collect_deletes-Collected :
      (seen ks : List RecordKey) {ms : Mutations}
      → collect_deletes seen ks ≡ ok ms
      → Collected seen [] ks ms
  unfolding collect_deletes contains get
  collect_deletes-Collected seen [] h = record {
    unseen = λ k e. ground arith;
    distinct = ground arith;
    fitting = ground arith;
    found = λ k. ground arith;
  }
  collect_deletes-Collected seen (j ∷ ks) h = elim (Bool-cases (contains j seen)) [
    | inl y ↦ ground (arith, y)
    | inr n ↦ elim (Result-cases (collect_deletes (j ∷ seen) ks)) [
      | inr (x, e) ↦ ground (arith, n, e)
      | inl (rest, e) ↦
          extend seen j (delete j) [] ks (ground (arith, n, e)) n refl
            (λ k. ground (arith, key_beq_iff j k)) (collect_deletes-Collected (j ∷ seen) ks e)
    ]
  ]

  pub collect-Collected :
      (seen : List RecordKey) (rs : List DomainRecord) (ks : List RecordKey) {ms : Mutations}
      → collect c revision provenance seen rs ks ≡ ok ms
      → Collected seen rs ks ms
  unfolding collect contains get
  collect-Collected seen [] ks h = collect_deletes-Collected seen ks h
  collect-Collected seen (r ∷ rs) ks h = elim (Result-cases (domain_key c r)) [
    | inr (x, n) ↦ ground (arith, n)
    | inl (j, v) ↦ elim (Bool-cases (contains j seen)) [
      | inl y ↦ ground (arith, v, y)
      | inr n ↦ elim (Result-cases (to_envelope c r revision provenance)) [
        | inr (x, w) ↦ ground (arith, v, n, w)
        | inl (e, w) ↦ elim (Result-cases (collect c revision provenance (j ∷ seen) rs ks)) [
          | inr (x, z) ↦ ground (arith, v, n, w, z)
          | inl (rest, z) ↦
              extend seen j (upsert e) rs ks (ground (arith, v, n, w, z)) n
                (to_envelope-Fits c r revision provenance v w) (λ k. ground (arith, v, w))
                (collect-Collected (j ∷ seen) rs ks z)
        ]
      ]
    ]
  ]
