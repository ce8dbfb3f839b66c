-- ===== src/Core/ChangeSet/Sorting.antt =====
-- What sorting keeps of a list of mutations with distinct keys.
use loreloom.Prelude.{
  ◌≡◌, refl, Bool-cases, inl, inr, arith, none, some, [], ◌∷◌, if◌then◌else◌, ◌=?◌, ◌∙◌, ap,
}
use loreloom.Prelude.Map.{get}
use loreloom.Prelude.Map.Entries.{Distinct, Entries}
use loreloom.Core.Record.{RecordKey, key_eq, key_beq_iff, RecordMutation}
use loreloom.Core.Migration.{Value}
use loreloom.Core.ChangeSet.{Mutations, insert_sorted, sort_mutations, key_ltb}

get-insert_sorted :
    (j k : RecordKey) (m : RecordMutation Value) (ms : Mutations)
    → get j ms ≡ none
    → get k (insert_sorted j m ms) ≡ (if j =? k then some m else get k ms)
unfolding get insert_sorted
get-insert_sorted j k m [] h = refl
get-insert_sorted j k m ((i, w) ∷ ms) h = elim (Bool-cases (key_ltb i j)) [
  | inl y ↦ rw y (
      ground (arith, key_beq_iff i j, key_beq_iff i k, key_beq_iff j k, get-insert_sorted j k m ms))
  | inr n ↦ rw n refl
]

insert_sorted-Distinct :
    (j : RecordKey) (m : RecordMutation Value) (ms : Mutations)
    → get j ms ≡ none
    → Distinct ms
    → Distinct (insert_sorted j m ms)
unfolding get insert_sorted
insert_sorted-Distinct j m [] h d = (refl, tt)
insert_sorted-Distinct j m ((i, w) ∷ ms) h d = elim (Bool-cases (key_ltb i j)) [
  | inl y ↦ rw y (
      ground (
        arith,
        key_beq_iff i j,
        key_beq_iff j i,
        get-insert_sorted j i m ms,
        insert_sorted-Distinct j m ms,
      ))
  | inr n ↦ rw n (h, d)
]

insert_sorted-Entries {κ} :
    (P : RecordKey → RecordMutation Value → Type κ) (j : RecordKey) (m : RecordMutation Value)
    (ms : Mutations)
    → P j m
    → Entries P ms
    → Entries P (insert_sorted j m ms)
unfolding insert_sorted
insert_sorted-Entries P j m [] p h = (p, tt)
insert_sorted-Entries P j m ((i, w) ∷ ms) p h = elim (Bool-cases (key_ltb i j)) [
  | inl y ↦ rw y (h.0, insert_sorted-Entries P j m ms p h.1)
  | inr n ↦ rw n (p, h)
]

pub get-sort_mutations :
    (k : RecordKey) (ms : Mutations) → Distinct ms → get k (sort_mutations ms) ≡ get k ms
unfolding get sort_mutations
get-sort_mutations k [] d = refl
get-sort_mutations k ((j, m) ∷ ms) d =
    get-insert_sorted j k m (sort_mutations ms) (rw (get-sort_mutations j ms d.1) d.0)
    ∙ ap (λ o. if j =? k then some m else o) (get-sort_mutations k ms d.1)

pub sort_mutations-Distinct : (ms : Mutations) → Distinct ms → Distinct (sort_mutations ms)
unfolding sort_mutations
sort_mutations-Distinct [] d = tt
sort_mutations-Distinct ((j, m) ∷ ms) d =
    insert_sorted-Distinct j m (sort_mutations ms) (rw (get-sort_mutations j ms d.1) d.0)
      (sort_mutations-Distinct ms d.1)

pub sort_mutations-Entries {κ} :
    (P : RecordKey → RecordMutation Value → Type κ) (ms : Mutations)
    → Entries P ms
    → Entries P (sort_mutations ms)
unfolding sort_mutations
sort_mutations-Entries P [] h = tt
sort_mutations-Entries P ((j, m) ∷ ms) h =
    insert_sorted-Entries P j m (sort_mutations ms) h.0 (sort_mutations-Entries P ms h.1)
