-- ===== src/World/Transcripts/Receipts.antt =====
-- A reader has at most one receipt of a line.
use loreloom.Prelude.{
  ◌≡◌, refl, sym, ◌∙◌, true, false, ◌&&◌, ◌||◌, Bool-cases, inl, inr, ◌⊎◌, arith, some, List, [],
  ◌∷◌, ltb, ◌==◌, ==_iff, ==_refl, nat_eq, Result-cases, ok, err,
}
use loreloom.Prelude.Map.{get, get-insert, insert}
use loreloom.Core.Revision.{Revision}
use loreloom.Core.Domain.Identities.{ActorId, TranscriptItemId}
use loreloom.Core.Domain.Facts.{TranscriptItemRecord, TranscriptAudience, npc}
use loreloom.Core.Domain.Facts
use loreloom.Core.Codec.Validation.{is_some}
use loreloom.World.Types.{GameWorld, WorldError}
use loreloom.World.Transcripts.{
  Transcripts, append_transcripts, check_items, check_item, store_all, sort_by_id, insert_by_id,
  received, received_beside, same_audience,
}

-- Lines are stored under their own identifiers.
abbrev pub IsFiled : Transcripts → Type 0
IsFiled m = (id : TranscriptItemId) (t : TranscriptItemRecord) → get id m ≡ some t → t.id ≡ id

-- No two receipts of one line are for the same reader.
abbrev pub IsSingle : Transcripts → Type 0
IsSingle m =
    (a b : TranscriptItemId) (t u : TranscriptItemRecord) (source : TranscriptItemId)
    → get a m ≡ some t
    → get b m ≡ some u
    → t.audience ≡ u.audience
    → t.source_id ≡ some source
    → u.source_id ≡ some source
    → a ≡ b

abbrev In : TranscriptItemRecord → List TranscriptItemRecord → Type 0
In t [] = true ≡ false
In t (u ∷ rest) = (t ≡ u) ⊎ In t rest

same_audience_refl : (a : TranscriptAudience) → same_audience a a ≡ true
same_audience_refl Facts.player = refl
same_audience_refl (npc id) = ==_refl id

received-get :
    (m : Transcripts) (b : TranscriptItemId) (t u : TranscriptItemRecord)
    (source : TranscriptItemId)
    → get b m ≡ some u
    → t.audience ≡ u.audience
    → t.source_id ≡ some source
    → u.source_id ≡ some source
    → received t m ≡ true
unfolding get received
received-get [] b t u source h p q r = ground arith
received-get ((j, x) ∷ m) b t u source h p q r =
    ground (arith, received-get m b t u source, same_audience_refl u.audience, ==_refl source)

received_beside-In :
    (items : List TranscriptItemRecord) (t u : TranscriptItemRecord) (source : TranscriptItemId)
    → In u items
    → (u.id == t.id) ≡ false
    → t.audience ≡ u.audience
    → t.source_id ≡ some source
    → u.source_id ≡ some source
    → received_beside t items ≡ true
unfolding received_beside
received_beside-In [] t u source i n p q r = ground arith
received_beside-In (x ∷ rest) t u source (inl e) n p q r =
    ground (arith, e, same_audience_refl u.audience, ==_refl source)
received_beside-In (x ∷ rest) t u source (inr i) n p q r =
    ground (arith, received_beside-In rest t u source i n p q r)

-- What the checks say of one of the new items.
abbrev Unreceived : GameWorld → List TranscriptItemRecord → TranscriptItemRecord → Type 0
Unreceived w items t =
    (is_some t.source_id && (received t w.transcripts || received_beside t items)) ≡ false

check_items-Unreceived :
    (actor_id : ActorId) (revision : Revision) (w : GameWorld) (items : List TranscriptItemRecord)
    (seen : List TranscriptItemId) (rest : List TranscriptItemRecord) (t : TranscriptItemRecord)
    → check_items actor_id revision w items seen rest ≡ ok tt
    → In t rest
    → Unreceived w items t
unfolding check_items check_item
check_items-Unreceived actor_id revision w items seen [] t h i = ground arith
check_items-Unreceived actor_id revision w items seen (u ∷ rest) t h (inl e) = ground (arith, e)
check_items-Unreceived actor_id revision w items seen (u ∷ rest) t h (inr i) =
    check_items-Unreceived actor_id revision w items (u.id ∷ seen) rest t (ground arith) i

insert_by_id-In :
    (u : TranscriptItemRecord) (items : List TranscriptItemRecord) (t : TranscriptItemRecord)
    → In t (insert_by_id u items)
    → In t (u ∷ items)
unfolding insert_by_id
insert_by_id-In u [] t i = i
insert_by_id-In u (x ∷ items) t i = elim (Bool-cases (ltb x.id u.id)) [
  | inl y ↦ elim (rw y at i) [
    | inl e ↦ inr (inl e)
    | inr j ↦ elim (insert_by_id-In u items t j) [ inl e ↦ inl e | inr k ↦ inr (inr k) ]
  ]
  | inr n ↦ rw n at i
]

sort_by_id-In :
    (items : List TranscriptItemRecord) (t : TranscriptItemRecord)
    → In t (sort_by_id items)
    → In t items
unfolding sort_by_id
sort_by_id-In [] t i = i
sort_by_id-In (u ∷ items) t i = elim (insert_by_id-In u (sort_by_id items) t i) [
  | inl e ↦ inl e
  | inr j ↦ inr (sort_by_id-In items t j)
]

stored-here :
    (u : TranscriptItemRecord) (id : TranscriptItemId) (t : TranscriptItemRecord) (m : Transcripts)
    → (u.id == id) ≡ true
    → get id (insert u.id u m) ≡ some t
    → (t ≡ u) × (t.id ≡ id)
stored-here u id t m y g = ground (arith, y, g, ==_iff u.id id, get-insert u.id id u m)

get-store_all :
    (items : List TranscriptItemRecord) (m : Transcripts) (id : TranscriptItemId)
    (t : TranscriptItemRecord)
    → get id (store_all items m) ≡ some t
    → (In t items × (t.id ≡ id)) ⊎ (get id m ≡ some t)
unfolding store_all
get-store_all [] m id t h = inr h
get-store_all (u ∷ items) m id t h = elim (get-store_all items (insert u.id u m) id t h) [
  | inl (i, e) ↦ inl (inr i, e)
  | inr g ↦ elim (Bool-cases (u.id == id)) [
    | inl y ↦ (let (e, k) = stored-here u id t m y g in inl (inl e, k))
    | inr n ↦ inr (ground (arith, g, n, get-insert u.id id u m))
  ]
]

-- A new line and a stored one, or two new ones, are no receipts of one line for one reader.
module _ (w : GameWorld) (items : List TranscriptItemRecord)
    (fresh : (t : TranscriptItemRecord) → In t items → Unreceived w items t) where
  new-stored :
      (b : TranscriptItemId) (t u : TranscriptItemRecord) (source : TranscriptItemId)
      → In t items
      → get b w.transcripts ≡ some u
      → t.audience ≡ u.audience
      → t.source_id ≡ some source
      → u.source_id ≡ some source
      → true ≡ false
  new-stored b t u source i g p q r =
      ground (arith, q, fresh t i, received-get w.transcripts b t u source g p q r)

  new-new :
      (t u : TranscriptItemRecord) (source : TranscriptItemId)
      → In t items
      → In u items
      → t.audience ≡ u.audience
      → t.source_id ≡ some source
      → u.source_id ≡ some source
      → t.id ≡ u.id
  new-new t u source i j p q r = elim (Bool-cases (u.id == t.id)) [
    | inl y ↦ sym ((==_iff u.id t.id).0 y)
    | inr n ↦ ground (arith, q, fresh t i, received_beside-In items t u source j n p q r)
  ]

  store_all-IsFiled : IsFiled w.transcripts → IsFiled (store_all (sort_by_id items) w.transcripts)
  store_all-IsFiled h id t g = elim (get-store_all (sort_by_id items) w.transcripts id t g) [
    | inl (i, e) ↦ e
    | inr k ↦ h id t k
  ]

  store_all-IsSingle :
      IsSingle w.transcripts → IsSingle (store_all (sort_by_id items) w.transcripts)
  store_all-IsSingle h a b t u source f g p q r =
      elim (get-store_all (sort_by_id items) w.transcripts a t f) [
        | inl (i, e) ↦ elim (get-store_all (sort_by_id items) w.transcripts b u g) [
          | inl (j, k) ↦
              sym e
              ∙ new-new t u source (sort_by_id-In items t i) (sort_by_id-In items u j) p q r
              ∙ k
          | inr k ↦ ground (arith, new-stored b t u source (sort_by_id-In items t i) k p q r)
        ]
        | inr e ↦ elim (get-store_all (sort_by_id items) w.transcripts b u g) [
          | inl (j, k) ↦
              ground (arith, new-stored a u t source (sort_by_id-In items u j) e (sym p) r q)
          | inr k ↦ h a b t u source e k p q r
        ]
      ]

-- If transcript lines are stored under their own identifiers and no reader has two receipts of one
-- line, that still holds after lines are appended, or refused.
pub append_transcripts-IsSingle :
    (actor_id : ActorId) (items : List TranscriptItemRecord) (revision : Revision) (w : GameWorld)
    → IsFiled w.transcripts
    → IsSingle w.transcripts
    → IsFiled (append_transcripts actor_id items revision w).0.transcripts
      × IsSingle (append_transcripts actor_id items revision w).0.transcripts
unfolding append_transcripts
append_transcripts-IsSingle actor_id [] revision w f h = (f, h)
append_transcripts-IsSingle actor_id (x ∷ items) revision w f h =
    elim (Result-cases (check_items actor_id revision w (x ∷ items) [] (x ∷ items))) [
      | inr (e, q) ↦ rw (kept q) (f, h)
      | inl (u, q) ↦ rw (stored q) (
        store_all-IsFiled w (x ∷ items)
            (λ t i. check_items-Unreceived actor_id revision w (x ∷ items) [] (x ∷ items) t q i) f,
        store_all-IsSingle w (x ∷ items)
            (λ t i. check_items-Unreceived actor_id revision w (x ∷ items) [] (x ∷ items) t q i) h,
      )
    ]
  where
    kept :
        {e : WorldError}
        → check_items actor_id revision w (x ∷ items) [] (x ∷ items) ≡ err e
        → (append_transcripts actor_id (x ∷ items) revision w).0 ≡ w
    kept q = ground (arith, q)

    stored :
        check_items actor_id revision w (x ∷ items) [] (x ∷ items) ≡ ok tt
        → (append_transcripts actor_id (x ∷ items) revision w).0.transcripts
          ≡ store_all (sort_by_id (x ∷ items)) w.transcripts
    stored q = ground (arith, q)
