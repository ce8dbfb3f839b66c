-- ===== src/Store/Save/Atomicity.antt =====
-- The database on each outcome of `SaveStore::commit` of crates/loreloom-store/src/store.rs.
use loreloom.Prelude.{
  ◌≡◌, refl, ap, sym, ◌∙◌, Bool, true, false, Option, none, some, arith, ◌==◌, Result, ok, err,
  text_eq, ==_iff, Bool-cases, Result-cases, inl, inr, ◌⊎◌,
}
use loreloom.Core.Revision.{Revision}
use loreloom.Store.Types.{
  Host, StoreError, CommittedAction, CommitResult, committed, already_committed, conflict,
  action_identity_conflict, SaveHeadRow, ActionCommitRow, lost, backend, Weather,
}
use loreloom.Store.Request.{CommitRequest}
use loreloom.Store.Rows.{PreparedCommit, validate_head_row}
use loreloom.Store.Save.{
  SaveStore, Reply, begin, commit, check_action, check_head, advance, finish, write_stage,
  write_commit, call,
}
use loreloom.Store.Save.Written.{Commits, commit-Commits}

module _ (h : Host) where
  open h use {Manifest, Json, Db, head_row, action_row, save_id}

  is_committed : Result StoreError CommitResult → Bool
  is_committed (ok (committed o)) = true
  is_committed (ok (already_committed o)) = false
  is_committed (ok (conflict e a)) = false
  is_committed (ok (action_identity_conflict n)) = false
  is_committed (err e) = false

  -- Nothing was written: the store is as it was, or its database is as another writer left it.
  abbrev pub Unwritten : Weather h → SaveStore h → SaveStore h → Type 0
  Unwritten w s s' = (s' ≡ s) ⊎ ((w.verdict ≡ lost s'.db) × (s'.manifest ≡ s.manifest))

  -- The commit of the transaction failed, but its rows are there; the store does not know it.
  abbrev pub LeftBehind :
      SaveStore h
      → PreparedCommit h
      → SaveHeadRow Json
      → Result StoreError CommitResult
      → SaveStore h
      → Type 0
  LeftBehind s p head x s' =
      (x ≡ err (backend "commit durable transaction"))
      × (s' ≡ record s { db = write_commit h p head s.db })

  finish-kept :
      (w : Weather h) (s : SaveStore h) (r : CommitRequest h) (tx : Db)
      {x : Result StoreError CommitResult} {s' : SaveStore h}
      → finish h w s r tx ≡ (x, s')
      → is_committed x ≡ false
      → Unwritten w s s'
        ⊎ ((x ≡ err (backend "commit durable transaction")) × (s' ≡ record s { db = tx }))
  unfolding finish is_committed
  finish-kept w s r tx e other = ground arith

  advance-kept :
      (w : Weather h) (s : SaveStore h) (r : CommitRequest h) (p : PreparedCommit h)
      (head : SaveHeadRow Json) (actual : Revision) {x : Result StoreError CommitResult}
      {s' : SaveStore h}
      → advance h w s r p head actual ≡ (x, s')
      → is_committed x ≡ false
      → Unwritten w s s' ⊎ ((actual ≡ r.command.expected_revision) × LeftBehind s p head x s')
  unfolding advance
  advance-kept w s r p head actual {x} {s'} e other =
      elim (Bool-cases (actual == r.command.expected_revision)) [
        | inl at ↦ elim (Result-cases (write_stage h w p)) [
          | inl (u, good) ↦
              elim (finish-kept w s r (write_commit h p head s.db) (rw (at, good, advance) at e)
                other) [ inl kept ↦ inl kept | inr left ↦ inr ((==_iff _ _).0 at, left) ]
          | inr (y, bad) ↦
              inl (inl (sym (ap (λ (a : Reply h CommitResult). a.1) (rw (at, bad, advance) at e))))
        ]
        | inr differs ↦
            inl (inl (sym (ap (λ (a : Reply h CommitResult). a.1) (rw (differs, advance) at e))))
      ]

  -- The rows of a prepared commit are there over a valid head at the expected revision.
  record Doubtful (s : SaveStore h) (r : CommitRequest h) (p : PreparedCommit h)
      (found : Option (SaveHeadRow Json)) (x : Result StoreError CommitResult) (s' : SaveStore h)
      : Type 0 where
    head : SaveHeadRow Json
    manifest : Manifest
    found_head : found ≡ some head
    current : validate_head_row h head ≡ ok (manifest, r.command.expected_revision)
    left : LeftBehind s p head x s'

  check_head-kept :
      (w : Weather h) (s : SaveStore h) (r : CommitRequest h) (p : PreparedCommit h)
      (found : Option (SaveHeadRow Json)) {x : Result StoreError CommitResult} {s' : SaveStore h}
      → check_head h w s r p found ≡ (x, s')
      → is_committed x ≡ false
      → Unwritten w s s' ⊎ Doubtful s r p found x s'
  unfolding check_head
  check_head-kept w s r p none e other = inl (inl (sym (ap (λ (a : Reply h CommitResult). a.1) e)))
  check_head-kept w s r p (some head) e other = elim (Result-cases (validate_head_row h head)) [
    | inl ((m, actual), good) ↦
        elim (advance-kept w s r p head actual (rw (good, check_head) at e) other) [
          | inl kept ↦ inl kept
          | inr (at, left) ↦ inr (record {
            head = head;
            manifest = m;
            found_head = refl;
            current = rw (← at) good;
            left = left;
          })
        ]
    | inr (y, bad) ↦
        inl (inl (sym (ap (λ (a : Reply h CommitResult). a.1) (rw (bad, check_head) at e))))
  ]

  check_action-kept :
      (w : Weather h) (s : SaveStore h) (r : CommitRequest h) (p : PreparedCommit h)
      (found : Option (ActionCommitRow Json)) {x : Result StoreError CommitResult}
      {s' : SaveStore h}
      → check_action h w s r p found ≡ (x, s')
      → is_committed x ≡ false
      → Unwritten w s s' ⊎ ((found ≡ none) × Doubtful s r p (head_row p.save s.db) x s')
  unfolding check_action
  check_action-kept w s r p (some row) e other =
      inl (inl (sym (ap (λ (a : Reply h CommitResult). a.1) e)))
  check_action-kept w s r p none e other =
      elim (Result-cases (call h w "read save head for commit")) [
        | inl (u, good) ↦
            elim (check_head-kept w s r p (head_row p.save s.db) (rw (good, check_action) at e)
              other) [ inl kept ↦ inl kept | inr doubt ↦ inr (refl, doubt) ]
        | inr (y, bad) ↦
            inl (inl (sym (ap (λ (a : Reply h CommitResult). a.1) (rw (bad, check_action) at e))))
      ]

  -- The commit is reported as failed, and yet the store is as a successful commit leaves it, but for
  -- the revision in memory, which is the old one.
  abbrev pub Unknown :
      Weather h
      → SaveStore h
      → CommitRequest h
      → Result StoreError CommitResult
      → SaveStore h
      → Type 0
  Unknown w s r x s' =
      (x ≡ err (backend "commit durable transaction"))
      × (s'.revision ≡ s.revision)
      × Commits h w s r r.safe_outcome (record s' { revision = r.safe_outcome.revision })

  commit-kept :
      (w : Weather h) (s : SaveStore h) (r : CommitRequest h) {x : Result StoreError CommitResult}
      {s' : SaveStore h}
      → commit h w s r ≡ (x, s')
      → is_committed x ≡ false
      → Unwritten w s s' ⊎ Unknown w s r x s'
  unfolding commit
  commit-kept w s r {x} {s'} e other = elim (Result-cases (begin h w s r)) [
    | inl (p, good) ↦
        elim (check_action-kept w s r p (action_row p.action.id s.db) (rw (good, commit) at e)
          other) [
            | inl kept ↦ inl kept
            | inr (new, doubt) ↦
                let (failed, left) = doubt.left in
                inr (
                  failed,
                  ap (λ (a : SaveStore h). a.revision) left,
                  record {
                    prepared = p;
                    head = doubt.head;
                    manifest = doubt.manifest;
                    begun = good;
                    new = new;
                    found = doubt.found_head;
                    current = doubt.current;
                    outcome = refl;
                    written = ap (λ (a : SaveStore h). a.db) left;
                    kept = ap (λ (a : SaveStore h). a.manifest) left;
                    advanced = refl;
                  },
                )
          ]
    | inr (y, bad) ↦
        inl (inl (sym (ap (λ (a : Reply h CommitResult). a.1) (rw (bad, commit) at e))))
  ]

  is_committed-true :
      (x : Result StoreError CommitResult)
      → is_committed x ≡ true
      → (o : CommittedAction) × (x ≡ ok (committed o))
  unfolding is_committed
  is_committed-true (ok (committed o)) e = (o, refl)
  is_committed-true (ok (already_committed o)) e = absurd (cc e)
  is_committed-true (ok (conflict a b)) e = absurd (cc e)
  is_committed-true (ok (action_identity_conflict n)) e = absurd (cc e)
  is_committed-true (err y) e = absurd (cc e)

  -- Whatever fails during a commit, and whatever it returns, one of three holds. The store is as it
  -- was, or its database is the one that another writer left when the commit lost against it, and
  -- the manifest is kept. Or the commit of the transaction failed with an error that is no
  -- serialization failure, and yet the transaction took effect: the error is that of the commit, the
  -- revision in memory is the old one, and with the new revision the store would be as after a
  -- successful commit. Or the result is `committed`. After a successful commit the request was
  -- valid, its action was new, the valid head was at the expected revision, exactly the rows of the
  -- commit are written and the store's revision is that of the outcome.
  pub commit-atomic :
      (w : Weather h) (s : SaveStore h) (r : CommitRequest h) (x : Result StoreError CommitResult)
      (s' : SaveStore h)
      → commit h w s r ≡ (x, s')
      → Unwritten w s s'
        ⊎ (Unknown w s r x s'
            ⊎ ((o : CommittedAction) × (x ≡ ok (committed o)) × Commits h w s r o s'))
  commit-atomic w s r x s' e = elim (Bool-cases (is_committed x)) [
    | inr other ↦ elim (commit-kept w s r e other) [
      | inl kept ↦ inl kept
      | inr unknown ↦ inr (inl unknown)
    ]
    | inl wrote ↦
        let (o, at) = is_committed-true x wrote in
        inr (inr (o, at, commit-Commits h w s r o s' (e ∙ ap (λ y. (y, s')) at)))
  ]
