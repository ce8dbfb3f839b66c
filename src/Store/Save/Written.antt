-- ===== src/Store/Save/Written.antt =====
-- `SaveStore::commit` of crates/loreloom-store/src/store.rs, seen from a result that is `committed`.
use loreloom.Prelude.{
  ◌≡◌, ◌≢◌, refl, ap, false, Option, none, some, arith, ◌==◌, ==_iff, ok, ◌>>◌, >>=-eq-ok,
  Bool-cases, Result-cases, inl, inr, String,
}
use loreloom.Core.Revision.{Revision}
use loreloom.Store.Types.{
  Host, CommittedAction, CommitResult, committed, conflict, SaveHeadRow, ActionCommitRow, Weather,
}
use loreloom.Store.Request.{CommitRequest, validate}
use loreloom.Store.Rows.{PreparedCommit, prepare, validate_head_row, validate_action_row}
use loreloom.Store.Save.{
  SaveStore, Reply, begin, commit, check_action, check_head, advance, finish, write_stage,
  write_commit, duplicate, call,
}

module _ (h : Host) where
  open h use {Manifest, Json, head_row, action_row}

  -- A successful commit: the request is valid and prepared, its action was not there, the head was at
  -- the expected revision, and the rows are written.
  pub record Commits (w : Weather h) (s : SaveStore h) (r : CommitRequest h) (o : CommittedAction)
      (s' : SaveStore h) : Type 0 where
    pub prepared : PreparedCommit h
    pub head : SaveHeadRow Json
    pub manifest : Manifest
    pub begun : begin h w s r ≡ ok prepared
    pub new : action_row prepared.action.id s.db ≡ none
    pub found : head_row prepared.save s.db ≡ some head
    pub current : validate_head_row h head ≡ ok (manifest, r.command.expected_revision)
    pub outcome : o ≡ r.safe_outcome
    pub written : s'.db ≡ write_commit h prepared head s.db
    pub kept : s'.manifest ≡ s.manifest
    pub advanced : s'.revision ≡ r.safe_outcome.revision

  finish-committed :
      (w : Weather h) (s : SaveStore h) (r : CommitRequest h) (tx : h.Db) {o : CommittedAction}
      {s' : SaveStore h}
      → finish h w s r tx ≡ (ok (committed o), s')
      → (o ≡ r.safe_outcome)
        × (s'.db ≡ tx)
        × (s'.manifest ≡ s.manifest)
        × (s'.revision ≡ r.safe_outcome.revision)
  unfolding finish
  finish-committed w s r tx e = ground arith

  advance-committed :
      (w : Weather h) (s : SaveStore h) (r : CommitRequest h) (p : PreparedCommit h)
      (head : SaveHeadRow Json) (actual : Revision) {o : CommittedAction} {s' : SaveStore h}
      → advance h w s r p head actual ≡ (ok (committed o), s')
      → (actual ≡ r.command.expected_revision)
        × (finish h w s r (write_commit h p head s.db) ≡ (ok (committed o), s'))
  unfolding advance
  advance-committed w s r p head actual {o} {s'} e =
      elim (Bool-cases (actual == r.command.expected_revision)) [
        | inl same ↦ elim (Result-cases (write_stage h w p)) [
          | inl (u, good) ↦ ((==_iff _ _).0 same, rw (same, good, advance) at e)
          | inr (x, bad) ↦ absurd (cc (rw (same, bad, advance) at e))
        ]
        | inr differs ↦ absurd (refused (rw (differs, advance) at e))
      ]
    where
      refused :
          ◌≡◌ {A = Reply h CommitResult}
            (
              call h w "rollback revision conflict"
                  >> ok (conflict r.command.expected_revision actual),
              s,
            )
            (ok (committed o), s')
          → ⊥
      refused e' = ground arith

  check_head-committed :
      (w : Weather h) (s : SaveStore h) (r : CommitRequest h) (p : PreparedCommit h)
      (found : Option (SaveHeadRow Json)) {o : CommittedAction} {s' : SaveStore h}
      → check_head h w s r p found ≡ (ok (committed o), s')
      → (head : SaveHeadRow Json) × (m : Manifest) × (found ≡ some head)
        × (validate_head_row h head ≡ ok (m, r.command.expected_revision))
        × (finish h w s r (write_commit h p head s.db) ≡ (ok (committed o), s'))
  unfolding check_head
  check_head-committed w s r p none e = absurd (cc e)
  check_head-committed w s r p (some head) e = elim (Result-cases (validate_head_row h head)) [
    | inl ((m, actual), good) ↦
        let (at, rest) = advance-committed w s r p head actual (rw (good, check_head) at e) in
        (head, m, refl, rw (← at) good, rest)
    | inr (x, bad) ↦ absurd (cc (rw (bad, check_head) at e))
  ]

  duplicate-ne :
      (w : Weather h) (s : SaveStore h) (r : CommitRequest h) (p : PreparedCommit h)
      (row : ActionCommitRow Json) {o : CommittedAction}
      → duplicate h w s r p row ≢ ok (committed o)
  unfolding duplicate
  duplicate-ne w s r p row e =
      let (outcome, valid, e1) = >>=-eq-ok (validate_action_row h row (h.save_id s.manifest)) _ e in
      ground arith

  check_action-committed :
      (w : Weather h) (s : SaveStore h) (r : CommitRequest h) (p : PreparedCommit h)
      (found : Option (ActionCommitRow Json)) {o : CommittedAction} {s' : SaveStore h}
      → check_action h w s r p found ≡ (ok (committed o), s')
      → (found ≡ none) × (check_head h w s r p (head_row p.save s.db) ≡ (ok (committed o), s'))
  unfolding check_action
  check_action-committed w s r p (some row) e =
      absurd (duplicate-ne w s r p row (ap (λ (a : Reply h CommitResult). a.0) e))
  check_action-committed w s r p none e =
      elim (Result-cases (call h w "read save head for commit")) [
        | inl (u, good) ↦ (refl, rw (good, check_action) at e)
        | inr (x, bad) ↦ absurd (cc (rw (bad, check_action) at e))
      ]

  -- Every commit that succeeds is of this form.
  pub commit-Commits :
      (w : Weather h) (s : SaveStore h) (r : CommitRequest h) (o : CommittedAction)
      (s' : SaveStore h)
      → commit h w s r ≡ (ok (committed o), s')
      → Commits w s r o s'
  unfolding commit
  commit-Commits w s r o s' e = elim (Result-cases (begin h w s r)) [
    | inr (x, bad) ↦ absurd (cc (rw (bad, commit) at e))
    | inl (p, good) ↦
        let (new, e1) =
          check_action-committed w s r p (action_row p.action.id s.db) (rw (good, commit) at e) in
        let (head, m, found, current, e2) =
          check_head-committed w s r p (head_row p.save s.db) e1 in
        let (outcome, written, kept, advanced) =
          finish-committed w s r (write_commit h p head s.db) e2 in
        record {
          prepared = p;
          head = head;
          manifest = m;
          begun = good;
          new = new;
          found = found;
          current = current;
          outcome = outcome;
          written = written;
          kept = kept;
          advanced = advanced;
        }
  ]

  pub begin-parts :
      (w : Weather h) (s : SaveStore h) (r : CommitRequest h) (p : PreparedCommit h)
      → begin h w s r ≡ ok p
      → (validate h r ≡ ok tt) × (prepare h s.manifest r ≡ ok p)
  unfolding begin
  begin-parts w s r p e = ground arith

  -- No call of the backend fails.
  unfoldable pub Calm : Weather h → Type 0
  Calm w = (operation : String) → w.fails operation ≡ false

  pub call-Calm : (w : Weather h) (operation : String) → Calm w → call h w operation ≡ ok tt
  unfolding Calm
  call-Calm w operation calm = rw (calm operation)
