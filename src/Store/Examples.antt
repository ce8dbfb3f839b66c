-- ===== src/Store/Examples.antt =====
-- Runs of the store over a database of lists, with a JSON type that holds what was encoded.
use loreloom.Prelude.{
  ℕ, ◌≡◌, ◌≢◌, ◌⊎◌, refl, true, false, Option, none, some, List, [], ◌∷◌, ◌++◌, arith, Result, ok,
  err, text_beq, text_beq_iff, ==_iff, ◌&&◌, ◌==◌, String, bytes, Text, text_eq, ◌=?◌,
  if◌then◌else◌,
}
use loreloom.Prelude.Int.{pos}
use loreloom.Core.Revision.{Revision}
use loreloom.Core.Record.{RecordEnvelope, upsert}
use loreloom.Store.Types.{
  Host, integrity, StoreError, WorldCommand, CommittedAction, CommitResult, committed,
  already_committed, resolved, SaveHeadRow, ActionCommitRow, durable, broken, backend, Weather,
}
use loreloom.Store.Laws.{Lawful}
use loreloom.Store.Request.{CommitRequest}
use loreloom.Store.Checksums.{hex, head_checksum, checksum_json, digest}
use loreloom.Store.Save.{SaveStore, commit, resolve_action, load_head}
use loreloom.Store.Save.Written.{Commits, Calm}
use loreloom.Store.Save.Idempotence.{commit-again, resolve_action-commit}
use loreloom.Store.Save.Atomicity.{Unwritten, Unknown, commit-atomic}
use loreloom.Store.Adopt.{adopt_content_locks, load_head-adopt_content_locks}
use loreloom.Store.Save.Head.{load_head-commit, load_head-commit_stale}

-- A manifest: the identity of its save, and the locks.
record Held : Type 0 where
  name : Text
  locks : ℕ

data Doc : Type 0 where
  command_doc : WorldCommand ℕ → Doc
  outcome_doc : CommittedAction → Doc
  manifest_doc : Held → Doc
  text_doc : Text → Doc

abbrev content : Doc → Text
content (command_doc c) = c.kind ∷ []
content (outcome_doc o) = o.safe_summary
content (manifest_doc m) = m.locks ∷ m.name
content (text_doc t) = t

abbrev joined : List (String × Doc) → Text
joined [] = []
joined ((name, d) ∷ rest) = bytes name ++ content d ++ joined rest

record Tables : Type 0 where
  heads : List (SaveHeadRow Doc)
  actions : List (ActionCommitRow Doc)

abbrev find_head : Text → List (SaveHeadRow Doc) → Option (SaveHeadRow Doc)
find_head k [] = none
find_head k (r ∷ rs) = if r.save_id =? k then some r else find_head k rs

abbrev find_action : Text → List (ActionCommitRow Doc) → Option (ActionCommitRow Doc)
find_action k [] = none
find_action k (r ∷ rs) = if r.id =? k then some r else find_action k rs

abbrev doc_command : Doc → Option (WorldCommand ℕ)
doc_command (command_doc c) = some c
doc_command (outcome_doc o) = none
doc_command (manifest_doc m) = none
doc_command (text_doc t) = none

abbrev doc_outcome : Doc → Option CommittedAction
doc_outcome (command_doc c) = none
doc_outcome (outcome_doc o) = some o
doc_outcome (manifest_doc m) = none
doc_outcome (text_doc t) = none

abbrev doc_manifest : Doc → Option Held
doc_manifest (command_doc c) = none
doc_manifest (outcome_doc o) = none
doc_manifest (manifest_doc m) = some m
doc_manifest (text_doc t) = none

abbrev lists : Host
lists = record {
  Kind = ℕ;
  EventKind = ℕ;
  Body = ℕ;
  Value = ℕ;
  Manifest = Held;
  save_id = λ m. m.name;
  validate_manifest = λ m. true;
  same_manifest = λ m n. text_beq m.name n.name && m.locks == n.locks;
  show_action = λ n. n ∷ [];
  show_event = λ n. n ∷ [];
  show_transcript = λ n. n ∷ [];
  padded = λ w n. n ∷ [];
  Json = Doc;
  object = λ fields. text_doc (joined fields);
  string = text_doc;
  number = λ n. text_doc (n ∷ []);
  to_vec = λ d. some (content d);
  command_vec = λ c. some (c.kind ∷ []);
  command_json = λ c. some (command_doc c);
  outcome_json = λ o. some (outcome_doc o);
  op_json = λ op. some (text_doc (op.order ∷ []));
  event_json = λ e. some (text_doc (e.id ∷ []));
  transcript_json = λ t. some (text_doc (t.id ∷ []));
  manifest_json = λ m. some (manifest_doc m);
  decode_command = doc_command;
  decode_outcome = doc_outcome;
  decode_manifest = doc_manifest;
  sha256 = λ t. t;
  Db = Tables;
  head_row = λ k db. find_head k db.heads;
  action_row = λ k db. find_action k db.actions;
  create_op = λ r db. db;
  create_event = λ r db. db;
  create_transcript = λ r db. db;
  create_action = λ r db. record db { actions = r ∷ db.actions };
  update_head = λ r db. record db { heads = r ∷ db.heads };
}

lists-Lawful : Lawful lists
lists-Lawful = record {
  action_after_op = λ k r db. refl;
  action_after_event = λ k r db. refl;
  action_after_transcript = λ k r db. refl;
  action_after_head = λ k r db. refl;
  action_after_action = λ k r db. refl;
  head_after_head = λ k r db. refl;
  command_decodes = λ c v e. ground arith;
  outcome_decodes = λ o v e. ground arith;
  manifest_decodes = λ m v e. ground arith;
  same_manifest_eq = λ m n e. ground (arith, text_beq_iff m.name n.name, ==_iff m.locks n.locks);
}

abbrev save_name : Text
save_name = bytes "s1"

abbrev held : Held
held = record { name = save_name; locks = 1 }

abbrev head_sum : Text
head_sum = hex (
    bytes "loreloom.save-head.v1"
    ++ 0 ∷ bytes "revision"
    ++ 3 ∷ bytes "manifest"
    ++ (1 ∷ save_name))

abbrev start_head : SaveHeadRow Doc
start_head = record {
  save_id = save_name;
  revision = pos 3;
  manifest = manifest_doc held;
  checksum = head_sum;
}

abbrev store : SaveStore lists
store = record {
  db = record { heads = start_head ∷ []; actions = [] };
  manifest = held;
  revision = 3;
}

abbrev outcome : CommittedAction
outcome = record { action_id = 7; revision = 4; event_ids = []; safe_summary = bytes "moved" }

abbrev npc : RecordEnvelope ℕ
npc = record {
  record_type = bytes "npc";
  schema_version = 1;
  record_id = bytes "npc:a";
  revision = 4;
  payload = 7;
  provenance = none;
}

abbrev request : CommitRequest lists
request = record {
  command = record { action_id = 7; actor_id = 1; expected_revision = 3; kind = 2 };
  record_ops = record { revision = 4; action_id = 7; order = 0; mutation = upsert npc } ∷ [];
  events = [];
  transcripts = [];
  safe_outcome = outcome;
}

abbrev calm : Weather lists
calm = record { fails = λ operation. false; verdict = durable }

calm-Calm : Calm lists calm
unfolding Calm
calm-Calm operation = refl

abbrev after : SaveStore lists
after = (commit lists calm store request).1

commit_run : commit lists calm store request ≡ (ok (committed outcome), after)
unfolding commit loreloom.Store.Request.validate loreloom.Core.Revision.next
    loreloom.Store.Rows.prepare loreloom.Store.Rows.revision_to_i64
    loreloom.Store.Rows.prepare_action loreloom.Store.Checksums.request_digest
    loreloom.Store.Checksums.action_checksum loreloom.Store.Checksums.checksum_json
    loreloom.Store.Checksums.head_checksum loreloom.Store.Rows.prepare_ops
    loreloom.Store.Checksums.record_op_checksum loreloom.Store.Rows.prepare_events
    loreloom.Store.Rows.prepare_transcripts loreloom.Store.Rows.validate_head_row
    loreloom.Store.Rows.revision_from_i64 loreloom.Store.Checksums.digest
commit_run = refl

commit-again_example : commit lists calm after request ≡ (ok (already_committed outcome), after)
commit-again_example =
    commit-again lists lists-Lawful calm calm store request outcome after commit_run calm-Calm

resolve_action-commit_example :
    resolve_action lists calm after request.command ≡ (ok (resolved outcome), after)
resolve_action-commit_example =
    resolve_action-commit lists lists-Lawful calm calm store request outcome after commit_run
      calm-Calm

load_head-commit_example : load_head lists calm save_name after.db ≡ ok (held, 4)
load_head-commit_example =
    load_head-commit lists lists-Lawful calm calm store request outcome after start_head commit_run
      refl refl calm-Calm

-- The backend reports an error though the transaction took effect.
abbrev doubtful : Weather lists
doubtful = record { fails = λ operation. false; verdict = broken true }

abbrev after_doubt : SaveStore lists
after_doubt = (commit lists doubtful store request).1

doubtful_run :
    commit lists doubtful store request ≡ (err (backend "commit durable transaction"), after_doubt)
unfolding commit loreloom.Store.Request.validate loreloom.Core.Revision.next
    loreloom.Store.Rows.prepare loreloom.Store.Rows.revision_to_i64
    loreloom.Store.Rows.prepare_action loreloom.Store.Checksums.request_digest
    loreloom.Store.Checksums.action_checksum loreloom.Store.Checksums.checksum_json
    loreloom.Store.Checksums.head_checksum loreloom.Store.Rows.prepare_ops
    loreloom.Store.Checksums.record_op_checksum loreloom.Store.Rows.prepare_events
    loreloom.Store.Rows.prepare_transcripts loreloom.Store.Rows.validate_head_row
    loreloom.Store.Rows.revision_from_i64 loreloom.Store.Checksums.digest
doubtful_run = refl

commit-atomic_example :
    Unwritten lists doubtful store after_doubt
    ⊎ (Unknown lists doubtful store request (err (backend "commit durable transaction")) after_doubt
        ⊎ ((o : CommittedAction) × (◌≡◌ {A = Result StoreError CommitResult}
              (err (backend "commit durable transaction"))
              (ok (committed o)))
            × Commits lists doubtful store request o after_doubt))
commit-atomic_example =
    commit-atomic lists doubtful store request (err (backend "commit durable transaction"))
      after_doubt doubtful_run

-- A connection that still holds the manifest from before another one changed the locks.
abbrev behind : SaveStore lists
behind = record store { manifest = record { name = save_name; locks = 0 } }

abbrev after_behind : SaveStore lists
after_behind = (commit lists calm behind request).1

behind_run : commit lists calm behind request ≡ (ok (committed outcome), after_behind)
unfolding commit loreloom.Store.Request.validate loreloom.Core.Revision.next
    loreloom.Store.Rows.prepare loreloom.Store.Rows.revision_to_i64
    loreloom.Store.Rows.prepare_action loreloom.Store.Checksums.request_digest
    loreloom.Store.Checksums.action_checksum loreloom.Store.Checksums.checksum_json
    loreloom.Store.Checksums.head_checksum loreloom.Store.Rows.prepare_ops
    loreloom.Store.Checksums.record_op_checksum loreloom.Store.Rows.prepare_events
    loreloom.Store.Rows.prepare_transcripts loreloom.Store.Rows.validate_head_row
    loreloom.Store.Rows.revision_from_i64 loreloom.Store.Checksums.digest
behind_run = refl

abbrev sum_of : ℕ → Text
sum_of locks = hex (
    bytes "loreloom.save-head.v1"
    ++ 0 ∷ bytes "revision"
    ++ 4 ∷ bytes "manifest"
    ++ locks ∷ save_name)

sum_run :
    (locks : ℕ)
    → head_checksum lists 4 (manifest_doc (record { name = save_name; locks = locks }))
      ≡ ok (sum_of locks)
unfolding head_checksum checksum_json digest
sum_run locks = refl

text_beq-ne : (a b : Text) → text_beq a b ≡ false → a ≢ b
text_beq-ne a b h e = cc ((text_beq_iff a b).1 e, h)

sums_differ : sum_of 1 ≢ sum_of 0
sums_differ = text_beq-ne (sum_of 1) (sum_of 0) refl

load_head-commit_stale_example :
    load_head lists calm save_name after_behind.db ≡ err (integrity "save_head_checksum")
load_head-commit_stale_example =
    load_head-commit_stale lists lists-Lawful calm calm behind request outcome after_behind
      start_head (manifest_doc (record { name = save_name; locks = 0 })) (sum_of 1) (sum_of 0)
      behind_run refl refl refl (sum_run 0) (sum_run 1) sums_differ calm-Calm

abbrev newer : Held
newer = record { name = save_name; locks = 2 }

abbrev adopted : SaveStore lists
adopted = (adopt_content_locks lists calm store newer).1

adopt_run : adopt_content_locks lists calm store newer ≡ (ok tt, adopted)
unfolding adopt_content_locks head_checksum checksum_json loreloom.Store.Rows.validate_head_row
    loreloom.Store.Rows.revision_from_i64 digest
adopt_run = refl

load_head-adopt_content_locks_example :
    (load_head lists calm save_name adopted.db ≡ ok (newer, 3)) × (adopted.manifest ≡ newer)
load_head-adopt_content_locks_example =
    load_head-adopt_content_locks lists lists-Lawful calm calm store newer adopted adopt_run refl
      refl calm-Calm
