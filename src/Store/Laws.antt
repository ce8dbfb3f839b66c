-- ===== src/Store/Laws.antt =====
-- What the store relies on of the code that it builds on: a record that is created is found under its
-- key, other tables are not touched, and JSON values decode to what was encoded.
use loreloom.Prelude.{◌≡◌, true, some, Text, ◌=?◌, if◌then◌else◌, text_eq}
use loreloom.Store.Types.{
  Host, WorldCommand, CommittedAction, SaveHeadRow, RecordOpRow, WorldEventRow, TranscriptRow,
  ActionCommitRow,
}

module _ (h : Host) where
  open h use {
    Kind, Manifest, Json, Db, head_row, action_row, create_op, create_event, create_transcript,
    create_action, update_head, command_json, outcome_json, decode_command, decode_outcome,
    manifest_json, decode_manifest, same_manifest,
  }

  pub record Lawful : Type 0 where
    pub action_after_op :
        (k : Text) (r : RecordOpRow Json) (db : Db)
        → action_row k (create_op r db) ≡ action_row k db
    pub action_after_event :
        (k : Text) (r : WorldEventRow Json) (db : Db)
        → action_row k (create_event r db) ≡ action_row k db
    pub action_after_transcript :
        (k : Text) (r : TranscriptRow Json) (db : Db)
        → action_row k (create_transcript r db) ≡ action_row k db
    pub action_after_head :
        (k : Text) (r : SaveHeadRow Json) (db : Db)
        → action_row k (update_head r db) ≡ action_row k db
    pub action_after_action :
        (k : Text) (r : ActionCommitRow Json) (db : Db)
        → action_row k (create_action r db) ≡ (if r.id =? k then some r else action_row k db)
    pub head_after_head :
        (k : Text) (r : SaveHeadRow Json) (db : Db)
        → head_row k (update_head r db) ≡ (if r.save_id =? k then some r else head_row k db)
    pub command_decodes :
        (c : WorldCommand Kind) (v : Json) → command_json c ≡ some v → decode_command v ≡ some c
    pub outcome_decodes :
        (o : CommittedAction) (v : Json) → outcome_json o ≡ some v → decode_outcome v ≡ some o
    pub manifest_decodes :
        (m : Manifest) (v : Json) → manifest_json m ≡ some v → decode_manifest v ≡ some m
    pub same_manifest_eq : (m n : Manifest) → same_manifest m n ≡ true → m ≡ n
