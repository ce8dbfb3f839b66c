-- ===== src/Store/Checksums.antt =====
-- The digests and checksums of crates/loreloom-store/src/store.rs: SHA-256 over a domain and the JSON
-- text of a value, printed in hexadecimal.
use loreloom.Prelude.{
  ℕ, ◌+◌, ◌/◌, ◌%◌, Option, [], ◌∷◌, ◌++◌, ltb, if◌then◌else◌, String, Text, bytes, Result, ok,
  ◌>>=◌, ok_or,
}
use loreloom.Core.Revision.{Revision}
use loreloom.Store.Types.{Host, StoreError, json, WorldCommand}

-- A domain of the digests ends in a zero byte.
abbrev domain : String → Text
domain s = bytes s ++ 0 ∷ []

abbrev hex_digit : ℕ → ℕ
hex_digit n = if ltb n 10 then 48 + n else 87 + n

abbrev pub hex : Text → Text
hex [] = []
hex (byte ∷ rest) = hex_digit (byte / 16) ∷ (hex_digit (byte % 16) ∷ hex rest)

module _ (h : Host) where
  open h use {
    Kind, EventKind, Body, Value, Manifest, save_id, validate_manifest, show_action, show_event,
    show_transcript, padded, Json, object, string, number, to_vec, command_vec, command_json,
    outcome_json, op_json, event_json, transcript_json, manifest_json, decode_command,
    decode_outcome, decode_manifest, sha256,
  }

  abbrev pub Fallible : Type 0 → Type 0
  Fallible A = Result StoreError A

  unfoldable pub digest : Text → Text → Text
  digest dom content = hex (sha256 (dom ++ content))

  abbrev pub to_json : {A : Type 0} → Option A → String → Fallible A
  to_json encoded operation = ok_or encoded (json operation)

  unfoldable pub checksum_json : Text → Json → Fallible Text
  checksum_json dom value = do
    content ← ok_or (to_vec value) (json "encode checksum payload")
    ok (digest dom content)

  unfoldable pub request_digest : WorldCommand Kind → Fallible Text
  request_digest command = do
    content ← ok_or (command_vec command) (json "encode command digest")
    ok (digest (domain "loreloom.world-command.v1") content)

  unfoldable pub head_checksum : Revision → Json → Fallible Text
  head_checksum revision manifest =
      checksum_json (domain "loreloom.save-head.v1")
        (object (("revision", number revision) ∷ ("manifest", manifest) ∷ []))

  unfoldable pub record_op_checksum : Text → Revision → ℕ → Text → Json → Fallible Text
  record_op_checksum save revision order action payload =
      checksum_json (domain "loreloom.record-op.v1") (
        object (
          ("save_id", string save)
          ∷ ("revision", number revision)
          ∷ ("order", number order)
          ∷ ("action_id", string action)
          ∷ ("payload", payload)
          ∷ []))

  unfoldable pub event_checksum : Text → Revision → ℕ → Json → Fallible Text
  event_checksum save revision event payload = checksum_json (domain "loreloom.world-event.v1") (
      object (
        ("save_id", string save)
        ∷ ("revision", number revision)
        ∷ ("event_id", string (show_event event))
        ∷ ("payload", payload)
        ∷ []))

  unfoldable pub transcript_checksum : Text → Revision → ℕ → Json → Fallible Text
  transcript_checksum save revision transcript payload =
      checksum_json (domain "loreloom.transcript.v1") (
        object (
          ("save_id", string save)
          ∷ ("revision", number revision)
          ∷ ("transcript_id", string (show_transcript transcript))
          ∷ ("payload", payload)
          ∷ []))

  unfoldable pub action_checksum : Text → Text → Revision → Text → Json → Json → Fallible Text
  action_checksum save action revision request command outcome =
      checksum_json (domain "loreloom.action-commit.v1") (
        object (
          ("save_id", string save)
          ∷ ("action_id", string action)
          ∷ ("revision", number revision)
          ∷ ("request_digest", string request)
          ∷ ("command", command)
          ∷ ("outcome", outcome)
          ∷ []))
