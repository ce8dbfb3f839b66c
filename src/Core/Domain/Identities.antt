-- ===== src/Core/Domain/Identities.antt =====
-- The identifiers of crates/loreloom-core/src/identity.rs and the bounded texts of text.rs. A runtime
-- identifier is its UUID, a 128-bit number; an identifier of content is a validated text.
use loreloom.Prelude.{
  ℕ, ◌/◌, ◌%◌, ◌^◌, Bool, true, false, ◌&&◌, ◌∷◌, [], ltb, ◌==◌, if◌then◌else◌, length, Result, ok,
  err, Text, ◌>>=◌,
}

abbrev pub ObjectId : Type 0
ObjectId = ℕ

abbrev pub ActorId : Type 0
ActorId = ObjectId

abbrev pub ActionId : Type 0
ActionId = ℕ

abbrev pub EventId : Type 0
EventId = ℕ

abbrev pub GenerationId : Type 0
GenerationId = ℕ

abbrev pub TranscriptItemId : Type 0
TranscriptItemId = ℕ

abbrev pub SessionId : Type 0
SessionId = ℕ

abbrev pub WorldId : Type 0
WorldId = ℕ

abbrev pub ModId : Type 0
ModId = Text

abbrev pub ContentDefinitionId : Type 0
ContentDefinitionId = Text

abbrev pub DisplayName : Type 0
DisplayName = Text

abbrev pub ShortText : Type 0
ShortText = Text

abbrev pub LongText : Type 0
LongText = Text

-- The variant of a UUID that the uuid crate calls RFC4122 is the top bits 10 of its ninth byte.
abbrev pub is_uuid_v7 : ℕ → Bool
is_uuid_v7 uuid = uuid / 2 ^ 62 % 4 == 2 && uuid / 2 ^ 76 % 16 == 7

-- The other errors are those of the parsers, `NameError`.
pub data IdentityError : Type 0 where
  invalid_generated_uuid : IdentityError

unfoldable pub validate_uuid_v7 : ℕ → Result IdentityError ℕ
validate_uuid_v7 uuid = if is_uuid_v7 uuid then ok uuid else err invalid_generated_uuid

pub data TextError : Type 0 where
  too_long : ℕ → TextError
  empty : TextError

abbrev null : Text → Bool
null [] = true
null (c ∷ cs) = false

-- `BoundedText::new` and `non_empty`, for a limit of `maximum` bytes
unfoldable pub new_text : ℕ → Text → Result TextError Text
new_text maximum value = if ltb maximum (length value) then err (too_long maximum) else ok value

unfoldable pub non_empty_text : ℕ → Text → Result TextError Text
unfolding new_text
non_empty_text maximum value =
    new_text maximum value >>= λ text. if null text then err empty else ok text
