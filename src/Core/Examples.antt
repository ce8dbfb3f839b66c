-- ===== src/Core/Examples.antt =====
-- Runs of the record replay, of the fixed-point numbers and of the names on concrete values.
use loreloom.Prelude.{
  ℕ, ◌≡◌, ◌≤◌, refl, Bool, true, false, Option, none, some, List, [], ◌∷◌, ◌++◌, ◌*◌, ◌%◌, arith,
  Result, ok, err, bytes, Text, length, ◌==◌, if◌then◌else◌,
}
use loreloom.Prelude.Int.{ℤ, pos, negsuc, ◌≤ℤ◌, abs, ◌*ℤ◌, ◌-ℤ◌, IsI64}
use loreloom.Prelude.Map.{get}
use loreloom.Core.Revision.{Revision, division_by_zero}
use loreloom.Core.Record.{
  RecordEnvelope, RecordError, VersionedRecordOp, upsert, delete, rebuild_records, RecordSet, key,
  load_checkpoint, replay, enter, perform,
}
use loreloom.Core.Record.Replay.{IsCurrent, rebuild_records-IsCurrent}
use loreloom.Core.Record.Checkpoint.{rebuild_records-checkpoint, values}
use loreloom.Core.Fixed.{Fixed, of_micros, mul, div, add, sub, clamp, round_ratio, checked, scale}
use loreloom.Core.Fixed.Rounding.{round_ratio-IsNearest}
use loreloom.Core.Fixed.Bounds.{rounded, mul-rounded, div-rounded, mul-error, sub-add}
use loreloom.Core.Names.{
  parse_definition_id, new_definition_id, definition_mod_id, definition_kind, definition_local_key,
  parse_mod_id, is_kind, is_local_key, format_definition,
}
use loreloom.Core.Names.Definitions.{new_definition_id-parts, parse_definition_id_sound}
use loreloom.Core.Migration.{
  Value, number, pos_int, object, entry, no_entries, MigrationStep, MigrationRegistry,
  empty_registry, step_key, register_record_type, register_migration, upgrade,
}
use loreloom.Core.Migration.Upgrade.{fresh, with_type, with_step, Upgraded, upgrade-total}

abbrev npc : Revision → RecordEnvelope ℕ
npc revision = record {
  record_type = bytes "npc";
  schema_version = 1;
  record_id = bytes "npc:a";
  revision = revision;
  payload = 7;
  provenance = none;
}

abbrev op : Revision → ℕ → RecordEnvelope ℕ → VersionedRecordOp ℕ
op revision order r = record {
  revision = revision;
  action_id = 5;
  order = order;
  mutation = upsert r;
}

abbrev early : List (VersionedRecordOp ℕ)
early = op 4 0 (npc 4) ∷ []

abbrev late : List (VersionedRecordOp ℕ)
late = record { revision = 5; action_id = 6; order = 0; mutation = delete (key (npc 4)) } ∷ []

abbrev stored : RecordSet ℕ
stored = (key (npc 4), npc 4) ∷ []

early_run : rebuild_records 3 (npc 2 ∷ []) early ≡ ok (4, stored)
unfolding rebuild_records load_checkpoint loreloom.Prelude.Map.get replay enter
    loreloom.Core.Revision.next perform loreloom.Prelude.Map.insert
early_run = refl

rebuild_records-checkpoint_example :
    rebuild_records 4 (values stored) late ≡ rebuild_records 3 (npc 2 ∷ []) (early ++ late)
rebuild_records-checkpoint_example =
    rebuild_records-checkpoint 3 (npc 2 ∷ []) early late 4 stored early_run (omega arith)

rebuild_records-IsCurrent_example : IsCurrent 4 stored
rebuild_records-IsCurrent_example =
    rebuild_records-IsCurrent 3 (npc 2 ∷ []) early 4 stored early_run

-- 1.5 and a millionth
abbrev one_half : Fixed
one_half = of_micros (pos 1_500_000)

abbrev tiny : Fixed
tiny = of_micros (pos 1)

tie_run : mul one_half tiny ≡ ok (of_micros (pos 2))
unfolding mul round_ratio loreloom.Prelude.Int.rem ◌*ℤ◌ loreloom.Prelude.Int.quot
    loreloom.Prelude.Int.◌+ℤ◌ loreloom.Core.Fixed.i64_from_i128
tie_run = refl

mul-rounded_example : mul one_half tiny ≡ checked (rounded (pos 1_500_000 *ℤ pos 1) scale)
mul-rounded_example = mul-rounded one_half tiny (omega arith) (omega arith)

div-rounded_example : div tiny one_half ≡ (
    if abs (pos 1_500_000) == 0
    then err division_by_zero
    else checked (rounded (pos 1 *ℤ scale) (pos 1_500_000)))
div-rounded_example = div-rounded tiny one_half (omega arith) (omega arith)

mul-error_example :
    (2 * abs (pos 1_500_000 *ℤ pos 1 -ℤ pos 2 *ℤ pos 1_000_000) ≤ 1_000_000)
    × (2 * abs (pos 1_500_000 *ℤ pos 1 -ℤ pos 2 *ℤ pos 1_000_000) ≡ 1_000_000 → 2 % 2 ≡ 0)
mul-error_example = mul-error one_half tiny (of_micros (pos 2)) tie_run

seven_halves : round_ratio (pos 7) (pos 2) ≡ ok (pos 4)
unfolding round_ratio loreloom.Prelude.Int.rem loreloom.Prelude.Int.quot loreloom.Prelude.Int.◌+ℤ◌
seven_halves = refl

round_ratio-IsNearest_example :
    (2 * abs (pos 7 -ℤ pos 4 *ℤ pos 2) ≤ 2) × (2 * abs (pos 7 -ℤ pos 4 *ℤ pos 2) ≡ 2 → 4 % 2 ≡ 0)
round_ratio-IsNearest_example = round_ratio-IsNearest (pos 7) (pos 2) (pos 4) seven_halves

sum_run : add one_half tiny ≡ ok (of_micros (pos 1_500_001))
unfolding add loreloom.Prelude.Int.◌+ℤ◌
sum_run = refl

sub-add_example : (sub (of_micros (pos 1_500_001)) tiny ≡ ok one_half) × IsI64 (pos 1_500_001)
sub-add_example = sub-add one_half tiny (of_micros (pos 1_500_001)) (omega arith) sum_run

abbrev mod_name : Text
mod_name = bytes "core.base"

abbrev sword : Text
sword = bytes "core.base:item/swords/long"

sword_made : new_definition_id mod_name (bytes "item") (bytes "swords/long") ≡ ok sword
unfolding new_definition_id
sword_made = refl

mod_parsed : parse_mod_id mod_name ≡ ok mod_name
unfolding parse_mod_id
mod_parsed = refl

new_definition_id-parts_example :
    (definition_mod_id sword ≡ ok mod_name)
    × (definition_kind sword ≡ ok (bytes "item"))
    × (definition_local_key sword ≡ ok (bytes "swords/long"))
new_definition_id-parts_example =
    new_definition_id-parts mod_name (bytes "item") (bytes "swords/long") sword mod_parsed
      (ground arith) sword_made

sword_parsed : parse_definition_id sword ≡ ok sword
unfolding parse_definition_id
sword_parsed = refl

parse_definition_id_sound_example :
    (sword ≡ sword)
    × (length sword ≤ 255)
    × (m : Text) × (k : Text) × (l : Text) × (sword ≡ format_definition m k l)
    × (parse_mod_id m ≡ ok m)
    × (is_kind k ≡ true)
    × (is_local_key l ≡ true)
parse_definition_id_sound_example = parse_definition_id_sound sword sword sword_parsed

abbrev wrap : MigrationStep
wrap = record {
  record_type = bytes "npc";
  from_version = 1;
  to_version = 2;
  migrate = λ v. ok (object (entry (bytes "stats") v no_entries));
}

abbrev one_type : MigrationRegistry
one_type = record { current = (bytes "npc", 2) ∷ []; steps = [] }

abbrev one_step : MigrationRegistry
one_step = record { current = (bytes "npc", 2) ∷ []; steps = (step_key wrap, wrap) ∷ [] }

type_registered : register_record_type (bytes "npc") 2 empty_registry ≡ ok one_type
unfolding register_record_type get loreloom.Prelude.Map.insert
type_registered = refl

step_registered : register_migration wrap one_type ≡ ok one_step
unfolding register_migration get loreloom.Prelude.Map.insert
step_registered = refl

abbrev old_npc : RecordEnvelope Value
old_npc = record {
  record_type = bytes "npc";
  schema_version = 1;
  record_id = bytes "npc:a";
  revision = 3;
  payload = object (entry (bytes "hp") (number (pos_int 7)) no_entries);
  provenance = none;
}

upgrade-total_example :
    (r : Result RecordError (RecordEnvelope Value)) × (upgrade one_step old_npc ≡ some r)
    × Upgraded one_step old_npc (some 2) r
unfolding get
upgrade-total_example =
    upgrade-total one_step old_npc
      (with_step wrap step_registered (with_type (bytes "npc") 2 type_registered fresh))
