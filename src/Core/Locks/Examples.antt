-- ===== src/Core/Locks/Examples.antt =====
-- A lock of two mods, the second of which depends on the first and on one that is left out.
use loreloom.Prelude.{ℕ, ◌≡◌, refl, true, false, List, [], ◌∷◌, ok, err, bytes, nat_eq}
use loreloom.Core.Locks.{
  LockedMod, LockedDependency, ModLock, SaveManifest, builtin, directory, invalid_mod_lock,
  unsupported_save_format, validate_mod_lock, validate_manifest, check_dependencies, check_patches,
  check_position,
}
use loreloom.Prelude.Map.{get, insert, contains}
use loreloom.Core.Names.{definition_mod_id}
use loreloom.Core.Locks.Dependencies.{
  IsFulfilled, validate_mod_lock-IsFulfilled, validate_mod_lock-distinct,
}

abbrev base : LockedMod ℕ
base = record {
  mod_id = bytes "lore.base";
  version = 3;
  content_hash = bytes "h0";
  manifest_schema = 1;
  content_schema = 1;
  source_kind = builtin;
  dependencies = [];
  applied_patches = [];
}

abbrev on_base : LockedDependency ℕ
on_base = record { mod_id = bytes "lore.base"; version = 3; optional = false }

abbrev on_maps : LockedDependency ℕ
on_maps = record { mod_id = bytes "lore.maps"; version = 1; optional = true }

abbrev town : LockedMod ℕ
town = record {
  mod_id = bytes "lore.town";
  version = 2;
  content_hash = bytes "h1";
  manifest_schema = 1;
  content_schema = 1;
  source_kind = directory;
  dependencies = on_base ∷ on_maps ∷ [];
  applied_patches = bytes "lore.town:item/lamp" ∷ [];
}

abbrev locked_as : List (LockedMod ℕ) → ModLock ℕ
locked_as mods = record { mods = mods }

abbrev lock : ModLock ℕ
lock = locked_as (base ∷ town ∷ [])

lock-ok : validate_mod_lock lock ≡ ok tt
unfolding validate_mod_lock get insert check_dependencies check_patches check_position
    definition_mod_id contains
lock-ok = refl

reversed-err :
    validate_mod_lock (locked_as (town ∷ base ∷ [])) ≡ err (invalid_mod_lock "dependency_topology")
unfolding validate_mod_lock get insert check_dependencies check_patches check_position
    definition_mod_id contains
reversed-err = refl

missing-err :
    validate_mod_lock (locked_as (town ∷ [])) ≡ err (invalid_mod_lock "required_dependency")
unfolding validate_mod_lock get insert check_dependencies check_patches check_position
    definition_mod_id contains
missing-err = refl

doubled-err :
    validate_mod_lock (locked_as (base ∷ base ∷ [])) ≡ err (invalid_mod_lock "duplicate_mod")
unfolding validate_mod_lock get insert check_dependencies check_patches check_position
    definition_mod_id contains
doubled-err = refl

abbrev manifest : SaveManifest ℕ
manifest = record {
  format_version = 1;
  save_id = 1;
  world_id = 2;
  world_lock = record {
    world_id = bytes "lore.world";
    version = 1;
    content_hash = bytes "h2";
    manifest_schema = 1;
    content_schema = 1;
  };
  mod_lock = lock;
}

manifest-ok : validate_manifest manifest ≡ ok tt
unfolding validate_manifest get insert check_dependencies check_patches check_position
    definition_mod_id contains
manifest-ok = refl

later-err : validate_manifest (record manifest { format_version = 2 }) ≡ err unsupported_save_format
unfolding validate_manifest
later-err = refl

validate_mod_lock-IsFulfilled_example : IsFulfilled lock.mods 1 on_base
validate_mod_lock-IsFulfilled_example =
    validate_mod_lock-IsFulfilled lock 1 0 town on_base lock-ok refl refl

abbrev town_position : ℕ
town_position = 1

validate_mod_lock-distinct_example : town_position ≡ town_position
validate_mod_lock-distinct_example =
    validate_mod_lock-distinct lock town_position town_position town town lock-ok refl refl refl
