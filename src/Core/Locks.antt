-- ===== src/Core/Locks.antt =====
-- The locks of a save: crates/loreloom-core/src/persistence.rs. Versions are those of the semver
-- crate, a parameter with a test for equality. A mod identifier is its bytes, in their order.
pub mod Dependencies
pub mod Examples
use loreloom.Prelude.{
  ℕ, suc, Bool, true, false, not, ◌&&◌, ◌||◌, Option, none, some, List, [], ◌∷◌, String, ltb, ◌==◌,
  if◌then◌else◌, Result, ok, err, ◌>>=◌, ◌>>◌, map_err, Text, text_eq, Eq, ◌=?◌, get_elem?,
}
use loreloom.Prelude.Map.{Map, get, insert, contains}
use loreloom.Core.Codec.Validation.{text_ltb}
use loreloom.Core.Domain.Identities.{WorldId, ModId, ContentDefinitionId}
use loreloom.Core.Domain.Origins.{ContentHash}
use loreloom.Core.Names.{NameError, definition_mod_id}

pub data PersistenceError : Type 0 where
  unsupported_save_format : PersistenceError
  invalid_mod_lock invalid_world_lock : String → PersistenceError
  identity : NameError → PersistenceError

pub data ModSourceKind : Type 0 where
  builtin directory : ModSourceKind

pub record LockedDependency (Version : Type 0) : Type 0 where
  pub mod_id : ModId
  pub version : Version
  pub optional : Bool

pub record LockedMod (Version : Type 0) : Type 0 where
  pub mod_id : ModId
  pub version : Version
  pub content_hash : ContentHash
  pub manifest_schema : ℕ
  pub content_schema : ℕ
  pub source_kind : ModSourceKind
  pub dependencies : List (LockedDependency Version)
  pub applied_patches : List ContentDefinitionId

pub record ModLock (Version : Type 0) : Type 0 where
  pub mods : List (LockedMod Version)

pub record WorldLock (Version : Type 0) : Type 0 where
  pub world_id : ModId
  pub version : Version
  pub content_hash : ContentHash
  pub manifest_schema : ℕ
  pub content_schema : ℕ

pub record SaveManifest (Version : Type 0) : Type 0 where
  pub format_version : ℕ
  pub save_id : ℕ
  pub world_id : WorldId
  pub world_lock : WorldLock Version
  pub mod_lock : ModLock Version

abbrev save_format_v1 : ℕ
save_format_v1 = 1

-- `if test { return Err(error) }`
abbrev pub refuse : Bool → PersistenceError → Result PersistenceError (Unit {0})
refuse true error = err error
refuse false error = ok tt

-- `positions.insert(key, index).is_some()`
abbrev has : {A : Type 0} → Option A → Bool
has none = false
has (some a) = true

-- `previous.is_some_and(|previous| previous >= &dependency.mod_id)`
abbrev is_not_before : Option Text → Text → Bool
is_not_before none mod_id = false
is_not_before (some previous) mod_id = not (text_ltb previous mod_id)

module _ {Version : Type 0} where
  unfoldable pub validate_world_lock : WorldLock Version → Result PersistenceError (Unit {0})
  validate_world_lock lock = do
    refuse (lock.manifest_schema == 0) (invalid_world_lock "manifest_schema")
    refuse (lock.content_schema == 0) (invalid_world_lock "content_schema")

  -- The positions of the mods, from the position `index` on.
  unfoldable pub mod_positions :
      ℕ → List (LockedMod Version) → Map Text ℕ → Result PersistenceError (Map Text ℕ)
  mod_positions index [] positions = ok positions
  mod_positions index (locked ∷ rest) positions = do
    refuse (has (get locked.mod_id positions)) (invalid_mod_lock "duplicate_mod")
    mod_positions (suc index) rest (insert locked.mod_id index positions)

  unfoldable pub check_patches :
      LockedMod Version → List Text → List Text → Result PersistenceError (Unit {0})
  check_patches locked patches [] = ok tt
  check_patches locked patches (patch ∷ rest) = do
    owner ← map_err identity (definition_mod_id patch)
    refuse (not (owner =? locked.mod_id) || contains patch patches)
        (invalid_mod_lock "applied_patch")
    check_patches locked (patch ∷ patches) rest

module _ {Version : Type 0} ⦃same : Eq Version⦄ where
  -- `self.mods[dependency_index].version != dependency.version`; the position is that of a mod.
  abbrev pub has_version : Option (LockedMod Version) → Version → Bool
  has_version none version = false
  has_version (some locked) version = locked.version =? version

  -- The `match` on the position of a dependency.
  unfoldable pub check_position :
      List (LockedMod Version)
      → ℕ
      → LockedDependency Version
      → Option ℕ
      → Result PersistenceError (Unit {0})
  check_position mods index dependency (some position) =
      if ltb position index
      then refuse (not (has_version (get_elem? mods position) dependency.version))
          (invalid_mod_lock "dependency_version")
      else err (invalid_mod_lock "dependency_topology")
  check_position mods index dependency none =
      refuse (not dependency.optional) (invalid_mod_lock "required_dependency")

  unfoldable pub check_dependencies :
      List (LockedMod Version)
      → Map Text ℕ
      → ℕ
      → Option Text
      → List (LockedDependency Version)
      → Result PersistenceError (Unit {0})
  check_dependencies mods positions index previous [] = ok tt
  check_dependencies mods positions index previous (dependency ∷ rest) = do
    refuse (is_not_before previous dependency.mod_id) (invalid_mod_lock "dependency_order")
    check_position mods index dependency (get dependency.mod_id positions)
    check_dependencies mods positions index (some dependency.mod_id) rest

  unfoldable pub check_mods :
      List (LockedMod Version)
      → Map Text ℕ
      → ℕ
      → List (LockedMod Version)
      → Result PersistenceError (Unit {0})
  check_mods mods positions index [] = ok tt
  check_mods mods positions index (locked ∷ rest) = do
    refuse (locked.manifest_schema == 0 || locked.content_schema == 0)
        (invalid_mod_lock "schema_version")
    check_dependencies mods positions index none locked.dependencies
    check_patches locked [] locked.applied_patches
    check_mods mods positions (suc index) rest

  unfoldable pub validate_mod_lock : ModLock Version → Result PersistenceError (Unit {0})
  unfolding mod_positions check_mods
  validate_mod_lock lock = do
    positions ← mod_positions 0 lock.mods []
    check_mods lock.mods positions 0 lock.mods

  unfoldable pub validate_manifest : SaveManifest Version → Result PersistenceError (Unit {0})
  unfolding validate_world_lock validate_mod_lock
  validate_manifest manifest = do
    refuse (not (manifest.format_version == save_format_v1)) unsupported_save_format
    validate_world_lock manifest.world_lock
    validate_mod_lock manifest.mod_lock
