-- ===== src/Lib.antt =====
-- Loreloom: a model of the parts of the program that keep a saved world consistent and a model turn
-- bounded, and the theorems about them.
--
-- The program is a text adventure in which language models play a narrator and other characters. The
-- crates, from the bottom: `loreloom-core` has the shared values, `loreloom-world` the rules of the
-- world, `loreloom-store` the saves, `loreloom-agent` one turn of a model, `loreloom-runtime` joins
-- them, `loreloom-tui` and `loreloom` are the terminal and the program. A command runs in the world and
-- yields record operations and events; the store commits them under the next revision; a save is loaded
-- by replaying the operations over a checkpoint. A turn of a model calls tools, which run commands, and
-- is bounded by a budget.
--
-- Files, and the code that they are about:
--   Prelude: lists, keys, maps, integers and results that the other files share.
--   Core/Revision, Core/Fixed: crates/loreloom-core/src/revision.rs and numeric.rs. `next`, `add`, `mul`,
--     `div`, `clamp` and `round_ratio` are `Revision::next`, `Fixed::checked_add` and so on. A revision is
--     a natural number below 2^64, a fixed-point number an integer of millionths; the checks of the
--     `i64` and of the `i128` in between are written out.
--   Core/Record: crates/loreloom-core/src/record.rs. `rebuild_records` is the function of that name, its
--     loop is `replay`, and the variables of the loop are the record `Cursor`. `BTreeMap` is a list
--     of entries with distinct keys.
--   Core/Migration: the schema versions, the check of payloads and `MigrationRegistry` of record.rs. The
--     `while` of `upgrade` is `migrate_to`.
--   Core/Domain: the records of crates/loreloom-core/src/domain.rs, the commands and events of protocol.rs,
--     the identifiers of identity.rs and the texts of text.rs. A `BTreeSet` is a list, a runtime identifier
--     is its 128-bit number.
--   Core/Codec: crates/loreloom-core/src/codec.rs. `validate_domain`, `to_envelope` and `from_envelope` are
--     the methods of `DomainRecord`.
--   Core/Codec/Coders: JSON values of all domain records, which the runs of Core/ChangeSet/Examples use.
--   Core/ChangeSet: `ExecutionChangeSet` of crates/loreloom-core/src/protocol.rs. `record_ops` is the method;
--     its loops are `collect` and `enumerate`.
--   Core/Locks: crates/loreloom-core/src/persistence.rs. `validate_mod_lock`, `validate_world_lock` and
--     `validate_manifest` are the three `validate` methods; the versions of the semver crate are a parameter.
--   Core/Names: `RecordType`, `RecordId`, `ModId` and `ContentDefinitionId` of record.rs and identity.rs.
--   Agent/Budget: crates/loreloom-agent/src/budget.rs. A method with `&mut self` that may fail returns
--     the usage beside its result.
--   Agent/Cancellation: crates/loreloom-agent/src/cancellation.rs, as interleavings of the atomic accesses
--     of `poll` and `cancel`: the relation `Step`.
--   Agent/Tools, Agent/Turn, Agent/Runner: crates/loreloom-agent/src/runner.rs. `run_turn` is
--     `run_turn_with_progress`; an early `return` is the error of a `Result`, and the local variables
--     are the record `Turn`.
--   Store/Types, Store/Request, Store/Checksums, Store/Rows, Store/Save, Store/Adopt: models.rs, error.rs,
--     request.rs and store.rs of crates/loreloom-store/src. `commit`, `resolve_action` and
--     `adopt_content_locks` are the methods of `SaveStore`.
--   World/Types, World/Containers, World/Items, World/Places, World/Transcripts:
--     crates/loreloom-world/src/game_world.rs. The entities of `GameWorld` are one map from identifiers to records. A command returns `Done`: the world
--     and the state of the generator of identifiers, also after an error, beside its result.
--   Tui/Editor, Tui/App: editor.rs and state.rs of crates/loreloom-tui/src, and `input_layout` and
--     `move_input_vertical` of render.rs. A text is its bytes, a `u16` a natural number whose additions saturate. An index out of
--     range, where the program panics, is `none`.
--   Core/Examples, Core/ChangeSet/Examples, Agent/Examples, Store/Examples, World/Examples, Tui/Examples: runs on concrete values.
--
-- Parameters. `Provider` is the model provider, the tool executor, the clock, the cancellation token and
-- the JSON library of a turn: each question may change its `World`. `Host` is serde_json, SHA-256, the
-- printing of identifiers and the database of the store. `Lawful` says what the store relies on: a row
-- that was created is found under its key, a write leaves other tables and rows alone, and a value
-- decodes to what was encoded. `Weather` says which calls of the backend fail and how the commit of the
-- transaction ends, so a theorem about every `Weather` is one about every failure. `Codec` is serde_json and the printing of
-- UUIDs for the domain records, and its `Lawful` says that a value is read back as it was written.
-- `IdGenerator` is the trait of that name, with its state. `Unicode` says what the
-- graphemes of a text are, with `Segmentation` as what the editor relies on, and `cells` how wide ratatui
-- draws each.
--
-- Bounds and fuel. `run_rounds` has fuel for one round more than the budget has model calls: each round
-- counts a call or ends the turn, so that is enough. `upgrade` has fuel for the versions that are missing:
-- each step raises the version by one. `climb` and `tree_weight`, which follow the containers of items, have
-- fuel for one step more than there are objects: each step visits a new object or ends. All other loops are structural.
--
-- Not modelled: of the world, skills, the clock, scene transitions, spawned characters, declarative rules, the
-- validation of a loaded world and the rollback in `execute`; content packages, the runtime that joins the
-- parts, drawing, start-up and all input and output. Of the store, creation, loading and checkpoints. At
-- the store, concurrency is a commit that loses against another writer.
pub mod Prelude
pub mod Core
pub mod Agent
pub mod Store
pub mod World
pub mod Tui
