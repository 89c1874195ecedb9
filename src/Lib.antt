-- ===== src/Lib.antt =====
-- Zapadka: database migrations for PostgreSQL as a dependency graph.
--
-- The program reads migration packages (a manifest and SQL scripts), builds the graph of their
-- dependencies, compares it with what a target's registry says was applied, and applies, verifies,
-- reverts or baselines migrations, recording each action with its effect. The model follows that
-- path; lint judges the scripts before anything is run, by the parser that the runner asks again
-- before it sends one, and rehash converts the definitions that a registry compares by. Each file
-- opens with the source file it is about, and definitions keep the source's names.
--
-- - Errors.antt: crates/zapadka-core/src/error.rs. `ErrorCode` and `ExitCode` with `as_str`,
--   `exit_code`, `code` (here `code_of`) and `from_code`; `Result` with the `?` operator as a
--   chain of calls. An error keeps its code and location; its texts for people are left out.
-- - Duration.antt: crates/zapadka-core/src/duration.rs. `Timeout::parse` and its print.
-- - Sql.antt: crates/zapadka-parser. `parse` (Sql/Parser.antt) decodes the tree of libpg_query and
--   classifies its statements (Sql/Classify.antt, Sql/Statements.antt); `canonicalize`
--   (Sql/Canonical.antt) strips it of positions; Sql/Lines.antt and Sql/Positions.antt find the
--   line of a statement and the place of an error.
-- - Manifest.antt: crates/zapadka-core/src/manifest.rs. `validate`, `canonical_form`, the two
--   definition hashes and `suppression`.
-- - Migration.antt: crates/zapadka-core/src/migration.rs. `read` of a package from what its
--   directory holds, `normalize_slug`, `split_directory_name`, `check_for_duplicate_ids`.
-- - Lint.antt: crates/zapadka-core/src/lint.rs and, in Lint/Command.antt,
--   crates/zapadka/src/commands/lint.rs. The rules (`check`), the policy (`apply_policy`) and the
--   verdict (`validate`); Lint/Scripts.antt is what the runner asks of a script as well.
-- - Graph.antt: crates/zapadka-core/src/graph.rs. `Graph::build` with the check for cycles and the
--   walk that names one, `topological_sort`, `heads`, `dependents_of`, `closure_of`.
-- - Registry.antt: crates/zapadka-pg/src/registry.rs. The tables as a state, and the statements
--   that change it.
-- - History.antt: crates/zapadka-pg/src/history.rs. `plan` and the checks of applied rows.
-- - Server.antt and Runner.antt: crates/zapadka-pg/src/execute.rs. `Runner` is its run, the number
--   of its last event and the database; `deploy`, `deploy_nontransactional`, `verify`, `revert`,
--   `baseline` and `resolve` take a runner to a runner and a result (`deploy_one`, `verify_one` and
--   `revert_one`, since the script roles have the shorter names).
-- - Deploy.antt: crates/zapadka/src/commands/deploy.rs. `apply_one` and `apply_all` with the report.
-- - Revert.antt: crates/zapadka/src/commands/revert.rs. `select` and `check_revertible`.
-- - Target.antt: crates/zapadka/src/commands/target.rs. `select` of a target, and what a command
--   checks and claims under the deployment lock (`refresh_state`, `claim_and_upgrade`).
-- - Baseline.antt: crates/zapadka/src/commands/baseline.rs. `resolve` and `baseline_under_lock`.
-- - Rehash.antt: crates/zapadka-pg/src/rehash.rs and `Runner::rehash`. The classification of the
--   applied rows (`classify_row`) and the transaction that converts them.
-- - Common.antt: maps and sets as sorted association lists and lists, sorting, texts as code points.
--
-- A file's lemmas stand in the modules below it, and its Examples module runs the definitions on a
-- small project and applies the theorems to it.
--
-- Code outside the repository is a parameter. `Library` (Manifest.antt) holds what is called of the
-- uuid crate and SHA-256, and `Parser` (Sql/Parser.antt) what is called of libpg_query and
-- serde_json, with no law assumed of any. `Server` (Server.antt) holds
-- what a script does to the user's schema, and `Wire` what the server answers to each call of one
-- operation, with an answer for each turn of a loop (`Grants` of Rehash.antt and `Access` of
-- Target.antt are the same for those parts): a theorem for every `Wire` covers a refusal at any
-- call, a connection that is lost
-- during a commit whether the commit was kept or not, and one that is lost during a statement
-- outside a transaction whether the statement was run or not.
--
-- Bounds and fuel. Milliseconds are bounded by 2 ^ 64 as in the source, and the counts of the sort
-- wrap around there. The number of an event is an i32 that wraps around in a release build; it is
-- modelled by its bit pattern, below 2 ^ 32. The loops of the graph run on fuel: the sort has a round for each migration, the walk of a cycle one more than
-- there are stuck migrations, and the walk of a closure one more than there are dependencies; the
-- theorems on them hold with that fuel, so it is enough. A usize has 64 bits and a parser version
-- 32; a text is its code points, of which UTF-8 takes one to four bytes for each.
--
-- Not modelled: the connection, TLS, advisory locks, reading the registry's rows and the DDL's
-- text (input and output); TOML (another package); the unsafe calls of the parser's binding;
-- printing and arguments. The registry's columns that say when, by whom and with which versions
-- are left out. Scripts are taken to leave the registry's own tables alone.
pub mod Common
pub mod Errors
pub mod Duration
pub mod Sql
pub mod Lint
pub mod Manifest
pub mod Migration
pub mod Graph
pub mod Registry
pub mod History
pub mod Server
pub mod Runner
pub mod Deploy
pub mod Rehash
pub mod Revert
pub mod Target
pub mod Baseline
