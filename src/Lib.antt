-- ===== src/Lib.antt =====
-- HomeOps AI: what decides which build of the knowledge base is served, what may be deleted, and
-- what evidence goes to a reader.
--
-- The program builds a database from a vault of Markdown files, promotes verified builds, answers
-- queries from the selected one, and plans the removal of old ones. Files and what they model:
--   Prelude, Text, Value: tests, lists, results and sorting; Python's str; values of parsed JSON.
--     Prelude/Effect has runs that change a state and may raise, Prelude/Triple the triples for them.
--   Deployment (src/homeops_ai/deployment.py): deployment records, the active state, promotion and
--     rollback. Functions have the source's names; `validate_deployment_record` runs
--     `checks_before` and `checks_after`, `validate_state` runs `legacy_state` or `v2_state`, and
--     `select_checked` and `swap` are the bodies of `select_deployment` and `rollback_transition`
--     after their validations. Deployment/Reachable has one step for each transition;
--     Deployment/Serving is the reader's side: `deployment_for_run` and the projections.
--   Context (src/homeops_ai/context_compiler.py): the selection of evidence under budgets.
--     `choose` is one round of the selection loop, `add_section` one of the grouping loop,
--     `compile_from` is what follows the query in `compile_context`.
--   Retention (src/homeops_ai/retention.py): the planner. `Disk` is the inventory, `references_of`
--     the references as they are when decisions are made, `reasons` the reasons to
--     retain. Retention/Inputs and Retention/Journal are the validators of the pipeline's JSON
--     records and `_add_identity_references`, whose exception carries the references reached.
--   Loader (src/homeops_ai/loader.py): the checks on the documents, `_resolve_link`, and in
--     Loader/Rows the rows that `load_documents` gives to the database client, one `Put` a call.
--   Broker (src/homeops_ai/write_broker.py): the write broker. Broker/Note normalizes a note,
--     Broker/State has the broker's directories and the vault as maps, Broker/Process is
--     `_process_intent` cut at its accesses to the vault, with the temporary file of
--     `_publish_note` and its removal, Broker/Handle is `handle`, split into
--     `parse_request` and `run`. `Env` says what one call meets: the clock, reports of
--     `inspect_vault`, faults, and what others do to the vault before each access. Broker/Steps
--     passes a relation of states through a request.
--   Pipeline (src/homeops_ai/pipeline.py, snapshot.py): the publisher's recovery of a pending
--     attempt. Pipeline/Receiver reads the answers of the receiver, Pipeline/Policy and
--     Pipeline/Attempt check what is on disk, Pipeline/Run is the state directory with a log of
--     what a run does, Pipeline/Resume is `_poll` and `_resume_pending_attempt`, a function for
--     each phase. `_poll` reads the monotonic clock before each round and has one round of fuel for
--     each unit of time that is left, which Pipeline/Polling shows to be enough. Each change of the
--     state directory works, or fails before or after the change (`Disk`). Pipeline/Loading and
--     Pipeline/Reconcile are `reconcile` where an attempt is pending, with the closing of the
--     transport, Pipeline/Reported what it leaves, and Pipeline/Fresh its first attempt.
--     Pipeline/Commit is the processor's `_process_commit`; what build.py's `promote` and `repair_selected_bookkeeping`
--     return or raise is a value of `Host`, and their writes are those of Build.
--   Build (src/homeops_ai/build.py): promotion and rollback as changes of the data directory. `Data`
--     is the directory, a `Plan` says which of its writes fail and whether before or after the
--     change. Build/Promote is `_promote_locked` under the handler of `promote`, Build/Rollback is
--     `rollback` with its journal, `finish_rollback` what follows the journal, and
--     `recover_pending_rollback`; Build/Candidate is `_candidate_matches_build`, on what is on disk
--     for a record. The other files have the proofs: Build/Selected for the bookkeeping,
--     Build/Atomic, Build/Recovery and Build/Interrupted for rollback, Build/Outcome and
--     Build/Promotion for promotion.
--   Frontmatter (src/homeops_ai/frontmatter.py): `parse_markdown` and `render_markdown`; Text/Lines
--     is `str.splitlines`.
--   Markdown (src/homeops_ai/markdown_parser.py): `_sections` and, in Markdown/Links, the links. The
--     tokens of the third-party parser are given. The other files have the proofs.
--   Snapshot (src/homeops_ai/snapshot.py): `validate_snapshot_manifest`; `walk` is its loop over the
--     inventory, and `Tally` the counters of that loop.
--   Tests: concrete runs.
--
-- Loops are structural recursion over the lists that the code iterates; the two that are not, the
-- polls and the shortening of a file name, are recursion on fuel that is shown to be enough.
-- Numbers are unbounded, as in Python.
--
-- Not modelled: the file system, locks and clocks, which are parameters or fields; SHA-256 of the
-- canonical JSON (the parameter `digest`); `str.casefold` (the parameter `casefold`);
-- `datetime.fromisoformat` (the parameter `parse`); `PurePosixPath.name` and `str.lower`
-- (parameters); YAML, the tokens of markdown-it, `urlparse` and the suffix of a path (parameters of
-- Frontmatter and Markdown); the tests of `PurePosixPath` on a path of a manifest (the parameter
-- `canonical`); JSON numbers with a fraction; the database (a call of it is a value); the values
-- that the texts of exceptions interpolate, in part; the parts of the result of `compile_context`
-- and `plan_deployment_retention` that copy metadata. A delete target carries the subject of its
-- allowed path, its directory being fixed by its kind. The broker's socket server, corrupted files
-- in its state directory, a process that is killed while it writes an immutable record, the export
-- of a snapshot and its archive, the pipeline's processor up to the commit, the inline rules and
-- `parse_source` of the Markdown parser, the queries, the migration, the rebuild, the adoption of a
-- legacy state, the command line and the server are not modelled.
pub mod Prelude
pub mod Text
pub mod Value
pub mod Deployment
pub mod Context
pub mod Retention
pub mod Loader
pub mod Broker
pub mod Pipeline
pub mod Snapshot
pub mod Build
pub mod Frontmatter
pub mod Markdown
pub mod Tests
