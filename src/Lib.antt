-- ===== src/Lib.antt =====
-- The worker runner of the sdlc tool and the Requirement dispatcher under it. `sdlc worker run`
-- repeats cycles; a cycle polls Fibery for eligible Requirements, takes the lowest, claims it
-- with a Processing Status, lets the dispatcher run the one worker of its route, and leaves the
-- status true. The worker of Standard + Apply is the application, which rests on the dependency
-- evidence.
--
-- Which file models which part (paths from the repository's root):
-- - Fibery: the records `ProjectRecord` and `RequirementRecord` of src/sdlc/fibery_workspace.py,
--   and `Fallible`, an answer or the text of a FiberyError. Results: the codes and records of the
--   four workers in src/sdlc/results.py.
-- - Routes: `ROUTES`, `NO_ROUTE_STATES` and `select_route` of src/sdlc/requirement_dispatcher.py.
--   Differences: `_route_drift` there, `_differences` of src/sdlc/requirement_runner.py.
-- - Service: the operations of `DispatchWorkspace`, `RunnerWorkspace` and
--   `ScopedRunnerWorkspace`, and the four bound workers. Each is a function from the history of
--   all calls and answers so far, so any other writer of the workspace is covered; a caller is an
--   action on that history.
-- - Candidates: `_preflight`, `_candidate_problem`, `_progress` and the loop of
--   `_progress_candidates`. Dispatch: `dispatch`, `_run`, `_check_postcondition`,
--   `_progress_candidates`.
-- - Runner/Report, Runner/Scope, Runner/Selection, Runner/Claim, Runner/Finalize, Runner/Cycle:
--   the functions of src/sdlc/requirement_runner.py from `check_project_scope` to `run_cycle`.
--   Runner/Project: `resolve_project_scope`. Runner/Loop: `run_requirement_runner`, where the
--   number of times that `should_continue` answers True is a parameter, so every finite part of a
--   run is covered.
-- - ProjectCode: src/sdlc/project_code.py.
-- - RequirementId: src/sdlc/requirement_id.py.
-- - ArtifactNames and NormativeTree: `classify_artifact_name` and `read_normative_tree` of
--   src/sdlc/normative_tree.py; NormativeTree/Manifest: `TreeManifest` and `_validate_structure`;
--   NormativeTree/Manifest/Observed: the manifest of a traversal, where the fingerprint of a body
--   is a parameter; NormativeTree/Manifest/Drift: `describe_drift`, where the digest of the
--   canonical text is one. A workspace answers each read by its moment; the moments are numbered.
-- - Evidence: the parts of src/sdlc/process_result.py and src/sdlc/review_result.py that others
--   read; Evidence/Names: the names of the artifacts and the choice of the newest one.
-- - Dependencies: `_read_member` of src/sdlc/dependency_evidence.py; Dependencies/Closure:
--   `resolve_interpretation_set`; Dependencies/Bindings: `bind`; Dependencies/Current:
--   `require_current_dependencies`. These read only, so their state is the moment.
-- - Apply: src/sdlc/requirement_apply.py, with Apply/Checks for the evidence and its checks,
--   Apply/Plan for the plan, Apply/Writes for the edges and the State, Apply/Run for
--   `apply_standard_requirement`. Its state is the moment, the writes so far and the journal; a
--   workspace answers by the writes and the moment. Apply/Reads relates a step to the world it
--   starts from: what only reads keeps the writes and the journal.
-- - Attempts: a step that returns a value or raises an error. Dictionary: an insertion ordered
--   dict, and sorted sets of texts.
-- - Tests: samples, runs, and each property at one input.
--
-- A try block with a FiberyError becomes a test of the answer. A tuple of printed conflicts
-- becomes a list of `Detail`s, which hold the values that the texts show; the messages of the
-- reports, which their other fields determine, and the decision record of a Ready step are left
-- out. The public id and the Project Code are taken as ASCII: `isdigit`, `int`, `upper` and
-- `strip` are those of ASCII. Recursion is on lists and texts, except for the loop over the queue
-- of `read_normative_tree`, which is given as many rounds as Documents are allowed: the visited
-- Documents are the finished and the queued ones, so these rounds are enough. The parents of a
-- manifest's entry are climbed for one round more than there are entries, since the ids seen are
-- different ids of entries; the digits of a number are found with the number itself as a bound.
--
-- The depth-first search of `_visit` is given one round more than members are allowed, since the
-- path holds different members; the stack of `bind` is given the number of ids that can be
-- pushed. In an application the sentences and the ids in the details of a refusal are left out
-- where they are only printed, and so is a name of an exception. An AttributeError is modelled
-- where a tree may be missing: it ends the application without a report.
--
-- Not modelled: the parsers of the artifacts and `require_current_resolutions`, which are
-- parameters of the application; in the runner and the dispatcher, the four workers and the Ready
-- step, which are parameters (no write of theirs is an effect of the model); the Fibery client
-- and its HTTP requests; the command line, the configuration, the model runtimes and the prompts;
-- the digests of a body and of a canonical text, and the rendering of a tree; the file lock that
-- keeps a second runner out.
pub mod Base
pub mod Fibery
pub mod Results
pub mod Routes
pub mod Differences
pub mod Service
pub mod Candidates
pub mod Dispatch
pub mod ProjectCode
pub mod RequirementId
pub mod ArtifactNames
pub mod NormativeTree
pub mod Runner
mod Tests
pub mod Attempts
pub mod Dictionary
pub mod Evidence
pub mod Dependencies
pub mod Apply
