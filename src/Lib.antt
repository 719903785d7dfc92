-- ===== src/Lib.antt =====
-- A model of gitlab-reviewer, the application that queues reviews of GitLab merge requests and runs
-- each of them in a container.
--
-- A web route enqueues a job (app/services/scheduling.py). The pump of app/scheduler/worker.py
-- claims the first job of the immediate queue, inserts its run row and starts a worker, which
-- executes the job (app/services/review_service.py): it brings the extra projects onto the host
-- (app/orchestrator/libraries.py), makes the environment of the container, with the prompt
-- (app/orchestrator/run_review.py, app/services/prompt.py), starts it, scrubs secrets out of what
-- the container says (app/orchestrator/run_review.py) and stores the outcome. In the container the
-- runner (containers/review-runner/entrypoint.py) clones the merge request, runs opencode and takes
-- the result out of its output, which the app reads by app/schemas/result.py and renders by
-- app/services/result_render.py. A nightly job promotes the nightly set into the queue, the sync
-- brings the open merge requests of GitLab into their table, and at a start of the application
-- app/scheduler/recovery.py ends what was in flight.
--
-- Prelude      Boolean tests, lists, native numbers, texts as lists of code points.
-- Models       app/models: the rows of the tables as records, the statuses as data types.
-- Errors       the ValueErrors of the services, and results with do blocks.
-- Table        the table scheduled_job: its two sets of queued rows, the queries and the UPDATE that
--              app/services/scheduling.py sends. Its children hold the lemmas on order and on ids.
-- Scheduling   app/services/scheduling.py, one function per function of the source: enqueue, reorder,
--              move_to_top, move_to_bottom, cancel, enroll_nightly, remove_nightly, promote_nightly,
--              compact_positions, claim_next with its two databases. Its children prove what each does;
--              Steps has the step relation of all of them.
-- Secrets      scrub_secrets, scrub_json and secret_env_values of app/orchestrator/run_review.py, scrub and
--              scrub_value of containers/review-runner/entrypoint.py.
-- Outcome      _apply_outcome, _post_to_gitlab and their helpers of app/services/review_service.py.
-- Review       execute_job and cancel_inflight of app/services/review_service.py.
-- Worker       _claim_and_create_run, _worker and their cleanup of app/scheduler/worker.py as functions on
--              the tables, with how far the cleanup comes as an argument; Pump has pump_once, its semaphore
--              and the threads as a step relation, one step for each access to what they share.
-- Recovery     recover_orphans of app/scheduler/recovery.py.
-- Sync         sync_open_mrs and _upsert_snapshot of app/services/mr_sync.py, with MrSnapshot of
--              app/schemas/mr.py.
-- Client       api_get and paginated_get of app/services/gitlab_client.py. The loop over pages has fuel,
--              and a theorem says how much is enough for a server whose pages end.
-- Podman       image_allowed, _allowlist, build_argv and the end of run_review of
--              app/orchestrator/podman_client.py.
-- Python       what the code asks of a JSON value by Python's own operations; str, json and int of values
--              are parameters.
-- ExtraProjects  derive_path and normalize_extra_projects of app/services/extra_projects.py.
-- Libraries    library_relpath, ensure_library_checkout and ensure_libraries of
--              app/orchestrator/libraries.py on a disk that is a function from paths.
-- Results      the models and validators of app/schemas/result.py and parse_review_result.
-- Render       finding_ref, _finding_text and render_result_markdown of app/services/result_render.py.
-- Prompt       build_review_prompt of app/services/prompt.py.
-- Environment  resolve_api_key and build_env of app/orchestrator/run_review.py, _provider_block of
--              app/orchestrator/opencode_template.py.
-- Runner       containers/review-runner/entrypoint.py: _normalize_result; Fences has the fenced blocks and
--              _extract_result, Clones has _clone_target and _clone_extra_projects, Run has
--              _build_prompt, _capture_session from the export on, run and main, Config has the provider
--              block, Opencode has _run_opencode over the answers of the clock and of the queue of lines,
--              Log has strip_ansi and what log writes.
-- Routes       the requests of app/routers/queue.py that change state; Forms has _parse_extra_projects.
-- Examples     small tables on which the theorems are applied.
--
-- An operation takes the rows and returns the rows, or a ValueError, which leaves the table as it
-- was. A transaction is one application of an operation; the id that the database hands out and the
-- readings of the clock are arguments. The rows that other transactions hold locked are a Boolean
-- function on rows. Every loop is structural recursion on the list of rows, on the text or on the
-- retries left, except for the pages of paginated_get. A number that counts the characters still to
-- be skipped stands for the place in a text that a replacement or a fenced block ends at. ids and
-- positions are natural numbers without a bound, as the source's integers are. What the container,
-- GitLab, the renderer and the environment answer to the review service is the record Services of
-- Outcome; what git and opencode answer to the runner, and how far the writing of each of its files
-- comes, is the record Container of Runner.Clones.
--
-- Not modelled: the flush of the log while a review runs (the final commit writes the same column),
-- the processes of podman, the search for the session of opencode and the file of its configuration
-- (I/O, whose answers are parameters of Runner), which lines the runner and the checkouts log and
-- when, the other web routes and the pages, the nightly trigger, the delays of the GitLab client,
-- and the set-up of the database.
pub mod Prelude
pub mod Models
pub mod Errors
pub mod Table
pub mod Scheduling
pub mod Secrets
pub mod Outcome
pub mod Review
pub mod Worker
pub mod Recovery
pub mod Sync
pub mod Client
pub mod Podman
pub mod Python
pub mod ExtraProjects
pub mod Libraries
pub mod Results
pub mod Render
pub mod Runner
pub mod Routes
pub mod Prompt
pub mod Environment
pub mod Examples
