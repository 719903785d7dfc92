-- ===== src/Examples/Claims.antt =====
-- A claim of app/scheduler/worker.py whose run row cannot be inserted, beside a job that is claimed.
use gitlab_reviewer.Prelude.{◌≡◌, ◌⊎◌, some, false, none, refl, inl, [], ◌∷◌, In}
use gitlab_reviewer.Models.{immediate, JobStatus, ScheduledJob, Db}
use gitlab_reviewer.Table.{queued_rows, order_rows, insert_row, update_row, get_job}
use gitlab_reviewer.Table.Order.{UniqueIds}
use gitlab_reviewer.Scheduling.{sqlite, claim_next, claim_sqlite, compact_positions, renumber}
use gitlab_reviewer.Worker.{complete, unwritten, claim_and_create_run, create_run, abandon_claim}
use gitlab_reviewer.Worker.Abandoned.{WasThere, claim_and_create_run-WasThere}
use gitlab_reviewer.Examples.{job_row, second_job, settings}

abbrev claimed_job : ScheduledJob
claimed_job = job_row 1 immediate 1 JobStatus.claimed

abbrev waiting_db : Db
waiting_db = record {
  jobs = claimed_job ∷ second_job ∷ [];
  runs = [];
  profiles = [];
  merge_requests = [];
  settings = settings;
}

waiting_db-UniqueIds : UniqueIds waiting_db.jobs
waiting_db-UniqueIds = (((λ e. cc), tt), (tt, tt))

still_there :
    In claimed_job (claim_and_create_run sqlite (λ _. false) complete none 7 8 waiting_db).0.jobs
unfolding claim_and_create_run create_run claim_next claim_sqlite queued_rows order_rows insert_row
    update_row abandon_claim get_job compact_positions renumber
still_there = inl refl

claim_and_create_run-WasThere_example :
    WasThere waiting_db.jobs claimed_job
    ⊎ ((complete ≡ unwritten)
        × ((q : ScheduledJob) × ((claim_next sqlite (λ _. false) 7 waiting_db.jobs).0 ≡ some q)
            × (q.id ≡ claimed_job.id)))
claim_and_create_run-WasThere_example =
    claim_and_create_run-WasThere sqlite (λ _. false) complete 7 8 waiting_db claimed_job
      waiting_db-UniqueIds still_there refl
