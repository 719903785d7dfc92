-- ===== src/Models.antt =====
-- The rows of app/models/scheduled_job.py and app/models/review_run.py, and the columns of the
-- other tables that the review service reads. Text is the list of its code points; a time is the
-- number that the clock shows.
use gitlab_reviewer.Prelude.{ℕ, ℤ, Bool, true, false, Option, List, Text}

-- What `json.loads` returns. A number is kept as its literal, since no code computes with one.
mutual
  pub data Json : Type 0 where
    null : Json
    boolean : Bool → Json
    number : Text → Json
    string : Text → Json
    array : Items → Json
    object : Fields → Json

  pub data Items : Type 0 where
    nil : Items
    cons : Json → Items → Items

  pub data Fields : Type 0 where
    end : Fields
    field : Text → Json → Fields → Fields

pub data ScheduleType : Type 0 where
  immediate nightly : ScheduleType

pub data JobStatus : Type 0 where
  queued claimed running done failed cancelled : JobStatus

pub record ScheduledJob : Type 0 where
  pub id : ℕ
  pub merge_request_id : ℕ
  pub model_profile_id : ℕ
  pub prompt_override : Option Text
  pub extra_projects : List Json
  pub schedule_type : ScheduleType
  pub position : ℕ
  pub status : JobStatus
  pub post_to_gitlab : Option Bool
  pub created_at : Option ℕ
  pub updated_at : Option ℕ

pub data RunStatus : Type 0 where
  running success error timeout : RunStatus

pub record ReviewRun : Type 0 where
  pub id : ℕ
  pub scheduled_job_id : ℕ
  pub merge_request_id : ℕ
  pub model_profile_id : ℕ
  pub status : RunStatus
  pub container_id : Option Text
  pub exit_code : Option ℤ
  pub log : Text
  pub result_json : Option Json
  pub result_markdown : Option Text
  pub session_json : Option Json
  pub error_message : Option Text
  pub gitlab_note_id : Option ℕ
  pub started_at : Option ℕ
  pub finished_at : Option ℕ
  pub archived_at : Option ℕ

-- The tests `status == JobStatus.queued`, `status in (claimed, running)` and the like.
abbrev pub is_queued : JobStatus → Bool
is_queued JobStatus.queued = true
is_queued _ = false

abbrev pub is_claimed : JobStatus → Bool
is_claimed JobStatus.claimed = true
is_claimed _ = false

abbrev pub is_inflight : JobStatus → Bool
is_inflight JobStatus.claimed = true
is_inflight JobStatus.running = true
is_inflight _ = false

abbrev pub is_running : RunStatus → Bool
is_running RunStatus.running = true
is_running _ = false

abbrev pub is_success : RunStatus → Bool
is_success RunStatus.success = true
is_success _ = false

abbrev pub same_type : ScheduleType → ScheduleType → Bool
same_type ScheduleType.immediate ScheduleType.immediate = true
same_type ScheduleType.nightly ScheduleType.nightly = true
same_type _ _ = false

-- app/models/model_profile.py
pub data Provider : Type 0 where
  anthropic local : Provider

pub record ModelProfile : Type 0 where
  pub id : ℕ
  pub name : Text
  pub provider : Provider
  pub model_id : Text
  pub base_url : Option Text
  pub api_key : Option Text
  pub api_key_env : Option Text
  pub is_default : Bool
  pub extra_opencode_json : Json
  pub context_window : Option ℕ

-- app/models/merge_request.py
pub record MergeRequest : Type 0 where
  pub id : ℕ
  pub project : Text
  pub iid : ℕ
  pub title : Text
  pub author : Text
  pub source_branch : Text
  pub target_branch : Text
  pub sha : Text
  pub web_url : Text
  pub state : Text
  pub updated_at : Option ℕ
  pub last_seen_at : Option ℕ

-- app/models/settings.py
pub record SettingsRow : Type 0 where
  pub gitlab_url : Text
  pub gitlab_project : Text
  pub gitlab_token : Text
  pub default_review_prompt : Text
  pub nightly_time : Text
  pub max_concurrent_reviews : ℕ
  pub poll_interval_seconds : ℕ
  pub post_results_to_gitlab : Bool
  pub known_libraries : List Json
  pub gitlab_default_branch : Option Text

-- The tables that the review service and the worker read and write.
pub record Db : Type 0 where
  pub jobs : List ScheduledJob
  pub runs : List ReviewRun
  pub profiles : List ModelProfile
  pub merge_requests : List MergeRequest
  pub settings : SettingsRow
