-- ===== src/Prompt.antt =====
-- app/services/prompt.py: the prompt of a run. `_load_mr` is not modelled: the merge request is given.
use gitlab_reviewer.Prelude.{
  Option, none, some, List, [], ◌∷◌, ◌++◌, if◌then◌else◌, rstrip_by, strip, is_slash, join, decimal,
  Text, codes,
}
use gitlab_reviewer.Models.{Json, object, Fields, ScheduledJob, SettingsRow, MergeRequest}
use gitlab_reviewer.Secrets.{is_nil}
use gitlab_reviewer.Python.{Python, truthy, str, get, str_or_empty}
use gitlab_reviewer.ExtraProjects.{Urls, entry_url, normalize_extra_projects}
use gitlab_reviewer.Render.{newline, blank_line}

-- `str(value or default)`
abbrev pub str_or : Python → Text → Option Json → Text
str_or py default none = default
str_or py default (some j) = if truthy py j then str py j else default

abbrev pub entry_line : Python → Fields → Text
entry_line py fs =
    codes "- Extra library repo (read-only): "
    ++ (entry_url py fs
        ++ (codes " @ "
            ++ (str_or py (codes "default branch") (get (codes "ref") fs)
                ++ (codes " mounted at "
                    ++ rstrip_by is_slash
                        (codes "/work/lib/" ++ str_or_empty py (get (codes "path") fs))))))

abbrev pub add_line : Python → Json → List Text → List Text
add_line py (object fs) rest = if is_nil (entry_url py fs) then rest else entry_line py fs ∷ rest
add_line py j rest = rest

unfoldable pub entry_lines : Python → List Json → List Text
entry_lines py [] = []
entry_lines py (entry ∷ entries) = add_line py entry (entry_lines py entries)

abbrev pub run_lines : SettingsRow → MergeRequest → List Text
run_lines settings mr =
    codes "## Review context"
    ∷ (codes "- Target project: " ++ settings.gitlab_project)
    ∷ (codes "- MR !" ++ (decimal mr.iid ++ (codes ": " ++ mr.title)))
    ∷ (codes "- Source branch: " ++ mr.source_branch)
    ∷ (codes "- Target branch: " ++ mr.target_branch)
    ∷ (codes "- Head commit: " ++ mr.sha)
    ∷ []

-- `_context_lines`, whose entries have been normalized.
unfoldable pub context_lines : Python → List Json → SettingsRow → MergeRequest → List Text
context_lines py entries settings mr = run_lines settings mr ++ entry_lines py entries

-- `_output_contract_lines`; the schema that is shown to the model is text.
unfoldable pub output_contract_lines : Text → List Text
output_contract_lines schema =
    codes "## Output requirements (strict)"
    ∷ codes "Your final answer MUST end with exactly one fenced ```json block matching"
    ∷ codes "this schema — no text after it, no additional fenced json blocks:"
    ∷ codes "```json"
    ∷ schema
    ∷ codes "```"
    ∷ []

abbrev pub override_or : Option Text → Text → Text
override_or none default = default
override_or (some prompt) default = if is_nil prompt then default else prompt

abbrev pub base_section : Text → List Text
base_section base = if is_nil base then [] else base ∷ []

abbrev pub prompt_of :
    Python → Text → ScheduledJob → SettingsRow → MergeRequest → Option (List Json) → Option Text
prompt_of py schema job settings mr none = none
prompt_of py schema job settings mr (some entries) = some (
    join blank_line (
      base_section (strip (override_or job.prompt_override settings.default_review_prompt))
      ++ (join newline (context_lines py entries settings mr)
          ∷ join newline (output_contract_lines schema)
          ∷ [])))

-- The prompt, where no URL of an entry makes `urlsplit` raise.
unfoldable pub build_review_prompt :
    Python → Urls → Text → ScheduledJob → SettingsRow → MergeRequest → Option Text
build_review_prompt py urls schema job settings mr =
    prompt_of py schema job settings mr (normalize_extra_projects py urls job.extra_projects)
