-- ===== src/Runner.antt =====
-- `_normalize_result` of containers/review-runner/entrypoint.py: the result as the runner writes it. An
-- exception is `none`. The children have the other parts of the runner.
pub mod Normal
pub mod Fences
pub mod Clones
pub mod Run
pub mod Files
pub mod Config
pub mod Blocks
pub mod Log
pub mod Leak
pub mod Mounted
pub mod Opencode
pub mod Streamed
use gitlab_reviewer.Prelude.{Option, none, some, [], if◌then◌else◌, strip, Text, codes}
use gitlab_reviewer.Models.{Json, null, string, array, object, Items, nil, cons, Fields, end, field}
use gitlab_reviewer.Secrets.{is_nil}
use gitlab_reviewer.Python.{Python, truthy, get}
use gitlab_reviewer.Results.{coerce_text, text_field}

-- The findings as a dict; an exception is `none`.
abbrev pub findings_dict : Option Json → Option Fields
findings_dict none = some end
findings_dict (some null) = some end
findings_dict (some (array xs)) = some (field (codes "important") (array xs) end)
findings_dict (some (object fs)) = some fs
findings_dict (some j) = none

-- An item that is no dict becomes one.
abbrev pub described : Python → Json → Json
described py (object fs) = object fs
described py j = object (field (codes "description") (string (coerce_text py j)) end)

unfoldable pub described_items : Python → Items → Items
described_items py nil = nil
described_items py (cons x xs) = cons (described py x) (described_items py xs)

abbrev pub list_items : Python → Json → Option Items
list_items py (array xs) = some (described_items py xs)
list_items py j = none

-- `findings.get(bucket) or []`, checked and normalized.
abbrev pub bucket_items : Python → Option Json → Option Items
bucket_items py none = some nil
bucket_items py (some j) = if truthy py j then list_items py j else some nil

abbrev pub bucket_fields : Option Items → Option Items → Option Items → Option Items → Option Fields
bucket_fields (some c) (some i) (some m) (some p) = some (
    field (codes "critical") (array c) (
      field (codes "important") (array i)
        (field (codes "minor") (array m) (field (codes "positive") (array p) end))))
bucket_fields _ _ _ _ = none

abbrev pub normal_findings : Python → Option Fields → Option Fields
normal_findings py none = none
normal_findings py (some fs) =
    bucket_fields (bucket_items py (get (codes "critical") fs))
      (bucket_items py (get (codes "important") fs)) (bucket_items py (get (codes "minor") fs))
      (bucket_items py (get (codes "positive") fs))

abbrev pub as_items : Json → Items
as_items j = cons j nil

abbrev pub questions_list : Option Json → Items
questions_list none = nil
questions_list (some null) = nil
questions_list (some (string s)) = if is_nil (strip s) then nil else as_items (string s)
questions_list (some (array xs)) = xs
questions_list (some j) = as_items j

abbrev pub coerced_item : Python → Json → Items → Items
coerced_item py null rest = rest
coerced_item py j rest = cons (string (coerce_text py j)) rest

unfoldable pub coerced_items : Python → Items → Items
coerced_items py nil = nil
coerced_items py (cons x xs) = coerced_item py x (coerced_items py xs)

abbrev pub normal_result : Text → Text → Items → Option Fields → Option Json
normal_result summary commit questions none = none
normal_result summary commit questions (some findings) = some (
    object (
      field (codes "summary") (string summary) (
        field (codes "findings") (object findings) (
          field (codes "commit_message_review") (string commit)
            (field (codes "questions") (array questions) end)))))

unfoldable pub normal_fields : Python → Fields → Option Json
normal_fields py fs =
    normal_result (text_field py (get (codes "summary") fs))
      (text_field py (get (codes "commit_message_review") fs))
      (coerced_items py (questions_list (get (codes "questions") fs)))
      (normal_findings py (findings_dict (get (codes "findings") fs)))

-- `_normalize_result`, which raises where it is `none`.
unfoldable pub normalize_result : Python → Json → Option Json
normalize_result py (object fs) = normal_fields py fs
normalize_result py j = none
