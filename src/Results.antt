-- ===== src/Results.antt =====
-- app/schemas/result.py: the tolerant parsing of what the model emits. A validator that raises makes
-- `model_validate` raise, which is `none`; pydantic's own part is that a field's default stands for a
-- missing key, that other keys are ignored, and that a list of models takes a list of objects.
use gitlab_reviewer.Prelude.{
  ℕ, ◌+◌, ℤ, pos, Option, none, some, List, [], ◌∷◌, ltb, if◌then◌else◌, strip, Text, codes,
}
use Prim.Native.Nat.{◌*◌}
use gitlab_reviewer.Models.{
  Json, null, boolean, number, string, array, object, Items, nil, cons, Fields, end, field,
}
use gitlab_reviewer.Secrets.{is_nil}
use gitlab_reviewer.Python.{Python, get}

unfoldable pub coerce_text : Python → Json → Text
coerce_text py null = []
coerce_text py (string s) = s
coerce_text py (array xs) = py.dumps (array xs)
coerce_text py (object fs) = py.dumps (object fs)
coerce_text py (boolean b) = py.str_of (boolean b)
coerce_text py (number n) = py.str_of (number n)

pub record Finding : Type 0 where
  pub file : Text
  pub line : Option ℤ
  pub description : Text

pub record Findings : Type 0 where
  pub critical : List Finding
  pub important : List Finding
  pub minor : List Finding
  pub positive : List Finding

pub record ReviewResult : Type 0 where
  pub summary : Text
  pub findings : Findings
  pub commit_message_review : Text
  pub questions : List Text

abbrev pub no_findings : Findings
no_findings = record { critical = []; important = []; minor = []; positive = [] }

abbrev pub summary_only : Text → ReviewResult
summary_only summary = record {
  summary = summary;
  findings = no_findings;
  commit_message_review = [];
  questions = [];
}

-- The digits that are read on, with their value and their number so far.
unfoldable pub read_digits : Python → Text → ℕ → ℕ → ℕ × ℕ
read_digits py [] value count = (value, count)
read_digits py (c ∷ cs) value count = elim (py.digit c) [
  | none ↦ (value, count)
  | some d ↦ read_digits py cs (value * 10 + d) (count + 1)
]

-- `_INT_PREFIX.search`
unfoldable pub first_digits : Python → Text → Option (ℕ × ℕ)
first_digits py [] = none
first_digits py (c ∷ cs) = elim (py.digit c) [
  | none ↦ first_digits py cs
  | some d ↦ some (read_digits py cs d 1)
]

-- `int` refuses a text of more digits.
abbrev pub max_str_digits : ℕ
max_str_digits = 4300

abbrev pub int_of_match : Option (ℕ × ℕ) → Option (Option ℤ)
int_of_match none = some none
int_of_match (some (value, count)) =
    if ltb max_str_digits count then none else some (some (pos value))

abbrev pub some_int : Option ℤ → Option (Option ℤ)
some_int none = none
some_int (some i) = some (some i)

-- `_to_int`
unfoldable pub to_int : Python → Json → Option (Option ℤ)
to_int py null = some none
to_int py (boolean b) = some none
to_int py (number n) = some_int (py.int_of n)
to_int py (string s) = int_of_match (first_digits py s)
to_int py (array xs) = int_of_match (first_digits py (py.str_of (array xs)))
to_int py (object fs) = int_of_match (first_digits py (py.str_of (object fs)))

-- A text field, by its validator, or its default.
abbrev pub text_field : Python → Option Json → Text
text_field py none = []
text_field py (some j) = coerce_text py j

abbrev pub line_field : Python → Option Json → Option (Option ℤ)
line_field py none = some none
line_field py (some j) = to_int py j

abbrev pub with_line : Text → Text → Option (Option ℤ) → Option Finding
with_line file description none = none
with_line file description (some line) =
    some (record { file = file; line = line; description = description })

unfoldable pub parse_finding : Python → Json → Option Finding
parse_finding py (object fs) =
    with_line (text_field py (get (codes "file") fs)) (text_field py (get (codes "description") fs))
      (line_field py (get (codes "line") fs))
parse_finding py j = none

abbrev pub both {ℓ} : {A : Type ℓ} → Option A → Option (List A) → Option (List A)
both none rest = none
both (some a) none = none
both (some a) (some rest) = some (a ∷ rest)

unfoldable pub parse_items : Python → Items → Option (List Finding)
parse_items py nil = some []
parse_items py (cons x xs) = both (parse_finding py x) (parse_items py xs)

unfoldable pub parse_bucket : Python → Option Json → Option (List Finding)
parse_bucket py none = some []
parse_bucket py (some (array xs)) = parse_items py xs
parse_bucket py (some j) = none

abbrev pub bucketed :
    Option (List Finding)
    → Option (List Finding)
    → Option (List Finding)
    → Option (List Finding)
    → Option Findings
bucketed (some c) (some i) (some m) (some p) =
    some (record { critical = c; important = i; minor = m; positive = p })
bucketed _ _ _ _ = none

unfoldable pub parse_buckets : Python → Fields → Option Findings
parse_buckets py fs =
    bucketed (parse_bucket py (get (codes "critical") fs))
      (parse_bucket py (get (codes "important") fs)) (parse_bucket py (get (codes "minor") fs))
      (parse_bucket py (get (codes "positive") fs))

-- `_findings`, and the model of what it returns.
unfoldable pub parse_findings : Python → Option Json → Option Findings
parse_findings py none = some no_findings
parse_findings py (some (object fs)) = parse_buckets py fs
parse_findings py (some (array xs)) = parse_buckets py (field (codes "important") (array xs) end)
parse_findings py (some j) = some no_findings

abbrev pub coerced : Python → Json → List Text → List Text
coerced py null rest = rest
coerced py j rest = coerce_text py j ∷ rest

unfoldable pub item_texts : Python → Items → List Text
item_texts py nil = []
item_texts py (cons x xs) = coerced py x (item_texts py xs)

-- The iteration over a dict goes over its keys.
unfoldable pub key_texts : Fields → List Text
key_texts end = []
key_texts (field k v fs) = k ∷ key_texts fs

-- `_questions`
unfoldable pub parse_questions : Python → Option Json → List Text
parse_questions py none = []
parse_questions py (some null) = []
parse_questions py (some (string s)) = if is_nil (strip s) then [] else s ∷ []
parse_questions py (some (array xs)) = item_texts py xs
parse_questions py (some (object fs)) = key_texts fs
parse_questions py (some (boolean b)) = py.str_of (boolean b) ∷ []
parse_questions py (some (number n)) = py.str_of (number n) ∷ []

abbrev pub with_findings : Text → Text → List Text → Option Findings → Option ReviewResult
with_findings summary commit questions none = none
with_findings summary commit questions (some findings) = some (record {
  summary = summary;
  findings = findings;
  commit_message_review = commit;
  questions = questions;
})

-- `ReviewResult.model_validate`
unfoldable pub validate : Python → Fields → Option ReviewResult
validate py fs =
    with_findings (text_field py (get (codes "summary") fs))
      (text_field py (get (codes "commit_message_review") fs))
      (parse_questions py (get (codes "questions") fs))
      (parse_findings py (get (codes "findings") fs))

abbrev pub or_summary : Option ReviewResult → Text → ReviewResult
or_summary none text = summary_only text
or_summary (some r) text = r

-- The part after the text is loaded.
unfoldable pub parse_loaded : Python → Json → ReviewResult
parse_loaded py (object fs) = or_summary (validate py fs) (coerce_text py (object fs))
parse_loaded py j = summary_only (coerce_text py j)

abbrev pub parse_text : Python → Text → Option Json → ReviewResult
parse_text py text none = summary_only text
parse_text py text (some j) = parse_loaded py j

unfoldable pub parse_review_result : Python → Json → ReviewResult
parse_review_result py (string s) =
    if is_nil (strip s) then summary_only [] else parse_text py (strip s) (py.loads (strip s))
parse_review_result py j = parse_loaded py j
