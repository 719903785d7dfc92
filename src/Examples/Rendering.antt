-- ===== src/Examples/Rendering.antt =====
-- A result with one critical finding: what is rendered of it, and what the runner makes of it.
use gitlab_reviewer.Prelude.{none, some, ◌≡◌, refl, inl, [], ◌∷◌, In, codes}
use gitlab_reviewer.Models.{string, array, object, nil, cons, Fields, end, field}
use gitlab_reviewer.Python.{get}
use gitlab_reviewer.Results.{
  Finding, ReviewResult, coerce_text, parse_finding, parse_items, parse_bucket, parse_buckets,
  parse_findings, parse_questions, validate, parse_loaded, parse_review_result,
}
use gitlab_reviewer.Render.{render_result_markdown}
use gitlab_reviewer.Render.Complete.{IsListed, all_findings, render_result_markdown-IsListed}
use gitlab_reviewer.Runner.{normalize_result, normal_fields, described_items, coerced_items}
use gitlab_reviewer.Runner.Normal.{IsNoObject, validate-normalize_result}
use gitlab_reviewer.Examples.{python}

abbrev leak : Fields
leak =
    field (codes "file") (string (codes "a.c"))
      (field (codes "description") (string (codes "leak")) end)

abbrev one_leak : Fields
one_leak =
    field (codes "findings")
      (object (field (codes "critical") (array (cons (object leak) nil)) end)) end

abbrev leak_finding : Finding
leak_finding = record { file = codes "a.c"; line = none; description = codes "leak" }

abbrev leak_result : ReviewResult
leak_result = record {
  summary = [];
  findings = record { critical = leak_finding ∷ []; important = []; minor = []; positive = [] };
  commit_message_review = [];
  questions = [];
}

one_leak-parsed :
    In leak_finding (all_findings (parse_review_result python (object one_leak)).findings)
unfolding parse_review_result parse_loaded validate parse_findings get parse_buckets parse_bucket
    parse_items parse_finding coerce_text
one_leak-parsed = inl refl

render_result_markdown-IsListed_example :
    IsListed leak_finding (render_result_markdown python (some (object one_leak)) none none)
render_result_markdown-IsListed_example =
    render_result_markdown-IsListed python (object one_leak) none none leak_finding refl
      one_leak-parsed

abbrev normal_leak : Fields
normal_leak = field (codes "summary") (string []) (
    field (codes "findings")
      (object (
        field (codes "critical") (array (cons (object leak) nil)) (
          field (codes "important") (array nil)
            (field (codes "minor") (array nil) (field (codes "positive") (array nil) end)))))
      (field (codes "commit_message_review") (string [])
        (field (codes "questions") (array nil) end)))

one_leak-IsNoObject : IsNoObject (get (codes "questions") one_leak)
unfolding get
one_leak-IsNoObject fs e = cc

one_leak-validate : validate python one_leak ≡ some leak_result
unfolding validate parse_findings get parse_buckets parse_bucket parse_items parse_finding
    coerce_text parse_questions
one_leak-validate = refl

one_leak-normal : normalize_result python (object one_leak) ≡ some (object normal_leak)
unfolding normalize_result normal_fields get described_items coerced_items
one_leak-normal = refl

validate-normalize_result_example : validate python normal_leak ≡ some leak_result
validate-normalize_result_example =
    validate-normalize_result python one_leak normal_leak leak_result one_leak-IsNoObject
      one_leak-validate one_leak-normal
