-- ===== src/Runner/Normal.antt =====
-- `_normalize_result` of containers/review-runner/entrypoint.py against the schema of
-- app/schemas/result.py that reads what it leaves.
use mathlib.Core.Option.{some-injective, none-ne-some}
use gitlab_reviewer.Prelude.{
  Option, none, some, ◌≡◌, refl, sym, ap, ap₂, subst, ◌∙◌, ◌≢◌, inl, inr, List, ◌∷◌, Bool-cases,
  strip, Text, codes,
}
use gitlab_reviewer.Models.{
  Json, null, boolean, number, string, array, object, Items, nil, cons, Fields, end, field,
}
use gitlab_reviewer.Secrets.{is_nil}
use gitlab_reviewer.Python.{Python, get}
use gitlab_reviewer.Results.{
  Finding, Findings, ReviewResult, coerce_text, text_field, parse_finding, both, parse_items,
  parse_bucket, bucketed, parse_buckets, parse_findings, no_findings, item_texts, parse_questions,
  with_findings, validate,
}
use gitlab_reviewer.Runner.{
  findings_dict, described, described_items, bucket_items, normal_findings, questions_list,
  coerced_items, normal_result, normal_fields, normalize_result,
}

-- An object that the runner leaves as it is among the findings.
parse_finding-described :
    (py : Python) (j : Json) (f : Finding) → parse_finding py j ≡ some f → described py j ≡ j
unfolding parse_finding
parse_finding-described py (object fs) f h = refl
parse_finding-described py null f h = absurd (none-ne-some _ h)
parse_finding-described py (boolean b) f h = absurd (none-ne-some _ h)
parse_finding-described py (number n) f h = absurd (none-ne-some _ h)
parse_finding-described py (string s) f h = absurd (none-ne-some _ h)
parse_finding-described py (array xs) f h = absurd (none-ne-some _ h)

both-some {ℓ} :
    {A : Type ℓ} (a : Option A) (rest : Option (List A)) (r : List A)
    → both a rest ≡ some r
    → ((x : A) × (a ≡ some x)) × ((xs : List A) × (rest ≡ some xs))
both-some none rest r h = absurd (none-ne-some _ h)
both-some (some x) none r h = absurd (none-ne-some _ h)
both-some (some x) (some xs) r h = ((x, refl), (xs, refl))

-- Items that the schema takes are left as they are.
parse_items-described :
    (py : Python) (xs : Items) (r : List Finding)
    → parse_items py xs ≡ some r
    → described_items py xs ≡ xs
unfolding parse_items described_items
parse_items-described py nil r h = refl
parse_items-described py (cons x xs) r h =
    let e = both-some (parse_finding py x) (parse_items py xs) r h in
    ap₂ cons (parse_finding-described py x e.0.0 e.0.1) (parse_items-described py xs e.1.0 e.1.1)

-- A bucket that the schema takes is a list that the runner leaves, with the same findings.
bucket_items-parse_bucket :
    (py : Python) (o : Option Json) (r : List Finding)
    → parse_bucket py o ≡ some r
    → (xs : Items) × (bucket_items py o ≡ some xs) × (parse_items py xs ≡ some r)
unfolding parse_bucket
bucket_items-parse_bucket py none r h = unfold parse_items in (nil, refl, h)
bucket_items-parse_bucket py (some (array nil)) r h = (nil, refl, h)
bucket_items-parse_bucket py (some (array (cons x xs))) r h =
    (cons x xs, ap some (parse_items-described py (cons x xs) r h), h)
bucket_items-parse_bucket py (some null) r h = absurd (none-ne-some _ h)
bucket_items-parse_bucket py (some (boolean b)) r h = absurd (none-ne-some _ h)
bucket_items-parse_bucket py (some (number n)) r h = absurd (none-ne-some _ h)
bucket_items-parse_bucket py (some (string s)) r h = absurd (none-ne-some _ h)
bucket_items-parse_bucket py (some (object fs)) r h = absurd (none-ne-some _ h)

bucketed-some :
    (c i m p : Option (List Finding)) (r : Findings)
    → bucketed c i m p ≡ some r
    → (c ≡ some r.critical) × (i ≡ some r.important) × (m ≡ some r.minor) × (p ≡ some r.positive)
bucketed-some (some c) (some i) (some m) (some p) r h =
    let e = some-injective _ _ h in
    (
      ap some (ap (λ x. x.critical) e),
      ap some (ap (λ x. x.important) e),
      ap some (ap (λ x. x.minor) e),
      ap some (ap (λ x. x.positive) e),
    )
bucketed-some none i m p r h = absurd (none-ne-some _ h)
bucketed-some (some c) none m p r h = absurd (none-ne-some _ h)
bucketed-some (some c) (some i) none p r h = absurd (none-ne-some _ h)
bucketed-some (some c) (some i) (some m) none r h = absurd (none-ne-some _ h)

-- The texts of the questions, as the runner writes them, are read as they are.
item_texts-coerced_items :
    (py : Python) (xs : Items) → item_texts py (coerced_items py xs) ≡ item_texts py xs
unfolding item_texts coerced_items coerce_text
item_texts-coerced_items py nil = refl
item_texts-coerced_items py (cons null xs) = item_texts-coerced_items py xs
item_texts-coerced_items py (cons (boolean b) xs) =
    ap (λ t. py.str_of (boolean b) ∷ t) (item_texts-coerced_items py xs)
item_texts-coerced_items py (cons (number n) xs) =
    ap (λ t. py.str_of (number n) ∷ t) (item_texts-coerced_items py xs)
item_texts-coerced_items py (cons (string s) xs) = ap (λ t. s ∷ t) (item_texts-coerced_items py xs)
item_texts-coerced_items py (cons (array ys) xs) =
    ap (λ t. py.dumps (array ys) ∷ t) (item_texts-coerced_items py xs)
item_texts-coerced_items py (cons (object fs) xs) =
    ap (λ t. py.dumps (object fs) ∷ t) (item_texts-coerced_items py xs)

-- The value is no object.
abbrev pub IsNoObject : Option Json → Type 0
IsNoObject o = (fs : Fields) → o ≢ some (object fs)

parse_questions-coerced :
    (py : Python) (o : Option Json)
    → IsNoObject o
    → parse_questions py (some (array (coerced_items py (questions_list o)))) ≡ parse_questions py o
unfolding parse_questions item_texts coerced_items coerce_text
parse_questions-coerced py none h = refl
parse_questions-coerced py (some null) h = refl
parse_questions-coerced py (some (boolean b)) h = refl
parse_questions-coerced py (some (number n)) h = refl
parse_questions-coerced py (some (string s)) h = elim (Bool-cases (is_nil (strip s))) [
  | inl t ↦ rw t refl
  | inr f ↦ rw f refl
]
parse_questions-coerced py (some (array xs)) h = item_texts-coerced_items py xs
parse_questions-coerced py (some (object fs)) h = absurd (h fs refl)

module _ (py : Python) where
  -- Four buckets that the schema takes come out as four lists of the same findings.
  bucket_fields-parse_buckets :
      (fs : Fields) (r : Findings)
      → parse_buckets py fs ≡ some r
      → (gs : Fields) × (normal_findings py (some fs) ≡ some gs) × (parse_buckets py gs ≡ some r)
  unfolding parse_buckets get parse_bucket
  bucket_fields-parse_buckets fs r h =
      let e =
        bucketed-some (parse_bucket py (get (codes "critical") fs))
          (parse_bucket py (get (codes "important") fs)) (parse_bucket py (get (codes "minor") fs))
          (parse_bucket py (get (codes "positive") fs)) r h in
      let c = bucket_items-parse_bucket py (get (codes "critical") fs) r.critical e.0 in
      let i = bucket_items-parse_bucket py (get (codes "important") fs) r.important e.1 in
      let m = bucket_items-parse_bucket py (get (codes "minor") fs) r.minor e.2 in
      let p = bucket_items-parse_bucket py (get (codes "positive") fs) r.positive e.3 in
      (
        field (codes "critical") (array c.0) (
            field (codes "important") (array i.0)
              (field (codes "minor") (array m.0) (field (codes "positive") (array p.0) end))),
        rw (c.1, i.1, m.1, p.1) refl,
        rw (c.2, i.2, m.2, p.2) refl,
      )

  parse_buckets-end : parse_buckets py end ≡ some no_findings
  unfolding parse_buckets parse_bucket get
  parse_buckets-end = refl

  findings-parse_findings :
      (o : Option Json) (r : Findings) (gs : Fields)
      → parse_findings py o ≡ some r
      → normal_findings py (findings_dict o) ≡ some gs
      → parse_buckets py gs ≡ some r
  unfolding parse_findings
  findings-parse_findings none r gs h k =
      let e = bucket_fields-parse_buckets end r (parse_buckets-end ∙ h) in
      subst (λ x. parse_buckets py x ≡ some r) (some-injective _ _ (sym e.1 ∙ k)) e.2
  findings-parse_findings (some (object fs)) r gs h k =
      let e = bucket_fields-parse_buckets fs r h in
      subst (λ x. parse_buckets py x ≡ some r) (some-injective _ _ (sym e.1 ∙ k)) e.2
  findings-parse_findings (some (array xs)) r gs h k =
      let e = bucket_fields-parse_buckets (field (codes "important") (array xs) end) r h in
      subst (λ x. parse_buckets py x ≡ some r) (some-injective _ _ (sym e.1 ∙ k)) e.2
  findings-parse_findings (some null) r gs h k =
      let e = bucket_fields-parse_buckets end r (parse_buckets-end ∙ h) in
      subst (λ x. parse_buckets py x ≡ some r) (some-injective _ _ (sym e.1 ∙ k)) e.2
  findings-parse_findings (some (boolean b)) r gs h k = absurd (none-ne-some _ k)
  findings-parse_findings (some (number n)) r gs h k = absurd (none-ne-some _ k)
  findings-parse_findings (some (string s)) r gs h k = absurd (none-ne-some _ k)

parse_findings-object :
    (py : Python) (gs : Fields) → parse_findings py (some (object gs)) ≡ parse_buckets py gs
unfolding parse_findings
parse_findings-object py gs = refl

with_findings-some :
    (summary commit : Text) (qs : List Text) (o : Option Findings) (r : ReviewResult)
    → with_findings summary commit qs o ≡ some r
    → (f : Findings) × (o ≡ some f)
with_findings-some summary commit qs none r h = absurd (none-ne-some _ h)
with_findings-some summary commit qs (some f) r h = (f, refl)

normal_result-some :
    (summary commit : Text) (qs : Items) (o : Option Fields) (j : Json)
    → normal_result summary commit qs o ≡ some j
    → (gs : Fields) × (o ≡ some gs)
normal_result-some summary commit qs none j h = absurd (none-ne-some _ h)
normal_result-some summary commit qs (some gs) j h = (gs, refl)

abbrev fields_of : Option Json → Fields
fields_of (some (object fs)) = fs
fields_of _ = end

-- Where the app's schema takes an object whose `questions` are no object, and the runner's
-- `_normalize_result` takes it too, the schema reads from what the runner makes of it the same result.
pub validate-normalize_result :
    (py : Python) (fs fs' : Fields) (r : ReviewResult)
    → IsNoObject (get (codes "questions") fs)
    → validate py fs ≡ some r
    → normalize_result py (object fs) ≡ some (object fs')
    → validate py fs' ≡ some r
unfolding validate normalize_result normal_fields get coerce_text
validate-normalize_result py fs fs' r q h k =
    let summary = text_field py (get (codes "summary") fs) in
    let commit = text_field py (get (codes "commit_message_review") fs) in
    let f =
      with_findings-some summary commit (parse_questions py (get (codes "questions") fs))
        (parse_findings py (get (codes "findings") fs)) r h in
    let n =
      normal_result-some summary commit
        (coerced_items py (questions_list (get (codes "questions") fs)))
        (normal_findings py (findings_dict (get (codes "findings") fs))) (object fs') k in
    subst (λ x. validate py x ≡ some r)
      (ap fields_of (
        sym (
          ap
            (normal_result summary commit
              (coerced_items py (questions_list (get (codes "questions") fs))))
            n.1)
        ∙ k))
      (ap
          (λ o.
            with_findings summary commit
              (parse_questions py
                (some (array (coerced_items py (questions_list (get (codes "questions") fs))))))
              o)
          (parse_findings-object py n.0
            ∙ findings-parse_findings py (get (codes "findings") fs) f.0 n.0 f.1 n.1)
        ∙ ap (λ t. with_findings summary commit t (some f.0))
            (parse_questions-coerced py (get (codes "questions") fs) q)
        ∙ sym (
            ap (with_findings summary commit (parse_questions py (get (codes "questions") fs))) f.1)
        ∙ h)
