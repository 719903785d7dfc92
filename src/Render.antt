-- ===== src/Render.antt =====
-- app/services/result_render.py: a review outcome as markdown.
pub mod Complete
use gitlab_reviewer.Prelude.{
  ℕ, ◌+◌, ℤ, Option, none, some, List, [], ◌∷◌, ◌++◌, map, if◌then◌else◌, strip, join, decimal,
  decimal_int, Text, codes,
}
use gitlab_reviewer.Models.{Json}
use gitlab_reviewer.Secrets.{is_nil}
use gitlab_reviewer.Python.{Python, truthy}
use gitlab_reviewer.Results.{Finding, ReviewResult, parse_review_result}

abbrev pub blank_line : Text
blank_line = 10 ∷ 10 ∷ []

abbrev pub newline : Text
newline = 10 ∷ []

unfoldable pub ref_of : Text → Option ℤ → Text
ref_of [] none = []
ref_of [] (some line) = codes "[line " ++ (decimal_int line ++ codes "]")
ref_of (c ∷ file) none = codes "[" ++ ((c ∷ file) ++ codes "]")
ref_of (c ∷ file) (some line) =
    codes "[" ++ ((c ∷ file) ++ (codes ":" ++ (decimal_int line ++ codes "]")))

unfoldable pub finding_ref : Finding → Text
finding_ref f = ref_of (strip f.file) f.line

abbrev pub ref_and_text : Text → Text → Text
ref_and_text [] description = description
ref_and_text (c ∷ ref) [] = c ∷ ref
ref_and_text (c ∷ ref) (d ∷ description) = (c ∷ ref) ++ (codes " " ++ (d ∷ description))

unfoldable pub finding_text : Finding → Text
finding_text f = ref_and_text (finding_ref f) (strip f.description)

abbrev pub heading : Text → Text → Text
heading title body = codes "## " ++ (title ++ (blank_line ++ body))

-- `if text.strip(): sections.append(...)`
abbrev pub text_section : Text → Text → List Text
text_section title text = if is_nil (strip text) then [] else heading title (strip text) ∷ []

unfoldable pub bullets : List Finding → List Text
bullets findings = map (λ f. codes "- " ++ finding_text f) findings

abbrev pub findings_section : Text → List Finding → List Text
findings_section title [] = []
findings_section title (f ∷ findings) = heading title (join newline (bullets (f ∷ findings))) ∷ []

-- `enumerate(questions, 1)`, less the blank ones.
unfoldable pub numbered_lines : ℕ → List Text → List Text
numbered_lines i [] = []
numbered_lines i (q ∷ questions) =
    let rest = numbered_lines (i + 1) questions in
    if is_nil (strip q) then rest else (decimal i ++ (codes ". " ++ strip q)) ∷ rest

abbrev pub questions_section : List Text → List Text
questions_section [] = []
questions_section (line ∷ lines) = heading (codes "Questions") (join newline (line ∷ lines)) ∷ []

unfoldable pub sections : ReviewResult → List Text
sections r =
    text_section (codes "Summary") r.summary
    ++ (findings_section (codes "Critical") r.findings.critical
        ++ (findings_section (codes "Important") r.findings.important
            ++ (findings_section (codes "Minor") r.findings.minor
                ++ (findings_section (codes "Positive") r.findings.positive
                    ++ (text_section (codes "Commit Message Review") r.commit_message_review
                        ++ questions_section (numbered_lines 1 r.questions))))))

abbrev pub error_note : Option Text → Text
error_note none = []
error_note (some []) = []
error_note (some (c ∷ error)) = blank_line ++ (codes "Error: " ++ strip (c ∷ error))

-- Where no structured result is rendered; `run_error` is the error message of the run.
unfoldable pub render_raw : Option Text → Option Text → Text
render_raw none run_error =
    (codes "Review finished without a structured result." ++ error_note run_error) ++ newline
render_raw (some raw) run_error =
    if is_nil (strip raw)
    then (codes "Review finished without a structured result." ++ error_note run_error) ++ newline
    else strip raw ++ newline

abbrev pub or_raw : List Text → Text → Text
or_raw [] raw = raw
or_raw (s ∷ ss) raw = join blank_line (s ∷ ss) ++ newline

unfoldable pub render_json : Python → Json → Option Text → Option Text → Text
render_json py j raw run_error =
    if truthy py j
    then or_raw (sections (parse_review_result py j)) (render_raw raw run_error)
    else render_raw raw run_error

unfoldable pub render_result_markdown : Python → Option Json → Option Text → Option Text → Text
render_result_markdown py none raw run_error = render_raw raw run_error
render_result_markdown py (some j) raw run_error = render_json py j raw run_error
