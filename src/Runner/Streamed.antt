-- ===== src/Runner/Streamed.antt =====
-- What a run of opencode gives (`_run_opencode_once` of containers/review-runner/entrypoint.py).
use mathlib.Core.List.{append-nil, append_assoc}
use gitlab_reviewer.Prelude.{
  ℕ, ◌+◌, ℤ, pos, Bool, true, false, not, ◌&&◌, ◌≡◌, refl, sym, ap, ◌∙◌, inl, inr, List, [], ◌∷◌,
  ◌++◌, leb, if◌then◌else◌, Bool-cases, rstrip_by, Text,
}
use gitlab_reviewer.Secrets.{is_nil}
use gitlab_reviewer.Render.{newline}
use gitlab_reviewer.Runner.Log.{strip_ansi}
use gitlab_reviewer.Runner.Opencode.{
  Got, nothing, line, Poll, Attempt, is_line_end, add_item, add_got, concat_lines, drain, stream,
  run_opencode_once,
}

-- The text that one answer of the queue adds to the output.
unfoldable pub text_of : Got → Text
text_of nothing = []
text_of (line item) =
    let text = strip_ansi (rstrip_by is_line_end item) in
    if is_nil text then [] else text ++ newline

-- The polls before the first one at or after the deadline, and their text.
unfoldable pub early_text : ℕ → List Poll → Text
early_text deadline [] = []
early_text deadline (p ∷ polls) =
    let rest = text_of p.got ++ early_text deadline polls in if leb deadline p.now then [] else rest

-- No turn, the one of the sentinel included, is at or after the deadline.
unfoldable pub in_time : ℕ → List Poll → ℕ → Bool
in_time deadline [] closed = not (leb deadline closed)
in_time deadline (p ∷ polls) closed = not (leb deadline p.now) && in_time deadline polls closed

-- What is got at once after the process is killed.
unfoldable pub drained_text : List Got → Text
drained_text [] = []
drained_text (nothing ∷ gots) = []
drained_text (line item ∷ gots) = text_of (line item) ++ drained_text gots

concat_lines-append : (a b : List Text) → concat_lines (a ++ b) ≡ concat_lines a ++ concat_lines b
unfolding concat_lines
concat_lines-append [] b = refl
concat_lines-append (t ∷ a) b =
    ap (λ x. t ++ x) (concat_lines-append a b)
    ∙ sym (append_assoc t (concat_lines a) (concat_lines b))

add_got-text_of :
    (g : Got) (output : List Text)
    → concat_lines (add_got g output) ≡ concat_lines output ++ text_of g
unfolding add_item text_of concat_lines
add_got-text_of nothing output = sym (append-nil (concat_lines output))
add_got-text_of (line item) output =
    elim (Bool-cases (is_nil (strip_ansi (rstrip_by is_line_end item)))) [
      | inl t ↦ rw t (sym (append-nil (concat_lines output)))
      | inr f ↦ rw f (
          concat_lines-append output ((strip_ansi (rstrip_by is_line_end item) ++ newline) ∷ [])
          ∙ ap (λ x. concat_lines output ++ x)
              (append-nil (strip_ansi (rstrip_by is_line_end item) ++ newline)))
    ]

drain-drained_text :
    (gots : List Got) (output : List Text)
    → concat_lines (drain gots output) ≡ concat_lines output ++ drained_text gots
unfolding drain drained_text
drain-drained_text [] output = sym (append-nil (concat_lines output))
drain-drained_text (nothing ∷ gots) output = sym (append-nil (concat_lines output))
drain-drained_text (line item ∷ gots) output =
    drain-drained_text gots (add_item item output)
    ∙ ap (λ x. x ++ drained_text gots) (add_got-text_of (line item) output)
    ∙ append_assoc (concat_lines output) (text_of (line item)) (drained_text gots)

-- The exit code and the output that the polls describe.
abbrev pub described_run : ℕ → Attempt → List Poll → ℤ × Text
described_run deadline a polls =
    if in_time deadline polls a.closed
    then (a.exit_code, early_text deadline polls)
    else (pos 124, early_text deadline polls ++ drained_text a.drained)

abbrev prefixed_by : Text → ℤ × Text → ℤ × Text
prefixed_by t r = (r.0, t ++ r.1)

prefixed_by-shift :
    (code : ℤ) (t u e d all : Text) (b : Bool)
    → all ≡ t ++ u
    → prefixed_by all (if b then (code, e) else (pos 124, e ++ d))
      ≡ prefixed_by t (if b then (code, u ++ e) else (pos 124, (u ++ e) ++ d))
prefixed_by-shift code t u e d all true h =
    ap (λ x. (code, x)) (ap (λ y. y ++ e) h ∙ append_assoc t u e)
prefixed_by-shift code t u e d all false h =
    ap (λ x. (pos 124, x))
      (ap (λ y. y ++ (e ++ d)) h
        ∙ append_assoc t u (e ++ d)
        ∙ ap (λ y. t ++ y) (sym (append_assoc u e d)))

stream-described_run :
    (deadline : ℕ) (a : Attempt) (polls : List Poll) (output : List Text)
    → stream deadline a polls output
      ≡ prefixed_by (concat_lines output) (described_run deadline a polls)
unfolding stream in_time early_text
stream-described_run deadline a [] output = elim (Bool-cases (leb deadline a.closed)) [
  | inl t ↦ rw t (ap (λ x. (pos 124, x)) (drain-drained_text a.drained output))
  | inr f ↦ rw f (ap (λ x. (a.exit_code, x)) (sym (append-nil (concat_lines output))))
]
stream-described_run deadline a (p ∷ polls) output = elim (Bool-cases (leb deadline p.now)) [
  | inl t ↦ rw t (ap (λ x. (pos 124, x)) (drain-drained_text a.drained output))
  | inr f ↦ rw f (
      stream-described_run deadline a polls (add_got p.got output)
      ∙ prefixed_by-shift a.exit_code (concat_lines output) (text_of p.got)
          (early_text deadline polls) (drained_text a.drained) (concat_lines (add_got p.got output))
          (in_time deadline polls a.closed) (add_got-text_of p.got output))
]

-- A run of opencode in which no turn of the loop, the last included, is at or after the deadline gives
-- opencode's exit code and the text of all its lines. Every other run ends with 124, the text of the lines
-- before the first turn at or after the deadline, and of those that are got at once afterwards.
pub run_opencode_once_lem :
    (timeout : ℕ) (a : Attempt)
    → run_opencode_once timeout a ≡ (
        if in_time (a.started + timeout) a.polls a.closed
        then (a.exit_code, early_text (a.started + timeout) a.polls)
        else (pos 124, early_text (a.started + timeout) a.polls ++ drained_text a.drained))
unfolding run_opencode_once concat_lines
run_opencode_once_lem timeout a = stream-described_run (a.started + timeout) a a.polls []
