-- ===== src/Runner/Opencode.antt =====
-- `_run_opencode` and `_run_opencode_once` of containers/review-runner/entrypoint.py. What the queue of
-- lines and the clock answer is given as lists; the threads and the process are not modelled. The reader
-- always ends with its sentinel, so the polls before it are a list; an opencode that hangs has a poll
-- after the deadline.
use gitlab_reviewer.Prelude.{
  ℕ, ◌+◌, ◌-◌, ℤ, pos, negsuc, Bool, true, not, ◌&&◌, ◌||◌, List, [], ◌∷◌, ◌++◌, leb, ◌==◌,
  if◌then◌else◌, rstrip_by, Text, codes,
}
use gitlab_reviewer.Secrets.{is_nil}
use gitlab_reviewer.Secrets.Absent.{occurs}
use gitlab_reviewer.Render.{newline}
use gitlab_reviewer.Runner.Log.{strip_ansi}

-- What `lines.get` gives within its timeout, the sentinel aside: nothing, or a line.
pub data Got : Type 0 where
  nothing : Got
  line : Text → Got

-- One turn of the loop: the clock, and what is got if the deadline is not over.
pub record Poll : Type 0 where
  pub now : ℕ
  pub got : Got

-- One run of opencode.
pub record Attempt : Type 0 where
  pub started : ℕ
  pub polls : List Poll
  -- The clock at the turn that would get the sentinel.
  pub closed : ℕ
  -- What is got after the process is killed, up to the sentinel.
  pub drained : List Got
  -- `proc.wait()`
  pub exit_code : ℤ

-- `item.rstrip("\r\n")`
abbrev pub is_line_end : ℕ → Bool
is_line_end c = c == 13 || c == 10

abbrev pub add_text : Text → List Text → List Text
add_text text output = if is_nil text then output else output ++ (text ++ newline) ∷ []

-- A line of pure escape sequences adds nothing.
unfoldable pub add_item : Text → List Text → List Text
add_item item output = add_text (strip_ansi (rstrip_by is_line_end item)) output

abbrev pub add_got : Got → List Text → List Text
add_got nothing output = output
add_got (line item) output = add_item item output

-- `"".join(output)`
unfoldable pub concat_lines : List Text → Text
concat_lines [] = []
concat_lines (t ∷ ts) = t ++ concat_lines ts

-- The second loop, which ends where the queue is empty.
unfoldable pub drain : List Got → List Text → List Text
drain [] output = output
drain (nothing ∷ gots) output = output
drain (line item ∷ gots) output = drain gots (add_item item output)

abbrev pub killed : Attempt → List Text → ℤ × Text
killed a output = (pos 124, concat_lines (drain a.drained output))

-- The first loop.
unfoldable pub stream : ℕ → Attempt → List Poll → List Text → ℤ × Text
stream deadline a [] output =
    if leb deadline a.closed then killed a output else (a.exit_code, concat_lines output)
stream deadline a (p ∷ polls) output =
    let next = stream deadline a polls (add_got p.got output) in
    if leb deadline p.now then killed a output else next

unfoldable pub run_opencode_once : ℕ → Attempt → ℤ × Text
run_opencode_once timeout a = stream (a.started + timeout) a a.polls []

-- `exit_code not in (0, 124)`
abbrev pub is_failure : ℤ → Bool
is_failure (pos n) = not (n == 0) && not (n == 124)
is_failure (negsuc n) = true

-- `_is_cli_usage`
abbrev pub is_cli_usage : Text → Bool
is_cli_usage output = occurs (codes "Positionals:") output

-- The run with `--thinking`, the run without it, and the clock before the first and after it.
pub record Attempts : Type 0 where
  pub began : ℕ
  pub thinking : Attempt
  pub ended : ℕ
  pub plain : Attempt

-- `_run_opencode`
unfoldable pub run_opencode : ℕ → Attempts → ℤ × Text
run_opencode timeout r =
    let first = run_opencode_once timeout r.thinking in
    if is_failure first.0 && is_cli_usage first.1
    then run_opencode_once (timeout - (r.ended - r.began)) r.plain
    else first
