-- ===== src/Runner/Log.antt =====
-- `strip_ansi` of containers/review-runner/entrypoint.py, with `_ANSI_RE`, and what `log` writes.
use gitlab_reviewer.Prelude.{
  ℕ, zero, suc, ◌-◌, Bool, ◌&&◌, ◌||◌, Option, none, some, [], ◌∷◌, leb, ◌==◌, if◌then◌else◌,
  drop_while, length, Text,
}
use gitlab_reviewer.Secrets.{Env, scrub, runner_secrets}

-- `[0-?]`
abbrev pub is_parameter : ℕ → Bool
is_parameter c = leb 48 c && leb c 63

-- `[ -/]`
abbrev pub is_intermediate : ℕ → Bool
is_intermediate c = leb 32 c && leb c 47

-- `[@-~]`
abbrev pub after_final : Text → Option Text
after_final [] = none
after_final (c ∷ cs) = if leb 64 c && leb c 126 then some cs else none

-- The text after a CSI sequence, whose "[" has been read.
unfoldable pub after_csi : Text → Option Text
after_csi text = after_final (drop_while is_intermediate (drop_while is_parameter text))

-- `\x1b\\` once its first character has been read.
abbrev pub after_terminator : Text → Option Text
after_terminator [] = none
after_terminator (c ∷ cs) = if c == 92 then some cs else none

-- The text after an OSC sequence, whose "]" has been read.
unfoldable pub after_osc : Text → Option Text
after_osc [] = none
after_osc (c ∷ cs) =
    let rest = after_osc cs in
    if c == 7 then some cs else if c == 27 then after_terminator cs else rest

abbrev pub or_short : Option Text → Text → Option Text
or_short none cs = some cs
or_short (some rest) cs = some rest

-- The text after an escape sequence, whose first character has been read; "]" alone is a sequence of
-- two characters too.
unfoldable pub after_escape : Text → Option Text
after_escape [] = none
after_escape (c ∷ cs) =
    if c == 91
    then after_csi cs
    else if c == 93
    then or_short (after_osc cs) cs
    else if (leb 64 c && leb c 90) || (leb 92 c && leb c 95)
    then some cs
    else none

-- `_ANSI_RE` at the start of a text: the text after the match.
unfoldable pub ansi_at : Text → Option Text
ansi_at [] = none
ansi_at (c ∷ cs) = if c == 27 then after_escape cs else none

-- `_ANSI_RE.sub("", text)`; the number is how many characters of a match are still to be skipped.
unfoldable pub strip_from : ℕ → Text → Text
strip_from skip [] = []
strip_from (suc k) (c ∷ cs) = strip_from k cs
strip_from zero (c ∷ cs) = elim (ansi_at (c ∷ cs)) [
  | none ↦ c ∷ strip_from zero cs
  | some rest ↦ strip_from (length cs - length rest) cs
]

unfoldable pub strip_ansi : Text → Text
strip_ansi text = strip_from 0 text

-- The line that `log` prints and writes for a message.
unfoldable pub log_message : Env → Text → Text
log_message env message = strip_ansi (scrub (runner_secrets env) message)
