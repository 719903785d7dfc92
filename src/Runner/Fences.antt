-- ===== src/Runner/Fences.antt =====
-- The fenced blocks of containers/review-runner/entrypoint.py: `_FENCED_JSON_RE` with `findall`, and
-- `_extract_result`.
use gitlab_reviewer.Prelude.{
  ℕ, zero, suc, ◌-◌, ◌&&◌, ◌||◌, Option, none, some, List, [], ◌∷◌, ◌++◌, ◌==◌, if◌then◌else◌,
  length, Text, codes,
}
use gitlab_reviewer.Models.{Json}
use gitlab_reviewer.Secrets.{starts_with}
use gitlab_reviewer.Python.{Python}
use gitlab_reviewer.Runner.{normalize_result}

-- "```"
abbrev pub fence : Text
fence = 96 ∷ 96 ∷ 96 ∷ []

-- `text[n:]`
abbrev pub drop : ℕ → Text → Text
drop zero text = text
drop (suc n) [] = []
drop (suc n) (c ∷ cs) = drop n cs

-- `[ \t]*`
unfoldable pub skip_blanks : Text → Text
skip_blanks [] = []
skip_blanks (c ∷ cs) = let rest = skip_blanks cs in if c == 32 || c == 9 then rest else c ∷ cs

-- `\r?\n`
abbrev pub after_newline : Text → Option Text
after_newline [] = none
after_newline (c ∷ []) = if c == 10 then some [] else none
after_newline (c ∷ d ∷ cs) =
    if c == 10 then some (d ∷ cs) else if c == 13 && d == 10 then some cs else none

-- The text after the opening of a block, "```json[ \t]*\r?\n".
unfoldable pub after_opening : Text → Option Text
after_opening text =
    if starts_with (fence ++ codes "json") text
    then after_newline (skip_blanks (drop 7 text))
    else none

abbrev pub longer : ℕ → Option (Text × Text) → Option (Text × Text)
longer c none = none
longer c (some r) = some (c ∷ r.0, r.1)

-- `(.*?)` up to the next fence, and the text after that fence.
unfoldable pub up_to_fence : Text → Option (Text × Text)
up_to_fence [] = none
up_to_fence (c ∷ cs) =
    let rest = up_to_fence cs in
    if starts_with fence (c ∷ cs) then some ([], drop 3 (c ∷ cs)) else longer c rest

abbrev pub closed : Option Text → Option (Text × Text)
closed none = none
closed (some text) = up_to_fence text

-- The pattern at the start of the text: the block and the text after it.
unfoldable pub block_at : Text → Option (Text × Text)
block_at text = closed (after_opening text)

-- `findall`: from the left, without overlap. The number is how many characters of a block are still
-- to be skipped.
unfoldable pub blocks_from : ℕ → Text → List Text
blocks_from skip [] = []
blocks_from (suc k) (c ∷ cs) = blocks_from k cs
blocks_from zero (c ∷ cs) = elim (block_at (c ∷ cs)) [
  | none ↦ blocks_from zero cs
  | some r ↦ r.0 ∷ blocks_from (length cs - length r.1) cs
]

unfoldable pub last_block : List Text → Option Text
last_block [] = none
last_block (t ∷ []) = some t
last_block (t ∷ u ∷ us) = last_block (u ∷ us)

abbrev pub normalized_or_none : Python → Option Json → Option Json
normalized_or_none py none = none
normalized_or_none py (some j) = normalize_result py j

abbrev pub loaded : Python → Option Text → Option Json
loaded py none = none
loaded py (some text) = normalized_or_none py (py.loads text)

-- `_extract_result`
unfoldable pub extract_result : Python → Text → Option Json
extract_result py text = loaded py (last_block (blocks_from 0 text))
