-- ===== src/Python.antt =====
-- What the code asks of a JSON value by Python's own operations: truth, `str`, `dict.get`, `split`.
-- `str` of a value that is no string, and whether a number is zero, are parameters.
use gitlab_reviewer.Prelude.{
  ℕ, ℤ, Bool, true, false, not, ◌||◌, Option, none, some, List, [], ◌∷◌, if◌then◌else◌, split,
  strip, Text, text_eq, codes,
}
use gitlab_reviewer.Models.{
  Json, null, boolean, number, string, array, object, nil, cons, Fields, end, field,
}
use gitlab_reviewer.Secrets.{is_nil}

pub record Python : Type 0 where
  -- `bool(n)` of a number literal.
  pub nonzero : Text → Bool
  -- `str(value)` of a value that is no string.
  pub str_of : Json → Text
  -- `json.dumps(value, ensure_ascii=False)`
  pub dumps : Json → Text
  -- `json.loads`, which raises where it is `none`.
  pub loads : Text → Option Json
  -- `int(n)` of a number literal, which raises where it is `none`.
  pub int_of : Text → Option ℤ
  -- The value of a character that `\d` matches.
  pub digit : ℕ → Option ℕ

abbrev pub truthy : Python → Json → Bool
truthy py null = false
truthy py (boolean b) = b
truthy py (number n) = py.nonzero n
truthy py (string s) = not (is_nil s)
truthy py (array nil) = false
truthy py (array (cons x xs)) = true
truthy py (object end) = false
truthy py (object (field k v fs)) = true

abbrev pub str : Python → Json → Text
str py (string s) = s
str py j = py.str_of j

-- `d.get(key)`
unfoldable pub get : Text → Fields → Option Json
get key end = none
get key (field k v fs) = let rest = get key fs in if text_eq k key then some v else rest

-- `str(value or "")`
abbrev pub str_or_empty : Python → Option Json → Text
str_or_empty py none = []
str_or_empty py (some j) = if truthy py j then str py j else []

-- `str(d.get(key) or "").strip()`
unfoldable pub stripped : Python → Text → Fields → Text
stripped py key fs = strip (str_or_empty py (get key fs))

-- `item in list`
unfoldable pub member : Text → List Text → Bool
member t [] = false
member t (u ∷ us) = text_eq u t || member t us

-- `".." in path.split("/")`
unfoldable pub climbs : Text → Bool
climbs path = member (codes "..") (split 47 path)
