-- ===== src/Routes/Forms.antt =====
-- `_parse_extra_projects` of app/routers/queue.py, with `_EXTRA_RE`.
use gitlab_reviewer.Prelude.{
  ◌≡◌, refl, inl, inr, Bool-cases, Bool, false, ◌||◌, Option, none, some, List, [], ◌∷◌, ◌==◌,
  if◌then◌else◌, strip, Text, text_eq, codes,
}
use gitlab_reviewer.Models.{Json, string, object, Fields, end, field}
use gitlab_reviewer.Secrets.{is_nil}
use gitlab_reviewer.Python.{get}

pub data FieldName : Type 0 where
  url ref path : FieldName

-- The values of one row of the form.
pub record Row : Type 0 where
  pub url_value : Option Text
  pub ref_value : Option Text
  pub path_value : Option Text

abbrev pub after_prefix : Text → Text → Option Text
after_prefix [] t = some t
after_prefix (p ∷ ps) [] = none
after_prefix (p ∷ ps) (c ∷ cs) = if p == c then after_prefix ps cs else none

-- `(.+)$`: a newline can only stand at the end, and is left out there.
unfoldable pub index_text : Text → Option Text
index_text [] = some []
index_text (c ∷ []) = if c == 10 then some [] else some (c ∷ [])
index_text (c ∷ d ∷ cs) = elim (index_text (d ∷ cs)) [
  | none ↦ none
  | some rest ↦ if c == 10 then none else some (c ∷ rest)
]

abbrev pub row_index : FieldName → Option Text → Option (FieldName × Text)
row_index f none = none
row_index f (some index) = if is_nil index then none else some (f, index)

abbrev pub indexed : FieldName → Option Text → Option (FieldName × Text)
indexed f none = none
indexed f (some rest) = row_index f (index_text rest)

abbrev pub first_of :
    Option (FieldName × Text) → Option (FieldName × Text) → Option (FieldName × Text)
first_of none other = other
first_of (some r) other = some r

-- `_EXTRA_RE.match`
unfoldable pub match_name : Text → Option (FieldName × Text)
match_name name = first_of (indexed url (after_prefix (codes "extra_url_") name)) (
    first_of (indexed ref (after_prefix (codes "extra_ref_") name))
      (indexed path (after_prefix (codes "extra_path_") name)))

abbrev pub with_value : FieldName → Text → Row → Row
with_value url v r = record r { url_value = some v }
with_value ref v r = record r { ref_value = some v }
with_value path v r = record r { path_value = some v }

abbrev pub empty_row : Row
empty_row = record { url_value = none; ref_value = none; path_value = none }

-- `fields.setdefault(index, {})[field] = value`
unfoldable pub put_value : Text → FieldName → Text → List (Text × Row) → List (Text × Row)
put_value index f v [] = (index, with_value f v empty_row) ∷ []
put_value index f v ((i, r) ∷ rows) =
    let rest = put_value index f v rows in
    if text_eq i index then (i, with_value f v r) ∷ rows else (i, r) ∷ rest

abbrev pub put_matched : Option (FieldName × Text) → Text → List (Text × Row) → List (Text × Row)
put_matched none v rows = rows
put_matched (some (f, index)) v rows = put_value index f v rows

unfoldable pub collect : List (Text × Text) → List (Text × Row) → List (Text × Row)
collect [] rows = rows
collect ((name, value) ∷ items) rows = collect items (put_matched (match_name name) value rows)

-- `(values.get(key) or "").strip()`
abbrev pub value_text : Option Text → Text
value_text none = strip []
value_text (some v) = strip v

abbrev pub optional_field : Text → Text → Fields → Fields
optional_field key v rest = if is_nil v then rest else field key (string v) rest

abbrev pub project_of : Row → Json
project_of r = object (
    field (codes "url") (string (value_text r.url_value)) (
      optional_field (codes "ref") (value_text r.ref_value)
        (optional_field (codes "path") (value_text r.path_value) end)))

unfoldable pub projects : List (Text × Row) → List Json
projects [] = []
projects ((i, r) ∷ rows) =
    let rest = projects rows in
    if is_nil (value_text r.url_value) then rest else project_of r ∷ rest

unfoldable pub parse_extra_projects : List (Text × Text) → List Json
parse_extra_projects items = projects (collect items [])

abbrev pub is_empty_text : Option Json → Bool
is_empty_text (some (string s)) = is_nil s
is_empty_text _ = false

abbrev pub without_url : Json → Bool
without_url (object fs) = is_empty_text (get (codes "url") fs)
without_url _ = false

-- `any(not e["url"] for e in extras)`
unfoldable pub any_without_url : List Json → Bool
any_without_url [] = false
any_without_url (e ∷ es) = without_url e || any_without_url es

projects-any_without_url : (rows : List (Text × Row)) → any_without_url (projects rows) ≡ false
unfolding any_without_url projects get
projects-any_without_url [] = refl
projects-any_without_url ((i, r) ∷ rows) = elim (Bool-cases (is_nil (value_text r.url_value))) [
  | inl t ↦ rw t (projects-any_without_url rows)
  | inr f ↦ rw (f, f) (projects-any_without_url rows)
]

-- No project that is parsed out of a form has an empty url.
pub parse_extra_projects-any_without_url :
    (items : List (Text × Text)) → any_without_url (parse_extra_projects items) ≡ false
unfolding parse_extra_projects
parse_extra_projects-any_without_url items = projects-any_without_url (collect items [])
