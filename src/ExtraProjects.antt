-- ===== src/ExtraProjects.antt =====
-- app/services/extra_projects.py: entries of extra projects get a path. `urlsplit` and the digest are
-- parameters; `urlsplit` raises where it is `none`.
pub mod Paths
pub mod Owners
pub mod Apart
use gitlab_reviewer.Prelude.{
  ◌-◌, Bool, false, not, ◌||◌, Option, none, some, List, [], ◌∷◌, ◌++◌, if◌then◌else◌, keep_if,
  length, strip_by, Text, text_eq, codes, is_slash, split, cut, ends_with,
}
use gitlab_reviewer.Models.{Json, string, object, Fields}
use gitlab_reviewer.Secrets.{is_nil, put_field}
use gitlab_reviewer.Python.{Python, stripped, climbs}

pub record Urls : Type 0 where
  -- `urlsplit(url).path`
  pub path : Text → Option Text
  -- `hashlib.sha1(url.encode("utf-8")).hexdigest()[:6]`
  pub digest : Text → Text

abbrev pub last_or_empty : List Text → Text
last_or_empty [] = []
last_or_empty (t ∷ []) = t
last_or_empty (t ∷ u ∷ us) = last_or_empty (u ∷ us)

abbrev pub without_git : Text → Text
without_git name = if ends_with (codes ".git") name then cut (length name - 4) name else name

abbrev pub name_of_path : Text → Text
name_of_path path = without_git (last_or_empty (keep_if (λ s. not (is_nil s)) (split 47 path)))

unfoldable pub derive_path : Urls → Text → Option Text
derive_path urls url = elim (urls.path url) [ none ↦ none | some path ↦ some (name_of_path path) ]

-- The dict `owner`, from a derived path to the url that has it.
abbrev pub Owners : Type 0
Owners = List (Text × Text)

unfoldable pub owner_of : Text → Owners → Option Text
owner_of name [] = none
owner_of name ((n, url) ∷ rest) =
    let later = owner_of name rest in if text_eq n name then some url else later

-- `name in owner and owner[name] != url`
abbrev pub taken_from : Option Text → Text → Bool
taken_from none url = false
taken_from (some other) url = not (text_eq other url)

unfoldable pub own_name : Urls → Owners → Text → Text → Text
own_name urls owner url name =
    if taken_from (owner_of name owner) url then name ++ (codes "-" ++ urls.digest url) else name

-- `str(entry.get("path") or "").strip().strip("/")`
unfoldable pub entry_path : Python → Fields → Text
entry_path py fs = strip_by is_slash (stripped py (codes "path") fs)

abbrev pub entry_url : Python → Fields → Text
entry_url py fs = stripped py (codes "url") fs

-- A URL-only entry with the name that its URL gives.
abbrev pub named : Urls → Owners → Fields → Text → Option Text → Option (Owners × Json)
named urls owner fs url none = none
named urls owner fs url (some name) =
    if is_nil name || climbs name
    then some (owner, object fs)
    else let own = own_name urls owner url name in
      some ((own, url) ∷ owner, object (put_field (codes "path") (string own) fs))

-- The body of the loop on a dict.
unfoldable pub normalize_fields : Python → Urls → Owners → Fields → Option (Owners × Json)
normalize_fields py urls owner fs =
    if is_nil (entry_url py fs) || not (is_nil (entry_path py fs))
    then some (owner, object fs)
    else named urls owner fs (entry_url py fs) (derive_path urls (entry_url py fs))

unfoldable pub normalize_entry : Python → Urls → Owners → Json → Option (Owners × Json)
normalize_entry py urls owner (object fs) = normalize_fields py urls owner fs
normalize_entry py urls owner j = some (owner, j)

abbrev pub push {ℓ} : {A : Type ℓ} → A → Option (List A) → Option (List A)
push a none = none
push a (some rest) = some (a ∷ rest)

unfoldable pub normalize_from : Python → Urls → Owners → List Json → Option (List Json)
normalize_from py urls owner [] = some []
normalize_from py urls owner (entry ∷ entries) = elim (normalize_entry py urls owner entry) [
  | none ↦ none
  | some r ↦ push r.1 (normalize_from py urls r.0 entries)
]

unfoldable pub normalize_extra_projects : Python → Urls → List Json → Option (List Json)
normalize_extra_projects py urls entries = normalize_from py urls [] entries
