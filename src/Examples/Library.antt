-- ===== src/Examples/Library.antt =====
-- One extra project without a path: its normalized entry, its checkout and its mount.
use mathlib.Core.Option.{some-injective}
use gitlab_reviewer.Prelude.{
  List, ◌≢◌, if◌then◌else◌, text_eq, sym, ap₂, ap, ◌∙◌, inl, inr, true, false, some, ◌≡◌, refl, [],
  ◌∷◌, ◌++◌, In, Pairwise, Text, codes, strip, strip_by, rstrip_by, drop_while, split, split_from,
}
use gitlab_reviewer.Models.{Json, object, string, Fields, field, end}
use gitlab_reviewer.Secrets.{is_nil, put_field, starts_with}
use gitlab_reviewer.Python.{get, stripped, member, climbs}
use gitlab_reviewer.ExtraProjects.Apart.{IsUrlOnly, path_of, normalize_extra_projects-paths}
use gitlab_reviewer.ExtraProjects.{
  Urls, entry_path, entry_url, derive_path, own_name, owner_of, normalize_fields, normalize_entry,
  normalize_from, normalize_extra_projects,
}
use gitlab_reviewer.ExtraProjects.Paths.{
  IsNormalized, Pointwise, normalize_extra_projects-IsNormalized,
}
use gitlab_reviewer.Libraries.{
  is_inside, absent, checkout, Disk, World, readable, unreadable, Setup, at, Mounts, relpath_of,
  library_relpath, ensure_library_checkout, ensure_each, ensure_libraries,
}
use gitlab_reviewer.Libraries.Checkout.{ensure_library_checkout-at}
use gitlab_reviewer.Libraries.Mounts.{AreBeside, OtherPath, IsMounted, ensure_libraries-IsMounted}
use gitlab_reviewer.Examples.{python, urls, url_only}

abbrev pub with_path : Fields
with_path =
    field (codes "url") (string (codes "h/lib.git"))
      (field (codes "path") (string (codes "lib")) end)

url_only-normalized :
    normalize_extra_projects python urls (url_only ∷ []) ≡ some (object with_path ∷ [])
unfolding normalize_extra_projects normalize_from normalize_entry normalize_fields own_name owner_of
    derive_path split split_from climbs member stripped get strip strip_by rstrip_by drop_while
    put_field entry_path
url_only-normalized = refl

normalize_extra_projects-IsNormalized_example :
    Pointwise (IsNormalized python urls) (url_only ∷ []) (object with_path ∷ [])
normalize_extra_projects-IsNormalized_example =
    normalize_extra_projects-IsNormalized python urls (url_only ∷ []) (object with_path ∷ [])
      url_only-normalized

-- Two projects of one name on two hosts.
abbrev digesting : Urls
digesting = record {
  path = λ url. some url;
  digest = λ url. if text_eq url (codes "g/lib.git") then codes "4d5e6f" else codes "0a1b2c";
}

abbrev fields_of : Text → Fields
fields_of url = field (codes "url") (string url) end

abbrev with_own : Text → Text → Fields
with_own url path = field (codes "url") (string url) (field (codes "path") (string path) end)

abbrev both_in : List Json
both_in = object (fields_of (codes "h/lib.git")) ∷ object (fields_of (codes "g/lib.git")) ∷ []

abbrev both_out : List Json
both_out =
    object (with_own (codes "h/lib.git") (codes "lib"))
    ∷ object (with_own (codes "g/lib.git") (codes "lib-4d5e6f"))
    ∷ []

both-normalized : normalize_extra_projects python digesting both_in ≡ some both_out
unfolding normalize_extra_projects normalize_from normalize_entry normalize_fields own_name owner_of
    derive_path split split_from climbs member stripped get strip strip_by rstrip_by drop_while
    put_field entry_path
both-normalized = refl

first-IsUrlOnly :
    IsUrlOnly python digesting (fields_of (codes "h/lib.git")) (codes "h/lib.git") (codes "lib")
unfolding derive_path split split_from climbs member stripped get strip strip_by rstrip_by
    drop_while entry_path
first-IsUrlOnly = record {
  has_url = refl;
  not_blank = refl;
  no_path = refl;
  derives = refl;
  usable = refl;
}

second-IsUrlOnly :
    IsUrlOnly python digesting (fields_of (codes "g/lib.git")) (codes "g/lib.git") (codes "lib")
unfolding derive_path split split_from climbs member stripped get strip strip_by rstrip_by
    drop_while entry_path
second-IsUrlOnly = record {
  has_url = refl;
  not_blank = refl;
  no_path = refl;
  derives = refl;
  usable = refl;
}

normalize_extra_projects-paths_example :
    path_of (object (with_own (codes "h/lib.git") (codes "lib")))
    ≢ path_of (object (with_own (codes "g/lib.git") (codes "lib-4d5e6f")))
normalize_extra_projects-paths_example =
    normalize_extra_projects-paths python digesting both_in both_out [] [] []
      (fields_of (codes "h/lib.git")) (fields_of (codes "g/lib.git"))
      (object (with_own (codes "h/lib.git") (codes "lib")))
      (object (with_own (codes "g/lib.git") (codes "lib-4d5e6f"))) (codes "h/lib.git")
      (codes "g/lib.git") (codes "lib") both-normalized refl first-IsUrlOnly second-IsUrlOnly
      (λ e. let k : true ≡ false = ap (text_eq (codes "h/lib.git")) e in cc)
      (λ e. let k : true ≡ false = ap (text_eq (codes "0a1b2c")) e in cc)

abbrev pub setup : Setup
setup = record { place = λ relpath. codes "/libs/" ++ relpath; max_age_hours = 24 }

-- git cannot refresh the checkout, and clones nothing.
abbrev offline : World
offline = record {
  remote = readable;
  now = 100000;
  refreshes = false;
  removes = false;
  clones = false;
  marks = false;
}

abbrev old_disk : Disk
old_disk = λ path. checkout (codes "h/lib.git") (some 5)

with_path-relpath_of : relpath_of python with_path ≡ some (codes "lib")
unfolding relpath_of split split_from climbs member stripped get strip strip_by rstrip_by drop_while
    entry_path
with_path-relpath_of = refl

with_path-url : is_nil (entry_url python with_path) ≡ false
unfolding stripped get strip strip_by rstrip_by drop_while
with_path-url = refl

with_path-remote : strip (codes "h/lib.git") ≡ entry_url python with_path
unfolding stripped get strip strip_by rstrip_by drop_while
with_path-remote = refl

ensure_library_checkout-at_example :
    (ensure_library_checkout python setup offline (object with_path) old_disk).0
    ≡ at (codes "/libs/" ++ codes "lib")
ensure_library_checkout-at_example =
    ensure_library_checkout-at python setup offline with_path (codes "lib") (codes "h/lib.git")
      (some 5) old_disk with_path-relpath_of with_path-url refl with_path-remote refl

abbrev pub online : World
online = record offline { remote = unreadable; removes = true; clones = true; marks = true }

abbrev pub one_mount : Mounts
one_mount = (codes "/libs/lib", codes "lib") ∷ []

url_only-mounted :
    (ensure_libraries python urls setup (λ k. online) (url_only ∷ []) (λ path. absent)).0
    ≡ some one_mount
unfolding ensure_libraries ensure_each ensure_library_checkout library_relpath relpath_of
    normalize_extra_projects normalize_from normalize_entry normalize_fields own_name owner_of
    derive_path split split_from climbs member stripped get strip strip_by rstrip_by drop_while
    put_field entry_path
url_only-mounted = refl

only_path :
    (fs : Fields) (p : Text)
    → In (object fs) (object with_path ∷ [])
    → relpath_of python fs ≡ some p
    → p ≡ codes "lib"
unfolding library_relpath
only_path fs p (inl e) h =
    some-injective _ _ (sym h ∙ ap (library_relpath python) e ∙ with_path-relpath_of)
only_path fs p (inr m) h = absurd m

with_path-AreBeside : AreBeside python setup (object with_path ∷ [])
unfolding starts_with
with_path-AreBeside fs gs p q m n h k =
    ap₂ (λ x y. is_inside (setup.place x) (setup.place y)) (only_path fs p m h) (only_path gs q n k)

ensure_libraries-IsMounted_example :
    Pairwise OtherPath one_mount
    × ((m : Text × Text)
        → In m one_mount
        → IsMounted python setup
            (object with_path ∷ [])
            (ensure_libraries python urls setup (λ k. online) (url_only ∷ []) (λ path. absent)).1
            m)
ensure_libraries-IsMounted_example =
    ensure_libraries-IsMounted python urls setup (λ k. online) (url_only ∷ [])
      (object with_path ∷ []) (λ path. absent) one_mount url_only-normalized with_path-AreBeside
      url_only-mounted
