-- ===== src/Examples/Provided.antt =====
-- The runner on the extra project that the app has mounted.
use gitlab_reviewer.Prelude.{
  false, some, ◌≡◌, refl, sym, ap, subst, List, [], ◌∷◌, inl, inr, codes, strip, strip_by,
  rstrip_by, drop_while, split, split_from,
}
use gitlab_reviewer.Models.{Json, object, array, Fields, end}
use gitlab_reviewer.Secrets.{is_nil, put_field}
use gitlab_reviewer.Python.{Python, get, stripped, member, climbs}
use gitlab_reviewer.ExtraProjects.{
  entry_path, derive_path, own_name, owner_of, normalize_fields, normalize_entry, normalize_from,
  normalize_extra_projects,
}
use gitlab_reviewer.Libraries.{
  absent, relpath_of, library_relpath, ensure_library_checkout, ensure_each, ensure_libraries,
}
use gitlab_reviewer.Environment.{items_of}
use gitlab_reviewer.Runner.Clones.{ready, Container, clone_extra_projects}
use gitlab_reviewer.Runner.Mounted.{HavePaths, clone_extra_projects_mounted}
use gitlab_reviewer.Examples.{python, urls, url_only}
use gitlab_reviewer.Examples.Library.{with_path, setup, online, one_mount}
use gitlab_reviewer.Examples.Running.{container}

abbrev normalized : List Json
normalized = object with_path ∷ []

-- "[..]" stands for the JSON text of the normalized entries.
abbrev reader : Python
reader = record python { loads = λ t. some (array (items_of normalized)) }

abbrev mounted_container : Container
mounted_container = record (container ((codes "EXTRA_PROJECTS", codes "[..]") ∷ [])) {
  mounted_paths = codes "lib" ∷ [];
}

normalized_lem : normalize_extra_projects reader urls (url_only ∷ []) ≡ some normalized
unfolding normalize_extra_projects normalize_from normalize_entry normalize_fields own_name owner_of
    derive_path split split_from climbs member stripped get strip strip_by rstrip_by drop_while
    put_field entry_path
normalized_lem = refl

mounted_lem :
    (ensure_libraries reader urls setup (λ k. online) (url_only ∷ []) (λ path. absent)).0
    ≡ some one_mount
unfolding ensure_libraries ensure_each ensure_library_checkout library_relpath relpath_of
    normalize_extra_projects normalize_from normalize_entry normalize_fields own_name owner_of
    derive_path split split_from climbs member stripped get strip strip_by rstrip_by drop_while
    put_field entry_path
mounted_lem = refl

with_path-is_nil : is_nil (entry_path reader with_path) ≡ false
unfolding entry_path stripped get strip strip_by rstrip_by drop_while
with_path-is_nil = refl

abbrev fields_of : Json → Fields
fields_of (object fs) = fs
fields_of _ = end

normalized-HavePaths : HavePaths reader normalized
normalized-HavePaths fs (inl e) u =
    subst (λ x. is_nil (entry_path reader x) ≡ false) (sym (ap fields_of e)) with_path-is_nil
normalized-HavePaths fs (inr m) u = absurd m

clone_extra_projects_mounted_example :
    clone_extra_projects reader urls mounted_container []
    ≡ (ready, record { present = codes "lib" ∷ []; trace = [] })
clone_extra_projects_mounted_example =
    clone_extra_projects_mounted reader urls setup (λ k. online) (url_only ∷ []) normalized
      (λ path. absent) one_mount mounted_container [] normalized_lem mounted_lem
      normalized-HavePaths refl (λ t m. m) refl
