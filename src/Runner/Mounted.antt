-- ===== src/Runner/Mounted.antt =====
-- The runner (containers/review-runner/entrypoint.py) on the extra projects that the app
-- (app/orchestrator/libraries.py) has mounted.
use gitlab_reviewer.Prelude.{
  ℕ, true, false, some, ◌≡◌, refl, sym, ap, ◌∙◌, inl, inr, List, [], ◌∷◌, In, if_cases, Bool-cases,
  strip, Text, codes,
}
use gitlab_reviewer.Models.{Json, null, boolean, number, string, array, object, Fields}
use gitlab_reviewer.Secrets.{is_nil}
use gitlab_reviewer.Python.{Python, stripped, member, climbs}
use gitlab_reviewer.ExtraProjects.{Urls, entry_path, entry_url, normalize_extra_projects}
use gitlab_reviewer.Libraries.{Disk, World, Setup, relpath_of, Mounts, ensure_libraries}
use gitlab_reviewer.Libraries.Provided.{paths, IsProvided, ensure_libraries-IsProvided}
use gitlab_reviewer.Environment.{items_of}
use gitlab_reviewer.Runner.Clones.{
  ready, Trace, Container, env_text, nowhere, below, unless_climbing, destination, Clones, clone_to,
  clone_entry, if_ready, clone_each, clone_loaded, clone_extra_projects,
}

-- Every entry that has a url has a path.
abbrev pub HavePaths : Python → List Json → Type 0
HavePaths py entries =
    (fs : Fields)
    → In (object fs) entries
    → is_nil (entry_url py fs) ≡ false
    → is_nil (entry_path py fs) ≡ false

-- A path at which there is a checkout exists.
abbrev pub AreThere : Container → List Text → Type 0
AreThere c present = (t : Text) → member t present ≡ true → c.there present t ≡ true

module _ (py : Python) (urls : Urls) (c : Container) where
  -- The destination of an entry that has a path.
  destination-path :
      (fs : Fields)
      → is_nil (entry_url py fs) ≡ false
      → is_nil (entry_path py fs) ≡ false
      → destination py urls fs ≡ unless_climbing (entry_path py fs)
  unfolding destination
  destination-path fs u p = rw (u, p) refl

  destination-none :
      (fs : Fields) → is_nil (entry_url py fs) ≡ true → destination py urls fs ≡ nowhere
  unfolding destination
  destination-none fs t = rw t refl

  relpath_of-path :
      (fs : Fields)
      → is_nil (entry_path py fs) ≡ false
      → climbs (entry_path py fs) ≡ false
      → relpath_of py fs ≡ some (entry_path py fs)
  unfolding relpath_of
  relpath_of-path fs p f = rw (p, f) refl

  clone_to-present :
      (url ref path : Text) (k : Clones)
      → (climbs path ≡ false → c.there k.present path ≡ true)
      → clone_to c url ref (unless_climbing path) k ≡ (ready, k)
  clone_to-present url ref path k h =
      if_cases (λ d. clone_to c url ref d k ≡ (ready, k)) (climbs path) nowhere (below path)
        (λ t. refl) (λ f. rw (h f) refl)

  clone_entry-present :
      (mounts : Mounts) (entry : Json) (k : Clones)
      → k.present ≡ paths mounts
      → AreThere c k.present
      → IsProvided py mounts entry
      → ((fs : Fields)
          → entry ≡ object fs
          → is_nil (entry_url py fs) ≡ false
          → is_nil (entry_path py fs) ≡ false)
      → clone_entry py urls c entry k ≡ (ready, k)
  unfolding clone_entry
  clone_entry-present mounts (object fs) k same held given has =
      elim (Bool-cases (is_nil (entry_url py fs))) [
        | inl t ↦
            ap (λ d. clone_to c (entry_url py fs) (stripped py (codes "ref") fs) d k)
              (destination-none fs t)
        | inr u ↦
            let p = has fs refl u in
            ap (λ d. clone_to c (entry_url py fs) (stripped py (codes "ref") fs) d k)
              (destination-path fs u p)
            ∙ clone_to-present (entry_url py fs) (stripped py (codes "ref") fs) (entry_path py fs) k
                (λ f. held (entry_path py fs) (
                  ap (member (entry_path py fs)) same
                  ∙ given fs (entry_path py fs) refl u (relpath_of-path fs p f)))
      ]
  clone_entry-present mounts null k same held given has = refl
  clone_entry-present mounts (boolean b) k same held given has = refl
  clone_entry-present mounts (number n) k same held given has = refl
  clone_entry-present mounts (string s) k same held given has = refl
  clone_entry-present mounts (array xs) k same held given has = refl

  clone_each-present :
      (mounts : Mounts) (entries : List Json) (k : Clones)
      → k.present ≡ paths mounts
      → AreThere c k.present
      → ((entry : Json) → In entry entries → IsProvided py mounts entry)
      → HavePaths py entries
      → clone_each py urls c (items_of entries) k ≡ (ready, k)
  unfolding clone_each items_of
  clone_each-present mounts [] k same held given has = refl
  clone_each-present mounts (entry ∷ entries) k same held given has =
      ap (λ r. if_ready r (clone_each py urls c (items_of entries)))
        (clone_entry-present mounts entry k same held (given entry (inl refl))
          (λ fs e. has fs (inl (sym e))))
      ∙ clone_each-present mounts entries k same held (λ x m. given x (inr m))
          (λ fs m. has fs (inr m))

-- Where `ensure_libraries` returned mounts, the container has them, its EXTRA_PROJECTS are the normalized
-- entries, and every entry with a url has a path, `_clone_extra_projects` ends well and gives git no
-- command: each entry is at the path at which the app mounted it. A path with a checkout exists.
pub clone_extra_projects_mounted :
    (py : Python) (urls : Urls) (s : Setup) (world : ℕ → World) (entries normalized : List Json)
    (disk : Disk) (mounts : Mounts) (c : Container) (trace : Trace)
    → normalize_extra_projects py urls entries ≡ some normalized
    → (ensure_libraries py urls s world entries disk).0 ≡ some mounts
    → HavePaths py normalized
    → c.mounted_paths ≡ paths mounts
    → AreThere c c.mounted_paths
    → py.loads (strip (env_text (codes "EXTRA_PROJECTS") c.env))
      ≡ some (array (items_of normalized))
    → clone_extra_projects py urls c trace
      ≡ (ready, record { present = c.mounted_paths; trace = trace })
unfolding clone_extra_projects
clone_extra_projects_mounted py urls s world entries normalized disk mounts c trace e h has same
      held raw =
    if_cases (λ r. r ≡ (ready, start)) (is_nil (strip (env_text (codes "EXTRA_PROJECTS") c.env)))
      (ready, start)
      (clone_loaded py urls c (py.loads (strip (env_text (codes "EXTRA_PROJECTS") c.env))) start)
      (λ t. refl)
      (λ f.
        ap (λ o. clone_loaded py urls c o start) raw
        ∙ clone_each-present py urls c mounts normalized start same held
            (ensure_libraries-IsProvided py urls s world entries normalized disk mounts e h) has)
  where
    start : Clones
    start = record { present = c.mounted_paths; trace = trace }
