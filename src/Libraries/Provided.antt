-- ===== src/Libraries/Provided.antt =====
-- Which entries `ensure_libraries` of app/orchestrator/libraries.py gives a mount.
use mathlib.Core.Option.{some-injective, none-ne-some}
use gitlab_reviewer.Prelude.{
  ℕ, true, false, not, ◌&&◌, Option, none, some, ◌≡◌, refl, sym, ap, subst, ◌∙◌, ◌≢◌, inl, inr,
  List, [], ◌∷◌, ◌++◌, map, length, if◌then◌else◌, if_both, if_cases, Bool-cases, In, strip, Text,
  text_eq,
}
use gitlab_reviewer.Models.{Json, Fields, object}
use gitlab_reviewer.Secrets.{is_nil}
use gitlab_reviewer.Podman.Allowed.{text_eq_self, text_eq_sound}
use gitlab_reviewer.Python.{Python, member}
use gitlab_reviewer.ExtraProjects.{Urls, entry_url, normalize_extra_projects}
use gitlab_reviewer.Libraries.{
  Place, absent, checkout, other, Disk, write, replace_place, World, readable, unreadable,
  timed_out, Setup, relpath_of, library_relpath, Ensured, at, skipped, raised, marked, is_fresh,
  exists, reclone, resync, at_place, ensure_library_checkout, Mounts, mounted, after_entry,
  or_raised, ensure_each, ensure_normalized, ensure_libraries,
}

-- The paths below /work/lib of the mounts.
abbrev pub paths : Mounts → List Text
paths mounts = map (λ m. m.1) mounts

-- Where the entry has a url and a usable path, there is a mount at that path.
abbrev pub IsProvided : Python → Mounts → Json → Type 0
IsProvided py mounts entry =
    (fs : Fields) (relpath : Text)
    → entry ≡ object fs
    → is_nil (entry_url py fs) ≡ false
    → relpath_of py fs ≡ some relpath
    → member relpath (paths mounts) ≡ true

abbrev IsPassed : Ensured × Disk → Type 0
IsPassed r = r.0 ≢ skipped

reclone-IsPassed : (w : World) (url dest : Text) (disk : Disk) → IsPassed (reclone w url dest disk)
reclone-IsPassed w url dest disk =
    if_both IsPassed (exists (disk dest) && not w.removes) (raised, disk)
      (if w.clones
        then (at dest, replace_place dest (checkout url (marked w none)) disk)
        else (raised, replace_place dest absent disk))
      (λ e. cc)
      (if_both IsPassed w.clones (at dest, replace_place dest (checkout url (marked w none)) disk)
        (raised, replace_place dest absent disk) (λ e. cc) (λ e. cc))

resync-IsPassed :
    (s : Setup) (w : World) (remote dest : Text) (synced : Option ℕ) (disk : Disk)
    → IsPassed (resync s w remote dest synced disk)
resync-IsPassed s w remote dest synced disk =
    if_both IsPassed (is_fresh s w synced) (at dest, disk)
      (if w.refreshes
        then (at dest, write dest (checkout remote (marked w synced)) disk)
        else (at dest, disk))
      (λ e. cc)
      (if_both IsPassed w.refreshes (at dest, write dest (checkout remote (marked w synced)) disk)
        (at dest, disk) (λ e. cc) (λ e. cc))

at_place-IsPassed :
    (s : Setup) (w : World) (url dest : Text) (p : Place) (disk : Disk)
    → IsPassed (at_place s w url dest p disk)
at_place-IsPassed s w url dest absent disk = reclone-IsPassed w url dest disk
at_place-IsPassed s w url dest other disk = reclone-IsPassed w url dest disk
at_place-IsPassed s w url dest (checkout remote synced) disk =
    elim w.remote
      as (λ r. IsPassed (elim r [
        | readable ↦
            if text_eq (strip remote) url
            then resync s w remote dest synced disk
            else reclone w url dest disk
        | unreadable ↦ reclone w url dest disk
        | timed_out ↦ (raised, disk)
      ])) [
        | readable ↦
            if_both IsPassed (text_eq (strip remote) url) (resync s w remote dest synced disk)
              (reclone w url dest disk) (resync-IsPassed s w remote dest synced disk)
              (reclone-IsPassed w url dest disk)
        | unreadable ↦ reclone-IsPassed w url dest disk
        | timed_out ↦ λ e. cc
      ]

ensure_library_checkout-IsPassed :
    (py : Python) (s : Setup) (w : World) (fs : Fields) (relpath : Text) (disk : Disk)
    → is_nil (entry_url py fs) ≡ false
    → relpath_of py fs ≡ some relpath
    → IsPassed (ensure_library_checkout py s w (object fs) disk)
unfolding ensure_library_checkout
ensure_library_checkout-IsPassed py s w fs relpath disk u e =
    rw (e, u)
      (at_place-IsPassed s w (entry_url py fs) (s.place relpath) (disk (s.place relpath)) disk)

member-append_left :
    (t : Text) (us vs : List Text) → member t us ≡ true → member t (us ++ vs) ≡ true
unfolding member
member-append_left t [] vs h = cc
member-append_left t (u ∷ us) vs h = elim (Bool-cases (text_eq u t)) [
  | inl e ↦ rw e refl
  | inr f ↦ rw f (member-append_left t us vs (rw f at h))
]

member-append_last : (t : Text) (us : List Text) → member t (us ++ t ∷ []) ≡ true
unfolding member
member-append_last t [] = rw (text_eq_self t) refl
member-append_last t (u ∷ us) = elim (Bool-cases (text_eq u t)) [
  | inl e ↦ rw e refl
  | inr f ↦ rw f (member-append_last t us)
]

member-tail :
    (t u : Text) (us : List Text)
    → member t (u ∷ us) ≡ true
    → text_eq u t ≡ false
    → member t us ≡ true
unfolding member
member-tail t u us h f = rw f at h

map-append_last :
    (mounts : Mounts) (dest relpath : Text)
    → paths (mounts ++ (dest, relpath) ∷ []) ≡ paths mounts ++ relpath ∷ []
map-append_last [] dest relpath = refl
map-append_last (m ∷ mounts) dest relpath = ap (◌∷◌ m.1) (map-append_last mounts dest relpath)

-- Every path of the one list is one of the other.
abbrev pub AreAmong : List Text → List Text → Type 0
AreAmong us vs = (t : Text) → member t us ≡ true → member t vs ≡ true

-- What one turn of the loop does to its variables: the paths seen stay those of mounts, and no mount is
-- lost.
record Grows (seen : List Text) (mounts : Mounts) (done : List Text × Mounts) : Type 0 where
  seen_mounted : AreAmong done.0 (paths done.1)
  kept : AreAmong (paths mounts) (paths done.1)

Grows-same :
    (seen : List Text) (mounts : Mounts)
    → AreAmong seen (paths mounts)
    → Grows seen mounts (seen, mounts)
Grows-same seen mounts h = record { seen_mounted = h; kept = λ t m. m }

mounted-Grows :
    (dest relpath : Text) (seen : List Text) (mounts : Mounts)
    → AreAmong seen (paths mounts)
    → Grows seen mounts (mounted dest (some relpath) seen mounts)
      × (member relpath (paths (mounted dest (some relpath) seen mounts).1) ≡ true)
mounted-Grows dest relpath seen mounts h =
    if_cases (λ done. Grows seen mounts done × (member relpath (paths done.1) ≡ true))
      (member relpath seen) (seen, mounts) (relpath ∷ seen, mounts ++ (dest, relpath) ∷ [])
      (λ t. (Grows-same seen mounts h, h relpath t)) (λ f. (added, last))
  where
    last : member relpath (paths (mounts ++ (dest, relpath) ∷ [])) ≡ true
    last =
        ap (member relpath) (map-append_last mounts dest relpath)
        ∙ member-append_last relpath (paths mounts)

    more : AreAmong (paths mounts) (paths (mounts ++ (dest, relpath) ∷ []))
    more t m =
        ap (member t) (map-append_last mounts dest relpath)
        ∙ member-append_left t (paths mounts) (relpath ∷ []) m

    added : Grows seen mounts (relpath ∷ seen, mounts ++ (dest, relpath) ∷ [])
    added = record { seen_mounted = λ t m. among t m; kept = more }
      where
        among : AreAmong (relpath ∷ seen) (paths (mounts ++ (dest, relpath) ∷ []))
        among t m = elim (Bool-cases (text_eq relpath t)) [
          | inl e ↦
              subst (λ x. member x (paths (mounts ++ (dest, relpath) ∷ [])) ≡ true)
                (text_eq_sound relpath t e) last
          | inr f ↦ more t (h t (member-tail t relpath seen m f))
        ]

library_relpath-object :
    (py : Python) (entry : Json) (fs : Fields) (relpath : Text)
    → entry ≡ object fs
    → relpath_of py fs ≡ some relpath
    → library_relpath py entry ≡ some relpath
unfolding library_relpath
library_relpath-object py entry fs relpath same f = ap (library_relpath py) same ∙ f

module _ (py : Python) where
  -- One turn of the loop that raises nothing.
  after_entry-Grows :
      (entry : Json) (e : Ensured) (seen : List Text) (mounts : Mounts) (done : List Text × Mounts)
      → ((fs : Fields) (relpath : Text)
          → entry ≡ object fs
          → is_nil (entry_url py fs) ≡ false
          → relpath_of py fs ≡ some relpath
          → e ≢ skipped)
      → AreAmong seen (paths mounts)
      → after_entry py entry e seen mounts ≡ some done
      → Grows seen mounts done × IsProvided py done.1 entry
  after_entry-Grows entry raised seen mounts done passed h k = absurd (none-ne-some _ k)
  after_entry-Grows entry skipped seen mounts done passed h k = (
    subst (Grows seen mounts) (some-injective _ _ k) (Grows-same seen mounts h),
    λ fs relpath same u e. absurd (passed fs relpath same u e refl),
  )
  after_entry-Grows entry (at dest) seen mounts done passed h k =
      subst (λ d. Grows seen mounts d × IsProvided py d.1 entry) (some-injective _ _ k)
        (mounted_entry (library_relpath py entry) refl)
    where
      provided :
          (o : Option Text) (relpath : Text)
          → library_relpath py entry ≡ o
          → o ≡ some relpath
          → Grows seen mounts (mounted dest o seen mounts)
            × (member relpath (paths (mounted dest o seen mounts).1) ≡ true)
      provided o relpath e f =
          subst
            (λ o'.
              Grows seen mounts (mounted dest o' seen mounts)
              × (member relpath (paths (mounted dest o' seen mounts).1) ≡ true))
            (sym f) (mounted-Grows dest relpath seen mounts h)

      mounted_entry :
          (o : Option Text)
          → library_relpath py entry ≡ o
          → Grows seen mounts (mounted dest o seen mounts)
            × IsProvided py (mounted dest o seen mounts).1 entry
      mounted_entry none e = (
        Grows-same seen mounts h,
        λ fs relpath same u f.
            absurd (none-ne-some _ (sym e ∙ library_relpath-object py entry fs relpath same f)),
      )
      mounted_entry (some path) e = (
        (provided (some path) path e refl).0,
        λ fs relpath same u f.
            (provided (some path) relpath e
              (sym e ∙ library_relpath-object py entry fs relpath same f)).1,
      )

  -- What the loop gives when it returns mounts.
  record Provides (entries : List Json) (mounts result : Mounts) : Type 0 where
    all : (entry : Json) → In entry entries → IsProvided py result entry
    kept : AreAmong (paths mounts) (paths result)

  or_raised-Provides :
      (o : Option (List Text × Mounts)) (disk : Disk)
      (rest : List Text × Mounts → Option Mounts × Disk) (result : Mounts) (P : Type 0)
      → ((done : List Text × Mounts) → o ≡ some done → (rest done).0 ≡ some result → P)
      → (or_raised o disk rest).0 ≡ some result
      → P
  or_raised-Provides none disk rest result P f h = absurd (none-ne-some _ h)
  or_raised-Provides (some done) disk rest result P f h = f done refl h

  ensure_each-Provides :
      (s : Setup) (world : ℕ → World) (entries : List Json) (disk : Disk) (seen : List Text)
      (mounts result : Mounts)
      → AreAmong seen (paths mounts)
      → (ensure_each py s world entries disk seen mounts).0 ≡ some result
      → Provides entries mounts result
  unfolding ensure_each
  ensure_each-Provides s world [] disk seen mounts result h e = record {
    all = λ entry m. absurd m;
    kept = λ t m. subst (λ x. member t (paths x) ≡ true) (some-injective _ _ e) m;
  }
  ensure_each-Provides s world (entry ∷ entries) disk seen mounts result h e =
      let r = ensure_library_checkout py s (world (length entries)) entry disk in
      or_raised-Provides (after_entry py entry r.0 seen mounts) r.1
        (λ done. ensure_each py s world entries r.1 done.0 done.1) result
        (Provides (entry ∷ entries) mounts result)
        (λ done k g.
          let step =
            after_entry-Grows entry r.0 seen mounts done
              (λ fs relpath same u f.
                subst (λ x. IsPassed (ensure_library_checkout py s (world (length entries)) x disk))
                  (sym same)
                  (ensure_library_checkout-IsPassed py s (world (length entries)) fs relpath disk u
                    f))
              h k in
          let later =
            ensure_each-Provides s world entries r.1 done.0 done.1 result step.0.seen_mounted g in
          record {
            all = λ x m. elim m [
              | inl same ↦
                  λ fs relpath is u f. later.kept relpath (step.1 fs relpath (sym same ∙ is) u f)
              | inr m' ↦ later.all x m'
            ];
            kept = λ t m. later.kept t (step.0.kept t m);
          })
        e

-- Where `ensure_libraries` returns mounts, every normalized entry that has a url and a usable path has a
-- mount at that path.
pub ensure_libraries-IsProvided :
    (py : Python) (urls : Urls) (s : Setup) (world : ℕ → World) (entries normalized : List Json)
    (disk : Disk) (mounts : Mounts)
    → normalize_extra_projects py urls entries ≡ some normalized
    → (ensure_libraries py urls s world entries disk).0 ≡ some mounts
    → (entry : Json) → In entry normalized
    → IsProvided py mounts entry
unfolding ensure_libraries member
ensure_libraries-IsProvided py urls s world entries normalized disk mounts e h =
    (ensure_each-Provides py s world normalized disk [] [] mounts (λ t m. m)
      (sym (ap (λ n. (ensure_normalized py s world n disk).0) e) ∙ h)).all
