-- ===== src/Libraries.antt =====
-- app/orchestrator/libraries.py: the checkouts of extra projects on the host. The disk is a function
-- from a path to what is there; what git, the clock and the file system answer is a parameter. The
-- lock of a checkout makes one call one step. The lines for the run log are not modelled.
pub mod Checkout
pub mod Mounts
pub mod Provided
use gitlab_reviewer.Prelude.{
  ℕ, ◌+◌, Bool, true, false, not, ◌&&◌, ◌||◌, Option, none, some, List, [], ◌∷◌, ◌++◌, ltb,
  if◌then◌else◌, strip, length, Text, text_eq, codes,
}
use Prim.Native.Nat.{◌*◌}
use gitlab_reviewer.Models.{Json, Fields, object}
use gitlab_reviewer.Secrets.{is_nil, starts_with}
use gitlab_reviewer.Python.{Python, member, climbs}
use gitlab_reviewer.ExtraProjects.{Urls, entry_path, entry_url, normalize_extra_projects}

-- What is at a path: nothing, a checkout with the URL of its origin and the time in its sync file,
-- or anything else.
pub data Place : Type 0 where
  absent : Place
  checkout : Text → Option ℕ → Place
  other : Place

abbrev pub Disk : Type 0
Disk = Text → Place

abbrev pub write : Text → Place → Disk → Disk
write dest p disk path = if text_eq path dest then p else disk path

-- The one path is inside the directory at the other.
abbrev pub is_inside : Text → Text → Bool
is_inside dir path = starts_with (dir ++ codes "/") path

-- A directory that is made, unless something is there.
abbrev pub made : Place → Place
made absent = other
made (checkout remote synced) = checkout remote synced
made other = other

-- `shutil.rmtree`, `mkdir` of the parents and `git clone`: what was inside the destination is gone, and the
-- directories around it are there. What a clone holds inside is not modelled.
abbrev pub replace_place : Text → Place → Disk → Disk
replace_place dest p disk path =
    if text_eq path dest
    then p
    else if is_inside dest path
    then absent
    else if is_inside path dest
    then made (disk path)
    else disk path

-- How `git remote get-url origin` ends: with an answer, with an error, or by its timeout.
pub data Remote : Type 0 where
  readable unreadable timed_out : Remote

-- What one call of `ensure_library_checkout` meets.
pub record World : Type 0 where
  pub remote : Remote
  pub now : ℕ
  pub refreshes : Bool
  pub removes : Bool
  pub clones : Bool
  -- The sync file can be written.
  pub marks : Bool

-- `root / relpath` as text, and `library_pull_max_age_hours`.
pub record Setup : Type 0 where
  pub place : Text → Text
  pub max_age_hours : ℕ

unfoldable pub relpath_of : Python → Fields → Option Text
relpath_of py fs =
    let path = entry_path py fs in if is_nil path || climbs path then none else some path

unfoldable pub library_relpath : Python → Json → Option Text
library_relpath py (object fs) = relpath_of py fs
library_relpath py j = none

-- The path, None, or an exception; with the disk as it is then.
pub data Ensured : Type 0 where
  at : Text → Ensured
  skipped : Ensured
  raised : Ensured

-- `_mark_synced`
abbrev pub marked : World → Option ℕ → Option ℕ
marked w before = if w.marks then some w.now else before

-- `synced is not None and max_age_hours > 0 and time.time() - synced < max_age_hours * 3600`
abbrev pub is_fresh : Setup → World → Option ℕ → Bool
is_fresh s w none = false
is_fresh s w (some t) = ltb 0 s.max_age_hours && ltb w.now (t + s.max_age_hours * 3600)

abbrev pub exists : Place → Bool
exists absent = false
exists (checkout remote synced) = true
exists other = true

abbrev pub reclone : World → Text → Text → Disk → Ensured × Disk
reclone w url dest disk =
    if exists (disk dest) && not w.removes
    then (raised, disk)
    else if w.clones
    then (at dest, replace_place dest (checkout url (marked w none)) disk)
    else (raised, replace_place dest absent disk)

-- A checkout of the url is at the destination.
abbrev pub resync : Setup → World → Text → Text → Option ℕ → Disk → Ensured × Disk
resync s w remote dest synced disk =
    if is_fresh s w synced
    then (at dest, disk)
    else if w.refreshes
    then (at dest, write dest (checkout remote (marked w synced)) disk)
    else (at dest, disk)

-- `dest.is_dir() and (dest / ".git").is_dir() and _same_remote(...)`, with its branches.
abbrev pub at_place : Setup → World → Text → Text → Place → Disk → Ensured × Disk
at_place s w url dest absent disk = reclone w url dest disk
at_place s w url dest other disk = reclone w url dest disk
at_place s w url dest (checkout remote synced) disk = elim w.remote [
  | readable ↦
      if text_eq (strip remote) url
      then resync s w remote dest synced disk
      else reclone w url dest disk
  | unreadable ↦ reclone w url dest disk
  | timed_out ↦ (raised, disk)
]

abbrev pub ensure_at : Setup → World → Text → Option Text → Disk → Ensured × Disk
ensure_at s w url none disk = (skipped, disk)
ensure_at s w url (some relpath) disk =
    if is_nil url
    then (skipped, disk)
    else at_place s w url (s.place relpath) (disk (s.place relpath)) disk

unfoldable pub ensure_library_checkout : Python → Setup → World → Json → Disk → Ensured × Disk
ensure_library_checkout py s w (object fs) disk =
    ensure_at s w (entry_url py fs) (relpath_of py fs) disk
ensure_library_checkout py s w j disk = (skipped, disk)

abbrev pub Mounts : Type 0
Mounts = List (Text × Text)

-- `seen` is the relpaths of the mounts.
abbrev pub mounted : Text → Option Text → List Text → Mounts → List Text × Mounts
mounted dest none seen mounts = (seen, mounts)
mounted dest (some relpath) seen mounts =
    if member relpath seen then (seen, mounts) else (relpath ∷ seen, mounts ++ (dest, relpath) ∷ [])

abbrev pub after_entry : Python → Json → Ensured → List Text → Mounts → Option (List Text × Mounts)
after_entry py entry (at dest) seen mounts =
    some (mounted dest (library_relpath py entry) seen mounts)
after_entry py entry skipped seen mounts = some (seen, mounts)
after_entry py entry raised seen mounts = none

-- The exception ends the loop.
abbrev pub or_raised :
    Option (List Text × Mounts)
    → Disk
    → (List Text × Mounts → Option Mounts × Disk)
    → Option Mounts × Disk
or_raised none disk rest = (none, disk)
or_raised (some done) disk rest = rest done

-- The loop of `ensure_libraries`; `world k` is what the entry meets that has k entries after it. No
-- mounts stand for an exception.
unfoldable pub ensure_each :
    Python → Setup → (ℕ → World) → List Json → Disk → List Text → Mounts → Option Mounts × Disk
ensure_each py s world [] disk seen mounts = (some mounts, disk)
ensure_each py s world (entry ∷ entries) disk seen mounts =
    let r = ensure_library_checkout py s (world (length entries)) entry disk in
    or_raised (after_entry py entry r.0 seen mounts) r.1
      (λ done. ensure_each py s world entries r.1 done.0 done.1)

abbrev pub ensure_normalized :
    Python → Setup → (ℕ → World) → Option (List Json) → Disk → Option Mounts × Disk
ensure_normalized py s world none disk = (none, disk)
ensure_normalized py s world (some entries) disk = ensure_each py s world entries disk [] []

unfoldable pub ensure_libraries :
    Python → Urls → Setup → (ℕ → World) → List Json → Disk → Option Mounts × Disk
ensure_libraries py urls s world entries disk =
    ensure_normalized py s world (normalize_extra_projects py urls entries) disk
