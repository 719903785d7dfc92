-- ===== src/Libraries/Checkout.antt =====
-- What one call of `ensure_library_checkout` of app/orchestrator/libraries.py leaves on the disk, and
-- when it raises.
use gitlab_reviewer.Prelude.{
  ℕ, false, not, ◌&&◌, Option, none, some, ◌≡◌, refl, sym, ap, subst, ◌∙◌, inl, inr, if◌then◌else◌,
  Bool-cases, strip, strip-strip, Text, text_eq, codes,
}
use gitlab_reviewer.Models.{Json, Fields, object, null, boolean, number, string, array}
use gitlab_reviewer.Secrets.{is_nil}
use gitlab_reviewer.Podman.Allowed.{text_eq_self, text_eq_sound}
use gitlab_reviewer.Python.{Python, stripped, str_or_empty, get}
use gitlab_reviewer.ExtraProjects.{entry_url}
use gitlab_reviewer.Libraries.{
  Place, absent, checkout, other, Disk, write, is_inside, replace_place, Remote, readable,
  unreadable, timed_out, World, Setup, relpath_of, Ensured, at, skipped, raised, marked, is_fresh,
  exists, reclone, resync, at_place, ensure_at, ensure_library_checkout,
}

-- The place is a checkout whose origin is the url.
pub data IsCheckoutOf (url : Text) : Place → Type 0 where
  origin :
      (remote : Text) (synced : Option ℕ)
      → strip remote ≡ url
      → IsCheckoutOf url (checkout remote synced)

-- A url comes out of `strip`, and stripping it again changes nothing.
abbrev pub IsStripped : Text → Type 0
IsStripped url = strip url ≡ url

pub write-here : (dest : Text) (p : Place) (disk : Disk) → write dest p disk dest ≡ p
write-here dest p disk = rw (text_eq_self dest) refl

pub write-elsewhere :
    (dest path : Text) (p : Place) (disk : Disk)
    → text_eq path dest ≡ false
    → write dest p disk path ≡ disk path
write-elsewhere dest path p disk h = rw h refl

replace_place-here : (dest : Text) (p : Place) (disk : Disk) → replace_place dest p disk dest ≡ p
replace_place-here dest p disk = rw (text_eq_self dest) refl

-- The path is neither the destination nor inside it nor around it.
pub record IsElsewhere (dest path : Text) : Type 0 where
  pub differs : text_eq path dest ≡ false
  pub outside : is_inside dest path ≡ false
  pub beside : is_inside path dest ≡ false

replace_place-elsewhere :
    (dest path : Text) (p : Place) (disk : Disk)
    → IsElsewhere dest path
    → replace_place dest p disk path ≡ disk path
replace_place-elsewhere dest path p disk e = rw (e.differs, e.outside, e.beside) refl

-- The call returned the destination, which holds a checkout of the url, or raised; the places
-- elsewhere are as they were.
pub data Settles (url dest : Text) (disk : Disk) : Ensured × Disk → Type 0 where
  ensured :
      (disk' : Disk)
      → IsCheckoutOf url (disk' dest)
      → ((path : Text) → IsElsewhere dest path → disk' path ≡ disk path)
      → Settles url dest disk (at dest, disk')
  failed : (disk' : Disk) → Settles url dest disk (raised, disk')

module _ (s : Setup) (w : World) (url dest : Text) (clean : IsStripped url) (disk : Disk) where
  reclone-Settles : Settles url dest disk (reclone w url dest disk)
  reclone-Settles = elim (Bool-cases (exists (disk dest) && not w.removes)) [
    | inl t ↦ rw t (failed disk)
    | inr f ↦ elim (Bool-cases w.clones) [
      | inl c ↦
          rw (f, c)
            (ensured (replace_place dest (checkout url (marked w none)) disk)
              (subst (IsCheckoutOf url)
                (sym (replace_place-here dest (checkout url (marked w none)) disk))
                (origin url (marked w none) clean))
              (λ path h. replace_place-elsewhere dest path (checkout url (marked w none)) disk h))
      | inr c ↦ rw (f, c) (failed (replace_place dest absent disk))
    ]
  ]

  resync-Settles :
      (remote : Text) (synced : Option ℕ)
      → disk dest ≡ checkout remote synced
      → strip remote ≡ url
      → Settles url dest disk (resync s w remote dest synced disk)
  resync-Settles remote synced here same =
      let kept : IsCheckoutOf url (disk dest) =
        subst (IsCheckoutOf url) (sym here) (origin remote synced same) in
      elim (Bool-cases (is_fresh s w synced)) [
        | inl t ↦ rw t (ensured disk kept (λ path h. refl))
        | inr f ↦ elim (Bool-cases w.refreshes) [
          | inl c ↦
              rw (f, c)
                (ensured (write dest (checkout remote (marked w synced)) disk)
                  (subst (IsCheckoutOf url)
                    (sym (write-here dest (checkout remote (marked w synced)) disk))
                    (origin remote (marked w synced) same))
                  (λ path h.
                    write-elsewhere dest path (checkout remote (marked w synced)) disk h.differs))
          | inr c ↦ rw (f, c) (ensured disk kept (λ path h. refl))
        ]
      ]

  at_place-Settles :
      (p : Place) → disk dest ≡ p → Settles url dest disk (at_place s w url dest p disk)
  at_place-Settles absent here = reclone-Settles
  at_place-Settles other here = reclone-Settles
  at_place-Settles (checkout remote synced) here = by_remote w.remote
    where
      by_remote :
          (r : Remote)
          → Settles url dest disk (elim r [
            | readable ↦
                if text_eq (strip remote) url
                then resync s w remote dest synced disk
                else reclone w url dest disk
            | unreadable ↦ reclone w url dest disk
            | timed_out ↦ (raised, disk)
          ])
      by_remote readable = elim (Bool-cases (text_eq (strip remote) url)) [
        | inl t ↦ rw t (resync-Settles remote synced here (text_eq_sound (strip remote) url t))
        | inr f ↦ rw f reclone-Settles
      ]
      by_remote unreadable = reclone-Settles
      by_remote timed_out = failed disk

entry_url-IsStripped : (py : Python) (fs : Fields) → IsStripped (entry_url py fs)
unfolding stripped
entry_url-IsStripped py fs = strip-strip (str_or_empty py (get (codes "url") fs))

-- How a call on one entry ends.
pub data Ends (py : Python) (s : Setup) (disk : Disk) : Json → Ensured × Disk → Type 0 where
  passed_over : {entry : Json} → Ends py s disk entry (skipped, disk)
  settles :
      {r : Ensured × Disk} (fs : Fields) (relpath : Text)
      → relpath_of py fs ≡ some relpath
      → Settles (entry_url py fs) (s.place relpath) disk r
      → Ends py s disk (object fs) r

ensure_at-Ends :
    (py : Python) (s : Setup) (w : World) (fs : Fields) (relpath : Option Text) (disk : Disk)
    → relpath_of py fs ≡ relpath
    → Ends py s disk (object fs) (ensure_at s w (entry_url py fs) relpath disk)
ensure_at-Ends py s w fs none disk e = passed_over
ensure_at-Ends py s w fs (some relpath) disk e = elim (Bool-cases (is_nil (entry_url py fs))) [
  | inl t ↦ rw t passed_over
  | inr f ↦ rw f (
      settles fs relpath e (
        at_place-Settles s w (entry_url py fs) (s.place relpath) (entry_url-IsStripped py fs) disk
          (disk (s.place relpath)) refl))
]

pub ensure_library_checkout-Ends :
    (py : Python) (s : Setup) (w : World) (entry : Json) (disk : Disk)
    → Ends py s disk entry (ensure_library_checkout py s w entry disk)
unfolding ensure_library_checkout
ensure_library_checkout-Ends py s w (object fs) disk =
    ensure_at-Ends py s w fs (relpath_of py fs) disk refl
ensure_library_checkout-Ends py s w (array xs) disk = passed_over
ensure_library_checkout-Ends py s w (string t) disk = passed_over
ensure_library_checkout-Ends py s w (number n) disk = passed_over
ensure_library_checkout-Ends py s w (boolean b) disk = passed_over
ensure_library_checkout-Ends py s w null disk = passed_over

resync-at :
    (s : Setup) (w : World) (remote dest : Text) (synced : Option ℕ) (disk : Disk)
    → (resync s w remote dest synced disk).0 ≡ at dest
resync-at s w remote dest synced disk = elim (Bool-cases (is_fresh s w synced)) [
  | inl t ↦ rw t refl
  | inr f ↦ elim (Bool-cases w.refreshes) [ inl c ↦ rw (f, c) refl | inr c ↦ rw (f, c) refl ]
]

-- Where the entry has a usable path and a url, and its place is a checkout of that url whose origin git
-- can read, `ensure_library_checkout` returns the place, whether the refresh succeeds or fails.
pub ensure_library_checkout-at :
    (py : Python) (s : Setup) (w : World) (fs : Fields) (relpath remote : Text) (synced : Option ℕ)
    (disk : Disk)
    → relpath_of py fs ≡ some relpath
    → is_nil (entry_url py fs) ≡ false
    → disk (s.place relpath) ≡ checkout remote synced
    → strip remote ≡ entry_url py fs
    → w.remote ≡ readable
    → (ensure_library_checkout py s w (object fs) disk).0 ≡ at (s.place relpath)
unfolding ensure_library_checkout
ensure_library_checkout-at py s w fs relpath remote synced disk e u here same r =
    rw (e, u, here, r, ap (λ x. text_eq x (entry_url py fs)) same ∙ text_eq_self (entry_url py fs))
      (resync-at s w remote (s.place relpath) synced disk)
