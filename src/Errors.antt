-- ===== src/Errors.antt =====
-- What the services raise: the `ValueError`s of app/services/scheduling.py and of
-- app/services/review_service.py (`cancel_inflight`), by their messages.
use gitlab_reviewer.Prelude.{ℕ, Bool, true, false, ◌≡◌, refl}
use gitlab_reviewer.Models.{JobStatus}

pub data ValueError : Type 0 where
  no_ids : ValueError
  not_all_queued : ValueError
  queue_changed : ValueError
  not_queued : ℕ → JobStatus → ValueError
  not_immediate : ℕ → ValueError
  not_nightly : ℕ → ValueError
  not_inflight : ℕ → JobStatus → ValueError

-- A value, or the error that left the call.
pub data Result {ℓ} (A : Type ℓ) : Type ℓ where
  err : ValueError → Result A
  ok : A → Result A

infixl 5 ◌>>◌
-- The call after a check runs only where the check was passed.
abbrev pub ◌>>◌ {ℓ} : {B : Type ℓ} → Result (Unit {0}) → Result B → Result B
err raised >> rest = err raised
ok passed >> rest = rest

-- `if not b: raise e`
abbrev pub require : Bool → ValueError → Result (Unit {0})
require false e = err e
require true e = ok tt

-- A check that was passed.
pub require_ok {ℓ} :
    {B : Type ℓ} (b : Bool) (e : ValueError) (k : Result B) {x : B}
    → (require b e >> k) ≡ ok x
    → (b ≡ true) × (k ≡ ok x)
require_ok true e k h = (refl, h)
require_ok false e k h = cc

pub then_ok {ℓ} :
    {B : Type ℓ} (m : Result (Unit {0})) (k : Result B) {x : B} → (m >> k) ≡ ok x → k ≡ ok x
then_ok (ok a) k h = h
then_ok (err e) k h = cc
