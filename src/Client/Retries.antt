-- ===== src/Client/Retries.antt =====
-- The retries of `api_get` of app/services/gitlab_client.py.
use native.Mathlib.Decide.{ℕ_discrete}
use gitlab_reviewer.Prelude.{
  ℕ, zero, suc, ◌+◌, ◌≤◌, ◌<◌, true, false, ◌≡◌, refl, sym, subst, ◌⊎◌, inl, inr, arith, Bool-cases,
  Text, cut,
}
use gitlab_reviewer.Secrets.{is_nil}
use gitlab_reviewer.Client.{
  Response, gave_up, Answer, raised, max_retries, error_snippet, is_retried, settled, attempt,
  base_url, api_get,
}

-- The call is decided by the k-th answer: all before it asked for a retry, and it is the first that does
-- not, or the retries are used up.
pub record IsDecidedAt (send : ℕ → Response) (first last : ℕ) (a : Answer Response) (k : ℕ)
    : Type 0 where
  pub from : first ≤ k
  pub until : k ≤ last
  pub retried : (j : ℕ) → first ≤ j → j < k → is_retried (send j) ≡ true
  pub result :
      ((is_retried (send k) ≡ false) × (a ≡ settled (send k)))
      ⊎ ((k ≡ last)
          × (is_retried (send k) ≡ true)
          × (a ≡ raised (gave_up (send k).status_code k (cut error_snippet (send k).text))))

attempt-IsDecidedAt :
    (send : ℕ → Response) (left first : ℕ)
    → (k : ℕ) × IsDecidedAt send first (first + left) (attempt send left first) k
unfolding attempt
attempt-IsDecidedAt send zero first = elim (Bool-cases (is_retried (send first))) [
  | inl t ↦ (
    first,
    record {
      from = omega arith;
      until = omega arith;
      retried = λ j l h. absurd (omega (arith, l, h));
      result = inr ((omega arith), t, rw t);
    },
  )
  | inr f ↦ (
    first,
    record {
      from = omega arith;
      until = omega arith;
      retried = λ j l h. absurd (omega (arith, l, h));
      result = inl (f, rw f);
    },
  )
]
attempt-IsDecidedAt send (suc left) first = elim (Bool-cases (is_retried (send first))) [
  | inl t ↦
      let (k, d) = attempt-IsDecidedAt send left (first + 1) in
      let same : attempt send (suc left) first ≡ attempt send left (first + 1) =
        rw (t, attempt) refl in
      let bound : (first + 1) + left ≡ first + suc left = omega arith in
      (
        k,
        subst (λ a. IsDecidedAt send first (first + suc left) a k) (sym same)
            (subst (λ last. IsDecidedAt send first last (attempt send left (first + 1)) k) bound
              (record {
                from = omega (arith, d.from);
                until = d.until;
                retried = λ j l h. earlier t k d j l h;
                result = d.result;
              })),
      )
  | inr f ↦ (
    first,
    record {
      from = omega arith;
      until = omega arith;
      retried = λ j l h. absurd (omega (arith, l, h));
      result = inl (f, rw (f, attempt) refl);
    },
  )
]
  where
    earlier :
        is_retried (send first) ≡ true
        → (k : ℕ)
        → IsDecidedAt send (first + 1) ((first + 1) + left) (attempt send left (first + 1)) k
        → (j : ℕ) → first ≤ j
        → j < k
        → is_retried (send j) ≡ true
    earlier t k d j l h = elim (ℕ_discrete first j) [
      | yes e ↦ subst (λ i. is_retried (send i) ≡ true) e t
      | no ne ↦ d.retried j (omega (arith, l, ne)) h
    ]

-- With a base URL, `api_get` sends at most `MAX_RETRIES` + 1 requests: the answer k that decides it
-- comes after answers that asked for a retry, and is the first that does not, or the last allowed.
pub api_get-IsDecidedAt :
    (url : Text) (send : ℕ → Response)
    → is_nil (base_url url) ≡ false
    → (k : ℕ) × IsDecidedAt send 0 max_retries (api_get url send) k
unfolding api_get
api_get-IsDecidedAt url send h = rw h (attempt-IsDecidedAt send max_retries 0)
