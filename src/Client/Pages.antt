-- ===== src/Client/Pages.antt =====
-- The pages of `paginated_get` of app/services/gitlab_client.py.
use mathlib.Core.List.{append_assoc}
use mathlib.Core.List.{append-nil}
use gitlab_reviewer.Prelude.{
  ℕ, zero, suc, ◌+◌, ◌≤◌, ◌<◌, true, false, Option, some, ◌≡◌, refl, sym, ap, ◌∙◌, List, [], ◌∷◌,
  ◌++◌, arith, ltb, length, Text,
}
use gitlab_reviewer.Models.{Json}
use gitlab_reviewer.Client.{
  Response, Answer, answered, api_get, per_page, page_after, PageStep, leave, go_on, page_step,
  pages_from, paginated_get,
}

-- From the page on the server has these full pages, each with the header of the next page or none,
-- and then one that is not full.
pub data Serves (url : Text) (server : ℕ → ℕ → Response)
    : ℕ → List (List Json) → List Json → Type 0 where
  last_page :
      {page : ℕ} {items : List Json} (r : Response)
      → api_get url (server page) ≡ answered r
      → r.listed ≡ some items
      → length items < per_page
      → Serves url server page [] items
  full_page :
      {page : ℕ} {items last : List Json} {full : List (List Json)} (r : Response)
      → api_get url (server page) ≡ answered r
      → r.listed ≡ some items
      → per_page ≤ length items
      → page_after r.next_page page ≡ page + 1
      → Serves url server (page + 1) full last
      → Serves url server page (items ∷ full) last

abbrev pub concat : List (List Json) → List Json
concat [] = []
concat (p ∷ ps) = p ++ concat ps

last_step :
    (results items : List Json) (page : ℕ) (r : Response)
    → r.listed ≡ some items
    → length items < per_page
    → page_step results page (answered r) ≡ leave (answered (results ++ items))
last_step results [] page r e h = rw (e, append-nil results) refl
last_step results (x ∷ xs) page r e h =
    let t : ltb (length (x ∷ xs)) per_page ≡ true = ground (arith, h) in rw (e, t) refl

full_step :
    (results items : List Json) (page : ℕ) (r : Response)
    → r.listed ≡ some items
    → per_page ≤ length items
    → page_step results page (answered r) ≡ go_on (page_after r.next_page page) (results ++ items)
full_step results [] page r e h = absurd (omega (arith, h))
full_step results (x ∷ xs) page r e h =
    let f : ltb (length (x ∷ xs)) per_page ≡ false = ground (arith, h) in rw (e, f) refl

-- What follows the body of the loop.
abbrev follow : ℕ → Text → (ℕ → ℕ → Response) → PageStep → Option (Answer (List Json))
follow fuel url server (leave a) = some a
follow fuel url server (go_on next more) = pages_from fuel url server next more

pages_from-follow :
    (url : Text) (server : ℕ → ℕ → Response) (fuel page : ℕ) (results : List Json)
    → pages_from (suc fuel) url server page results
      ≡ follow fuel url server (page_step results page (api_get url (server page)))
unfolding pages_from
pages_from-follow url server fuel page results =
    elim_step (page_step results page (api_get url (server page)))
  where
    elim_step :
        (step : PageStep)
        → elim step [ leave a ↦ some a | go_on next more ↦ pages_from fuel url server next more ]
          ≡ follow fuel url server step
    elim_step (leave a) = refl
    elim_step (go_on next more) = refl

pages_from-step :
    (url : Text) (server : ℕ → ℕ → Response) (fuel page : ℕ) (results : List Json) (r : Response)
    (step : PageStep)
    → api_get url (server page) ≡ answered r
    → page_step results page (answered r) ≡ step
    → pages_from (suc fuel) url server page results ≡ follow fuel url server step
pages_from-step url server fuel page results r step a e =
    pages_from-follow url server fuel page results
    ∙ ap (follow fuel url server) (ap (page_step results page) a ∙ e)

-- Fuel for every page is enough.
pages_from-Serves :
    (url : Text) (server : ℕ → ℕ → Response) (fuel page : ℕ) (results : List Json)
    {full : List (List Json)} {last : List Json}
    → Serves url server page full last
    → length full < fuel
    → pages_from fuel url server page results ≡ some (answered (results ++ (concat full ++ last)))
pages_from-Serves url server zero page results s h = absurd (omega (arith, h))
pages_from-Serves url server (suc fuel) page results (last_page {items = items} r a e l) h =
    pages_from-step url server fuel page results r (leave (answered (results ++ items))) a
      (last_step results items page r e l)
pages_from-Serves url server (suc fuel) page results
      (full_page {items = items} {last = last} {full = full} r a e l n s) h =
    pages_from-step url server fuel page results r (go_on (page + 1) (results ++ items)) a
      (full_step results items page r e l ∙ ap (λ p. go_on p (results ++ items)) n)
    ∙ pages_from-Serves url server fuel (page + 1) (results ++ items) s (omega (arith, h))
    ∙ ap (λ x. some (answered x))
        (append_assoc results items (concat full ++ last)
          ∙ ap (λ x. results ++ x) (sym (append_assoc items (concat full) last)))

-- Where the server has full pages from 1 on, each followed by the next, and then one of fewer than
-- `per_page` items, `paginated_get` ends and returns the items of all pages in order.
pub paginated_get-Serves :
    (url : Text) (server : ℕ → ℕ → Response) (fuel : ℕ) (full : List (List Json)) (last : List Json)
    → Serves url server 1 full last
    → length full < fuel
    → paginated_get fuel url server ≡ some (answered (concat full ++ last))
unfolding paginated_get
paginated_get-Serves url server fuel full last s h = pages_from-Serves url server fuel 1 [] s h
