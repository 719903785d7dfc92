-- ===== src/Client.antt =====
-- app/services/gitlab_client.py: `api_get` with its retries and `paginated_get`. What the server
-- answers to each attempt is a parameter; the delays between attempts are not modelled.
pub mod Retries
pub mod Pages
use gitlab_reviewer.Prelude.{
  ℕ, zero, suc, ◌+◌, Bool, true, false, ◌||◌, Option, none, some, List, [], ◌∷◌, ◌++◌, ltb, leb,
  ◌==◌, if◌then◌else◌, length, Text, rstrip_by, strip, cut, is_slash,
}
use gitlab_reviewer.Models.{Json}
use gitlab_reviewer.Secrets.{is_nil}

-- The header x-next-page, as `int` reads it.
pub data NextPage : Type 0 where
  no_header : NextPage
  number : ℕ → NextPage
  junk : NextPage

pub record Response : Type 0 where
  pub status_code : ℕ
  pub text : Text
  -- `resp.json()` where it is a list.
  pub listed : Option (List Json)
  pub next_page : NextPage

-- The `GitLabError`s of `api_get`, by what their messages tell.
pub data GitLabError : Type 0 where
  no_url : GitLabError
  gave_up : ℕ → ℕ → Text → GitLabError
  refused : ℕ → Text → GitLabError

pub data Answer {ℓ} (A : Type ℓ) : Type ℓ where
  answered : A → Answer A
  raised : GitLabError → Answer A

abbrev pub max_retries : ℕ
max_retries = 3

-- `_ERROR_SNIPPET`
abbrev pub error_snippet : ℕ
error_snippet = 300

abbrev pub is_retried : Response → Bool
is_retried r = r.status_code == 429 || leb 500 r.status_code

-- `resp.ok`
abbrev pub is_ok : Response → Bool
is_ok r = ltb r.status_code 400

abbrev pub settled : Response → Answer Response
settled r =
    if is_ok r then answered r else raised (refused r.status_code (cut error_snippet r.text))

-- The loop at its k-th retry, with the retries that are left.
unfoldable pub attempt : (ℕ → Response) → ℕ → ℕ → Answer Response
attempt send zero k =
    if is_retried (send k)
    then raised (gave_up (send k).status_code k (cut error_snippet (send k).text))
    else settled (send k)
attempt send (suc left) k =
    let again = attempt send left (k + 1) in if is_retried (send k) then again else settled (send k)

-- `settings.gitlab_url.strip().rstrip("/")`
abbrev pub base_url : Text → Text
base_url url = rstrip_by is_slash (strip url)

-- `send k` is the answer to the k-th attempt.
unfoldable pub api_get : Text → (ℕ → Response) → Answer Response
api_get url send = if is_nil (base_url url) then raised no_url else attempt send max_retries 0

abbrev pub per_page : ℕ
per_page = 100

abbrev pub page_after : NextPage → ℕ → ℕ
page_after no_header page = page + 1
page_after (number n) page = n
page_after junk page = page + 1

-- What the body of the loop decides: to leave it, or the next page and the results so far.
pub data PageStep : Type 0 where
  leave : Answer (List Json) → PageStep
  go_on : ℕ → List Json → PageStep

abbrev pub page_listed : List Json → ℕ → Option (List Json) → NextPage → PageStep
page_listed results page none next = leave (answered results)
page_listed results page (some []) next = leave (answered results)
page_listed results page (some (x ∷ xs)) next =
    if ltb (length (x ∷ xs)) per_page
    then leave (answered (results ++ x ∷ xs))
    else go_on (page_after next page) (results ++ x ∷ xs)

abbrev pub page_step : List Json → ℕ → Answer Response → PageStep
page_step results page (raised e) = leave (raised e)
page_step results page (answered r) = page_listed results page r.listed r.next_page

-- `server p k` answers the k-th attempt at page p. The loop has no bound of its own: where the fuel
-- runs out there is no result.
unfoldable pub pages_from :
    ℕ → Text → (ℕ → ℕ → Response) → ℕ → List Json → Option (Answer (List Json))
pages_from zero url server page results = none
pages_from (suc fuel) url server page results =
    elim (page_step results page (api_get url (server page))) [
      | leave a ↦ some a
      | go_on next more ↦ pages_from fuel url server next more
    ]

unfoldable pub paginated_get : ℕ → Text → (ℕ → ℕ → Response) → Option (Answer (List Json))
paginated_get fuel url server = pages_from fuel url server 1 []
