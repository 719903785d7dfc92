-- ===== src/Examples/Clients.antt =====
-- The GitLab client of app/services/gitlab_client.py on a server that answers the third attempt.
use gitlab_reviewer.Prelude.{
  ℕ, false, some, none, ◌≡◌, refl, [], ◌∷◌, arith, ltb, if◌then◌else◌, Text, strip, strip_by,
  rstrip_by, drop_while,
}
use gitlab_reviewer.Models.{null}
use gitlab_reviewer.Secrets.{is_nil}
use gitlab_reviewer.Client.{
  Response, no_header, answered, max_retries, attempt, base_url, api_get, paginated_get,
}
use gitlab_reviewer.Client.Retries.{IsDecidedAt, api_get-IsDecidedAt}
use gitlab_reviewer.Client.Pages.{last_page, paginated_get-Serves}

abbrev busy : Response
busy = record { status_code = 429; text = []; listed = none; next_page = no_header }

abbrev two_items : Response
two_items = record {
  status_code = 200;
  text = [];
  listed = some (null ∷ null ∷ []);
  next_page = no_header;
}

-- The first two attempts are turned away.
abbrev third_time : ℕ → Response
third_time k = if ltb k 2 then busy else two_items

-- "g/"
abbrev url : Text
url = 103 ∷ 47 ∷ []

url-kept : is_nil (base_url url) ≡ false
unfolding strip strip_by rstrip_by drop_while
url-kept = refl

api_get-IsDecidedAt_example :
    (k : ℕ) × IsDecidedAt third_time 0 max_retries (api_get url third_time) k
api_get-IsDecidedAt_example = api_get-IsDecidedAt url third_time url-kept

third_answers : api_get url third_time ≡ answered two_items
unfolding api_get attempt strip strip_by rstrip_by drop_while
third_answers = refl

paginated_get-Serves_example :
    paginated_get 1 url (λ page. third_time) ≡ some (answered (null ∷ null ∷ []))
paginated_get-Serves_example =
    paginated_get-Serves url (λ page. third_time) 1 [] (null ∷ null ∷ [])
      (last_page two_items third_answers refl (omega arith)) (omega arith)
