-- ===== src/Runner/Leak.antt =====
-- What `log` of containers/review-runner/entrypoint.py writes for a secret with an escape sequence in it.
use mathlib.Core.Bool.{false≢true}
use mathlib.Core.List.{append_assoc}
use gitlab_reviewer.Prelude.{
  ℕ, ◌-◌, true, false, none, some, ◌≡◌, refl, sym, ap, ◌∙◌, ◌≢◌, inl, inr, [], ◌∷◌, ◌++◌, arith,
  Bool-cases, length, length-append, All, Text, List, In,
}
use gitlab_reviewer.Secrets.{starts_with, stars, replace_from, replace, scrub, runner_secrets, Env}
use gitlab_reviewer.Secrets.Absent.{occurs, occurs-head}
use gitlab_reviewer.Runner.Log.{ansi_at, strip_from, strip_ansi, log_message}

abbrev pub IsEscapeFree : Text → Type 0
IsEscapeFree t = All (λ c. c ≢ 27) t

starts_with-append : (s t : Text) → starts_with s (s ++ t) ≡ true
unfolding starts_with
starts_with-append [] t = refl
starts_with-append (c ∷ s) t = ground (arith, starts_with-append s t)

occurs-middle : (x s y : Text) → occurs s (x ++ (s ++ y)) ≡ true
unfolding occurs
occurs-middle [] s y = occurs-head s (s ++ y) (starts_with-append s y)
occurs-middle (c ∷ x) s y = elim (Bool-cases (starts_with s (c ∷ x ++ (s ++ y)))) [
  | inl t ↦ rw t refl
  | inr f ↦ rw f (occurs-middle x s y)
]

-- A text without the old one is left as it is.
replace_from-none : (old new t : Text) → occurs old t ≡ false → replace_from 0 old new t ≡ t
unfolding occurs replace_from
replace_from-none old new [] h = refl
replace_from-none old new (c ∷ t) h = elim (Bool-cases (starts_with old (c ∷ t))) [
  | inl e ↦ absurd (false≢true (sym (rw e at h)))
  | inr f ↦ rw f (ap (◌∷◌ c) (replace_from-none old new t (rw f at h)))
]

ansi_at-none : (c : ℕ) (cs : Text) → c ≢ 27 → ansi_at (c ∷ cs) ≡ none
unfolding ansi_at
ansi_at-none c cs h = ground arith

strip_from-plain :
    (c : ℕ) (cs : Text) → ansi_at (c ∷ cs) ≡ none → strip_from 0 (c ∷ cs) ≡ c ∷ strip_from 0 cs
unfolding strip_from
strip_from-plain c cs h = rw (h, strip_from) refl

strip_from-match :
    (c : ℕ) (cs rest : Text)
    → ansi_at (c ∷ cs) ≡ some rest
    → strip_from 0 (c ∷ cs) ≡ strip_from (length cs - length rest) cs
unfolding strip_from
strip_from-match c cs rest h = rw (h, strip_from) refl

strip_from-append : (a t : Text) → IsEscapeFree a → strip_from 0 (a ++ t) ≡ a ++ strip_from 0 t
strip_from-append [] t free = refl
strip_from-append (c ∷ a) t free =
    strip_from-plain c (a ++ t) (ansi_at-none c (a ++ t) free.0)
    ∙ ap (◌∷◌ c) (strip_from-append a t free.1)

-- Where it starts a text, `_ANSI_RE` matches it and no more, whatever follows.
abbrev pub IsSequence : Text → Type 0
IsSequence e = (t : Text) → ansi_at (e ++ t) ≡ some t

strip_from-skip : (e t : Text) → strip_from (length e) (e ++ t) ≡ strip_from 0 t
unfolding strip_from
strip_from-skip [] t = refl
strip_from-skip (c ∷ e) t = strip_from-skip e t

strip_from-sequence :
    (c : ℕ) (e t : Text) → IsSequence (c ∷ e) → strip_from 0 ((c ∷ e) ++ t) ≡ strip_from 0 t
strip_from-sequence c e t m =
    let h = length-append e t in
    let k : length (e ++ t) - length t ≡ length e = omega (arith, h) in
    strip_from-match c (e ++ t) t (m t) ∙ ap (λ n. strip_from n (e ++ t)) k ∙ strip_from-skip e t

scrub-none :
    (secrets : List Text) (t : Text) → All (λ s. occurs s t ≡ false) secrets → scrub secrets t ≡ t
unfolding scrub replace
scrub-none [] t h = refl
scrub-none (s ∷ secrets) t h =
    ap (scrub secrets) (replace_from-none s stars t h.0) ∙ scrub-none secrets t h.1

-- A message with the two parts of a secret around an escape sequence.
abbrev pub split_by : Text → Text → Text → Text → Text → Text
split_by e front a b back = front ++ (a ++ (e ++ (b ++ back)))

strip_ansi-split_by :
    (c : ℕ) (e front a b back : Text)
    → IsSequence (c ∷ e)
    → IsEscapeFree front
    → IsEscapeFree a
    → IsEscapeFree b
    → strip_ansi (split_by (c ∷ e) front a b back) ≡ front ++ (a ++ (b ++ strip_ansi back))
unfolding strip_ansi
strip_ansi-split_by c e front a b back m f g h =
    strip_from-append front (a ++ ((c ∷ e) ++ (b ++ back))) f
    ∙ ap (λ t. front ++ t)
        (strip_from-append a ((c ∷ e) ++ (b ++ back)) g
          ∙ ap (λ t. a ++ t) (strip_from-sequence c e (b ++ back) m ∙ strip_from-append b back h))

-- Where a message has the two parts of a secret of the run around an escape sequence, and no secret of
-- the run stands in it whole, `log` writes the secret whole: the line is the text before the secret,
-- its two parts without the sequence, and the rest stripped. The text before it and its parts have no
-- escape character.
pub log_message_leaks :
    (env : Env) (c : ℕ) (e front a b back : Text)
    → In (a ++ b) (runner_secrets env)
    → All (λ s. occurs s (split_by (c ∷ e) front a b back) ≡ false) (runner_secrets env)
    → IsSequence (c ∷ e)
    → IsEscapeFree front
    → IsEscapeFree a
    → IsEscapeFree b
    → (log_message env (split_by (c ∷ e) front a b back) ≡ front ++ ((a ++ b) ++ strip_ansi back))
      × ((secret : Text) × In secret (runner_secrets env)
          × (occurs secret (log_message env (split_by (c ∷ e) front a b back)) ≡ true))
unfolding log_message
log_message_leaks env c e front a b back given clean m f g h =
    let line =
      ap strip_ansi (scrub-none (runner_secrets env) (split_by (c ∷ e) front a b back) clean)
      ∙ strip_ansi-split_by c e front a b back m f g h
      ∙ ap (λ t. front ++ t) (sym (append_assoc a b (strip_ansi back))) in
    (
      line,
      (a ++ b, given, ap (occurs (a ++ b)) line ∙ occurs-middle front (a ++ b) (strip_ansi back)),
    )
