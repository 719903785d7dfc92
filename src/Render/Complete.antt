-- ===== src/Render/Complete.antt =====
-- Nothing that the model says is lost in the markdown of app/services/result_render.py.
use mathlib.Core.List.{append_assoc, append-nil}
use gitlab_reviewer.Prelude.{
  true, ℤ, Option, some, none, ◌⊎◌, strip, decimal_int, ◌≡◌, refl, sym, ap, subst, ◌∙◌, inl, inr,
  List, [], ◌∷◌, ◌++◌, In, In-map, In-append, In-append_left, In-append_right, join, Text, codes,
}
use gitlab_reviewer.Models.{Json}
use gitlab_reviewer.Python.{Python, truthy}
use gitlab_reviewer.Results.{Finding, Findings, ReviewResult, parse_review_result}
use gitlab_reviewer.Render.{
  blank_line, newline, ref_of, finding_ref, ref_and_text, finding_text, heading, text_section,
  bullets, findings_section, sections, or_raw, render_raw, render_json, render_result_markdown,
}

-- The text stands in the other.
pub record IsWithin (t s : Text) : Type 0 where
  front : Text
  back : Text
  around : s ≡ front ++ (t ++ back)

IsWithin-self : (t : Text) → IsWithin t t
IsWithin-self t = record { front = []; back = []; around = sym (append-nil t) }

IsWithin-right : (a t s : Text) → IsWithin t s → IsWithin t (a ++ s)
IsWithin-right a t s w = record {
  front = a ++ w.front;
  back = w.back;
  around = ap (λ x. a ++ x) w.around ∙ sym (append_assoc a w.front (t ++ w.back));
}

IsWithin-left : (b t s : Text) → IsWithin t s → IsWithin t (s ++ b)
IsWithin-left b t s w = record {
  front = w.front;
  back = w.back ++ b;
  around =
      ap (λ x. x ++ b) w.around
      ∙ append_assoc w.front (t ++ w.back) b
      ∙ ap (λ x. w.front ++ x) (append_assoc t w.back b);
}

IsWithin-join :
    (sep t l : Text) (ls : List Text) → In l ls → IsWithin t l → IsWithin t (join sep ls)
unfolding join
IsWithin-join sep t l [] m w = absurd m
IsWithin-join sep t l (x ∷ []) (inl e) w = subst (IsWithin t) e w
IsWithin-join sep t l (x ∷ []) (inr m) w = absurd m
IsWithin-join sep t l (x ∷ y ∷ ls) (inl e) w =
    IsWithin-left (sep ++ join sep (y ∷ ls)) t x (subst (IsWithin t) e w)
IsWithin-join sep t l (x ∷ y ∷ ls) (inr m) w =
    IsWithin-right x t (sep ++ join sep (y ∷ ls))
      (IsWithin-right sep t (join sep (y ∷ ls)) (IsWithin-join sep t l (y ∷ ls) m w))

IsWithin-heading : (title t body : Text) → IsWithin t body → IsWithin t (heading title body)
IsWithin-heading title t body w =
    IsWithin-right (codes "## ") t (title ++ (blank_line ++ body))
      (IsWithin-right title t (blank_line ++ body) (IsWithin-right blank_line t body w))

-- Some section has the text.
abbrev Shown : Text → List Text → Type 0
Shown t ss = (s : Text) × In s ss × IsWithin t s

Shown-left : (t : Text) (a b : List Text) → Shown t a → Shown t (a ++ b)
Shown-left t a b (s, m, w) = (s, In-append_left a b s m, w)

Shown-right : (t : Text) (a b : List Text) → Shown t b → Shown t (a ++ b)
Shown-right t a b (s, m, w) = (s, In-append_right a b s m, w)

findings_section-Shown :
    (title : Text) (fs : List Finding) (f : Finding)
    → In f fs
    → Shown (codes "- " ++ finding_text f) (findings_section title fs)
unfolding bullets
findings_section-Shown title [] f m = absurd m
findings_section-Shown title (g ∷ fs) f m = (
  heading title (join newline (bullets (g ∷ fs))),
  inl refl,
  IsWithin-heading title (codes "- " ++ finding_text f) (join newline (bullets (g ∷ fs))) (
      IsWithin-join newline (codes "- " ++ finding_text f) (codes "- " ++ finding_text f)
        (bullets (g ∷ fs)) (In-map (λ x. codes "- " ++ finding_text x) (g ∷ fs) f m)
        (IsWithin-self (codes "- " ++ finding_text f))),
)

-- The findings of all severities.
abbrev pub all_findings : Findings → List Finding
all_findings f = f.critical ++ (f.important ++ (f.minor ++ f.positive))

sections-Shown :
    (r : ReviewResult) (f : Finding)
    → In f (all_findings r.findings)
    → Shown (codes "- " ++ finding_text f) (sections r)
unfolding sections
sections-Shown r f m =
    Shown-right (codes "- " ++ finding_text f) (text_section (codes "Summary") r.summary) _
      (elim (In-append r.findings.critical _ f m) [
        | inl c ↦
            Shown-left (codes "- " ++ finding_text f) _ _
              (findings_section-Shown (codes "Critical") r.findings.critical f c)
        | inr m1 ↦
            Shown-right (codes "- " ++ finding_text f)
              (findings_section (codes "Critical") r.findings.critical) _
              (elim (In-append r.findings.important _ f m1) [
                | inl i ↦
                    Shown-left (codes "- " ++ finding_text f) _ _
                      (findings_section-Shown (codes "Important") r.findings.important f i)
                | inr m2 ↦
                    Shown-right (codes "- " ++ finding_text f)
                      (findings_section (codes "Important") r.findings.important) _
                      (elim (In-append r.findings.minor r.findings.positive f m2) [
                        | inl n ↦
                            Shown-left (codes "- " ++ finding_text f) _ _
                              (findings_section-Shown (codes "Minor") r.findings.minor f n)
                        | inr p ↦
                            Shown-right (codes "- " ++ finding_text f)
                              (findings_section (codes "Minor") r.findings.minor) _
                              (Shown-left (codes "- " ++ finding_text f) _ _
                                (findings_section-Shown (codes "Positive") r.findings.positive f p))
                      ])
              ])
      ])

or_raw-IsWithin : (t raw : Text) (ss : List Text) → Shown t ss → IsWithin t (or_raw ss raw)
or_raw-IsWithin t raw [] (s, m, w) = absurd m
or_raw-IsWithin t raw (x ∷ ss) (s, m, w) =
    IsWithin-left newline t (join blank_line (x ∷ ss)) (IsWithin-join blank_line t s (x ∷ ss) m w)

-- The reference of a finding has its file and its line.
pub record IsRef (f : Finding) (ref : Text) : Type 0 where
  file : IsWithin (strip f.file) ref
  line : (n : ℤ) → f.line ≡ some n → IsWithin (decimal_int n) ref

ref_of-file : (file : Text) (line : Option ℤ) → IsWithin file (ref_of file line)
unfolding ref_of
ref_of-file [] none = IsWithin-self []
ref_of-file [] (some n) = record {
  front = [];
  back = codes "[line " ++ (decimal_int n ++ codes "]");
  around = refl;
}
ref_of-file (c ∷ file) none = record { front = codes "["; back = codes "]"; around = refl }
ref_of-file (c ∷ file) (some n) = record {
  front = codes "[";
  back = codes ":" ++ (decimal_int n ++ codes "]");
  around = refl;
}

ref_of-line : (file : Text) (n : ℤ) → IsWithin (decimal_int n) (ref_of file (some n))
unfolding ref_of
ref_of-line [] n = record { front = codes "[line "; back = codes "]"; around = refl }
ref_of-line (c ∷ file) n =
    IsWithin-right (codes "[") (decimal_int n)
      ((c ∷ file) ++ (codes ":" ++ (decimal_int n ++ codes "]")))
      (IsWithin-right (c ∷ file) (decimal_int n) (codes ":" ++ (decimal_int n ++ codes "]"))
        record { front = codes ":"; back = codes "]"; around = refl })

finding_ref-IsRef : (f : Finding) → IsRef f (finding_ref f)
unfolding finding_ref
finding_ref-IsRef f = record {
  file = ref_of-file (strip f.file) f.line;
  line = λ n e.
      subst (λ l. IsWithin (decimal_int n) (ref_of (strip f.file) l)) (sym e)
        (ref_of-line (strip f.file) n);
}

-- Nothing or one space.
pub IsGap : Text → Type 0
IsGap gap = (gap ≡ []) ⊎ (gap ≡ codes " ")

ref_and_text-parts :
    (ref description : Text)
    → (gap : Text) × IsGap gap × (ref_and_text ref description ≡ ref ++ (gap ++ description))
unfolding IsGap
ref_and_text-parts [] description = ([], inl refl, refl)
ref_and_text-parts (c ∷ ref) [] = ([], inl refl, sym (append-nil (c ∷ ref)))
ref_and_text-parts (c ∷ ref) (d ∷ description) = (codes " ", inr refl, refl)

-- A list item with the reference of the finding and then its description stands in the text.
pub IsListed : Finding → Text → Type 0
IsListed f s =
    (ref gap : Text) × IsRef f ref
    × IsGap gap
    × IsWithin (codes "- " ++ (ref ++ (gap ++ strip f.description))) s

item-IsListed : (f : Finding) (s : Text) → IsWithin (codes "- " ++ finding_text f) s → IsListed f s
unfolding finding_text IsListed
item-IsListed f s w =
    let (gap, g, e) = ref_and_text-parts (finding_ref f) (strip f.description) in
    (finding_ref f, gap, finding_ref-IsRef f, g, subst (λ t. IsWithin (codes "- " ++ t) s) e w)

-- Where the result is not empty, every finding of every severity that is parsed out of it stands in
-- the markdown as a list item: a reference with its file and, where it has one, its line, then nothing
-- or a space, then its description. The file and the description are stripped.
pub render_result_markdown-IsListed :
    (py : Python) (j : Json) (raw run_error : Option Text) (f : Finding)
    → truthy py j ≡ true
    → In f (all_findings (parse_review_result py j).findings)
    → IsListed f (render_result_markdown py (some j) raw run_error)
unfolding render_result_markdown render_json
render_result_markdown-IsListed py j raw run_error f t m = rw t (
    item-IsListed f (or_raw (sections (parse_review_result py j)) (render_raw raw run_error)) (
      or_raw-IsWithin (codes "- " ++ finding_text f) (render_raw raw run_error)
        (sections (parse_review_result py j)) (sections-Shown (parse_review_result py j) f m)))
