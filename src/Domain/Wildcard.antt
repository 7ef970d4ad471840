-- ===== src/Domain/Wildcard.antt =====
-- internal/domain/project_certificate.go: which names the certificate of a Project Domain covers.
use sandcastle_incus.Prelude.{
  ◌≡◌, ◌≢◌, ◌↔◌, refl, Bool, true, false, not, ◌&&◌, ◌||◌, [], ◌∷◌, ◌++◌, arith, All, ||-eq-false,
  &&-eq-true, if◌then◌else◌,
}
use sandcastle_incus.Prelude.Text.{
  Text, codes, has_char, has_suffix, contains_any, trim_suffix, has_suffix_elim, has_suffix_intro,
  trim_suffix-append,
}
use sandcastle_incus.Domain.Names.{is_nil, lower_trim_dots, covered_by_project_certificate}

-- A certificate's wildcard stands for one label: not empty, with no dot and no star.
abbrev pub IsWildcardLabel : Text → Type 0
IsWildcardLabel l = (l ≢ []) × All (λ c. (c ≢ b'.') × (c ≢ b'*')) l

abbrev pub CoveredName : Text → Text → Type 0
CoveredName h d = (d ≢ []) × ((l : Text) × (h ≡ l ++ b'.' ∷ d) × IsWildcardLabel l)

plain : (l : Text) → contains_any l (codes ".*") ≡ false → All (λ c. (c ≢ b'.') × (c ≢ b'*')) l
unfolding contains_any has_char
plain [] h = tt
plain (c ∷ l) h =
    let (hc, hl) = ||-eq-false (has_char c (codes ".*")) (contains_any l (codes ".*")) h in
    (ground arith, plain l hl)

plain_of_All :
    (l : Text) → All (λ c. (c ≢ b'.') × (c ≢ b'*')) l → contains_any l (codes ".*") ≡ false
unfolding contains_any has_char
plain_of_All [] h = refl
plain_of_All (c ∷ l) ((dot, star), h) = ground (arith, plain_of_All l h)

not_nil : (l : Text) → is_nil l ≡ false → l ≢ []
not_nil [] h = cc
not_nil (c ∷ l) h = cc

is_nil_of_ne : (l : Text) → l ≢ [] → is_nil l ≡ false
is_nil_of_ne [] h = absurd (h refl)
is_nil_of_ne (c ∷ l) h = refl

not-true : (b : Bool) → not b ≡ true → b ≡ false
not-true b h = ground arith

-- The two tests that a covered name passes.
tests_of_covered :
    (a b c : Bool)
    → (if a || not b then false else c) ≡ true
    → (a ≡ false) × (b ≡ true) × (c ≡ true)
tests_of_covered a b c h = ground arith

covered_label :
    (h d l : Text)
    → h ≡ l ++ b'.' ∷ d
    → (not (is_nil (trim_suffix h (b'.' ∷ d)))
        && not (contains_any (trim_suffix h (b'.' ∷ d)) (codes ".*")))
      ≡ true
    → IsWildcardLabel l
covered_label h d l e t =
    let (a, b) =
      &&-eq-true (not (is_nil l)) (not (contains_any l (codes ".*")))
        (rw (e, trim_suffix-append l (b'.' ∷ d)) at t) in
    (not_nil l (not-true _ a), plain l (not-true _ b))

-- The certificate of a Project Domain covers a hostname exactly when, normalised, the domain is
-- not empty and the hostname is one label without a dot or a star in front of the domain.
pub covered_iff :
    (hostname project_domain : Text)
    → (covered_by_project_certificate hostname project_domain ≡ true)
      ↔ CoveredName (lower_trim_dots hostname) (lower_trim_dots project_domain)
unfolding covered_by_project_certificate
covered_iff hostname project_domain =
    let h = lower_trim_dots hostname in
    let d = lower_trim_dots project_domain in
    (
      (λ t.
          let (some_domain, suffix, label) =
            tests_of_covered (is_nil d) (has_suffix h (b'.' ∷ d)) _ t in
          let (l, e) = has_suffix_elim h (b'.' ∷ d) suffix in
          (not_nil d some_domain, (l, e, covered_label h d l e label))),
      (λ c.
          let (l, e, (ne, chars)) = c.1 in
          rw (e, has_suffix_intro l (b'.' ∷ d), trim_suffix-append l (b'.' ∷ d))
            (rw (is_nil_of_ne d c.0, is_nil_of_ne l ne, plain_of_All l chars))),
    )
