-- ===== src/Share/Fresh.antt =====
-- internal/share/share.go: an offer that is not refused has an id that no share of the list has.
use sandcastle_incus.Prelude.{
  ◌≡◌, refl, sym, ◌∙◌, ap, subst, Bool, true, false, not, ◌&&◌, List, [], ◌∷◌, if◌then◌else◌, some,
  exists, All, All-imp, Pairwise-snoc, All-of_exists_false, Bool-cases, inl, inr, Result, err, ok,
  fail_if, >>=-eq-ok, map_err, ||-eq-false,
}
use sandcastle_incus.Prelude.Text.{
  Text, codes, teq, eq_of_teq, teq_refl, trim_space, cut, has_char, trim_prefix,
}
use sandcastle_incus.Domain.{is_nil}
use sandcastle_incus.Naming.{
  NamingError, safe_name, project_name, validate_tenant_name, validate_project_name,
}
use sandcastle_incus.Naming.Shape.{safe_name-IsName, project_name-IsName}
use sandcastle_incus.Share.Types.{
  TenantStorageShare, Summary, ShareError, SourceStatus, World, no_colon, bad_name, bad_share_name,
}
use sandcastle_incus.Share.Names.{
  find_tenant, or_missing, or_else, parse_dir, parse_source, validate_share_name,
}
use sandcastle_incus.Share.Lists.{id_of}
use sandcastle_incus.Share.Create.{
  CreateRequest, Offer, named, share_name, check_create, share_of_offer, same_name, or_clock,
  plan_create, source_directory_status, v2_incus_project_name,
}
use sandcastle_incus.Share.Distinct.{IdsApart, IsDistinct-sort_shares}
use sandcastle_incus.Share.Outcome.{
  Outcome, Outcome-then_run, Outcome-lift, Outcome-get_tenant_shares, Outcome-unless,
  Outcome-return, Outcome-read, Outcome-same, Outcome-done,
}
use sandcastle_incus.Share.Ids.{IsWhole, IsWhole-of_has_char, IsWhole-of_name, share_id-inj}
use sandcastle_incus.Share.Invariant.{HasDistinctIds, set-Kept, or_clock-same}

checked :
    (b : Bool) (e : NamingError) {u : Unit {0}}
    → ◌≡◌ {A = Result ShareError (Unit {0})} (map_err bad_name (fail_if (not b) e)) (ok u)
    → b ≡ true
checked true e h = refl
checked false e h = cc

tenant-IsWhole :
    (s : Text) {u : Unit {0}}
    → ◌≡◌ {A = Result ShareError (Unit {0})} (map_err bad_name (validate_tenant_name s)) (ok u)
    → IsWhole s
unfolding validate_tenant_name
tenant-IsWhole s h = IsWhole-of_name s (safe_name-IsName s (checked (safe_name s) _ h)).0

project-IsWhole :
    (s : Text) {u : Unit {0}}
    → ◌≡◌ {A = Result ShareError (Unit {0})} (map_err bad_name (validate_project_name s)) (ok u)
    → IsWhole s
unfolding validate_project_name
project-IsWhole s h = IsWhole-of_name s (project_name-IsName s (checked (project_name s) _ h)).0

parse_source-IsWhole :
    (value : Text) (pair : Text × Text) → parse_source value ≡ ok pair → IsWhole pair.0
unfolding parse_source
parse_source-IsWhole value pair h =
    let ((p, raw), _, h₁) = >>=-eq-ok (or_else no_colon (cut b':' (trim_space value))) _ h in
    let (_, good, h₂) = >>=-eq-ok (map_err bad_name (validate_project_name p)) _ h₁ in
    let (dir, _, h₃) =
      >>=-eq-ok (parse_dir (trim_prefix (trim_space raw) (codes "/workspace/"))) _ h₂ in
    subst IsWhole (first_eq p dir pair h₃) (project-IsWhole p good)
  where
    first_eq :
        (p d : Text) (q : Text × Text)
        → ◌≡◌ {A = Result ShareError (Text × Text)} (ok (p, d)) (ok q)
        → p ≡ q.0
    first_eq p d q e = cc

pub passed : (b : Bool) (e : ShareError) {u : Unit {0}} → fail_if b e ≡ ok u → b ≡ false
passed true e h = cc
passed false e h = refl

validate_share_name-IsWhole : (s : Text) → validate_share_name s ≡ ok tt → IsWhole s
unfolding validate_share_name
validate_share_name-IsWhole s h =
    let (_, _, h₁) =
      >>=-eq-ok (map_err (λ _. bad_share_name s) (validate_project_name (trim_space s))) _ h in
    IsWhole-of_has_char s
      (||-eq-false (has_char b'.' s) (has_char b'/' s) (passed _ (bad_share_name s) h₁)).1

of_named :
    (chosen : Text) (r : Result ShareError (Unit {0})) (name : Text)
    → named chosen r ≡ ok name
    → (r ≡ ok tt) × (chosen ≡ name)
of_named chosen (err e) name h = cc
of_named chosen (ok tt) name h = (refl, cc)

of_either :
    (b : Bool) (f : ShareError → ShareError) (r : Result ShareError (Unit {0}))
    → (if b then map_err f r else r) ≡ ok tt
    → r ≡ ok tt
of_either true f (err e) h = cc
of_either true f (ok u) h = h
of_either false f r h = h

share_name-IsWhole : (wanted dir name : Text) → share_name wanted dir ≡ ok name → IsWhole name
unfolding share_name
share_name-IsWhole wanted dir name h =
    let (valid, same) = of_named _ _ name h in
    subst IsWhole same
      (validate_share_name-IsWhole _ (of_either (is_nil (trim_space wanted)) _ _ valid))

-- What is known of an offer that was not refused.
abbrev pub IsOffer : Offer → Type 0
IsOffer offer = IsWhole offer.source.tenant × IsWhole offer.project × IsWhole offer.name

given : (e : ShareError) (t s : Summary) → or_missing e (some t) ≡ ok s → t ≡ s
given e t s h = cc

find_tenant-tenant :
    (summaries : List Summary) (e : ShareError) (tenant : Text) (s : Summary)
    → or_missing e (find_tenant summaries tenant) ≡ ok s
    → s.tenant ≡ tenant
unfolding find_tenant
find_tenant-tenant [] e tenant s h = cc
find_tenant-tenant (t ∷ summaries) e tenant s h = elim (Bool-cases (teq t.tenant tenant)) [
  | inl same ↦
      ap (λ (x : Summary). x.tenant) (sym (given e t s (rw same at h))) ∙ eq_of_teq _ _ same
  | inr other ↦ find_tenant-tenant summaries e tenant s (rw other at h)
]

pub status_same : (n d : Text) (v : World) → (source_directory_status n d v).1 ≡ v
unfolding source_directory_status
status_same n d v = refl

check_create-IsOffer :
    (summaries : List Summary) (request : CreateRequest) (w : World)
    → Outcome (λ w'. w' ≡ w) (λ a w'. (w' ≡ w) × IsOffer a) (check_create summaries request w)
unfolding check_create
check_create-IsOffer summaries request w =
    let I = λ (w' : World). w' ≡ w in
    Outcome-lift I _ _ w _ refl λ (_ : Unit {0}) _.
      Outcome-lift I _ _ w _ refl λ (_ : Unit {0}) good.
        Outcome-lift I _ _ w _ refl λ (source : Summary) is.
          Outcome-lift I _ _ w _ refl λ (pair : Text × Text) read.
            Outcome-lift I _ _ w _ refl λ (_ : Unit {0}) _.
              Outcome-lift I _ _ w _ refl λ (name : Text) named.
                Outcome-lift I _ _ w _ refl λ (recipients : List Text) _.
                  Outcome-read I _ (λ _. Unit {0})
                    (source_directory_status (v2_incus_project_name source pair.0) pair.1 w) w _
                    (Outcome-same _ w (status_same (v2_incus_project_name source pair.0) pair.1 w))
                    refl
                    λ (status : SourceStatus) _. Outcome-lift I _ _ w _ refl λ (_ : Unit {0}) _.
                      Outcome-lift I _ _ w _ refl λ (_ : Unit {0}) _. Outcome-done I _ _ w (
                        refl,
                        (
                          subst IsWhole
                              (sym (
                                find_tenant-tenant summaries _ (trim_space request.source_tenant)
                                  source is))
                              (tenant-IsWhole (trim_space request.source_tenant) good),
                          parse_source-IsWhole request.source pair read,
                          share_name-IsWhole request.name pair.1 name named,
                        ),
                      )

-- No share with the offer's project and name stands in the list, so none has its id.
fresh :
    (offer : Offer) (actor now : Text) (existing : List TenantStorageShare)
    → IsOffer offer
    → exists (same_name offer.project offer.name) existing ≡ false
    → All (λ (s : TenantStorageShare). IdsApart s (share_of_offer offer actor now)) existing
fresh offer actor now existing (ht, hp, hn) free =
    All-imp _ _ existing (λ s e. apart s e)
      (All-of_exists_false (same_name offer.project offer.name) existing free)
  where
    clash :
        (p n : Text)
        → p ≡ offer.project
        → n ≡ offer.name
        → (teq p offer.project && teq n offer.name) ≡ false
        → ⊥
    clash p n ep en e =
        let e' : true ≡ false = rw (ep, en, teq_refl offer.project, teq_refl offer.name) at e in cc

    apart :
        (s : TenantStorageShare)
        → same_name offer.project offer.name s ≡ false
        → IdsApart s (share_of_offer offer actor now)
    apart s e = elim (Bool-cases (teq (id_of s) (id_of (share_of_offer offer actor now)))) [
      | inr other ↦ other
      | inl same ↦
          let (_, ep, en) =
            share_id-inj s.source_tenant s.source_project s.name offer.source.tenant offer.project
              offer.name ht hp hn (eq_of_teq _ _ same) in
          absurd (clash s.source_project s.name ep en e)
    ]

pub plan_create-Kept :
    (summaries : List Summary) (request : CreateRequest) (w : World)
    → HasDistinctIds w
    → Outcome HasDistinctIds (λ _. HasDistinctIds) (plan_create summaries request w)
unfolding plan_create
plan_create-Kept summaries request w h =
    Outcome-read HasDistinctIds _ IsOffer (check_create summaries request w) w _
      (check_create-IsOffer summaries request w) h
      λ (offer : Offer) f.
        Outcome-get_tenant_shares HasDistinctIds _ offer.source.incus_name w _ h (
          Outcome-lift HasDistinctIds _ _ w _ h λ (_ : Unit {0}) free.
            Outcome-read HasDistinctIds _ (λ _. Unit {0}) (or_clock request.now w) w _
              (Outcome-same _ w (or_clock-same request.now w)) h
              λ (now : Text) _.
                Outcome-then_run HasDistinctIds (λ _. HasDistinctIds) _ _ _
                  (Outcome-unless HasDistinctIds request.dry_run _ w h (
                    set-Kept offer.source.incus_name _ w h (
                      IsDistinct-sort_shares _ (
                        Pairwise-snoc IdsApart (w.shares offer.source.incus_name)
                          (share_of_offer offer (trim_space request.actor) now)
                          (h offer.source.incus_name)
                          (fresh offer (trim_space request.actor) now
                            (w.shares offer.source.incus_name) f (passed _ _ free))))))
                  λ (_ : Unit {0}) w' h'. Outcome-return HasDistinctIds _ w' h')
