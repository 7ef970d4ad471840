-- ===== src/Share/Granted.antt =====
-- internal/share/share.go: what an offer has done when it returns.
use sandcastle_incus.Prelude.{
  ◌≡◌, refl, subst, Bool, true, false, List, [], ◌∷◌, ◌++◌, map, length, if◌then◌else◌, Option,
  none, some, exists, All, All-append, Result, ok, map_err, >>=-eq-ok, fail_if-eq-ok, ◌==◌,
}
use sandcastle_incus.Prelude.Text.{Text, teq, text_lt, trim_space}
use sandcastle_incus.Naming.{validate_tenant_name}
use sandcastle_incus.Share.Types.{
  TenantStorageShare, TenantStorageShareRecipient, Summary, ShareError, SourceStatus, World,
  with_shares, recipient_state_pending, bad_name, self_offer, recipients_required,
  recipient_not_found,
}
use sandcastle_incus.Share.Names.{find_tenant, or_missing, collect_recipients, normalize_recipients}
use sandcastle_incus.Share.Lists.{sort_shares}
use sandcastle_incus.Share.Create.{
  CreateRequest, Offer, offer_to, share_of_offer, same_name, or_clock, check_create, plan_create,
  source_directory_status, v2_incus_project_name,
}
use sandcastle_incus.Share.Distinct.{All-sort_with}
use sandcastle_incus.Share.Outcome.{
  Outcome, Outcome-then_run, Outcome-lift, Outcome-get_tenant_shares, Outcome-unless_wet,
  Outcome-set_tenant_shares_to, Outcome-read, Outcome-same, Outcome-done, of_returned,
}
use sandcastle_incus.Share.Below.{IsPlain, parse_source-IsPlain}
use sandcastle_incus.Share.Fresh.{passed, status_same}
use sandcastle_incus.Share.Invariant.{or_clock-same}
use sandcastle_incus.Share.Gone.{Anything}

-- Another tenant than the source, and one that exists.
abbrev pub IsRecipient : List Summary → Text → Text → Type 0
IsRecipient summaries source tenant =
    (teq tenant source ≡ false) × ((s : Summary) × (find_tenant summaries tenant ≡ some s))

module _ (source : Text) (summaries : List Summary) where
  there : (e : ShareError) (o : Option Summary) (s : Summary) → or_missing e o ≡ ok s → o ≡ some s
  there e none s h = cc
  there e (some t) s h = cc

  collect-IsRecipient :
      (input output out : List Text)
      → All (IsRecipient summaries source) output
      → collect_recipients source summaries output input ≡ ok out
      → All (IsRecipient summaries source) out
  unfolding collect_recipients
  collect-IsRecipient [] output out h e =
      subst (All (IsRecipient summaries source)) (list_eq output out e) h
    where
      list_eq :
          (xs ys : List Text) → ◌≡◌ {A = Result ShareError (List Text)} (ok xs) (ok ys) → xs ≡ ys
      list_eq xs ys g = cc
  collect-IsRecipient (raw ∷ rest) output out h e =
      let t = trim_space raw in
      let (_, _, e₁) = >>=-eq-ok (map_err bad_name (validate_tenant_name t)) _ e in
      let (other, e₂) = fail_if-eq-ok (teq t source) self_offer _ e₁ in
      let (s, found, e₃) =
        >>=-eq-ok (or_missing (recipient_not_found t) (find_tenant summaries t)) _ e₂ in
      collect-IsRecipient rest (if exists (teq t) output then output else output ++ t ∷ []) out
        (added (exists (teq t) output) t (other, (s, there _ _ s found))) e₃
    where
      added :
          (b : Bool) (t : Text)
          → IsRecipient summaries source t
          → All (IsRecipient summaries source) (if b then output else output ++ t ∷ [])
      added true t ht = h
      added false t ht = All-append (IsRecipient summaries source) output (t ∷ []) h (ht, tt)

  normalize-IsRecipient :
      (input out : List Text)
      → normalize_recipients input source summaries ≡ ok out
      → All (IsRecipient summaries source) out
  unfolding normalize_recipients
  normalize-IsRecipient input out e =
      let (output, collected, e₁) = >>=-eq-ok (collect_recipients source summaries [] input) _ e in
      let (_, e₂) = fail_if-eq-ok (length output == 0) recipients_required _ e₁ in
      subst (All (IsRecipient summaries source)) (list_eq _ out e₂) (
        All-sort_with (IsRecipient summaries source) text_lt output
          (collect-IsRecipient input [] output tt collected))
    where
      list_eq :
          (xs ys : List Text) → ◌≡◌ {A = Result ShareError (List Text)} (ok xs) (ok ys) → xs ≡ ys
      list_eq xs ys g = cc

-- What was checked of an offer.
abbrev pub IsChecked : List Summary → CreateRequest → Offer → Type 0
IsChecked summaries request offer =
    (find_tenant summaries (trim_space request.source_tenant) ≡ some offer.source)
    × IsPlain offer.dir
    × All (IsRecipient summaries (trim_space request.source_tenant)) offer.recipients

check_create-IsChecked :
    (summaries : List Summary) (request : CreateRequest) (w : World)
    → Outcome
        (λ w'. w' ≡ w)
        (λ a w'. (w' ≡ w) × IsChecked summaries request a)
        (check_create summaries request w)
unfolding check_create
check_create-IsChecked summaries request w =
    let I = λ (w' : World). w' ≡ w in
    Outcome-lift I _ _ w _ refl λ (_ : Unit {0}) _.
      Outcome-lift I _ _ w _ refl λ (_ : Unit {0}) good.
        Outcome-lift I _ _ w _ refl λ (source : Summary) is.
          Outcome-lift I _ _ w _ refl λ (pair : Text × Text) read.
            Outcome-lift I _ _ w _ refl λ (_ : Unit {0}) _.
              Outcome-lift I _ _ w _ refl λ (name : Text) named.
                Outcome-lift I _ _ w _ refl λ (recipients : List Text) wanted.
                  Outcome-read I _ (λ _. Unit {0})
                    (source_directory_status (v2_incus_project_name source pair.0) pair.1 w) w _
                    (Outcome-same _ w (status_same (v2_incus_project_name source pair.0) pair.1 w))
                    refl
                    λ (status : SourceStatus) _. Outcome-lift I _ _ w _ refl λ (_ : Unit {0}) _.
                      Outcome-lift I _ _ w _ refl λ (_ : Unit {0}) _. Outcome-done I _ _ w (
                        refl,
                        (
                          there (trim_space request.source_tenant) summaries _ _ source is,
                          parse_source-IsPlain request.source pair.0 pair.1 read,
                          normalize-IsRecipient (trim_space request.source_tenant) summaries
                              request.recipients recipients wanted,
                        ),
                      )

-- A pending entry of another tenant that exists.
abbrev pub IsOpen : List Summary → Text → TenantStorageShareRecipient → Type 0
IsOpen summaries source r =
    (r.state ≡ recipient_state_pending) × IsRecipient summaries source r.tenant

All-IsOpen :
    (summaries : List Summary) (source actor now : Text) (recipients : List Text)
    → All (IsRecipient summaries source) recipients
    → All (IsOpen summaries source) (map (offer_to actor now) recipients)
All-IsOpen summaries source actor now [] h = tt
All-IsOpen summaries source actor now (t ∷ recipients) (ht, h) =
    ((refl, ht), All-IsOpen summaries source actor now recipients h)

-- The share was added to the list of its source, where no other has its project and name.
abbrev pub IsCreated : List Summary → CreateRequest → World → TenantStorageShare → World → Type 0
IsCreated summaries request w created w' =
    (source : Summary) × (find_tenant summaries (trim_space request.source_tenant) ≡ some source)
    × (created.source_tenant ≡ source.tenant)
    × IsPlain created.source_dir
    × All (IsOpen summaries (trim_space request.source_tenant)) created.recipients
    × (exists (same_name created.source_project created.name) (w.shares source.incus_name) ≡ false)
    × (w'
        ≡ with_shares source.incus_name (sort_shares (w.shares source.incus_name ++ created ∷ []))
            w)

IsCreated-Outcome :
    (summaries : List Summary) (request : CreateRequest) (w : World)
    → request.dry_run ≡ false
    → Outcome Anything (IsCreated summaries request w) (plan_create summaries request w)
unfolding plan_create
IsCreated-Outcome summaries request w wet =
    Outcome-read Anything _ (IsChecked summaries request) (check_create summaries request w) w _
      (check_create-IsChecked summaries request w) tt
      λ (offer : Offer) f. Outcome-get_tenant_shares Anything _ offer.source.incus_name w _ tt (
        Outcome-lift Anything _ _ w _ tt λ (_ : Unit {0}) free.
          Outcome-read Anything _ (λ _. Unit {0}) (or_clock request.now w) w _
            (Outcome-same _ w (or_clock-same request.now w)) tt
            λ (now : Text) _.
              let created = share_of_offer offer (trim_space request.actor) now in
              let after =
                with_shares offer.source.incus_name
                  (sort_shares (w.shares offer.source.incus_name ++ created ∷ [])) w in
              Outcome-then_run Anything (λ _ w'. w' ≡ after) _ _ _
                (Outcome-unless_wet Anything (λ _ w'. w' ≡ after) request.dry_run _ w wet
                  (Outcome-set_tenant_shares_to Anything (λ w'. w' ≡ after) offer.source.incus_name
                    _ w tt refl))
                λ (_ : Unit {0}) w' same. Outcome-done Anything _ _ w' (
                  offer.source,
                  f.0,
                  refl,
                  f.1,
                  All-IsOpen summaries (trim_space request.source_tenant) (trim_space request.actor)
                      now offer.recipients f.2,
                  passed _ _ free,
                  same,
                ))

-- A create request that is no dry run and returns has added the share to the list of its source
-- tenant, sorted, and changed nothing else; no share there had its project and name, its directory
-- has no empty, . or .. segment, and each of its recipients is pending, is another tenant than the
-- source, and exists.
pub plan_create-IsCreated :
    (summaries : List Summary) (request : CreateRequest) (w w' : World)
    (created : TenantStorageShare)
    → request.dry_run ≡ false
    → plan_create summaries request w ≡ (ok created, w')
    → IsCreated summaries request w created w'
plan_create-IsCreated summaries request w w' created wet h =
    of_returned Anything _ _ created w' (IsCreated-Outcome summaries request w wet) h
