-- ===== src/Share/Seen.antt =====
-- internal/share/share.go: how the recipient's own copies decide what ListInbound shows.
use sandcastle_incus.Prelude.{
  ◌≡◌, refl, sym, ◌∙◌, ap, subst, Bool, true, false, not, ◌&&◌, List, [], ◌∷◌, ◌⊎◌, inl, inr, All,
  none, some, Bool-cases, Option-cases, arith,
}
use sandcastle_incus.Prelude.Text.{Text, teq, teq_refl, teq_iff, eq_of_teq}
use sandcastle_incus.Domain.{is_nil}
use sandcastle_incus.Share.Types.{
  TenantStorageShare, TenantStorageShareRecipient, recipient_state_pending,
  recipient_state_accepted, recipient_state_declined,
}
use sandcastle_incus.Share.Lists.{
  id_of, sort_shares, share_offered_to, recipient_state, upsert_copy,
}
use sandcastle_incus.Share.Views.{inbound_of, answer_to, find_last, state_in, shown_as}
use sandcastle_incus.Share.Distinct.{IsDistinct}
use sandcastle_incus.Share.Copies.{Any, Any-imp, Has, sort_upsert-has, sort_upsert-only}

-- Every share of the list with this id has these recipients.
abbrev OnlyWith : Text → List TenantStorageShareRecipient → List TenantStorageShare → Type 0
OnlyWith id recipients shares =
    All (λ (s : TenantStorageShare). teq (id_of s) id ≡ true → s.recipients ≡ recipients) shares

some_eq : (s t : TenantStorageShare) → some s ≡ some t → s ≡ t
some_eq s t h = cc

none_not_some : (s : TenantStorageShare) → ¬ (none ≡ some s)
none_not_some s h = cc

clash : (b : Bool) → b ≡ true → ¬ (b ≡ false)
clash b p q = cc

-- A last share that is found has the recipients.
found-only :
    (id : Text) (recipients : List TenantStorageShareRecipient) (shares : List TenantStorageShare)
    (c : TenantStorageShare)
    → OnlyWith id recipients shares
    → find_last id shares ≡ some c
    → c.recipients ≡ recipients
found-only id recipients [] c only h = absurd (none_not_some c h)
found-only id recipients (s ∷ shares) c only h = elim (Option-cases (find_last id shares)) [
  | inl e ↦ elim (Bool-cases (teq (id_of s) id)) [
    | inl t ↦
        ap (λ (x : TenantStorageShare). x.recipients) (sym (some_eq s c (rw (e, t) at h)))
        ∙ only.0 t
    | inr t ↦ absurd (none_not_some c (rw (e, t) at h))
  ]
  | inr (x, e) ↦ found-only id recipients shares c only.1 (e ∙ (rw e at h))
]

-- The last share with an id, where one has it.
find_last-only :
    (id : Text) (recipients : List TenantStorageShareRecipient) (shares : List TenantStorageShare)
    → OnlyWith id recipients shares
    → Any (λ (s : TenantStorageShare). id_of s ≡ id) shares
    → (c : TenantStorageShare) × (find_last id shares ≡ some c) × (c.recipients ≡ recipients)
find_last-only id recipients [] only h = absurd h
find_last-only id recipients (s ∷ shares) only h = elim (Option-cases (find_last id shares)) [
  | inl e ↦ elim (Bool-cases (teq (id_of s) id)) [
    | inl t ↦ rw (e, t) (s, refl, only.0 t)
    | inr t ↦ elim h [
      | inl same ↦ absurd (clash _ ((teq_iff _ _).1 same) t)
      | inr rest ↦
          let (c, last, _) = find_last-only id recipients shares only.1 rest in
          absurd (none_not_some c (sym e ∙ last))
    ]
  ]
  | inr (x, e) ↦ rw e (x, refl, found-only id recipients shares x only.1 e)
]

-- A list of one answer tells the answer.
state_in-only :
    (tenant state : Text) (c : TenantStorageShare) (entry : TenantStorageShareRecipient)
    → c.recipients ≡ entry ∷ []
    → entry.tenant ≡ tenant
    → entry.state ≡ state
    → is_nil state ≡ false
    → state_in tenant (some c) ≡ state
unfolding recipient_state
state_in-only tenant state c entry hc ht hs given = rw (hc, ht, hs, teq_refl tenant, given) refl

-- What the recipient sees as its answer.
pub answer_to-written :
    (tenant state : Text) (offered : TenantStorageShare) (entry : TenantStorageShareRecipient)
    (own : List TenantStorageShare)
    → IsDistinct own
    → entry.tenant ≡ tenant
    → entry.state ≡ state
    → is_nil state ≡ false
    → answer_to tenant (sort_shares (upsert_copy offered entry own)) offered ≡ state
unfolding answer_to
answer_to-written tenant state offered entry own distinct ht hs given =
    let (c, last, only) =
      find_last-only (id_of offered) (entry ∷ []) _ (sort_upsert-only offered entry own distinct)
        (Any-imp _ _ _ (λ s copy. copy.0) (sort_upsert-has offered entry own)) in
    rw last (state_in-only tenant state c entry only ht hs given)

abbrev IsAnswer : Text → Type 0
IsAnswer state = (state ≡ recipient_state_accepted) ⊎ (state ≡ recipient_state_declined)

pub given : (state : Text) → IsAnswer state → is_nil state ≡ false
given state (inl e) = rw e refl
given state (inr e) = rw e refl

pub not_pending : (state : Text) → IsAnswer state → teq state recipient_state_pending ≡ false
unfolding teq
not_pending state (inl e) = rw e refl
not_pending state (inr e) = rw e refl

-- The answer depends on the id only.
pub answer_to_id :
    (tenant : Text) (own : List TenantStorageShare) (s offered : TenantStorageShare)
    → id_of s ≡ id_of offered
    → teq (answer_to tenant own s) recipient_state_pending
      ≡ teq (answer_to tenant own offered) recipient_state_pending
unfolding answer_to
answer_to_id tenant own s offered same =
    ap (λ id. teq (state_in tenant (find_last id own)) recipient_state_pending) same

-- An offer with an answer is not among the open ones.
pub inbound_of-closed :
    (tenant id : Text) (own shares : List TenantStorageShare)
    → ((s : TenantStorageShare)
        → id_of s ≡ id
        → teq (answer_to tenant own s) recipient_state_pending ≡ false)
    → All (λ (s : TenantStorageShare). teq (id_of s) id ≡ false) (inbound_of tenant true own shares)
unfolding inbound_of
inbound_of-closed tenant id own [] h = tt
inbound_of-closed tenant id own (s ∷ shares) h =
    elim (Bool-cases
      (share_offered_to s tenant && teq (answer_to tenant own s) recipient_state_pending)) [
        | inl e ↦ rw e (
          elim (Bool-cases (teq (id_of s) id)) [
            | inl same ↦ absurd (clash _ (right _ _ e) (h s (eq_of_teq _ _ same)))
            | inr other ↦ other
          ],
          inbound_of-closed tenant id own shares h,
        )
        | inr e ↦ rw e (inbound_of-closed tenant id own shares h)
      ]
  where
    right : (a b : Bool) → (a && b) ≡ true → b ≡ true
    right a b g = ground arith

-- An offer with an answer is among the answered ones, with the answer.
pub inbound_of-answered :
    (tenant : Text) (own : List TenantStorageShare) (offered : TenantStorageShare)
    (shares : List TenantStorageShare)
    → Has shares offered
    → share_offered_to offered tenant ≡ true
    → teq (answer_to tenant own offered) recipient_state_pending ≡ false
    → Any
        (λ (s : TenantStorageShare).
          (id_of s ≡ id_of offered)
          × (s.recipients ≡ shown_as tenant (answer_to tenant own offered) ∷ []))
        (inbound_of tenant false own shares)
unfolding inbound_of
inbound_of-answered tenant own offered [] h to answered = absurd h
inbound_of-answered tenant own offered (s ∷ shares) h to answered = elim h [
  | inl same ↦
      let shown : (share_offered_to s tenant
            && not (teq (answer_to tenant own s) recipient_state_pending))
          ≡ true =
        subst
          (λ (x : TenantStorageShare).
            (share_offered_to x tenant
              && not (teq (answer_to tenant own x) recipient_state_pending))
            ≡ true)
          (sym same) (both _ _ to answered) in
      rw shown (inl (ap id_of same, ap (λ x. shown_as tenant (answer_to tenant own x) ∷ []) same))
  | inr rest ↦
      let later = inbound_of-answered tenant own offered shares rest to answered in
      elim (Bool-cases
        (share_offered_to s tenant && not (teq (answer_to tenant own s) recipient_state_pending))) [
          | inl e ↦ rw e (inr later)
          | inr e ↦ rw e later
        ]
]
  where
    both : (a b : Bool) → a ≡ true → b ≡ false → (a && not b) ≡ true
    both a b p q = ground arith
