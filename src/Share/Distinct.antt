-- ===== src/Share/Distinct.antt =====
-- internal/share/share.go: what the edits of a list do to the ids of its shares.
use sandcastle_incus.Prelude.{
  ◌≡◌, ◌∙◌, subst, Bool, true, false, List, [], ◌∷◌, if◌then◌else◌, All, Pairwise, Pairwise-keep,
  Bool-cases, inl, inr,
}
use sandcastle_incus.Prelude.Text.{Text, teq, eq_of_teq, teq_comm}
use sandcastle_incus.Share.Types.{TenantStorageShare, TenantStorageShareRecipient}
use sandcastle_incus.Share.Names.{insert_with, sort_with}
use sandcastle_incus.Share.Lists.{
  id_of, share_lt, sort_shares, replace_share, cut_share, remove_share, upsert_copy,
  upsert_recipient_share, recipient_entry,
}

module _ {ℓ κ} {A : Type ℓ} (P : A → Type κ) (lt : A → A → Bool) where
  pub All-insert_with : (x : A) (xs : List A) → P x → All P xs → All P (insert_with lt x xs)
  unfolding insert_with
  All-insert_with x [] px h = (px, tt)
  All-insert_with x (y ∷ ys) px (py, h) =
      elim (lt y x) as (λ b. All P (if b then y ∷ insert_with lt x ys else x ∷ y ∷ ys)) [
        | true ↦ (py, All-insert_with x ys px h)
        | false ↦ (px, (py, h))
      ]

  pub All-sort_with : (xs : List A) → All P xs → All P (sort_with lt xs)
  unfolding sort_with
  All-sort_with [] h = tt
  All-sort_with (x ∷ xs) (px, h) = All-insert_with x (sort_with lt xs) px (All-sort_with xs h)

module _ {ℓ κ} {A : Type ℓ} (R : A → A → Type κ) (flip : (x y : A) → R x y → R y x)
    (lt : A → A → Bool) where
  Pairwise-insert_with :
      (x : A) (xs : List A) → All (R x) xs → Pairwise R xs → Pairwise R (insert_with lt x xs)
  unfolding insert_with
  Pairwise-insert_with x [] hx h = (tt, tt)
  Pairwise-insert_with x (y ∷ ys) (xy, hx) (hy, h) =
      elim (lt y x) as (λ b. Pairwise R (if b then y ∷ insert_with lt x ys else x ∷ y ∷ ys)) [
        | true ↦ (All-insert_with (R y) lt x ys (flip x y xy) hy, Pairwise-insert_with x ys hx h)
        | false ↦ ((xy, hx), (hy, h))
      ]

  pub Pairwise-sort_with : (xs : List A) → Pairwise R xs → Pairwise R (sort_with lt xs)
  unfolding sort_with
  Pairwise-sort_with [] h = tt
  Pairwise-sort_with (x ∷ xs) (hx, h) =
      Pairwise-insert_with x (sort_with lt xs) (All-sort_with (R x) lt xs hx)
        (Pairwise-sort_with xs h)

-- Two shares with different ids.
abbrev pub IdsApart : TenantStorageShare → TenantStorageShare → Type 0
IdsApart a b = teq (id_of a) (id_of b) ≡ false

-- No two shares of the list have the same id.
abbrev pub IsDistinct : List TenantStorageShare → Type 0
IsDistinct shares = Pairwise IdsApart shares

pub IsDistinct-sort_shares :
    (shares : List TenantStorageShare) → IsDistinct shares → IsDistinct (sort_shares shares)
unfolding sort_shares
IsDistinct-sort_shares shares h =
    Pairwise-sort_with IdsApart (λ a b e. teq_comm (id_of b) (id_of a) ∙ e) share_lt shares h

pub IsDistinct-remove_share :
    (shares : List TenantStorageShare) (source project name : Text)
    → IsDistinct shares
    → IsDistinct (remove_share shares source project name)
unfolding remove_share
IsDistinct-remove_share shares source project name h =
    IsDistinct-sort_shares _ (Pairwise-keep IdsApart _ shares h)

module _ {κ} (P : TenantStorageShare → Type κ) (id : Text) where
  pub All-cut_share :
      (shares : List TenantStorageShare) → All P shares → All P (cut_share id shares)
  unfolding cut_share
  All-cut_share [] h = tt
  All-cut_share (s ∷ shares) (hs, h) =
      elim (teq (id_of s) id) as (λ b. All P (if b then shares else s ∷ cut_share id shares)) [
        | true ↦ h
        | false ↦ (hs, All-cut_share shares h)
      ]

pub IsDistinct-cut_share :
    (id : Text) (shares : List TenantStorageShare)
    → IsDistinct shares
    → IsDistinct (cut_share id shares)
unfolding cut_share
IsDistinct-cut_share id [] h = tt
IsDistinct-cut_share id (s ∷ shares) (hs, h) =
    elim (teq (id_of s) id) as (λ b. IsDistinct (if b then shares else s ∷ cut_share id shares)) [
      | true ↦ h
      | false ↦ (All-cut_share (IdsApart s) id shares hs, IsDistinct-cut_share id shares h)
    ]

-- What holds of the ids holds after a share is replaced by one with its id.
module _ {κ} (P : Text → Type κ) (updated : TenantStorageShare) where
  pub All-replace_share :
      (shares : List TenantStorageShare)
      → All (λ (s : TenantStorageShare). P (id_of s)) shares
      → All (λ (s : TenantStorageShare). P (id_of s)) (replace_share (id_of updated) updated shares)
  unfolding replace_share
  All-replace_share [] h = tt
  All-replace_share (s ∷ shares) (hs, h) = elim (Bool-cases (teq (id_of s) (id_of updated))) [
    | inl e ↦ rw e (subst P (eq_of_teq _ _ e) hs, h)
    | inr e ↦ rw e (hs, All-replace_share shares h)
  ]

pub IsDistinct-replace_share :
    (updated : TenantStorageShare) (shares : List TenantStorageShare)
    → IsDistinct shares
    → IsDistinct (replace_share (id_of updated) updated shares)
unfolding replace_share
IsDistinct-replace_share updated [] h = tt
IsDistinct-replace_share updated (s ∷ shares) (hs, h) =
    elim (Bool-cases (teq (id_of s) (id_of updated))) [
      | inl e ↦ rw e (
        subst (λ id. All (λ (t : TenantStorageShare). teq id (id_of t) ≡ false) shares)
            (eq_of_teq _ _ e) hs,
        h,
      )
      | inr e ↦ rw e (
        All-replace_share (λ id. teq (id_of s) id ≡ false) updated shares hs,
        IsDistinct-replace_share updated shares h,
      )
    ]

module _ (offered : TenantStorageShare) (entry : TenantStorageShareRecipient) where
  All-upsert_copy :
      (t : TenantStorageShare) (shares : List TenantStorageShare)
      → IdsApart t offered
      → All (IdsApart t) shares
      → All (IdsApart t) (upsert_copy offered entry shares)
  unfolding upsert_copy
  All-upsert_copy t [] ht h = (ht, tt)
  All-upsert_copy t (s ∷ shares) ht (hs, h) = elim (Bool-cases (teq (id_of s) (id_of offered))) [
    | inl e ↦ rw e (hs, h)
    | inr e ↦ rw e (hs, All-upsert_copy t shares ht h)
  ]

  IsDistinct-upsert_copy :
      (shares : List TenantStorageShare)
      → IsDistinct shares
      → IsDistinct (upsert_copy offered entry shares)
  unfolding upsert_copy
  IsDistinct-upsert_copy [] h = (tt, tt)
  IsDistinct-upsert_copy (s ∷ shares) (hs, h) = elim (Bool-cases (teq (id_of s) (id_of offered))) [
    | inl e ↦ rw e (hs, h)
    | inr e ↦ rw e (All-upsert_copy s shares e hs, IsDistinct-upsert_copy shares h)
  ]

pub IsDistinct-upsert_recipient_share :
    (shares : List TenantStorageShare) (offered : TenantStorageShare)
    (tenant state actor now : Text)
    → IsDistinct shares
    → IsDistinct (upsert_recipient_share shares offered tenant state actor now)
unfolding upsert_recipient_share
IsDistinct-upsert_recipient_share shares offered tenant state actor now h =
    IsDistinct-upsert_copy offered (recipient_entry tenant state actor now) shares h
