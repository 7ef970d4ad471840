-- ===== src/Share/Copies.antt =====
-- internal/share/share.go: what the copy that an answer writes is, and what else is in the list.
use sandcastle_incus.Prelude.{
  ◌≡◌, refl, sym, ◌∙◌, subst, Bool, true, false, List, [], ◌∷◌, if◌then◌else◌, ◌⊎◌, inl, inr, All,
  All-imp, some, find_first, Bool-cases,
}
use sandcastle_incus.Prelude.Text.{teq, teq_comm, eq_of_teq}
use sandcastle_incus.Share.Types.{TenantStorageShare, TenantStorageShareRecipient}
use sandcastle_incus.Share.Names.{insert_with, sort_with}
use sandcastle_incus.Share.Lists.{id_of, share_lt, sort_shares, upsert_copy}
use sandcastle_incus.Share.Distinct.{IsDistinct, All-sort_with}

-- One of the elements has the property.
abbrev pub Any {ℓ} : {A : Type ℓ} → (A → Type 0) → List A → Type 0
Any P [] = ⊥
Any P (x ∷ xs) = P x ⊎ Any P xs

pub Any-imp {ℓ} :
    {A : Type ℓ} (P Q : A → Type 0) (xs : List A) → ((x : A) → P x → Q x) → Any P xs → Any Q xs
Any-imp P Q [] f h = h
Any-imp P Q (x ∷ xs) f (inl h) = inl (f x h)
Any-imp P Q (x ∷ xs) f (inr h) = inr (Any-imp P Q xs f h)

module _ {ℓ} {A : Type ℓ} (P : A → Type 0) (lt : A → A → Bool) where
  Any-insert_with : (x : A) (xs : List A) → P x ⊎ Any P xs → Any P (insert_with lt x xs)
  unfolding insert_with
  Any-insert_with x [] h = h
  Any-insert_with x (y ∷ ys) h =
      elim (lt y x) as (λ b. Any P (if b then y ∷ insert_with lt x ys else x ∷ y ∷ ys)) [
        | true ↦ elim h [
          | inl hx ↦ inr (Any-insert_with x ys (inl hx))
          | inr (inl hy) ↦ inl hy
          | inr (inr hs) ↦ inr (Any-insert_with x ys (inr hs))
        ]
        | false ↦ h
      ]

  pub Any-sort_with : (xs : List A) → Any P xs → Any P (sort_with lt xs)
  unfolding sort_with
  Any-sort_with [] h = h
  Any-sort_with (x ∷ xs) (inl h) = Any-insert_with x (sort_with lt xs) (inl h)
  Any-sort_with (x ∷ xs) (inr h) = Any-insert_with x (sort_with lt xs) (inr (Any-sort_with xs h))

  All-of_insert_with : (x : A) (xs : List A) → All P (insert_with lt x xs) → P x × All P xs
  unfolding insert_with
  All-of_insert_with x [] h = h
  All-of_insert_with x (y ∷ ys) h =
      elim (lt y x)
          as (λ b.
            All P (if b then y ∷ insert_with lt x ys else x ∷ y ∷ ys) → P x × All P (y ∷ ys)) [
              | true ↦ λ g. let (hx, hs) = All-of_insert_with x ys g.1 in (hx, (g.0, hs))
              | false ↦ λ g. g
            ]
        h

  -- Sorting drops no element.
  pub All-of_sort_with : (xs : List A) → All P (sort_with lt xs) → All P xs
  unfolding sort_with
  All-of_sort_with [] h = tt
  All-of_sort_with (x ∷ xs) h =
      let (hx, hs) = All-of_insert_with x (sort_with lt xs) h in (hx, All-of_sort_with xs hs)

abbrev pub Has : {A : Type 0} → List A → A → Type 0
Has xs x = Any (λ y. y ≡ x) xs

All-Has : {A : Type 0} (xs : List A) → All (Has xs) xs
All-Has [] = tt
All-Has (x ∷ xs) = (inl refl, All-imp _ _ xs (λ y h. inr h) (All-Has xs))

pub Has-of_find_first :
    {A : Type 0} (p : A → Bool) (xs : List A) (x : A) → find_first p xs ≡ some x → Has xs x
Has-of_find_first {A = A} p [] x h = cc
Has-of_find_first {A = A} p (y ∷ ys) x h = elim (Bool-cases (p y)) [
  | inl e ↦ inl (some_eq y x (rw e at h))
  | inr e ↦ inr (Has-of_find_first p ys x (rw e at h))
]
  where
    some_eq : (a b : A) → some a ≡ some b → a ≡ b
    some_eq a b g = cc

-- The share has the id, the directory and the availability of the offer, and this one recipient.
abbrev pub IsCopy : TenantStorageShare → TenantStorageShareRecipient → TenantStorageShare → Type 0
IsCopy offered entry s =
    (id_of s ≡ id_of offered)
    × (s.source_dir ≡ offered.source_dir)
    × (s.availability ≡ offered.availability)
    × (s.recipients ≡ entry ∷ [])

clash : (b : Bool) → b ≡ true → ¬ (b ≡ false)
clash b p q = cc

module _ (offered : TenantStorageShare) (entry : TenantStorageShareRecipient) where
  upsert_copy-has :
      (shares : List TenantStorageShare)
      → Any (IsCopy offered entry) (upsert_copy offered entry shares)
  unfolding upsert_copy
  upsert_copy-has [] = inl (refl, refl, refl, refl)
  upsert_copy-has (s ∷ shares) = elim (Bool-cases (teq (id_of s) (id_of offered))) [
    | inl e ↦ rw e (inl (eq_of_teq _ _ e, refl, refl, refl))
    | inr e ↦ rw e (inr (upsert_copy-has shares))
  ]

  -- The shares of `xs` with another id are in `list`.
  abbrev pub KeptIn : List TenantStorageShare → List TenantStorageShare → Type 0
  KeptIn list xs =
      All (λ (s : TenantStorageShare). teq (id_of s) (id_of offered) ≡ false → Has list s) xs

  upsert_copy-keeps :
      (shares : List TenantStorageShare) → KeptIn (upsert_copy offered entry shares) shares
  unfolding upsert_copy
  upsert_copy-keeps [] = tt
  upsert_copy-keeps (s ∷ shares) = by_test _ (upsert_copy-keeps shares) _ refl
    where
      by_test :
          (copy : TenantStorageShare) (rest : KeptIn (upsert_copy offered entry shares) shares)
          (b : Bool)
          → teq (id_of s) (id_of offered) ≡ b
          → KeptIn (if b then copy ∷ shares else s ∷ upsert_copy offered entry shares) (s ∷ shares)
      by_test copy rest true e = (
        (λ other. absurd (clash _ e other)),
        All-imp _ _ shares (λ t h _. inr h) (All-Has shares),
      )
      by_test copy rest false e =
          ((λ other. inl refl), All-imp _ _ shares (λ t h other. inr (h other)) rest)

  -- Where ids are distinct, the copy is the only share with its id.
  upsert_copy-only :
      (shares : List TenantStorageShare)
      → IsDistinct shares
      → All
          (λ (s : TenantStorageShare).
            teq (id_of s) (id_of offered) ≡ true → s.recipients ≡ entry ∷ [])
          (upsert_copy offered entry shares)
  unfolding upsert_copy
  upsert_copy-only [] h = ((λ _. refl), tt)
  upsert_copy-only (s ∷ shares) (hs, h) = elim (Bool-cases (teq (id_of s) (id_of offered))) [
    | inl e ↦ rw e (
      (λ _. refl),
      All-imp _ _ shares
          (λ t apart same. absurd (
            clash _
              (subst (λ x. teq x (id_of t) ≡ true) (sym (eq_of_teq _ _ e))
                (teq_comm (id_of offered) (id_of t) ∙ same))
              apart))
          hs,
    )
    | inr e ↦ rw e ((λ same. absurd (clash _ same e)), upsert_copy-only shares h)
  ]

  pub sort_upsert-has :
      (shares : List TenantStorageShare)
      → Any (IsCopy offered entry) (sort_shares (upsert_copy offered entry shares))
  unfolding sort_shares
  sort_upsert-has shares = Any-sort_with (IsCopy offered entry) share_lt _ (upsert_copy-has shares)

  pub sort_upsert-keeps :
      (shares : List TenantStorageShare)
      → KeptIn (sort_shares (upsert_copy offered entry shares)) shares
  unfolding sort_shares
  sort_upsert-keeps shares =
      All-imp _ _ shares (λ s h other. Any-sort_with (λ t. t ≡ s) share_lt _ (h other))
        (upsert_copy-keeps shares)

  pub sort_upsert-only :
      (shares : List TenantStorageShare)
      → IsDistinct shares
      → All
          (λ (s : TenantStorageShare).
            teq (id_of s) (id_of offered) ≡ true → s.recipients ≡ entry ∷ [])
          (sort_shares (upsert_copy offered entry shares))
  unfolding sort_shares
  sort_upsert-only shares h = All-sort_with _ share_lt _ (upsert_copy-only shares h)
