-- ===== src/Share/Outcome.antt =====
-- How a fact about the store is carried through a chain of actions, on every way out of it.
use sandcastle_incus.Prelude.{
  ◌≡◌, refl, sym, ap, subst, Bool, true, false, List, if◌then◌else◌, Result, err, ok,
}
use sandcastle_incus.Prelude.Text.{Text}
use sandcastle_incus.Share.Types.{
  TenantStorageShare, ShareError, World, Action, then_run, lift, unless, choose, with_shares,
  get_tenant_shares, set_tenant_shares, unreadable, unwritable,
}

-- `I` of the store after an error, `Q` of the value and the store after a return.
unfoldable pub Outcome {ℓ} :
    {A : Type ℓ} → (World → Type 0) → (A → World → Type 0) → Result ShareError A × World → Type 0
Outcome I Q (err e, w) = I w
Outcome I Q (ok a, w) = Q a w

module _ (I : World → Type 0) where
  pub Outcome-then_run {ℓ κ} :
      {A : Type ℓ} {B : Type κ} (Q : A → World → Type 0) (R : B → World → Type 0)
      (first : Result ShareError A × World) (rest : A → Action B)
      → Outcome I Q first
      → ((a : A) (w : World) → Q a w → Outcome I R (rest a w))
      → Outcome I R (then_run first rest)
  unfolding Outcome then_run
  Outcome-then_run Q R (err e, w) rest h next = h
  Outcome-then_run Q R (ok a, w) rest h next = next a w h

  -- A step that only reads, with what it promises of its value.
  pub Outcome-read {ℓ κ} :
      {A : Type ℓ} {B : Type κ} (R : B → World → Type 0) (F : A → Type 0)
      (first : Result ShareError A × World) (w : World) (rest : A → Action B)
      → Outcome (λ w'. w' ≡ w) (λ a w'. (w' ≡ w) × F a) first
      → I w
      → ((a : A) → F a → Outcome I R (rest a w))
      → Outcome I R (then_run first rest)
  unfolding Outcome then_run
  Outcome-read R F (err e, w₁) w rest same h next = subst I (sym same) h
  Outcome-read R F (ok a, w₁) w rest (same, f) h next =
      subst (λ v. Outcome I R (rest a v)) (sym same) (next a f)

  -- A step that only computes, and what follows it.
  pub Outcome-lift {ℓ κ} :
      {A : Type ℓ} {B : Type κ} (R : B → World → Type 0) (r : Result ShareError A) (w : World)
      (rest : A → Action B)
      → I w
      → ((a : A) → r ≡ ok a → Outcome I R (rest a w))
      → Outcome I R (then_run (lift r w) rest)
  unfolding Outcome then_run
  Outcome-lift R (err e) w rest h next = h
  Outcome-lift R (ok a) w rest h next = next a refl

  pub Outcome-get_tenant_shares {κ} :
      {B : Type κ} (R : B → World → Type 0) (n : Text) (w : World)
      (rest : List TenantStorageShare → Action B)
      → I w
      → Outcome I R (rest (w.shares n) w)
      → Outcome I R (then_run (get_tenant_shares n w) rest)
  unfolding get_tenant_shares Outcome then_run
  Outcome-get_tenant_shares R n w rest h next =
      elim (w.read_fails n)
        as (λ b.
          Outcome I R (then_run (if b then err (unreadable n) else ok (w.shares n), w) rest)) [
            | true ↦ h
            | false ↦ next
          ]

  pub Outcome-set_tenant_shares :
      (n : Text) (list : List TenantStorageShare) (w : World)
      → I w
      → I (with_shares n list w)
      → Outcome I (λ _. I) (set_tenant_shares n list w)
  unfolding set_tenant_shares Outcome
  Outcome-set_tenant_shares n list w before after =
      elim (w.write_fails n)
        as (λ b.
          Outcome {A = Unit {0}} I (λ _. I)
            (if b then (err (unwritable n), w) else (ok tt, with_shares n list w))) [
              | true ↦ before
              | false ↦ after
            ]

  pub Outcome-unless :
      (dry_run : Bool) (action : Action (Unit {0})) (w : World)
      → I w
      → Outcome I (λ _. I) (action w)
      → Outcome I (λ _. I) (unless dry_run action w)
  unfolding Outcome unless
  Outcome-unless true action w h next = h
  Outcome-unless false action w h next = next

  pub Outcome-choose {ℓ} :
      {A : Type ℓ} (R : A → World → Type 0) (test : Bool) (one other : Action A) (w : World)
      → Outcome I R (one w)
      → Outcome I R (other w)
      → Outcome I R (choose test one other w)
  unfolding choose
  Outcome-choose R true one other w hy hn = hy
  Outcome-choose R false one other w hy hn = hn

  -- Where the request is no dry run, the action runs.
  pub Outcome-unless_wet :
      (Q : Unit {0} → World → Type 0) (dry_run : Bool) (action : Action (Unit {0})) (w : World)
      → dry_run ≡ false
      → Outcome I Q (action w)
      → Outcome I Q (unless dry_run action w)
  unfolding unless
  Outcome-unless_wet Q true action w wet h = cc
  Outcome-unless_wet Q false action w wet h = h

  -- A write, with what it leaves.
  pub Outcome-set_tenant_shares_to :
      (Q : World → Type 0) (n : Text) (list : List TenantStorageShare) (w : World)
      → I w
      → Q (with_shares n list w)
      → Outcome I (λ _. Q) (set_tenant_shares n list w)
  unfolding set_tenant_shares Outcome
  Outcome-set_tenant_shares_to Q n list w before after =
      elim (w.write_fails n)
        as (λ b.
          Outcome {A = Unit {0}} I (λ _. Q)
            (if b then (err (unwritable n), w) else (ok tt, with_shares n list w))) [
              | true ↦ before
              | false ↦ after
            ]

-- What holds on every way out holds of the store that is left.
pub left_behind {ℓ} :
    {A : Type ℓ} (I : World → Type 0) (out : Result ShareError A × World)
    → Outcome I (λ _. I) out
    → I out.1
unfolding Outcome
left_behind I (err e, w) h = h
left_behind I (ok a, w) h = h

-- The end of a chain.
pub Outcome-return {ℓ} :
    {A : Type ℓ} (I : World → Type 0) (a : A) (w : World) → I w → Outcome I (λ _. I) (lift (ok a) w)
unfolding Outcome
Outcome-return I a w h = h

-- A step that reads, with nothing promised.
pub Outcome-same {ℓ} :
    {A : Type ℓ} (first : Result ShareError A × World) (w : World)
    → first.1 ≡ w
    → Outcome (λ w'. w' ≡ w) (λ a w'. (w' ≡ w) × Unit {0}) first
unfolding Outcome
Outcome-same (err e, w₁) w h = h
Outcome-same (ok a, w₁) w h = (h, tt)

pub Outcome-done {ℓ} :
    {A : Type ℓ} (I : World → Type 0) (Q : A → World → Type 0) (a : A) (w : World)
    → Q a w
    → Outcome I Q (lift (ok a) w)
unfolding Outcome
Outcome-done I Q a w h = h

ok_same {ℓ} : {A : Type ℓ} (a b : A) → ◌≡◌ {A = Result ShareError A} (ok a) (ok b) → a ≡ b
ok_same a b h = cc

pub Outcome-both {ℓ} :
    {A : Type ℓ} (I : World → Type 0) (Q R : A → World → Type 0) (out : Result ShareError A × World)
    → Outcome I Q out
    → Outcome I R out
    → Outcome I (λ a w. Q a w × R a w) out
unfolding Outcome
Outcome-both I Q R (err e, w) hq hr = hq
Outcome-both I Q R (ok a, w) hq hr = (hq, hr)

pub Outcome-imp {ℓ} :
    {A : Type ℓ} (I : World → Type 0) (Q R : A → World → Type 0) (out : Result ShareError A × World)
    → Outcome I Q out
    → ((a : A) (w : World) → Q a w → R a w)
    → Outcome I R out
unfolding Outcome
Outcome-imp I Q R (err e, w) h f = h
Outcome-imp I Q R (ok a, w) h f = f a w h

-- What holds where an action returns.
pub of_returned {ℓ} :
    {A : Type ℓ} (I : World → Type 0) (Q : A → World → Type 0) (out : Result ShareError A × World)
    (a : A) (w : World)
    → Outcome I Q out
    → out ≡ (ok a, w)
    → Q a w
unfolding Outcome
of_returned I Q (err e, w₁) a w h same = cc
of_returned I Q (ok a₁, w₁) a w h same =
    subst (λ x. Q x w) (ok_same a₁ a (ap (λ out. out.0) same))
      (subst (λ v. Q a₁ v) (ap (λ out. out.1) same) h)
