-- ===== src/Prelude/Text/Split.antt =====
-- `split` at a separator: how it meets `++`, and the characters of its parts.
use Prim.Native.Nat.{ℕ}
use mathlib.Core.Path.{◌≡◌, refl, sym, subst}
use mathlib.Core.Logic.{◌≢◌, inl, inr}
use mathlib.Core.List.{List, [], ◌∷◌, ◌++◌}
use native.Mathlib.Omega.{arith}
use sandcastle_incus.Prelude.Lists.{All}
use sandcastle_incus.Prelude.Tests.{◌==◌, ==_iff, if◌then◌else◌, Bool-cases}
use sandcastle_incus.Prelude.Text.Defs.{Text, push_head, split}

pub split-ne-nil : (sep : ℕ) (s : Text) → split sep s ≢ []
unfolding split
split-ne-nil sep [] = cc
split-ne-nil sep (c ∷ s) =
    elim (split sep s) as (λ l. (if c == sep then [] ∷ l else push_head c l) ≢ []) [
      | [] ↦ ground arith
      | l ∷ ls ↦ ground arith
    ]

push_head-append :
    (c : ℕ) (ls ms : List Text) → ls ≢ [] → push_head c (ls ++ ms) ≡ push_head c ls ++ ms
push_head-append c [] ms h = absurd (h refl)
push_head-append c (l ∷ ls) ms h = refl

pub split-append : (sep : ℕ) (r t : Text) → split sep (r ++ sep ∷ t) ≡ split sep r ++ split sep t
unfolding split
split-append sep [] t = ground arith
split-append sep (c ∷ r) t = elim (Bool-cases (c == sep)) [
  | inl e ↦ rw (e, split-append sep r t)
  | inr e ↦
      rw (e, split-append sep r t)
        (push_head-append c (split sep r) (split sep t) (split-ne-nil sep r))
]

module _ {ℓ} (P : ℕ → Type ℓ) (sep : ℕ) (here : P sep) where
  All-push_head : (c : ℕ) (ls : List Text) → All (All P) (push_head c ls) → P c × All (All P) ls
  All-push_head c [] h = (h.0.0, tt)
  All-push_head c (l ∷ ls) h = (h.0.0, (h.0.1, h.1))

  -- A property of the separator and of every character of the parts holds of every character.
  pub All-of-split : (s : Text) → All (All P) (split sep s) → All P s
  unfolding split
  All-of-split [] h = tt
  All-of-split (c ∷ s) h = elim (Bool-cases (c == sep)) [
    | inl e ↦ (subst P (sym ((==_iff c sep).0 e)) here, All-of-split s ((rw (e, split) at h).1))
    | inr e ↦
        let (hc, hs) = All-push_head c (split sep s) (rw (e, split) at h) in (hc, All-of-split s hs)
  ]
