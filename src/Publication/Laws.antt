-- ===== src/Publication/Laws.antt =====
-- internal/authapp/machine_tunnel_publications.go and machine_publication_cooldowns.go: who owns a
-- tunnel's hostname, and when a released name may be published again.
use sandcastle_incus.Prelude.{
  ◌≡◌, refl, ◌∙◌, ap, subst, ℕ, ◌+◌, Bool, true, false, not, List, [], ◌∷◌, ◌++◌, if◌then◌else◌,
  Option, none, some, keep, find_first, exists, ltb, ==_iff, All, All-imp, Pairwise, Pairwise-snoc,
  All-of_exists_false, Bool-cases, Option-cases, inl, inr, Result, err, ok,
}
use sandcastle_incus.Prelude.Text.{Text, teq, eq_of_teq, teq_refl, teq_comm}
use sandcastle_incus.Registry.Tables.{normalize_hostname}
use sandcastle_incus.Publication.Defs.{
  MachineTunnelPublication, PublicationError, invalid, duplicate, Cooldown,
  get_machine_tunnel_publication, trimmed, is_invalid, same_machine, is_exactly,
  claim_machine_tunnel_publication, release_machine_tunnel_publication, dns_propagation_cooldown,
  hold_row, waiting, refuse_held, hold_machine_publication_hostname,
  require_machine_publication_hostname_available,
}

find_held :
    (h g : Text) (t : ℕ) (rows : List Cooldown)
    → find_first (λ (r : Cooldown). teq r.hostname g) (hold_row h t rows) ≡ (
        if teq h g
        then some (record { hostname = h; released_at = t })
        else find_first (λ (r : Cooldown). teq r.hostname g) rows)
unfolding hold_row
find_held h g t [] = elim (Bool-cases (teq h g)) [ inl e ↦ rw e refl | inr e ↦ rw e refl ]
find_held h g t (r ∷ rows) = elim (Bool-cases (teq r.hostname h)) [
  | inl here ↦
      let e = eq_of_teq r.hostname h here in
      let same : teq r.hostname g ≡ teq h g = ap (λ x. teq x g) e in
      elim (Bool-cases (teq h g)) [
        | inl eq ↦
            rw (here, same ∙ eq, eq) (ap (λ x. some (record { hostname = x; released_at = t })) e)
        | inr ne ↦ rw (here, same ∙ ne, ne) refl
      ]
  | inr other ↦ elim (Bool-cases (teq r.hostname g)) [
    | inl eq ↦ rw (other, eq, apart r.hostname h g other eq) refl
    | inr ne ↦ rw (other, ne) (find_held h g t rows)
  ]
]
  where
    apart : (x y z : Text) → teq x y ≡ false → teq x z ≡ true → teq y z ≡ false
    apart x y z ne eq = teq_comm y z ∙ subst (λ u. teq u y ≡ false) (eq_of_teq x z eq) ne

refuse_if :
    (g : Text) (now : ℕ) (b : Bool) (r : Cooldown) (o : Option Cooldown)
    → refuse_held g now (if b then some r else o)
      ≡ (if b then refuse_held g now (some r) else refuse_held g now o)
refuse_if g now true r o = refl
refuse_if g now false r o = refl

-- After a hostname was held at a time, a hostname that is normalised like it is refused exactly
-- while less than a minute has passed, and every other hostname is refused or accepted as before.
pub require-hold :
    (h g : Text) (t now : ℕ) (rows : List Cooldown)
    → require_machine_publication_hostname_available g now
        (hold_machine_publication_hostname h t rows)
      ≡ (if teq (normalize_hostname h) (normalize_hostname g)
          then (if ltb now (t + dns_propagation_cooldown)
              then err (waiting (normalize_hostname g))
              else ok tt)
          else require_machine_publication_hostname_available g now rows)
unfolding require_machine_publication_hostname_available hold_machine_publication_hostname
require-hold h g t now rows =
    ap (refuse_held (normalize_hostname g) now)
      (find_held (normalize_hostname h) (normalize_hostname g) t rows)
    ∙ refuse_if (normalize_hostname g) now (teq (normalize_hostname h) (normalize_hostname g)) _ _

same_machine_refl : (p : MachineTunnelPublication) → same_machine p p ≡ true
same_machine_refl p =
    rw (teq_refl p.tenant, teq_refl p.project, teq_refl p.machine) ((==_iff p.port p.port).1 refl)

-- Every hostname is published once.
abbrev pub HostsApart : MachineTunnelPublication → MachineTunnelPublication → Type 0
HostsApart a b = teq b.hostname a.hostname ≡ false

-- A claim that returns leaves the rows that were there, adds the claimed one at most, and hostnames
-- are published once if they were.
pub claim_machine_tunnel_publication_lem :
    (publication p : MachineTunnelPublication) (new : Bool)
    (rows rows' : List MachineTunnelPublication)
    → Pairwise HostsApart rows
    → claim_machine_tunnel_publication publication rows ≡ ok (p, new, rows')
    → (rows' ≡ (if new then rows ++ p ∷ [] else rows))
      × Pairwise HostsApart rows'
      × (same_machine (trimmed publication) p ≡ true)
unfolding claim_machine_tunnel_publication
claim_machine_tunnel_publication_lem publication p new rows rows' once e =
    elim (Bool-cases (is_invalid (trimmed publication))) [
      | inl bad ↦ absurd (not_ok invalid (rw bad at e))
      | inr good ↦
          elim (Option-cases (get_machine_tunnel_publication (trimmed publication).hostname rows)) [
            | inl free ↦
                elim (Bool-cases (
                  exists
                    (λ (r : MachineTunnelPublication).
                      teq r.hostname (trimmed publication).hostname)
                    rows)) [
                      | inl taken ↦ absurd (not_ok duplicate (rw (good, free, taken) at e))
                      | inr fresh ↦ added fresh (rw (good, free, fresh) at e)
                    ]
            | inr (r, found) ↦ elim (Bool-cases (same_machine (trimmed publication) r)) [
              | inr other ↦ absurd (not_ok _ (rw (good, found, other) at e))
              | inl same ↦ repeated r same (rw (good, found, same) at e)
            ]
          ]
    ]
  where
    Answer : Type 0
    Answer =
        Result PublicationError (MachineTunnelPublication × Bool × List MachineTunnelPublication)

    not_ok : (x : PublicationError) → ◌≡◌ {A = Answer} (err x) (ok (p, new, rows')) → ⊥
    not_ok x g = cc

    Claimed : MachineTunnelPublication × Bool × List MachineTunnelPublication → Type 0
    Claimed out =
        (out.2 ≡ (if out.1 then rows ++ out.0 ∷ [] else rows))
        × Pairwise HostsApart out.2
        × (same_machine (trimmed publication) out.0 ≡ true)

    out_eq :
        (x y : MachineTunnelPublication × Bool × List MachineTunnelPublication)
        → ◌≡◌ {A = Answer} (ok x) (ok y)
        → x ≡ y
    out_eq x y g = cc

    repeated :
        (r : MachineTunnelPublication)
        → same_machine (trimmed publication) r ≡ true
        → ◌≡◌ {A = Answer} (ok (r, false, rows)) (ok (p, new, rows'))
        → Claimed (p, new, rows')
    repeated r same g = subst Claimed (out_eq (r, false, rows) (p, new, rows') g) (refl, once, same)

    added :
        exists
            (λ (r : MachineTunnelPublication). teq r.hostname (trimmed publication).hostname)
            rows
          ≡ false
        → ◌≡◌ {A = Answer}
            (ok (trimmed publication, true, rows ++ trimmed publication ∷ []))
            (ok (p, new, rows'))
        → Claimed (p, new, rows')
    added fresh g =
        subst Claimed
          (out_eq (trimmed publication, true, rows ++ trimmed publication ∷ []) (p, new, rows') g)
          (
            refl,
            Pairwise-snoc HostsApart rows (trimmed publication) once (
                All-imp _ _ rows
                  (λ (r : MachineTunnelPublication) h.
                    teq_comm (trimmed publication).hostname r.hostname ∙ h)
                  (All-of_exists_false _ rows fresh)),
            same_machine_refl (trimmed publication),
          )

module _ (p : MachineTunnelPublication) where
  none_exactly :
      (rows : List MachineTunnelPublication)
      → All (λ (r : MachineTunnelPublication). teq r.hostname p.hostname ≡ false) rows
      → keep (is_exactly p) (rows ++ p ∷ []) ≡ p ∷ []
  none_exactly [] h = rw (teq_refl p.hostname, same_machine_refl p) refl
  none_exactly (r ∷ rows) (hr, h) = rw hr (none_exactly rows h)

  kept_others :
      (rows : List MachineTunnelPublication)
      → All (λ (r : MachineTunnelPublication). teq r.hostname p.hostname ≡ false) rows
      → keep (λ r. not (is_exactly p r)) (rows ++ p ∷ []) ≡ rows
  kept_others [] h = rw (teq_refl p.hostname, same_machine_refl p) refl
  kept_others (r ∷ rows) (hr, h) = rw hr (ap (λ t. r ∷ t) (kept_others rows h))

-- Where a publication is valid, its lookup finds no row and no row has its normalised hostname,
-- the claim adds it, and releasing it then gives the table from before without an error.
pub release-claim_machine_tunnel_publication :
    (publication : MachineTunnelPublication) (rows : List MachineTunnelPublication)
    → is_invalid (trimmed publication) ≡ false
    → get_machine_tunnel_publication (trimmed publication).hostname rows ≡ none
    → exists (λ (r : MachineTunnelPublication). teq r.hostname (trimmed publication).hostname) rows
      ≡ false
    → (claim_machine_tunnel_publication publication rows
        ≡ ok (trimmed publication, true, rows ++ trimmed publication ∷ []))
      × (release_machine_tunnel_publication publication (rows ++ trimmed publication ∷ [])
          ≡ (none, rows))
unfolding claim_machine_tunnel_publication release_machine_tunnel_publication
release-claim_machine_tunnel_publication publication rows good free fresh =
    let apart = All-of_exists_false _ rows fresh in
    (
      rw (good, free, fresh) refl,
      rw
          (
            none_exactly (trimmed publication) rows apart,
            kept_others (trimmed publication) rows apart,
          )
          refl,
    )
