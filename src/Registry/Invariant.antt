-- ===== src/Registry/Invariant.antt =====
-- When the tables of the registry are consistent: no two reservations share a name, but for those
-- that the program lets coexist.
use sandcastle_incus.Prelude.{◌≡◌, true, false, ◌⊎◌, All, Pairwise}
use sandcastle_incus.Prelude.Text.{Text, teq}
use sandcastle_incus.Domain.{is_nil}
use sandcastle_incus.Registry.Tables.{
  ProjectDomainClaim, MachineHostname, Route, Db, holds_claim, bare, normalize_hostname,
}
use sandcastle_incus.Registry.Scan.{meets}
use sandcastle_incus.Registry.Hostnames.{below_own_domain, may_coexist}
use sandcastle_incus.Registry.Overlap.{overlaps}

-- Two claims: their domains are disjoint, and they are held by two projects.
abbrev pub ClaimsApart : ProjectDomainClaim → ProjectDomainClaim → Type 0
ClaimsApart c e = (overlaps c.domain e.domain ≡ false) × (holds_claim e.tenant e.project c ≡ false)

-- Two hostnames: two names, disjoint unless one machine holds both and one is a wildcard.
abbrev pub HostnamesApart : MachineHostname → MachineHostname → Type 0
HostnamesApart h e =
    (teq h.hostname e.hostname ≡ false)
    × ((overlaps (bare h.hostname) (bare e.hostname) ≡ false) ⊎ (may_coexist e h ≡ true))

-- A hostname and a claim: disjoint unless the hostname lies below the domain of its own project.
abbrev pub Outside : MachineHostname → ProjectDomainClaim → Type 0
Outside h c = (overlaps c.domain (bare h.hostname) ≡ false) ⊎ (below_own_domain h c ≡ true)

-- A route's hostname is neither a reserved name nor below it.
abbrev pub RouteOutside : Route → Text → Type 0
RouteOutside r name =
    (is_nil (bare (normalize_hostname r.hostname)) ≡ true)
    ⊎ (meets (bare (normalize_hostname r.hostname)) name ≡ false)

pub record IsConsistent (db : Db) : Type 0 where
  pub claims_apart : Pairwise ClaimsApart db.claims
  pub hostnames_apart : Pairwise HostnamesApart db.hostnames
  pub outside : All (λ h. All (Outside h) db.claims) db.hostnames
  pub routes_claims :
      All
        (λ (r : Route). All (λ (c : ProjectDomainClaim). RouteOutside r c.domain) db.claims)
        db.routes
  pub routes_hostnames :
      All
        (λ (r : Route).
          All (λ (h : MachineHostname). RouteOutside r (bare h.hostname)) db.hostnames)
        db.routes
