-- ===== src/Registry/Tests/Discretion.antt =====
-- The refusals of the small registry.
use sandcastle_incus.Prelude.{◌≡◌, refl, false, [], ◌∷◌, some}
use sandcastle_incus.Prelude.Text.{codes, teq, has_suffix}
use sandcastle_incus.Registry.Tables.{under}
use sandcastle_incus.Registry.Scan.{
  DomainConflict, DomainClaimError, scan_project_domain_claim_conflicts,
}
use sandcastle_incus.Registry.Privacy.{IsDiscreet, scan_claims-IsDiscreet}
use sandcastle_incus.Registry.Tests.Sample.{shop_claim}

-- Bob asks for a name below Ann's domain.
abbrev refusal : DomainClaimError
refusal = record {
  domain = codes "a.shop.ex.dev";
  existing = codes "shop.ex.dev";
  project = codes "web";
  machine = [];
  class = DomainConflict.descendant;
  same_tenant = false;
}

refusal_run :
    scan_project_domain_claim_conflicts
      (codes "a.shop.ex.dev")
      (codes "bob")
      (codes "db")
      (shop_claim ∷ [])
    ≡ some refusal
unfolding scan_project_domain_claim_conflicts teq under has_suffix
refusal_run = refl

scan_claims-IsDiscreet_example :
    IsDiscreet (codes "a.shop.ex.dev") (codes "bob") (shop_claim ∷ []) refusal
scan_claims-IsDiscreet_example =
    scan_claims-IsDiscreet (codes "a.shop.ex.dev") (codes "bob") (codes "db") (shop_claim ∷ [])
      refusal refusal_run
