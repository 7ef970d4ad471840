-- ===== src/Share/Tests/Sample.antt =====
-- Three tenants, one share, and a store with it.
use sandcastle_incus.Prelude.{Bool, true, false, List, [], ◌∷◌, ◌++◌, if◌then◌else◌, ok}
use sandcastle_incus.Prelude.Text.{Text, codes, teq}
use sandcastle_incus.Share.Types.{
  TenantStorageShare, Summary, World, recipient_state_accepted, availability_available,
}
use sandcastle_incus.Share.Create.{offer_to}
use sandcastle_incus.Share.Distinct.{IsDistinct}
use sandcastle_incus.Share.Invariant.{HasDistinctIds}

abbrev pub tenant_named : Text → Summary
tenant_named name = record {
  incus_name = codes "sc2-" ++ name;
  infra_project = codes "sc2-" ++ name;
  tenant = name;
  projects = codes "web" ∷ [];
}

abbrev pub tenants : List Summary
tenants = tenant_named (codes "ann") ∷ tenant_named (codes "bob") ∷ tenant_named (codes "eve") ∷ []

abbrev pub photos : TenantStorageShare
photos = record {
  source_tenant = codes "ann";
  source_project = codes "web";
  source_dir = codes "photos/2026";
  name = codes "photos";
  availability = availability_available;
  created_by = codes "ann";
  created_at = codes "2026-01-02T03:04:05Z";
  recipients =
      offer_to (codes "ann") (codes "2026-01-02T03:04:05Z") (codes "bob")
      ∷ offer_to (codes "ann") (codes "2026-01-02T03:04:05Z") (codes "eve")
      ∷ [];
}

-- The copy of the one who accepted.
abbrev pub copy_of_bob : TenantStorageShare
copy_of_bob = record photos {
  recipients = record (offer_to [] [] (codes "bob")) { state = recipient_state_accepted } ∷ [];
}

abbrev pub stored : Text → List TenantStorageShare
stored n =
    if teq n (codes "sc2-ann")
    then photos ∷ []
    else if teq n (codes "sc2-bob")
    then copy_of_bob ∷ []
    else []

stored-IsDistinct :
    (a b : Bool) → IsDistinct (if a then photos ∷ [] else if b then copy_of_bob ∷ [] else [])
stored-IsDistinct true b = (tt, tt)
stored-IsDistinct false true = (tt, tt)
stored-IsDistinct false false = tt

abbrev pub world_of : (Text → List TenantStorageShare) → World
world_of shares = record {
  shares = shares;
  read_fails = λ n. false;
  write_fails = λ n. false;
  directory = λ n d. ok (record { is_there = true; safe = true; reason = [] });
  clock = codes "2026-01-02T03:04:05Z";
}

pub stored-HasDistinctIds : HasDistinctIds (world_of stored)
stored-HasDistinctIds n = stored-IsDistinct (teq n (codes "sc2-ann")) (teq n (codes "sc2-bob"))
