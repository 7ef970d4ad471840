-- ===== src/Registry/Sound.antt =====
-- What it means that a conflict scan finds nothing.
use sandcastle_incus.Prelude.{
  ◌≡◌, refl, true, false, ◌⊎◌, inl, inr, List, [], ◌∷◌, All, All-map, Bool-cases, arith, Option,
  none, some,
}
use sandcastle_incus.Prelude.Text.{Text, teq_comm, text_lt}
use sandcastle_incus.Domain.{is_nil}
use sandcastle_incus.Registry.Tables.{
  ProjectDomainClaim, MachineHostname, holds_claim, bare, normalize_hostname, insert_by, order_by,
  InstallReservations,
}
use sandcastle_incus.Registry.Scan.{
  DomainConflict, HostnameConflict, domain_reserved, hostname_reserved, or_else, meets, scan_names,
  scan_project_domain_claim_conflicts, scan_project_domain_hostname_conflicts,
  scan_project_domain_conflicts, scan_hostname_claims, scan_hostname_hostnames,
  scan_machine_hostname_conflicts,
}
use sandcastle_incus.Registry.Overlap.{overlaps}

module _ {ℓ κ} {A : Type ℓ} (P : A → Type κ) (key : A → Text) where
  All-of_insert_by : (x : A) (ys : List A) → All P (insert_by key x ys) → P x × All P ys
  unfolding insert_by
  All-of_insert_by x [] h = (h.0, tt)
  All-of_insert_by x (y ∷ ys) h = elim (Bool-cases (text_lt (key y) (key x))) [
    | inl e ↦
        let h' : P y × All P (insert_by key x ys) = rw e at h in
        let (px, rest) = All-of_insert_by x ys h'.1 in (px, (h'.0, rest))
    | inr e ↦ let h' : P x × (P y × All P ys) = rw e at h in h'
  ]

  -- Sorting keeps every row.
  pub All-of_order_by : (xs : List A) → All P (order_by key xs) → All P xs
  unfolding order_by
  All-of_order_by [] h = tt
  All-of_order_by (x ∷ xs) h =
      let (px, rest) = All-of_insert_by x (order_by key xs) h in (px, All-of_order_by xs rest)

pub or_else-none {ℓ} : {A : Type ℓ} (a b : Option A) → or_else a b ≡ none → (a ≡ none) × (b ≡ none)
or_else-none none b h = (refl, h)
or_else-none (some x) b h = cc

pub scan_names_sound :
    (d : Text) (names : List Text)
    → scan_names d names ≡ none
    → All (λ name. (is_nil name ≡ true) ⊎ (meets name d ≡ false)) names
unfolding scan_names
scan_names_sound d [] h = tt
scan_names_sound d (name ∷ names) h = (ground arith, scan_names_sound d names (ground arith))

pub scan_claims_sound :
    (d tenant project : Text) (claims : List ProjectDomainClaim)
    → scan_project_domain_claim_conflicts d tenant project claims ≡ none
    → All (λ c. holds_claim tenant project c ≡ false → overlaps c.domain d ≡ false) claims
unfolding scan_project_domain_claim_conflicts overlaps
scan_claims_sound d tenant project [] h = tt
scan_claims_sound d tenant project (c ∷ claims) h =
    ((λ free. ground arith), scan_claims_sound d tenant project claims (ground arith))

pub scan_domain_hostnames_sound :
    (d tenant : Text) (hostnames : List MachineHostname)
    → scan_project_domain_hostname_conflicts d tenant hostnames ≡ none
    → All (λ (h : MachineHostname). overlaps d (bare h.hostname) ≡ false) hostnames
unfolding scan_project_domain_hostname_conflicts overlaps
scan_domain_hostnames_sound d tenant [] h = tt
scan_domain_hostnames_sound d tenant (e ∷ hostnames) h = (
  ground (arith, teq_comm d (bare e.hostname)),
  scan_domain_hostnames_sound d tenant hostnames (ground arith),
)

pub scan_hostname_claims_sound :
    (h tenant : Text) (claims : List ProjectDomainClaim)
    → scan_hostname_claims h tenant claims ≡ none
    → All (λ (c : ProjectDomainClaim). overlaps c.domain h ≡ false) claims
unfolding scan_hostname_claims overlaps
scan_hostname_claims_sound h tenant [] e = tt
scan_hostname_claims_sound h tenant (c ∷ claims) e =
    (ground arith, scan_hostname_claims_sound h tenant claims (ground arith))

pub scan_hostname_hostnames_sound :
    (h tenant : Text) (hostnames : List MachineHostname)
    → scan_hostname_hostnames h tenant hostnames ≡ none
    → All (λ (e : MachineHostname). overlaps (bare e.hostname) h ≡ false) hostnames
unfolding scan_hostname_hostnames overlaps
scan_hostname_hostnames_sound h tenant [] e = tt
scan_hostname_hostnames_sound h tenant (x ∷ hostnames) e =
    (ground arith, scan_hostname_hostnames_sound h tenant hostnames (ground arith))

-- What a Project Domain that passes the scan is clear of.
pub record DomainClear (d tenant project : Text) (reg : InstallReservations) : Type 0 where
  pub names :
      All
        (λ name. (is_nil name ≡ true) ⊎ (meets name d ≡ false))
        (normalize_hostname reg.auth_hostname ∷ normalize_hostname reg.route_base_domain ∷ [])
  pub routes :
      All
        (λ r.
          (is_nil (bare (normalize_hostname r)) ≡ true)
          ⊎ (meets (bare (normalize_hostname r)) d ≡ false))
        reg.routes
  pub claims :
      All (λ c. holds_claim tenant project c ≡ false → overlaps c.domain d ≡ false) reg.claims
  pub hostnames : All (λ (h : MachineHostname). overlaps d (bare h.hostname) ≡ false) reg.hostnames

reserved_none :
    (d : Text) (class : DomainConflict) (o : Option Text)
    → domain_reserved d class o ≡ none
    → o ≡ none
reserved_none d class none h = refl
reserved_none d class (some n) h = cc

pub scan_project_domain_sound :
    (d tenant project : Text) (reg : InstallReservations)
    → scan_project_domain_conflicts d tenant project reg ≡ none
    → DomainClear d tenant project reg
unfolding scan_project_domain_conflicts
scan_project_domain_sound d tenant project reg h =
    let (install, h₁) = or_else-none _ _ h in
    let (route, h₂) = or_else-none _ _ h₁ in
    let (claim, hostname) = or_else-none _ _ h₂ in
    record {
      names = scan_names_sound d _ (reserved_none d DomainConflict.install _ install);
      routes =
          All-map _ _ reg.routes
            (scan_names_sound d _ (reserved_none d DomainConflict.route _ route));
      claims = scan_claims_sound d tenant project reg.claims claim;
      hostnames = scan_domain_hostnames_sound d tenant reg.hostnames hostname;
    }

-- What a Machine Public Hostname that passes the scan is clear of; `h` has no wildcard in front.
pub record HostnameClear (h : Text) (reg : InstallReservations) : Type 0 where
  pub names :
      All
        (λ name. (is_nil name ≡ true) ⊎ (meets name h ≡ false))
        (normalize_hostname reg.auth_hostname ∷ normalize_hostname reg.route_base_domain ∷ [])
  pub routes :
      All
        (λ r.
          (is_nil (bare (normalize_hostname r)) ≡ true)
          ⊎ (meets (bare (normalize_hostname r)) h ≡ false))
        reg.routes
  pub claims : All (λ (c : ProjectDomainClaim). overlaps c.domain h ≡ false) reg.claims
  pub hostnames : All (λ (e : MachineHostname). overlaps (bare e.hostname) h ≡ false) reg.hostnames

held_none :
    (h : Text) (class : HostnameConflict) (o : Option Text)
    → hostname_reserved h class o ≡ none
    → o ≡ none
held_none h class none e = refl
held_none h class (some n) e = cc

pub scan_machine_hostname_sound :
    (name tenant : Text) (reg : InstallReservations)
    → scan_machine_hostname_conflicts name tenant reg ≡ none
    → HostnameClear (bare name) reg
unfolding scan_machine_hostname_conflicts
scan_machine_hostname_sound name tenant reg h =
    let (install, h₁) = or_else-none _ _ h in
    let (route, h₂) = or_else-none _ _ h₁ in
    let (claim, hostname) = or_else-none _ _ h₂ in
    record {
      names =
          scan_names_sound (bare name) _ (held_none (bare name) HostnameConflict.install _ install);
      routes =
          All-map _ _ reg.routes
            (scan_names_sound (bare name) _ (held_none (bare name) HostnameConflict.route _ route));
      claims = scan_hostname_claims_sound (bare name) tenant reg.claims claim;
      hostnames = scan_hostname_hostnames_sound (bare name) tenant reg.hostnames hostname;
    }
