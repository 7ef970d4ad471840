-- ===== src/Registry/Preserve/Hostname.antt =====
-- Claiming a Machine Public Hostname keeps the tables consistent.
use sandcastle_incus.Prelude.{
  ◌≡◌, refl, sym, ◌∙◌, subst, Bool, true, false, not, inl, inr, [], ◌∷◌, ◌++◌, All, All-imp,
  All-map, All-of_keep, All-append, All-zip, All-of_exists_false, All-of_find_first-none,
  Pairwise-snoc, ◌≢◌, ||-eq-false, find_first, exists, Bool-cases, arith, Option, none, some, ◌&&◌,
  Result, ok, err, >>=-eq-ok,
}
use sandcastle_incus.Prelude.Text.{Text, teq, teq_iff, no_suffix, to_lower}
use sandcastle_incus.Registry.Tables.{
  ProjectDomainClaim, MachineHostname, Db, holds_hostname, insert_hostname, bare,
}
use sandcastle_incus.Registry.Scan.{
  HostnameClaimError, load_install_reservations, scan_machine_hostname_conflicts,
}
use sandcastle_incus.Registry.Hostnames.{
  HostnameError, ClaimMachineHostnameRequest, below_own_domain, may_coexist, is_derived_name,
  tunnel_reserves, refuse_tunnel, refuse_held, refuse_derived, as_conflict, or_conflict,
  write_hostname, foreign_reservations, claim_under_lock, hostname_row, reserve_hostname,
  claim_machine_hostname,
}
use sandcastle_incus.Registry.Sound.{HostnameClear, All-of_order_by, scan_machine_hostname_sound}
use sandcastle_incus.Registry.Invariant.{IsConsistent, HostnamesApart, Outside, RouteOutside}
use sandcastle_incus.Registry.Preserve.Claim.{settle-keeps}

-- The hostname is new, and was written.
abbrev pub IsAppended : MachineHostname → Db → Db → Type 0
IsAppended row db db' =
    (db' ≡ record db { hostnames = db.hostnames ++ row ∷ [] })
    × All (λ (h : MachineHostname). teq h.hostname row.hostname ≡ false) db.hostnames

some_eq {ℓ} : {A : Type ℓ} (x y : A) → some x ≡ some y → x ≡ y
some_eq x y h = cc

none_not_some {ℓ} : {A : Type ℓ} (x : A) → ¬ (none ≡ some x)
none_not_some x h = cc

insert_hostname-some :
    (row : MachineHostname) (db : Db) {db' : Db}
    → insert_hostname row db ≡ some db'
    → IsAppended row db db'
unfolding insert_hostname
insert_hostname-some row db h =
    let taken = λ (e : MachineHostname). teq e.hostname row.hostname in
    elim (Bool-cases (exists taken db.hostnames)) [
      | inl e ↦ absurd (none_not_some _ (rw e at h))
      | inr e ↦ (sym (some_eq _ _ (rw e at h)), All-of_exists_false taken db.hostnames e)
    ]

or_conflict_ok :
    (row : MachineHostname) (o : Option Db) {db' : Db} → or_conflict row o ≡ ok db' → o ≡ some db'
or_conflict_ok row (some x) h = cc
or_conflict_ok row none h = cc

write_hostname_ok :
    (row : MachineHostname) (db : Db) {db' : Db}
    → write_hostname false row db ≡ ok db'
    → IsAppended row db db'
unfolding write_hostname
write_hostname_ok row db h =
    insert_hostname-some row db (or_conflict_ok row (insert_hostname row db) h)

as_conflict_ok : (o : Option HostnameClaimError) {u : Unit {0}} → as_conflict o ≡ ok u → o ≡ none
as_conflict_ok none h = refl
as_conflict_ok (some e) h = cc

tunnel_none :
    (norm : Text) (o : Option Text) {u : Unit {0}} → refuse_tunnel norm o ≡ ok u → o ≡ none
tunnel_none norm none h = refl
tunnel_none norm (some t) h = cc

-- The tunnel's hostname is not the name and, in lower case, does not end in a dot and the name.
abbrev pub TunnelApart : Text → Text → Type 0
TunnelApart norm tunnel =
    (tunnel ≢ norm) × ((r : Text) → to_lower tunnel ≢ r ++ b'.' ∷ to_lower norm)

tunnel_apart : (norm tunnel : Text) → tunnel_reserves norm tunnel ≡ false → TunnelApart norm tunnel
unfolding tunnel_reserves
tunnel_apart norm tunnel h =
    let (other, no_end) = ||-eq-false (teq tunnel norm) _ h in
    (
      (λ same. contradiction _ ((teq_iff tunnel norm).1 same) other),
      no_suffix (to_lower tunnel) (b'.' ∷ to_lower norm) no_end,
    )
  where
    contradiction : (b : Bool) → b ≡ true → ¬ (b ≡ false)
    contradiction b p q = cc

-- A Machine Public Hostname claim under the lock that is no dry run and goes through appends one
-- row under a new name, changes no other table, and is clear of every reservation with which it
-- may not coexist; no tunnel has the hostname as it is claimed, or ends, in lower case, in a dot
-- and the claimed hostname. For a wildcard that text has the star in it, so a tunnel one label
-- below the name of the wildcard is not excluded.
pub hostname_granted :
    (req : ClaimMachineHostnameRequest) (row : MachineHostname) (db : Db) {db' : Db}
    → req.dry_run ≡ false
    → claim_under_lock req row db ≡ ok db'
    → IsAppended row db db'
      × HostnameClear (bare row.hostname) (
          foreign_reservations row
            (load_install_reservations req.auth_hostname req.route_base_domain db))
      × All (TunnelApart row.hostname) db.tunnels
unfolding claim_under_lock
hostname_granted req row db {db'} wet h =
    let reg = load_install_reservations req.auth_hostname req.route_base_domain db in
    let tunnel = find_first (tunnel_reserves row.hostname) db.tunnels in
    let held =
      find_first
        (λ (e : MachineHostname).
          teq e.hostname row.hostname && holds_hostname row.tenant row.project row.machine e)
        reg.hostnames in
    let scan =
      scan_machine_hostname_conflicts row.hostname row.tenant (foreign_reservations row reg) in
    let (_, no_tunnel, h₁) = >>=-eq-ok (refuse_tunnel row.hostname tunnel) _ h in
    let (_, _, h₂) = >>=-eq-ok (refuse_held held) _ h₁ in
    let (_, _, h₃) =
      >>=-eq-ok (refuse_derived row (find_first (is_derived_name row) reg.claims)) _ h₂ in
    let (_, clear, written) = >>=-eq-ok (as_conflict scan) _ h₃ in
    (
      write_hostname_ok row db (subst (λ b. write_hostname b row db ≡ ok db') wet written),
      scan_machine_hostname_sound row.hostname row.tenant (foreign_reservations row reg)
          (as_conflict_ok scan clear),
      All-imp _ _ db.tunnels (tunnel_apart row.hostname) (
          All-of_find_first-none (tunnel_reserves row.hostname) db.tunnels
            (tunnel_none row.hostname tunnel no_tunnel)),
    )

not_of_false : (b : Bool) → b ≡ false → not b ≡ true
not_of_false b h = ground arith

-- A hostname that the scan found clear can be added.
pub append_hostname-IsConsistent :
    (row : MachineHostname) (auth_hostname route_base_domain : Text) (db : Db)
    → IsConsistent db
    → All (λ (h : MachineHostname). teq h.hostname row.hostname ≡ false) db.hostnames
    → HostnameClear
        (bare row.hostname)
        (foreign_reservations row (load_install_reservations auth_hostname route_base_domain db))
    → IsConsistent (record db { hostnames = db.hostnames ++ row ∷ [] })
unfolding load_install_reservations foreign_reservations
append_hostname-IsConsistent row auth_hostname route_base_domain db safe fresh clear = record {
  claims_apart = safe.claims_apart;
  hostnames_apart = Pairwise-snoc HostnamesApart db.hostnames row safe.hostnames_apart (
      All-imp _ _ db.hostnames
        (λ h p. (
          p.0,
          elim (Bool-cases (may_coexist row h)) [
            | inl e ↦ inr e
            | inr e ↦ inl (p.1 (not_of_false _ e))
          ],
        ))
        (All-zip _ _ db.hostnames fresh (
          All-of_order_by _ (λ (h : MachineHostname). h.hostname) db.hostnames
            (All-of_keep _ (λ e. not (may_coexist row e)) _ clear.hostnames))));
  outside =
      All-append (λ h. All (Outside h) db.claims) db.hostnames (row ∷ []) safe.outside
        (
          All-imp _ _ db.claims
              (λ c p. elim (Bool-cases (below_own_domain row c)) [
                | inl e ↦ inr e
                | inr e ↦ inl (p (not_of_false _ e))
              ])
              (All-of_order_by _ (λ (c : ProjectDomainClaim). c.domain) db.claims
                (All-of_keep _ (λ c. not (below_own_domain row c)) _ clear.claims)),
          tt,
        );
  routes_claims = safe.routes_claims;
  routes_hostnames =
      All-imp _ _ db.routes
        (λ r p.
          All-append (λ (h : MachineHostname). RouteOutside r (bare h.hostname)) db.hostnames
            (row ∷ []) p.0 (p.1, tt))
        (All-zip _ _ db.routes safe.routes_hostnames (All-map _ _ db.routes clear.routes));
}

reserve_hostname-IsConsistent :
    (req : ClaimMachineHostnameRequest) (asked : Result HostnameError MachineHostname) (db : Db)
    → IsConsistent db
    → IsConsistent (reserve_hostname req asked db).1
unfolding reserve_hostname
reserve_hostname-IsConsistent req (err e) db safe = safe
reserve_hostname-IsConsistent req (ok row) db safe =
    settle-keeps IsConsistent req.dry_run _ db safe λ a db' wet h.
      let (db₁, done, e) = >>=-eq-ok (claim_under_lock req row db) _ h in
      let ((written, fresh), clear, _) = hostname_granted req row db wet done in
      let same : db₁ ≡ db' = cc in
      subst IsConsistent (sym written ∙ same) (
        append_hostname-IsConsistent row req.auth_hostname req.route_base_domain db safe fresh
          clear)

-- ClaimMachineHostname keeps a consistent registry consistent, on every branch.
pub claim_machine_hostname-IsConsistent :
    (now : Text) (req : ClaimMachineHostnameRequest) (db : Db)
    → IsConsistent db
    → IsConsistent (claim_machine_hostname now req db).1
unfolding claim_machine_hostname
claim_machine_hostname-IsConsistent now req db =
    reserve_hostname-IsConsistent req (hostname_row now req db) db
