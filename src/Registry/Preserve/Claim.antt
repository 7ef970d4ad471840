-- ===== src/Registry/Preserve/Claim.antt =====
-- Claiming a Project Domain keeps the tables consistent.
use sandcastle_incus.Prelude.{
  ◌≡◌, refl, sym, ◌∙◌, ap, subst, Bool, true, false, not, inl, inr, List, [], ◌∷◌, ◌++◌, All-imp,
  All-map, All-keep, All-keep_of, All-append, All-zip, All-of_find_first-none, Pairwise-keep,
  Pairwise-snoc, keep, keep-All, find_first, Option-cases, arith, Option, none, some, Result, ok,
  err, >>=-eq-ok,
}
use sandcastle_incus.Prelude.Text.{Text}
use sandcastle_incus.Registry.Tables.{
  ProjectDomainClaim, MachineHostname, Db, holds_claim, insert_claim, order_by,
}
use sandcastle_incus.Registry.Scan.{
  DomainClaimError, load_install_reservations, scan_project_domain_conflicts,
}
use sandcastle_incus.Registry.Claims.{
  ClaimError, ClaimProjectDomainRequest, claim_under_lock, claim_row, reserve_claim, settle,
  claim_project_domain, delete_claim, drop_previous, refuse_same, as_conflict, insert_or_conflict,
  write_claim,
}
use sandcastle_incus.Registry.Sound.{DomainClear, All-of_order_by, scan_project_domain_sound}
use sandcastle_incus.Registry.Invariant.{IsConsistent, ClaimsApart, Outside, RouteOutside}

-- The claims of every other project, in front of the new one.
abbrev pub replace_claim : ProjectDomainClaim → List ProjectDomainClaim → List ProjectDomainClaim
replace_claim claim claims =
    keep (λ c. not (holds_claim claim.tenant claim.project c)) claims ++ claim ∷ []

insert_claim-some :
    (row : ProjectDomainClaim) (db : Db) {db' : Db}
    → insert_claim row db ≡ some db'
    → db' ≡ record db { claims = db.claims ++ row ∷ [] }
unfolding insert_claim
insert_claim-some row db h = ground arith

insert_or_conflict_ok :
    (row : ProjectDomainClaim) (db : Db) {db' : Db}
    → insert_or_conflict row db ≡ ok db'
    → db' ≡ record db { claims = db.claims ++ row ∷ [] }
insert_or_conflict_ok row db h = elim (Option-cases (insert_claim row db)) [
  | inl e ↦ ground arith
  | inr (x, e) ↦ ground (arith, insert_claim-some row db e)
]

as_conflict_ok : (o : Option DomainClaimError) {u : Unit {0}} → as_conflict o ≡ ok u → o ≡ none
as_conflict_ok none h = refl
as_conflict_ok (some e) h = cc

-- Dropping the previous claim of the project leaves the claims of every other project.
drop_previous_claims :
    (previous : Option ProjectDomainClaim) (tenant project : Text) (db : Db)
    → previous
      ≡ find_first
          (holds_claim tenant project)
          (order_by (λ (c : ProjectDomainClaim). c.domain) db.claims)
    → drop_previous previous tenant project db
      ≡ record db { claims = keep (λ c. not (holds_claim tenant project c)) db.claims }
unfolding delete_claim
drop_previous_claims (some c) tenant project db h = refl
drop_previous_claims none tenant project db h =
    let free =
      All-of_order_by (λ c. holds_claim tenant project c ≡ false)
        (λ (c : ProjectDomainClaim). c.domain) db.claims
        (All-of_find_first-none (holds_claim tenant project) _ (sym h)) in
    let same =
      keep-All (λ c. not (holds_claim tenant project c)) db.claims
        (All-imp _ _ db.claims (λ c e. ap not e) free) in
    λ i. record db { claims = sym same i }

write_claim_ok :
    (claim : ProjectDomainClaim) (previous : Option ProjectDomainClaim) (db : Db) {db' : Db}
    → write_claim false claim previous db ≡ ok db'
    → previous
      ≡ find_first
          (holds_claim claim.tenant claim.project)
          (order_by (λ (c : ProjectDomainClaim). c.domain) db.claims)
    → db' ≡ record db { claims = replace_claim claim db.claims }
unfolding write_claim
write_claim_ok claim previous db h e =
    insert_or_conflict_ok claim (drop_previous previous claim.tenant claim.project db) h
    ∙ ap (λ (d : Db). record d { claims = d.claims ++ claim ∷ [] })
        (drop_previous_claims previous claim.tenant claim.project db e)

-- A Project Domain claim under the lock that is no dry run and goes through replaces the claim of
-- its own project in the table of claims, changes no other table, and is clear of every
-- reservation of the installation as it was read.
pub claim_granted :
    (req : ClaimProjectDomainRequest) (claim : ProjectDomainClaim) (db : Db)
    {previous : Option ProjectDomainClaim} {db' : Db}
    → req.dry_run ≡ false
    → claim_under_lock req claim db ≡ ok (previous, db')
    → (db' ≡ record db { claims = replace_claim claim db.claims })
      × DomainClear claim.domain claim.tenant claim.project
          (load_install_reservations req.auth_hostname req.route_base_domain db)
unfolding claim_under_lock load_install_reservations
claim_granted req claim db {previous} {db'} wet h =
    let reg = load_install_reservations req.auth_hostname req.route_base_domain db in
    let prev = find_first (holds_claim claim.tenant claim.project) reg.claims in
    let (_, _, h₁) = >>=-eq-ok (refuse_same prev claim.domain) _ h in
    let (_, clear, h₂) =
      >>=-eq-ok
        (as_conflict (scan_project_domain_conflicts claim.domain claim.tenant claim.project reg)) _
        h₁ in
    let (db₁, written, h₃) = >>=-eq-ok (write_claim req.dry_run claim prev db) _ h₂ in
    let same : db₁ ≡ db' = cc in
    (
      sym same ∙ write_claim_ok claim prev db (rw wet at written) refl,
      scan_project_domain_sound claim.domain claim.tenant claim.project reg
          (as_conflict_ok _ clear),
    )

not-true : (b : Bool) → not b ≡ true → b ≡ false
not-true b h = ground arith

-- A claim that the scan found clear can replace the one of its project.
pub replace_claim-IsConsistent :
    (claim : ProjectDomainClaim) (auth_hostname route_base_domain : Text) (db : Db)
    → IsConsistent db
    → DomainClear claim.domain claim.tenant claim.project
        (load_install_reservations auth_hostname route_base_domain db)
    → IsConsistent (record db { claims = replace_claim claim db.claims })
unfolding load_install_reservations
replace_claim-IsConsistent claim auth_hostname route_base_domain db safe clear =
    let others = λ (c : ProjectDomainClaim). not (holds_claim claim.tenant claim.project c) in
    record {
      claims_apart =
          Pairwise-snoc ClaimsApart (keep others db.claims) claim
            (Pairwise-keep ClaimsApart others db.claims safe.claims_apart)
            (All-keep_of (λ c. ClaimsApart c claim) others db.claims
              (All-imp _ _ db.claims
                (λ c apart other. let free = not-true _ other in (apart free, free))
                (All-of_order_by _ (λ (c : ProjectDomainClaim). c.domain) db.claims clear.claims)));
      hostnames_apart = safe.hostnames_apart;
      outside =
          All-imp _ _ db.hostnames
            (λ h p.
              All-append (Outside h) (keep others db.claims) (claim ∷ [])
                (All-keep (Outside h) others db.claims p.0) (inl p.1, tt))
            (All-zip _ _ db.hostnames safe.outside (
              All-of_order_by _ (λ (h : MachineHostname). h.hostname) db.hostnames
                clear.hostnames));
      routes_claims =
          All-imp _ _ db.routes
            (λ r p.
              All-append (λ (c : ProjectDomainClaim). RouteOutside r c.domain)
                (keep others db.claims) (claim ∷ [])
                (All-keep (λ (c : ProjectDomainClaim). RouteOutside r c.domain) others db.claims
                  p.0)
                (p.1, tt))
            (All-zip _ _ db.routes safe.routes_claims (All-map _ _ db.routes clear.routes));
      routes_hostnames = safe.routes_hostnames;
    }

-- The rule of the reservation transaction: what holds before, and after every commit, holds.
pub settle-keeps {ℓ κ μ} :
    {E : Type ℓ} {A : Type κ} (P : Db → Type μ) (dry_run : Bool) (r : Result E (A × Db)) (db : Db)
    → P db
    → ((a : A) (db' : Db) → dry_run ≡ false → r ≡ ok (a, db') → P db')
    → P (settle dry_run r db).1
settle-keeps P true (ok (a, db')) db h f = h
settle-keeps P false (ok (a, db')) db h f = f a db' refl refl
settle-keeps P dry_run (err e) db h f = h

reserve_claim-IsConsistent :
    (req : ClaimProjectDomainRequest) (asked : Result ClaimError ProjectDomainClaim) (db : Db)
    → IsConsistent db
    → IsConsistent (reserve_claim req asked db).1
unfolding reserve_claim
reserve_claim-IsConsistent req (err e) db safe = safe
reserve_claim-IsConsistent req (ok claim) db safe =
    settle-keeps IsConsistent req.dry_run _ db safe λ a db' wet h.
      let ((previous, db₁), done, e) = >>=-eq-ok (claim_under_lock req claim db) _ h in
      let (written, clear) = claim_granted req claim db wet done in
      let same : db₁ ≡ db' = cc in
      subst IsConsistent (sym written ∙ same)
        (replace_claim-IsConsistent claim req.auth_hostname req.route_base_domain db safe clear)

-- ClaimProjectDomain keeps a consistent registry consistent, on every branch.
pub claim_project_domain-IsConsistent :
    (now : Text) (req : ClaimProjectDomainRequest) (db : Db)
    → IsConsistent db
    → IsConsistent (claim_project_domain now req db).1
unfolding claim_project_domain
claim_project_domain-IsConsistent now req db =
    reserve_claim-IsConsistent req (claim_row now req db) db
