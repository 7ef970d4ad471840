-- ===== src/Registry/Claims/Texts.antt =====
-- internal/authapp/project_domain_claims.go: the texts of refusals, which the handlers print as they are.
use sandcastle_incus.Prelude.{List, [], ◌∷◌, ◌++◌, if◌then◌else◌}
use sandcastle_incus.Prelude.Text.{Text, codes, quote}
use sandcastle_incus.Domain.{is_nil}
use sandcastle_incus.Registry.Scan.{DomainConflict, DomainClaimError}
use sandcastle_incus.Registry.Claims.Defs.{ProjectDomainError, no_zone, apex, too_long}

abbrev pub reserved_text : Text → Text
reserved_text domain =
    codes "project domain " ++ (quote domain ++ codes " is reserved by this install")

abbrev pub anonymous_text : Text → Text
anonymous_text domain =
    codes "project domain "
    ++ (quote domain ++ codes " overlaps a domain already claimed on this install; choose another")

abbrev pub own_text : DomainClaimError → Text
own_text e =
    codes "project domain "
    ++ (quote e.domain
        ++ (codes " overlaps "
            ++ (quote e.existing
                ++ (codes " claimed by project " ++ (quote e.project ++ codes " in this tenant")))))

abbrev pub own_hostname_text : DomainClaimError → Text
own_hostname_text e =
    codes "project domain "
    ++ (quote e.domain
        ++ (codes " overlaps hostname "
            ++ (quote e.existing
                ++ (codes " held by machine "
                    ++ (quote (e.project ++ b':' ∷ e.machine) ++ codes " in this tenant")))))

abbrev pub show_by_class : DomainConflict → DomainClaimError → Text
show_by_class DomainConflict.install e = reserved_text e.domain
show_by_class DomainConflict.route e = reserved_text e.domain
show_by_class DomainConflict.hostname e =
    if e.same_tenant then own_hostname_text e else anonymous_text e.domain
show_by_class _ e = if e.same_tenant then own_text e else anonymous_text e.domain

-- `DomainClaimError.Error`
unfoldable pub show_domain_claim_error : DomainClaimError → Text
show_domain_claim_error e = show_by_class e.class e

-- `strings.Join`
unfoldable pub join : Text → List Text → Text
join sep [] = []
join sep (t ∷ []) = t
join sep (t ∷ u ∷ ts) = t ++ (sep ++ join sep (u ∷ ts))

-- The bytes of the dash in the text for tenants.
abbrev pub em_dash : Text
em_dash = 226 ∷ 128 ∷ 148 ∷ []

-- `ProjectDomainError.Error`: only an admin is shown the zones.
unfoldable pub show_project_domain_error : ProjectDomainError → Text
show_project_domain_error (no_zone domain zones admin_view) =
    let listed = join (codes ", ") zones in
    if admin_view
    then codes "no Public DNS Zone covers "
      ++ (domain
          ++ (codes "; registered zones: " ++ (if is_nil listed then codes "(none)" else listed)))
    else codes "no Public DNS Zone covers "
      ++ (domain ++ (b' ' ∷ (em_dash ++ codes " ask your admin")))
show_project_domain_error (apex domain zone) =
    codes "project domain "
    ++ (quote domain ++ (codes " is a zone apex; claim at least one label below " ++ zone))
show_project_domain_error (too_long domain) =
    codes "project domain "
    ++ (quote domain
        ++ codes " is too long: \"*.<63-char machine>.<d>\" must fit in 253 characters")
