-- ===== src/Registry/Hostnames/Texts.antt =====
-- internal/authapp/machine_hostnames.go: the texts of refusals.
use sandcastle_incus.Prelude.{◌∷◌, ◌++◌, if◌then◌else◌}
use sandcastle_incus.Prelude.Text.{Text, codes, quote}
use sandcastle_incus.Registry.Scan.{HostnameConflict, HostnameClaimError}

abbrev pub anonymous_hostname_text : Text → Text
anonymous_hostname_text hostname =
    codes "machine hostname "
    ++ (quote hostname ++ codes " overlaps a name already claimed on this install; choose another")

abbrev pub reserved_hostname_text : Text → Text
reserved_hostname_text hostname =
    codes "machine hostname " ++ (quote hostname ++ codes " is reserved by this install")

abbrev pub overlap_text : HostnameClaimError → Text → Text → Text → Text
overlap_text e what holder name =
    codes "machine hostname "
    ++ (quote e.hostname
        ++ (what ++ (quote e.existing ++ (holder ++ (quote name ++ codes " in this tenant")))))

abbrev pub show_by_class : HostnameConflict → HostnameClaimError → Text
show_by_class HostnameConflict.install e = reserved_hostname_text e.hostname
show_by_class HostnameConflict.route e = reserved_hostname_text e.hostname
show_by_class HostnameConflict.domain e =
    if e.same_tenant
    then overlap_text e (codes " overlaps project domain ") (codes " claimed by project ") e.project
    else anonymous_hostname_text e.hostname
show_by_class _ e =
    if e.same_tenant
    then overlap_text e (codes " overlaps ") (codes " held by machine ")
        (e.project ++ b':' ∷ e.machine)
    else anonymous_hostname_text e.hostname

-- `HostnameClaimError.Error`
unfoldable pub show_hostname_claim_error : HostnameClaimError → Text
show_hostname_claim_error e = show_by_class e.class e
