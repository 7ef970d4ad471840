-- ===== src/Dns/Render.antt =====
-- internal/dns/render.go and apply.go: the configuration of a tenant's name server.
use sandcastle_incus.Prelude.{
  ℕ, Bool, not, ◌||◌, List, [], ◌∷◌, ◌++◌, if◌then◌else◌, length, ◌+◌, ◌*◌, Result, err, ok, ◌>>=◌,
}
use sandcastle_incus.Prelude.Text.{Text, codes, teq, text_lt, trim_space, trim_suffix, to_lower}
use sandcastle_incus.Domain.{is_nil}
use sandcastle_incus.Naming.{default_project_name}
use sandcastle_incus.Share.Names.{sort_with}
use sandcastle_incus.Share.Paths.{path_join}

pub record File : Type 0 where
  pub path : Text
  pub content : Text
  pub mode : ℕ

-- internal/meta/meta.go: what the name server is told of a machine.
pub record Machine : Type 0 where
  pub project : Text
  pub name : Text
  pub private_ip : Text

pub data DnsError : Type 0 where
  suffix_required address_required : DnsError
  bad_cidr : Text → DnsError

abbrev newline : Text
newline = 10 ∷ []

abbrev pub self_resolver_path : Text
self_resolver_path = codes "/etc/resolv.conf"

abbrev pub self_resolver_content : Text
self_resolver_content = codes "nameserver 127.0.0.1" ++ newline

abbrev pub upstream_resolver_path : Text
upstream_resolver_path = codes "/etc/coredns/upstream-resolv.conf"

abbrev pub upstream_resolver_content : Text
upstream_resolver_content =
    codes "nameserver 1.1.1.1" ++ (newline ++ (codes "nameserver 8.8.8.8" ++ newline))

abbrev pub machine_lt : Machine → Machine → Bool
machine_lt a b =
    if teq a.project b.project then text_lt a.name b.name else text_lt a.project b.project

-- `name + "." + domain + "."`, and with the project between.
abbrev pub short_name : Text → Machine → Text
short_name domain m = m.name ++ b'.' ∷ (domain ++ b'.' ∷ [])

abbrev pub full_name : Text → Machine → Text
full_name domain m = m.name ++ b'.' ∷ (m.project ++ b'.' ∷ (domain ++ b'.' ∷ []))

-- The names of a machine in the zone.
unfoldable pub record_names : Text → Text → Machine → List Text
record_names domain default_project m =
    if is_nil m.name || is_nil m.private_ip
    then []
    else (if is_nil m.project || teq m.project default_project
        then short_name domain m ∷ []
        else [])
      ++ (if not (is_nil m.project) then full_name domain m ∷ [] else [])

abbrev pub record_lines : Text → Text → Text
record_lines name ip =
    name
    ++ (codes " IN A "
        ++ (ip ++ (newline ++ (codes "*." ++ (name ++ (codes " IN A " ++ (ip ++ newline)))))))

abbrev pub all_lines : Text → List Text → Text
all_lines ip [] = []
all_lines ip (name ∷ names) = record_lines name ip ++ all_lines ip names

unfoldable pub zone_records : Text → Text → List Machine → Text
unfolding record_names
zone_records domain default_project [] = []
zone_records domain default_project (m ∷ machines) =
    all_lines m.private_ip (record_names domain default_project m)
    ++ zone_records domain default_project machines

unfoldable pub zone_header : Text → Text → Text
zone_header domain dns_address =
    codes "$ORIGIN "
    ++ (domain
        ++ (codes "."
            ++ (newline
                ++ (codes "$TTL 60"
                    ++ (newline
                        ++ (codes "@ IN SOA ns."
                            ++ (domain
                                ++ (codes ". hostmaster."
                                    ++ (domain
                                        ++ (codes ". 1 3600 600 604800 60"
                                            ++ (newline
                                                ++ (codes "@ IN NS ns."
                                                    ++ (domain
                                                        ++ (codes "."
                                                            ++ (newline
                                                            ++ (codes "ns IN A "
                                                            ++ (dns_address
                                                            ++ newline)))))))))))))))))

abbrev line : Text → Text → Text
line s rest = s ++ (newline ++ rest)

unfoldable pub corefile : Text → Text → Text
corefile domain zone_path = line (domain ++ codes ":53 {") (
    line (codes "    errors") (
      line (codes "    file " ++ (zone_path ++ (codes " " ++ domain))) (
        line (codes "}") (
          line (codes ".:53 {") (
            line (codes "    errors") (
              line (codes "    acl {") (
                line (codes "        block net 100.64.0.0/10") (
                  line (codes "    }") (
                    line (codes "    forward . " ++ (upstream_resolver_path ++ codes " {")) (
                      line (codes "        force_tcp")
                        (line (codes "    }") (line (codes "}") []))))))))))))

abbrev file : Text → Text → File
file path content = record { path = path; content = content; mode = 420 }

unfoldable pub render_tenant : Text → Text → Text → List Machine → Result DnsError (List File)
unfolding zone_records zone_header corefile sort_with path_join
render_tenant suffix dns_address default_project machines =
    let domain = trim_suffix (to_lower (trim_space suffix)) (codes ".") in
    let wanted = trim_space default_project in
    let chosen = if is_nil wanted then default_project_name else wanted in
    let zone_path = path_join (codes "/etc/coredns/zones" ∷ (codes "db." ++ domain) ∷ []) in
    if is_nil domain
    then err suffix_required
    else if is_nil dns_address
    then err address_required
    else ok (
        file (codes "/etc/coredns/Corefile") (corefile domain zone_path)
        ∷ file zone_path (
            zone_header domain dns_address
            ++ zone_records domain chosen (sort_with machine_lt machines))
        ∷ file self_resolver_path self_resolver_content
        ∷ file upstream_resolver_path upstream_resolver_content
        ∷ [])

unfoldable pub render_initial : Text → Text → Result DnsError (List File)
unfolding render_tenant
render_initial suffix dns_address = render_tenant suffix dns_address [] []

-- internal/dns/apply.go, `Tenant`
pub record DnsTenant : Type 0 where
  pub incus_name : Text
  pub infra_project : Text
  pub tenant : Text
  pub dns_suffix : Text
  pub default_project : Text
  pub private_cidr : Text

pub record ApplyResult : Type 0 where
  pub tenant : DnsTenant
  pub dns_address : Text
  pub machines : List Machine
  pub files : List File
  pub record_count : ℕ

-- `dns_address` reads the address of the name server from the tenant's prefix.
unfoldable pub plan_apply :
    (Text → Result DnsError Text) → DnsTenant → List Machine → Result DnsError ApplyResult
unfolding render_tenant sort_with
plan_apply dns_address summary machines = do
  address ← dns_address summary.private_cidr
  files ← render_tenant summary.dns_suffix address summary.default_project machines
  ok (record {
    tenant = summary;
    dns_address = address;
    machines = sort_with machine_lt machines;
    files = files;
    record_count = 2 + length machines * 2;
  })
