-- ===== src/Publication/Defs.antt =====
-- internal/authapp/machine_tunnel_publications.go and machine_publication_cooldowns.go: who publishes a
-- hostname over a tunnel, and how long a name is held back after it was released. A time counts
-- nanoseconds.
use sandcastle_incus.Prelude.{
  ℕ, ◌+◌, ◌*◌, Bool, true, false, not, ◌&&◌, ◌||◌, List, [], ◌∷◌, ◌++◌, if◌then◌else◌, Option, none,
  some, keep, find_first, exists, length, ltb, ◌==◌, Result, err, ok,
}
use sandcastle_incus.Prelude.Text.{Text, teq, trim_space}
use sandcastle_incus.Domain.{is_nil}
use sandcastle_incus.Registry.Tables.{normalize_hostname}

pub record MachineTunnelPublication : Type 0 where
  pub hostname : Text
  pub tenant : Text
  pub project : Text
  pub machine : Text
  pub port : ℕ

pub data PublicationError : Type 0 where
  invalid duplicate : PublicationError
  published_elsewhere not_published waiting : Text → PublicationError

unfoldable pub get_machine_tunnel_publication :
    Text → List MachineTunnelPublication → Option MachineTunnelPublication
unfolding normalize_hostname
get_machine_tunnel_publication hostname rows =
    find_first (λ (r : MachineTunnelPublication). teq r.hostname (normalize_hostname hostname)) rows

-- The first assignments of ClaimMachineTunnelPublication.
unfoldable pub trimmed : MachineTunnelPublication → MachineTunnelPublication
unfolding normalize_hostname
trimmed p = record p {
  hostname = normalize_hostname p.hostname;
  tenant = trim_space p.tenant;
  project = trim_space p.project;
  machine = trim_space p.machine;
}

abbrev pub is_invalid : MachineTunnelPublication → Bool
is_invalid p =
    is_nil p.hostname
    || (is_nil p.tenant
        || (is_nil p.project || (is_nil p.machine || (ltb p.port 1 || ltb 65535 p.port))))

abbrev pub same_machine : MachineTunnelPublication → MachineTunnelPublication → Bool
same_machine p r =
    teq r.tenant p.tenant
    && (teq r.project p.project && (teq r.machine p.machine && r.port == p.port))

-- The publication, whether it is new, and the table.
unfoldable pub claim_machine_tunnel_publication :
    MachineTunnelPublication
    → List MachineTunnelPublication
    → Result PublicationError (MachineTunnelPublication × Bool × List MachineTunnelPublication)
unfolding trimmed get_machine_tunnel_publication
claim_machine_tunnel_publication publication rows =
    if is_invalid p then err invalid else claimed (get_machine_tunnel_publication p.hostname rows)
  where
    p : MachineTunnelPublication
    p = trimmed publication

    claimed :
        Option MachineTunnelPublication
        → Result PublicationError (MachineTunnelPublication × Bool × List MachineTunnelPublication)
    claimed (some r) =
        if same_machine p r then ok (r, false, rows) else err (published_elsewhere p.hostname)
    claimed none =
        if exists (λ (r : MachineTunnelPublication). teq r.hostname p.hostname) rows
        then err duplicate
        else ok (p, true, rows ++ p ∷ [])

abbrev pub is_exactly : MachineTunnelPublication → MachineTunnelPublication → Bool
is_exactly p r = teq r.hostname p.hostname && same_machine p r

-- The table after the call, with the error if no row, or more than one, was deleted.
unfoldable pub release_machine_tunnel_publication :
    MachineTunnelPublication
    → List MachineTunnelPublication
    → Option PublicationError × List MachineTunnelPublication
unfolding trimmed
release_machine_tunnel_publication publication rows =
    let p = trimmed publication in
    (
      if length (keep (is_exactly p) rows) == 1 then none else some (not_published p.hostname),
      keep (λ r. not (is_exactly p r)) rows,
    )

abbrev pub dns_propagation_cooldown : ℕ
dns_propagation_cooldown = 60 * 1000000000

-- A row of `machine_publication_cooldowns`.
pub record Cooldown : Type 0 where
  pub hostname : Text
  pub released_at : ℕ

-- The row with this hostname is written over, or one is added.
unfoldable pub hold_row : Text → ℕ → List Cooldown → List Cooldown
hold_row hostname now [] = record { hostname = hostname; released_at = now } ∷ []
hold_row hostname now (r ∷ rows) =
    if teq r.hostname hostname
    then record r { released_at = now } ∷ rows
    else r ∷ hold_row hostname now rows

unfoldable pub hold_machine_publication_hostname : Text → ℕ → List Cooldown → List Cooldown
unfolding hold_row normalize_hostname
hold_machine_publication_hostname hostname now rows =
    hold_row (normalize_hostname hostname) now rows

abbrev pub refuse_held : Text → ℕ → Option Cooldown → Result PublicationError (Unit {0})
refuse_held hostname now none = ok tt
refuse_held hostname now (some r) =
    if ltb now (r.released_at + dns_propagation_cooldown) then err (waiting hostname) else ok tt

unfoldable pub require_machine_publication_hostname_available :
    Text → ℕ → List Cooldown → Result PublicationError (Unit {0})
unfolding normalize_hostname
require_machine_publication_hostname_available hostname now rows =
    refuse_held (normalize_hostname hostname) now
      (find_first (λ (r : Cooldown). teq r.hostname (normalize_hostname hostname)) rows)
