-- ===== src/Publication/Tests.antt =====
-- The theorems on publications, at one hostname.
use sandcastle_incus.Prelude.{
  ◌≡◌, refl, ◌+◌, true, false, [], ◌∷◌, ◌++◌, if◌then◌else◌, none, exists, ltb, ok, err,
}
use sandcastle_incus.Prelude.Text.{
  codes, teq, trim_space, trim_left, trim_right, trim_suffix, has_suffix, to_lower,
}
use sandcastle_incus.Registry.Tables.{normalize_hostname}
use sandcastle_incus.Publication.Defs.{
  MachineTunnelPublication, trimmed, is_invalid, get_machine_tunnel_publication,
  claim_machine_tunnel_publication, release_machine_tunnel_publication, waiting,
  hold_machine_publication_hostname, require_machine_publication_hostname_available,
  dns_propagation_cooldown,
}
use sandcastle_incus.Publication.Laws.{require-hold, release-claim_machine_tunnel_publication}

require-hold_example :
    require_machine_publication_hostname_available
      (codes "App.example.org.")
      30
      (hold_machine_publication_hostname (codes "app.example.org") 5 [])
    ≡ (if teq
          (normalize_hostname (codes "app.example.org"))
          (normalize_hostname (codes "App.example.org."))
        then (if ltb 30 (5 + dns_propagation_cooldown)
            then err (waiting (normalize_hostname (codes "App.example.org.")))
            else ok tt)
        else require_machine_publication_hostname_available (codes "App.example.org.") 30 [])
require-hold_example = require-hold (codes "app.example.org") (codes "App.example.org.") 5 30 []

abbrev web : MachineTunnelPublication
web = record {
  hostname = codes "App.example.org.";
  tenant = codes "ann";
  project = codes "web";
  machine = codes "box";
  port = 8080;
}

abbrev other : MachineTunnelPublication
other = record web { hostname = codes "db.example.org"; machine = codes "db" }

good_run : is_invalid (trimmed web) ≡ false
unfolding trimmed normalize_hostname trim_space trim_left trim_right trim_suffix has_suffix to_lower
    teq
good_run = refl

free_run : get_machine_tunnel_publication (trimmed web).hostname (other ∷ []) ≡ none
unfolding get_machine_tunnel_publication trimmed normalize_hostname trim_space trim_left trim_right
    trim_suffix has_suffix to_lower teq
free_run = refl

fresh_run :
    exists (λ (r : MachineTunnelPublication). teq r.hostname (trimmed web).hostname) (other ∷ [])
    ≡ false
unfolding trimmed normalize_hostname trim_space trim_left trim_right trim_suffix has_suffix to_lower
    teq
fresh_run = refl

release-claim_machine_tunnel_publication_example :
    (claim_machine_tunnel_publication web (other ∷ [])
      ≡ ok (trimmed web, true, (other ∷ []) ++ trimmed web ∷ []))
    × (release_machine_tunnel_publication web ((other ∷ []) ++ trimmed web ∷ [])
        ≡ (none, other ∷ []))
release-claim_machine_tunnel_publication_example =
    release-claim_machine_tunnel_publication web (other ∷ []) good_run free_run fresh_run
