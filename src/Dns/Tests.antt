-- ===== src/Dns/Tests.antt =====
-- The theorem on the names of a zone, at one machine.
use sandcastle_incus.Prelude.{◌≡◌, refl, true, exists}
use sandcastle_incus.Prelude.Text.{codes, teq, has_char}
use sandcastle_incus.Dns.Render.{Machine, record_names}
use sandcastle_incus.Dns.Owners.{IsNamed, record_names_owner}

abbrev box : Machine
box = record { project = codes "web"; name = codes "box"; private_ip = codes "10.0.0.9" }

box_run : IsNamed box
unfolding has_char
box_run = (refl, refl, refl)

name_run : exists (teq (codes "box.ann.")) (record_names (codes "ann") (codes "web") box) ≡ true
unfolding record_names teq
name_run = refl

record_names_owner_example : (codes "box" ≡ codes "box") × (codes "web" ≡ codes "web")
record_names_owner_example =
    record_names_owner (codes "ann") (codes "web") (codes "box.ann.") box box box_run box_run
      name_run name_run
