-- ===== src/Share/Tests/Requests.antt =====
-- The theorems on runs of requests, on paths and on views.
use sandcastle_incus.Prelude.{◌≡◌, refl, false, List, [], ◌∷◌, ◌++◌, ok}
use sandcastle_incus.Prelude.Text.{
  codes, teq, trim_space, trim_left, trim_right, has_char, has_prefix, trim_prefix, cut, split,
}
use sandcastle_incus.Naming.{validate_project_name, project_name, every}
use sandcastle_incus.Share.Types.{Summary, recipient_state_accepted}
use sandcastle_incus.Share.Paths.{clean, clean_all, clean_step, turn, join, host_source_path}
use sandcastle_incus.Share.Names.{parse_source, parse_dir}
use sandcastle_incus.Share.Below.{IsPlain, volume_path, host_source_path-parse_source}
use sandcastle_incus.Share.Invariant.{HasDistinctIds}
use sandcastle_incus.Share.History.{Request, handle_all, handle_all-HasDistinctIds}
use sandcastle_incus.Share.Tests.Sample.{tenants, photos, world_of}

abbrev requests : List (List Summary × Request)
requests =
    (
      tenants,
      Request.create (record {
        source_tenant = codes "ann";
        source = codes "web:/workspace/photos/2026";
        recipients = codes "bob" ∷ codes "eve" ∷ [];
        name = codes "photos";
        actor = codes "ann";
        dry_run = false;
        now = [];
      }),
    )
    ∷ (
      tenants,
      Request.answer (record {
        tenant = codes "bob";
        source_tenant = codes "ann";
        source_project = codes "web";
        name = codes "photos";
        actor = codes "bob";
        state = recipient_state_accepted;
        dry_run = false;
        now = [];
      }),
    )
    ∷ []

handle_all-HasDistinctIds_example : HasDistinctIds (handle_all requests (world_of (λ n. [])))
handle_all-HasDistinctIds_example =
    handle_all-HasDistinctIds requests (world_of (λ n. [])) (λ n. tt)

source_run :
    parse_source (codes "web:/workspace/photos/2026") ≡ ok (codes "web", codes "photos/2026")
unfolding parse_source parse_dir cut trim_space trim_left trim_right trim_prefix has_prefix has_char
    split clean clean_all clean_step turn join teq validate_project_name project_name every
source_run = refl

IsPlain-pool : IsPlain (codes "default")
unfolding split teq
IsPlain-pool = refl

IsPlain-volume : IsPlain (codes "sc2-ann-web" ++ b'_' ∷ codes "workspace")
unfolding split teq
IsPlain-volume = refl

host_source_path-parse_source_example :
    IsPlain (codes "photos/2026")
    × (host_source_path photos (codes "sc2-ann-web") (codes "default") (codes "workspace")
        ≡ volume_path
            (codes "default")
            (codes "sc2-ann-web" ++ b'_' ∷ codes "workspace")
            (codes "photos/2026"))
host_source_path-parse_source_example =
    host_source_path-parse_source (codes "web:/workspace/photos/2026") (codes "web")
      (codes "photos/2026") (codes "default") (codes "sc2-ann-web") (codes "workspace") photos
      source_run refl IsPlain-pool IsPlain-volume
