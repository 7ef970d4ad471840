-- ===== src/Share/Paths.antt =====
-- What internal/share/share.go takes from Go's `path` package, and the paths and names that it builds
-- for a share's device.
use sandcastle_incus.Prelude.{Bool, true, false, List, [], ◌∷◌, ◌++◌, if◌then◌else◌, take, ◌==◌}
use sandcastle_incus.Prelude.Text.{Text, codes, teq, has_prefix, split, trim_right}
use sandcastle_incus.Share.Types.{TenantStorageShare}

-- `strings.Join(segments, "/")`
unfoldable pub join : List Text → Text
join [] = []
join (s ∷ []) = s
join (s ∷ t ∷ rest) = s ++ b'/' ∷ join (t ∷ rest)

-- One segment of a path, onto the segments kept so far, the last one first.
unfoldable pub clean_step : Bool → List Text → Text → List Text
clean_step rooted kept seg =
    if teq seg []
    then kept
    else if teq seg (codes ".")
    then kept
    else if teq seg (codes "..")
    then go_up kept
    else seg ∷ kept
  where
    go_up : List Text → List Text
    go_up [] = if rooted then [] else codes ".." ∷ []
    go_up (k ∷ ks) = if teq k (codes "..") then codes ".." ∷ k ∷ ks else ks

unfoldable pub clean_all : Bool → List Text → List Text → List Text
clean_all rooted kept [] = kept
clean_all rooted kept (seg ∷ segs) = clean_all rooted (clean_step rooted kept seg) segs

-- The segments in their order again, before those of the second list.
unfoldable pub turn : List Text → List Text → List Text
turn [] out = out
turn (s ∷ ss) out = turn ss (s ∷ out)

abbrev pub or_dot : Text → Text
or_dot [] = codes "."
or_dot (c ∷ s) = c ∷ s

-- `path.Clean(p)`
unfoldable pub clean : Text → Text
unfolding clean_all turn join split
clean [] = codes "."
clean (c ∷ s) =
    if c == b'/'
    then b'/' ∷ join (turn (clean_all true [] (split b'/' s)) [])
    else or_dot (join (turn (clean_all false [] (split b'/' (c ∷ s))) []))

unfoldable pub non_empty : List Text → List Text
non_empty [] = []
non_empty ([] ∷ segs) = non_empty segs
non_empty ((c ∷ s) ∷ segs) = (c ∷ s) ∷ non_empty segs

abbrev pub clean_or_empty : Text → Text
clean_or_empty [] = []
clean_or_empty (c ∷ s) = clean (c ∷ s)

-- `path.Join(elems...)`
unfoldable pub path_join : List Text → Text
unfolding non_empty join clean
path_join elems = clean_or_empty (join (non_empty elems))

abbrev last_of : Text → List Text → Text
last_of s [] = s
last_of s (t ∷ rest) = last_of t rest

abbrev last_segment : List Text → Text
last_segment [] = []
last_segment (s ∷ rest) = last_of s rest

abbrev base_of : Text → Text
base_of [] = codes "/"
base_of (c ∷ s) = last_segment (split b'/' (c ∷ s))

-- `path.Base(p)`
unfoldable pub base : Text → Text
unfolding split trim_right
base [] = codes "."
base (c ∷ s) = base_of (trim_right (λ d. d == b'/') (c ∷ s))

-- `path.IsAbs(p)`
abbrev pub is_abs : Text → Bool
is_abs s = has_prefix s (codes "/")

-- `sum` gives the hexadecimal digits of the SHA-1 of its argument.
unfoldable pub device_name : (Text → Text) → TenantStorageShare → Text
device_name sum s =
    codes "share-" ++ take 12 (sum (s.source_tenant ++ b'/' ∷ s.source_project ++ b'/' ∷ s.name))

unfoldable pub mount_path : TenantStorageShare → Text
mount_path s = codes "/shared/" ++ s.source_tenant ++ b'/' ∷ s.source_project ++ b'/' ∷ s.name

unfoldable pub host_source_path : TenantStorageShare → Text → Text → Text → Text
unfolding path_join
host_source_path s source_incus_project storage_pool workspace_volume_name = path_join (
    codes "/var/lib/incus/storage-pools"
    ∷ storage_pool
    ∷ codes "custom"
    ∷ (source_incus_project ++ b'_' ∷ workspace_volume_name)
    ∷ s.source_dir
    ∷ [])

unfoldable pub desired_device : TenantStorageShare → Text → Text → Text → List (Text × Text)
unfolding host_source_path mount_path
desired_device s source_incus_project storage_pool workspace_volume_name =
    (codes "type", codes "disk")
    ∷ (codes "source", host_source_path s source_incus_project storage_pool workspace_volume_name)
    ∷ (codes "path", mount_path s)
    ∷ (codes "readonly", codes "true")
    ∷ []
