-- ===== src/Share/Names.antt =====
-- internal/share/share.go: how the source, the name and the recipients of a share are read and
-- checked, and how a tenant is found.
use sandcastle_incus.Prelude.{
  Bool, ◌||◌, List, [], ◌∷◌, ◌++◌, if◌then◌else◌, Option, none, some, find_first, exists, length,
  ◌==◌, Result, err, ok, ◌>>=◌, ◌>>◌, fail_if, map_err,
}
use sandcastle_incus.Prelude.Text.{
  Text, codes, teq, text_lt, cut, split, trim_space, trim_prefix, has_char,
}
use sandcastle_incus.Domain.{is_nil}
use sandcastle_incus.Naming.{validate_tenant_name, validate_project_name}
use sandcastle_incus.Share.Types.{
  Summary, ShareError, no_colon, no_slash, not_below_workspace, not_relative, self_offer,
  recipients_required, bad_name, bad_share_name, bad_segments, recipient_not_found,
  tenant_not_found,
}
use sandcastle_incus.Share.Paths.{clean, is_abs}

module _ {ℓ} {A : Type ℓ} (lt : A → A → Bool) where
  unfoldable pub insert_with : A → List A → List A
  insert_with x [] = x ∷ []
  insert_with x (y ∷ ys) = if lt y x then y ∷ insert_with x ys else x ∷ y ∷ ys

  -- `sort.Slice(list, lt)` and, for texts, `sort.Strings(list)`
  unfoldable pub sort_with : List A → List A
  unfolding insert_with
  sort_with [] = []
  sort_with (x ∷ xs) = insert_with x (sort_with xs)

unfoldable pub validate_share_name : Text → Result ShareError (Unit {0})
unfolding validate_project_name
validate_share_name name = do
  map_err (λ _. bad_share_name name) (validate_project_name (trim_space name))
  fail_if (has_char b'.' name || has_char b'/' name) (bad_share_name name)

abbrev pub or_else : ShareError → Option (Text × Text) → Result ShareError (Text × Text)
or_else e none = err e
or_else e (some pair) = ok pair

unfoldable pub parse_status_ref : Text → Result ShareError (Text × Text)
unfolding validate_share_name
parse_status_ref value = do
  (project, name) ← or_else no_slash (cut b'/' (trim_space value))
  map_err bad_name (validate_project_name project)
  validate_share_name name
  ok (project, name)

-- A segment that a source directory must not have.
abbrev pub bad_segment : Text → Bool
bad_segment seg = teq seg [] || (teq seg (codes ".") || teq seg (codes ".."))

-- The directory of a source, below /workspace.
unfoldable pub parse_dir : Text → Result ShareError Text
unfolding clean
parse_dir raw_dir = do
  fail_if (is_nil raw_dir || teq raw_dir (codes "/workspace")) not_below_workspace
  fail_if (has_char b'\\' raw_dir || is_abs raw_dir) not_relative
  fail_if (exists bad_segment (split b'/' raw_dir)) (bad_segments raw_dir)
  fail_if (teq (clean raw_dir) (codes ".")) not_below_workspace
  ok (clean raw_dir)

unfoldable pub parse_source : Text → Result ShareError (Text × Text)
unfolding parse_dir
parse_source value = do
  (project, raw_dir) ← or_else no_colon (cut b':' (trim_space value))
  map_err bad_name (validate_project_name project)
  dir ← parse_dir (trim_prefix (trim_space raw_dir) (codes "/workspace/"))
  ok (project, dir)

unfoldable pub find_tenant : List Summary → Text → Option Summary
find_tenant summaries tenant_name = find_first (λ (s : Summary). teq s.tenant tenant_name) summaries

unfoldable pub tenant_has_project : Summary → Text → Bool
tenant_has_project summary project = exists (λ p. teq p project) summary.projects

abbrev pub or_missing : ShareError → Option Summary → Result ShareError Summary
or_missing e none = err e
or_missing e (some s) = ok s

-- `output` has the recipients read so far, which are those of the map `seen`.
unfoldable pub collect_recipients :
    Text → List Summary → List Text → List Text → Result ShareError (List Text)
unfolding find_tenant validate_tenant_name
collect_recipients source_tenant summaries output [] = ok output
collect_recipients source_tenant summaries output (raw ∷ rest) = do
  let recipient = trim_space raw
  map_err bad_name (validate_tenant_name recipient)
  fail_if (teq recipient source_tenant) self_offer
  _ ← or_missing (recipient_not_found recipient) (find_tenant summaries recipient)
  let output' = if exists (teq recipient) output then output else output ++ recipient ∷ []
  collect_recipients source_tenant summaries output' rest

unfoldable pub normalize_recipients :
    List Text → Text → List Summary → Result ShareError (List Text)
unfolding collect_recipients sort_with
normalize_recipients input source_tenant summaries = do
  output ← collect_recipients source_tenant summaries [] input
  fail_if (length output == 0) recipients_required
  ok (sort_with text_lt output)

-- `summaries` is what listing the tenants gives.
unfoldable pub resolve_tenant : List Summary → Text → Result ShareError Summary
unfolding find_tenant validate_tenant_name
resolve_tenant summaries tenant_name = do
  let name = trim_space tenant_name
  map_err bad_name (validate_tenant_name name)
  or_missing (tenant_not_found name) (find_tenant summaries name)
