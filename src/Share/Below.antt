-- ===== src/Share/Below.antt =====
-- internal/share/share.go: a source directory stays below the workspace volume, in the request and on
-- the host.
use sandcastle_incus.Prelude.{
  ◌≢◌, ◌≡◌, refl, sym, ◌∙◌, ap, subst, ℕ, Bool, true, false, ◌||◌, List, [], ◌∷◌, ◌++◌, exists, All,
  ◌==◌, Bool-cases, inl, inr, Result, ok, ||-eq-false, if◌then◌else◌, >>=-eq-ok, fail_if-eq-ok,
  ==_iff, map_err,
}
use sandcastle_incus.Prelude.Text.{
  Text, codes, teq, split, split-append, split-ne-nil, push_head, cut, trim_space, trim_prefix,
  has_char,
}
use sandcastle_incus.Domain.{is_nil}
use sandcastle_incus.Naming.{validate_project_name}
use sandcastle_incus.Share.Types.{TenantStorageShare, ShareError, no_colon, bad_name}
use sandcastle_incus.Share.Paths.{
  join, turn, clean_step, clean_all, clean, or_dot, non_empty, path_join, clean_or_empty,
  host_source_path, is_abs,
}
use sandcastle_incus.Share.Names.{bad_segment, parse_dir, parse_source, or_else}

-- No segment is empty, `.` or `..`.
abbrev pub IsPlain : Text → Type 0
IsPlain s = exists bad_segment (split b'/' s) ≡ false

join-push_head : (c : ℕ) (ls : List Text) → join (push_head c ls) ≡ c ∷ join ls
unfolding join
join-push_head c [] = refl
join-push_head c (l ∷ []) = refl
join-push_head c (l ∷ m ∷ ls) = refl

join-nil : (ls : List Text) → ls ≢ [] → join ([] ∷ ls) ≡ b'/' ∷ join ls
unfolding join
join-nil [] h = absurd (h refl)
join-nil (l ∷ ls) h = refl

cons_eq : {c : ℕ} {s t : Text} → (c == b'/') ≡ true → s ≡ t → b'/' ∷ s ≡ c ∷ t
cons_eq {c} e h = rw ((==_iff c b'/').0 e, h)

-- Joining the segments of a path gives the path.
pub join-split : (s : Text) → join (split b'/' s) ≡ s
unfolding split join
join-split [] = refl
join-split (c ∷ s) = elim (Bool-cases (c == b'/')) [
  | inl e ↦ rw e (join-nil (split b'/' s) (split-ne-nil b'/' s) ∙ cons_eq e (join-split s))
  | inr e ↦ rw e (join-push_head c (split b'/' s) ∙ ap (λ t. c ∷ t) (join-split s))
]

turn-turn : (xs ys zs : List Text) → turn (turn xs ys) zs ≡ turn ys (xs ++ zs)
unfolding turn
turn-turn [] ys zs = refl
turn-turn (x ∷ xs) ys zs = turn-turn xs (x ∷ ys) zs

append_nil : (xs : List Text) → xs ++ [] ≡ xs
append_nil [] = refl
append_nil (x ∷ xs) = ap (λ t. x ∷ t) (append_nil xs)

clean_all_plain :
    (rooted : Bool) (kept segs : List Text)
    → exists bad_segment segs ≡ false
    → clean_all rooted kept segs ≡ turn segs kept
unfolding clean_all turn clean_step
clean_all_plain rooted kept [] h = refl
clean_all_plain rooted kept (s ∷ segs) h =
    let (here, rest) = ||-eq-false (bad_segment s) (exists bad_segment segs) h in
    let (a, bc) = ||-eq-false (teq s []) (teq s (codes ".") || teq s (codes "..")) here in
    let (b, c) = ||-eq-false (teq s (codes ".")) (teq s (codes "..")) bc in
    rw (a, b, c) (clean_all_plain rooted (s ∷ kept) segs rest)

kept_plain :
    (rooted : Bool) (s : Text) → IsPlain s → join (turn (clean_all rooted [] (split b'/' s)) []) ≡ s
unfolding turn
kept_plain rooted s h =
    ap (λ segs. join (turn segs [])) (clean_all_plain rooted [] (split b'/' s) h)
    ∙ ap join (turn-turn (split b'/' s) [] [] ∙ append_nil (split b'/' s))
    ∙ join-split s

nil_not-IsPlain : ¬ IsPlain []
unfolding split teq
nil_not-IsPlain h = cc

-- A plain path does not begin with the separator.
plain_head : (c : ℕ) (s : Text) → IsPlain (c ∷ s) → (c == b'/') ≡ false
unfolding split teq
plain_head c s h = elim (Bool-cases (c == b'/')) [ inl e ↦ first_empty e h | inr e ↦ e ]
  where
    first_empty :
        (c == b'/') ≡ true
        → exists bad_segment (if c == b'/' then [] ∷ split b'/' s else push_head c (split b'/' s))
          ≡ false
        → (c == b'/') ≡ false
    first_empty e g = let g' : true ≡ false = rw e at g in cc

clean-relative :
    (c : ℕ) (s : Text)
    → (c == b'/') ≡ false
    → clean (c ∷ s) ≡ or_dot (join (turn (clean_all false [] (split b'/' (c ∷ s))) []))
unfolding clean
clean-relative c s e = rw e refl

-- Cleaning leaves a plain path as it is.
pub clean_plain : (s : Text) → IsPlain s → clean s ≡ s
clean_plain [] h = absurd (nil_not-IsPlain h)
clean_plain (c ∷ s) h =
    clean-relative c s (plain_head c s h) ∙ ap or_dot (kept_plain false (c ∷ s) h)

clean_rooted : (s : Text) → IsPlain s → clean (b'/' ∷ s) ≡ b'/' ∷ s
unfolding clean
clean_rooted s h = ap (λ t. b'/' ∷ t) (kept_plain true s h)

exists-append :
    (xs ys : List Text)
    → exists bad_segment xs ≡ false
    → exists bad_segment ys ≡ false
    → exists bad_segment (xs ++ ys) ≡ false
exists-append [] ys hx hy = hy
exists-append (x ∷ xs) ys hx hy =
    let (here, rest) = ||-eq-false (bad_segment x) (exists bad_segment xs) hx in
    rw here (exists-append xs ys rest hy)

IsPlain-append : (s t : Text) → IsPlain s → IsPlain t → IsPlain (s ++ b'/' ∷ t)
IsPlain-append s t hs ht =
    rw (split-append b'/' s t) (exists-append (split b'/' s) (split b'/' t) hs ht)

not_nil : (s : Text) → IsPlain s → s ≢ []
not_nil [] h = absurd (nil_not-IsPlain h)
not_nil (c ∷ s) h = λ e. cc

non_empty-plain : (segs : List Text) → All IsPlain segs → non_empty segs ≡ segs
unfolding non_empty
non_empty-plain [] h = refl
non_empty-plain ([] ∷ segs) (hs, h) = absurd (nil_not-IsPlain hs)
non_empty-plain ((c ∷ s) ∷ segs) (hs, h) = ap (λ t. (c ∷ s) ∷ t) (non_empty-plain segs h)

clean_is :
    (raw dir : Text) {cleaned : Text}
    → raw ≡ cleaned
    → ◌≡◌ {A = Result ShareError Text} (ok cleaned) (ok dir)
    → raw ≡ dir
clean_is raw dir e h = cc

-- What `parse_dir` returns is the directory that it was given.
parse_dir-IsPlain : (raw dir : Text) → parse_dir raw ≡ ok dir → IsPlain dir
unfolding parse_dir
parse_dir-IsPlain raw dir h =
    let (_, h₁) = fail_if-eq-ok (is_nil raw || teq raw (codes "/workspace")) _ _ h in
    let (_, h₂) = fail_if-eq-ok (has_char b'\\' raw || is_abs raw) _ _ h₁ in
    let (plain, h₃) = fail_if-eq-ok (exists bad_segment (split b'/' raw)) _ _ h₂ in
    let (_, h₄) = fail_if-eq-ok (teq (clean raw) (codes ".")) _ _ h₃ in
    subst IsPlain (clean_is _ _ (sym (clean_plain raw plain)) h₄) plain

dir_eq :
    (p d project dir : Text)
    → ◌≡◌ {A = Result ShareError (Text × Text)} (ok (p, d)) (ok (project, dir))
    → d ≡ dir
dir_eq p d project dir h = cc

pub parse_source-IsPlain :
    (value project dir : Text) → parse_source value ≡ ok (project, dir) → IsPlain dir
unfolding parse_source
parse_source-IsPlain value project dir h =
    let ((p, raw), _, h₁) = >>=-eq-ok (or_else no_colon (cut b':' (trim_space value))) _ h in
    let (_, _, h₂) = >>=-eq-ok (map_err bad_name (validate_project_name p)) _ h₁ in
    let (dir', made, h₃) =
      >>=-eq-ok (parse_dir (trim_prefix (trim_space raw) (codes "/workspace/"))) _ h₂ in
    parse_dir-IsPlain _ dir (made ∙ ap ok (dir_eq p dir' project dir h₃))

-- Go's path of a directory in the workspace volume.
abbrev pub volume_path : Text → Text → Text → Text
volume_path pool volume dir =
    codes "/var/lib/incus/storage-pools"
    ++ b'/' ∷ (pool ++ b'/' ∷ (codes "custom" ++ b'/' ∷ (volume ++ b'/' ∷ dir)))

path_join_plain :
    (pool volume dir : Text)
    → IsPlain pool
    → IsPlain volume
    → IsPlain dir
    → path_join (codes "/var/lib/incus/storage-pools" ∷ pool ∷ codes "custom" ∷ volume ∷ dir ∷ [])
      ≡ volume_path pool volume dir
unfolding path_join join non_empty split teq
path_join_plain pool volume dir hp hv hd =
    ap (λ segs. clean_or_empty (join (codes "/var/lib/incus/storage-pools" ∷ segs)))
      (non_empty-plain (pool ∷ codes "custom" ∷ volume ∷ dir ∷ []) (hp, (refl, (hv, (hd, tt)))))
    ∙ clean_rooted
        (codes "var/lib/incus/storage-pools"
          ++ b'/' ∷ (pool ++ b'/' ∷ (codes "custom" ++ b'/' ∷ (volume ++ b'/' ∷ dir))))
        (IsPlain-append (codes "var/lib/incus/storage-pools")
          (pool ++ b'/' ∷ (codes "custom" ++ b'/' ∷ (volume ++ b'/' ∷ dir))) refl
          (IsPlain-append pool (codes "custom" ++ b'/' ∷ (volume ++ b'/' ∷ dir)) hp (
            IsPlain-append (codes "custom") (volume ++ b'/' ∷ dir) refl
              (IsPlain-append volume dir hv hd))))

-- For a share whose directory was read by parseSource, and a pool and a volume whose names have no
-- empty, . or .. segment, the directory has no such segment and the host path is the path of the
-- volume followed by the directory.
pub host_source_path-parse_source :
    (value project dir pool incus_project volume : Text) (s : TenantStorageShare)
    → parse_source value ≡ ok (project, dir)
    → s.source_dir ≡ dir
    → IsPlain pool
    → IsPlain (incus_project ++ b'_' ∷ volume)
    → IsPlain dir
      × (host_source_path s incus_project pool volume
          ≡ volume_path pool (incus_project ++ b'_' ∷ volume) dir)
unfolding host_source_path
host_source_path-parse_source value project dir pool incus_project volume s h same hp hv =
    let below = parse_source-IsPlain value project dir h in
    (
      below,
      path_join_plain pool (incus_project ++ b'_' ∷ volume) s.source_dir hp hv
            (subst IsPlain (sym same) below)
          ∙ ap (volume_path pool (incus_project ++ b'_' ∷ volume)) same,
    )
