-- ===== src/Dns/Owners.antt =====
-- internal/dns/render.go: a name of a tenant's zone belongs to one machine.
use sandcastle_incus.Prelude.{
  ◌≡◌, refl, sym, ◌∙◌, ap, arith, ℕ, true, false, ◌||◌, List, [], ◌∷◌, ◌++◌, exists, length,
  length-append, Bool-cases, ◌⊎◌, inl, inr, ||-eq-false, ◌==◌, ==_iff,
}
use sandcastle_incus.Prelude.Text.{Text, teq, eq_of_teq, has_char}
use sandcastle_incus.Domain.{is_nil}
use sandcastle_incus.Dns.Render.{Machine, record_names, short_name, full_name}

no_dot : (x : ℕ) → (b'.' == x) ≡ false → ¬ (b'.' ≡ x)
no_dot x h e = let h' = (==_iff b'.' x).1 e in cc

-- Texts before the first dot.
until_dot :
    (a b s t : Text)
    → has_char b'.' a ≡ false
    → has_char b'.' b ≡ false
    → a ++ b'.' ∷ s ≡ b ++ b'.' ∷ t
    → (a ≡ b) × (s ≡ t)
unfolding has_char
until_dot [] [] s t ha hb e = (refl, cc)
until_dot [] (y ∷ b) s t ha hb e =
    absurd (no_dot y (||-eq-false (b'.' == y) (has_char b'.' b) hb).0 cc)
until_dot (x ∷ a) [] s t ha hb e =
    absurd (no_dot x (||-eq-false (b'.' == x) (has_char b'.' a) ha).0 cc)
until_dot (x ∷ a) (y ∷ b) s t ha hb e =
    let (_, ha') = ||-eq-false (b'.' == x) (has_char b'.' a) ha in
    let (_, hb') = ||-eq-false (b'.' == y) (has_char b'.' b) hb in
    let (same, rest) = until_dot a b s t ha' hb' cc in (cc, rest)

-- A project in front makes a name longer.
longer : (p d : Text) → ¬ (d ++ b'.' ∷ [] ≡ p ++ b'.' ∷ (d ++ b'.' ∷ []))
longer p d e =
    let lengths = ap length e in omega (arith, lengths, length-append p (b'.' ∷ (d ++ b'.' ∷ [])))

-- The machine has a project, and neither its name nor its project has a dot.
abbrev pub IsNamed : Machine → Type 0
IsNamed m =
    (is_nil m.project ≡ false) × (has_char b'.' m.name ≡ false) × (has_char b'.' m.project ≡ false)

one_name :
    (n x : Text) (rest : List Text)
    → exists (teq n) (x ∷ rest) ≡ true
    → (n ≡ x) ⊎ (exists (teq n) rest ≡ true)
one_name n x rest h = elim (Bool-cases (teq n x)) [
  | inl e ↦ inl (eq_of_teq n x e)
  | inr e ↦ inr (rw e at h)
]

none_of : (n : Text) → ¬ (exists (teq n) [] ≡ true)
none_of n h = cc

-- A name of the machine is its full name, or its short name if its project is the default one.
record_names_in :
    (domain default_project n : Text) (m : Machine)
    → is_nil m.project ≡ false
    → exists (teq n) (record_names domain default_project m) ≡ true
    → ((n ≡ short_name domain m) × (m.project ≡ default_project)) ⊎ (n ≡ full_name domain m)
unfolding record_names
record_names_in domain default_project n m named h =
    elim (Bool-cases (is_nil m.name || is_nil m.private_ip)) [
      | inl blank ↦ absurd (none_of n (rw blank at h))
      | inr real ↦ elim (Bool-cases (teq m.project default_project)) [
        | inl default ↦
            elim (one_name n (short_name domain m) (full_name domain m ∷ [])
              (rw (real, named, default) at h)) [
                | inl short ↦ inl (short, eq_of_teq m.project default_project default)
                | inr rest ↦ inr (only n (full_name domain m) rest)
              ]
        | inr other ↦ inr (only n (full_name domain m) (rw (real, named, other) at h))
      ]
    ]
  where
    only : (n x : Text) → exists (teq n) (x ∷ []) ≡ true → n ≡ x
    only n x g = elim (one_name n x [] g) [ inl e ↦ e | inr e ↦ absurd (none_of n e) ]

-- Two machines with a project, whose names and projects have no dot, and which have a name of the
-- rendered zone in common, have the same name and the same project.
pub record_names_owner :
    (domain default_project n : Text) (a b : Machine)
    → IsNamed a
    → IsNamed b
    → exists (teq n) (record_names domain default_project a) ≡ true
    → exists (teq n) (record_names domain default_project b) ≡ true
    → (a.name ≡ b.name) × (a.project ≡ b.project)
record_names_owner domain default_project n a b (pa, na, da) (pb, nb, db) ha hb =
    elim (record_names_in domain default_project n a pa ha) [
      | inl (sa, ea) ↦ elim (record_names_in domain default_project n b pb hb) [
        | inl (sb, eb) ↦ (
          (until_dot a.name b.name (domain ++ b'.' ∷ []) (domain ++ b'.' ∷ []) na nb
              (sym sa ∙ sb)).0,
          ea ∙ sym eb,
        )
        | inr fb ↦ absurd (
            longer b.project domain
              (until_dot a.name b.name (domain ++ b'.' ∷ [])
                (b.project ++ b'.' ∷ (domain ++ b'.' ∷ [])) na nb (sym sa ∙ fb)).1)
      ]
      | inr fa ↦ elim (record_names_in domain default_project n b pb hb) [
        | inl (sb, eb) ↦ absurd (
            longer a.project domain
              (until_dot b.name a.name (domain ++ b'.' ∷ [])
                (a.project ++ b'.' ∷ (domain ++ b'.' ∷ [])) nb na (sym sb ∙ fa)).1)
        | inr fb ↦
            let (name, rest) =
              until_dot a.name b.name (a.project ++ b'.' ∷ (domain ++ b'.' ∷ []))
                (b.project ++ b'.' ∷ (domain ++ b'.' ∷ [])) na nb (sym fa ∙ fb) in
            (
              name,
              (until_dot a.project b.project (domain ++ b'.' ∷ []) (domain ++ b'.' ∷ []) da db
                  rest).0,
            )
      ]
    ]
