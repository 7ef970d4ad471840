-- ===== src/Device/Moves.antt =====
-- internal/authapp/device.go: every call moves each row of the table along the states of a login.
use sandcastle_incus.Prelude.{
  ◌≡◌, sym, subst, arith, ℕ, ◌≤◌, ◌<◌, Bool, true, false, not, List, [], ◌∷◌, some, find_first, ltb,
  ltb→lt, All, Pairwise, All-imp, Bool-cases, inl, inr, Option-cases,
}
use sandcastle_incus.Prelude.Text.{Text, teq, eq_of_teq, trim_space}
use sandcastle_incus.Device.Logins.{
  DeviceRow, has_device_code, has_user_code, find_device_login_by_user_code, update_where, expire,
  is_pending, approve, approve_device_login, deny, deny_device_login, to_upper,
}

-- What may become of a row at a time. A login that is approved, denied or expired stays as it is.
pub data Move (now : ℕ) : DeviceRow → DeviceRow → Type 0 where
  stay : (r : DeviceRow) → Move now r r
  expiring : (r : DeviceRow) → is_pending r ≡ true → r.expires_at ≤ now → Move now r (expire r)
  approving :
      (r : DeviceRow) (user_key dns_suffix initial_project : Text)
      → is_pending r ≡ true
      → now < r.expires_at
      → Move now r (approve user_key dns_suffix initial_project now r)
  denying : (r : DeviceRow) → is_pending r ≡ true → Move now r (deny now r)

-- The rows move one by one, and new ones are pending.
abbrev pub Follows : ℕ → List DeviceRow → List DeviceRow → Type 0
Follows now [] new = All (λ (r : DeviceRow). is_pending r ≡ true) new
Follows now (r ∷ rows) [] = ⊥
Follows now (r ∷ rows) (r' ∷ rows') = Move now r r' × Follows now rows rows'

-- Two rows that the constraints of the table let stand together.
abbrev pub CodesApart : DeviceRow → DeviceRow → Type 0
CodesApart a b = (teq b.device_code a.device_code ≡ false) × (teq b.user_code a.user_code ≡ false)

abbrev pub IsKeyed : List DeviceRow → Type 0
IsKeyed rows = Pairwise CodesApart rows

pub Follows-refl : (now : ℕ) (rows : List DeviceRow) → Follows now rows rows
Follows-refl now [] = tt
Follows-refl now (r ∷ rows) = (stay r, Follows-refl now rows)

module _ (now : ℕ) (here : DeviceRow → Bool) (set : DeviceRow → DeviceRow) where
  update_none :
      (rows : List DeviceRow)
      → All (λ (r : DeviceRow). here r ≡ false) rows
      → Follows now rows (update_where here set rows)
  unfolding update_where
  update_none [] h = tt
  update_none (r ∷ rows) (hr, h) = rw hr (stay r, update_none rows h)

  some_row : (r s : DeviceRow) → some r ≡ some s → r ≡ s
  some_row r s h = cc

  -- An update where only the first row found may match.
  update_first :
      (rows : List DeviceRow) (found : DeviceRow)
      → find_first here rows ≡ some found
      → Pairwise (λ (a b : DeviceRow). here a ≡ true → here b ≡ false) rows
      → Move now found (set found)
      → Follows now rows (update_where here set rows)
  unfolding update_where
  update_first [] found e h m = cc
  update_first (r ∷ rows) found e (hr, h) m = elim (Bool-cases (here r)) [
    | inl is ↦ rw is (
      subst (λ (x : DeviceRow). Move now x (set x)) (sym (some_row r found (rw is at e))) m,
      update_none rows (All-imp _ _ rows (λ x f. f is) hr),
    )
    | inr other ↦ rw other (stay r, update_first rows found (rw other at e) h m)
  ]

by_device_code :
    (code : Text) (rows : List DeviceRow)
    → IsKeyed rows
    → Pairwise
        (λ (a b : DeviceRow). has_device_code code a ≡ true → has_device_code code b ≡ false)
        rows
by_device_code code [] h = tt
by_device_code code (r ∷ rows) (hr, h) = (
  All-imp _ _ rows
      (λ (b : DeviceRow) apart e.
        subst (λ c. teq b.device_code c ≡ false) (eq_of_teq _ _ e) apart.0)
      hr,
  by_device_code code rows h,
)

by_user_code :
    (code : Text) (rows : List DeviceRow)
    → IsKeyed rows
    → Pairwise
        (λ (a b : DeviceRow). has_user_code code a ≡ true → has_user_code code b ≡ false)
        rows
by_user_code code [] h = tt
by_user_code code (r ∷ rows) (hr, h) = (
  All-imp _ _ rows
      (λ (b : DeviceRow) apart e. subst (λ c. teq b.user_code c ≡ false) (eq_of_teq _ _ e) apart.1)
      hr,
  by_user_code code rows h,
)

-- What a search found passes its test.
pub found_first :
    (here : DeviceRow → Bool) (rows : List DeviceRow) (found : DeviceRow)
    → find_first here rows ≡ some found
    → here found ≡ true
found_first here [] found e = cc
found_first here (r ∷ rows) found e = elim (Bool-cases (here r)) [
  | inl is ↦ subst (λ (x : DeviceRow). here x ≡ true) (row_eq r found (rw is at e)) is
  | inr other ↦ found_first here rows found (rw other at e)
]
  where
    row_eq : (r s : DeviceRow) → some r ≡ some s → r ≡ s
    row_eq r s h = cc

pub late : (now expires : ℕ) → ltb now expires ≡ false → expires ≤ now
late now expires h = ground arith

-- The update names the code of the row that was found, which is the code searched for.
user_code_update :
    (now : ℕ) (code : Text) (set : DeviceRow → DeviceRow) (rows : List DeviceRow)
    (found : DeviceRow)
    → IsKeyed rows
    → find_first (has_user_code code) rows ≡ some found
    → Move now found (set found)
    → Follows now rows (update_where (has_user_code found.user_code) set rows)
user_code_update now code set rows found keyed e m =
    subst (λ c. Follows now rows (update_where (has_user_code c) set rows))
      (sym (eq_of_teq found.user_code code (found_first (has_user_code code) rows found e)))
      (update_first now (has_user_code code) set rows found e (by_user_code code rows keyed) m)

pub device_code_update :
    (now : ℕ) (code : Text) (set : DeviceRow → DeviceRow) (rows : List DeviceRow)
    (found : DeviceRow)
    → IsKeyed rows
    → find_first (has_device_code code) rows ≡ some found
    → Move now found (set found)
    → Follows now rows (update_where (has_device_code found.device_code) set rows)
device_code_update now code set rows found keyed e m =
    subst (λ c. Follows now rows (update_where (has_device_code c) set rows))
      (sym (eq_of_teq found.device_code code (found_first (has_device_code code) rows found e)))
      (update_first now (has_device_code code) set rows found e (by_device_code code rows keyed) m)

not-false : (b : Bool) → not b ≡ false → b ≡ true
not-false b h = ground arith

pub approve-Follows :
    (user_code user_key dns_suffix initial_project : Text) (now : ℕ) (rows : List DeviceRow)
    → IsKeyed rows
    → Follows now rows
        (approve_device_login user_code user_key dns_suffix initial_project now rows).1
unfolding approve_device_login find_device_login_by_user_code
approve-Follows user_code user_key dns_suffix initial_project now rows keyed =
    elim (Option-cases (find_first (has_user_code (to_upper (trim_space user_code))) rows)) [
      | inl e ↦ rw e (Follows-refl now rows)
      | inr (login, e) ↦ elim (Bool-cases (is_pending login)) [
        | inr other ↦ rw (e, other) (Follows-refl now rows)
        | inl pending ↦ elim (Bool-cases (ltb now login.expires_at)) [
          | inr over ↦
              rw (e, pending, over)
                (user_code_update now _ expire rows login keyed e
                  (expiring login pending (late now login.expires_at over)))
          | inl early ↦
              rw (e, pending, early)
                (user_code_update now _ (approve user_key dns_suffix initial_project now) rows login
                  keyed e
                  (approving login user_key dns_suffix initial_project pending
                    (ltb→lt now login.expires_at early)))
        ]
      ]
    ]

pub deny-Follows :
    (user_code : Text) (now : ℕ) (rows : List DeviceRow)
    → IsKeyed rows
    → Follows now rows (deny_device_login user_code now rows).1
unfolding deny_device_login find_device_login_by_user_code
deny-Follows user_code now rows keyed =
    elim (Option-cases (find_first (has_user_code (to_upper (trim_space user_code))) rows)) [
      | inl e ↦ rw e (Follows-refl now rows)
      | inr (login, e) ↦ elim (Bool-cases (is_pending login)) [
        | inr other ↦ rw (e, other) (Follows-refl now rows)
        | inl pending ↦
            rw (e, pending)
              (user_code_update now _ (deny now) rows login keyed e (denying login pending))
      ]
    ]
