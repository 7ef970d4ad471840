-- ===== src/Device/Keyed.antt =====
-- internal/authapp/device.go: the codes of the table of device logins stay unique.
use sandcastle_incus.Prelude.{
  ◌≡◌, refl, ◌∙◌, ℕ, Bool, true, false, List, [], ◌∷◌, if◌then◌else◌, exists, ltb, All,
  Pairwise-snoc, All-of_exists_false, All-imp, Bool-cases, inl, inr, ||-eq-false, Option-cases,
}
use sandcastle_incus.Prelude.Text.{Text, teq, teq_comm}
use sandcastle_incus.Device.Logins.{
  DeviceRow, find_device_login_by_device_code, find_device_login_by_user_code, update_where,
  code_taken, new_row, create_device_login, is_pending, is_overdue, poll_device_login,
  approve_device_login, deny_device_login,
}
use sandcastle_incus.Device.Moves.{CodesApart, IsKeyed}
use sandcastle_incus.Device.Runs.{Event, step}

-- The update leaves the codes.
abbrev KeepsCodes : (DeviceRow → DeviceRow) → Type 0
KeepsCodes set =
    (r : DeviceRow) → ((set r).device_code ≡ r.device_code) × ((set r).user_code ≡ r.user_code)

module _ (here : DeviceRow → Bool) (set : DeviceRow → DeviceRow) (keeps : KeepsCodes set) where
  apart_after : (a r : DeviceRow) → CodesApart a r → CodesApart a (if here r then set r else r)
  apart_after a r h = elim (here r) as (λ b. CodesApart a (if b then set r else r)) [
    | true ↦ rw ((keeps r).0, (keeps r).1) h
    | false ↦ h
  ]

  from_after : (r b : DeviceRow) → CodesApart r b → CodesApart (if here r then set r else r) b
  from_after r b h = elim (here r) as (λ t. CodesApart (if t then set r else r) b) [
    | true ↦ rw ((keeps r).0, (keeps r).1) h
    | false ↦ h
  ]

  All-after :
      (a : DeviceRow) (rows : List DeviceRow)
      → All (CodesApart a) rows
      → All (CodesApart a) (update_where here set rows)
  unfolding update_where
  All-after a [] h = tt
  All-after a (r ∷ rows) (hr, h) = (apart_after a r hr, All-after a rows h)

  update_where-IsKeyed :
      (rows : List DeviceRow) → IsKeyed rows → IsKeyed (update_where here set rows)
  unfolding update_where
  update_where-IsKeyed [] h = tt
  update_where-IsKeyed (r ∷ rows) (hr, h) = (
    All-after (if here r then set r else r) rows (All-imp _ _ rows (λ b. from_after r b) hr),
    update_where-IsKeyed rows h,
  )

approve-IsKeyed :
    (user_code user_key dns_suffix initial_project : Text) (now : ℕ) (rows : List DeviceRow)
    → IsKeyed rows
    → IsKeyed (approve_device_login user_code user_key dns_suffix initial_project now rows).1
unfolding approve_device_login
approve-IsKeyed user_code user_key dns_suffix initial_project now rows keyed =
    elim (Option-cases (find_device_login_by_user_code user_code rows)) [
      | inl e ↦ rw e keyed
      | inr (login, e) ↦ elim (Bool-cases (is_pending login)) [
        | inr other ↦ rw (e, other) keyed
        | inl pending ↦ elim (Bool-cases (ltb now login.expires_at)) [
          | inr over ↦
              rw (e, pending, over) (update_where-IsKeyed _ _ (λ r. (refl, refl)) rows keyed)
          | inl early ↦
              rw (e, pending, early) (update_where-IsKeyed _ _ (λ r. (refl, refl)) rows keyed)
        ]
      ]
    ]

deny-IsKeyed :
    (user_code : Text) (now : ℕ) (rows : List DeviceRow)
    → IsKeyed rows
    → IsKeyed (deny_device_login user_code now rows).1
unfolding deny_device_login
deny-IsKeyed user_code now rows keyed =
    elim (Option-cases (find_device_login_by_user_code user_code rows)) [
      | inl e ↦ rw e keyed
      | inr (login, e) ↦ elim (Bool-cases (is_pending login)) [
        | inr other ↦ rw (e, other) keyed
        | inl pending ↦ rw (e, pending) (update_where-IsKeyed _ _ (λ r. (refl, refl)) rows keyed)
      ]
    ]

-- The codes of the table stay unique.
pub step-IsKeyed :
    (now : ℕ) (e : Event) (rows : List DeviceRow) → IsKeyed rows → IsKeyed (step now e rows)
unfolding step create_device_login poll_device_login
step-IsKeyed now (Event.start device_code user_code) rows keyed =
    let row = new_row device_code user_code now in
    elim (Bool-cases (exists (code_taken row) rows)) [
      | inl taken ↦ rw taken keyed
      | inr free ↦ rw free (
          Pairwise-snoc CodesApart rows row keyed (
            All-imp _ _ rows
              (λ (r : DeviceRow) h.
                let (d, u) =
                  ||-eq-false (teq r.device_code device_code) (teq r.user_code user_code) h in
                (teq_comm device_code r.device_code ∙ d, teq_comm user_code r.user_code ∙ u))
              (All-of_exists_false (code_taken row) rows free)))
    ]
step-IsKeyed now (Event.poll device_code) rows keyed =
    elim (Option-cases (find_device_login_by_device_code device_code rows)) [
      | inl e ↦ rw e keyed
      | inr (login, e) ↦ elim (Bool-cases (is_overdue now login)) [
        | inr early ↦ rw (e, early) keyed
        | inl over ↦ rw (e, over) (update_where-IsKeyed _ _ (λ r. (refl, refl)) rows keyed)
      ]
    ]
step-IsKeyed now (Event.approval user_code user_key dns_suffix initial_project) rows keyed =
    approve-IsKeyed user_code user_key dns_suffix initial_project now rows keyed
step-IsKeyed now (Event.denial user_code) rows keyed = deny-IsKeyed user_code now rows keyed
