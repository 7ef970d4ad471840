-- ===== src/Device/Tokens.antt =====
-- internal/authapp/device.go: a poll gives a CLI token only for a login that was approved in time.
use sandcastle_incus.Prelude.{
  ◌≡◌, refl, sym, ◌∙◌, subst, ℕ, ◌<◌, Bool, true, false, List, [], ◌∷◌, Option, none, some,
  find_first, All, Bool-cases, Option-cases, inl, inr, Result, err, ok,
}
use sandcastle_incus.Prelude.Text.{Text, teq, trim_space}
use sandcastle_incus.Device.Logins.{
  DeviceRow, DeviceError, not_found, device_status_approved, expire, is_overdue, poll_device_login,
  has_device_code, find_device_login_by_device_code,
}
use sandcastle_incus.Device.Polls.{
  DeviceLogin, Attempt, scan_device_login, provision, pick_up, answered_login, cli_token_user,
}
use sandcastle_incus.Device.Runs.{Event, run}
use sandcastle_incus.Device.Settled.{IsTimely, run-IsTimely}

-- Where the row is not approved, neither a provisioning nor an earlier result changes the answer.
not_approved :
    (has_provisioner awaiting : Bool) (attempt : Attempt) (result : Option DeviceLogin)
    (r : DeviceRow)
    → teq r.status device_status_approved ≡ false
    → answered_login has_provisioner awaiting attempt result r ≡ scan_device_login r
unfolding answered_login provision pick_up scan_device_login
not_approved has_provisioner awaiting attempt result r h = rw (h, h) refl

token_approved :
    (has_provisioner awaiting : Bool) (attempt : Attempt) (result : Option DeviceLogin)
    (r : DeviceRow) (user : Text)
    → cli_token_user (answered_login has_provisioner awaiting attempt result r) ≡ some user
    → teq r.status device_status_approved ≡ true
unfolding cli_token_user scan_device_login
token_approved has_provisioner awaiting attempt result r user h =
    elim (Bool-cases (teq r.status device_status_approved)) [
      | inl e ↦ e
      | inr e ↦ absurd (refused e)
    ]
  where
    apart : none ≡ some user → ⊥
    apart g = cc

    refused : teq r.status device_status_approved ≡ false → ⊥
    refused e =
        let kept : cli_token_user (scan_device_login r) ≡ some user =
          subst (λ l. cli_token_user l ≡ some user)
            (not_approved has_provisioner awaiting attempt result r e) h in
        let nothing : cli_token_user (scan_device_login r) ≡ none = rw e refl in
        apart (sym nothing ∙ kept)

All-find_first :
    (P : DeviceRow → Type 0) (here : DeviceRow → Bool) (rows : List DeviceRow) (r : DeviceRow)
    → All P rows
    → find_first here rows ≡ some r
    → P r
All-find_first P here [] r h e = cc
All-find_first P here (x ∷ rows) r (hx, h) e = elim (Bool-cases (here x)) [
  | inl is ↦ subst P (row_eq x r (rw is at e)) hx
  | inr other ↦ All-find_first P here rows r h (rw other at e)
]
  where
    row_eq : (x y : DeviceRow) → some x ≡ some y → x ≡ y
    row_eq x y g = cc

expire-IsTimely : (r : DeviceRow) → IsTimely (expire r)
unfolding teq
expire-IsTimely r = inl refl

polled-IsTimely :
    (code : Text) (now : ℕ) (rows rows' : List DeviceRow) (r : DeviceRow)
    → All IsTimely rows
    → poll_device_login code now rows ≡ ok (r, rows')
    → IsTimely r
unfolding poll_device_login find_device_login_by_device_code
polled-IsTimely code now rows rows' r h e =
    elim (Option-cases (find_first (has_device_code (trim_space code)) rows)) [
      | inl missing ↦ absurd (not_ok (rw missing at e))
      | inr (login, found) ↦ elim (Bool-cases (is_overdue now login)) [
        | inl over ↦
            subst IsTimely (answer_eq (expire login) r _ _ (rw (found, over) at e))
              (expire-IsTimely login)
        | inr early ↦
            subst IsTimely (answer_eq login r _ _ (rw (found, early) at e))
              (All-find_first IsTimely _ rows login h found)
      ]
    ]
  where
    not_ok :
        ◌≡◌ {A = Result DeviceError (DeviceRow × List DeviceRow)} (err not_found) (ok (r, rows'))
        → ⊥
    not_ok g = cc

    answer_eq :
        (x y : DeviceRow) (xs ys : List DeviceRow)
        → ◌≡◌ {A = Result DeviceError (DeviceRow × List DeviceRow)} (ok (x, xs)) (ok (y, ys))
        → x ≡ y
    answer_eq x y xs ys g = cc

-- Whatever calls are made on an empty table of device logins, who is then given a CLI token in the
-- answer of a poll, whatever a provisioning brought, polled a row with an approval time before its
-- expiry.
pub cli_token_user-approved :
    (events : List (ℕ × Event)) (code : Text) (now : ℕ) (r : DeviceRow) (rows : List DeviceRow)
    (has_provisioner awaiting : Bool) (attempt : Attempt) (result : Option DeviceLogin)
    (user : Text)
    → poll_device_login code now (run events []) ≡ ok (r, rows)
    → cli_token_user (answered_login has_provisioner awaiting attempt result r) ≡ some user
    → (t : ℕ) × (r.approved_at ≡ some t) × (t < r.expires_at)
cli_token_user-approved events code now r rows has_provisioner awaiting attempt result user e h =
    elim (polled-IsTimely code now (run events []) rows r (run-IsTimely events [] tt tt) e) [
      | inr timely ↦ timely
      | inl never ↦
          absurd (clash (token_approved has_provisioner awaiting attempt result r user h) never)
    ]
  where
    clash :
        teq r.status device_status_approved ≡ true → teq r.status device_status_approved ≡ false → ⊥
    clash a b = cc
