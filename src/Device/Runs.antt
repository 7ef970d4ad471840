-- ===== src/Device/Runs.antt =====
-- internal/authapp/device.go: calls on the table of device logins, one after another.
use sandcastle_incus.Prelude.{
  ◌≡◌, arith, ℕ, Bool, true, false, not, List, [], ◌∷◌, ◌++◌, find_first, exists, ltb, Bool-cases,
  inl, inr, Result, err, ok, &&-eq-true, Option-cases,
}
use sandcastle_incus.Prelude.Text.{Text, codes, teq_refl, trim_space}
use sandcastle_incus.Device.Logins.{
  DeviceRow, DeviceError, has_device_code, find_device_login_by_device_code, code_taken, new_row,
  create_device_login, expire, is_pending, is_overdue, poll_device_login, approve_device_login,
  deny_device_login,
}
use sandcastle_incus.Device.Moves.{
  Move, Follows, Follows-refl, IsKeyed, approve-Follows, deny-Follows, device_code_update, late,
}

pub data Event : Type 0 where
  start : Text → Text → Event
  poll : Text → Event
  approval : Text → Text → Text → Text → Event
  denial : Text → Event

abbrev pub table_created : List DeviceRow → Result DeviceError (List DeviceRow) → List DeviceRow
table_created rows (err e) = rows
table_created rows (ok rows') = rows'

abbrev pub table_polled :
    List DeviceRow → Result DeviceError (DeviceRow × List DeviceRow) → List DeviceRow
table_polled rows (err e) = rows
table_polled rows (ok (login, rows')) = rows'

-- The table after a call at a time, also one that is refused.
unfoldable pub step : ℕ → Event → List DeviceRow → List DeviceRow
unfolding create_device_login poll_device_login approve_device_login deny_device_login
step now (start device_code user_code) rows =
    table_created rows (create_device_login device_code user_code now rows)
step now (poll device_code) rows = table_polled rows (poll_device_login device_code now rows)
step now (approval user_code user_key dns_suffix initial_project) rows =
    (approve_device_login user_code user_key dns_suffix initial_project now rows).1
step now (denial user_code) rows = (deny_device_login user_code now rows).1

unfoldable pub run : List (ℕ × Event) → List DeviceRow → List DeviceRow
unfolding step
run [] rows = rows
run ((now, e) ∷ events) rows = run events (step now e rows)

Follows-snoc :
    (now : ℕ) (rows : List DeviceRow) (r : DeviceRow)
    → is_pending r ≡ true
    → Follows now rows (rows ++ r ∷ [])
Follows-snoc now [] r h = (h, tt)
Follows-snoc now (x ∷ rows) r h = (Move.stay x, Follows-snoc now rows r h)

poll-Follows :
    (device_code : Text) (now : ℕ) (rows : List DeviceRow)
    → IsKeyed rows
    → Follows now rows (step now (poll device_code) rows)
unfolding step poll_device_login find_device_login_by_device_code
poll-Follows device_code now rows keyed =
    elim (Option-cases (find_first (has_device_code (trim_space device_code)) rows)) [
      | inl e ↦ rw e (Follows-refl now rows)
      | inr (login, e) ↦ elim (Bool-cases (is_overdue now login)) [
        | inr early ↦ rw (e, early) (Follows-refl now rows)
        | inl over ↦
            let (pending, passed) =
              &&-eq-true (is_pending login) (not (ltb now login.expires_at)) over in
            rw (e, over)
              (device_code_update now _ expire rows login keyed e
                (Move.expiring login pending (late now login.expires_at (not_true _ passed))))
      ]
    ]
  where
    not_true : (b : Bool) → not b ≡ true → b ≡ false
    not_true b h = ground arith

start-Follows :
    (device_code user_code : Text) (now : ℕ) (rows : List DeviceRow)
    → Follows now rows (step now (start device_code user_code) rows)
unfolding step create_device_login
start-Follows device_code user_code now rows =
    elim (Bool-cases (exists (code_taken (new_row device_code user_code now)) rows)) [
      | inl taken ↦ rw taken (Follows-refl now rows)
      | inr free ↦
          rw free
            (Follows-snoc now rows (new_row device_code user_code now) (teq_refl (codes "pending")))
    ]

-- In a table with unique codes, each call of create, poll, approve or deny moves every row along
-- the states of a login (it stays, a pending one expires when it is due, is approved before it is
-- due, or is denied) and adds pending rows only.
pub step-Follows :
    (now : ℕ) (e : Event) (rows : List DeviceRow)
    → IsKeyed rows
    → Follows now rows (step now e rows)
unfolding step
step-Follows now (start device_code user_code) rows keyed =
    start-Follows device_code user_code now rows
step-Follows now (poll device_code) rows keyed = poll-Follows device_code now rows keyed
step-Follows now (approval user_code user_key dns_suffix initial_project) rows keyed =
    approve-Follows user_code user_key dns_suffix initial_project now rows keyed
step-Follows now (denial user_code) rows keyed = deny-Follows user_code now rows keyed
