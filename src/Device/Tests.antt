-- ===== src/Device/Tests.antt =====
-- The theorems on device logins, at one login that is approved and one that is left alone.
use sandcastle_incus.Prelude.{
  ◌≡◌, refl, arith, ℕ, ◌<◌, ◌≤◌, ◌*◌, false, List, [], ◌∷◌, some, none, ok,
}
use sandcastle_incus.Prelude.Text.{Text, codes, teq, trim_space, trim_left, trim_right}
use sandcastle_incus.Device.Logins.{
  DeviceRow, second, new_row, rfc3339, find_device_login_by_device_code,
  find_device_login_by_user_code, to_upper, update_where, approve, is_pending, create_device_login,
  poll_device_login, approve_device_login,
}
use sandcastle_incus.Device.Polls.{
  Attempt, answered_login, provision, pick_up, scan_device_login, cli_token_user,
}
use sandcastle_incus.Device.Moves.{Follows}
use sandcastle_incus.Device.Runs.{Event, step, run, step-Follows}
use sandcastle_incus.Device.Settled.{run_settled, poll_settles}
use sandcastle_incus.Device.Tokens.{cli_token_user-approved}

abbrev code : Text
code = codes "device-code"

abbrev waiting : DeviceRow
waiting = new_row code (codes "ABCD-EFGH") (5 * second)

abbrev approved : DeviceRow
approved = approve (codes "ann") [] [] (60 * second) waiting

abbrev approval_by_ann : Event
approval_by_ann = Event.approval (codes "abcd-efgh") (codes "ann") [] []

step-Follows_example :
    Follows (60 * second) (waiting ∷ []) (step (60 * second) approval_by_ann (waiting ∷ []))
step-Follows_example = step-Follows (60 * second) approval_by_ann (waiting ∷ []) (tt, tt)

found_run : find_device_login_by_device_code code (approved ∷ []) ≡ some approved
unfolding find_device_login_by_device_code trim_space trim_left trim_right teq
found_run = refl

settled_run : is_pending approved ≡ false
unfolding teq
settled_run = refl

abbrev later : List (ℕ × Event)
later = (70 * second, Event.denial (codes "ABCD-EFGH")) ∷ (700 * second, Event.poll code) ∷ []

run_settled_example :
    find_device_login_by_device_code code (run later (approved ∷ [])) ≡ some approved
run_settled_example = run_settled later code (approved ∷ []) approved (tt, tt) found_run settled_run

waiting_run : find_device_login_by_device_code code (waiting ∷ []) ≡ some waiting
unfolding find_device_login_by_device_code trim_space trim_left trim_right teq
waiting_run = refl

due_run : waiting.expires_at ≤ 700 * second
unfolding rfc3339
due_run = ground arith

poll_settles_example :
    (answer : DeviceRow) × (is_pending answer ≡ false)
    × (poll_device_login code (700 * second) (waiting ∷ [])
        ≡ ok (answer, step (700 * second) (Event.poll code) (waiting ∷ [])))
    × (find_device_login_by_device_code code
          (run later (step (700 * second) (Event.poll code) (waiting ∷ [])))
        ≡ some answer)
poll_settles_example =
    poll_settles code (700 * second) (waiting ∷ []) waiting later (tt, tt) waiting_run due_run

abbrev story : List (ℕ × Event)
story = (5 * second, Event.start code (codes "ABCD-EFGH")) ∷ (60 * second, approval_by_ann) ∷ []

polled_run : poll_device_login code (61 * second) (run story []) ≡ ok (approved, approved ∷ [])
unfolding run step create_device_login approve_device_login poll_device_login
    find_device_login_by_device_code find_device_login_by_user_code to_upper update_where trim_space
    trim_left trim_right teq rfc3339
polled_run = refl

token_run :
    cli_token_user (answered_login false false Attempt.busy none approved) ≡ some (codes "ann")
unfolding cli_token_user answered_login provision pick_up scan_device_login teq trim_space trim_left
    trim_right
token_run = refl

cli_token_user-approved_example :
    (t : ℕ) × (approved.approved_at ≡ some t) × (t < approved.expires_at)
cli_token_user-approved_example =
    cli_token_user-approved story code (61 * second) approved (approved ∷ []) false false
      Attempt.busy none (codes "ann") polled_run token_run
