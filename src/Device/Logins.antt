-- ===== src/Device/Logins.antt =====
-- internal/authapp/device.go: the table of device logins and what is done to it. A time counts
-- nanoseconds; SQLite does not fail but on its constraints.
use sandcastle_incus.Prelude.{
  ℕ, ◌+◌, ◌*◌, ◌/◌, ◌-◌, Bool, not, ◌&&◌, ◌||◌, List, [], ◌∷◌, ◌++◌, map, if◌then◌else◌, Option,
  none, some, find_first, exists, leb, ltb, ◌==◌, Result, err, ok, ◌>>◌, fail_if,
}
use sandcastle_incus.Prelude.Text.{Text, codes, teq, trim_space, trim_dots, trim_right, has_prefix}
use sandcastle_incus.Domain.{is_nil}

abbrev pub device_status_pending : Text
device_status_pending = codes "pending"

abbrev pub device_status_approved : Text
device_status_approved = codes "approved"

abbrev pub device_status_denied : Text
device_status_denied = codes "denied"

abbrev pub device_status_expired : Text
device_status_expired = codes "expired"

abbrev pub second : ℕ
second = 1000000000

abbrev pub device_login_ttl : ℕ
device_login_ttl = 10 * 60 * second

abbrev pub device_poll_interval : ℕ
device_poll_interval = 2

-- What is left of a time that was written with `time.RFC3339`: its seconds.
unfoldable pub rfc3339 : ℕ → ℕ
rfc3339 time = time / second * second

-- A row of `device_logins`.
pub record DeviceRow : Type 0 where
  pub device_code : Text
  pub user_code : Text
  pub status : Text
  pub user_key : Text
  pub message : Text
  pub provisioned_at : Option ℕ
  pub created_at : ℕ
  pub expires_at : ℕ
  pub approved_at : Option ℕ
  pub dns_suffix : Text
  pub initial_project : Text

pub data DeviceError : Type 0 where
  not_found duplicate expired : DeviceError
  not_pending : Text → DeviceError

abbrev to_upper_char : ℕ → ℕ
to_upper_char c = if leb b'a' c && leb c b'z' then c - 32 else c

-- `strings.ToUpper(s)`, on ASCII text.
unfoldable pub to_upper : Text → Text
to_upper s = map to_upper_char s

abbrev pub has_device_code : Text → DeviceRow → Bool
has_device_code code r = teq r.device_code code

abbrev pub has_user_code : Text → DeviceRow → Bool
has_user_code code r = teq r.user_code code

unfoldable pub find_device_login_by_device_code : Text → List DeviceRow → Option DeviceRow
find_device_login_by_device_code code rows = find_first (has_device_code (trim_space code)) rows

unfoldable pub find_device_login_by_user_code : Text → List DeviceRow → Option DeviceRow
unfolding to_upper
find_device_login_by_user_code code rows =
    find_first (has_user_code (to_upper (trim_space code))) rows

-- `UPDATE device_logins SET ... WHERE ...`
unfoldable pub update_where :
    (DeviceRow → Bool) → (DeviceRow → DeviceRow) → List DeviceRow → List DeviceRow
update_where here set [] = []
update_where here set (r ∷ rows) = (if here r then set r else r) ∷ update_where here set rows

-- PRIMARY KEY (device_code), UNIQUE (user_code)
abbrev pub code_taken : DeviceRow → DeviceRow → Bool
code_taken row r = teq r.device_code row.device_code || teq r.user_code row.user_code

abbrev pub new_row : Text → Text → ℕ → DeviceRow
new_row device_code user_code now = record {
  device_code = device_code;
  user_code = user_code;
  status = device_status_pending;
  user_key = [];
  message = codes "Waiting for browser approval.";
  provisioned_at = none;
  created_at = rfc3339 now;
  expires_at = rfc3339 (now + device_login_ttl);
  approved_at = none;
  dns_suffix = [];
  initial_project = [];
}

-- The two codes are random.
unfoldable pub create_device_login :
    Text → Text → ℕ → List DeviceRow → Result DeviceError (List DeviceRow)
unfolding rfc3339
create_device_login device_code user_code now rows =
    let row = new_row device_code user_code now in
    fail_if (exists (code_taken row) rows) duplicate >> ok (rows ++ row ∷ [])

abbrev pub expire : DeviceRow → DeviceRow
expire r = record r { status = device_status_expired; message = codes "Device login expired." }

abbrev pub is_pending : DeviceRow → Bool
is_pending r = teq r.status device_status_pending

-- `login.Status == DeviceStatusPending && !now.Before(login.ExpiresAt)`
abbrev pub is_overdue : ℕ → DeviceRow → Bool
is_overdue now r = is_pending r && not (ltb now r.expires_at)

-- The login as it is found, and the table.
unfoldable pub poll_device_login :
    Text → ℕ → List DeviceRow → Result DeviceError (DeviceRow × List DeviceRow)
unfolding find_device_login_by_device_code update_where
poll_device_login device_code now rows = polled (find_device_login_by_device_code device_code rows)
  where
    polled : Option DeviceRow → Result DeviceError (DeviceRow × List DeviceRow)
    polled none = err not_found
    polled (some login) =
        if is_overdue now login
        then ok (expire login, update_where (has_device_code login.device_code) expire rows)
        else ok (login, rows)

abbrev pub approve : Text → Text → Text → ℕ → DeviceRow → DeviceRow
approve user_key dns_suffix initial_project now r = record r {
  status = device_status_approved;
  user_key = user_key;
  message = codes "Approved. Provisioning will continue in the CLI.";
  approved_at = some (rfc3339 now);
  dns_suffix = trim_space dns_suffix;
  initial_project = trim_space initial_project;
}

-- The table after the call, with the error if there is one: a late approval writes and is refused.
unfoldable pub approve_device_login :
    Text → Text → Text → Text → ℕ → List DeviceRow → Option DeviceError × List DeviceRow
unfolding find_device_login_by_user_code update_where rfc3339
approve_device_login user_code user_key dns_suffix initial_project now rows =
    approved (find_device_login_by_user_code user_code rows)
  where
    approved : Option DeviceRow → Option DeviceError × List DeviceRow
    approved none = (some not_found, rows)
    approved (some login) =
        if not (is_pending login)
        then (some (not_pending login.status), rows)
        else if not (ltb now login.expires_at)
        then (some expired, update_where (has_user_code login.user_code) expire rows)
        else (
          none,
          update_where (has_user_code login.user_code)
              (approve user_key dns_suffix initial_project now) rows,
        )

abbrev pub deny : ℕ → DeviceRow → DeviceRow
deny now r = record r {
  status = device_status_denied;
  message = codes "Device login denied.";
  approved_at = some (rfc3339 now);
}

unfoldable pub deny_device_login : Text → ℕ → List DeviceRow → Option DeviceError × List DeviceRow
unfolding find_device_login_by_user_code update_where rfc3339
deny_device_login user_code now rows = denied (find_device_login_by_user_code user_code rows)
  where
    denied : Option DeviceRow → Option DeviceError × List DeviceRow
    denied none = (some not_found, rows)
    denied (some login) =
        if not (is_pending login)
        then (some (not_pending login.status), rows)
        else (none, update_where (has_user_code login.user_code) (deny now) rows)

-- The update of devicePoll after a provisioning that no retry can mend.
unfoldable pub deny_terminal : Text → Text → List DeviceRow → List DeviceRow
unfolding update_where
deny_terminal device_code message rows =
    update_where (has_device_code device_code)
      (λ r. record r { status = device_status_denied; message = message }) rows

-- The update of provisionPersonalTenant after a success.
unfoldable pub record_provisioned : Text → Text → ℕ → List DeviceRow → List DeviceRow
unfolding update_where rfc3339
record_provisioned device_code message now rows =
    update_where (has_device_code device_code)
      (λ r. record r { message = message; provisioned_at = some (rfc3339 now) }) rows

unfoldable pub verification_uri : Text → Text → Text
verification_uri auth_hostname user_code = uri (trim_dots (trim_space auth_hostname))
  where
    uri : Text → Text
    uri host =
        if is_nil host
        then codes "/device?user_code=" ++ user_code
        else if has_prefix host (codes "http://") || has_prefix host (codes "https://")
        then trim_right (λ c. c == b'/') host ++ codes "/device?user_code=" ++ user_code
        else codes "https://" ++ host ++ codes "/device?user_code=" ++ user_code
