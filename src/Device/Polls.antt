-- ===== src/Device/Polls.antt =====
-- internal/authapp/device.go: the answer of a poll, from the row that it found to the response, with
-- what a provisioning that it started, or an earlier one, has brought.
use sandcastle_incus.Prelude.{
  ℕ, ◌/◌, ◌-◌, Bool, true, false, not, ◌&&◌, ◌||◌, List, [], ◌∷◌, if◌then◌else◌, Option, none, some,
}
use sandcastle_incus.Prelude.Text.{Text, codes, teq, trim_space}
use sandcastle_incus.Domain.{is_nil}
use sandcastle_incus.Device.Logins.{
  DeviceRow, second, device_status_pending, device_status_approved, device_status_denied,
}

pub record DeviceLogin : Type 0 where
  pub device_code : Text
  pub user_code : Text
  pub status : Text
  pub user_key : Text
  pub message : Text
  pub provisioned_at : Option ℕ
  pub token : Text
  pub remote_name : Text
  pub requested_dns_suffix : Text
  pub requested_initial_project : Text
  pub dns_suffix : Text
  pub current_project : Text
  pub incus_remote_address : Text
  pub incus_project : Text
  pub tailscale_login_url : Text
  pub tenant_private_cidr : Text
  pub accessible_tenants : List Text
  pub projects : List Text
  pub expires_at : ℕ

-- `scanDeviceLogin`
unfoldable pub scan_device_login : DeviceRow → DeviceLogin
scan_device_login r = record {
  device_code = r.device_code;
  user_code = r.user_code;
  status = r.status;
  user_key = r.user_key;
  message = r.message;
  provisioned_at = r.provisioned_at;
  token = [];
  remote_name = [];
  requested_dns_suffix = r.dns_suffix;
  requested_initial_project = r.initial_project;
  dns_suffix = [];
  current_project = [];
  incus_remote_address = [];
  incus_project = [];
  tailscale_login_url = [];
  tenant_private_cidr = [];
  accessible_tenants = [];
  projects = [];
  expires_at = r.expires_at;
}

-- What came of the provisioning that a poll asked for: another poll's still runs, its own is not done
-- in time, or it is done, with an error that may be terminal.
pub data Attempt : Type 0 where
  busy slow : Attempt
  provisioned : DeviceLogin → Attempt
  failed : DeviceLogin → Bool → Attempt

abbrev pub is_approved : DeviceLogin → Bool
is_approved login = teq login.status device_status_approved

unfoldable pub provisioning_in_flight : DeviceLogin → DeviceLogin
provisioning_in_flight login = record login {
  status = device_status_pending;
  message =
      if is_nil (trim_space login.message)
      then codes "Provisioning Personal Tenant."
      else login.message;
}

abbrev pub after_attempt : DeviceLogin → Attempt → DeviceLogin
after_attempt login busy = provisioning_in_flight login
after_attempt login slow = provisioning_in_flight login
after_attempt login (provisioned done) = done
after_attempt login (failed done terminal) = record done {
  status = if terminal then device_status_denied else device_status_pending;
}

abbrev pub is_none : Option ℕ → Bool
is_none none = true
is_none (some t) = false

-- `has_provisioner` stands for `h.provisioner != nil`.
unfoldable pub provision : Bool → Bool → Attempt → DeviceLogin → DeviceLogin
unfolding provisioning_in_flight
provision has_provisioner awaiting_tailnet attempt login =
    if is_approved login && (has_provisioner && (is_none login.provisioned_at || awaiting_tailnet))
    then after_attempt login attempt
    else login

abbrev pub with_result : DeviceLogin → Option DeviceLogin → DeviceLogin
with_result login none = login
with_result login (some result) = record result {
  status = login.status;
  expires_at = login.expires_at;
}

-- The result that an earlier provisioning left in memory.
unfoldable pub pick_up : Option DeviceLogin → DeviceLogin → DeviceLogin
pick_up result login =
    if is_approved login && is_nil (trim_space login.token) then with_result login result else login

-- The login that the response shows.
unfoldable pub answered_login : Bool → Bool → Attempt → Option DeviceLogin → DeviceRow → DeviceLogin
unfolding scan_device_login provision pick_up
answered_login has_provisioner awaiting_tailnet attempt result r =
    pick_up result (provision has_provisioner awaiting_tailnet attempt (scan_device_login r))

-- The user that gets a CLI token.
unfoldable pub cli_token_user : DeviceLogin → Option Text
cli_token_user login =
    if is_approved login && not (is_nil login.user_key) then some login.user_key else none

-- `now` is the time of `time.Until`.
unfoldable pub expires_in : ℕ → DeviceLogin → ℕ
expires_in now login = (login.expires_at - now) / second

unfoldable pub cli_flag_or_browser_form : Text → Text → Text
cli_flag_or_browser_form cli browser =
    let s = trim_space cli in if is_nil s then trim_space browser else s

unfoldable pub current_tenant_for_device_login : DeviceLogin → Text
current_tenant_for_device_login login = only login.accessible_tenants
  where
    only : List Text → Text
    only [] = []
    only (t ∷ []) = t
    only (t ∷ u ∷ ts) = []

unfoldable pub current_project_for_device_login : DeviceLogin → Text
unfolding current_tenant_for_device_login
current_project_for_device_login login =
    if is_approved login && not (is_nil (current_tenant_for_device_login login))
    then (if is_nil (trim_space login.current_project)
        then codes "default"
        else trim_space login.current_project)
    else []

unfoldable pub tenant_tailnet_state_for_device_login : DeviceLogin → Text
tenant_tailnet_state_for_device_login login = if is_approved login then codes "pending" else []

unfoldable pub next_command_for_device_login : DeviceLogin → Text
unfolding current_tenant_for_device_login
next_command_for_device_login login =
    if is_approved login && not (is_nil (current_tenant_for_device_login login))
    then codes "sandcastle create dev"
    else []

unfoldable pub tailscale_auth_key_for_device_login : Text → DeviceLogin → Text
tailscale_auth_key_for_device_login key login = if is_approved login then trim_space key else []

pub record CliLoginResult : Type 0 where
  pub selected_user : Text
  pub current_tenant : Text
  pub current_project : Text
  pub incus_certificate_add_token : Text
  pub remote_name : Text
  pub incus_remote_address : Text
  pub ssh_key_fingerprint : Text
  pub tailnet_state : Text
  pub accessible_tenants : List Text
  pub projects : List Text
  pub message : Text
  pub next_command : Text

unfoldable pub login_result_for_device_login : Text → DeviceLogin → Option CliLoginResult
unfolding current_tenant_for_device_login current_project_for_device_login
    tenant_tailnet_state_for_device_login next_command_for_device_login
login_result_for_device_login ssh_fingerprint login =
    if is_approved login
    then some (record {
      selected_user = login.user_key;
      current_tenant = current_tenant_for_device_login login;
      current_project = current_project_for_device_login login;
      incus_certificate_add_token = login.token;
      remote_name = login.remote_name;
      incus_remote_address = login.incus_remote_address;
      ssh_key_fingerprint = ssh_fingerprint;
      tailnet_state = tenant_tailnet_state_for_device_login login;
      accessible_tenants = login.accessible_tenants;
      projects = login.projects;
      message = login.message;
      next_command = next_command_for_device_login login;
    })
    else none
