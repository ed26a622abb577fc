-- ===== src/Devices.antt =====
-- backend/src/devices/devices.service.ts. The listing of the own devices is in Own.
pub mod Agents
use bankproject.Base.{
  ℕ, ◌-◌, ◌*◌, suc, String, Bool, true, false, ◌&&◌, ◌||◌, not, Option, none, some, List, ltb, ◌==◌,
  opt_str_eq, str_eq, is_some, if◌then◌else◌, map_option,
}
use bankproject.Model.{Db, Device, RefreshToken}
use bankproject.Prisma.{Prisma}
use bankproject.Handler.{
  branch, on_option, Handler, ◌>>=◌, ◌>>◌, gets, run, attempt, now, pure, require, throw_if,
  not_found, unique_violation, record_missing,
}
use bankproject.Devices.Agents.{detect_browser, detect_os}

abbrev pub day : ℕ
day = 86400000

abbrev pub has_ids : ℕ → String → Device → Bool
has_ids user_id device_id d = d.user_id == user_id && str_eq d.device_id device_id

abbrev pub is_device_of : ℕ → ℕ → Device → Bool
is_device_of id user_id d = d.id == id && d.user_id == user_id

-- `userId, deviceId, revokedAt: null`
abbrev pub is_live_on : ℕ → String → RefreshToken → Bool
is_live_on user_id device_id t =
    t.user_id == user_id && opt_str_eq t.device_id (some device_id) && not (is_some t.revoked_at)

abbrev pub device_clash : Device → Device → Bool
device_clash a b = has_ids a.user_id a.device_id b

abbrev pub seen : ℕ → Option String → Device → Device
seen at agent d = record d {
  browser = some (detect_browser agent);
  os = some (detect_os agent);
  last_seen = at;
}

abbrev pub new_device : ℕ → String → Option String → ℕ → ℕ → Device
new_device user_id device_id agent at id = record {
  id = id;
  device_id = device_id;
  browser = some (detect_browser agent);
  os = some (detect_os agent);
  trusted = false;
  user_id = user_id;
  first_seen = at;
  last_seen = at;
}

pub record Registration : Type 0 where
  pub device : Device
  pub is_new_device : Bool

module _ (pg : Prisma) where
  unfoldable pub register_device : ℕ → String → Option String → Handler Registration
  register_device user_id device_id agent = do
    existing ← gets (λ d. pg.find (has_ids user_id device_id) d.devices)
    at ← now
    on_option existing
        (do
          device ←
              attempt
                (λ d.
                  map_option (λ r. (r.0, record d { devices = r.1 }))
                    (pg.create (λ x. x.id) device_clash (new_device user_id device_id agent at)
                      d.devices))
                unique_violation
          pure (record { device = device; is_new_device = true }))
        (λ e. do
          device ←
              attempt
                (λ d.
                  map_option (λ r. (r.0, record d { devices = r.1 }))
                    (pg.update (λ x. x.id == e.id) (seen at agent) d.devices))
                record_missing
          pure (record { device = device; is_new_device = false }))

  -- A device counts as new for a day from when it was first seen.
  unfoldable pub is_new_device : ℕ → String → Handler Bool
  is_new_device user_id device_id = do
    found ← gets (λ d. pg.find (has_ids user_id device_id) d.devices)
    on_option found (pure true) (λ e. do at ← now; pure (ltb (at - e.first_seen) day))

  unfoldable pub set_trust : ℕ → ℕ → Bool → Handler (Option Device)
  set_trust user_id id trusted = do
    n ← run (λ d.
        let r =
          pg.update_many (is_device_of id user_id) (λ x. record x { trusted = trusted })
            d.devices in
        (r.0, record d { devices = r.1 }))
    throw_if (n == 0) (not_found "Device not found")
    gets (λ d. pg.find (is_device_of id user_id) d.devices)

  -- The sessions of one device are revoked; how many there were is returned.
  unfoldable pub revoke_device_sessions : ℕ → ℕ → Handler ℕ
  revoke_device_sessions user_id id = do
    found ← gets (λ d. pg.find (is_device_of id user_id) d.devices)
    device ← require found (not_found "Device not found")
    at ← now
    run (λ d.
        let r =
          pg.update_many (is_live_on user_id device.device_id)
            (λ t. record t { revoked_at = some at }) d.refresh_tokens in
        (r.0, record d { refresh_tokens = r.1 }))
