-- ===== src/Requests/Message.antt =====
-- What the requests are: messages of keys and values, as `ParseStateInfo` reads them.
use livox_sdk.Base.{
  ℕ, ◌-◌, ◌≡◌, refl, arith, List, [], ◌∷◌, ◌++◌, length, Bool-cases, inl, inr, replicate, le16, ◌⊎◌,
  if◌then◌else◌,
}
use livox_sdk.StateInfo.Keys.{
  ParamKeyName, key_code, lidar_imu_host_ip_cfg, lidar_point_data_host_ip_cfg,
  state_info_host_ip_cfg,
}
use livox_sdk.StateInfo.Message.{Tlv, message}
use livox_sdk.Requests.{Attempt, fault, thrown, refused, done, ◌>>=◌, Request, zeroed, put_key_num}
use livox_sdk.Requests.Address.{ip_to_u8}
use livox_sdk.Requests.Dotted.{length-ip_to_u8, ip_to_u8_returns}
use livox_sdk.Requests.Build.{
  HostNetInfo, LivoxLidarIpInfo, HostIpInfo, is_empty, build_update_request,
  build_set_ntp_server_ip_info_request, build_set_lidar_ip_info_request, put_host_key,
}

-- The buffer after a message was written to it: the message, and zeroes up to its end.
abbrev pub request_of : List Tlv → Request
request_of ts = record {
  buf = message ts 0 0 ++ replicate (1400 - length (message ts 0 0)) 0;
  len = length (message ts 0 0);
}

-- An address with the two ports.
abbrev pub endpoint : ParamKeyName → List ℕ → ℕ → ℕ → Tlv
endpoint key ip host_port lidar_port = record {
  key = key_code key;
  value = ip ++ (le16 host_port ++ le16 lidar_port);
}

-- The address that data is sent to.
abbrev pub data_ip : HostNetInfo → List ℕ
data_ip host = if is_empty host.multicast_ip then host.host_ip else host.multicast_ip

-- Of an address, `IpToU8` throws, refuses, or gives four bytes.
abbrev pub Address : List ℕ → Type 0
Address text =
    (ip_to_u8 text ≡ thrown)
    ⊎ ((ip_to_u8 text ≡ refused)
        ⊎ ((a : ℕ) × (b : ℕ) × (c : ℕ) × (d : ℕ) × (ip_to_u8 text ≡ done (a ∷ b ∷ c ∷ d ∷ []))))

four_bytes : (text v : List ℕ) → ip_to_u8 text ≡ done v → length v ≡ 4 → Address text
four_bytes text (a ∷ b ∷ c ∷ d ∷ []) e h = inr (inr (a, b, c, d, e))
four_bytes text [] e h = absurd (omega arith)
four_bytes text (a ∷ []) e h = absurd (omega arith)
four_bytes text (a ∷ b ∷ []) e h = absurd (omega arith)
four_bytes text (a ∷ b ∷ c ∷ []) e h = absurd (omega arith)
four_bytes text (a ∷ b ∷ c ∷ d ∷ x ∷ v) e h = absurd (omega arith)

Address-cases : (text : List ℕ) (x : Attempt (List ℕ)) → ip_to_u8 text ≡ x → Address text
Address-cases text fault e = absurd (ip_to_u8_returns text e)
Address-cases text thrown e = inl e
Address-cases text refused e = inr (inl e)
Address-cases text (done v) e = four_bytes text v e (length-ip_to_u8 text v e)

pub address : (text : List ℕ) → Address text
address text = Address-cases text (ip_to_u8 text) refl

-- The requests that configure three addresses: that of the host for the state, and the address for
-- data, with the port of each for the host and for the device.
abbrev pub three_addresses : ℕ → ℕ → ℕ → HostNetInfo → Attempt Request
three_addresses state_port point_port imu_port host = do
  host_ip ← ip_to_u8 host.host_ip
  ip ← ip_to_u8 (data_ip host)
  done (
      request_of (
        endpoint state_info_host_ip_cfg ip host.push_msg_port state_port
        ∷ endpoint lidar_point_data_host_ip_cfg ip host.point_data_port point_port
        ∷ endpoint lidar_imu_host_ip_cfg ip host.imu_data_port imu_port
        ∷ []))

pub build_update-three :
    (sp pp ip : ℕ) (host : HostNetInfo)
    → build_update_request sp pp ip host zeroed ≡ three_addresses sp pp ip host
unfolding key_code
build_update-three sp pp ip host = elim (address host.host_ip) [
  | inl e ↦ rw e refl
  | inr (inl e) ↦ rw e refl
  | inr (inr (a, b, c, d, e)) ↦ elim (Bool-cases (is_empty host.multicast_ip)) [
    | inl empty ↦ rw (empty, e) refl
    | inr other ↦ elim (address host.multicast_ip) [
      | inl f ↦ rw (other, e, f) refl
      | inr (inl f) ↦ rw (other, e, f) refl
      | inr (inr (x, y, z, w, f)) ↦ rw (other, e, f) refl
    ]
  ]
]

-- One key with an address and two ports.
pub one_endpoint :
    (k : ParamKeyName) (cfg : HostIpInfo)
    → (put_key_num 1 zeroed >>= put_host_key k cfg.host_ip_addr cfg.host_port cfg.lidar_port) ≡ (do
      ip ← ip_to_u8 cfg.host_ip_addr
      done (request_of (endpoint k ip cfg.host_port cfg.lidar_port ∷ [])))
one_endpoint k cfg = elim (address cfg.host_ip_addr) [
  | inl e ↦ rw e refl
  | inr (inl e) ↦ rw e refl
  | inr (inr (a, b, c, d, e)) ↦ rw e refl
]

pub ntp-message :
    (text : List ℕ)
    → build_set_ntp_server_ip_info_request text zeroed
      ≡ (do ip ← ip_to_u8 text; done (request_of (record { key = 0x0025; value = ip } ∷ [])))
unfolding build_set_ntp_server_ip_info_request key_code
ntp-message text = elim (address text) [
  | inl e ↦ rw e refl
  | inr (inl e) ↦ rw e refl
  | inr (inr (a, b, c, d, e)) ↦ rw e refl
]

pub lidar_ip-message :
    (config : LivoxLidarIpInfo)
    → build_set_lidar_ip_info_request config zeroed ≡ (do
      ip ← ip_to_u8 config.ip_addr
      mask ← ip_to_u8 config.net_mask
      gateway ← ip_to_u8 config.gw_addr
      done (request_of (record { key = 0x0004; value = ip ++ (mask ++ gateway) } ∷ [])))
unfolding build_set_lidar_ip_info_request key_code
lidar_ip-message config = elim (address config.ip_addr) [
  | inl e ↦ rw e refl
  | inr (inl e) ↦ rw e refl
  | inr (inr (a, b, c, d, e)) ↦ elim (address config.net_mask) [
    | inl f ↦ rw (e, f) refl
    | inr (inl f) ↦ rw (e, f) refl
    | inr (inr (a', b', c', d', f)) ↦ elim (address config.gw_addr) [
      | inl g ↦ rw (e, f, g) refl
      | inr (inl g) ↦ rw (e, f, g) refl
      | inr (inr (x, y, z, w, g)) ↦ rw (e, f, g) refl
    ]
  ]
]
