-- ===== src/Requests/Update.antt =====
-- The requests that tell a device where to send its data, when it is found.
use livox_sdk.Base.{
  ℕ, ◌≡◌, refl, arith, List, [], ◌∷◌, Bool, true, false, Bool-cases, inl, inr, ◌==◌, if◌then◌else◌,
  Option, none, some,
}
use livox_sdk.StateInfo.Keys.{key_code, lidar_imu_host_ip_cfg, lidar_point_data_host_ip_cfg}
use livox_sdk.StateInfo.Message.{Tlv}
use livox_sdk.Requests.{Attempt, refused, done, ◌>>=◌, Request, zeroed}
use livox_sdk.Requests.Address.{ip_to_u8}
use livox_sdk.Requests.Build.{
  HostNetInfo, LivoxLidarCfg, ViewLidarIpInfo, is_empty, lidar_point_port, lidar_imu_port,
  build_update_lidar_cfg_request, build_update_view_lidar_cfg_request,
  build_update_mid360_lidar_cfg_request, build_update_mid360l_lidar_cfg_request,
  build_update_avia2_lidar_cfg_request,
}
use livox_sdk.Requests.Message.{
  request_of, endpoint, data_ip, address, three_addresses, build_update-three,
}

-- For the type of a device: its port for points, and, unless it has no inertial data, that for them.
abbrev pub data_ports : ℕ → Attempt (ℕ × Option ℕ)
data_ports device_type =
    if device_type == 10
    then done (57000, some 58000)
    else if device_type == 9
    then done (56300, some 56400)
    else if device_type == 16
    then done (10000, none)
    else if device_type == 35
    then done (56300, some 56400)
    else if device_type == 40
    then done (56300, some 56400)
    else refused

-- The key for points, and that for inertial data.
abbrev pub data_keys : List ℕ → HostNetInfo → ℕ × Option ℕ → List Tlv
data_keys ip host (point_port, none) =
    endpoint lidar_point_data_host_ip_cfg ip host.point_data_port point_port ∷ []
data_keys ip host (point_port, some imu_port) =
    endpoint lidar_point_data_host_ip_cfg ip host.point_data_port point_port
    ∷ endpoint lidar_imu_host_ip_cfg ip host.imu_data_port imu_port
    ∷ []

abbrev pub data_addresses : LivoxLidarCfg → Attempt Request
data_addresses cfg = do
  ip ← ip_to_u8 (data_ip cfg.host_net_info)
  ports ← data_ports cfg.device_type
  done (request_of (data_keys ip cfg.host_net_info ports))

pa_port : (t : ℕ) → t == 16 ≡ true → lidar_point_port t ≡ done 10000
unfolding lidar_point_port
pa_port t h = ground (arith, h)

module _ (cfg : LivoxLidarCfg) where
  abbrev described : ℕ × Option ℕ → Attempt Request
  described ports = do
    ip ← ip_to_u8 (data_ip cfg.host_net_info)
    done (request_of (data_keys ip cfg.host_net_info ports))

  with_imu :
      (p q : ℕ)
      → cfg.device_type == 16 ≡ false
      → lidar_point_port cfg.device_type ≡ done p
      → lidar_imu_port cfg.device_type ≡ done q
      → build_update_lidar_cfg_request cfg zeroed ≡ described (p, some q)
  unfolding build_update_lidar_cfg_request key_code
  with_imu p q n ep eq = elim (Bool-cases (is_empty cfg.host_net_info.multicast_ip)) [
    | inl empty ↦ elim (address cfg.host_net_info.host_ip) [
      | inl e ↦ rw (empty, e) refl
      | inr (inl e) ↦ rw (empty, e) refl
      | inr (inr (a, b, c, d, e)) ↦ rw (empty, e, n, ep, eq) refl
    ]
    | inr other ↦ elim (address cfg.host_net_info.multicast_ip) [
      | inl e ↦ rw (other, e) refl
      | inr (inl e) ↦ rw (other, e) refl
      | inr (inr (a, b, c, d, e)) ↦ rw (other, e, n, ep, eq) refl
    ]
  ]

  without_imu :
      cfg.device_type == 16 ≡ true
      → build_update_lidar_cfg_request cfg zeroed ≡ described (10000, none)
  unfolding build_update_lidar_cfg_request key_code
  without_imu n =
      let ep : lidar_point_port cfg.device_type ≡ done 10000 = pa_port cfg.device_type n in
      elim (Bool-cases (is_empty cfg.host_net_info.multicast_ip)) [
        | inl empty ↦ elim (address cfg.host_net_info.host_ip) [
          | inl e ↦ rw (empty, e) refl
          | inr (inl e) ↦ rw (empty, e) refl
          | inr (inr (a, b, c, d, e)) ↦ rw (empty, e, n, ep) refl
        ]
        | inr other ↦ elim (address cfg.host_net_info.multicast_ip) [
          | inl e ↦ rw (other, e) refl
          | inr (inl e) ↦ rw (other, e) refl
          | inr (inr (a, b, c, d, e)) ↦ rw (other, e, n, ep) refl
        ]
      ]

  unknown_type :
      lidar_point_port cfg.device_type ≡ refused
      → build_update_lidar_cfg_request cfg zeroed
        ≡ (ip_to_u8 (data_ip cfg.host_net_info) >>= λ ip. refused)
  unfolding build_update_lidar_cfg_request key_code
  unknown_type ep = elim (Bool-cases (is_empty cfg.host_net_info.multicast_ip)) [
    | inl empty ↦ elim (address cfg.host_net_info.host_ip) [
      | inl e ↦ rw (empty, e) refl
      | inr (inl e) ↦ rw (empty, e) refl
      | inr (inr (a, b, c, d, e)) ↦ rw (empty, e, ep) refl
    ]
    | inr other ↦ elim (address cfg.host_net_info.multicast_ip) [
      | inl e ↦ rw (other, e) refl
      | inr (inl e) ↦ rw (other, e) refl
      | inr (inr (a, b, c, d, e)) ↦ rw (other, e, ep) refl
    ]
  ]

  -- What a device is told, by its type, about where to send its data: a message with the address and
  -- the port of the host, and the port of the device, for points, and another such key for inertial
  -- data except of a PA device. The address is the multicast address where one is configured. For
  -- every configuration: it is also said which exception or refusal there is, of an address that is
  -- not one or a type that is not in the table.
  pub update-message : build_update_lidar_cfg_request cfg zeroed ≡ data_addresses cfg
  unfolding lidar_point_port lidar_imu_port
  update-message = elim (Bool-cases (cfg.device_type == 10)) [
    | inl hap ↦ rw hap (
        with_imu 57000 58000 (ground (arith, hap)) (rw (lidar_point_port, hap) refl)
          (rw (lidar_imu_port, hap) refl))
    | inr a ↦ elim (Bool-cases (cfg.device_type == 9)) [
      | inl mid ↦
          rw (a, mid)
            (with_imu 56300 56400 (ground (arith, mid)) (rw (lidar_point_port, a, mid) refl)
              (rw (lidar_imu_port, a, mid) refl))
      | inr b ↦ elim (Bool-cases (cfg.device_type == 16)) [
        | inl pa ↦ rw (a, b, pa) (without_imu pa)
        | inr c ↦ elim (Bool-cases (cfg.device_type == 35)) [
          | inl mids ↦
              rw (a, b, c, mids)
                (with_imu 56300 56400 c (rw (lidar_point_port, a, b, c, mids) refl)
                  (rw (lidar_imu_port, a, b, mids) refl))
          | inr d ↦ elim (Bool-cases (cfg.device_type == 40)) [
            | inl avia ↦
                rw (a, b, c, d, avia)
                  (with_imu 56300 56400 c (rw (lidar_point_port, a, b, c, d, avia) refl)
                    (rw (lidar_imu_port, a, b, d, avia) refl))
            | inr e ↦ rw (a, b, c, d, e) (unknown_type (rw (lidar_point_port, a, b, c, d, e) refl))
          ]
        ]
      ]
    ]
  ]

-- The three requests for a device with three addresses are the same message, of the state, the points
-- and the inertial data, for every configuration; an address that is not one throws or is refused.
pub update_three-message :
    (cfg : LivoxLidarCfg)
    → (build_update_mid360_lidar_cfg_request cfg zeroed
        ≡ three_addresses 56200 56300 56400 cfg.host_net_info)
      × (build_update_mid360l_lidar_cfg_request cfg zeroed
          ≡ three_addresses 56200 56300 56400 cfg.host_net_info)
      × (build_update_avia2_lidar_cfg_request cfg zeroed
          ≡ three_addresses 56200 56300 56400 cfg.host_net_info)
unfolding build_update_mid360_lidar_cfg_request build_update_mid360l_lidar_cfg_request
    build_update_avia2_lidar_cfg_request
update_three-message cfg =
    let three = build_update-three 56200 56300 56400 cfg.host_net_info in (three, three, three)

-- The keys for a viewed device: of a PA device no inertial data.
abbrev pub view_keys : Bool → List ℕ → ViewLidarIpInfo → List Tlv
view_keys true ip v =
    endpoint lidar_point_data_host_ip_cfg ip v.host_point_port v.lidar_point_port ∷ []
view_keys false ip v =
    endpoint lidar_point_data_host_ip_cfg ip v.host_point_port v.lidar_point_port
    ∷ endpoint lidar_imu_host_ip_cfg ip v.host_imu_data_port v.lidar_imu_data_port
    ∷ []

pub view-message :
    (v : ViewLidarIpInfo)
    → build_update_view_lidar_cfg_request v zeroed
      ≡ (ip_to_u8 v.host_ip >>= λ ip. done (request_of (view_keys (v.dev_type == 16) ip v)))
unfolding build_update_view_lidar_cfg_request key_code
view-message v = elim (address v.host_ip) [
  | inl e ↦ rw e refl
  | inr (inl e) ↦ rw e refl
  | inr (inr (a, b, c, d, e)) ↦ elim (Bool-cases (v.dev_type == 16)) [
    | inl pa ↦ rw (e, pa) refl
    | inr other ↦ rw (e, other) refl
  ]
]
