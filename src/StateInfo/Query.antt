-- ===== src/StateInfo/Query.antt =====
-- `GetQueryLidarInternalInfoKeys`: the keys that a device of each type is asked for
-- (sdk_core/command_handler/general_command_handler.cpp).
use livox_sdk.Base.{
  ℕ, ◌≡◌, arith, Option, none, some, List, [], ◌∷◌, ◌==◌, if◌then◌else◌, ◌>>=◌, inl, inr,
  some-injective, Bool-cases, some_bind, subst,
}
use livox_sdk.Base.Map.{Map, find}
use livox_sdk.StateInfo.Keys.{
  ParamKeyName, blind_spot_set, core_temp, cur_glass_heat_state, cur_work_state, detect_mode,
  dual_emit_en, force_heat_en, fov_cfg0, fov_cfg1, fov_cfg_en, func_io_cfg, fusa_en, fw_type,
  glass_heat, hms_code, imu_data_en, install_attitude, last_sync_time, lidar_diag_status,
  lidar_flash_status, lidar_imu_host_ip_cfg, lidar_ip_cfg, lidar_point_data_host_ip_cfg,
  local_time_now, log_host_ip_cfg, mac, pattern_mode, pcl_data_type, point_send_en, power_up_cnt,
  product_info, set_echo_mode, set_esc_mode, set_fog_noise_filter, set_fov_mode, set_imu_range,
  set_ito_ctrl, set_ntp_server_ip, set_pcl_freq_mod, set_time_filter_mode, sn,
  state_info_host_ip_cfg, status_code, time_offset, time_sync_type, version_app, version_hardware,
  version_loader, work_mode,
}

unfoldable pub hap_keys : List ParamKeyName
hap_keys =
    pcl_data_type ∷ pattern_mode ∷ dual_emit_en ∷ point_send_en ∷ lidar_ip_cfg
    ∷ lidar_point_data_host_ip_cfg ∷ lidar_imu_host_ip_cfg ∷ log_host_ip_cfg ∷ install_attitude
    ∷ blind_spot_set ∷ work_mode ∷ glass_heat ∷ imu_data_en ∷ fusa_en ∷ force_heat_en ∷ sn
    ∷ product_info ∷ version_app ∷ version_loader ∷ version_hardware ∷ mac ∷ cur_work_state
    ∷ status_code ∷ lidar_diag_status ∷ lidar_flash_status ∷ fw_type ∷ cur_glass_heat_state ∷ []

unfoldable pub mid360_keys : List ParamKeyName
mid360_keys =
    pcl_data_type ∷ pattern_mode ∷ lidar_ip_cfg ∷ state_info_host_ip_cfg
    ∷ lidar_point_data_host_ip_cfg ∷ lidar_imu_host_ip_cfg ∷ install_attitude ∷ fov_cfg0 ∷ fov_cfg1
    ∷ fov_cfg_en ∷ detect_mode ∷ func_io_cfg ∷ work_mode ∷ imu_data_en ∷ sn ∷ product_info
    ∷ version_app ∷ version_loader ∷ version_hardware ∷ mac ∷ cur_work_state ∷ core_temp
    ∷ power_up_cnt ∷ local_time_now ∷ last_sync_time ∷ time_offset ∷ time_sync_type
    ∷ lidar_diag_status ∷ fw_type ∷ hms_code ∷ []

unfoldable pub mid360s_keys : List ParamKeyName
mid360s_keys =
    pcl_data_type ∷ pattern_mode ∷ lidar_ip_cfg ∷ state_info_host_ip_cfg
    ∷ lidar_point_data_host_ip_cfg ∷ lidar_imu_host_ip_cfg ∷ install_attitude ∷ fov_cfg0 ∷ fov_cfg1
    ∷ fov_cfg_en ∷ detect_mode ∷ func_io_cfg ∷ work_mode ∷ imu_data_en ∷ set_esc_mode
    ∷ set_time_filter_mode ∷ set_imu_range ∷ sn ∷ product_info ∷ version_app ∷ version_loader
    ∷ version_hardware ∷ mac ∷ cur_work_state ∷ core_temp ∷ power_up_cnt ∷ local_time_now
    ∷ last_sync_time ∷ time_offset ∷ time_sync_type ∷ lidar_diag_status ∷ fw_type ∷ hms_code ∷ []

unfoldable pub avia2_keys : List ParamKeyName
avia2_keys =
    pcl_data_type ∷ lidar_ip_cfg ∷ state_info_host_ip_cfg ∷ lidar_point_data_host_ip_cfg
    ∷ lidar_imu_host_ip_cfg ∷ work_mode ∷ imu_data_en ∷ set_fov_mode ∷ set_echo_mode
    ∷ set_ntp_server_ip ∷ set_ito_ctrl ∷ set_fog_noise_filter ∷ sn ∷ version_app ∷ version_loader
    ∷ cur_work_state ∷ core_temp ∷ fw_type ∷ hms_code ∷ []

unfoldable pub mid360l_keys : List ParamKeyName
mid360l_keys =
    pcl_data_type ∷ lidar_ip_cfg ∷ state_info_host_ip_cfg ∷ lidar_point_data_host_ip_cfg
    ∷ lidar_imu_host_ip_cfg ∷ install_attitude ∷ fov_cfg0 ∷ fov_cfg_en ∷ work_mode ∷ imu_data_en
    ∷ set_esc_mode ∷ set_time_filter_mode ∷ set_pcl_freq_mod ∷ set_imu_range ∷ sn ∷ product_info
    ∷ version_app ∷ version_loader ∷ version_hardware ∷ mac ∷ cur_work_state ∷ core_temp
    ∷ power_up_cnt ∷ local_time_now ∷ last_sync_time ∷ time_offset ∷ time_sync_type
    ∷ lidar_diag_status ∷ fw_type ∷ hms_code ∷ []

-- The keys for a type.
abbrev query : ℕ → Option (List ParamKeyName)
query dev_type =
    if dev_type == 10
    then some hap_keys
    else if dev_type == 9
    then some mid360_keys
    else if dev_type == 35
    then some mid360s_keys
    else if dev_type == 40
    then some avia2_keys
    else if dev_type == 41
    then some mid360l_keys
    else none

some_eq : (xs ys : List ParamKeyName) → some xs ≡ some ys → xs ≡ ys
some_eq xs ys e = some-injective xs ys e

no_answer : (ys : List ParamKeyName) → none ≡ some ys → ⊥
no_answer ys e = ground (arith, e)

-- The keys for a device, by the types of the devices; `none` is false.
unfoldable pub get_query_lidar_internal_info_keys : Map ℕ → ℕ → Option (List ParamKeyName)
get_query_lidar_internal_info_keys device_dev_type handle = do
  dev_type ← find handle device_dev_type
  query dev_type

-- What holds of the keys of each type holds of those that a device is asked for.
pub query-Table :
    (P : List ParamKeyName → Type 0)
    → P hap_keys
    → P mid360_keys
    → P mid360s_keys
    → P avia2_keys
    → P mid360l_keys
    → (types : Map ℕ) (handle : ℕ) (keys : List ParamKeyName)
    → get_query_lidar_internal_info_keys types handle ≡ some keys
    → P keys
unfolding get_query_lidar_internal_info_keys
query-Table P hap mid360 mid360s avia2 mid360l types handle keys asked =
    let (type, _, answer) = some_bind (find handle types) query keys asked in
    elim (Bool-cases (type == 10)) [
      | inl a ↦ subst P (some_eq hap_keys keys (rw a at answer)) hap
      | inr na ↦ elim (Bool-cases (type == 9)) [
        | inl b ↦ subst P (some_eq mid360_keys keys (rw (na, b) at answer)) mid360
        | inr nb ↦ elim (Bool-cases (type == 35)) [
          | inl c ↦ subst P (some_eq mid360s_keys keys (rw (na, nb, c) at answer)) mid360s
          | inr nc ↦ elim (Bool-cases (type == 40)) [
            | inl d ↦ subst P (some_eq avia2_keys keys (rw (na, nb, nc, d) at answer)) avia2
            | inr nd ↦ elim (Bool-cases (type == 41)) [
              | inl e ↦
                  subst P (some_eq mid360l_keys keys (rw (na, nb, nc, nd, e) at answer)) mid360l
              | inr ne ↦ absurd (no_answer keys (rw (na, nb, nc, nd, ne) at answer))
            ]
          ]
        ]
      ]
    ]
