-- ===== src/StateInfo/Keys.antt =====
-- The keys of the device's parameters: `ParamKeyName` in include/livox_lidar_def.h, and the ones that
-- `ParseStateInfo` in sdk_core/command_handler/parse_lidar_state_info.cpp has a case for.
use livox_sdk.Base.{ℕ, Bool, Option, none, some, List, [], ◌∷◌, ◌==◌, if◌then◌else◌}

pub data ParamKeyName : Type 0 where
  pcl_data_type pattern_mode dual_emit_en point_send_en lidar_ip_cfg : ParamKeyName
  state_info_host_ip_cfg lidar_point_data_host_ip_cfg lidar_imu_host_ip_cfg : ParamKeyName
  ctl_host_ip_cfg log_host_ip_cfg vehicle_speed environment_temp : ParamKeyName
  install_attitude blind_spot_set frame_rate fov_cfg0 fov_cfg1 fov_cfg_en : ParamKeyName
  detect_mode func_io_cfg work_mode_after_boot work_mode glass_heat imu_data_en : ParamKeyName
  fusa_en force_heat_en set_esc_mode set_fov_mode set_echo_mode : ParamKeyName
  set_ntp_server_ip set_time_filter_mode set_ito_ctrl set_fog_noise_filter : ParamKeyName
  set_pcl_freq_mod set_imu_range log_param_set sn product_info version_app : ParamKeyName
  version_loader version_hardware mac cur_work_state core_temp power_up_cnt : ParamKeyName
  local_time_now last_sync_time time_offset time_sync_type status_code : ParamKeyName
  lidar_diag_status lidar_flash_status fw_type hms_code cur_glass_heat_state : ParamKeyName
  roi_mode lidar_diag_info_query : ParamKeyName

-- The enumerators' values. `kKeySetPpsSyncMode` is another name of `set_time_filter_mode`.
unfoldable pub key_code : ParamKeyName → ℕ
key_code pcl_data_type = 0x0000
key_code pattern_mode = 0x0001
key_code dual_emit_en = 0x0002
key_code point_send_en = 0x0003
key_code lidar_ip_cfg = 0x0004
key_code state_info_host_ip_cfg = 0x0005
key_code lidar_point_data_host_ip_cfg = 0x0006
key_code lidar_imu_host_ip_cfg = 0x0007
key_code ctl_host_ip_cfg = 0x0008
key_code log_host_ip_cfg = 0x0009
key_code vehicle_speed = 0x0010
key_code environment_temp = 0x0011
key_code install_attitude = 0x0012
key_code blind_spot_set = 0x0013
key_code frame_rate = 0x0014
key_code fov_cfg0 = 0x0015
key_code fov_cfg1 = 0x0016
key_code fov_cfg_en = 0x0017
key_code detect_mode = 0x0018
key_code func_io_cfg = 0x0019
key_code work_mode_after_boot = 0x0020
key_code work_mode = 0x001a
key_code glass_heat = 0x001b
key_code imu_data_en = 0x001c
key_code fusa_en = 0x001d
key_code force_heat_en = 0x001e
key_code set_esc_mode = 0x0021
key_code set_fov_mode = 0x0022
key_code set_echo_mode = 0x0024
key_code set_ntp_server_ip = 0x0025
key_code set_time_filter_mode = 0x0026
key_code set_ito_ctrl = 0x0027
key_code set_fog_noise_filter = 0x0028
key_code set_pcl_freq_mod = 0x0029
key_code set_imu_range = 0x002b
key_code log_param_set = 0x7fff
key_code sn = 0x8000
key_code product_info = 0x8001
key_code version_app = 0x8002
key_code version_loader = 0x8003
key_code version_hardware = 0x8004
key_code mac = 0x8005
key_code cur_work_state = 0x8006
key_code core_temp = 0x8007
key_code power_up_cnt = 0x8008
key_code local_time_now = 0x8009
key_code last_sync_time = 0x800a
key_code time_offset = 0x800b
key_code time_sync_type = 0x800c
key_code status_code = 0x800d
key_code lidar_diag_status = 0x800e
key_code lidar_flash_status = 0x800f
key_code fw_type = 0x8010
key_code hms_code = 0x8011
key_code cur_glass_heat_state = 0x8012
key_code roi_mode = 0xfffe
key_code lidar_diag_info_query = 0xffff

-- The case labels of the switch in `ParseStateInfo`, in their order.
abbrev pub switch_keys : List ParamKeyName
switch_keys =
    pcl_data_type ∷ pattern_mode ∷ dual_emit_en ∷ point_send_en ∷ lidar_ip_cfg
    ∷ state_info_host_ip_cfg ∷ lidar_point_data_host_ip_cfg ∷ lidar_imu_host_ip_cfg
    ∷ ctl_host_ip_cfg ∷ log_host_ip_cfg ∷ vehicle_speed ∷ environment_temp ∷ install_attitude
    ∷ blind_spot_set ∷ frame_rate ∷ fov_cfg0 ∷ fov_cfg1 ∷ fov_cfg_en ∷ detect_mode ∷ func_io_cfg
    ∷ work_mode ∷ glass_heat ∷ imu_data_en ∷ fusa_en ∷ sn ∷ product_info ∷ version_app
    ∷ version_loader ∷ version_hardware ∷ mac ∷ cur_work_state ∷ core_temp ∷ power_up_cnt
    ∷ local_time_now ∷ last_sync_time ∷ time_offset ∷ time_sync_type ∷ status_code
    ∷ lidar_diag_status ∷ lidar_flash_status ∷ fw_type ∷ hms_code ∷ roi_mode ∷ set_esc_mode
    ∷ set_fov_mode ∷ set_echo_mode ∷ set_ntp_server_ip ∷ set_ito_ctrl ∷ set_fog_noise_filter
    ∷ set_time_filter_mode ∷ set_pcl_freq_mod ∷ set_imu_range ∷ []

abbrev pub find_in : List ParamKeyName → ℕ → Option ParamKeyName
find_in [] n = none
find_in (k ∷ ks) n = if key_code k == n then some k else find_in ks n

-- The case that `switch (key)` takes; `none` is its default.
unfoldable pub find_key : ℕ → Option ParamKeyName
unfolding key_code
find_key n = find_in switch_keys n

-- A set of keys, by its characteristic function.
abbrev pub KeyMask : Type 0
KeyMask = ℕ → Bool
