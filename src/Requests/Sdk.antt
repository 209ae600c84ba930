-- ===== src/Requests/Sdk.antt =====
-- The settings of the public interface (sdk_core/livox_lidar_sdk.cpp).
use livox_sdk.Base.{ℕ, Bool, Option, List, ◌==◌, if◌then◌else◌}
use livox_sdk.Commands.{Sent}
use livox_sdk.Requests.{Attempt}
use livox_sdk.Requests.Build.{HostIpInfo, LivoxLidarIpInfo}
use livox_sdk.Requests.Structures.{LivoxLidarInstallAttitude, FovCfg, FuncIoCfg}
use livox_sdk.Requests.Client.{Client}
use livox_sdk.Requests.Control.{
  disable_livox_lidar_fov, disable_livox_lidar_fusa_function, disable_livox_lidar_glass_heat,
  disable_livox_lidar_imu_data, disable_livox_lidar_point_send, enable_livox_lidar_fov,
  enable_livox_lidar_fusa_function, enable_livox_lidar_glass_heat, enable_livox_lidar_imu_data,
  enable_livox_lidar_point_send, set_lidar_fog_noise_filter_mode, set_livox_lidar_blind_spot,
  set_livox_lidar_detect_mode, set_livox_lidar_dual_emit, set_livox_lidar_echo_mode,
  set_livox_lidar_esc_mode, set_livox_lidar_fov_cfg0, set_livox_lidar_fov_cfg1,
  set_livox_lidar_fov_mode, set_livox_lidar_func_io_cfg, set_livox_lidar_glass_heat,
  set_livox_lidar_imu_data_host_ip_cfg, set_livox_lidar_imu_range, set_livox_lidar_install_attitude,
  set_livox_lidar_ip, set_livox_lidar_ito_ctrl_mode, set_livox_lidar_pcl_data_type,
  set_livox_lidar_pcl_freq_mod, set_livox_lidar_point_data_host_ip_cfg,
  set_livox_lidar_pps_sync_mode, set_livox_lidar_scan_pattern,
  set_livox_lidar_state_info_host_ip_cfg, set_livox_lidar_time_filter_mode,
  set_livox_lidar_work_mode, set_livox_lidar_work_mode_after_boot, set_ntp_server_ip_addr,
  start_forced_heating, stop_forced_heating,
}

-- The functions of the interface that set something, with their arguments.
pub data Setting : Type 0 where
  pcl_data_type : ℕ → Setting
  scan_pattern : ℕ → Setting
  dual_emit : Bool → Setting
  enable_point_send : Setting
  disable_point_send : Setting
  lidar_ip : LivoxLidarIpInfo → Setting
  state_info_host_ip_cfg : HostIpInfo → Setting
  point_data_host_ip_cfg : HostIpInfo → Setting
  imu_data_host_ip_cfg : HostIpInfo → Setting
  install_attitude : LivoxLidarInstallAttitude → Setting
  fov_cfg0 : FovCfg → Setting
  fov_cfg1 : FovCfg → Setting
  enable_fov : ℕ → Setting
  disable_fov : Setting
  detect_mode : ℕ → Setting
  func_io_cfg : FuncIoCfg → Setting
  blind_spot : ℕ → Setting
  work_mode : ℕ → Setting
  enable_glass_heat : Setting
  disable_glass_heat : Setting
  glass_heat : ℕ → Setting
  enable_imu_data : Setting
  disable_imu_data : Setting
  enable_fusa_function : Setting
  disable_fusa_function : Setting
  forced_heating_on : Setting
  forced_heating_off : Setting
  fog_noise_filter_mode : ℕ → Setting
  ito_ctrl_mode : ℕ → Setting
  pcl_freq_mod : ℕ → Setting
  time_filter_mode : ℕ → Setting
  pps_sync_mode : ℕ → Setting
  imu_range : ℕ → ℕ → ℕ → Setting
  ntp_server_ip : (List ℕ) → Setting
  esc_mode : ℕ → Setting
  fov_mode : ℕ → Setting
  echo_mode : ℕ → Setting
  work_mode_after_boot : ℕ → Setting

unfoldable pub set : Client → ℕ → Setting → Option ℕ → Attempt Sent
set c handle (pcl_data_type data_type) cb =
    if data_type == 0
    then enable_livox_lidar_imu_data c handle cb
    else set_livox_lidar_pcl_data_type c handle data_type cb
set c handle (scan_pattern pattern) cb = set_livox_lidar_scan_pattern c handle pattern cb
set c handle (dual_emit enable) cb = set_livox_lidar_dual_emit c handle enable cb
set c handle enable_point_send cb = enable_livox_lidar_point_send c handle cb
set c handle disable_point_send cb = disable_livox_lidar_point_send c handle cb
set c handle (lidar_ip config) cb = set_livox_lidar_ip c handle config cb
set c handle (state_info_host_ip_cfg cfg) cb =
    set_livox_lidar_state_info_host_ip_cfg c handle cfg cb
set c handle (point_data_host_ip_cfg cfg) cb =
    set_livox_lidar_point_data_host_ip_cfg c handle cfg cb
set c handle (imu_data_host_ip_cfg cfg) cb = set_livox_lidar_imu_data_host_ip_cfg c handle cfg cb
set c handle (install_attitude attitude) cb = set_livox_lidar_install_attitude c handle attitude cb
set c handle (fov_cfg0 cfg) cb = set_livox_lidar_fov_cfg0 c handle cfg cb
set c handle (fov_cfg1 cfg) cb = set_livox_lidar_fov_cfg1 c handle cfg cb
set c handle (enable_fov fov_en) cb = enable_livox_lidar_fov c handle fov_en cb
set c handle disable_fov cb = disable_livox_lidar_fov c handle cb
set c handle (detect_mode mode) cb = set_livox_lidar_detect_mode c handle mode cb
set c handle (func_io_cfg cfg) cb = set_livox_lidar_func_io_cfg c handle cfg cb
set c handle (blind_spot spot) cb = set_livox_lidar_blind_spot c handle spot cb
set c handle (work_mode mode) cb = set_livox_lidar_work_mode c handle mode cb
set c handle enable_glass_heat cb = enable_livox_lidar_glass_heat c handle cb
set c handle disable_glass_heat cb = disable_livox_lidar_glass_heat c handle cb
set c handle (glass_heat heat) cb = set_livox_lidar_glass_heat c handle heat cb
set c handle enable_imu_data cb = enable_livox_lidar_imu_data c handle cb
set c handle disable_imu_data cb = disable_livox_lidar_imu_data c handle cb
set c handle enable_fusa_function cb = enable_livox_lidar_fusa_function c handle cb
set c handle disable_fusa_function cb = disable_livox_lidar_fusa_function c handle cb
set c handle forced_heating_on cb = start_forced_heating c handle cb
set c handle forced_heating_off cb = stop_forced_heating c handle cb
set c handle (fog_noise_filter_mode mode) cb = set_lidar_fog_noise_filter_mode c handle mode cb
set c handle (ito_ctrl_mode mode) cb = set_livox_lidar_ito_ctrl_mode c handle mode cb
set c handle (pcl_freq_mod freq_mod) cb = set_livox_lidar_pcl_freq_mod c handle freq_mod cb
set c handle (time_filter_mode mode) cb = set_livox_lidar_time_filter_mode c handle mode cb
set c handle (pps_sync_mode mode) cb = set_livox_lidar_pps_sync_mode c handle mode cb
set c handle (imu_range rate accel gyro) cb = set_livox_lidar_imu_range c handle rate accel gyro cb
set c handle (ntp_server_ip host_ip) cb = set_ntp_server_ip_addr c handle host_ip cb
set c handle (esc_mode mode) cb = set_livox_lidar_esc_mode c handle mode cb
set c handle (fov_mode mode) cb = set_livox_lidar_fov_mode c handle mode cb
set c handle (echo_mode mode) cb = set_livox_lidar_echo_mode c handle mode cb
set c handle (work_mode_after_boot mode) cb = set_livox_lidar_work_mode_after_boot c handle mode cb
