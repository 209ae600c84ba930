-- ===== src/Requests/Control.antt =====
-- The settings of `CommandImpl` in sdk_core/command_handler/command_impl.cpp: each writes one key with
-- its value, and sends it.
use livox_sdk.Base.{ℕ, ◌++◌, Bool, List, [], ◌∷◌, if◌then◌else◌, Option, le8, le32}
use livox_sdk.StateInfo.Keys.{
  ParamKeyName, blind_spot_set, detect_mode, dual_emit_en, force_heat_en, fov_cfg0, fov_cfg1,
  fov_cfg_en, func_io_cfg, fusa_en, glass_heat, imu_data_en, install_attitude, log_param_set,
  pattern_mode, pcl_data_type, point_send_en, set_echo_mode, set_esc_mode, set_fog_noise_filter,
  set_fov_mode, set_imu_range, set_ito_ctrl, set_pcl_freq_mod, set_time_filter_mode, work_mode,
  work_mode_after_boot,
}
use livox_sdk.Commands.{Sent, work_mode_control}
use livox_sdk.Requests.{
  Attempt, done, ◌>>=◌, Request, zeroed, put_key_num, put_key, put_value, advance,
}
use livox_sdk.Requests.Client.{Client, send_request}
use livox_sdk.Requests.Structures.{
  LivoxLidarInstallAttitude, FovCfg, FuncIoCfg, LivoxLidarLogParam, attitude_bytes, fov_bytes,
  func_io_bytes, log_param_bytes,
}
use livox_sdk.Requests.Build.{
  HostIpInfo, LivoxLidarIpInfo, build_set_host_imu_data_ip_info_request,
  build_set_host_point_data_ip_info_request, build_set_host_state_info_ip_cfg_request,
  build_set_lidar_ip_info_request, build_set_ntp_server_ip_info_request,
}

-- One key whose value is `n` bytes long.
abbrev pub one_key : ParamKeyName → ℕ → List ℕ → Attempt Request
one_key key n value = do
  counted ← put_key_num 1 zeroed
  with_key ← put_key key n counted
  with_value ← put_value 0 value with_key
  done (advance n with_value)

unfoldable pub send_single_control_command : Client → ℕ → Option ℕ → ParamKeyName → ℕ → Attempt Sent
send_single_control_command c handle cb command_key value =
    send_request c handle work_mode_control (one_key command_key 1 (le8 value)) cb

unfoldable pub set_livox_lidar_pcl_data_type : Client → ℕ → ℕ → Option ℕ → Attempt Sent
set_livox_lidar_pcl_data_type c handle data_type cb =
    send_request c handle work_mode_control (one_key pcl_data_type 1 (le8 data_type)) cb

unfoldable pub set_livox_lidar_scan_pattern : Client → ℕ → ℕ → Option ℕ → Attempt Sent
set_livox_lidar_scan_pattern c handle pattern cb =
    send_request c handle work_mode_control (one_key pattern_mode 1 (le8 pattern)) cb

unfoldable pub set_livox_lidar_dual_emit : Client → ℕ → Bool → Option ℕ → Attempt Sent
set_livox_lidar_dual_emit c handle enable cb =
    send_request c handle work_mode_control
      (one_key dual_emit_en 1 (if enable then 1 ∷ [] else 0 ∷ [])) cb

unfoldable pub enable_livox_lidar_point_send : Client → ℕ → Option ℕ → Attempt Sent
enable_livox_lidar_point_send c handle cb =
    send_request c handle work_mode_control (one_key point_send_en 1 (0 ∷ [])) cb

unfoldable pub disable_livox_lidar_point_send : Client → ℕ → Option ℕ → Attempt Sent
disable_livox_lidar_point_send c handle cb =
    send_request c handle work_mode_control (one_key point_send_en 1 (1 ∷ [])) cb

unfoldable pub set_livox_lidar_ip : Client → ℕ → LivoxLidarIpInfo → Option ℕ → Attempt Sent
set_livox_lidar_ip c handle config cb =
    send_request c handle work_mode_control (build_set_lidar_ip_info_request config zeroed) cb

unfoldable pub set_livox_lidar_state_info_host_ip_cfg :
    Client → ℕ → HostIpInfo → Option ℕ → Attempt Sent
set_livox_lidar_state_info_host_ip_cfg c handle cfg cb =
    send_request c handle work_mode_control (build_set_host_state_info_ip_cfg_request cfg zeroed) cb

unfoldable pub set_livox_lidar_point_data_host_ip_cfg :
    Client → ℕ → HostIpInfo → Option ℕ → Attempt Sent
set_livox_lidar_point_data_host_ip_cfg c handle cfg cb =
    send_request c handle work_mode_control (build_set_host_point_data_ip_info_request cfg zeroed)
      cb

unfoldable pub set_livox_lidar_imu_data_host_ip_cfg :
    Client → ℕ → HostIpInfo → Option ℕ → Attempt Sent
set_livox_lidar_imu_data_host_ip_cfg c handle cfg cb =
    send_request c handle work_mode_control (build_set_host_imu_data_ip_info_request cfg zeroed) cb

unfoldable pub set_livox_lidar_install_attitude :
    Client → ℕ → LivoxLidarInstallAttitude → Option ℕ → Attempt Sent
set_livox_lidar_install_attitude c handle attitude cb =
    send_request c handle work_mode_control (one_key install_attitude 24 (attitude_bytes attitude))
      cb

unfoldable pub set_livox_lidar_fov_cfg0 : Client → ℕ → FovCfg → Option ℕ → Attempt Sent
set_livox_lidar_fov_cfg0 c handle cfg cb =
    send_request c handle work_mode_control (one_key fov_cfg0 20 (fov_bytes cfg)) cb

unfoldable pub set_livox_lidar_fov_cfg1 : Client → ℕ → FovCfg → Option ℕ → Attempt Sent
set_livox_lidar_fov_cfg1 c handle cfg cb =
    send_request c handle work_mode_control (one_key fov_cfg1 20 (fov_bytes cfg)) cb

unfoldable pub enable_livox_lidar_fov : Client → ℕ → ℕ → Option ℕ → Attempt Sent
enable_livox_lidar_fov c handle fov_en cb =
    send_request c handle work_mode_control (one_key fov_cfg_en 1 (le8 fov_en)) cb

unfoldable pub disable_livox_lidar_fov : Client → ℕ → Option ℕ → Attempt Sent
disable_livox_lidar_fov c handle cb =
    send_request c handle work_mode_control (one_key fov_cfg_en 1 (0 ∷ [])) cb

unfoldable pub set_livox_lidar_detect_mode : Client → ℕ → ℕ → Option ℕ → Attempt Sent
set_livox_lidar_detect_mode c handle mode cb =
    send_request c handle work_mode_control (one_key detect_mode 1 (le8 mode)) cb

unfoldable pub set_livox_lidar_func_io_cfg : Client → ℕ → FuncIoCfg → Option ℕ → Attempt Sent
set_livox_lidar_func_io_cfg c handle cfg cb =
    send_request c handle work_mode_control (one_key func_io_cfg 4 (func_io_bytes cfg)) cb

unfoldable pub set_livox_lidar_blind_spot : Client → ℕ → ℕ → Option ℕ → Attempt Sent
set_livox_lidar_blind_spot c handle spot cb =
    send_request c handle work_mode_control (one_key blind_spot_set 4 (le32 spot)) cb

unfoldable pub set_livox_lidar_work_mode : Client → ℕ → ℕ → Option ℕ → Attempt Sent
set_livox_lidar_work_mode c handle mode cb =
    send_request c handle work_mode_control (one_key work_mode 1 (le8 mode)) cb

unfoldable pub enable_livox_lidar_glass_heat : Client → ℕ → Option ℕ → Attempt Sent
enable_livox_lidar_glass_heat c handle cb =
    send_request c handle work_mode_control (one_key glass_heat 1 (1 ∷ [])) cb

unfoldable pub disable_livox_lidar_glass_heat : Client → ℕ → Option ℕ → Attempt Sent
disable_livox_lidar_glass_heat c handle cb =
    send_request c handle work_mode_control (one_key glass_heat 1 (0 ∷ [])) cb

unfoldable pub set_livox_lidar_glass_heat : Client → ℕ → ℕ → Option ℕ → Attempt Sent
set_livox_lidar_glass_heat c handle heat cb =
    send_request c handle work_mode_control (one_key glass_heat 1 (le8 heat)) cb

unfoldable pub enable_livox_lidar_imu_data : Client → ℕ → Option ℕ → Attempt Sent
enable_livox_lidar_imu_data c handle cb =
    send_request c handle work_mode_control (one_key imu_data_en 1 (1 ∷ [])) cb

unfoldable pub disable_livox_lidar_imu_data : Client → ℕ → Option ℕ → Attempt Sent
disable_livox_lidar_imu_data c handle cb =
    send_request c handle work_mode_control (one_key imu_data_en 1 (0 ∷ [])) cb

unfoldable pub enable_livox_lidar_fusa_function : Client → ℕ → Option ℕ → Attempt Sent
enable_livox_lidar_fusa_function c handle cb =
    send_request c handle work_mode_control (one_key fusa_en 1 (1 ∷ [])) cb

unfoldable pub disable_livox_lidar_fusa_function : Client → ℕ → Option ℕ → Attempt Sent
disable_livox_lidar_fusa_function c handle cb =
    send_request c handle work_mode_control (one_key fusa_en 1 (0 ∷ [])) cb

unfoldable pub start_forced_heating : Client → ℕ → Option ℕ → Attempt Sent
start_forced_heating c handle cb = send_single_control_command c handle cb force_heat_en 1

unfoldable pub stop_forced_heating : Client → ℕ → Option ℕ → Attempt Sent
stop_forced_heating c handle cb = send_single_control_command c handle cb force_heat_en 0

unfoldable pub set_lidar_fog_noise_filter_mode : Client → ℕ → ℕ → Option ℕ → Attempt Sent
set_lidar_fog_noise_filter_mode c handle mode cb =
    send_request c handle work_mode_control (one_key set_fog_noise_filter 1 (le8 mode)) cb

unfoldable pub set_livox_lidar_ito_ctrl_mode : Client → ℕ → ℕ → Option ℕ → Attempt Sent
set_livox_lidar_ito_ctrl_mode c handle mode cb =
    send_request c handle work_mode_control (one_key set_ito_ctrl 1 (le8 mode)) cb

unfoldable pub set_livox_lidar_pcl_freq_mod : Client → ℕ → ℕ → Option ℕ → Attempt Sent
set_livox_lidar_pcl_freq_mod c handle freq_mod cb =
    send_request c handle work_mode_control (one_key set_pcl_freq_mod 1 (le8 freq_mod)) cb

unfoldable pub set_livox_lidar_time_filter_mode : Client → ℕ → ℕ → Option ℕ → Attempt Sent
set_livox_lidar_time_filter_mode c handle mode cb =
    send_request c handle work_mode_control (one_key set_time_filter_mode 1 (le8 mode)) cb

unfoldable pub set_livox_lidar_pps_sync_mode : Client → ℕ → ℕ → Option ℕ → Attempt Sent
set_livox_lidar_pps_sync_mode c handle mode cb = set_livox_lidar_time_filter_mode c handle mode cb

unfoldable pub set_livox_lidar_imu_range : Client → ℕ → ℕ → ℕ → ℕ → Option ℕ → Attempt Sent
set_livox_lidar_imu_range c handle rate accel gyro cb =
    send_request c handle work_mode_control
      (one_key set_imu_range 3 (le8 rate ++ (le8 accel ++ le8 gyro))) cb

unfoldable pub set_ntp_server_ip_addr : Client → ℕ → (List ℕ) → Option ℕ → Attempt Sent
set_ntp_server_ip_addr c handle host_ip cb =
    send_request c handle work_mode_control (build_set_ntp_server_ip_info_request host_ip zeroed) cb

unfoldable pub set_livox_lidar_esc_mode : Client → ℕ → ℕ → Option ℕ → Attempt Sent
set_livox_lidar_esc_mode c handle mode cb =
    send_request c handle work_mode_control (one_key set_esc_mode 1 (le8 mode)) cb

unfoldable pub set_livox_lidar_fov_mode : Client → ℕ → ℕ → Option ℕ → Attempt Sent
set_livox_lidar_fov_mode c handle mode cb =
    send_request c handle work_mode_control (one_key set_fov_mode 1 (le8 mode)) cb

unfoldable pub set_livox_lidar_echo_mode : Client → ℕ → ℕ → Option ℕ → Attempt Sent
set_livox_lidar_echo_mode c handle mode cb =
    send_request c handle work_mode_control (one_key set_echo_mode 1 (le8 mode)) cb

unfoldable pub set_livox_lidar_log_param : Client → ℕ → LivoxLidarLogParam → Option ℕ → Attempt Sent
set_livox_lidar_log_param c handle param cb =
    send_request c handle work_mode_control (one_key log_param_set 7 (log_param_bytes param)) cb

unfoldable pub set_livox_lidar_work_mode_after_boot : Client → ℕ → ℕ → Option ℕ → Attempt Sent
set_livox_lidar_work_mode_after_boot c handle mode cb =
    send_request c handle work_mode_control (one_key work_mode_after_boot 1 (le8 mode)) cb
