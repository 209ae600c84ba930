-- ===== src/Requests/Wire.antt =====
-- What a setting is on the wire: one key with its value.
use livox_sdk.Base.{
  ℕ, ◌++◌, true, false, Bool-cases, inl, inr, Option, List, [], ◌∷◌, ◌==◌, ◌≡◌, refl, sym, ap, ◌∙◌,
  if◌then◌else◌, le8, le16, le32,
}
use livox_sdk.StateInfo.Keys.{
  key_code, state_info_host_ip_cfg, lidar_point_data_host_ip_cfg, lidar_imu_host_ip_cfg,
}
use livox_sdk.StateInfo.Message.{Tlv}
use livox_sdk.Requests.{Attempt, fault, thrown, refused, done, ◌>>=◌, Request}
use livox_sdk.Requests.Address.{ip_to_u8}
use livox_sdk.Requests.Structures.{attitude_bytes, fov_bytes, func_io_bytes}
use livox_sdk.Requests.Client.{Client, send_request}
use mathlib.Core.Path.{fun_ext}
use livox_sdk.Requests.Message.{request_of, one_endpoint, lidar_ip-message, ntp-message}
use livox_sdk.Requests.Build.{
  LivoxLidarIpInfo, build_set_host_state_info_ip_cfg_request,
  build_set_host_point_data_ip_info_request, build_set_host_imu_data_ip_info_request,
}
use livox_sdk.Requests.Control.{
  send_single_control_command, disable_livox_lidar_fov, disable_livox_lidar_fusa_function,
  disable_livox_lidar_glass_heat, disable_livox_lidar_imu_data, disable_livox_lidar_point_send,
  enable_livox_lidar_fov, enable_livox_lidar_fusa_function, enable_livox_lidar_glass_heat,
  enable_livox_lidar_imu_data, enable_livox_lidar_point_send, set_lidar_fog_noise_filter_mode,
  set_livox_lidar_blind_spot, set_livox_lidar_detect_mode, set_livox_lidar_dual_emit,
  set_livox_lidar_echo_mode, set_livox_lidar_esc_mode, set_livox_lidar_fov_cfg0,
  set_livox_lidar_fov_cfg1, set_livox_lidar_fov_mode, set_livox_lidar_func_io_cfg,
  set_livox_lidar_glass_heat, set_livox_lidar_imu_data_host_ip_cfg, set_livox_lidar_imu_range,
  set_livox_lidar_install_attitude, set_livox_lidar_ip, set_livox_lidar_ito_ctrl_mode,
  set_livox_lidar_pcl_data_type, set_livox_lidar_pcl_freq_mod,
  set_livox_lidar_point_data_host_ip_cfg, set_livox_lidar_pps_sync_mode,
  set_livox_lidar_scan_pattern, set_livox_lidar_state_info_host_ip_cfg,
  set_livox_lidar_time_filter_mode, set_livox_lidar_work_mode, set_livox_lidar_work_mode_after_boot,
  set_ntp_server_ip_addr, start_forced_heating, stop_forced_heating,
}
use livox_sdk.Requests.Sdk.{
  Setting, pcl_data_type, scan_pattern, dual_emit, enable_point_send, disable_point_send, lidar_ip,
  state_info_host_ip_cfg, point_data_host_ip_cfg, imu_data_host_ip_cfg, install_attitude, fov_cfg0,
  fov_cfg1, enable_fov, disable_fov, detect_mode, func_io_cfg, blind_spot, work_mode,
  enable_glass_heat, disable_glass_heat, glass_heat, enable_imu_data, disable_imu_data,
  enable_fusa_function, disable_fusa_function, forced_heating_on, forced_heating_off,
  fog_noise_filter_mode, ito_ctrl_mode, pcl_freq_mod, time_filter_mode, pps_sync_mode, imu_range,
  ntp_server_ip, esc_mode, fov_mode, echo_mode, work_mode_after_boot, set,
}

-- The key of a setting and its value.
abbrev pub setting_tlv : Setting → Attempt Tlv
setting_tlv (pcl_data_type data_type) = done (
    if data_type == 0
    then record { key = 0x001c; value = 1 ∷ [] }
    else record { key = 0x0000; value = le8 data_type })
setting_tlv (scan_pattern pattern) = done (record { key = 0x0001; value = le8 pattern })
setting_tlv (dual_emit enable) =
    done (record { key = 0x0002; value = if enable then 1 ∷ [] else 0 ∷ [] })
setting_tlv enable_point_send = done (record { key = 0x0003; value = 0 ∷ [] })
setting_tlv disable_point_send = done (record { key = 0x0003; value = 1 ∷ [] })
setting_tlv (lidar_ip config) = do
  ip ← ip_to_u8 config.ip_addr
  mask ← ip_to_u8 config.net_mask
  gateway ← ip_to_u8 config.gw_addr
  done (record { key = 0x0004; value = ip ++ (mask ++ gateway) })
setting_tlv (state_info_host_ip_cfg cfg) = do
  ip ← ip_to_u8 cfg.host_ip_addr
  done (record { key = 0x0005; value = ip ++ (le16 cfg.host_port ++ le16 cfg.lidar_port) })
setting_tlv (point_data_host_ip_cfg cfg) = do
  ip ← ip_to_u8 cfg.host_ip_addr
  done (record { key = 0x0006; value = ip ++ (le16 cfg.host_port ++ le16 cfg.lidar_port) })
setting_tlv (imu_data_host_ip_cfg cfg) = do
  ip ← ip_to_u8 cfg.host_ip_addr
  done (record { key = 0x0007; value = ip ++ (le16 cfg.host_port ++ le16 cfg.lidar_port) })
setting_tlv (install_attitude attitude) =
    done (record { key = 0x0012; value = attitude_bytes attitude })
setting_tlv (fov_cfg0 cfg) = done (record { key = 0x0015; value = fov_bytes cfg })
setting_tlv (fov_cfg1 cfg) = done (record { key = 0x0016; value = fov_bytes cfg })
setting_tlv (enable_fov fov_en) = done (record { key = 0x0017; value = le8 fov_en })
setting_tlv disable_fov = done (record { key = 0x0017; value = 0 ∷ [] })
setting_tlv (detect_mode mode) = done (record { key = 0x0018; value = le8 mode })
setting_tlv (func_io_cfg cfg) = done (record { key = 0x0019; value = func_io_bytes cfg })
setting_tlv (blind_spot spot) = done (record { key = 0x0013; value = le32 spot })
setting_tlv (work_mode mode) = done (record { key = 0x001a; value = le8 mode })
setting_tlv enable_glass_heat = done (record { key = 0x001b; value = 1 ∷ [] })
setting_tlv disable_glass_heat = done (record { key = 0x001b; value = 0 ∷ [] })
setting_tlv (glass_heat heat) = done (record { key = 0x001b; value = le8 heat })
setting_tlv enable_imu_data = done (record { key = 0x001c; value = 1 ∷ [] })
setting_tlv disable_imu_data = done (record { key = 0x001c; value = 0 ∷ [] })
setting_tlv enable_fusa_function = done (record { key = 0x001d; value = 1 ∷ [] })
setting_tlv disable_fusa_function = done (record { key = 0x001d; value = 0 ∷ [] })
setting_tlv forced_heating_on = done (record { key = 0x001e; value = 1 ∷ [] })
setting_tlv forced_heating_off = done (record { key = 0x001e; value = 0 ∷ [] })
setting_tlv (fog_noise_filter_mode mode) = done (record { key = 0x0028; value = le8 mode })
setting_tlv (ito_ctrl_mode mode) = done (record { key = 0x0027; value = le8 mode })
setting_tlv (pcl_freq_mod freq_mod) = done (record { key = 0x0029; value = le8 freq_mod })
setting_tlv (time_filter_mode mode) = done (record { key = 0x0026; value = le8 mode })
setting_tlv (pps_sync_mode mode) = done (record { key = 0x0026; value = le8 mode })
setting_tlv (imu_range rate accel gyro) =
    done (record { key = 0x002b; value = le8 rate ++ (le8 accel ++ le8 gyro) })
setting_tlv (ntp_server_ip host_ip) = do
  ip ← ip_to_u8 host_ip
  done (record { key = 0x0025; value = ip })
setting_tlv (esc_mode mode) = done (record { key = 0x0021; value = le8 mode })
setting_tlv (fov_mode mode) = done (record { key = 0x0022; value = le8 mode })
setting_tlv (echo_mode mode) = done (record { key = 0x0024; value = le8 mode })
setting_tlv (work_mode_after_boot mode) = done (record { key = 0x0020; value = le8 mode })

bind_assoc :
    {A B C : Type 0} (m : Attempt A) (f : A → Attempt B) (g : B → Attempt C)
    → ((m >>= f) >>= g) ≡ (m >>= λ a. f a >>= g)
bind_assoc fault f g = refl
bind_assoc thrown f g = refl
bind_assoc refused f g = refl
bind_assoc (done a) f g = refl

abbrev one_request : Attempt Tlv → Attempt Request
one_request m = m >>= λ t. done (request_of (t ∷ []))

by_address :
    (c : Client) (handle : ℕ) (cb : Option ℕ) (m : Attempt (List ℕ)) (f : List ℕ → Tlv)
    {r : Attempt Request}
    → r ≡ (m >>= λ ip. done (request_of (f ip ∷ [])))
    → send_request c handle 0x0100 r cb
      ≡ send_request c handle 0x0100 (one_request (m >>= λ ip. done (f ip))) cb
by_address c handle cb m f e =
    ap (λ r. send_request c handle 0x0100 r cb) (e ∙ sym (bind_assoc m (λ ip. done (f ip)) _))

nested :
    (config : LivoxLidarIpInfo)
    → one_request (setting_tlv (lidar_ip config)) ≡ (do
      ip ← ip_to_u8 config.ip_addr
      mask ← ip_to_u8 config.net_mask
      gateway ← ip_to_u8 config.gw_addr
      done (request_of (record { key = 0x0004; value = ip ++ (mask ++ gateway) } ∷ [])))
nested config =
    bind_assoc (ip_to_u8 config.ip_addr) _ _
    ∙ ap (λ k. ip_to_u8 config.ip_addr >>= k)
        (fun_ext λ ip.
          bind_assoc (ip_to_u8 config.net_mask) _ _
          ∙ ap (λ k. ip_to_u8 config.net_mask >>= k)
              (fun_ext λ mask. bind_assoc (ip_to_u8 config.gw_addr) _ _))

-- Every setting of the interface, for every argument: the request for the control of the work mode
-- that is sent is the message of one key, that of the setting, with its value, or, for an address
-- that is not one, nothing is sent.
pub set-message :
    (c : Client) (handle : ℕ) (s : Setting) (cb : Option ℕ)
    → set c handle s cb
      ≡ send_request c handle 0x0100 (setting_tlv s >>= λ t. done (request_of (t ∷ []))) cb
unfolding set key_code disable_livox_lidar_fov disable_livox_lidar_fusa_function
    disable_livox_lidar_glass_heat disable_livox_lidar_imu_data disable_livox_lidar_point_send
    enable_livox_lidar_fov enable_livox_lidar_fusa_function enable_livox_lidar_glass_heat
    enable_livox_lidar_imu_data enable_livox_lidar_point_send set_lidar_fog_noise_filter_mode
    set_livox_lidar_blind_spot set_livox_lidar_detect_mode set_livox_lidar_dual_emit
    set_livox_lidar_echo_mode set_livox_lidar_esc_mode set_livox_lidar_fov_cfg0
    set_livox_lidar_fov_cfg1 set_livox_lidar_fov_mode set_livox_lidar_func_io_cfg
    set_livox_lidar_glass_heat set_livox_lidar_imu_data_host_ip_cfg set_livox_lidar_imu_range
    set_livox_lidar_install_attitude set_livox_lidar_ip set_livox_lidar_ito_ctrl_mode
    set_livox_lidar_pcl_data_type set_livox_lidar_pcl_freq_mod
    set_livox_lidar_point_data_host_ip_cfg set_livox_lidar_pps_sync_mode
    set_livox_lidar_scan_pattern set_livox_lidar_state_info_host_ip_cfg
    set_livox_lidar_time_filter_mode set_livox_lidar_work_mode set_livox_lidar_work_mode_after_boot
    set_ntp_server_ip_addr start_forced_heating stop_forced_heating send_single_control_command
    build_set_host_state_info_ip_cfg_request build_set_host_point_data_ip_info_request
    build_set_host_imu_data_ip_info_request
set-message c handle (pcl_data_type data_type) cb = elim (Bool-cases (data_type == 0)) [
  | inl imu ↦ rw imu refl
  | inr points ↦ rw points refl
]
set-message c handle (scan_pattern pattern) cb = refl
set-message c handle (dual_emit true) cb = refl
set-message c handle (dual_emit false) cb = refl
set-message c handle enable_point_send cb = refl
set-message c handle disable_point_send cb = refl
set-message c handle (lidar_ip config) cb =
    ap (λ r. send_request c handle 0x0100 r cb) (lidar_ip-message config ∙ sym (nested config))
set-message c handle (state_info_host_ip_cfg cfg) cb =
    by_address c handle cb (ip_to_u8 cfg.host_ip_addr) _ (one_endpoint state_info_host_ip_cfg cfg)
set-message c handle (point_data_host_ip_cfg cfg) cb =
    by_address c handle cb (ip_to_u8 cfg.host_ip_addr) _
      (one_endpoint lidar_point_data_host_ip_cfg cfg)
set-message c handle (imu_data_host_ip_cfg cfg) cb =
    by_address c handle cb (ip_to_u8 cfg.host_ip_addr) _ (one_endpoint lidar_imu_host_ip_cfg cfg)
set-message c handle (install_attitude attitude) cb = refl
set-message c handle (fov_cfg0 cfg) cb = refl
set-message c handle (fov_cfg1 cfg) cb = refl
set-message c handle (enable_fov fov_en) cb = refl
set-message c handle disable_fov cb = refl
set-message c handle (detect_mode mode) cb = refl
set-message c handle (func_io_cfg cfg) cb = refl
set-message c handle (blind_spot spot) cb = refl
set-message c handle (work_mode mode) cb = refl
set-message c handle enable_glass_heat cb = refl
set-message c handle disable_glass_heat cb = refl
set-message c handle (glass_heat heat) cb = refl
set-message c handle enable_imu_data cb = refl
set-message c handle disable_imu_data cb = refl
set-message c handle enable_fusa_function cb = refl
set-message c handle disable_fusa_function cb = refl
set-message c handle forced_heating_on cb = refl
set-message c handle forced_heating_off cb = refl
set-message c handle (fog_noise_filter_mode mode) cb = refl
set-message c handle (ito_ctrl_mode mode) cb = refl
set-message c handle (pcl_freq_mod freq_mod) cb = refl
set-message c handle (time_filter_mode mode) cb = refl
set-message c handle (pps_sync_mode mode) cb = refl
set-message c handle (imu_range rate accel gyro) cb = refl
set-message c handle (ntp_server_ip host_ip) cb =
    by_address c handle cb (ip_to_u8 host_ip) _ (ntp-message host_ip)
set-message c handle (esc_mode mode) cb = refl
set-message c handle (fov_mode mode) cb = refl
set-message c handle (echo_mode mode) cb = refl
set-message c handle (work_mode_after_boot mode) cb = refl
