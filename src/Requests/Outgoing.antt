-- ===== src/Requests/Outgoing.antt =====
-- What a setting hands to the transport.
use livox_sdk.Base.{
  ℕ, ◌+◌, ◌-◌, ◌≤◌, ◌<◌, ◌≡◌, ap, ◌∙◌, arith, true, false, Bool-cases, inl, inr, Option, some, List,
  [], ◌∷◌, ◌++◌, ◌==◌, length, length-append, replicate, drop, le16,
}
use livox_sdk.Protocol.Frame.{frame}
use livox_sdk.Commands.{get_seq, get_lidar_command_handler}
use livox_sdk.Commands.Sending.{command, packed-frame, send_command-known, sent_or_failed}
use livox_sdk.StateInfo.Message.{Tlv, message}
use livox_sdk.Requests.{Attempt, done, access, ◌>>=◌}
use livox_sdk.Requests.Address.{ip_to_u8}
use livox_sdk.Requests.Dotted.{bind-done, length-ip_to_u8}
use livox_sdk.Requests.Client.{Client}
use livox_sdk.Requests.Sdk.{
  Setting, pcl_data_type, scan_pattern, dual_emit, enable_point_send, disable_point_send, lidar_ip,
  state_info_host_ip_cfg, point_data_host_ip_cfg, imu_data_host_ip_cfg, install_attitude, fov_cfg0,
  fov_cfg1, enable_fov, disable_fov, detect_mode, func_io_cfg, blind_spot, work_mode,
  enable_glass_heat, disable_glass_heat, glass_heat, enable_imu_data, disable_imu_data,
  enable_fusa_function, disable_fusa_function, forced_heating_on, forced_heating_off,
  fog_noise_filter_mode, ito_ctrl_mode, pcl_freq_mod, time_filter_mode, pps_sync_mode, imu_range,
  ntp_server_ip, esc_mode, fov_mode, echo_mode, work_mode_after_boot, set,
}
use livox_sdk.Requests.Wire.{setting_tlv, set-message}

-- A value that is at most 24 bytes long.
abbrev Small : Attempt Tlv → Type 0
Small m = (t : Tlv) → m ≡ done t → length t.value ≤ 24

done-value : (x t : Tlv) → done x ≡ done t → length x.value ≡ length t.value
done-value x t e = cc

small : {x : Tlv} → length x.value ≤ 24 → Small (done x)
small {x = x} h t e = omega (arith, h, done-value x t e)

from_ip :
    (text : List ℕ) (f : List ℕ → Attempt Tlv)
    → ((ip : List ℕ) → length ip ≡ 4 → Small (f ip))
    → Small (ip_to_u8 text >>= f)
from_ip text f k t e =
    let (ip, known, rest) = bind-done (ip_to_u8 text) f e in
    k ip (length-ip_to_u8 text ip known) t rest

-- No setting has a longer value.
setting_tlv-Small : (s : Setting) → Small (setting_tlv s)
setting_tlv-Small (pcl_data_type data_type) = elim (Bool-cases (data_type == 0)) [
  | inl imu ↦ small (rw imu (omega arith))
  | inr points ↦ small (rw points (omega arith))
]
setting_tlv-Small (scan_pattern pattern) = small (omega arith)
setting_tlv-Small (dual_emit true) = small (omega arith)
setting_tlv-Small (dual_emit false) = small (omega arith)
setting_tlv-Small enable_point_send = small (omega arith)
setting_tlv-Small disable_point_send = small (omega arith)
setting_tlv-Small (lidar_ip config) = from_ip config.ip_addr _ λ ip four.
    from_ip config.net_mask _ λ mask four'. from_ip config.gw_addr _ λ gateway four''. small (
      omega (
        arith,
        four,
        four',
        four'',
        length-append ip (mask ++ gateway),
        length-append mask gateway,
      ))
setting_tlv-Small (state_info_host_ip_cfg cfg) = from_ip cfg.host_ip_addr _ (λ ip four.
    small (omega (arith, four, length-append ip (le16 cfg.host_port ++ le16 cfg.lidar_port))))
setting_tlv-Small (point_data_host_ip_cfg cfg) = from_ip cfg.host_ip_addr _ (λ ip four.
    small (omega (arith, four, length-append ip (le16 cfg.host_port ++ le16 cfg.lidar_port))))
setting_tlv-Small (imu_data_host_ip_cfg cfg) = from_ip cfg.host_ip_addr _ (λ ip four.
    small (omega (arith, four, length-append ip (le16 cfg.host_port ++ le16 cfg.lidar_port))))
setting_tlv-Small (install_attitude attitude) = small (omega arith)
setting_tlv-Small (fov_cfg0 cfg) = small (omega arith)
setting_tlv-Small (fov_cfg1 cfg) = small (omega arith)
setting_tlv-Small (enable_fov fov_en) = small (omega arith)
setting_tlv-Small disable_fov = small (omega arith)
setting_tlv-Small (detect_mode mode) = small (omega arith)
setting_tlv-Small (func_io_cfg cfg) = small (omega arith)
setting_tlv-Small (blind_spot spot) = small (omega arith)
setting_tlv-Small (work_mode mode) = small (omega arith)
setting_tlv-Small enable_glass_heat = small (omega arith)
setting_tlv-Small disable_glass_heat = small (omega arith)
setting_tlv-Small (glass_heat heat) = small (omega arith)
setting_tlv-Small enable_imu_data = small (omega arith)
setting_tlv-Small disable_imu_data = small (omega arith)
setting_tlv-Small enable_fusa_function = small (omega arith)
setting_tlv-Small disable_fusa_function = small (omega arith)
setting_tlv-Small forced_heating_on = small (omega arith)
setting_tlv-Small forced_heating_off = small (omega arith)
setting_tlv-Small (fog_noise_filter_mode mode) = small (omega arith)
setting_tlv-Small (ito_ctrl_mode mode) = small (omega arith)
setting_tlv-Small (pcl_freq_mod freq_mod) = small (omega arith)
setting_tlv-Small (time_filter_mode mode) = small (omega arith)
setting_tlv-Small (pps_sync_mode mode) = small (omega arith)
setting_tlv-Small (imu_range rate accel gyro) = small (omega arith)
setting_tlv-Small (ntp_server_ip host_ip) =
    from_ip host_ip _ (λ ip four. small (omega (arith, four)))
setting_tlv-Small (esc_mode mode) = small (omega arith)
setting_tlv-Small (fov_mode mode) = small (omega arith)
setting_tlv-Small (echo_mode mode) = small (omega arith)
setting_tlv-Small (work_mode_after_boot mode) = small (omega arith)

module _ (c : Client) (handle : ℕ) (s : Setting) (cb : Option ℕ) (t : Tlv) where
  abbrev body : List ℕ
  body = message (t ∷ []) 0 0

  abbrev rest : List ℕ
  rest = replicate (1400 - length body) 0

  -- The bytes that the transport is given.
  abbrev pub wire : List ℕ
  wire =
      frame c.transport.crc
        (command c.transport c.handlers c.now c.last handle 0x0100 (some (body ++ rest))
          (length body) cb c.commands).packet
        (replicate 6 0) body
      ++ drop (length body + 24) (replicate 1401 0)

  -- A setting with a valid value, for a device whose handler is known, with the last sequence number
  -- in its range: the transport is handed the frame of the message of that key and value, of exactly
  -- its length, and the call ends as the transport says, with the command waiting or withdrawn.
  pub set-frame :
      (type : ℕ)
      → get_lidar_command_handler c.handlers handle ≡ some type
      → get_seq c.last < 65536
      → setting_tlv s ≡ done t
      → set c handle s cb
        ≡ done (
            sent_or_failed c.transport c.handlers c.now c.last handle 0x0100
              (some (body ++ rest))
              (length body)
              cb
              c.commands
              (c.transport.sends handle wire (length body + 24)))
  set-frame type known seq value =
      let fits : length body ≤ 1376 =
        omega (arith, setting_tlv-Small s t value, length-append t.value []) in
      let p =
        packed-frame c.transport c.handlers c.now c.last handle 0x0100 body rest cb c.commands seq
          (omega arith) fits in
      set-message c handle s cb
      ∙ (rw value (
          ap access (
            send_command-known c.transport c.handlers c.now c.last handle 0x0100
              (some (body ++ rest)) (length body) cb c.commands type _ known p)))
