-- ===== src/StateInfo/Cases.antt =====
-- The kinds of case that the switch of `ParseStateInfo` has: a plain copy, an address with two ports,
-- the device's three addresses, and the address of the time server.
use livox_sdk.Base.{ℕ, ◌≡◌, refl, List, ltb, if◌then◌else◌}
use livox_sdk.Base.Outcome.{Outcome, reject, ok}
use livox_sdk.StateInfo.Keys.{ParamKeyName}
use livox_sdk.StateInfo.Info.{Field, Info, size_of}
use livox_sdk.StateInfo.Values.{
  copy_value, parse_lidar_ip_addr, parse_state_info_host_ip_cfg, parse_point_cloud_host_ip_cfg,
  parse_imu_data_host_ip_cfg, parse_ip_cfg, parse_ntp_server_ip, parse_status, parse_value,
}

abbrev pub Body : Type 0
Body = List ℕ → ℕ → ℕ → Info → Outcome Info

abbrev pub guarded : ℕ → (List ℕ → ℕ → Info → Outcome Info) → Body
guarded n f d off len info = if ltb len n then reject else f d off info

module _ (P : Body → Type 0) (copied : (f : Field) → P (copy_value f))
    (endpoint : (ip dst src : Field)
      → size_of ip ≡ 16
      → size_of dst ≡ 2
      → size_of src ≡ 2
      → P (guarded 8 (parse_ip_cfg ip dst src)))
    (lidar : P (guarded 12 parse_lidar_ip_addr)) (server : P (guarded 4 parse_ntp_server_ip))
    (nothing : P (λ d off len info. ok info)) where
  -- What holds of each kind of case holds of every key's.
  pub by_case : (k : ParamKeyName) → P (parse_value k)
  unfolding parse_value parse_status parse_state_info_host_ip_cfg parse_point_cloud_host_ip_cfg
      parse_imu_data_host_ip_cfg parse_ip_cfg size_of
  by_case ParamKeyName.lidar_ip_cfg = lidar
  by_case ParamKeyName.state_info_host_ip_cfg =
      endpoint Field.host_state_ip_addr Field.host_state_info_port Field.lidar_state_info_port refl
        refl refl
  by_case ParamKeyName.lidar_point_data_host_ip_cfg =
      endpoint Field.host_point_ip_addr Field.host_point_data_port Field.lidar_point_data_port refl
        refl refl
  by_case ParamKeyName.lidar_imu_host_ip_cfg =
      endpoint Field.host_imu_ip_addr Field.host_imu_data_port Field.lidar_imu_data_port refl refl
        refl
  by_case ParamKeyName.ctl_host_ip_cfg =
      endpoint Field.ctl_ip_addr Field.ctl_dst_port Field.ctl_src_port refl refl refl
  by_case ParamKeyName.log_host_ip_cfg =
      endpoint Field.log_ip_addr Field.log_dst_port Field.log_src_port refl refl refl
  by_case ParamKeyName.set_ntp_server_ip = server
  by_case ParamKeyName.work_mode_after_boot = nothing
  by_case ParamKeyName.force_heat_en = nothing
  by_case ParamKeyName.log_param_set = nothing
  by_case ParamKeyName.cur_glass_heat_state = nothing
  by_case ParamKeyName.lidar_diag_info_query = nothing
  by_case _ = copied _
