-- ===== src/StateInfo/Reports.antt =====
-- The other rows of `LivoxLidarStateInfoToJson`: the modes, the identity and the state.
use livox_sdk.Base.{List, [], ◌∷◌, le}
use livox_sdk.StateInfo.Keys.{ParamKeyName}
use livox_sdk.StateInfo.Info.{Field, Info, size_of}
use livox_sdk.StateInfo.Text.{
  Row, key, uint, int, str, start_object, end_object, start_array, end_array, signed32, signed64,
  part, c_string, bounded, status_text,
}

-- The modes.
unfoldable pub mode_rows : Info → List Row
mode_rows info =
    (
      ParamKeyName.func_io_cfg,
      key "func_io_cfg"
          ∷ start_object
          ∷ key "IN0"
          ∷ uint (le (part 0 1 (info Field.func_io_cfg)))
          ∷ key "IN1"
          ∷ uint (le (part 1 1 (info Field.func_io_cfg)))
          ∷ key "OUT0"
          ∷ uint (le (part 2 1 (info Field.func_io_cfg)))
          ∷ key "OUT1"
          ∷ uint (le (part 3 1 (info Field.func_io_cfg)))
          ∷ end_object
          ∷ [],
    )
    ∷ (ParamKeyName.work_mode, key "work_tgt_mode" ∷ uint (le (info Field.work_tgt_mode)) ∷ [])
    ∷ (ParamKeyName.glass_heat, key "glass_heat" ∷ uint (le (info Field.glass_heat)) ∷ [])
    ∷ (ParamKeyName.imu_data_en, key "imu_data_en" ∷ uint (le (info Field.imu_data_en)) ∷ [])
    ∷ (ParamKeyName.fusa_en, key "fusa_en" ∷ uint (le (info Field.fusa_en)) ∷ [])
    ∷ (ParamKeyName.set_esc_mode, key "esc_mode" ∷ uint (le (info Field.esc_mode)) ∷ [])
    ∷ (ParamKeyName.set_fov_mode, key "fov_mode" ∷ uint (le (info Field.fov_mode)) ∷ [])
    ∷ (ParamKeyName.set_echo_mode, key "echo_mode" ∷ uint (le (info Field.echo_mode)) ∷ [])
    ∷ (
      ParamKeyName.set_ntp_server_ip,
      key "ntp_server_ip" ∷ str (c_string (info Field.ntp_server_ip)) ∷ [],
    )
    ∷ (ParamKeyName.set_ito_ctrl, key "ito_mode" ∷ uint (le (info Field.ito_mode)) ∷ [])
    ∷ (
      ParamKeyName.set_fog_noise_filter,
      key "fog_noise_filter" ∷ uint (le (info Field.fog_noise_filter)) ∷ [],
    )
    ∷ (
      ParamKeyName.set_pcl_freq_mod,
      key "pcl_freq_mode" ∷ uint (le (info Field.pcl_freq_mode)) ∷ [],
    )
    ∷ (
      ParamKeyName.set_time_filter_mode,
      key "time_filter_mode" ∷ uint (le (info Field.time_filter_mode)) ∷ [],
    )
    ∷ (
      ParamKeyName.set_imu_range,
      key "imu_range"
          ∷ start_object
          ∷ key "imu_out_rate"
          ∷ uint (le (part 0 1 (info Field.imu_range)))
          ∷ key "accel_range"
          ∷ uint (le (part 1 1 (info Field.imu_range)))
          ∷ key "gyro_range"
          ∷ uint (le (part 2 1 (info Field.imu_range)))
          ∷ end_object
          ∷ [],
    )
    ∷ []

-- The identity and the versions.
unfoldable pub identity_rows : Info → List Row
identity_rows info =
    (ParamKeyName.sn, key "sn" ∷ str (bounded (info Field.sn) (size_of Field.sn)) ∷ [])
    ∷ (
      ParamKeyName.product_info,
      key "product_info"
          ∷ str (bounded (info Field.product_info) (size_of Field.product_info))
          ∷ [],
    )
    ∷ (
      ParamKeyName.version_app,
      key "version_app"
          ∷ start_array
          ∷ uint (le (part 0 1 (info Field.version_app)))
          ∷ uint (le (part 1 1 (info Field.version_app)))
          ∷ uint (le (part 2 1 (info Field.version_app)))
          ∷ uint (le (part 3 1 (info Field.version_app)))
          ∷ end_array
          ∷ [],
    )
    ∷ (
      ParamKeyName.version_loader,
      key "version_loader"
          ∷ start_array
          ∷ uint (le (part 0 1 (info Field.version_loader)))
          ∷ uint (le (part 1 1 (info Field.version_loader)))
          ∷ uint (le (part 2 1 (info Field.version_loader)))
          ∷ uint (le (part 3 1 (info Field.version_loader)))
          ∷ end_array
          ∷ [],
    )
    ∷ (
      ParamKeyName.version_hardware,
      key "version_hardware"
          ∷ start_array
          ∷ uint (le (part 0 1 (info Field.version_hardware)))
          ∷ uint (le (part 1 1 (info Field.version_hardware)))
          ∷ uint (le (part 2 1 (info Field.version_hardware)))
          ∷ uint (le (part 3 1 (info Field.version_hardware)))
          ∷ end_array
          ∷ [],
    )
    ∷ (
      ParamKeyName.mac,
      key "mac"
          ∷ start_array
          ∷ uint (le (part 0 1 (info Field.mac)))
          ∷ uint (le (part 1 1 (info Field.mac)))
          ∷ uint (le (part 2 1 (info Field.mac)))
          ∷ uint (le (part 3 1 (info Field.mac)))
          ∷ uint (le (part 4 1 (info Field.mac)))
          ∷ uint (le (part 5 1 (info Field.mac)))
          ∷ end_array
          ∷ [],
    )
    ∷ []

-- What the device reports of its state.
unfoldable pub state_rows : Info → List Row
state_rows info =
    (ParamKeyName.cur_work_state, key "cur_work_state" ∷ uint (le (info Field.cur_work_state)) ∷ [])
    ∷ (ParamKeyName.core_temp, key "core_temp" ∷ int (signed32 (le (info Field.core_temp))) ∷ [])
    ∷ (ParamKeyName.power_up_cnt, key "powerup_cnt" ∷ uint (le (info Field.powerup_cnt)) ∷ [])
    ∷ (
      ParamKeyName.local_time_now,
      key "local_time_now" ∷ uint (le (info Field.local_time_now)) ∷ [],
    )
    ∷ (
      ParamKeyName.last_sync_time,
      key "last_sync_time" ∷ uint (le (info Field.last_sync_time)) ∷ [],
    )
    ∷ (
      ParamKeyName.time_offset,
      key "time_offset" ∷ int (signed64 (le (info Field.time_offset))) ∷ [],
    )
    ∷ (
      ParamKeyName.time_sync_type,
      key "time_sync_type" ∷ uint (le (info Field.time_sync_type)) ∷ [],
    )
    ∷ (
      ParamKeyName.status_code,
      key "status_code" ∷ str (status_text (info Field.status_code)) ∷ [],
    )
    ∷ (
      ParamKeyName.lidar_diag_status,
      key "lidar_diag_status" ∷ uint (le (info Field.lidar_diag_status)) ∷ [],
    )
    ∷ (
      ParamKeyName.lidar_flash_status,
      key "lidar_flash_status" ∷ uint (le (info Field.lidar_flash_status)) ∷ [],
    )
    ∷ (ParamKeyName.fw_type, key "FW_TYPE" ∷ uint (le (info Field.fw_type)) ∷ [])
    ∷ (
      ParamKeyName.hms_code,
      key "hms_code"
          ∷ start_array
          ∷ uint (le (part 0 4 (info Field.hms_code)))
          ∷ uint (le (part 4 4 (info Field.hms_code)))
          ∷ uint (le (part 8 4 (info Field.hms_code)))
          ∷ uint (le (part 12 4 (info Field.hms_code)))
          ∷ uint (le (part 16 4 (info Field.hms_code)))
          ∷ uint (le (part 20 4 (info Field.hms_code)))
          ∷ uint (le (part 24 4 (info Field.hms_code)))
          ∷ uint (le (part 28 4 (info Field.hms_code)))
          ∷ end_array
          ∷ [],
    )
    ∷ (ParamKeyName.roi_mode, key "ROI_Mode" ∷ uint (le (info Field.roi_mode)) ∷ [])
    ∷ []
