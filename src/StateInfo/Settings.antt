-- ===== src/StateInfo/Settings.antt =====
-- The first rows of `LivoxLidarStateInfoToJson`: the calls on the writer for the keys that configure
-- the device. A row is one `if (key_mask.find(key) != key_mask.end())` and the calls under it.
use livox_sdk.Base.{List, [], ◌∷◌, le}
use livox_sdk.StateInfo.Keys.{ParamKeyName}
use livox_sdk.StateInfo.Info.{Field, Info}
use livox_sdk.StateInfo.Text.{
  Row, key, uint, int, double, str, start_object, end_object, signed32, part, c_string,
}

-- The data type and pattern, and the addresses and ports.
unfoldable pub network_rows : Info → List Row
network_rows info =
    (ParamKeyName.pcl_data_type, key "pcl_data_type" ∷ uint (le (info Field.pcl_data_type)) ∷ [])
    ∷ (ParamKeyName.pattern_mode, key "pattern_mode" ∷ uint (le (info Field.pattern_mode)) ∷ [])
    ∷ (ParamKeyName.dual_emit_en, key "dual_emit_en" ∷ uint (le (info Field.dual_emit_en)) ∷ [])
    ∷ (ParamKeyName.point_send_en, key "point_send_en" ∷ uint (le (info Field.point_send_en)) ∷ [])
    ∷ (
      ParamKeyName.lidar_ip_cfg,
      key "lidar_ipcfg"
          ∷ start_object
          ∷ key "lidar_ip"
          ∷ str (c_string (info Field.lidar_ip_addr))
          ∷ key "lidar_subnet_mask"
          ∷ str (c_string (info Field.lidar_net_mask))
          ∷ key "lidar_gateway"
          ∷ str (c_string (info Field.lidar_gw_addr))
          ∷ end_object
          ∷ [],
    )
    ∷ (
      ParamKeyName.state_info_host_ip_cfg,
      key "state_info_host_ipcfg"
          ∷ start_object
          ∷ key "ip"
          ∷ str (c_string (info Field.host_state_ip_addr))
          ∷ key "dst_port"
          ∷ uint (le (info Field.host_state_info_port))
          ∷ key "src_port"
          ∷ uint (le (info Field.lidar_state_info_port))
          ∷ end_object
          ∷ [],
    )
    ∷ (
      ParamKeyName.lidar_point_data_host_ip_cfg,
      key "ponitcloud_host_ipcfg"
          ∷ start_object
          ∷ key "ip"
          ∷ str (c_string (info Field.host_point_ip_addr))
          ∷ key "dst_port"
          ∷ uint (le (info Field.host_point_data_port))
          ∷ key "src_port"
          ∷ uint (le (info Field.lidar_point_data_port))
          ∷ end_object
          ∷ [],
    )
    ∷ (
      ParamKeyName.lidar_imu_host_ip_cfg,
      key "imu_host_ipcfg"
          ∷ start_object
          ∷ key "ip"
          ∷ str (c_string (info Field.host_imu_ip_addr))
          ∷ key "dst_port"
          ∷ uint (le (info Field.host_imu_data_port))
          ∷ key "src_port"
          ∷ uint (le (info Field.lidar_imu_data_port))
          ∷ end_object
          ∷ [],
    )
    ∷ (
      ParamKeyName.ctl_host_ip_cfg,
      key "ctl_host_ipcfg"
          ∷ start_object
          ∷ key "ip"
          ∷ str (c_string (info Field.ctl_ip_addr))
          ∷ key "dst_port"
          ∷ uint (le (info Field.ctl_dst_port))
          ∷ key "src_port"
          ∷ uint (le (info Field.ctl_src_port))
          ∷ end_object
          ∷ [],
    )
    ∷ (
      ParamKeyName.log_host_ip_cfg,
      key "log_host_ipcfg"
          ∷ start_object
          ∷ key "ip"
          ∷ str (c_string (info Field.log_ip_addr))
          ∷ key "dst_port"
          ∷ uint (le (info Field.log_dst_port))
          ∷ key "src_port"
          ∷ uint (le (info Field.log_src_port))
          ∷ end_object
          ∷ [],
    )
    ∷ []

-- The speed and temperature, and how the device is installed.
unfoldable pub setup_rows : Info → List Row
setup_rows info =
    (
      ParamKeyName.vehicle_speed,
      key "vehicle_speed" ∷ int (signed32 (le (info Field.vehicle_speed))) ∷ [],
    )
    ∷ (
      ParamKeyName.environment_temp,
      key "environment_temp" ∷ int (signed32 (le (info Field.environment_temp))) ∷ [],
    )
    ∷ (
      ParamKeyName.install_attitude,
      key "install_attitude"
          ∷ start_object
          ∷ key "roll_deg"
          ∷ double (le (part 0 4 (info Field.install_attitude)))
          ∷ key "pitch_deg"
          ∷ double (le (part 4 4 (info Field.install_attitude)))
          ∷ key "yaw_deg"
          ∷ double (le (part 8 4 (info Field.install_attitude)))
          ∷ key "x_mm"
          ∷ uint (le (part 12 4 (info Field.install_attitude)))
          ∷ key "y_mm"
          ∷ uint (le (part 16 4 (info Field.install_attitude)))
          ∷ key "z_mm"
          ∷ uint (le (part 20 4 (info Field.install_attitude)))
          ∷ end_object
          ∷ [],
    )
    ∷ (
      ParamKeyName.blind_spot_set,
      key "blind_spot_set" ∷ uint (le (info Field.blind_spot_set)) ∷ [],
    )
    ∷ (ParamKeyName.frame_rate, key "frame_rate" ∷ uint (le (info Field.frame_rate)) ∷ [])
    ∷ (
      ParamKeyName.fov_cfg0,
      key "fov_cfg0"
          ∷ start_object
          ∷ key "yaw_start"
          ∷ int (signed32 (le (part 0 4 (info Field.fov_cfg0))))
          ∷ key "yaw_stop"
          ∷ int (signed32 (le (part 4 4 (info Field.fov_cfg0))))
          ∷ key "pitch_start"
          ∷ int (signed32 (le (part 8 4 (info Field.fov_cfg0))))
          ∷ key "pitch_stop"
          ∷ int (signed32 (le (part 12 4 (info Field.fov_cfg0))))
          ∷ end_object
          ∷ [],
    )
    ∷ (
      ParamKeyName.fov_cfg1,
      key "fov_cfg1"
          ∷ start_object
          ∷ key "yaw_start"
          ∷ int (signed32 (le (part 0 4 (info Field.fov_cfg1))))
          ∷ key "yaw_stop"
          ∷ int (signed32 (le (part 4 4 (info Field.fov_cfg1))))
          ∷ key "pitch_start"
          ∷ int (signed32 (le (part 8 4 (info Field.fov_cfg1))))
          ∷ key "pitch_stop"
          ∷ int (signed32 (le (part 12 4 (info Field.fov_cfg1))))
          ∷ end_object
          ∷ [],
    )
    ∷ (ParamKeyName.fov_cfg_en, key "fov_cfg_en" ∷ uint (le (info Field.fov_cfg_en)) ∷ [])
    ∷ (ParamKeyName.detect_mode, key "detect_mode" ∷ uint (le (info Field.detect_mode)) ∷ [])
    ∷ []
