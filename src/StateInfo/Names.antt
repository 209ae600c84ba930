-- ===== src/StateInfo/Names.antt =====
-- The member names of the JSON text, and the order in which they come, described by themselves.
use livox_sdk.Base.{List, [], ◌∷◌}
use Prim.Native.String.{String}
use livox_sdk.StateInfo.Keys.{ParamKeyName}

unfoldable pub json_name : ParamKeyName → String
json_name ParamKeyName.pcl_data_type = "pcl_data_type"
json_name ParamKeyName.pattern_mode = "pattern_mode"
json_name ParamKeyName.dual_emit_en = "dual_emit_en"
json_name ParamKeyName.point_send_en = "point_send_en"
json_name ParamKeyName.lidar_ip_cfg = "lidar_ipcfg"
json_name ParamKeyName.state_info_host_ip_cfg = "state_info_host_ipcfg"
json_name ParamKeyName.lidar_point_data_host_ip_cfg = "ponitcloud_host_ipcfg"
json_name ParamKeyName.lidar_imu_host_ip_cfg = "imu_host_ipcfg"
json_name ParamKeyName.ctl_host_ip_cfg = "ctl_host_ipcfg"
json_name ParamKeyName.log_host_ip_cfg = "log_host_ipcfg"
json_name ParamKeyName.vehicle_speed = "vehicle_speed"
json_name ParamKeyName.environment_temp = "environment_temp"
json_name ParamKeyName.install_attitude = "install_attitude"
json_name ParamKeyName.blind_spot_set = "blind_spot_set"
json_name ParamKeyName.frame_rate = "frame_rate"
json_name ParamKeyName.fov_cfg0 = "fov_cfg0"
json_name ParamKeyName.fov_cfg1 = "fov_cfg1"
json_name ParamKeyName.fov_cfg_en = "fov_cfg_en"
json_name ParamKeyName.detect_mode = "detect_mode"
json_name ParamKeyName.func_io_cfg = "func_io_cfg"
json_name ParamKeyName.work_mode_after_boot = ""
json_name ParamKeyName.work_mode = "work_tgt_mode"
json_name ParamKeyName.glass_heat = "glass_heat"
json_name ParamKeyName.imu_data_en = "imu_data_en"
json_name ParamKeyName.fusa_en = "fusa_en"
json_name ParamKeyName.force_heat_en = ""
json_name ParamKeyName.set_esc_mode = "esc_mode"
json_name ParamKeyName.set_fov_mode = "fov_mode"
json_name ParamKeyName.set_echo_mode = "echo_mode"
json_name ParamKeyName.set_ntp_server_ip = "ntp_server_ip"
json_name ParamKeyName.set_time_filter_mode = "time_filter_mode"
json_name ParamKeyName.set_ito_ctrl = "ito_mode"
json_name ParamKeyName.set_fog_noise_filter = "fog_noise_filter"
json_name ParamKeyName.set_pcl_freq_mod = "pcl_freq_mode"
json_name ParamKeyName.set_imu_range = "imu_range"
json_name ParamKeyName.log_param_set = ""
json_name ParamKeyName.sn = "sn"
json_name ParamKeyName.product_info = "product_info"
json_name ParamKeyName.version_app = "version_app"
json_name ParamKeyName.version_loader = "version_loader"
json_name ParamKeyName.version_hardware = "version_hardware"
json_name ParamKeyName.mac = "mac"
json_name ParamKeyName.cur_work_state = "cur_work_state"
json_name ParamKeyName.core_temp = "core_temp"
json_name ParamKeyName.power_up_cnt = "powerup_cnt"
json_name ParamKeyName.local_time_now = "local_time_now"
json_name ParamKeyName.last_sync_time = "last_sync_time"
json_name ParamKeyName.time_offset = "time_offset"
json_name ParamKeyName.time_sync_type = "time_sync_type"
json_name ParamKeyName.status_code = "status_code"
json_name ParamKeyName.lidar_diag_status = "lidar_diag_status"
json_name ParamKeyName.lidar_flash_status = "lidar_flash_status"
json_name ParamKeyName.fw_type = "FW_TYPE"
json_name ParamKeyName.hms_code = "hms_code"
json_name ParamKeyName.cur_glass_heat_state = ""
json_name ParamKeyName.roi_mode = "ROI_Mode"
json_name ParamKeyName.lidar_diag_info_query = ""

abbrev pub json_order : List ParamKeyName
json_order =
    ParamKeyName.pcl_data_type ∷ ParamKeyName.pattern_mode ∷ ParamKeyName.dual_emit_en
    ∷ ParamKeyName.point_send_en ∷ ParamKeyName.lidar_ip_cfg ∷ ParamKeyName.state_info_host_ip_cfg
    ∷ ParamKeyName.lidar_point_data_host_ip_cfg ∷ ParamKeyName.lidar_imu_host_ip_cfg
    ∷ ParamKeyName.ctl_host_ip_cfg ∷ ParamKeyName.log_host_ip_cfg ∷ ParamKeyName.vehicle_speed
    ∷ ParamKeyName.environment_temp ∷ ParamKeyName.install_attitude ∷ ParamKeyName.blind_spot_set
    ∷ ParamKeyName.frame_rate ∷ ParamKeyName.fov_cfg0 ∷ ParamKeyName.fov_cfg1
    ∷ ParamKeyName.fov_cfg_en ∷ ParamKeyName.detect_mode ∷ ParamKeyName.func_io_cfg
    ∷ ParamKeyName.work_mode ∷ ParamKeyName.glass_heat ∷ ParamKeyName.imu_data_en
    ∷ ParamKeyName.fusa_en ∷ ParamKeyName.set_esc_mode ∷ ParamKeyName.set_fov_mode
    ∷ ParamKeyName.set_echo_mode ∷ ParamKeyName.set_ntp_server_ip ∷ ParamKeyName.set_ito_ctrl
    ∷ ParamKeyName.set_fog_noise_filter ∷ ParamKeyName.set_pcl_freq_mod
    ∷ ParamKeyName.set_time_filter_mode ∷ ParamKeyName.set_imu_range ∷ ParamKeyName.sn
    ∷ ParamKeyName.product_info ∷ ParamKeyName.version_app ∷ ParamKeyName.version_loader
    ∷ ParamKeyName.version_hardware ∷ ParamKeyName.mac ∷ ParamKeyName.cur_work_state
    ∷ ParamKeyName.core_temp ∷ ParamKeyName.power_up_cnt ∷ ParamKeyName.local_time_now
    ∷ ParamKeyName.last_sync_time ∷ ParamKeyName.time_offset ∷ ParamKeyName.time_sync_type
    ∷ ParamKeyName.status_code ∷ ParamKeyName.lidar_diag_status ∷ ParamKeyName.lidar_flash_status
    ∷ ParamKeyName.fw_type ∷ ParamKeyName.hms_code ∷ ParamKeyName.roi_mode ∷ []
