-- ===== src/StateInfo/Values.antt =====
-- The cases of `ParseStateInfo`: how the value of each key is copied into the structure. A value
-- stands in the packet's data at an offset, with a length; `fault` is an access outside of a buffer.
use livox_sdk.Base.{ℕ, ◌+◌, ◌/◌, ◌%◌, List, [], ◌∷◌, ◌++◌, ltb, if◌then◌else◌, read_at, write_at}
use livox_sdk.Base.Outcome.{Outcome, reject, ok, lift, ◌>>=◌}
use Prim.Native.Nat.{min}
use livox_sdk.StateInfo.Keys.{ParamKeyName}
use livox_sdk.StateInfo.Info.{Field, Info, size_of, set_field}

-- `memcpy` of bytes over the start of a member.
unfoldable pub store : Field → List ℕ → Info → Outcome Info
store f bs info = do image ← lift (write_at 0 bs (info f)); ok (set_field f image info)

-- `copy_value(&info.member, sizeof(info.member))`.
unfoldable pub copy_value : Field → List ℕ → ℕ → ℕ → Info → Outcome Info
copy_value f d off len info = do bs ← lift (read_at off (min (size_of f) len) d); store f bs info

-- `memcpy(&info.port, &packet.data[off], sizeof(uint16_t))`.
unfoldable pub copy_port : Field → List ℕ → ℕ → Info → Outcome Info
copy_port f d off info = do bs ← lift (read_at off 2 d); store f bs info

-- `std::to_string` of a `uint8_t`, as the codes of its digits.
unfoldable pub to_string : ℕ → List ℕ
to_string n =
    if ltb n 10
    then (48 + n) ∷ []
    else if ltb n 100
    then (48 + n / 10) ∷ (48 + n % 10) ∷ []
    else (48 + n / 100) ∷ (48 + n / 10 % 10) ∷ (48 + n % 10) ∷ []

-- The four bytes of an address with dots between them.
unfoldable pub ip_str : List ℕ → List ℕ
ip_str (a ∷ b ∷ c ∷ d ∷ []) =
    to_string a ++ (b'.' ∷ (to_string b ++ (b'.' ∷ (to_string c ++ (b'.' ∷ to_string d)))))
ip_str _ = []

-- An address is read, printed, and copied with its terminator into a member by `strcpy`.
unfoldable pub parse_ip : Field → List ℕ → ℕ → Info → Outcome Info
unfolding ip_str
parse_ip f d off info = do ip ← lift (read_at off 4 d); store f (ip_str ip ++ (0 ∷ [])) info

unfoldable pub parse_lidar_ip_addr : List ℕ → ℕ → Info → Outcome Info
parse_lidar_ip_addr d off info = do
  with_ip ← parse_ip Field.lidar_ip_addr d off info
  with_mask ← parse_ip Field.lidar_net_mask d (off + 4) with_ip
  parse_ip Field.lidar_gw_addr d (off + 8) with_mask

unfoldable pub parse_state_info_host_ip_cfg : List ℕ → ℕ → Info → Outcome Info
parse_state_info_host_ip_cfg d off info = do
  with_ip ← parse_ip Field.host_state_ip_addr d off info
  with_host ← copy_port Field.host_state_info_port d (off + 4) with_ip
  copy_port Field.lidar_state_info_port d (off + 6) with_host

unfoldable pub parse_point_cloud_host_ip_cfg : List ℕ → ℕ → Info → Outcome Info
parse_point_cloud_host_ip_cfg d off info = do
  with_ip ← parse_ip Field.host_point_ip_addr d off info
  with_host ← copy_port Field.host_point_data_port d (off + 4) with_ip
  copy_port Field.lidar_point_data_port d (off + 6) with_host

unfoldable pub parse_imu_data_host_ip_cfg : List ℕ → ℕ → Info → Outcome Info
parse_imu_data_host_ip_cfg d off info = do
  with_ip ← parse_ip Field.host_imu_ip_addr d off info
  with_host ← copy_port Field.host_imu_data_port d (off + 4) with_ip
  copy_port Field.lidar_imu_data_port d (off + 6) with_host

-- The configuration that is passed by reference is given by its three members.
unfoldable pub parse_ip_cfg : Field → Field → Field → List ℕ → ℕ → Info → Outcome Info
parse_ip_cfg ip_addr dst_port src_port d off info = do
  with_ip ← parse_ip ip_addr d off info
  with_dst ← copy_port dst_port d (off + 4) with_ip
  copy_port src_port d (off + 6) with_dst

unfoldable pub parse_ntp_server_ip : List ℕ → ℕ → Info → Outcome Info
parse_ntp_server_ip d off info = parse_ip Field.ntp_server_ip d off info

-- The cases of the keys that tell of the device: its identity, versions and state, and the modes
-- that later devices added.
unfoldable pub parse_status : ParamKeyName → List ℕ → ℕ → ℕ → Info → Outcome Info
parse_status ParamKeyName.sn d off len info = copy_value Field.sn d off len info
parse_status ParamKeyName.product_info d off len info = copy_value Field.product_info d off len info
parse_status ParamKeyName.version_app d off len info = copy_value Field.version_app d off len info
parse_status ParamKeyName.version_loader d off len info =
    copy_value Field.version_loader d off len info
parse_status ParamKeyName.version_hardware d off len info =
    copy_value Field.version_hardware d off len info
parse_status ParamKeyName.mac d off len info = copy_value Field.mac d off len info
parse_status ParamKeyName.cur_work_state d off len info =
    copy_value Field.cur_work_state d off len info
parse_status ParamKeyName.core_temp d off len info = copy_value Field.core_temp d off len info
parse_status ParamKeyName.power_up_cnt d off len info = copy_value Field.powerup_cnt d off len info
parse_status ParamKeyName.local_time_now d off len info =
    copy_value Field.local_time_now d off len info
parse_status ParamKeyName.last_sync_time d off len info =
    copy_value Field.last_sync_time d off len info
parse_status ParamKeyName.time_offset d off len info = copy_value Field.time_offset d off len info
parse_status ParamKeyName.time_sync_type d off len info =
    copy_value Field.time_sync_type d off len info
parse_status ParamKeyName.status_code d off len info = copy_value Field.status_code d off len info
parse_status ParamKeyName.lidar_diag_status d off len info =
    copy_value Field.lidar_diag_status d off len info
parse_status ParamKeyName.lidar_flash_status d off len info =
    copy_value Field.lidar_flash_status d off len info
parse_status ParamKeyName.fw_type d off len info = copy_value Field.fw_type d off len info
parse_status ParamKeyName.hms_code d off len info = copy_value Field.hms_code d off len info
parse_status ParamKeyName.roi_mode d off len info = copy_value Field.roi_mode d off len info
parse_status ParamKeyName.set_esc_mode d off len info = copy_value Field.esc_mode d off len info
parse_status ParamKeyName.set_fov_mode d off len info = copy_value Field.fov_mode d off len info
parse_status ParamKeyName.set_echo_mode d off len info = copy_value Field.echo_mode d off len info
parse_status ParamKeyName.set_ntp_server_ip d off len info =
    if ltb len 4 then reject else parse_ntp_server_ip d off info
parse_status ParamKeyName.set_ito_ctrl d off len info = copy_value Field.ito_mode d off len info
parse_status ParamKeyName.set_fog_noise_filter d off len info =
    copy_value Field.fog_noise_filter d off len info
parse_status ParamKeyName.set_time_filter_mode d off len info =
    copy_value Field.time_filter_mode d off len info
parse_status ParamKeyName.set_pcl_freq_mod d off len info =
    copy_value Field.pcl_freq_mode d off len info
parse_status ParamKeyName.set_imu_range d off len info = copy_value Field.imu_range d off len info
parse_status _ d off len info = ok info

-- The cases of the keys that configure the device, and then those above.
unfoldable pub parse_value : ParamKeyName → List ℕ → ℕ → ℕ → Info → Outcome Info
parse_value ParamKeyName.pcl_data_type d off len info =
    copy_value Field.pcl_data_type d off len info
parse_value ParamKeyName.pattern_mode d off len info = copy_value Field.pattern_mode d off len info
parse_value ParamKeyName.dual_emit_en d off len info = copy_value Field.dual_emit_en d off len info
parse_value ParamKeyName.point_send_en d off len info =
    copy_value Field.point_send_en d off len info
parse_value ParamKeyName.lidar_ip_cfg d off len info =
    if ltb len 12 then reject else parse_lidar_ip_addr d off info
parse_value ParamKeyName.state_info_host_ip_cfg d off len info =
    if ltb len 8 then reject else parse_state_info_host_ip_cfg d off info
parse_value ParamKeyName.lidar_point_data_host_ip_cfg d off len info =
    if ltb len 8 then reject else parse_point_cloud_host_ip_cfg d off info
parse_value ParamKeyName.lidar_imu_host_ip_cfg d off len info =
    if ltb len 8 then reject else parse_imu_data_host_ip_cfg d off info
parse_value ParamKeyName.ctl_host_ip_cfg d off len info =
    if ltb len 8
    then reject
    else parse_ip_cfg Field.ctl_ip_addr Field.ctl_dst_port Field.ctl_src_port d off info
parse_value ParamKeyName.log_host_ip_cfg d off len info =
    if ltb len 8
    then reject
    else parse_ip_cfg Field.log_ip_addr Field.log_dst_port Field.log_src_port d off info
parse_value ParamKeyName.vehicle_speed d off len info =
    copy_value Field.vehicle_speed d off len info
parse_value ParamKeyName.environment_temp d off len info =
    copy_value Field.environment_temp d off len info
parse_value ParamKeyName.install_attitude d off len info =
    copy_value Field.install_attitude d off len info
parse_value ParamKeyName.blind_spot_set d off len info =
    copy_value Field.blind_spot_set d off len info
parse_value ParamKeyName.frame_rate d off len info = copy_value Field.frame_rate d off len info
parse_value ParamKeyName.fov_cfg0 d off len info = copy_value Field.fov_cfg0 d off len info
parse_value ParamKeyName.fov_cfg1 d off len info = copy_value Field.fov_cfg1 d off len info
parse_value ParamKeyName.fov_cfg_en d off len info = copy_value Field.fov_cfg_en d off len info
parse_value ParamKeyName.detect_mode d off len info = copy_value Field.detect_mode d off len info
parse_value ParamKeyName.func_io_cfg d off len info = copy_value Field.func_io_cfg d off len info
parse_value ParamKeyName.work_mode d off len info = copy_value Field.work_tgt_mode d off len info
parse_value ParamKeyName.glass_heat d off len info = copy_value Field.glass_heat d off len info
parse_value ParamKeyName.imu_data_en d off len info = copy_value Field.imu_data_en d off len info
parse_value ParamKeyName.fusa_en d off len info = copy_value Field.fusa_en d off len info
parse_value k d off len info = parse_status k d off len info
