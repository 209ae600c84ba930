-- ===== src/Requests/Build.antt =====
-- `BuildRequest` in sdk_core/command_handler/build_request.cpp. The pointers to the values are into
-- the buffer, so the tests for a null pointer never hold. A `char` array that is passed as a
-- `std::string` is given as the text before its terminator.
use livox_sdk.Base.{ℕ, Bool, true, false, List, [], ◌∷◌, ◌==◌, if◌then◌else◌, read_at, le16}
use livox_sdk.StateInfo.Keys.{
  ParamKeyName, lidar_imu_host_ip_cfg, lidar_ip_cfg, lidar_point_data_host_ip_cfg,
  set_ntp_server_ip, state_info_host_ip_cfg,
}
use livox_sdk.Requests.{
  Attempt, refused, done, ◌>>=◌, access, Request, put_key_num, put_key, put_value, advance,
}
use livox_sdk.Requests.Address.{ip_to_u8}

pub record ViewLidarIpInfo : Type 0 where
  pub handle : ℕ
  pub dev_type : ℕ
  pub host_ip : List ℕ
  pub lidar_cmd_port : ℕ
  pub lidar_point_port : ℕ
  pub lidar_imu_data_port : ℕ
  pub host_point_port : ℕ
  pub host_imu_data_port : ℕ

pub record LivoxLidarNetInfo : Type 0 where
  pub lidar_ipaddr : List ℕ
  pub lidar_subnet_mask : List ℕ
  pub lidar_gateway : List ℕ
  pub cmd_data_port : ℕ
  pub push_msg_port : ℕ
  pub point_data_port : ℕ
  pub imu_data_port : ℕ
  pub log_data_port : ℕ

pub record HostNetInfo : Type 0 where
  pub host_ip : List ℕ
  pub multicast_ip : List ℕ
  pub cmd_data_port : ℕ
  pub push_msg_port : ℕ
  pub point_data_port : ℕ
  pub imu_data_port : ℕ
  pub log_data_port : ℕ

-- `cmd_key_set` is the vector of `general_cfg_info`.
pub record LivoxLidarCfg : Type 0 where
  pub device_type : ℕ
  pub lidar_net_info : LivoxLidarNetInfo
  pub host_net_info : HostNetInfo
  pub cmd_key_set : List ℕ

pub record LivoxLidarIpInfo : Type 0 where
  pub ip_addr : List ℕ
  pub net_mask : List ℕ
  pub gw_addr : List ℕ

-- `HostStateInfoIpInfo`, `HostPointIPInfo` and `HostImuDataIPInfo`: the address of the host, its
-- port, and the device's.
pub record HostIpInfo : Type 0 where
  pub host_ip_addr : List ℕ
  pub host_port : ℕ
  pub lidar_port : ℕ

abbrev pub type_pa : ℕ
type_pa = 16

abbrev pub type_industrial_hap : ℕ
type_industrial_hap = 10

abbrev pub type_mid360 : ℕ
type_mid360 = 9

abbrev pub type_mid360s : ℕ
type_mid360s = 35

abbrev pub type_avia2 : ℕ
type_avia2 = 40

-- The four bytes of an address, at an offset in the value at `req_len`.
abbrev pub put_ip : ℕ → List ℕ → Request → Attempt Request
put_ip offset text r = do
  vec ← ip_to_u8 text
  bytes ← access (read_at 0 4 vec)
  put_value offset bytes r

abbrev pub init_host_ip_addr : List ℕ → Request → Attempt Request
init_host_ip_addr host_ip r = put_ip 0 host_ip r

abbrev pub init_multicast_host_ip_addr : List ℕ → Request → Attempt Request
init_multicast_host_ip_addr multicast_ip r = put_ip 0 multicast_ip r

abbrev pub init_server_ip_info_val : List ℕ → Request → Attempt Request
init_server_ip_info_val host_ip r = put_ip 0 host_ip r

abbrev pub init_lidar_ip_info_val : LivoxLidarIpInfo → Request → Attempt Request
init_lidar_ip_info_val config r = do
  with_ip ← put_ip 0 config.ip_addr r
  with_mask ← put_ip 4 config.net_mask with_ip
  put_ip 8 config.gw_addr with_mask

abbrev pub is_empty : List ℕ → Bool
is_empty [] = true
is_empty (b ∷ bs) = false

-- The multicast address where one is configured, and else the host's.
abbrev pub init_data_ip_addr : HostNetInfo → Request → Attempt Request
init_data_ip_addr host r =
    if is_empty host.multicast_ip
    then init_host_ip_addr host.host_ip r
    else init_multicast_host_ip_addr host.multicast_ip r

-- The ports of a `HostIpInfoValue`, and the step behind its key and value.
abbrev pub put_ports : ℕ → ℕ → Request → Attempt Request
put_ports host_port lidar_port r = do
  with_host ← put_value 4 (le16 host_port) r
  with_lidar ← put_value 6 (le16 lidar_port) with_host
  done (advance 8 with_lidar)

abbrev pub put_host_key : ParamKeyName → List ℕ → ℕ → ℕ → Request → Attempt Request
put_host_key key host_ip host_port lidar_port r = do
  with_key ← put_key key 8 r
  with_ip ← init_host_ip_addr host_ip with_key
  put_ports host_port lidar_port with_ip

abbrev pub put_data_key : ParamKeyName → HostNetInfo → ℕ → ℕ → Request → Attempt Request
put_data_key key host host_port lidar_port r = do
  with_key ← put_key key 8 r
  with_ip ← init_data_ip_addr host with_key
  put_ports host_port lidar_port with_ip

unfoldable pub build_update_view_lidar_cfg_request : ViewLidarIpInfo → Request → Attempt Request
build_update_view_lidar_cfg_request view r = do
  counted ← put_key_num (if view.dev_type == type_pa then 1 else 2) (record r { len = 0 })
  with_point ←
      put_host_key lidar_point_data_host_ip_cfg view.host_ip view.host_point_port
        view.lidar_point_port counted
  if view.dev_type == type_pa
      then done with_point
      else put_host_key lidar_imu_host_ip_cfg view.host_ip view.host_imu_data_port
          view.lidar_imu_data_port with_point

-- The requests that configure three addresses differ in the device's ports.
abbrev pub build_update_request : ℕ → ℕ → ℕ → HostNetInfo → Request → Attempt Request
build_update_request state_port point_port imu_port host r = do
  counted ← put_key_num 3 r
  with_key ← put_key state_info_host_ip_cfg 8 counted
  with_ip ← init_host_ip_addr host.host_ip with_key
  with_state_ip ← init_data_ip_addr host with_ip
  with_state ← put_ports host.push_msg_port state_port with_state_ip
  with_point ←
      put_data_key lidar_point_data_host_ip_cfg host host.point_data_port point_port with_state
  put_data_key lidar_imu_host_ip_cfg host host.imu_data_port imu_port with_point

unfoldable pub build_update_mid360_lidar_cfg_request : LivoxLidarCfg → Request → Attempt Request
build_update_mid360_lidar_cfg_request cfg r =
    build_update_request 56200 56300 56400 cfg.host_net_info r

unfoldable pub build_update_mid360l_lidar_cfg_request : LivoxLidarCfg → Request → Attempt Request
build_update_mid360l_lidar_cfg_request cfg r =
    build_update_request 56200 56300 56400 cfg.host_net_info r

unfoldable pub build_update_avia2_lidar_cfg_request : LivoxLidarCfg → Request → Attempt Request
build_update_avia2_lidar_cfg_request cfg r =
    build_update_request 56200 56300 56400 cfg.host_net_info r

unfoldable pub lidar_point_port : ℕ → Attempt ℕ
lidar_point_port device_type =
    if device_type == type_industrial_hap
    then done 57000
    else if device_type == type_mid360
    then done 56300
    else if device_type == type_pa
    then done 10000
    else if device_type == type_mid360s
    then done 56300
    else if device_type == type_avia2
    then done 56300
    else refused

unfoldable pub lidar_imu_port : ℕ → Attempt ℕ
lidar_imu_port device_type =
    if device_type == type_industrial_hap
    then done 58000
    else if device_type == type_mid360
    then done 56400
    else if device_type == type_mid360s
    then done 56400
    else if device_type == type_avia2
    then done 56400
    else refused

abbrev pub put_imu_key : LivoxLidarCfg → Request → Attempt Request
put_imu_key cfg r = do
  with_key ← put_key lidar_imu_host_ip_cfg 8 r
  with_ip ← init_data_ip_addr cfg.host_net_info with_key
  port ← lidar_imu_port cfg.device_type
  put_ports cfg.host_net_info.imu_data_port port with_ip

unfoldable pub build_update_lidar_cfg_request : LivoxLidarCfg → Request → Attempt Request
build_update_lidar_cfg_request cfg r = do
  counted ← put_key_num (if cfg.device_type == type_pa then 1 else 2) r
  with_key ← put_key lidar_point_data_host_ip_cfg 8 counted
  with_ip ← init_data_ip_addr cfg.host_net_info with_key
  port ← lidar_point_port cfg.device_type
  with_point ← put_ports cfg.host_net_info.point_data_port port with_ip
  if cfg.device_type == type_pa then done with_point else put_imu_key cfg with_point

unfoldable pub build_set_ntp_server_ip_info_request : List ℕ → Request → Attempt Request
build_set_ntp_server_ip_info_request host_ip r = do
  counted ← put_key_num 1 r
  with_key ← put_key set_ntp_server_ip 4 counted
  with_ip ← init_server_ip_info_val host_ip with_key
  done (advance 4 with_ip)

unfoldable pub build_set_lidar_ip_info_request : LivoxLidarIpInfo → Request → Attempt Request
build_set_lidar_ip_info_request config r = do
  counted ← put_key_num 1 r
  with_key ← put_key lidar_ip_cfg 12 counted
  with_ip ← init_lidar_ip_info_val config with_key
  done (advance 12 with_ip)

unfoldable pub build_set_host_state_info_ip_cfg_request : HostIpInfo → Request → Attempt Request
build_set_host_state_info_ip_cfg_request cfg r = do
  counted ← put_key_num 1 r
  put_host_key state_info_host_ip_cfg cfg.host_ip_addr cfg.host_port cfg.lidar_port counted

unfoldable pub build_set_host_point_data_ip_info_request : HostIpInfo → Request → Attempt Request
build_set_host_point_data_ip_info_request cfg r = do
  counted ← put_key_num 1 r
  put_host_key lidar_point_data_host_ip_cfg cfg.host_ip_addr cfg.host_port cfg.lidar_port counted

unfoldable pub build_set_host_imu_data_ip_info_request : HostIpInfo → Request → Attempt Request
build_set_host_imu_data_ip_info_request cfg r = do
  counted ← put_key_num 1 r
  put_host_key lidar_imu_host_ip_cfg cfg.host_ip_addr cfg.host_port cfg.lidar_port counted
