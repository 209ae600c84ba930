-- ===== src/Manager.antt =====
-- The device manager of sdk_core/device_manager.cpp, as far as it keeps the detected devices: in view
-- mode it asks each for its configuration and takes the ports from the answer.
pub mod Scan
pub mod Ports
pub mod Types
pub mod View
pub mod Tests
use livox_sdk.Base.{
  ℕ, ◌+◌, Bool, true, false, ◌&&◌, not, Option, none, some, List, [], ◌∷◌, ◌++◌, ltb, ◌==◌,
  if◌then◌else◌,
}
use livox_sdk.Base.Map.{Map, find, assign}
use livox_sdk.Commands.{LivoxLidarStatus, is_success}
use livox_sdk.Dispatch.{DetectionData}
use livox_sdk.Requests.Build.{ViewLidarIpInfo}
use livox_sdk.Manager.Scan.{Rounds, running, fault, done, ViewPorts, no_ports, scan}

pub record ViewDevice : Type 0 where
  pub handle : ℕ
  pub dev_type : ℕ
  pub cmd_port : ℕ
  pub is_get : Bool
  pub is_set : Bool

pub record DeviceManager : Type 0 where
  pub is_view : Bool
  pub detection_host_ip : List ℕ
  pub view_devices : Map ViewDevice
  pub view_lidars_info : Map ViewLidarIpInfo
  pub lidars_dev_type : Map ℕ

-- What the manager calls: the query of the internal information, `UpdateLidarCfg` and
-- `LivoxLidarInfoChange` of the general command handler, and the creation of the data channel.
pub data Call : Type 0 where
  get_livox_lidar_internal_info : ℕ → Call
  update_lidar_cfg : ViewLidarIpInfo → Call
  livox_lidar_info_change : ℕ → Call
  create_view_data_channel : ViewLidarIpInfo → Call

abbrev pub new_view_device : ℕ → DetectionData → ViewDevice
new_view_device handle detected = record {
  handle = handle;
  dev_type = detected.dev_type;
  cmd_port = detected.cmd_port;
  is_get = false;
  is_set = false;
}

abbrev pub or_new : ℕ → DetectionData → Option ViewDevice → ViewDevice
or_new handle detected none = new_view_device handle detected
or_new handle detected (some device) = device

abbrev pub change_if : Bool → ℕ → List Call
change_if b handle = if b then Call.livox_lidar_info_change handle ∷ [] else []

-- What a viewed device is sent, when its firmware runs the application, and that it changed, when its
-- firmware is the loader. Without an entry in `view_lidars_info_` the function returns; the entry that
-- `operator[]` then makes is a null pointer, which is read as no entry.
abbrev pub view_calls : ℕ → ViewDevice → Bool → Bool → Option ViewLidarIpInfo → List Call
view_calls handle device is_get_loader_mode is_load_mode info =
    if not device.is_get && (is_get_loader_mode && not is_load_mode)
    then Call.get_livox_lidar_internal_info handle ∷ []
    else if is_get_loader_mode && not is_load_mode
    then (if device.is_set
        then []
        else elim info [ none ↦ [] | some v ↦ Call.update_lidar_cfg v ∷ [] ])
    else change_if (is_get_loader_mode && is_load_mode) handle

abbrev pub detect_type :
    DeviceManager → ℕ → DetectionData → Bool → Option ℕ → DeviceManager × List Call
detect_type m handle detected loads none = (
  record m { lidars_dev_type = assign handle detected.dev_type m.lidars_dev_type },
  change_if loads handle,
)
detect_type m handle detected loads (some dev_type) =
    (m, if dev_type == detected.dev_type then change_if loads handle else [])

-- `HandleDetectionData`.
unfoldable pub handle_detection :
    DeviceManager → ℕ → DetectionData → Bool → Bool → DeviceManager × List Call
handle_detection m handle detected is_get_loader_mode is_load_mode =
    let device = or_new handle detected (find handle m.view_devices) in
    if handle == 0
    then (m, [])
    else if m.is_view
    then (
      record m { view_devices = assign handle device m.view_devices },
      view_calls handle device is_get_loader_mode is_load_mode (find handle m.view_lidars_info),
    )
    else detect_type m handle detected (is_get_loader_mode && is_load_mode)
        (find handle m.lidars_dev_type)

-- The answer to the query: the return code, the number of keys, and the bytes from the keys on.
pub record InternalInfoResponse : Type 0 where
  pub ret_code : ℕ
  pub param_num : ℕ
  pub bytes : List ℕ

-- The ports of a device whose type has fixed ones.
abbrev pub has_fixed_ports : ℕ → Bool
has_fixed_ports t =
    if t == 9 then true else if t == 35 then true else if t == 40 then true else t == 41

abbrev pub view_info : DeviceManager → ℕ → ViewDevice → ViewPorts → ViewLidarIpInfo
view_info m handle device p = record {
  handle = handle;
  dev_type = device.dev_type;
  host_ip = m.detection_host_ip;
  lidar_cmd_port = device.cmd_port;
  lidar_point_port = if has_fixed_ports device.dev_type then 56300 else p.lidar_point_port;
  lidar_imu_data_port = if has_fixed_ports device.dev_type then 56400 else p.lidar_imu_data_port;
  host_point_port = p.host_point_port;
  host_imu_data_port = p.host_imu_data_port;
}

abbrev pub with_ports :
    DeviceManager → ℕ → ViewDevice → Rounds ViewPorts → Rounds (DeviceManager × List Call)
with_ports m handle device running = running
with_ports m handle device fault = fault
with_ports m handle device (done p) =
    let v = view_info m handle device p in
    done (
      record m {
        view_devices = assign handle (record device { is_get = true }) m.view_devices;
        view_lidars_info = assign handle v m.view_lidars_info;
      },
      Call.create_view_data_channel v ∷ Call.update_lidar_cfg v ∷ [],
    )

-- `AddViewLidar`; the fuel bounds the rounds of the loop over the keys.
unfoldable pub add_view_lidar :
    ℕ → DeviceManager → ℕ → Option InternalInfoResponse → Rounds (DeviceManager × List Call)
add_view_lidar fuel m handle none = done (m, [])
add_view_lidar fuel m handle (some r) =
    if not (r.ret_code == 0) then done (m, []) else elim (find handle m.view_devices) [
      | none ↦ done (m, [])
      | some device ↦
          if device.is_get
          then done (m, [])
          else with_ports m handle device (scan fuel 0 r.param_num 0 r.bytes no_ports)
    ]

-- `GetLivoxLidarInternalInfoCallback`, registered with the manager itself as the client's data.
unfoldable pub get_internal_info_callback :
    ℕ
    → DeviceManager
    → LivoxLidarStatus
    → ℕ
    → Option InternalInfoResponse
    → Rounds (DeviceManager × List Call)
get_internal_info_callback fuel m status handle response =
    if is_success status then add_view_lidar fuel m handle response else done (m, [])

-- `UpdateViewLidarCfgCallback`.
unfoldable pub update_view_lidar_cfg_callback : DeviceManager → ℕ → DeviceManager
update_view_lidar_cfg_callback m handle =
    if m.is_view
    then (elim (find handle m.view_devices) [
      | none ↦ m
      | some device ↦ record m {
        view_devices = assign handle (record device { is_set = true }) m.view_devices;
      }
    ])
    else m

-- `GetDeviceType`.
unfoldable pub get_device_type : DeviceManager → ℕ → ℕ
get_device_type m handle = elim (find handle m.lidars_dev_type) [ none ↦ 0 | some t ↦ t ]
