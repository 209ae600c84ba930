-- ===== src/Manager/View.antt =====
-- A device in view mode (sdk_core/device_manager.cpp): it is asked for its ports, given its
-- configuration until the answer comes, and left alone.
use livox_sdk.Base.{ℕ, ◌≡◌, true, false, some, List, [], ◌∷◌, ◌++◌, length, if◌then◌else◌}
use livox_sdk.Base.Map.{Map, find, assign}
use livox_sdk.Dispatch.{DetectionData}
use livox_sdk.Requests.Build.{ViewLidarIpInfo}
use livox_sdk.Manager.{
  ViewDevice, has_fixed_ports, DeviceManager, Call, handle_detection, InternalInfoResponse,
}
use livox_sdk.Manager.Scan.{no_ports}
use livox_sdk.Manager.Ports.{Param, encode, ports_of}

-- What is called when a device is detected whose firmware runs the application.
abbrev pub calls : DeviceManager → ℕ → DetectionData → List Call
calls m handle detected = (handle_detection m handle detected true false).1

-- The entry that a first detection makes.
abbrev pub entry : ℕ → DetectionData → ViewDevice
entry handle first = record {
  handle = handle;
  dev_type = first.dev_type;
  cmd_port = first.cmd_port;
  is_get = false;
  is_set = false;
}

-- The configuration of a device, by the keys of its answer: its type and port are those of the entry,
-- the ports of the host those of the keys, and its own ports fixed for the four types of the
-- Mid-360 family and the Avia 2.
abbrev pub configuration : DeviceManager → ℕ → ViewDevice → List Param → ViewLidarIpInfo
configuration m handle device qs = record {
  handle = handle;
  dev_type = device.dev_type;
  host_ip = m.detection_host_ip;
  lidar_cmd_port = device.cmd_port;
  lidar_point_port =
      if has_fixed_ports device.dev_type then 56300 else (ports_of qs no_ports).lidar_point_port;
  lidar_imu_data_port =
      if has_fixed_ports device.dev_type then 56400 else (ports_of qs no_ports).lidar_imu_data_port;
  host_point_port = (ports_of qs no_ports).host_point_port;
  host_imu_data_port = (ports_of qs no_ports).host_imu_data_port;
}

-- The manager after the answer, and after the device took its configuration.
abbrev pub asked : DeviceManager → ℕ → ViewDevice → List Param → DeviceManager
asked m handle device qs = record m {
  view_devices = assign handle (record device { is_get = true }) m.view_devices;
  view_lidars_info = assign handle (configuration m handle device qs) m.view_lidars_info;
}

abbrev pub answer : List Param → List ℕ → InternalInfoResponse
answer qs rest = record { ret_code = 0; param_num = length qs; bytes = encode qs ++ rest }

-- The same calls for each detection.
abbrev pub repeat : List DetectionData → List Call → List Call
repeat [] xs = []
repeat (d ∷ ds) xs = xs ++ repeat ds xs

-- What the manager knows of a device in view mode.
abbrev Views : ℕ → ViewDevice → ViewLidarIpInfo → DeviceManager → Type 0
Views handle device v m =
    (m.is_view ≡ true)
    × (find handle m.view_devices ≡ some device)
    × (find handle m.view_lidars_info ≡ some v)

-- The manager after detections of a device, and what is called then.
abbrev pub detect_each : DeviceManager → ℕ → List DetectionData → DeviceManager
detect_each m handle [] = m
detect_each m handle (d ∷ ds) = detect_each (handle_detection m handle d true false).0 handle ds

abbrev pub all_calls : DeviceManager → ℕ → List DetectionData → List Call
all_calls m handle [] = []
all_calls m handle (d ∷ ds) =
    calls m handle d ++ all_calls (handle_detection m handle d true false).0 handle ds

-- After the first detection.
abbrev pub seen : DeviceManager → ℕ → DetectionData → DeviceManager
seen m handle first = record m { view_devices = assign handle (entry handle first) m.view_devices }
