-- ===== src/Manager/Tests.antt =====
-- A device in view mode with two keys in its answer, and devices outside of view mode.
use livox_sdk.Base.{◌≡◌, refl, arith, true, false, List, [], ◌∷◌, ◌++◌, replicate}
use livox_sdk.Base.Map.{find, assign}
use livox_sdk.Dispatch.{DetectionData}
use livox_sdk.Manager.{DeviceManager, ViewDevice, handle_detection}
use livox_sdk.Manager.Scan.{done, scan, no_ports}
use livox_sdk.Manager.Ports.{
  Param, point_data_host, imu_data_host, other, encode, ports_of, scan_endless, scan-encode,
}
use livox_sdk.Manager.View.{configuration}

abbrev params : List Param
params =
    other 18 (1 ∷ 2 ∷ [])
    ∷ point_data_host 192 168 1 5 57000 56300 []
    ∷ imu_data_host 192 168 1 5 58000 56400 []
    ∷ []

abbrev detected : DetectionData
detected = record {
  ret_code = 0;
  dev_type = 9;
  sn = b'S' ∷ [];
  lidar_ip = 192 ∷ 168 ∷ 1 ∷ 100 ∷ [];
  cmd_port = 56100;
}

abbrev device : ViewDevice
device = record { handle = 7; dev_type = 9; cmd_port = 56100; is_get = false; is_set = false }

abbrev empty : DeviceManager
empty = record {
  is_view = false;
  detection_host_ip = b'1' ∷ [];
  view_devices = [];
  view_lidars_info = [];
  lidars_dev_type = [];
}

abbrev viewing : DeviceManager
viewing = record empty { is_view = true; view_devices = (7, device) ∷ [] }

-- The first detection makes the entry.
first_detection :
    (handle_detection (record empty { is_view = true }) 7 detected true false).0 ≡ viewing
unfolding handle_detection find assign
first_detection = refl

-- The ports of the answer, and those of the type.
configured : configuration viewing 7 device params ≡ record {
  handle = 7;
  dev_type = 9;
  host_ip = b'1' ∷ [];
  lidar_cmd_port = 56100;
  lidar_point_port = 56300;
  lidar_imu_data_port = 56400;
  host_point_port = 57000;
  host_imu_data_port = 58000;
}
configured = refl

scan_endless_example : ¬ (scan 1000 0 300 0 (replicate 5000 0) no_ports ≡ done no_ports)
scan_endless_example =
    scan_endless 1000 0 300 0 (replicate 5000 0) no_ports no_ports (omega arith) (omega arith)

scan-encode_example :
    scan 3 0 3 0 (encode params ++ (9 ∷ [])) no_ports ≡ done (ports_of params no_ports)
scan-encode_example =
    scan-encode params (9 ∷ [])
      ((omega arith, refl, refl), ((omega arith, omega arith), ((omega arith, omega arith), tt)))
      (omega arith) (omega arith)

abbrev blank : DeviceManager
blank = record empty { is_view = true }
