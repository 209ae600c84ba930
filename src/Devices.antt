-- ===== src/Devices.antt =====
-- The devices that sdk_core/command_handler knows: the handlers of the device types
-- (hap_command_handler.cpp, mid360_command_handler.cpp, mid360s_command_handler.cpp,
-- avia2_command_handler.cpp, mid360l_command_handler.cpp), which differ in constants, and what
-- general_command_handler.cpp keeps of each device.
pub mod Handlers
pub mod Classes
pub mod Detection
pub mod Answers
pub mod Managed
pub mod Steps
pub mod Silence
pub mod Once
pub mod Retry
pub mod Onboarding
pub mod Tests
use livox_sdk.Base.{ℕ, Bool, false, Option, none, some, List, [], ◌==◌, if◌then◌else◌}
use livox_sdk.Base.Map.{Map}
use livox_sdk.StateInfo.Text.{Event}
use livox_sdk.Dispatch.{DetectionData}
use livox_sdk.Requests.{Attempt, Request}
use livox_sdk.Requests.Build.{LivoxLidarCfg, ViewLidarIpInfo}

pub record DeviceInfo : Type 0 where
  pub sn : List ℕ
  pub lidar_ip : List ℕ
  pub dev_type : ℕ
  pub is_update_cfg : Bool
  pub is_get_loader_mode : Bool
  pub is_loader_mode : Bool
  pub is_callback : Bool

-- What one of the classes of handlers has of its own: its device type, the port from which devices
-- push messages, the ports that it sends to, the request that configures a device, and whether a
-- refused configuration is reported too.
pub record Profile : Type 0 where
  pub device_type : ℕ
  pub push_msg_port : ℕ
  pub cmd_port : ℕ
  pub log_port : ℕ
  pub build_update : LivoxLidarCfg → Request → Attempt Request
  pub tells_failure : Bool

-- A handler: `custom_lidars_`, and `devices_`, the devices that took their configuration.
pub record DeviceHandler : Type 0 where
  pub profile : Profile
  pub is_view : Bool
  pub custom_lidars : Map LivoxLidarCfg
  pub devices : Map (Unit {0})

-- What the handlers call: the sending of a request to a device's command port, the query of a
-- device's firmware, the callbacks of the application, the device manager, and the managers of the
-- log files and the debug point clouds; and what the device manager calls besides: the query of the
-- internal information, and the creation of a data channel. A text is the list of the calls that write it.
pub data Effect : Type 0 where
  update_request : ℕ → ℕ → ℕ → Request → Effect
  query_fw_type : ℕ → Effect
  info_change : ℕ → DeviceInfo → Effect
  lidar_info : ℕ → ℕ → List Event → Effect
  update_view_lidar_cfg_callback : ℕ → Effect
  manager_detection : ℕ → DetectionData → Bool → Bool → Effect
  add_device : ℕ → DetectionData → Effect
  query_internal_info : ℕ → Effect
  create_view_data_channel : ViewLidarIpInfo → Effect

-- The state of `GeneralCommandHandler`: `count` is the counter of `QueryFwTypeCallback`, and
-- `master_sdk` stands in the configuration of the device manager.
pub record GeneralHandler : Type 0 where
  pub is_view : Bool
  pub master_sdk : Bool
  pub detection_host_ip : List ℕ
  pub custom_lidars_cfg : Map LivoxLidarCfg
  pub lidars_command_handler : Map DeviceHandler
  pub device_dev_type : Map ℕ
  pub devices : Map DeviceInfo
  pub count : ℕ
