-- ===== src/Devices/Answers.antt =====
-- What the answers of a device do to what is known of it: the query of its firmware and the request
-- that configures it (sdk_core/command_handler/general_command_handler.cpp, and `UpdateLidarCallback`
-- of hap_command_handler.cpp).
use livox_sdk.Base.{
  ℕ, ◌+◌, Bool, true, false, ◌&&◌, not, Option, none, some, List, [], ◌∷◌, ◌++◌, ltb, ◌==◌,
  if◌then◌else◌,
}
use livox_sdk.Base.Map.{find, assign}
use livox_sdk.Commands.{LivoxLidarStatus, is_success}
use livox_sdk.Devices.{DeviceHandler, DeviceInfo, Effect, GeneralHandler}
use livox_sdk.Devices.Handlers.{add_device_to}

-- `UpdateFwType`.
unfoldable pub update_fw_type : GeneralHandler → ℕ → ℕ → GeneralHandler
update_fw_type g handle fw_type = elim (find handle g.devices) [
  | none ↦ g
  | some info ↦ record g {
    devices =
        assign handle (record info { is_get_loader_mode = true; is_loader_mode = fw_type == 0 })
          g.devices;
  }
]

-- The answer to the query: the return code, and the key with its length and value behind it.
pub record FwResponse : Type 0 where
  pub ret_code : ℕ
  pub key : ℕ
  pub length : ℕ
  pub value : ℕ

abbrev pub ask_again : GeneralHandler → ℕ → GeneralHandler × List Effect
ask_again g handle = (record g { count = g.count + 1 }, Effect.query_fw_type handle ∷ [])

abbrev pub is_good : LivoxLidarStatus → Option FwResponse → Bool
is_good status none = false
is_good status (some r) =
    is_success status && (r.ret_code == 0 && (r.key == 0x8010 && r.length == 1))

abbrev pub fw_value : Option FwResponse → ℕ
fw_value none = 0
fw_value (some r) = r.value

-- `QueryFwTypeCallback`, registered with the handler itself as the client's data.
unfoldable pub query_fw_type_callback :
    GeneralHandler → LivoxLidarStatus → ℕ → Option FwResponse → GeneralHandler × List Effect
query_fw_type_callback g status handle response =
    if ltb 10 g.count
    then (record (update_fw_type g handle 1) { count = 0 }, [])
    else if is_good status response
    then (update_fw_type (record g { count = 0 }) handle (fw_value response), [])
    else ask_again g handle

-- `devices_[handle]`, which inserts a zeroed device where there is none.
abbrev pub or_zeroed : Option DeviceInfo → DeviceInfo
or_zeroed none = record {
  sn = [];
  lidar_ip = [];
  dev_type = 0;
  is_update_cfg = false;
  is_get_loader_mode = false;
  is_loader_mode = false;
  is_callback = false;
}
or_zeroed (some info) = info

-- What is called for a device that changed: the device manager in view mode, and the application if
-- it was not told of the device before.
abbrev pub change_effects : Bool → ℕ → DeviceInfo → List Effect
change_effects is_view handle info =
    (if is_view && not info.is_loader_mode
      then Effect.update_view_lidar_cfg_callback handle ∷ []
      else [])
    ++ (if info.is_callback then [] else Effect.info_change handle info ∷ [])

-- `LivoxLidarInfoChange`, with the device that it works on. It holds no mutex and reads and sets
-- `is_callback` in two operations: this is what it does when no other thread runs it at the same time.
abbrev pub change_found : GeneralHandler → ℕ → DeviceInfo → GeneralHandler × List Effect
change_found g handle info = (
  record g {
    devices = assign handle (record info { is_update_cfg = true; is_callback = true }) g.devices;
  },
  change_effects g.is_view handle info,
)

unfoldable pub livox_lidar_info_change : GeneralHandler → ℕ → GeneralHandler × List Effect
livox_lidar_info_change g handle = change_found g handle (or_zeroed (find handle g.devices))

pub record AsyncControlResponse : Type 0 where
  pub ret_code : ℕ
  pub error_key : ℕ

abbrev pub took_found : GeneralHandler → ℕ → ℕ → Option DeviceHandler → GeneralHandler
took_found g dev_type handle none = g
took_found g dev_type handle (some h) = record g {
  lidars_command_handler = assign dev_type (add_device_to handle h) g.lidars_command_handler;
}

abbrev pub took_configuration : GeneralHandler → ℕ → ℕ → GeneralHandler
took_configuration g dev_type handle =
    took_found g dev_type handle (find dev_type g.lidars_command_handler)

abbrev pub tells : GeneralHandler → ℕ → Bool
tells g dev_type = elim (find dev_type g.lidars_command_handler) [
  | none ↦ false
  | some h ↦ h.profile.tells_failure
]

-- `UpdateLidarCallback` of the handler of a type.
unfoldable pub update_lidar_callback :
    GeneralHandler
    → ℕ
    → LivoxLidarStatus
    → ℕ
    → Option AsyncControlResponse
    → GeneralHandler × List Effect
update_lidar_callback g dev_type status handle none = (g, [])
update_lidar_callback g dev_type status handle (some r) =
    if is_success status
    then (if r.ret_code == 0 && r.error_key == 0
        then livox_lidar_info_change (took_configuration g dev_type handle) handle
        else if tells g dev_type
        then livox_lidar_info_change g handle
        else (g, []))
    else (g, [])
