-- ===== src/Devices/Detection.antt =====
-- The detection of a device in sdk_core/command_handler/general_command_handler.cpp, and what is sent
-- to it then.
use livox_sdk.Base.{
  ℕ, Bool, true, false, ◌&&◌, ◌||◌, not, Option, none, some, List, [], ◌∷◌, ◌++◌, ◌==◌,
  if◌then◌else◌,
}
use livox_sdk.Base.Map.{Map, find, assign}
use livox_sdk.Dispatch.{DetectionData}
use livox_sdk.StateInfo.Values.{ip_str}
use livox_sdk.Requests.{Attempt, fault, thrown, refused, done, ◌>>=◌}
use livox_sdk.Requests.Address.{ip_to_u8}
use livox_sdk.Requests.Build.{ViewLidarIpInfo, is_empty}
use livox_sdk.Devices.{Profile, DeviceHandler, DeviceInfo, Effect, GeneralHandler}
use livox_sdk.Devices.Handlers.{
  hap_profile, mid360_profile, mid360s_profile, avia2_profile, mid360l_profile, init_view,
  init_custom, update_view_cfg, update_custom_cfg,
}

-- The class of the handlers of a type.
abbrev pub profile_of : ℕ → Option Profile
profile_of dev_type =
    if dev_type == 10
    then some hap_profile
    else if dev_type == 9
    then some mid360_profile
    else if dev_type == 35
    then some mid360s_profile
    else if dev_type == 40
    then some avia2_profile
    else if dev_type == 41
    then some mid360l_profile
    else none

abbrev pub same_segment : List ℕ → List ℕ → Bool
same_segment (a ∷ b ∷ c ∷ v) (x ∷ y ∷ z ∷ w) = a == x && (b == y && c == z)
same_segment _ _ = false

-- `VerifyNetSegment`.
unfoldable pub verify_net_segment : GeneralHandler → DetectionData → Attempt Bool
verify_net_segment g detected =
    if g.is_view
    then (if is_empty g.detection_host_ip then done false else elim (ip_to_u8 g.detection_host_ip) [
      | fault ↦ fault
      | thrown ↦ thrown
      | refused ↦ done false
      | done v ↦ done (same_segment v detected.lidar_ip)
    ])
    else done true

-- `CreateCommandHandler`: a handler that is missing is made for a view; else it is there, and gets the
-- configurations. `operator[]` gives a null pointer for a missing one, which is a fault.
abbrev pub init_found : GeneralHandler → ℕ → Option DeviceHandler → Attempt GeneralHandler
init_found g dev_type none = fault
init_found g dev_type (some h) = done (record g {
  lidars_command_handler =
      assign dev_type (init_custom g.custom_lidars_cfg h) g.lidars_command_handler;
})

abbrev pub make_view : GeneralHandler → ℕ → Option Profile → GeneralHandler
make_view g dev_type none = g
make_view g dev_type (some p) = record g {
  lidars_command_handler = assign dev_type (init_view p g.is_view) g.lidars_command_handler;
}

abbrev pub is_known : ℕ → Bool
is_known t = t == 10 || (t == 9 || (t == 16 || (t == 35 || (t == 40 || t == 41))))

unfoldable pub create_command_handler : GeneralHandler → ℕ → Attempt GeneralHandler
create_command_handler g dev_type =
    if not g.is_view
    then (if is_known dev_type
        then init_found g dev_type (find dev_type g.lidars_command_handler)
        else done g)
    else elim (find dev_type g.lidars_command_handler) [
      | none ↦ done (make_view g dev_type (profile_of dev_type))
      | some _ ↦ done g
    ]

-- `UpdateLidarCfg(view_lidar_info)` and `UpdateLidarCfg(dev_type, handle, lidar_cmd_port)`.
unfoldable pub update_view_lidar_cfg : GeneralHandler → ViewLidarIpInfo → Attempt (List Effect)
update_view_lidar_cfg g v = elim (find v.dev_type g.lidars_command_handler) [
  | none ↦ done []
  | some h ↦ if g.master_sdk then update_view_cfg h v else done []
]

unfoldable pub update_lidar_cfg : GeneralHandler → ℕ → ℕ → ℕ → Attempt (List Effect)
update_lidar_cfg g dev_type handle lidar_cmd_port = elim (find dev_type g.lidars_command_handler) [
  | none ↦ done []
  | some h ↦ if g.master_sdk then update_custom_cfg h handle lidar_cmd_port else done []
]

-- `GetFirmwareType`, for a device whose firmware is not known.
abbrev pub get_firmware_type : GeneralHandler → ℕ → List Effect
get_firmware_type g handle = if g.master_sdk then Effect.query_fw_type handle ∷ [] else []

abbrev pub new_info : DetectionData → List ℕ → DeviceInfo
new_info detected sn = record {
  sn = sn;
  lidar_ip = ip_str detected.lidar_ip;
  dev_type = detected.dev_type;
  is_update_cfg = false;
  is_get_loader_mode = false;
  is_loader_mode = false;
  is_callback = false;
}

abbrev pub keep_type : ℕ → ℕ → Map ℕ → Map ℕ
keep_type handle dev_type types = elim (find handle types) [
  | none ↦ assign handle dev_type types
  | some _ ↦ types
]

-- Whether a device that is known is due to be configured.
abbrev pub is_due : GeneralHandler → DeviceInfo → Bool
is_due g info =
    not info.is_update_cfg
    && (info.is_get_loader_mode && (not info.is_loader_mode && not g.is_view))

-- The branches of `HandleAcceptedDetectionData` for a device that is known and for a new one.
abbrev pub detect_again :
    GeneralHandler → ℕ → DetectionData → DeviceInfo → Attempt (GeneralHandler × List Effect)
detect_again g handle detected info = do
  effects ←
      if is_due g info
      then update_lidar_cfg g detected.dev_type handle detected.cmd_port
      else done []
  done (
    g,
    effects
        ++ (Effect.manager_detection handle detected info.is_get_loader_mode info.is_loader_mode
            ∷ []),
  )

abbrev pub detect_new : GeneralHandler → ℕ → DetectionData → List ℕ → GeneralHandler × List Effect
detect_new g handle detected sn = (
  record g {
    device_dev_type = keep_type handle detected.dev_type g.device_dev_type;
    devices = assign handle (new_info detected sn) g.devices;
  },
  get_firmware_type g handle,
)

abbrev pub detect_found :
    ℕ
    → DetectionData
    → List ℕ
    → GeneralHandler
    → Option DeviceInfo
    → Attempt (GeneralHandler × List Effect)
detect_found handle detected sn g none = done (detect_new g handle detected sn)
detect_found handle detected sn g (some info) = detect_again g handle detected info

abbrev pub detect :
    ℕ → DetectionData → List ℕ → GeneralHandler → Attempt (GeneralHandler × List Effect)
detect handle detected sn g = detect_found handle detected sn g (find handle g.devices)

-- `HandleAcceptedDetectionData`, behind the managers of the log files and the debug point clouds,
-- which are told first. The call of the device manager, the last one, is left as an effect here;
-- Devices/Managed runs it.
unfoldable pub handle_accepted_detection_data :
    GeneralHandler → ℕ → DetectionData → List ℕ → Attempt (GeneralHandler × List Effect)
handle_accepted_detection_data g handle detected sn = do
  verified ← verify_net_segment g detected
  (rest, effects) ←
      if verified
      then (create_command_handler g detected.dev_type >>= detect handle detected sn)
      else done (g, [])
  done (rest, Effect.add_device handle detected ∷ effects)
