-- ===== src/Devices/Handlers.antt =====
-- The operations of a handler of one device type: sdk_core/command_handler/hap_command_handler.cpp,
-- which the handlers of the other types repeat.
use livox_sdk.Base.{
  ℕ, Bool, true, false, ◌&&◌, Option, none, some, List, [], ◌∷◌, ◌==◌, if◌then◌else◌,
}
use livox_sdk.Base.Map.{Map, find, assign}
use livox_sdk.Base.Outcome.{Outcome, reject, ok}
use livox_sdk.StateInfo.Text.{Event}
use livox_sdk.StateInfo.Json.{parse}
use livox_sdk.Commands.{
  Call, Command, Commands, LivoxLidarStatus, Sent, Transport, add_command, device_send_command,
  invoke, command_type_ack,
}
use livox_sdk.Requests.{Attempt, fault, thrown, refused, done, Request, zeroed}
use livox_sdk.Requests.Build.{
  LivoxLidarCfg, ViewLidarIpInfo, build_update_view_lidar_cfg_request,
  build_update_lidar_cfg_request, build_update_mid360_lidar_cfg_request,
  build_update_mid360l_lidar_cfg_request, build_update_avia2_lidar_cfg_request,
}
use livox_sdk.Devices.{Profile, DeviceHandler, Effect}

unfoldable pub hap_profile : Profile
hap_profile = record {
  device_type = 10;
  push_msg_port = 56000;
  cmd_port = 56000;
  log_port = 59000;
  build_update = build_update_lidar_cfg_request;
  tells_failure = true;
}

unfoldable pub mid360_profile : Profile
mid360_profile = record {
  device_type = 9;
  push_msg_port = 56200;
  cmd_port = 56100;
  log_port = 56500;
  build_update = build_update_mid360_lidar_cfg_request;
  tells_failure = false;
}

unfoldable pub mid360s_profile : Profile
mid360s_profile = record {
  device_type = 35;
  push_msg_port = 56200;
  cmd_port = 56100;
  log_port = 56500;
  build_update = build_update_mid360_lidar_cfg_request;
  tells_failure = false;
}

unfoldable pub avia2_profile : Profile
avia2_profile = record {
  device_type = 40;
  push_msg_port = 56200;
  cmd_port = 56100;
  log_port = 56500;
  build_update = build_update_avia2_lidar_cfg_request;
  tells_failure = false;
}

unfoldable pub mid360l_profile : Profile
mid360l_profile = record {
  device_type = 41;
  push_msg_port = 56200;
  cmd_port = 56100;
  log_port = 56500;
  build_update = build_update_mid360l_lidar_cfg_request;
  tells_failure = false;
}

-- A new handler, and `Init(is_view)`.
unfoldable pub init_view : Profile → Bool → DeviceHandler
init_view p is_view = record { profile = p; is_view = is_view; custom_lidars = []; devices = [] }

-- `Init(custom_lidars_cfg_map)`: one round of the loop over the configurations, and the loop.
abbrev pub init_one : ℕ → LivoxLidarCfg → DeviceHandler → DeviceHandler
init_one k cfg h =
    if cfg.device_type == h.profile.device_type
    then elim (find k h.custom_lidars) [
      | none ↦ record h { custom_lidars = assign k cfg h.custom_lidars }
      | some _ ↦ h
    ]
    else h

unfoldable pub init_custom : Map LivoxLidarCfg → DeviceHandler → DeviceHandler
init_custom [] h = h
init_custom ((k, cfg) ∷ cfgs) h = init_custom cfgs (init_one k cfg h)

unfoldable pub on_command_ack : ℕ → Command → List Call
on_command_ack handle c = elim c.packet.payload [
  | none ↦ invoke c.cb LivoxLidarStatus.timeout handle none
  | some bs ↦ invoke c.cb LivoxLidarStatus.success handle (some bs)
]

-- `PushLivoxLidarInfo`, with the types of the devices; a text of no calls is the empty one, which is
-- what a message that is refused leaves.
abbrev pub push_livox_lidar_info : Map ℕ → ℕ → Outcome (List Event) → Outcome (List Effect)
push_livox_lidar_info types handle info = elim (find handle types) [
  | none ↦ ok []
  | some dev_type ↦ elim info [
    | Outcome.fault ↦ Outcome.fault
    | reject ↦ ok (Effect.lidar_info handle dev_type [] ∷ [])
    | ok text ↦ ok (Effect.lidar_info handle dev_type text ∷ [])
  ]
]

unfoldable pub on_command_cmd : Map ℕ → Profile → ℕ → ℕ → Command → Outcome (List Effect)
on_command_cmd types p handle lidar_port c =
    if (c.packet.cmd_id == 0x0102) && (lidar_port == p.push_msg_port)
    then push_livox_lidar_info types handle (parse c.packet)
    else ok []

-- A built request is sent to the command port of the device; without one nothing happens.
abbrev pub send_update : ℕ → ℕ → ℕ → Attempt Request → Attempt (List Effect)
send_update dev_type handle port fault = fault
send_update dev_type handle port thrown = thrown
send_update dev_type handle port refused = done []
send_update dev_type handle port (done r) = done (Effect.update_request dev_type handle port r ∷ [])

unfoldable pub set_view_lidar : Profile → ViewLidarIpInfo → Attempt (List Effect)
set_view_lidar p v =
    send_update p.device_type v.handle v.lidar_cmd_port
      (build_update_view_lidar_cfg_request v zeroed)

unfoldable pub set_custom_lidar : Profile → ℕ → ℕ → LivoxLidarCfg → Attempt (List Effect)
set_custom_lidar p handle lidar_cmd_port cfg =
    send_update p.device_type handle lidar_cmd_port (p.build_update cfg zeroed)

-- `UpdateLidarCfg(view_lidar_info)`.
unfoldable pub update_view_cfg : DeviceHandler → ViewLidarIpInfo → Attempt (List Effect)
update_view_cfg h v = elim (find v.handle h.devices) [
  | none ↦ set_view_lidar h.profile v
  | some _ ↦ done []
]

-- `UpdateLidarCfg(handle, lidar_cmd_port)`.
unfoldable pub update_custom_cfg : DeviceHandler → ℕ → ℕ → Attempt (List Effect)
update_custom_cfg h handle lidar_cmd_port = elim (find handle h.devices) [
  | some _ ↦ done []
  | none ↦ elim (find handle h.custom_lidars) [
    | none ↦ done []
    | some cfg ↦ set_custom_lidar h.profile handle lidar_cmd_port cfg
  ]
]

-- `AddDevice`.
unfoldable pub add_device_to : ℕ → DeviceHandler → DeviceHandler
add_device_to handle h = record h { devices = assign handle tt h.devices }

-- `SendCommand(command, lidar_cmd_port)`, which a request for an update goes through. The port is
-- known to the transport.
unfoldable pub send_command_to : Transport → ℕ → Command → Commands → Option Sent
send_command_to t now c m =
    if c.packet.cmd_type == command_type_ack
    then some (record { status = LivoxLidarStatus.failure; calls = []; commands = m })
    else device_send_command t c (add_command now c m)
