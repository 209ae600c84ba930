-- ===== src/Devices/Classes.antt =====
-- The classes behind `CommandHandler` (sdk_core/command_handler/command_handler.h): their operations
-- are the same functions, over what each class has of its own.
use livox_sdk.Base.{ℕ, Bool, List, [], ◌==◌, if◌then◌else◌}
use livox_sdk.Base.Map.{Map}
use livox_sdk.Base.Outcome.{Outcome, ok, ◌>>=◌}
use livox_sdk.Commands.{Call, Command, command_type_ack, command_type_cmd}
use livox_sdk.Requests.{Attempt}
use livox_sdk.Requests.Build.{LivoxLidarCfg, ViewLidarIpInfo}
use livox_sdk.Devices.{Profile, DeviceHandler, Effect}
use livox_sdk.Devices.Handlers.{
  hap_profile, mid360_profile, mid360s_profile, avia2_profile, mid360l_profile, init_view,
  init_custom, on_command_ack, on_command_cmd, update_view_cfg, update_custom_cfg,
}

pub record CommandHandler : Type 0 where
  pub init_view : Bool → DeviceHandler
  pub init_custom : Map LivoxLidarCfg → DeviceHandler → DeviceHandler
  pub handle : Map ℕ → ℕ → ℕ → Command → Outcome (List Call × List Effect)
  pub update_view_cfg : DeviceHandler → ViewLidarIpInfo → Attempt (List Effect)
  pub update_custom_cfg : DeviceHandler → ℕ → ℕ → Attempt (List Effect)

-- `Handle`: an answer goes to its callback, a command is taken for a push.
unfoldable pub handle_command :
    Profile → Map ℕ → ℕ → ℕ → Command → Outcome (List Call × List Effect)
handle_command p types handle lidar_port c =
    if c.packet.cmd_type == command_type_ack
    then ok (on_command_ack handle c, [])
    else if c.packet.cmd_type == command_type_cmd
    then (on_command_cmd types p handle lidar_port c >>= λ effects. ok ([], effects))
    else ok ([], [])

abbrev pub class_of : Profile → CommandHandler
class_of p = record {
  init_view = init_view p;
  init_custom = init_custom;
  handle = handle_command p;
  update_view_cfg = update_view_cfg;
  update_custom_cfg = update_custom_cfg;
}

unfoldable pub hap_command_handler : CommandHandler
hap_command_handler = class_of hap_profile

unfoldable pub mid360_command_handler : CommandHandler
mid360_command_handler = class_of mid360_profile

unfoldable pub mid360s_command_handler : CommandHandler
mid360s_command_handler = class_of mid360s_profile

unfoldable pub avia2_command_handler : CommandHandler
avia2_command_handler = class_of avia2_profile

unfoldable pub mid360l_command_handler : CommandHandler
mid360l_command_handler = class_of mid360l_profile
