-- ===== src/Devices/Tests.antt =====
-- A device that is found, asked, configured, and told of once.
use livox_sdk.Base.{ℕ, ◌≤◌, ◌≡◌, refl, true, false, none, some, List, [], ◌∷◌, ◌++◌, replicate}
use livox_sdk.Base.Map.{find, assign}
use livox_sdk.Commands.{LivoxLidarStatus}
use livox_sdk.Dispatch.{DetectionData}
use livox_sdk.Requests.{done, Request, zeroed}
use livox_sdk.Requests.Address.{ip_to_u8, ip_parts, find_dot, stoi, digits, skip_space}
use livox_sdk.Requests.Build.{build_update_lidar_cfg_request}
use livox_sdk.StateInfo.Keys.{lidar_imu_host_ip_cfg, lidar_point_data_host_ip_cfg}
use livox_sdk.Requests.Message.{request_of, endpoint}
use livox_sdk.Requests.Update.{update-message}
use livox_sdk.Requests.Build.{HostNetInfo, LivoxLidarCfg}
use livox_sdk.Devices.{DeviceHandler, DeviceInfo, Effect, GeneralHandler}
use livox_sdk.Devices.Handlers.{hap_profile, init_custom}
use livox_sdk.Devices.Detection.{
  handle_accepted_detection_data, verify_net_segment, create_command_handler,
}
use livox_sdk.Devices.Answers.{update_fw_type, update_lidar_callback, livox_lidar_info_change}
use livox_sdk.Devices.Steps.{stop, step, detected, update_answered, announced}
use livox_sdk.Manager.{handle_detection}
use livox_sdk.Devices.Managed.{
  System, detect_device, answer_update, hand_on, hand_on_all, run_call, run_calls,
}
use livox_sdk.Devices.Once.{Run-once}
use livox_sdk.Devices.Retry.{answer_all, retry_ends, Answer}
use livox_sdk.Devices.Onboarding.{
  Due, found, taken, ready, detect_again_all, only_told, configured_once,
}

abbrev host : HostNetInfo
host = record {
  host_ip = b'1' ∷ b'.' ∷ b'2' ∷ b'.' ∷ b'3' ∷ b'.' ∷ b'4' ∷ [];
  multicast_ip = [];
  cmd_data_port = 56101;
  push_msg_port = 56201;
  point_data_port = 56301;
  imu_data_port = 56401;
  log_data_port = 56501;
}

abbrev cfg : LivoxLidarCfg
cfg = record {
  device_type = 10;
  lidar_net_info = record {
    lidar_ipaddr = [];
    lidar_subnet_mask = [];
    lidar_gateway = [];
    cmd_data_port = 56000;
    push_msg_port = 56000;
    point_data_port = 57000;
    imu_data_port = 58000;
    log_data_port = 59000;
  };
  host_net_info = host;
  cmd_key_set = [];
}

abbrev idle : DeviceHandler
idle = record { profile = hap_profile; is_view = false; custom_lidars = []; devices = [] }

abbrev info : DeviceInfo
info = record {
  sn = b'S' ∷ [];
  lidar_ip = [];
  dev_type = 10;
  is_update_cfg = false;
  is_get_loader_mode = true;
  is_loader_mode = false;
  is_callback = false;
}

abbrev g : GeneralHandler
g = record {
  is_view = false;
  master_sdk = true;
  detection_host_ip = [];
  custom_lidars_cfg = (77, cfg) ∷ [];
  lidars_command_handler = (10, idle) ∷ [];
  device_dev_type = (77, 10) ∷ [];
  devices = (77, info) ∷ [];
  count = 0;
}

abbrev detection : DetectionData
detection = record {
  ret_code = 0;
  dev_type = 10;
  sn = b'S' ∷ [];
  lidar_ip = 1 ∷ 2 ∷ 3 ∷ 9 ∷ [];
  cmd_port = 56000;
}

abbrev request : Request
request = request_of (
    endpoint lidar_point_data_host_ip_cfg (1 ∷ 2 ∷ 3 ∷ 4 ∷ []) 56301 57000
    ∷ endpoint lidar_imu_host_ip_cfg (1 ∷ 2 ∷ 3 ∷ 4 ∷ []) 56401 58000
    ∷ [])

built : build_update_lidar_cfg_request cfg zeroed ≡ done request
unfolding ip_to_u8 ip_parts find_dot stoi digits skip_space
built = update-message cfg

due : Due g 77 detection idle info cfg request
unfolding init_custom find assign hap_profile
due = record {
  direct = refl;
  master = refl;
  known = refl;
  handler = refl;
  device = refl;
  fresh = refl;
  asked = refl;
  running = refl;
  not_taken = refl;
  configured = refl;
  built = built;
}

abbrev thrice : List (DetectionData × List ℕ)
thrice = (detection, []) ∷ (detection, b'S' ∷ []) ∷ (detection, []) ∷ []

configured_once_example :
    (handle_accepted_detection_data g 77 detection (b'S' ∷ [])
      ≡ done (
        found g detection idle,
        Effect.add_device 77 detection
            ∷ Effect.update_request (ready g idle).profile.device_type 77 56000 request
            ∷ Effect.manager_detection 77 detection true false
            ∷ [],
      ))
    × (update_lidar_callback
          (found g detection idle)
          10
          LivoxLidarStatus.success
          77
          (some (record { ret_code = 0; error_key = 0 }))
        ≡ (taken g 77 detection idle info, Effect.info_change 77 info ∷ []))
    × ((g' : GeneralHandler) × (detect_again_all (taken g 77 detection idle info) 77 thrice
          ≡ done (g', only_told 77 info thrice)))
configured_once_example =
    configured_once g 77 detection idle info cfg request (b'S' ∷ []) thrice due
      (refl, (refl, (refl, tt)))

abbrev failed : Answer
failed = (LivoxLidarStatus.timeout, none)

retry_ends_example :
    answer_all g 77 (replicate 11 failed ++ (failed ∷ []))
    ≡ (record (update_fw_type g 77 1) { count = 0 }, replicate 11 (Effect.query_fw_type 77))
retry_ends_example =
    retry_ends g 77 (replicate 11 failed) failed refl refl
      (refl, (refl, (refl, (refl, (refl, (refl, (refl, (refl, (refl, (refl, (refl, tt)))))))))))

-- A device whose firmware is the loader, outside of view mode: the device manager has it announced.
abbrev loading : System
loading = record {
  handler = record g { devices = (77, record info { is_loader_mode = true }) ∷ [] };
  manager = record {
    is_view = false;
    detection_host_ip = [];
    view_devices = [];
    view_lidars_info = [];
    lidars_dev_type = [];
  };
}

abbrev told_of : System
told_of = record {
  handler = record g {
    lidars_command_handler = (10, ready g idle) ∷ [];
    devices =
        (77, record info { is_loader_mode = true; is_update_cfg = true; is_callback = true }) ∷ [];
  };
  manager = record loading.manager { lidars_dev_type = (77, 10) ∷ [] };
}

abbrev first_effects : List Effect
first_effects =
    Effect.add_device 77 detection
    ∷ Effect.info_change 77 (record info { is_loader_mode = true })
    ∷ []

loader_told : detect_device loading 77 detection [] ≡ done (told_of, first_effects)
unfolding detect_device handle_accepted_detection_data verify_net_segment create_command_handler
    hand_on_all hand_on run_calls run_call handle_detection livox_lidar_info_change find assign
loader_told = refl

abbrev accepts : System × List Effect
accepts =
    answer_update told_of 10 LivoxLidarStatus.success 77
      (some (record { ret_code = 0; error_key = 0 }))

Run-once_example : announced 77 (first_effects ++ (accepts.1 ++ [])) ≤ 1
Run-once_example = Run-once 77 loading (first_effects ++ (accepts.1 ++ [])) accepts.0 (
    step (detected 77 detection [] loader_told) (
      step
        (update_answered 10 LivoxLidarStatus.success 77
          (some (record { ret_code = 0; error_key = 0 })))
        stop))
