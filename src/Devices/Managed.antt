-- ===== src/Devices/Managed.antt =====
-- The handlers together with the device manager: `HandleAcceptedDetectionData` of
-- sdk_core/command_handler/general_command_handler.cpp calls `DeviceManager::HandleDetectionData` of
-- sdk_core/device_manager.cpp, which calls `LivoxLidarInfoChange` and `UpdateLidarCfg` of the former.
use livox_sdk.Base.{ℕ, Option, List, [], ◌∷◌, ◌++◌}
use livox_sdk.Commands.{LivoxLidarStatus}
use livox_sdk.Dispatch.{DetectionData}
use livox_sdk.Requests.{Attempt, done, ◌>>=◌}
use livox_sdk.Devices.{Effect, GeneralHandler}
use livox_sdk.Devices.Detection.{handle_accepted_detection_data, update_view_lidar_cfg}
use livox_sdk.Devices.Answers.{AsyncControlResponse, livox_lidar_info_change, update_lidar_callback}
use livox_sdk.Manager.{DeviceManager, Call, handle_detection, update_view_lidar_cfg_callback}

pub record System : Type 0 where
  pub handler : GeneralHandler
  pub manager : DeviceManager

-- What the calls of `UpdateViewLidarCfgCallback` do to the manager.
abbrev pub settle : DeviceManager → List Effect → DeviceManager
settle m [] = m
settle m (Effect.update_view_lidar_cfg_callback handle ∷ es) =
    settle (update_view_lidar_cfg_callback m handle) es
settle m (_ ∷ es) = settle m es

-- A call of the manager.
unfoldable pub run_call : GeneralHandler → Call → Attempt (GeneralHandler × List Effect)
run_call g (Call.get_livox_lidar_internal_info handle) =
    done (g, Effect.query_internal_info handle ∷ [])
run_call g (Call.update_lidar_cfg v) = update_view_lidar_cfg g v >>= λ es. done (g, es)
run_call g (Call.livox_lidar_info_change handle) = done (livox_lidar_info_change g handle)
run_call g (Call.create_view_data_channel v) = done (g, Effect.create_view_data_channel v ∷ [])

unfoldable pub run_calls : System → List Call → Attempt (System × List Effect)
run_calls s [] = done (s, [])
run_calls s (c ∷ cs) = run_call s.handler c >>= λ p.
    run_calls (record { handler = p.0; manager = settle s.manager p.1 }) cs >>= λ q.
    done (q.0, p.1 ++ q.1)

-- `DeviceManager::HandleDetectionData` where it is called, and every other call as it is.
unfoldable pub hand_on : Effect → System → Attempt (System × List Effect)
hand_on (Effect.manager_detection handle detected is_get_loader_mode is_load_mode) s =
    let r = handle_detection s.manager handle detected is_get_loader_mode is_load_mode in
    run_calls (record s { manager = r.0 }) r.1
hand_on e s = done (s, e ∷ [])

unfoldable pub hand_on_all : System → List Effect → Attempt (System × List Effect)
hand_on_all s [] = done (s, [])
hand_on_all s (e ∷ es) = hand_on e s >>= λ p. hand_on_all p.0 es >>= λ q. done (q.0, p.1 ++ q.1)

-- An accepted detection, with all that the manager does.
unfoldable pub detect_device : System → ℕ → DetectionData → List ℕ → Attempt (System × List Effect)
detect_device s handle detected sn =
    handle_accepted_detection_data s.handler handle detected sn >>= λ p.
    hand_on_all (record s { handler = p.0 }) p.1

-- An answer to a configuration, with what the manager notes.
unfoldable pub answer_update :
    System → ℕ → LivoxLidarStatus → ℕ → Option AsyncControlResponse → System × List Effect
answer_update s dev_type status handle response =
    let r = update_lidar_callback s.handler dev_type status handle response in
    (record { handler = r.0; manager = settle s.manager r.1 }, r.1)
