-- ===== src/Callbacks.antt =====
-- The callbacks that an application registers with `GeneralCommandHandler`, and the count of the
-- operations that may call them, by which they are taken away safely
-- (sdk_core/command_handler/general_command_handler.h, general_command_handler.cpp). Each function is
-- what happens under one hold of `callback_state_mutex_`.
pub mod Lifecycle
pub mod Invariant
pub mod Safety
pub mod Tests
use livox_sdk.Base.{
  ℕ, ◌+◌, ◌-◌, ◌%◌, ◌^◌, Bool, true, false, Option, none, some, if◌then◌else◌, ◌==◌,
}

-- A callback, `none` for the null pointer, and the pointer that is handed back to it.
pub record Registration : Type 0 where
  pub callback : Option ℕ
  pub client_data : ℕ

-- The members that the mutex guards.
pub record CallbackState : Type 0 where
  pub active_callback_operations : ℕ
  pub callback_operations_stopped : Bool
  pub livox_lidar_info_change : Registration
  pub livox_lidar_info : Registration
  pub cmd_observer : Registration

abbrev pub null_registration : Registration
null_registration = record { callback = none; client_data = 0 }

abbrev pub initial : CallbackState
initial = record {
  active_callback_operations = 0;
  callback_operations_stopped = false;
  livox_lidar_info_change = null_registration;
  livox_lidar_info = null_registration;
  cmd_observer = null_registration;
}

-- `BeginCallbackOperation`; `none` for false.
unfoldable pub begin_callback_operation : CallbackState → Option CallbackState
begin_callback_operation s =
    if s.callback_operations_stopped
    then none
    else some
        (record s { active_callback_operations = (s.active_callback_operations + 1) % 2 ^ 64 })

-- `EndCallbackOperation`.
unfoldable pub end_callback_operation : CallbackState → CallbackState
end_callback_operation s = record s {
  active_callback_operations = (s.active_callback_operations + (2 ^ 64 - 1)) % 2 ^ 64;
}

-- `EnableCallbackOperations`.
unfoldable pub enable_callback_operations : CallbackState → CallbackState
enable_callback_operations s = record s { callback_operations_stopped = false }

-- `ClearCallbackRegistrations`, up to the wait, and what it waits for.
unfoldable pub clear_callback_registrations : CallbackState → CallbackState
clear_callback_registrations s = record s {
  callback_operations_stopped = true;
  livox_lidar_info_change = null_registration;
  livox_lidar_info = null_registration;
  cmd_observer = null_registration;
}

unfoldable pub is_quiet : CallbackState → Bool
is_quiet s = s.active_callback_operations == 0

unfoldable pub set_livox_lidar_info_change_callback : Registration → CallbackState → CallbackState
set_livox_lidar_info_change_callback r s =
    if s.callback_operations_stopped then s else record s { livox_lidar_info_change = r }

unfoldable pub set_livox_lidar_info_callback : Registration → CallbackState → CallbackState
set_livox_lidar_info_callback r s =
    if s.callback_operations_stopped then s else record s { livox_lidar_info = r }

unfoldable pub livox_lidar_add_cmd_observer : Registration → CallbackState → CallbackState
livox_lidar_add_cmd_observer r s =
    if s.callback_operations_stopped then s else record s { cmd_observer = r }

unfoldable pub livox_lidar_remove_cmd_observer : CallbackState → CallbackState
livox_lidar_remove_cmd_observer s = record s { cmd_observer = null_registration }
