-- ===== src/Callbacks/Lifecycle.antt =====
-- Threads that notify an application while another one takes its callbacks away. The operations are
-- `NotifyLivoxLidarInfoChange`, `NotifyLivoxLidarInfo`, `ParseAndNotifyCommandObserver`, the two
-- `Handler`s and `CommandsHandle`: each begins an operation, may copy a registration, calls it, and
-- ends the operation.
use livox_sdk.Base.{suc, ◌^◌, ◌<◌, ◌≡◌, true, some, List, [], ◌∷◌, ◌++◌, length}
use livox_sdk.Callbacks.{
  Registration, CallbackState, null_registration, initial, begin_callback_operation,
  end_callback_operation, enable_callback_operations, clear_callback_registrations, is_quiet,
  set_livox_lidar_info_change_callback, set_livox_lidar_info_callback, livox_lidar_add_cmd_observer,
  livox_lidar_remove_cmd_observer,
}

-- What an operation that has begun holds: nothing yet, or the copy of a registration.
pub data Thread : Type 0 where
  entered : Thread
  holding : Registration → Thread

-- Callbacks may be registered; they are being taken away; `ClearCallbackRegistrations` has returned,
-- and nobody has enabled them since.
pub data Phase : Type 0 where
  enabled closing closed : Phase

pub record System : Type 0 where
  pub state : CallbackState
  pub threads : List Thread
  pub phase : Phase

abbrev pub start : System
start = record { state = initial; threads = []; phase = Phase.enabled }

-- One step of some thread. There are never 2^64 operations at once. `overtaken` is the return of a
-- `ClearCallbackRegistrations` after the operations were enabled again.
pub data Step : System → System → Type 0 where
  enter :
      (s : System) (next : CallbackState)
      → begin_callback_operation s.state ≡ some next
      → suc (length s.threads) < 2 ^ 64
      → Step s (record s { state = next; threads = Thread.entered ∷ s.threads })
  copy :
      (s : System) (before after : List Thread) (r : Registration)
      → s.threads ≡ before ++ (Thread.entered ∷ after)
      → Step s (record s { threads = before ++ (Thread.holding r ∷ after) })
  leave :
      (s : System) (before after : List Thread) (t : Thread)
      → s.threads ≡ before ++ (t ∷ after)
      → Step s (record s { state = end_callback_operation s.state; threads = before ++ after })
  enable :
      (s : System)
      → Step s (record s { state = enable_callback_operations s.state; phase = Phase.enabled })
  clear :
      (s : System)
      → Step s (record s { state = clear_callback_registrations s.state; phase = Phase.closing })
  cleared :
      (s : System)
      → s.phase ≡ Phase.closing
      → is_quiet s.state ≡ true
      → Step s (record s { phase = Phase.closed })
  overtaken : (s : System) → s.phase ≡ Phase.enabled → is_quiet s.state ≡ true → Step s s
  set_info_change :
      (s : System) (r : Registration)
      → Step s (record s { state = set_livox_lidar_info_change_callback r s.state })
  set_info :
      (s : System) (r : Registration)
      → Step s (record s { state = set_livox_lidar_info_callback r s.state })
  add_observer :
      (s : System) (r : Registration)
      → Step s (record s { state = livox_lidar_add_cmd_observer r s.state })
  remove_observer :
      (s : System) → Step s (record s { state = livox_lidar_remove_cmd_observer s.state })

pub data Reach (s : System) : System → Type 0 where
  here : Reach s s
  then_step : {t u : System} → Reach s t → Step t u → Reach s u

-- Nothing is registered, and nothing can be.
abbrev pub Stopped : CallbackState → Type 0
Stopped c =
    (c.callback_operations_stopped ≡ true)
    × (c.livox_lidar_info_change ≡ null_registration)
    × (c.livox_lidar_info ≡ null_registration)
    × (c.cmd_observer ≡ null_registration)

abbrev pub Guarded : Phase → CallbackState → List Thread → Type 0
Guarded Phase.enabled c threads = Unit {0}
Guarded Phase.closing c threads = Stopped c
Guarded Phase.closed c threads = Stopped c × (threads ≡ [])

-- The counter is the number of the operations that are under way.
abbrev pub IsValid : System → Type 0
IsValid s =
    (s.state.active_callback_operations ≡ length s.threads)
    × (length s.threads < 2 ^ 64)
    × Guarded s.phase s.state s.threads
