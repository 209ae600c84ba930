-- ===== src/Callbacks/Tests.antt =====
-- A notification that is under way while its callback is taken away.
use livox_sdk.Base.{ℕ, ◌≡◌, ◌↔◌, refl, arith, true, false, none, some, [], ◌∷◌, length}
use livox_sdk.Callbacks.{
  Registration, CallbackState, null_registration, begin_callback_operation, is_quiet,
  end_callback_operation, clear_callback_registrations, set_livox_lidar_info_callback,
}
use livox_sdk.Callbacks.Lifecycle.{Thread, Phase, System, Step, Reach, start, Stopped}
use livox_sdk.Callbacks.Safety.{Reach-closed, Reach-count}

abbrev handler : Registration
handler = record { callback = some 5; client_data = 8 }

abbrev state_with : Registration → ℕ → CallbackState
state_with r n = record {
  active_callback_operations = n;
  callback_operations_stopped = false;
  livox_lidar_info_change = null_registration;
  livox_lidar_info = r;
  cmd_observer = null_registration;
}

abbrev registered : System
registered = record { state = state_with handler 0; threads = []; phase = Phase.enabled }

abbrev notifying : System
notifying = record {
  state = state_with handler 1;
  threads = Thread.entered ∷ [];
  phase = Phase.enabled;
}

abbrev calling : System
calling = record {
  state = state_with handler 1;
  threads = Thread.holding handler ∷ [];
  phase = Phase.enabled;
}

abbrev waiting : System
waiting = record calling {
  state = record (state_with null_registration 1) { callback_operations_stopped = true };
  phase = Phase.closing;
}

abbrev drained : System
drained = record waiting {
  state = record (state_with null_registration 0) { callback_operations_stopped = true };
  threads = [];
}

to_waiting : Reach start waiting
unfolding begin_callback_operation clear_callback_registrations set_livox_lidar_info_callback
to_waiting =
    Reach.then_step
      (Reach.then_step
        (Reach.then_step (Reach.then_step Reach.here (Step.set_info start handler))
          (Step.enter registered (state_with handler 1) refl (omega arith)))
        (Step.copy notifying [] [] handler refl))
      (Step.clear calling)

last_leaves : Step waiting drained
unfolding end_callback_operation
last_leaves = Step.leave waiting [] [] (Thread.holding handler) refl

to_closed : Reach start (record drained { phase = Phase.closed })
unfolding is_quiet
to_closed =
    Reach.then_step (Reach.then_step to_waiting last_leaves) (Step.cleared drained refl refl)

Reach-closed_example :
    (drained.threads ≡ []) × Stopped drained.state × (begin_callback_operation drained.state ≡ none)
Reach-closed_example = Reach-closed to_closed refl

Reach-count_example :
    (waiting.state.active_callback_operations ≡ length waiting.threads)
    × ((is_quiet waiting.state ≡ true) ↔ (waiting.threads ≡ []))
Reach-count_example = Reach-count to_waiting
