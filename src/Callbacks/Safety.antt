-- ===== src/Callbacks/Safety.antt =====
-- What is true of every state that the threads can reach.
use livox_sdk.Base.{◌≤◌, ◌≡◌, refl, ap, arith, true, none, List, [], ◌∷◌, ◌++◌, length, ◌↔◌}
use livox_sdk.Callbacks.{CallbackState, begin_callback_operation, is_quiet}
use livox_sdk.Callbacks.Lifecycle.{
  Thread, Phase, System, Step, Reach, start, Stopped, Guarded, enter, copy, leave,
}
use livox_sdk.Callbacks.Invariant.{length-between, begun, no_threads, Reach-IsValid, Guarded-closed}

-- In whatever order the threads run: once `ClearCallbackRegistrations` has returned, and until the
-- operations are enabled again, no operation is under way that could still call a callback, none is
-- registered, and none can begin.
pub Reach-closed :
    {t : System}
    → Reach start t
    → t.phase ≡ Phase.closed
    → (t.threads ≡ []) × Stopped t.state × (begin_callback_operation t.state ≡ none)
unfolding begin_callback_operation
Reach-closed {t} r e =
    let (count, small, guard) = Reach-IsValid (refl, omega arith, tt) r in
    let (stopped, quiet) = Guarded-closed t.phase t.state t.threads e guard in
    (quiet, stopped, rw stopped.0 refl)

-- In whatever order the threads run, the counter is the number of the operations that are under way,
-- so that the wait of `ClearCallbackRegistrations` ends exactly when there are none.
pub Reach-count :
    {t : System}
    → Reach start t
    → (t.state.active_callback_operations ≡ length t.threads)
      × ((is_quiet t.state ≡ true) ↔ (t.threads ≡ []))
unfolding is_quiet
Reach-count {t} r =
    let (count, small, guard) = Reach-IsValid (refl, omega arith, tt) r in
    (
      count,
      (
        λ quiet. no_threads t.threads (ground (arith, quiet, count)),
        λ none_left.
            let zero_left : length t.threads ≡ 0 = ap length none_left in
            ground (arith, count, zero_left),
      ),
    )

Guarded-closing :
    (ph : Phase) (c : CallbackState) (threads : List Thread)
    → ph ≡ Phase.closing
    → Guarded ph c threads
    → c.callback_operations_stopped ≡ true
Guarded-closing Phase.enabled c threads e g = absurd (ground (arith, e))
Guarded-closing Phase.closing c threads e g = g.0
Guarded-closing Phase.closed c threads e g = absurd (ground (arith, e))

drains :
    {s t : System}
    → Step s t
    → s.state.callback_operations_stopped ≡ true
    → length t.threads ≤ length s.threads
drains (enter s after e room) stopped = absurd (ground (arith, stopped, (begun s.state after e).0))
drains (copy s before after r e) stopped =
    let long : length s.threads ≡ length (before ++ (Thread.entered ∷ after)) = ap length e in
    omega (
      arith,
      long,
      length-between before after Thread.entered,
      length-between before after (Thread.holding r),
    )
drains (leave s before after t e) stopped =
    let long : length s.threads ≡ length (before ++ (t ∷ after)) = ap length e in
    omega (arith, long, length-between before after t)
drains _ stopped = omega arith

-- While the callbacks are taken away, no step makes the operations under way more.
pub Reach-drains :
    {s t : System}
    → Reach start s
    → s.phase ≡ Phase.closing
    → Step s t
    → length t.threads ≤ length s.threads
Reach-drains {s} r e st =
    let (count, small, guard) = Reach-IsValid (refl, omega arith, tt) r in
    drains st (Guarded-closing s.phase s.state s.threads e guard)
