-- ===== src/Callbacks/Invariant.antt =====
-- Every step keeps the count of the operations and what is true while the callbacks are taken away.
use livox_sdk.Base.{
  suc, ◌+◌, ◌%◌, ◌^◌, ◌≡◌, refl, ap, ◌∙◌, arith, Bool, true, false, some, List, [], ◌∷◌, ◌++◌,
  length, if◌then◌else◌,
}
use livox_sdk.Callbacks.{
  CallbackState, begin_callback_operation, end_callback_operation, enable_callback_operations,
  clear_callback_registrations, is_quiet, set_livox_lidar_info_change_callback,
  set_livox_lidar_info_callback, livox_lidar_add_cmd_observer, livox_lidar_remove_cmd_observer,
}
use livox_sdk.Callbacks.Lifecycle.{
  Thread, Phase, System, Step, Reach, Stopped, Guarded, IsValid, enter, copy, leave, enable, clear,
  cleared, overtaken, set_info_change, set_info, add_observer, remove_observer, here, then_step,
}

pub length-between :
    (before after : List Thread) (t : Thread)
    → length (before ++ (t ∷ after)) ≡ suc (length (before ++ after))
length-between [] after t = refl
length-between (x ∷ before) after t = ap suc (length-between before after t)

not_empty :
    (threads before after : List Thread) (t : Thread)
    → threads ≡ before ++ (t ∷ after)
    → threads ≡ []
    → ⊥
not_empty threads before after t e none_left =
    let long : length threads ≡ suc (length (before ++ after)) =
      ap length e ∙ length-between before after t in
    let short : length threads ≡ 0 = ap length none_left in omega (arith, long, short)

-- A step that changes the threads, not what is registered, and that needs one to be there.
Guarded-threads :
    (ph : Phase) (c d : CallbackState) (threads other : List Thread)
    → (threads ≡ [] → ⊥)
    → (Stopped c → Stopped d)
    → Guarded ph c threads
    → Guarded ph d other
Guarded-threads Phase.enabled c d threads other some_there same g = tt
Guarded-threads Phase.closing c d threads other some_there same g = same g
Guarded-threads Phase.closed c d threads other some_there same g = absurd (some_there g.1)

-- A step that is refused while the callbacks are taken away.
Guarded-refused :
    (ph : Phase) (c d : CallbackState) (threads other : List Thread)
    → c.callback_operations_stopped ≡ false
    → Guarded ph c threads
    → Guarded ph d other
Guarded-refused Phase.enabled c d threads other runs g = tt
Guarded-refused Phase.closing c d threads other runs g = absurd (ground (arith, runs, g.0))
Guarded-refused Phase.closed c d threads other runs g = absurd (ground (arith, runs, g.0.0))

Guarded-same :
    (ph : Phase) (c d : CallbackState) (threads : List Thread)
    → (Stopped c → Stopped d)
    → Guarded ph c threads
    → Guarded ph d threads
Guarded-same Phase.enabled c d threads same g = tt
Guarded-same Phase.closing c d threads same g = same g
Guarded-same Phase.closed c d threads same g = (same g.0, g.1)

-- A setter changes nothing while the callbacks are taken away, and never the count.
set-IsValid :
    (s : System) (c : CallbackState) (b : Bool)
    → s.state.callback_operations_stopped ≡ b
    → c.active_callback_operations ≡ s.state.active_callback_operations
    → IsValid s
    → IsValid (record s { state = if b then s.state else c })
set-IsValid s c true stopped same v = v
set-IsValid s c false runs same (count, small, guard) =
    (same ∙ count, small, Guarded-refused s.phase s.state c s.threads s.threads runs guard)

pub begun :
    (c next : CallbackState)
    → begin_callback_operation c ≡ some next
    → (c.callback_operations_stopped ≡ false)
      × (next.active_callback_operations ≡ (c.active_callback_operations + 1) % 2 ^ 64)
unfolding begin_callback_operation
begun c next e = ground (arith, e)

closed_guard :
    (ph : Phase) (c : CallbackState) (threads : List Thread)
    → ph ≡ Phase.closing
    → threads ≡ []
    → Guarded ph c threads
    → Guarded Phase.closed c threads
closed_guard Phase.enabled c threads e quiet g = absurd (ground (arith, e))
closed_guard Phase.closing c threads e quiet g = (g, quiet)
closed_guard Phase.closed c threads e quiet g = g

pub no_threads : (threads : List Thread) → length threads ≡ 0 → threads ≡ []
no_threads [] e = refl
no_threads (t ∷ threads) e = absurd (omega (arith, e))

pub Step-IsValid : {s t : System} → Step s t → IsValid s → IsValid t
unfolding begin_callback_operation end_callback_operation enable_callback_operations
    clear_callback_registrations is_quiet set_livox_lidar_info_change_callback
    set_livox_lidar_info_callback livox_lidar_add_cmd_observer livox_lidar_remove_cmd_observer
Step-IsValid (enter s next e room) v =
    let (runs, counted) = begun s.state next e in
    let (count, small, guard) = v in
    (
      rw (counted, count) (omega (arith, room)),
      omega (arith, room),
      Guarded-refused s.phase s.state next s.threads _ runs guard,
    )
Step-IsValid (copy s before after r e) v =
    let (count, small, guard) = v in
    let long : length s.threads ≡ suc (length (before ++ after)) =
      ap length e ∙ length-between before after Thread.entered in
    let long' = length-between before after (Thread.holding r) in
    (
      omega (arith, count, long, long'),
      omega (arith, small, long, long'),
      Guarded-threads s.phase s.state s.state s.threads _
          (not_empty s.threads before after Thread.entered e) (λ g. g) guard,
    )
Step-IsValid (leave s before after t e) v =
    let (count, small, guard) = v in
    let long : length s.threads ≡ suc (length (before ++ after)) =
      ap length e ∙ length-between before after t in
    (
      omega (arith, count, small, long),
      omega (arith, small, long),
      Guarded-threads s.phase s.state _ s.threads _ (not_empty s.threads before after t e) (λ g. g)
          guard,
    )
Step-IsValid (enable s) (count, small, guard) = (count, small, tt)
Step-IsValid (clear s) (count, small, guard) = (count, small, (refl, refl, refl, refl))
Step-IsValid (cleared s e quiet) v =
    let (count, small, guard) = v in
    let none_left : s.threads ≡ [] = no_threads s.threads (ground (arith, quiet, count)) in
    (count, small, closed_guard s.phase s.state s.threads e none_left guard)
Step-IsValid (overtaken s e quiet) v = v
Step-IsValid (set_info_change s r) v =
    set-IsValid s (record s.state { livox_lidar_info_change = r })
      s.state.callback_operations_stopped refl refl v
Step-IsValid (set_info s r) v =
    set-IsValid s (record s.state { livox_lidar_info = r }) s.state.callback_operations_stopped refl
      refl v
Step-IsValid (add_observer s r) v =
    set-IsValid s (record s.state { cmd_observer = r }) s.state.callback_operations_stopped refl
      refl v
Step-IsValid (remove_observer s) v =
    let (count, small, guard) = v in
    (count, small, Guarded-same s.phase s.state _ s.threads (λ g. (g.0, g.1, g.2, refl)) guard)

pub Reach-IsValid : {s t : System} → IsValid s → Reach s t → IsValid t
Reach-IsValid v here = v
Reach-IsValid v (then_step r st) = Step-IsValid st (Reach-IsValid v r)

pub Guarded-closed :
    (ph : Phase) (c : CallbackState) (threads : List Thread)
    → ph ≡ Phase.closed
    → Guarded ph c threads
    → Stopped c × (threads ≡ [])
Guarded-closed Phase.enabled c threads e g = absurd (ground (arith, e))
Guarded-closed Phase.closing c threads e g = absurd (ground (arith, e))
Guarded-closed Phase.closed c threads e g = g
