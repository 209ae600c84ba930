-- ===== src/Devices/Once.antt =====
-- Over every run of the handlers and the device manager a device is announced at most once.
use livox_sdk.Base.{
  ℕ, ◌+◌, ◌≤◌, ◌≡◌, refl, subst, arith, Bool-cases, inl, inr, Option, none, some, Option-cases,
  List, [], ◌∷◌, ◌++◌,
}
use livox_sdk.Base.Map.{find}
use livox_sdk.Requests.{done, zeroed}
use livox_sdk.Requests.Dotted.{bind-done}
use livox_sdk.Requests.Build.{ViewLidarIpInfo, build_update_view_lidar_cfg_request}
use livox_sdk.Devices.{DeviceHandler, DeviceInfo, Effect, GeneralHandler}
use livox_sdk.Devices.Handlers.{update_view_cfg, set_view_lidar}
use livox_sdk.Devices.Detection.{update_view_lidar_cfg, handle_accepted_detection_data}
use livox_sdk.Manager.{Call, handle_detection}
use livox_sdk.Devices.Managed.{
  System, settle, run_call, run_calls, hand_on, hand_on_all, detect_device, answer_update,
}
use livox_sdk.Devices.Steps.{
  Step, detected, fw_answered, update_answered, info_answered, Run, stop, step, announced,
  announced-append, flag, told, Flagged, query_fw_type_callback-Flagged,
  livox_lidar_info_change-Flagged, update_lidar_callback-Flagged,
}
use livox_sdk.Devices.Silence.{
  Silent, Safely, done-Silent, done-Safely, send_update-Silent, handle_accepted-Safely,
}

update_view_cfg-Silent :
    (k : ℕ) (h : DeviceHandler) (v : ViewLidarIpInfo) → Silent k (update_view_cfg h v)
unfolding update_view_cfg set_view_lidar
update_view_cfg-Silent k h v = elim (Option-cases (find v.handle h.devices)) [
  | inr (u, e) ↦ rw (update_view_cfg, e) (done-Silent k [] refl)
  | inl e ↦
      rw (update_view_cfg, e)
        (send_update-Silent k h.profile.device_type v.handle v.lidar_cmd_port
          (build_update_view_lidar_cfg_request v zeroed))
]

update_view_lidar_cfg-Silent :
    (k : ℕ) (g : GeneralHandler) (v : ViewLidarIpInfo) → Silent k (update_view_lidar_cfg g v)
unfolding update_view_lidar_cfg
update_view_lidar_cfg-Silent k g v =
    elim (Option-cases (find v.dev_type g.lidars_command_handler)) [
      | inl e ↦ rw (update_view_lidar_cfg, e) (done-Silent k [] refl)
      | inr (h, e) ↦ elim (Bool-cases g.master_sdk) [
        | inl m ↦ rw (update_view_lidar_cfg, e, m) (update_view_cfg-Silent k h v)
        | inr m ↦ rw (update_view_lidar_cfg, e, m) (done-Silent k [] refl)
      ]
    ]

run_call-Safely : (k : ℕ) (g : GeneralHandler) (c : Call) → Safely k g (run_call g c)
unfolding run_call
run_call-Safely k g (Call.get_livox_lidar_internal_info handle) = done-Safely k g _ (omega arith)
run_call-Safely k g (Call.update_lidar_cfg v) = λ p e.
    let (es, made, rest) = bind-done (update_view_lidar_cfg g v) _ e in
    done-Safely k g (g, es) (omega (arith, update_view_lidar_cfg-Silent k g v es made)) p rest
run_call-Safely k g (Call.livox_lidar_info_change handle) =
    done-Safely k g _ (livox_lidar_info_change-Flagged k g handle)
run_call-Safely k g (Call.create_view_data_channel v) = done-Safely k g _ (omega arith)

-- What is announced, beyond what was, is flagged.
abbrev Told : ℕ → ℕ → System → System × List Effect → Type 0
Told k was s p = announced k p.1 + told k s.handler ≤ told k p.0.handler + was

done-Told :
    (k was : ℕ) (s : System) (q p : System × List Effect)
    → Told k was s q
    → done q ≡ done p
    → Told k was s p
done-Told k was s q p h e = subst (λ r. Told k was s r) (same e) h
  where
    same : {r : System × List Effect} → done q ≡ done r → q ≡ r
    same d = cc

run_calls-Told :
    (cs : List Call) (k : ℕ) (s : System) (p : System × List Effect)
    → run_calls s cs ≡ done p
    → Told k 0 s p
unfolding run_calls
run_calls-Told [] k s p e = done-Told k 0 s (s, []) p (omega arith) e
run_calls-Told (c ∷ cs) k s p e =
    let (r, made, rest) = bind-done (run_call s.handler c) _ e in
    let s' : System = record { handler = r.0; manager = settle s.manager r.1 } in
    let (q, more, last) = bind-done (run_calls s' cs) _ rest in
    done-Told k 0 s (q.0, r.1 ++ q.1) p
      (omega (
        arith,
        announced-append k r.1 q.1,
        run_call-Safely k s.handler c r made,
        run_calls-Told cs k s' q more,
      ))
      last

hand_on-Told :
    (e : Effect) (k : ℕ) (s : System) (p : System × List Effect)
    → hand_on e s ≡ done p
    → Told k (announced k (e ∷ [])) s p
unfolding hand_on
hand_on-Told (Effect.manager_detection handle d a b) k s p h =
    let r = handle_detection s.manager handle d a b in
    run_calls-Told r.1 k (record s { manager = r.0 }) p h
hand_on-Told (Effect.update_request a b c d) k s p h = done-Told k _ s _ p (omega arith) h
hand_on-Told (Effect.query_fw_type a) k s p h = done-Told k _ s _ p (omega arith) h
hand_on-Told (Effect.info_change a b) k s p h = done-Told k _ s _ p (omega arith) h
hand_on-Told (Effect.lidar_info a b c) k s p h = done-Told k _ s _ p (omega arith) h
hand_on-Told (Effect.update_view_lidar_cfg_callback a) k s p h = done-Told k _ s _ p (omega arith) h
hand_on-Told (Effect.add_device a b) k s p h = done-Told k _ s _ p (omega arith) h
hand_on-Told (Effect.query_internal_info a) k s p h = done-Told k _ s _ p (omega arith) h
hand_on-Told (Effect.create_view_data_channel a) k s p h = done-Told k _ s _ p (omega arith) h

hand_on_all-Told :
    (es : List Effect) (k : ℕ) (s : System) (p : System × List Effect)
    → hand_on_all s es ≡ done p
    → Told k (announced k es) s p
unfolding hand_on_all
hand_on_all-Told [] k s p e = done-Told k 0 s (s, []) p (omega arith) e
hand_on_all-Told (x ∷ es) k s p e =
    let (r, made, rest) = bind-done (hand_on x s) _ e in
    let (q, more, last) = bind-done (hand_on_all r.0 es) _ rest in
    done-Told k (announced k (x ∷ es)) s (q.0, r.1 ++ q.1) p
      (omega (
        arith,
        announced-append k r.1 q.1,
        announced-append k (x ∷ []) es,
        hand_on-Told x k s r made,
        hand_on_all-Told es k r.0 q more,
      ))
      last

Step-Flagged :
    (k : ℕ) (s : System) (es : List Effect) (s' : System)
    → Step s es s'
    → Flagged k s.handler es s'.handler
unfolding detect_device answer_update
Step-Flagged k s es s' (detected handle d sn e) =
    let (p, made, rest) = bind-done (handle_accepted_detection_data s.handler handle d sn) _ e in
    omega (
      arith,
      handle_accepted-Safely k s.handler handle d sn p made,
      hand_on_all-Told p.1 k (record s { handler = p.0 }) (s', es) rest,
    )
Step-Flagged k s _ _ (fw_answered status handle response) =
    query_fw_type_callback-Flagged k s.handler status handle response
Step-Flagged k s _ _ (update_answered dev_type status handle response) =
    update_lidar_callback-Flagged k s.handler dev_type status handle response
Step-Flagged k s es s' (info_answered fuel status handle response m cs taken made) =
    omega (arith, run_calls-Told cs k (record s { manager = m }) (s', es) made)

Run-Flagged :
    (k : ℕ) (s : System) (es : List Effect) (s' : System)
    → Run s es s'
    → Flagged k s.handler es s'.handler
Run-Flagged k s _ _ stop = omega arith
Run-Flagged k s _ u (step {t = t} {es = es} {es' = es'} first run) =
    omega (arith, announced-append k es es', Step-Flagged k s es t first, Run-Flagged k t es' u run)

flag_small : (o : Option DeviceInfo) → flag o ≤ 1
flag_small none = omega arith
flag_small (some info) = ground arith

-- Whatever happens to the devices, in any number of detections with all that the device manager does
-- then, answers about the firmware, answers to configurations and answers to the query of the device
-- manager, in any order, with failures and timeouts among them, if they are handled one after the
-- other: the application is told of a device that changed at most once.
pub Run-once :
    (k : ℕ) (s : System) (es : List Effect) (s' : System) → Run s es s' → announced k es ≤ 1
Run-once k s es s' run =
    omega (arith, Run-Flagged k s es s' run, flag_small (find k s'.handler.devices))
