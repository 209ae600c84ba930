-- ===== src/Devices/Silence.antt =====
-- The handlers' own part of a detection announces nothing.
use livox_sdk.Base.{
  ℕ, ◌≤◌, ◌≡◌, refl, subst, ◌∙◌, arith, Bool, true, false, not, Bool-cases, inl, inr, Option, none,
  some, Option-cases, List, [], ◌∷◌, if◌then◌else◌,
}
use livox_sdk.Base.Map.{find}
use livox_sdk.Dispatch.{DetectionData}
use livox_sdk.Requests.{Attempt, fault, thrown, refused, done, ◌>>=◌}
use livox_sdk.Requests.Dotted.{bind-done}
use livox_sdk.Devices.{Profile, DeviceHandler, DeviceInfo, Effect, GeneralHandler}
use livox_sdk.Devices.Detection.{
  handle_accepted_detection_data, verify_net_segment, create_command_handler, detect, detect_again,
  detect_new, new_info, update_lidar_cfg, is_due, init_found, make_view, is_known, profile_of,
  get_firmware_type,
}
use livox_sdk.Requests.{Request, zeroed}
use livox_sdk.Devices.Handlers.{send_update, set_custom_lidar, update_custom_cfg}
use livox_sdk.Devices.Steps.{announced, announced-append, told, Flagged, flag-assign}

-- What a call leaves announces nothing.
abbrev pub Silent : ℕ → Attempt (List Effect) → Type 0
Silent k m = (es : List Effect) → m ≡ done es → announced k es ≡ 0

pub done-Silent : (k : ℕ) (xs : List Effect) → announced k xs ≡ 0 → Silent k (done xs)
done-Silent k xs h es e = omega (arith, h, same e)
  where
    same : {ys : List Effect} → done xs ≡ done ys → announced k xs ≡ announced k ys
    same d = cc

pub send_update-Silent :
    (k dev_type handle port : ℕ) (built : Attempt Request)
    → Silent k (send_update dev_type handle port built)
send_update-Silent k dev_type handle port fault = λ es e. absurd (ground (arith, e))
send_update-Silent k dev_type handle port thrown = λ es e. absurd (ground (arith, e))
send_update-Silent k dev_type handle port refused = done-Silent k [] refl
send_update-Silent k dev_type handle port (done r) =
    done-Silent k (Effect.update_request dev_type handle port r ∷ []) refl

update_custom_cfg-Silent :
    (k : ℕ) (h : DeviceHandler) (handle port : ℕ) → Silent k (update_custom_cfg h handle port)
unfolding update_custom_cfg set_custom_lidar
update_custom_cfg-Silent k h handle port = elim (Option-cases (find handle h.devices)) [
  | inr (u, e) ↦ rw (update_custom_cfg, e) (done-Silent k [] refl)
  | inl e ↦ elim (Option-cases (find handle h.custom_lidars)) [
    | inl f ↦ rw (update_custom_cfg, e, f) (done-Silent k [] refl)
    | inr (cfg, f) ↦
        rw (update_custom_cfg, e, f)
          (send_update-Silent k h.profile.device_type handle port
            (h.profile.build_update cfg zeroed))
  ]
]

update_lidar_cfg-Silent :
    (k : ℕ) (g : GeneralHandler) (dev_type handle port : ℕ)
    → Silent k (update_lidar_cfg g dev_type handle port)
unfolding update_lidar_cfg
update_lidar_cfg-Silent k g dev_type handle port =
    elim (Option-cases (find dev_type g.lidars_command_handler)) [
      | inl e ↦ rw (update_lidar_cfg, e) (done-Silent k [] refl)
      | inr (h, e) ↦ elim (Bool-cases g.master_sdk) [
        | inl m ↦ rw (update_lidar_cfg, e, m) (update_custom_cfg-Silent k h handle port)
        | inr m ↦ rw (update_lidar_cfg, e, m) (done-Silent k [] refl)
      ]
    ]

-- What a call leaves, if it returns, is flagged.
abbrev pub Safely : ℕ → GeneralHandler → Attempt (GeneralHandler × List Effect) → Type 0
Safely k g m = (p : GeneralHandler × List Effect) → m ≡ done p → Flagged k g p.1 p.0

pub done-Safely :
    (k : ℕ) (g : GeneralHandler) (q : GeneralHandler × List Effect)
    → Flagged k g q.1 q.0
    → Safely k g (done q)
done-Safely k g q h p e = subst (λ r. Flagged k g r.1 r.0) (same e) h
  where
    same : {r : GeneralHandler × List Effect} → done q ≡ done r → q ≡ r
    same d = cc

bind-Safely :
    {A : Type 0} (k : ℕ) (g : GeneralHandler) (m : Attempt A)
    (f : A → Attempt (GeneralHandler × List Effect))
    → ((a : A) → m ≡ done a → Safely k g (f a))
    → Safely k g (m >>= f)
bind-Safely k g m f h p e = let (a, x, y) = bind-done m f e in h a x p y

detect_again-Safely :
    (k : ℕ) (g : GeneralHandler) (handle : ℕ) (data' : DetectionData) (info : DeviceInfo)
    → Safely k g (detect_again g handle data' info)
detect_again-Safely k g handle data' info = bind-Safely k g _ _ λ effects e.
    let quiet : announced k effects ≡ 0 = elim (Bool-cases (is_due g info)) [
      | inl due ↦
          update_lidar_cfg-Silent k g data'.dev_type handle data'.cmd_port effects (rw due at e)
      | inr other ↦ done-Silent k [] refl effects (rw other at e)
    ] in
    let last : List Effect =
      Effect.manager_detection handle data' info.is_get_loader_mode info.is_loader_mode ∷ [] in
    done-Safely k g _ (omega (arith, quiet, announced-append k effects last))

get_firmware_type-silent :
    (k : ℕ) (g : GeneralHandler) (handle : ℕ) → announced k (get_firmware_type g handle) ≡ 0
get_firmware_type-silent k g handle = elim (Bool-cases g.master_sdk) [
  | inl m ↦ rw (get_firmware_type, m) refl
  | inr m ↦ rw (get_firmware_type, m) refl
]

detect-Safely :
    (k : ℕ) (handle : ℕ) (data' : DetectionData) (sn : List ℕ) (g : GeneralHandler)
    → Safely k g (detect handle data' sn g)
detect-Safely k handle data' sn g = elim (Option-cases (find handle g.devices)) [
  | inr (info, e) ↦ rw (detect, e) (detect_again-Safely k g handle data' info)
  | inl e ↦
      let kept : told k g ≤ told k (detect_new g handle data' sn).0 =
        flag-assign k handle (new_info data' sn) g.devices (λ same. rw (← same, e) (omega arith)) in
      rw (detect, e)
        (done-Safely k g (detect_new g handle data' sn)
          (omega (arith, kept, get_firmware_type-silent k g handle)))
]

-- The creation of a handler leaves the devices.
abbrev Keeps : GeneralHandler → Attempt GeneralHandler → Type 0
Keeps g m = (g' : GeneralHandler) → m ≡ done g' → g.devices ≡ g'.devices

done-Keeps : (g h : GeneralHandler) → g.devices ≡ h.devices → Keeps g (done h)
done-Keeps g h e g' d = e ∙ same d
  where
    same : {g' : GeneralHandler} → done h ≡ done g' → h.devices ≡ g'.devices
    same d = cc

init_found-Keeps :
    (g : GeneralHandler) (dev_type : ℕ) (o : Option DeviceHandler)
    → Keeps g (init_found g dev_type o)
init_found-Keeps g dev_type none = λ g' e. absurd (ground (arith, e))
init_found-Keeps g dev_type (some h) = done-Keeps g _ refl

make_view-devices :
    (g : GeneralHandler) (dev_type : ℕ) (o : Option Profile)
    → g.devices ≡ (make_view g dev_type o).devices
make_view-devices g dev_type none = refl
make_view-devices g dev_type (some p) = refl

if-Keeps :
    (g : GeneralHandler) (b : Bool) (m n : Attempt GeneralHandler)
    → Keeps g m
    → Keeps g n
    → Keeps g (if b then m else n)
if-Keeps g true m n h k = h
if-Keeps g false m n h k = k

found-Keeps :
    (g : GeneralHandler) (o : Option DeviceHandler) (m : Attempt GeneralHandler)
    → Keeps g m
    → Keeps g (elim o [ none ↦ m | some _ ↦ done g ])
found-Keeps g none m h = h
found-Keeps g (some x) m h = done-Keeps g g refl

create_command_handler-Keeps :
    (g : GeneralHandler) (dev_type : ℕ) → Keeps g (create_command_handler g dev_type)
unfolding create_command_handler
create_command_handler-Keeps g dev_type =
    if-Keeps g (not g.is_view) _ _
      (if-Keeps g (is_known dev_type) _ _
        (init_found-Keeps g dev_type (find dev_type g.lidars_command_handler))
        (done-Keeps g g refl))
      (found-Keeps g (find dev_type g.lidars_command_handler) _
        (done-Keeps g _ (make_view-devices g dev_type (profile_of dev_type))))

pub handle_accepted-Safely :
    (k : ℕ) (g : GeneralHandler) (handle : ℕ) (data' : DetectionData) (sn : List ℕ)
    → Safely k g (handle_accepted_detection_data g handle data' sn)
unfolding handle_accepted_detection_data
handle_accepted-Safely k g handle data' sn = bind-Safely k g (verify_net_segment g data') _ λ v _.
    let rest : Attempt (GeneralHandler × List Effect) =
      if v
      then (create_command_handler g data'.dev_type >>= detect handle data' sn)
      else done (g, []) in
    bind-Safely k g rest _ λ p e.
      done-Safely k g (p.0, Effect.add_device handle data' ∷ p.1)
        (elim (Bool-cases v) [
          | inl same ↦
              bind-Safely k g (create_command_handler g data'.dev_type) (detect handle data' sn)
                (λ g1 made. λ q x.
                  rw (create_command_handler-Keeps g data'.dev_type g1 made)
                    (detect-Safely k handle data' sn g1 q x))
                p (rw same at e)
          | inr other ↦ done-Safely k g (g, []) (omega arith) p (rw other at e)
        ])
