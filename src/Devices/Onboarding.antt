-- ===== src/Devices/Onboarding.antt =====
-- The configuration of a device that was found: it is sent when the device is due, and not after the
-- device took it.
use livox_sdk.Base.{
  ℕ, ◌≡◌, refl, ap, ◌∙◌, Bool, true, false, none, some, not, List, [], ◌∷◌, ◌++◌, All, ==_self,
  if◌then◌else◌,
}
use livox_sdk.Base.Map.{find, assign, find-assign}
use livox_sdk.Commands.{LivoxLidarStatus}
use livox_sdk.Dispatch.{DetectionData}
use livox_sdk.Requests.{Attempt, done, ◌>>=◌, Request, zeroed}
use livox_sdk.Requests.Build.{LivoxLidarCfg}
use livox_sdk.Devices.{DeviceHandler, DeviceInfo, Effect, GeneralHandler}
use livox_sdk.Devices.Handlers.{init_custom, add_device_to, update_custom_cfg, set_custom_lidar}
use livox_sdk.Devices.Detection.{
  handle_accepted_detection_data, verify_net_segment, create_command_handler, is_known,
  update_lidar_cfg, init_found, detect, detect_found, is_due,
}
use livox_sdk.Devices.Answers.{
  update_lidar_callback, livox_lidar_info_change, took_found, change_found, change_effects,
  or_zeroed,
}

-- A detected device that is due: its firmware is known to run the application, and it was not
-- configured. Nothing is viewed, this is the master, and the handler of the device's type has a
-- configuration for it from which a request is built.
pub record Due (g : GeneralHandler) (handle : ℕ) (detected : DetectionData) (h : DeviceHandler)
    (info : DeviceInfo) (cfg : LivoxLidarCfg) (r : Request) : Type 0 where
  pub direct : g.is_view ≡ false
  pub master : g.master_sdk ≡ true
  pub known : is_known detected.dev_type ≡ true
  pub handler : find detected.dev_type g.lidars_command_handler ≡ some h
  pub device : find handle g.devices ≡ some info
  pub fresh : info.is_update_cfg ≡ false
  pub asked : info.is_get_loader_mode ≡ true
  pub running : info.is_loader_mode ≡ false
  pub not_taken : find handle (init_custom g.custom_lidars_cfg h).devices ≡ none
  pub configured : find handle (init_custom g.custom_lidars_cfg h).custom_lidars ≡ some cfg
  pub built : (init_custom g.custom_lidars_cfg h).profile.build_update cfg zeroed ≡ done r

if-true : {A : Type 0} (b : Bool) (x y : A) → b ≡ true → (if b then x else y) ≡ x
if-true b x y h = rw h refl

if-false : {A : Type 0} (b : Bool) (x y : A) → b ≡ false → (if not b then x else y) ≡ x
if-false b x y h = rw h refl

verified :
    (g : GeneralHandler) (detected : DetectionData)
    → g.is_view ≡ false
    → verify_net_segment g detected ≡ done true
unfolding verify_net_segment
verified g detected h = rw (verify_net_segment, h) refl

-- The handler of a type that is known is initialised again.
created :
    (g : GeneralHandler) (dev_type : ℕ) (h : DeviceHandler)
    → g.is_view ≡ false
    → is_known dev_type ≡ true
    → find dev_type g.lidars_command_handler ≡ some h
    → create_command_handler g dev_type
      ≡ done (record g {
        lidars_command_handler =
            assign dev_type (init_custom g.custom_lidars_cfg h) g.lidars_command_handler;
      })
unfolding create_command_handler
created g dev_type h direct known e =
    if-false g.is_view _ _ direct
    ∙ (if-true (is_known dev_type) _ _ known ∙ ap (init_found g dev_type) e)

find-assign_self : {V : Type 0} (k : ℕ) (v : V) (m : List (ℕ × V)) → find k (assign k v m) ≡ some v
find-assign_self k v m = find-assign k v m k ∙ rw (==_self k) refl

-- What a detection does, given what it sends.
detect-known :
    (g : GeneralHandler) (handle : ℕ) (detected : DetectionData) (sn : List ℕ) (h : DeviceHandler)
    (info : DeviceInfo) (es : List Effect)
    → g.is_view ≡ false
    → is_known detected.dev_type ≡ true
    → find detected.dev_type g.lidars_command_handler ≡ some h
    → find handle g.devices ≡ some info
    → (let g' : GeneralHandler = record g {
      lidars_command_handler =
          assign detected.dev_type (init_custom g.custom_lidars_cfg h) g.lidars_command_handler;
    } in
        (if is_due g' info
            then update_lidar_cfg g' detected.dev_type handle detected.cmd_port
            else done [])
          ≡ done es
        → handle_accepted_detection_data g handle detected sn
          ≡ done (
            g',
            Effect.add_device handle detected
                ∷ (es
                    ++ (Effect.manager_detection handle detected info.is_get_loader_mode
                          info.is_loader_mode
                        ∷ [])),
          ))
unfolding handle_accepted_detection_data
detect-known g handle detected sn h info es direct known handler device sends =
    let g' : GeneralHandler = record g {
      lidars_command_handler =
          assign detected.dev_type (init_custom g.custom_lidars_cfg h) g.lidars_command_handler;
    } in
    let wrap : Attempt (GeneralHandler × List Effect) → Attempt (GeneralHandler × List Effect) =
      λ m. m >>= λ p. done (p.0, Effect.add_device handle detected ∷ p.1) in
    ap
      (λ m. m >>= λ v. wrap (
        if v
        then (create_command_handler g detected.dev_type >>= detect handle detected sn)
        else done (g, [])))
      (verified g detected direct)
    ∙ (ap (λ m. wrap (m >>= detect handle detected sn))
          (created g detected.dev_type h direct known handler)
        ∙ (ap (λ o. wrap (detect_found handle detected sn g' o)) device
            ∙ ap
                (λ m. wrap (
                  m >>= λ effects. done (
                    g',
                    effects
                        ++ (Effect.manager_detection handle detected info.is_get_loader_mode
                              info.is_loader_mode
                            ∷ []),
                  )))
                sends))

-- The handler of the type, initialised again.
abbrev pub ready : GeneralHandler → DeviceHandler → DeviceHandler
ready g h = init_custom g.custom_lidars_cfg h

abbrev pub found : GeneralHandler → DetectionData → DeviceHandler → GeneralHandler
found g detected h = record g {
  lidars_command_handler = assign detected.dev_type (ready g h) g.lidars_command_handler;
}

-- With the configuration taken.
abbrev pub taken : GeneralHandler → ℕ → DetectionData → DeviceHandler → DeviceInfo → GeneralHandler
taken g handle detected h info = record g {
  lidars_command_handler =
      assign detected.dev_type (add_device_to handle (ready g h))
        (found g detected h).lidars_command_handler;
  devices = assign handle (record info { is_update_cfg = true; is_callback = true }) g.devices;
}

-- Detections of one device, one after the other, each with the serial number that it tells.
abbrev pub detect_again_all :
    GeneralHandler → ℕ → List (DetectionData × List ℕ) → Attempt (GeneralHandler × List Effect)
detect_again_all g handle [] = done (g, [])
detect_again_all g handle ((d, sn) ∷ ds) = handle_accepted_detection_data g handle d sn >>= λ p.
    detect_again_all p.0 handle ds >>= λ q. done (q.0, p.1 ++ q.1)

-- For each of them, what is told to the managers, and no request.
abbrev pub only_told : ℕ → DeviceInfo → List (DetectionData × List ℕ) → List Effect
only_told handle info [] = []
only_told handle info ((d, sn) ∷ ds) =
    Effect.add_device handle d
    ∷ Effect.manager_detection handle d info.is_get_loader_mode info.is_loader_mode
    ∷ only_told handle info ds

abbrev pub SameType : ℕ → DetectionData × List ℕ → Type 0
SameType dev_type (d, sn) = d.dev_type ≡ dev_type

stays_configured :
    (ds : List (DetectionData × List ℕ)) (g : GeneralHandler) (handle dev_type : ℕ)
    (h : DeviceHandler) (info : DeviceInfo)
    → g.is_view ≡ false
    → is_known dev_type ≡ true
    → find dev_type g.lidars_command_handler ≡ some h
    → find handle g.devices ≡ some (record info { is_update_cfg = true })
    → All (SameType dev_type) ds
    → (g' : GeneralHandler) × (detect_again_all g handle ds ≡ done (g', only_told handle info ds))
stays_configured [] g handle dev_type h info direct known handler device same = (g, refl)
stays_configured ((d, sn) ∷ ds) g handle dev_type h info direct known handler device (same, more) =
    let mine : DeviceInfo = record info { is_update_cfg = true } in
    let first =
      detect-known g handle d sn h mine [] direct (ap is_known same ∙ known)
        (ap (λ t. find t g.lidars_command_handler) same ∙ handler) device refl in
    let (g', rest) =
      stays_configured ds (found g d h) handle dev_type (ready g h) info direct known
        (ap (λ t. find dev_type (assign t (ready g h) g.lidars_command_handler)) same
          ∙ find-assign_self dev_type (ready g h) g.lidars_command_handler)
        device more in
    (
      g',
      ap (λ m. m >>= λ p. detect_again_all p.0 handle ds >>= λ q. done (q.0, p.1 ++ q.1)) first
          ∙ ap
              (λ m. m >>= λ q. done (
                q.0,
                Effect.add_device handle d
                    ∷ Effect.manager_detection handle d info.is_get_loader_mode info.is_loader_mode
                    ∷ q.1,
              ))
              rest,
    )

-- The life of a configuration. A device that is due is sent its configuration when it is detected, to
-- the port that it told, and nothing else is sent. When it answers that it took the configuration,
-- the application is told of it, unless it was before. And then any number of detections of it, one
-- after the other and with the same type, make the handlers send nothing: only the managers are told
-- of them.
pub configured_once :
    (g : GeneralHandler) (handle : ℕ) (detected : DetectionData) (h : DeviceHandler)
    (info : DeviceInfo) (cfg : LivoxLidarCfg) (r : Request) (sn : List ℕ)
    (again : List (DetectionData × List ℕ))
    → Due g handle detected h info cfg r
    → All (SameType detected.dev_type) again
    → (handle_accepted_detection_data g handle detected sn
        ≡ done (
          found g detected h,
          Effect.add_device handle detected
              ∷ Effect.update_request (ready g h).profile.device_type handle detected.cmd_port r
              ∷ Effect.manager_detection handle detected info.is_get_loader_mode info.is_loader_mode
              ∷ [],
        ))
      × (update_lidar_callback
            (found g detected h)
            detected.dev_type
            LivoxLidarStatus.success
            handle
            (some (record { ret_code = 0; error_key = 0 }))
          ≡ (
            taken g handle detected h info,
            if info.is_callback then [] else Effect.info_change handle info ∷ [],
          ))
      × ((g' : GeneralHandler) × (detect_again_all (taken g handle detected h info) handle again
            ≡ done (g', only_told handle info again)))
unfolding update_lidar_cfg update_custom_cfg set_custom_lidar update_lidar_callback
    livox_lidar_info_change
configured_once g handle detected h info cfg r sn again due same =
    let again_found = find-assign_self detected.dev_type (ready g h) g.lidars_command_handler in
    let sent : List Effect =
      Effect.update_request (ready g h).profile.device_type handle detected.cmd_port r ∷ [] in
    let is_sent : update_lidar_cfg (found g detected h) detected.dev_type handle detected.cmd_port
        ≡ done sent =
      rw
        (
          update_lidar_cfg, again_found, due.master, update_custom_cfg, due.not_taken,
          due.configured, set_custom_lidar, due.built,
        )
        refl in
    let now : is_due (found g detected h) info ≡ true =
      rw (due.fresh, due.asked, due.running, due.direct) refl in
    let sends : (if is_due (found g detected h) info
          then update_lidar_cfg (found g detected h) detected.dev_type handle detected.cmd_port
          else done [])
        ≡ done sent =
      if-true (is_due (found g detected h) info) _ _ now ∙ is_sent in
    (
      detect-known g handle detected sn h info sent due.direct due.known due.handler due.device
          sends,
      ap
            (λ o.
              livox_lidar_info_change (took_found (found g detected h) detected.dev_type handle o)
                handle)
            again_found
          ∙ (ap
                (λ o.
                  change_found
                    (took_found (found g detected h) detected.dev_type handle (some (ready g h)))
                    handle (or_zeroed o))
                due.device
              ∙ ap (λ b. (taken g handle detected h info, change_effects b handle info))
                  due.direct),
      stays_configured again (taken g handle detected h info) handle detected.dev_type
          (add_device_to handle (ready g h)) (record info { is_callback = true }) due.direct
          due.known (find-assign_self detected.dev_type (add_device_to handle (ready g h)) _)
          (find-assign_self handle (record info { is_update_cfg = true; is_callback = true })
            g.devices)
          same,
    )
