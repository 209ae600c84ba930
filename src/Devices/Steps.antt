-- ===== src/Devices/Steps.antt =====
-- The events of the devices as steps: a detection, an answer about the firmware, an answer to a
-- configuration, an answer to the query of the device manager, each a failure or a timeout too; and
-- how often the application is told of a device.
use livox_sdk.Base.{
  ℕ, ◌+◌, ◌≤◌, ◌≡◌, refl, arith, Bool, true, ◌&&◌, not, Bool-cases, inl, inr, Option, none, some,
  Option-cases, List, [], ◌∷◌, ◌++◌, ◌==◌, if◌then◌else◌, ltb,
}
use livox_sdk.Base.Map.{find, assign, find-assign}
use livox_sdk.Commands.{LivoxLidarStatus, is_success}
use livox_sdk.Dispatch.{DetectionData}
use livox_sdk.Requests.{done}
use livox_sdk.Devices.{DeviceInfo, Effect, GeneralHandler}
use livox_sdk.Manager.{DeviceManager, Call, InternalInfoResponse, get_internal_info_callback}
use livox_sdk.Manager.Scan.{Rounds}
use livox_sdk.Devices.Managed.{System, run_calls, detect_device, answer_update}
use livox_sdk.Devices.Answers.{
  FwResponse, AsyncControlResponse, update_fw_type, query_fw_type_callback, livox_lidar_info_change,
  update_lidar_callback, took_configuration, or_zeroed, change_effects, tells, is_good, fw_value,
}

-- Handled one after the other, as by one thread: `LivoxLidarInfoChange` holds no mutex.
pub data Step : System → List Effect → System → Type 0 where
  detected :
      {s s' : System} {es : List Effect}
      → (handle : ℕ) (detected : DetectionData) (sn : List ℕ)
      → detect_device s handle detected sn ≡ done (s', es)
      → Step s es s'
  fw_answered :
      {s : System} (status : LivoxLidarStatus) (handle : ℕ) (response : Option FwResponse)
      → Step s
          (query_fw_type_callback s.handler status handle response).1
          (record s { handler = (query_fw_type_callback s.handler status handle response).0 })
  update_answered :
      {s : System} (dev_type : ℕ) (status : LivoxLidarStatus) (handle : ℕ)
      (response : Option AsyncControlResponse)
      → Step s
          (answer_update s dev_type status handle response).1
          (answer_update s dev_type status handle response).0
  info_answered :
      {s s' : System} {es : List Effect} (fuel : ℕ) (status : LivoxLidarStatus) (handle : ℕ)
      (response : Option InternalInfoResponse) (m : DeviceManager) (cs : List Call)
      → get_internal_info_callback fuel s.manager status handle response ≡ Rounds.done (m, cs)
      → run_calls (record s { manager = m }) cs ≡ done (s', es)
      → Step s es s'

pub data Run : System → List Effect → System → Type 0 where
  stop : {s : System} → Run s [] s
  step : {s t u : System} {es es' : List Effect} → Step s es t → Run t es' u → Run s (es ++ es') u

-- How often the application was told of a device that changed.
abbrev pub announced : ℕ → List Effect → ℕ
announced k [] = 0
announced k (Effect.info_change j info ∷ es) =
    let more = announced k es in if j == k then more + 1 else more
announced k (_ ∷ es) = announced k es

pub announced-append :
    (k : ℕ) (xs ys : List Effect) → announced k (xs ++ ys) ≡ announced k xs + announced k ys
announced-append k [] ys = omega arith
announced-append k (Effect.info_change j info ∷ es) ys = ground (arith, announced-append k es ys)
announced-append k (Effect.update_request a b c d ∷ es) ys = announced-append k es ys
announced-append k (Effect.query_fw_type a ∷ es) ys = announced-append k es ys
announced-append k (Effect.lidar_info a b c ∷ es) ys = announced-append k es ys
announced-append k (Effect.update_view_lidar_cfg_callback a ∷ es) ys = announced-append k es ys
announced-append k (Effect.manager_detection a b c d ∷ es) ys = announced-append k es ys
announced-append k (Effect.add_device a b ∷ es) ys = announced-append k es ys
announced-append k (Effect.query_internal_info a ∷ es) ys = announced-append k es ys
announced-append k (Effect.create_view_data_channel a ∷ es) ys = announced-append k es ys

abbrev pub flag : Option DeviceInfo → ℕ
flag none = 0
flag (some info) = if info.is_callback then 1 else 0

abbrev pub told : ℕ → GeneralHandler → ℕ
told k g = flag (find k g.devices)

-- What was announced is flagged.
abbrev pub Flagged : ℕ → GeneralHandler → List Effect → GeneralHandler → Type 0
Flagged k g es g' = announced k es + told k g ≤ told k g'

pub flag-assign :
    (k j : ℕ) (info : DeviceInfo) (m : List (ℕ × DeviceInfo))
    → (j ≡ k → flag (find k m) ≤ flag (some info))
    → flag (find k m) ≤ flag (find k (assign j info m))
flag-assign k j info m h = elim (Bool-cases (j == k)) [
  | inl same ↦ rw (find-assign j info m k, same) (h (ground (arith, same)))
  | inr other ↦ rw (find-assign j info m k, other) (omega arith)
]

update_fw_type-told :
    (k : ℕ) (g : GeneralHandler) (handle v : ℕ) → told k g ≤ told k (update_fw_type g handle v)
unfolding update_fw_type
update_fw_type-told k g handle v = elim (Option-cases (find handle g.devices)) [
  | inl e ↦ rw (update_fw_type, e) (omega arith)
  | inr (info, e) ↦
      rw (update_fw_type, e)
        (flag-assign k handle _ g.devices (λ same. rw (← same, e) (omega arith)))
]

pub query_fw_type_callback-Flagged :
    (k : ℕ) (g : GeneralHandler) (status : LivoxLidarStatus) (handle : ℕ)
    (response : Option FwResponse)
    → Flagged k g
        (query_fw_type_callback g status handle response).1
        (query_fw_type_callback g status handle response).0
unfolding query_fw_type_callback
query_fw_type_callback-Flagged k g status handle response = elim (Bool-cases (ltb 10 g.count)) [
  | inl many ↦ rw (query_fw_type_callback, many) (omega (arith, update_fw_type-told k g handle 1))
  | inr few ↦ elim (Bool-cases (is_good status response)) [
    | inl good ↦
        rw (query_fw_type_callback, few, good)
          (omega (arith, update_fw_type-told k (record g { count = 0 }) handle (fw_value response)))
    | inr bad ↦ rw (query_fw_type_callback, few, bad) (omega arith)
  ]
]

announced-change :
    (k : ℕ) (view : Bool) (handle : ℕ) (info : DeviceInfo)
    → announced k (change_effects view handle info)
      ≡ (if handle == k then (if info.is_callback then 0 else 1) else 0)
announced-change k view handle info = elim (Bool-cases (view && not info.is_loader_mode)) [
  | inl a ↦ rw a (ground arith)
  | inr a ↦ rw a (ground arith)
]

or_zeroed-flag : (o : Option DeviceInfo) → flag o ≡ (if (or_zeroed o).is_callback then 1 else 0)
or_zeroed-flag none = refl
or_zeroed-flag (some info) = refl

pub livox_lidar_info_change-Flagged :
    (k : ℕ) (g : GeneralHandler) (handle : ℕ)
    → Flagged k g (livox_lidar_info_change g handle).1 (livox_lidar_info_change g handle).0
unfolding livox_lidar_info_change
livox_lidar_info_change-Flagged k g handle =
    let info = or_zeroed (find handle g.devices) in
    let count = announced-change k g.is_view handle info in
    let was = or_zeroed-flag (find handle g.devices) in
    let now =
      find-assign handle (record info { is_update_cfg = true; is_callback = true }) g.devices k in
    elim (Bool-cases (handle == k)) [
      | inl same ↦
          let e : handle ≡ k = ground (arith, same) in
          rw (now, count, same, ← e, was)
            (elim (Bool-cases info.is_callback) [
              | inl c ↦ rw c (omega arith)
              | inr c ↦ rw c (omega arith)
            ])
      | inr other ↦ rw (now, count, other) (omega arith)
    ]

took_configuration-told :
    (k : ℕ) (g : GeneralHandler) (dev_type handle : ℕ)
    → told k (took_configuration g dev_type handle) ≡ told k g
took_configuration-told k g dev_type handle =
    elim (Option-cases (find dev_type g.lidars_command_handler)) [
      | inl e ↦ rw (took_configuration, e) refl
      | inr (h, e) ↦ rw (took_configuration, e) refl
    ]

pub update_lidar_callback-Flagged :
    (k : ℕ) (g : GeneralHandler) (dev_type : ℕ) (status : LivoxLidarStatus) (handle : ℕ)
    (response : Option AsyncControlResponse)
    → Flagged k g
        (update_lidar_callback g dev_type status handle response).1
        (update_lidar_callback g dev_type status handle response).0
unfolding update_lidar_callback
update_lidar_callback-Flagged k g dev_type status handle none = omega arith
update_lidar_callback-Flagged k g dev_type status handle (some r) =
    elim (Bool-cases (is_success status)) [
      | inr bad ↦ rw (update_lidar_callback, bad) (omega arith)
      | inl good ↦ elim (Bool-cases (r.ret_code == 0 && r.error_key == 0)) [
        | inl taken ↦
            let f =
              livox_lidar_info_change-Flagged k (took_configuration g dev_type handle) handle in
            rw (update_lidar_callback, good, taken)
              (rw (took_configuration-told k g dev_type handle) at f)
        | inr not_taken ↦ elim (Bool-cases (tells g dev_type)) [
          | inl t ↦
              rw (update_lidar_callback, good, not_taken, t)
                (livox_lidar_info_change-Flagged k g handle)
          | inr t ↦ rw (update_lidar_callback, good, not_taken, t) (omega arith)
        ]
      ]
    ]
