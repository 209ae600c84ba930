-- ===== src/Manager/Types.antt =====
-- What the device manager keeps of the type of a device (sdk_core/device_manager.cpp,
-- `lidars_dev_type_`).
use livox_sdk.Base.{ℕ, ◌≡◌, arith, Bool, true, false, List, [], ◌∷◌, if◌then◌else◌}
use livox_sdk.Dispatch.{DetectionData}
use livox_sdk.Manager.{DeviceManager, handle_detection}

-- A datagram of detection that was accepted, and the mode of the device's firmware if it is known.
pub record Detection : Type 0 where
  pub handle : ℕ
  pub detected : DetectionData
  pub is_get_loader_mode : Bool
  pub is_load_mode : Bool

abbrev pub detect : DeviceManager → Detection → DeviceManager
detect m e = (handle_detection m e.handle e.detected e.is_get_loader_mode e.is_load_mode).0

abbrev pub detect_all : List Detection → DeviceManager → DeviceManager
detect_all [] m = m
detect_all (e ∷ es) m = detect_all es (detect m e)

pub if-Holds :
    {A : Type 0} (P : A → Type 0) (b : Bool) (x y : A) → P x → P y → P (if b then x else y)
if-Holds P true x y p q = p
if-Holds P false x y p q = q

pub if-else :
    {A : Type 0} (P : A → Type 0) (b : Bool) (x y : A) → b ≡ false → P y → P (if b then x else y)
if-else P true x y h q = absurd (ground (arith, h))
if-else P false x y h q = q

pub if-then :
    {A : Type 0} (P : A → Type 0) (b : Bool) (x y : A) → b ≡ true → P x → P (if b then x else y)
if-then P true x y h q = q
if-then P false x y h q = absurd (ground (arith, h))
