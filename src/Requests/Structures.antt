-- ===== src/Requests/Structures.antt =====
-- The structures of include/livox_lidar_def.h that are values of keys, and their bytes.
use livox_sdk.Base.{ℕ, ◌++◌, List, le8, le16, le32}

-- A `float` is given by its bits, a signed number by its word.
pub record LivoxLidarInstallAttitude : Type 0 where
  pub roll_deg : ℕ
  pub pitch_deg : ℕ
  pub yaw_deg : ℕ
  pub x : ℕ
  pub y : ℕ
  pub z : ℕ

pub record FovCfg : Type 0 where
  pub yaw_start : ℕ
  pub yaw_stop : ℕ
  pub pitch_start : ℕ
  pub pitch_stop : ℕ
  pub rsvd : ℕ

pub record FuncIoCfg : Type 0 where
  pub in0 : ℕ
  pub int1 : ℕ
  pub out0 : ℕ
  pub out1 : ℕ

pub record LivoxLidarLogParam : Type 0 where
  pub log_send_method : ℕ
  pub log_id : ℕ
  pub log_frequency : ℕ
  pub is_save_setting : ℕ
  pub check_code : ℕ

-- The bytes of the packed structures.
abbrev pub attitude_bytes : LivoxLidarInstallAttitude → List ℕ
attitude_bytes a =
    le32 a.roll_deg
    ++ (le32 a.pitch_deg ++ (le32 a.yaw_deg ++ (le32 a.x ++ (le32 a.y ++ le32 a.z))))

abbrev pub fov_bytes : FovCfg → List ℕ
fov_bytes f =
    le32 f.yaw_start
    ++ (le32 f.yaw_stop ++ (le32 f.pitch_start ++ (le32 f.pitch_stop ++ le32 f.rsvd)))

abbrev pub func_io_bytes : FuncIoCfg → List ℕ
func_io_bytes f = le8 f.in0 ++ (le8 f.int1 ++ (le8 f.out0 ++ le8 f.out1))

abbrev pub log_param_bytes : LivoxLidarLogParam → List ℕ
log_param_bytes p =
    le8 p.log_send_method
    ++ (le16 p.log_id ++ (le16 p.log_frequency ++ (le8 p.is_save_setting ++ le8 p.check_code)))
