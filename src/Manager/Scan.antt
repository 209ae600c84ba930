-- ===== src/Manager/Scan.antt =====
-- The loop of `AddViewLidar` in sdk_core/device_manager.cpp over the keys of an answer. It looks at no
-- length of the data, and its counter is a `uint8_t`.
use livox_sdk.Base.{
  ℕ, zero, suc, ◌+◌, ◌%◌, Option, none, some, List, ltb, ◌==◌, if◌then◌else◌, le, read_at, ◌>>=◌,
}

-- The loop after some rounds: still running, outside of the data, or at its end.
pub data Rounds (A : Type 0) : Type 0 where
  running : Rounds A
  fault : Rounds A
  done : A → Rounds A

pub record ViewPorts : Type 0 where
  pub host_point_port : ℕ
  pub lidar_point_port : ℕ
  pub host_imu_data_port : ℕ
  pub lidar_imu_data_port : ℕ

abbrev pub no_ports : ViewPorts
no_ports = record {
  host_point_port = 0;
  lidar_point_port = 0;
  host_imu_data_port = 0;
  lidar_imu_data_port = 0;
}

-- The ports in the value of a key at an offset.
abbrev pub take_ports : ℕ → ℕ → List ℕ → ViewPorts → Option ViewPorts
take_ports key off d p =
    if key == 6
    then (read_at (off + 8) 2 d >>= λ host. read_at (off + 10) 2 d >>= λ lidar.
        some (record p { host_point_port = le host; lidar_point_port = le lidar }))
    else if key == 7
    then (read_at (off + 8) 2 d >>= λ host. read_at (off + 10) 2 d >>= λ lidar.
        some (record p { host_imu_data_port = le host; lidar_imu_data_port = le lidar }))
    else some p

-- One round: the ports, and the length of the value.
abbrev pub read_key : ℕ → List ℕ → ViewPorts → Option (ViewPorts × ℕ)
read_key off d p = do
  key ← read_at off 2 d
  val_len ← read_at (off + 2) 2 d
  ports ← take_ports (le key) off d p
  some (ports, le val_len)

-- `for (uint8_t i = 0; i < param_num; ++i)`.
unfoldable pub scan : ℕ → ℕ → ℕ → ℕ → List ℕ → ViewPorts → Rounds ViewPorts
scan zero i param_num off d p = if ltb i param_num then running else done p
scan (suc fuel) i param_num off d p =
    if ltb i param_num
    then (elim (read_key off d p) [
      | none ↦ fault
      | some (ports, val_len) ↦
          scan fuel ((i + 1) % 256) param_num ((off + 4 + val_len) % 65536) d ports
    ])
    else done p
