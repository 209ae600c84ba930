-- ===== src/Config.antt =====
-- The check of the configurations of the devices, sdk_core/params_check.cpp.
pub mod Addresses
pub mod Tests
use livox_sdk.Base.{
  ℕ, Bool, true, false, ◌||◌, ◌&&◌, Option, none, some, List, [], ◌∷◌, ltb, leb, ◌==◌,
  if◌then◌else◌, le, read_at,
}
use mathlib.Core.List.{reverse}
use livox_sdk.Requests.{Attempt, fault, thrown, refused, done, ◌>>=◌, access}
use livox_sdk.Requests.Address.{ip_to_u8}
use livox_sdk.Requests.Build.{LivoxLidarCfg, LivoxLidarNetInfo, type_mid360, type_mid360s}

abbrev pub type_mid360l : ℕ
type_mid360l = 41

unfoldable pub same_text : List ℕ → List ℕ → Bool
same_text [] [] = true
same_text [] (y ∷ ys) = false
same_text (x ∷ xs) [] = false
same_text (x ∷ xs) (y ∷ ys) = if x == y then same_text xs ys else false

-- `lidars_ip.find(ip) != lidars_ip.end()`, for the addresses that were put into the set.
abbrev pub has_ip : List ℕ → List (List ℕ) → Bool
has_ip ip [] = false
has_ip ip (x ∷ seen) = if same_text x ip then true else has_ip ip seen

abbrev pub is_empty : List ℕ → Bool
is_empty [] = true
is_empty (x ∷ xs) = false

abbrev pub ip_of : LivoxLidarCfg → List ℕ
ip_of cfg = cfg.lidar_net_info.lidar_ipaddr

-- The second loop of `CheckLidarIp`.
unfoldable pub check_custom_ips : List LivoxLidarCfg → List (List ℕ) → Bool
check_custom_ips [] seen = true
check_custom_ips (c ∷ customs) seen =
    if is_empty (ip_of c)
    then false
    else if has_ip (ip_of c) seen
    then false
    else check_custom_ips customs (ip_of c ∷ seen)

-- The first loop, and the second behind it.
unfoldable pub check_ips : List LivoxLidarCfg → List LivoxLidarCfg → List (List ℕ) → Bool
check_ips [] customs seen = check_custom_ips customs seen
check_ips (c ∷ lidars) customs seen =
    if is_empty (ip_of c)
    then check_ips lidars customs seen
    else if has_ip (ip_of c) seen
    then false
    else check_ips lidars customs (ip_of c ∷ seen)

-- `CheckLidarIp`.
abbrev pub check_lidar_ip : List LivoxLidarCfg → List LivoxLidarCfg → Bool
check_lidar_ip lidars customs = check_ips lidars customs []

abbrev pub has_mid360_ports : ℕ → Bool
has_mid360_ports dev_type =
    if dev_type == type_mid360
    then true
    else if dev_type == type_mid360s
    then true
    else dev_type == type_mid360l

-- `CheckPort`: the ports of the three types are the same.
abbrev pub check_port : LivoxLidarCfg → LivoxLidarCfg
check_port cfg =
    if has_mid360_ports cfg.device_type
    then record cfg {
      lidar_net_info = record cfg.lidar_net_info {
        cmd_data_port = 56100;
        push_msg_port = 56200;
        point_data_port = 56300;
        imu_data_port = 56400;
        log_data_port = 56500;
      };
    }
    else cfg

-- `CheckLidarPort`, for one of the two lists.
abbrev pub check_lidar_port : List LivoxLidarCfg → List LivoxLidarCfg
check_lidar_port [] = []
check_lidar_port (c ∷ cfgs) = check_port c ∷ check_lidar_port cfgs

-- One round of `CheckLidarMulticastIp`: whether the address is one of a group.
abbrev pub check_multicast_ip : LivoxLidarCfg → Attempt Bool
check_multicast_ip cfg =
    if is_empty cfg.host_net_info.multicast_ip
    then done true
    else elim (ip_to_u8 cfg.host_net_info.multicast_ip) [
      | fault ↦ fault
      | thrown ↦ thrown
      | refused ↦ done false
      | done parts ↦ access (read_at 0 4 (reverse parts)) >>= λ bytes.
          done (if leb (le bytes) 0xE0000000 then false else leb (le bytes) 0xEFFFFFFF)
    ]

unfoldable pub check_multicast_ips : List LivoxLidarCfg → Attempt Bool
check_multicast_ips [] = done true
check_multicast_ips (c ∷ cfgs) =
    let rest = check_multicast_ips cfgs in
    check_multicast_ip c >>= λ ok. if ok then rest else done false

-- `CheckLidarMulticastIp`.
abbrev pub check_lidar_multicast_ip : List LivoxLidarCfg → List LivoxLidarCfg → Attempt Bool
check_lidar_multicast_ip lidars customs =
    check_multicast_ips lidars >>= λ ok. if ok then check_multicast_ips customs else done false

abbrev pub no_cfgs : List LivoxLidarCfg → Bool
no_cfgs [] = true
no_cfgs (c ∷ cfgs) = false

-- `Check`, where neither list is null: the answer, and the lists.
unfoldable pub check :
    List LivoxLidarCfg → List LivoxLidarCfg → Attempt Bool × List LivoxLidarCfg × List LivoxLidarCfg
check lidars customs =
    if no_cfgs lidars && no_cfgs customs
    then (done false, lidars, customs)
    else if check_lidar_ip lidars customs
    then (
      check_lidar_multicast_ip (check_lidar_port lidars) (check_lidar_port customs),
      check_lidar_port lidars,
      check_lidar_port customs,
    )
    else (done false, lidars, customs)
