-- ===== src/Config/Tests.antt =====
-- Two configurations of device types and two of single lidars.
use livox_sdk.Base.{ℕ, ◌≡◌, ◌↔◌, refl, true, false, List, [], ◌∷◌, ◌++◌}
use livox_sdk.Requests.{done}
use livox_sdk.Requests.Address.{ip_to_u8, ip_parts, find_dot, stoi, digits, skip_space}
use livox_sdk.Requests.Build.{LivoxLidarCfg}
use livox_sdk.Config.{
  check_lidar_ip, check_ips, check_custom_ips, same_text, check_port, check, check_multicast_ips,
}
use livox_sdk.Config.Addresses.{AllSet, Distinct, set_ips, custom_ips, check_lidar_ip-Distinct}

abbrev by_type : LivoxLidarCfg
by_type = record {
  device_type = 9;
  lidar_net_info = record {
    lidar_ipaddr = [];
    lidar_subnet_mask = [];
    lidar_gateway = [];
    cmd_data_port = 1;
    push_msg_port = 2;
    point_data_port = 3;
    imu_data_port = 4;
    log_data_port = 5;
  };
  host_net_info = record {
    host_ip = [];
    multicast_ip = b'2' ∷ b'2' ∷ b'4' ∷ b'.' ∷ b'1' ∷ b'.' ∷ b'1' ∷ b'.' ∷ b'5' ∷ [];
    cmd_data_port = 56101;
    push_msg_port = 56201;
    point_data_port = 56301;
    imu_data_port = 56401;
    log_data_port = 56501;
  };
  cmd_key_set = [];
}

abbrev with_ip : List ℕ → LivoxLidarCfg
with_ip ip = record by_type { lidar_net_info = record by_type.lidar_net_info { lidar_ipaddr = ip } }

abbrev first : LivoxLidarCfg
first = with_ip (b'1' ∷ b'.' ∷ b'1' ∷ [])

abbrev second : LivoxLidarCfg
second = with_ip (b'1' ∷ b'.' ∷ b'2' ∷ [])

accepted :
    check (by_type ∷ by_type ∷ []) (first ∷ [])
    ≡ (done true, check_port by_type ∷ check_port by_type ∷ [], check_port first ∷ [])
unfolding check check_ips check_custom_ips check_multicast_ips ip_to_u8 ip_parts find_dot stoi
    digits skip_space
accepted = refl

conflict : check (first ∷ []) (second ∷ first ∷ []) ≡ (done false, first ∷ [], second ∷ first ∷ [])
unfolding check check_ips check_custom_ips same_text
conflict = refl

check_lidar_ip-Distinct_example : (check_lidar_ip (by_type ∷ first ∷ []) (second ∷ []) ≡ true) ↔ (
    AllSet (custom_ips (second ∷ []))
    × Distinct (set_ips (by_type ∷ first ∷ []) ++ custom_ips (second ∷ [])))
check_lidar_ip-Distinct_example = check_lidar_ip-Distinct (by_type ∷ first ∷ []) (second ∷ [])
