-- ===== src/Requests/Tests.antt =====
-- A client of one HAP device, the settings that it sends, and addresses that are none.
use livox_sdk.Base.{
  ℕ, ◌%◌, ◌≤◌, ◌<◌, ◌≡◌, refl, arith, true, none, some, List, [], ◌∷◌, ◌++◌, map, length, replicate,
}
use livox_sdk.Base.Map.{Map, find}
use livox_sdk.Protocol.{FastCrc}
use livox_sdk.Commands.{LivoxLidarStatus, get_lidar_command_handler, get_seq}
use livox_sdk.Commands.Sending.{sent_or_failed}
use livox_sdk.StateInfo.Info.{Field}
use livox_sdk.StateInfo.Keys.{ParamKeyName, key_code}
use livox_sdk.StateInfo.Query.{get_query_lidar_internal_info_keys}
use livox_sdk.StateInfo.Values.{ip_str}
use livox_sdk.Requests.{thrown, refused, done, ◌>>=◌, zeroed}
use livox_sdk.Requests.Address.{ip_to_u8, ip_parts, find_dot, stoi, digits, skip_space}
use livox_sdk.Requests.Dotted.{IsAnswer, ip_to_u8_total, ip_to_u8-ip_str}
use livox_sdk.Requests.Build.{
  HostNetInfo, LivoxLidarNetInfo, LivoxLidarCfg, HostIpInfo, build_update_lidar_cfg_request,
  build_update_mid360_lidar_cfg_request, build_update_mid360l_lidar_cfg_request,
  build_update_avia2_lidar_cfg_request, build_set_host_state_info_ip_cfg_request,
  build_set_host_point_data_ip_info_request, build_set_host_imu_data_ip_info_request,
}
use livox_sdk.Requests.Message.{request_of, three_addresses}
use livox_sdk.Requests.Update.{data_addresses, update-message, update_three-message}
use livox_sdk.Requests.Client.{Client, send_request}
use livox_sdk.Requests.Queries.{query_livox_lidar_internal_info}
use livox_sdk.Requests.Listing.{Ascending, has, listing_request, query-listing}
use livox_sdk.Requests.Sdk.{blind_spot, set}
use livox_sdk.Requests.Wire.{setting_tlv, set-message}
use livox_sdk.Requests.Outgoing.{set-frame}
use livox_sdk.Requests.ReadBack.{ReadsBack, host_addresses_ReadsBack}

abbrev home : List ℕ
home = b'1' ∷ b'9' ∷ b'2' ∷ b'.' ∷ b'1' ∷ b'6' ∷ b'8' ∷ b'.' ∷ b'1' ∷ b'.' ∷ b'5' ∷ []

read_home : ip_to_u8 home ≡ done (192 ∷ 168 ∷ 1 ∷ 5 ∷ [])
unfolding ip_to_u8 ip_parts find_dot stoi digits skip_space
read_home = refl

-- A part that is too large, three parts, and a part without digits.
no_addresses :
    (ip_to_u8 (b'1' ∷ b'.' ∷ b'2' ∷ b'.' ∷ b'3' ∷ b'.' ∷ b'2' ∷ b'5' ∷ b'7' ∷ []) ≡ refused)
    × (ip_to_u8 (b'1' ∷ b'.' ∷ b'2' ∷ b'.' ∷ b'3' ∷ []) ≡ refused)
    × (ip_to_u8 (b'1' ∷ b'.' ∷ b'.' ∷ b'3' ∷ b'.' ∷ b'4' ∷ []) ≡ thrown)
    × (ip_to_u8 (b'1' ∷ b'.' ∷ b'-' ∷ b'2' ∷ b'.' ∷ b'3' ∷ b'.' ∷ b'4' ∷ []) ≡ refused)
unfolding ip_to_u8 ip_parts find_dot stoi digits skip_space
no_addresses = (refl, refl, refl, refl)

abbrev host : HostNetInfo
host = record {
  host_ip = home;
  multicast_ip = [];
  cmd_data_port = 56101;
  push_msg_port = 56201;
  point_data_port = 56301;
  imu_data_port = 56401;
  log_data_port = 56501;
}

abbrev device : LivoxLidarNetInfo
device = record {
  lidar_ipaddr = [];
  lidar_subnet_mask = [];
  lidar_gateway = [];
  cmd_data_port = 56100;
  push_msg_port = 56200;
  point_data_port = 56300;
  imu_data_port = 56400;
  log_data_port = 56500;
}

abbrev cfg : LivoxLidarCfg
cfg = record { device_type = 10; lidar_net_info = device; host_net_info = host; cmd_key_set = [] }

abbrev crc : FastCrc
crc = record {
  ccitt = λ bs. 7;
  crc32 = λ bs. 9;
  ccitt-lt = λ bs. omega arith;
  crc32-lt = λ bs. omega arith;
}

abbrev client : Client
client = record {
  transport = record {
    crc = crc;
    sends = λ handle buf size. true;
    inet_ntoa = λ handle. home;
    meanwhile = λ m. m;
  };
  handlers = record { device_dev_type = (77, 10) ∷ []; lidars_command_handler = (10, 1) ∷ [] };
  now = 50;
  last = 5;
  commands = [];
}

abbrev types : Map ℕ
types = (77, 9) ∷ []

known : get_lidar_command_handler client.handlers 77 ≡ some 1
unfolding get_lidar_command_handler find
known = refl

early : get_seq 5 < 65536
unfolding get_seq
early = omega arith

ip_to_u8_total_example : IsAnswer (ip_to_u8 (b'.' ∷ b'.' ∷ []))
ip_to_u8_total_example = ip_to_u8_total (b'.' ∷ b'.' ∷ [])

ip_to_u8-ip_str_example :
    ip_to_u8 (ip_str (192 ∷ 168 ∷ 1 ∷ 256 ∷ []))
    ≡ done (192 % 256 ∷ 168 % 256 ∷ 1 % 256 ∷ 256 % 256 ∷ [])
ip_to_u8-ip_str_example =
    ip_to_u8-ip_str 192 168 1 256 (omega arith, omega arith, omega arith, omega arith)

update-message_example : build_update_lidar_cfg_request cfg zeroed ≡ data_addresses cfg
update-message_example = update-message cfg

update_three-message_example :
    (build_update_mid360_lidar_cfg_request cfg zeroed ≡ three_addresses 56200 56300 56400 host)
    × (build_update_mid360l_lidar_cfg_request cfg zeroed ≡ three_addresses 56200 56300 56400 host)
    × (build_update_avia2_lidar_cfg_request cfg zeroed ≡ three_addresses 56200 56300 56400 host)
update_three-message_example = update_three-message cfg

set-message_example :
    set client 77 (blind_spot 50) (some 3)
    ≡ send_request client 77 0x0100
        (setting_tlv (blind_spot 50) >>= λ t. done (request_of (t ∷ [])))
        (some 3)
set-message_example = set-message client 77 (blind_spot 50) (some 3)

set-frame_example :
    set client 77 (blind_spot 50) (some 3)
    ≡ done (
        sent_or_failed client.transport client.handlers 50 5 77 0x0100
          (some ((1 ∷ 0 ∷ 0 ∷ 0 ∷ 0x13 ∷ 0 ∷ 4 ∷ 0 ∷ 50 ∷ 0 ∷ 0 ∷ 0 ∷ []) ++ replicate 1388 0))
          12
          (some 3)
          []
          true)
set-frame_example =
    set-frame client 77 (blind_spot 50) (some 3)
      (record { key = 0x13; value = 50 ∷ 0 ∷ 0 ∷ 0 ∷ [] }) 1 known early refl

abbrev endpoint_cfg : HostIpInfo
endpoint_cfg = record {
  host_ip_addr = ip_str (192 ∷ 168 ∷ 1 ∷ 5 ∷ []);
  host_port = 56301;
  lidar_port = 56300;
}

host_addresses_ReadsBack_example :
    ReadsBack
      (build_set_host_state_info_ip_cfg_request endpoint_cfg zeroed)
      Field.host_state_ip_addr
      Field.host_state_info_port
      Field.lidar_state_info_port
      0x0005
      endpoint_cfg
    × ReadsBack
        (build_set_host_point_data_ip_info_request endpoint_cfg zeroed)
        Field.host_point_ip_addr
        Field.host_point_data_port
        Field.lidar_point_data_port
        0x0006
        endpoint_cfg
    × ReadsBack
        (build_set_host_imu_data_ip_info_request endpoint_cfg zeroed)
        Field.host_imu_ip_addr
        Field.host_imu_data_port
        Field.lidar_imu_data_port
        0x0007
        endpoint_cfg
host_addresses_ReadsBack_example =
    host_addresses_ReadsBack 192 168 1 5 56301 56300
      (omega arith, omega arith, omega arith, omega arith) (omega arith, omega arith)

query-listing_example :
    (get_query_lidar_internal_info_keys types 77 ≡ none
      → query_livox_lidar_internal_info client types 77 (some 3)
        ≡ done (record { status = LivoxLidarStatus.invalid_handle; calls = []; commands = [] }))
    × ((ks : List ParamKeyName)
        → get_query_lidar_internal_info_keys types 77 ≡ some ks
        → (js : List ℕ) × (query_livox_lidar_internal_info client types 77 (some 3)
            ≡ send_request client 77 0x0101 (done (listing_request js)) (some 3))
          × Ascending 0 js
          × (length js ≤ 33)
          × ((k : ℕ) → has k js ≡ has k (map key_code ks)))
query-listing_example = query-listing client types 77 (some 3)
