-- ===== src/Requests/Queries.antt =====
-- The queries of `CommandImpl` in sdk_core/command_handler/command_impl.cpp, and the calls that hand
-- their data on: the upgrade of the firmware and the reboot.
use livox_sdk.Base.{
  ℕ, ◌+◌, ◌%◌, List, [], ◌∷◌, Option, none, some, length, le16, ltb, ◌==◌, if◌then◌else◌,
}
use livox_sdk.Base.Map.{Map}
use livox_sdk.StateInfo.Keys.{ParamKeyName, key_code, fw_type, version_app}
use livox_sdk.StateInfo.Query.{get_query_lidar_internal_info_keys}
use livox_sdk.Commands.{Sent, LivoxLidarStatus}
use livox_sdk.Requests.{Attempt, done, ◌>>=◌, Request, zeroed, put, put_key_num}
use livox_sdk.Requests.Client.{Client, send, send_request}

-- `std::set<ParamKeyName>`: the keys in the order of their values, each once.
abbrev pub insert_key : ℕ → List ℕ → List ℕ
insert_key k [] = k ∷ []
insert_key k (j ∷ js) =
    let later = insert_key k js in
    if ltb k j then k ∷ j ∷ js else if k == j then j ∷ js else j ∷ later

unfoldable pub key_set : List ParamKeyName → List ℕ
key_set [] = []
key_set (k ∷ ks) = insert_key (key_code k) (key_set ks)

-- `kList->key = key; req_len += sizeof(uint16_t);`
abbrev pub list_key : ℕ → Request → Attempt Request
list_key key r = do
  with_key ← put r.len (le16 key) r
  done (record with_key { len = (r.len + 2) % 65536 })

-- The loop over the keys.
unfoldable pub list_keys : List ℕ → Request → Attempt Request
list_keys [] r = done r
list_keys (k ∷ ks) r = list_key k r >>= list_keys ks

abbrev pub keys_request : List ℕ → Attempt Request
keys_request ks = put_key_num (length ks) zeroed >>= list_keys ks

abbrev pub get_internal_info : ℕ
get_internal_info = 0x0101

-- The types of the devices are those of `device_dev_type_`.
unfoldable pub query_livox_lidar_internal_info : Client → Map ℕ → ℕ → Option ℕ → Attempt Sent
query_livox_lidar_internal_info c device_dev_type handle cb =
    elim (get_query_lidar_internal_info_keys device_dev_type handle) [
      | none ↦
          done
            (record { status = LivoxLidarStatus.invalid_handle; calls = []; commands = c.commands })
      | some keys ↦ send_request c handle get_internal_info (keys_request (key_set keys)) cb
    ]

unfoldable pub query_livox_lidar_fw_type : Client → ℕ → Option ℕ → Attempt Sent
query_livox_lidar_fw_type c handle cb =
    send_request c handle get_internal_info (put_key_num 1 zeroed >>= list_key (key_code fw_type))
      cb

unfoldable pub query_livox_lidar_firmware_ver : Client → ℕ → Option ℕ → Attempt Sent
query_livox_lidar_firmware_ver c handle cb =
    send_request c handle get_internal_info
      (put_key_num 1 zeroed >>= list_key (key_code version_app)) cb

unfoldable pub livox_lidar_start_upgrade :
    Client → ℕ → Option (List ℕ) → ℕ → Option ℕ → Attempt Sent
livox_lidar_start_upgrade c handle buffer len cb = send c handle 0x0400 buffer len cb

unfoldable pub livox_lidar_xfer_firmware :
    Client → ℕ → Option (List ℕ) → ℕ → Option ℕ → Attempt Sent
livox_lidar_xfer_firmware c handle buffer len cb = send c handle 0x0401 buffer len cb

unfoldable pub livox_lidar_complete_xfer_firmware :
    Client → ℕ → Option (List ℕ) → ℕ → Option ℕ → Attempt Sent
livox_lidar_complete_xfer_firmware c handle buffer len cb = send c handle 0x0402 buffer len cb

unfoldable pub livox_lidar_get_upgrade_progress :
    Client → ℕ → Option (List ℕ) → ℕ → Option ℕ → Attempt Sent
livox_lidar_get_upgrade_progress c handle buffer len cb = send c handle 0x0403 buffer len cb

unfoldable pub livox_lidar_request_firmware_info : Client → ℕ → Option ℕ → Attempt Sent
livox_lidar_request_firmware_info c handle cb = send c handle 0xff none 0 cb

unfoldable pub livox_lidar_request_reboot : Client → ℕ → Option ℕ → Attempt Sent
livox_lidar_request_reboot c handle cb = send c handle 0x0200 (some (le16 100)) 2 cb
