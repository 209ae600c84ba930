-- ===== src/StateInfo/Json.antt =====
-- `LivoxLidarStateInfoToJson` and `Parse`: what is written for the keys that a message had.
use livox_sdk.Base.{List, [], ◌∷◌, ◌++◌, if◌then◌else◌}
use livox_sdk.Base.Outcome.{Outcome, ok, ◌>>=◌}
use livox_sdk.Protocol.{CommPacket}
use livox_sdk.StateInfo.Keys.{KeyMask, key_code}
use livox_sdk.StateInfo.Info.{Info}
use livox_sdk.StateInfo.Text.{Event, Row, start_object, end_object}
use livox_sdk.StateInfo.Settings.{network_rows, setup_rows}
use livox_sdk.StateInfo.Reports.{mode_rows, identity_rows, state_rows}
use livox_sdk.StateInfo.Parse.{parse_state_info}

unfoldable pub json_rows : Info → List Row
unfolding network_rows setup_rows mode_rows identity_rows state_rows
json_rows info =
    network_rows info
    ++ (setup_rows info ++ (mode_rows info ++ (identity_rows info ++ state_rows info)))

unfoldable pub write_rows : KeyMask → List Row → List Event
write_rows mask [] = []
write_rows mask ((k, es) ∷ rows) = (if mask (key_code k) then es else []) ++ write_rows mask rows

-- `StartObject`, the members, `EndObject`.
unfoldable pub livox_lidar_state_info_to_json : Info → KeyMask → List Event
livox_lidar_state_info_to_json info mask =
    start_object ∷ (write_rows mask (json_rows info) ++ (end_object ∷ []))

-- `ParseLidarStateInfo::Parse`.
unfoldable pub parse : CommPacket → Outcome (List Event)
parse p = do (info, mask) ← parse_state_info p; ok (livox_lidar_state_info_to_json info mask)
