-- ===== src/StateInfo/Tests.antt =====
-- A pushed message with the type of the point data, an unknown key and a serial number.
use livox_sdk.Base.{◌↔◌, ◌≡◌, refl, arith, ◌&&◌, List, [], ◌∷◌, ◌++◌, some, All, replicate}
use livox_sdk.Base.Outcome.{ok, Safe}
use livox_sdk.Protocol.{CommPacket}
use livox_sdk.StateInfo.Keys.{KeyMask, key_code, find_key}
use livox_sdk.StateInfo.Info.{Field, Info, IsSized, zero_info, set_field, size_of, offset_of}
use livox_sdk.StateInfo.Values.{parse_value, copy_value, store, parse_status}
use livox_sdk.StateInfo.Parse.{insert, no_keys, parse_case, parse_tlvs, parse_state_info}
use livox_sdk.StateInfo.Message.{Tlv, FitsTlv, message, apply_tlvs, parse_state_info-message}
use livox_sdk.StateInfo.Safety.{parse_state_info-IsSized}
use livox_sdk.StateInfo.Mask.{handled, mentions, parse_state_info-key_mask}
use livox_sdk.StateInfo.Members.{chosen}
use livox_sdk.StateInfo.Names.{json_order}
use livox_sdk.StateInfo.Json.{livox_lidar_state_info_to_json, parse}
use livox_sdk.StateInfo.Report.{calls, AllWritten, parse_complete}

abbrev tlvs : List Tlv
tlvs =
    record { key = 0; value = 2 ∷ [] }
    ∷ record { key = 0x7777; value = 9 ∷ 9 ∷ [] }
    ∷ record { key = 0x8000; value = 65 ∷ 66 ∷ 0 ∷ [] }
    ∷ []

tlvs-Fits : All FitsTlv tlvs
tlvs-Fits =
    ((omega arith, omega arith), ((omega arith, omega arith), ((omega arith, omega arith), tt)))

abbrev push : CommPacket
push = record {
  protocol = 0;
  version = 0;
  seq_num = 1;
  cmd_id = 0x0102;
  cmd_type = 0;
  sender_type = 1;
  payload = some (message tlvs 0 0 ++ (1 ∷ 2 ∷ []));
  data_len = 22;
}

abbrev info : Info
info =
    set_field Field.sn (65 ∷ 66 ∷ 0 ∷ replicate 13 0)
      (set_field Field.pcl_data_type (2 ∷ []) zero_info)

abbrev mask : KeyMask
mask = insert 0x8000 (insert 0 no_keys)

parse_state_info-message_example : parse_state_info push ≡ apply_tlvs tlvs (zero_info, no_keys)
parse_state_info-message_example =
    parse_state_info-message tlvs 0 0 (1 ∷ 2 ∷ []) push tlvs-Fits (omega arith) refl (omega arith)

parse_state_info-IsSized_example : Safe (λ s. IsSized s.0) (parse_state_info push)
parse_state_info-IsSized_example =
    parse_state_info-IsSized push (message tlvs 0 0 ++ (1 ∷ 2 ∷ [])) refl (omega arith)

parsed : parse_state_info push ≡ ok (info, mask)
unfolding parse_state_info parse_tlvs parse_case parse_value copy_value store find_key key_code
    zero_info set_field size_of offset_of parse_status
parsed = refl

printed : parse push ≡ ok (livox_lidar_state_info_to_json info mask)
unfolding parse
printed = rw parsed refl

parse_state_info-key_mask_example : mask 0x8000 ≡ (handled 0x8000 && mentions 0x8000 tlvs)
parse_state_info-key_mask_example =
    parse_state_info-key_mask tlvs 0 0 (1 ∷ 2 ∷ []) push (info, mask) 0x8000 tlvs-Fits (omega arith)
      refl (omega arith) parsed

parse_complete_example :
    (calls [] [] (livox_lidar_state_info_to_json info mask)
      ≡ some (chosen (λ j. handled j && mentions j tlvs) json_order, []))
    ↔ AllWritten (livox_lidar_state_info_to_json info mask)
parse_complete_example =
    parse_complete tlvs 0 0 (1 ∷ 2 ∷ []) push (livox_lidar_state_info_to_json info mask) tlvs-Fits
      (omega arith) refl (omega arith) printed
