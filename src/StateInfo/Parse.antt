-- ===== src/StateInfo/Parse.antt =====
-- `ParseLidarStateInfo::ParseStateInfo`: the loop over the keys. The offset is at most the length of
-- the data, which is 16 bits wide, and the counter runs up to a 16-bit number, so neither wraps.
use livox_sdk.Base.{
  ℕ, zero, suc, ◌+◌, ◌-◌, true, false, ◌||◌, Option, none, some, List, ltb, ◌==◌, if◌then◌else◌,
  read_at, le,
}
use livox_sdk.Base.Outcome.{Outcome, reject, ok, lift, ◌>>=◌}
use livox_sdk.Protocol.{CommPacket}
use livox_sdk.StateInfo.Keys.{ParamKeyName, KeyMask, key_code, find_key}
use livox_sdk.StateInfo.Info.{Info, zero_info}
use livox_sdk.StateInfo.Values.{parse_value}

-- `key_mask.insert(key)`.
abbrev pub insert : ℕ → KeyMask → KeyMask
insert k mask j = if k == j then true else mask j

abbrev pub no_keys : KeyMask
no_keys j = false

-- The switch: a key without a case changes nothing.
unfoldable pub parse_case :
    Option ParamKeyName → List ℕ → ℕ → ℕ → Info × KeyMask → Outcome (Info × KeyMask)
unfolding key_code
parse_case none d off len (info, mask) = ok (info, mask)
parse_case (some k) d off len (info, mask) = do
  stored ← parse_value k d off len info
  ok (stored, insert (key_code k) mask)

-- The rounds that are left of the loop, at an offset.
unfoldable pub parse_tlvs : ℕ → List ℕ → ℕ → ℕ → Info × KeyMask → Outcome (Info × KeyMask)
parse_tlvs zero d data_len off s = ok s
parse_tlvs (suc left) d data_len off s =
    if ltb data_len off || ltb (data_len - off) 4 then reject else do
      key ← lift (read_at off 2 d)
      val_len ← lift (read_at (off + 2) 2 d)
      if ltb data_len (off + 4) || ltb (data_len - (off + 4)) (le val_len) then reject else do
        stored ← parse_case (find_key (le key)) d (off + 4) (le val_len) s
        parse_tlvs left d data_len (off + 4 + le val_len) stored

-- `ParseStateInfo`, from the zeroed structure and the empty set that `Parse` starts with.
unfoldable pub parse_state_info : CommPacket → Outcome (Info × KeyMask)
unfolding zero_info
parse_state_info p = elim p.payload [
  | none ↦ reject
  | some d ↦ if ltb p.data_len 4 then reject else do
    key_num ← lift (read_at 0 2 d)
    parse_tlvs (le key_num) d p.data_len 4 (zero_info, no_keys)
]
