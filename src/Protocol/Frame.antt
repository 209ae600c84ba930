-- ===== src/Protocol/Frame.antt =====
-- The frame of a packet, described without the code: header, checksums and data in their order.
use livox_sdk.Base.{ℕ, ◌+◌, ◌<◌, ◌≡◌, List, ◌++◌, if◌then◌else◌, ◌==◌, length, le8, le16, le32}
use livox_sdk.Protocol.{CommPacket, FastCrc, sdk_protocol_sof, sdk_ver}

-- The eighteen bytes that the first checksum covers; `rsvd` are the six reserved ones.
abbrev pub header : CommPacket → List ℕ → List ℕ
header p rsvd =
    le8 sdk_protocol_sof
    ++ (le8 sdk_ver
        ++ (le16 (p.data_len + 24)
            ++ (le32 p.seq_num
                ++ (le16 p.cmd_id ++ (le8 p.cmd_type ++ (le8 p.sender_type ++ rsvd))))))

abbrev pub checksum : FastCrc → List ℕ → ℕ
checksum crc body = if length body == 0 then 0 else crc.crc32 body

abbrev pub frame : FastCrc → CommPacket → List ℕ → List ℕ → List ℕ
frame crc p rsvd body =
    header p rsvd ++ (le16 (crc.ccitt (header p rsvd)) ++ (le32 (checksum crc body) ++ body))

-- The ranges of the C fields, and a data length that still fits the 16-bit length of the frame.
pub record Fits (p : CommPacket) : Type 0 where
  pub is_sdk : p.protocol ≡ 0
  pub seq : p.seq_num < 65536
  pub id : p.cmd_id < 65536
  pub type : p.cmd_type < 256
  pub sender : p.sender_type < 256
  pub len : p.data_len + 24 < 65536
