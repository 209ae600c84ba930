-- ===== src/Protocol.antt =====
-- sdk_core/comm: the packet of a command and its frame on the wire (protocol.h, sdk_protocol.h,
-- sdk_protocol.cpp), and the stream parser over it (comm_port.cpp).
pub mod Frame
pub mod Pack
pub mod Parse
pub mod Stream
pub mod Rebuilt
pub mod Accepted
pub mod Tests
use livox_sdk.Base.{
  ℕ, ◌+◌, ◌-◌, ◌%◌, ◌<◌, Bool, true, false, not, ◌&&◌, ◌||◌, if◌then◌else◌, Option, none, some,
  List, [], ◌∷◌, ltb, ◌==◌, ◌>>=◌, drop, read_at, write_at, le, le8, le16, le32,
}

-- `data` is the memory that the pointer reaches; `none` is the null pointer.
pub record CommPacket : Type 0 where
  pub protocol : ℕ
  pub version : ℕ
  pub seq_num : ℕ
  pub cmd_id : ℕ
  pub cmd_type : ℕ
  pub sender_type : ℕ
  pub payload : Option (List ℕ)
  pub data_len : ℕ

-- The two checksums of the FastCRC library, over the bytes that they are given.
pub record FastCrc : Type 0 where
  pub ccitt : List ℕ → ℕ
  pub crc32 : List ℕ → ℕ
  pub ccitt-lt : (bs : List ℕ) → ccitt bs < 65536
  pub crc32-lt : (bs : List ℕ) → crc32 bs < 4294967296

abbrev pub lidar_sdk : ℕ
lidar_sdk = 0

abbrev pub sdk_protocol_sof : ℕ
sdk_protocol_sof = 0xaa

abbrev pub sdk_ver : ℕ
sdk_ver = 0

-- `sizeof(SdkPreamble)`, and `sizeof(SdkPacket) - 1`, packed.
abbrev pub preamble_len : ℕ
preamble_len = 24

abbrev pub packet_wrapper_len : ℕ
packet_wrapper_len = 24

pub data Ret : Type 0 where
  failed succeeded : Ret

-- What `Pack` leaves behind: its return value, the output buffer and `*o_len`.
pub record PackOutput : Type 0 where
  pub ret : Ret
  pub o_buf : List ℕ
  pub o_len : ℕ

-- The `n` bytes of a packet's data. A null pointer may be asked for no byte.
abbrev pub read_data : Option (List ℕ) → ℕ → Option (List ℕ)
read_data none n = if n == 0 then some [] else none
read_data (some bs) n = read_at 0 n bs

-- `SdkProtocol::Pack`; `none` is an access outside of a buffer.
unfoldable pub pack : FastCrc → List ℕ → ℕ → ℕ → CommPacket → Option PackOutput
pack crc o_buf o_buf_size o_len p =
    if not (p.protocol == lidar_sdk)
    then some (record { ret = Ret.failed; o_buf = o_buf; o_len = o_len })
    else do
      let length = (p.data_len + packet_wrapper_len) % 65536
      started ← write_at 0 (le8 sdk_protocol_sof) o_buf
      versioned ← write_at 1 (le8 sdk_ver) started
      sized ← write_at 2 (le16 length) versioned
      if ltb o_buf_size length
          then some (record { ret = Ret.failed; o_buf = sized; o_len = o_len })
          else do
            numbered ← write_at 4 (le32 (p.seq_num % 65536)) sized
            named ← write_at 8 (le16 p.cmd_id) numbered
            typed ← write_at 10 (le8 p.cmd_type) named
            sent ← write_at 11 (le8 p.sender_type) typed
            header ← read_at 0 18 sent
            checked ← write_at 18 (le16 (crc.ccitt header)) sent
            body ← read_data p.payload p.data_len
            summed ← write_at 20 (le32 (if p.data_len == 0 then 0 else crc.crc32 body)) checked
            filled ← write_at 24 body summed
            some (record { ret = Ret.succeeded; o_buf = filled; o_len = length })

-- The field of a packed structure at an offset.
abbrev pub field : ℕ → ℕ → List ℕ → Option ℕ
field o n buf = do bs ← read_at o n buf; some (le bs)

-- The buffer from an offset on: what a pointer into it reaches.
abbrev pub tail_at : ℕ → List ℕ → List ℕ
tail_at n buf = drop n buf

-- `SdkProtocol::ParsePacket`: the packet, or `none` for false.
unfoldable pub parse_packet : Option (List ℕ) → ℕ → Option (Option CommPacket)
parse_packet none buf_size = some none
parse_packet (some i_buf) buf_size = if ltb buf_size packet_wrapper_len then some none else do
  length ← field 2 2 i_buf
  if ltb length packet_wrapper_len || ltb buf_size length then some none else do
    version ← field 1 1 i_buf
    seq_num ← field 4 4 i_buf
    cmd_id ← field 8 2 i_buf
    cmd_type ← field 10 1 i_buf
    sender_type ← field 11 1 i_buf
    some (
        some (record {
          protocol = lidar_sdk;
          version = version;
          seq_num = seq_num;
          cmd_id = cmd_id;
          cmd_type = cmd_type;
          sender_type = sender_type;
          payload = some (tail_at 24 i_buf);
          data_len = length - packet_wrapper_len;
        }))

-- `SdkProtocol::CheckPreamble`.
unfoldable pub check_preamble : FastCrc → Option (List ℕ) → ℕ → Option Bool
check_preamble crc none buf_size = some false
check_preamble crc (some buf) buf_size = if ltb buf_size preamble_len then some false else do
  sof ← field 0 1 buf
  version ← field 1 1 buf
  length ← field 2 2 buf
  crc16_h ← field 18 2 buf
  crc32_d ← field 20 4 buf
  header ← read_at 0 18 buf
  if not (sof == sdk_protocol_sof)
      then some false
      else if not (version == sdk_ver)
      then some false
      else if ltb length packet_wrapper_len || ltb buf_size length
      then some false
      else if not (crc16_h == crc.ccitt header)
      then some false
      else do
        body ← read_at 24 (length - packet_wrapper_len) buf
        some (crc32_d == (if length - packet_wrapper_len == 0 then 0 else crc.crc32 body))

-- `CommPort::ParseCommStream`.
unfoldable pub parse_comm_stream : FastCrc → Option (List ℕ) → ℕ → Option (Option CommPacket)
parse_comm_stream crc buf buf_size = do
  ok ← check_preamble crc buf buf_size
  if ok then parse_packet buf buf_size else some none

-- `SdkProtocol::GetPacketLen`.
unfoldable pub get_packet_len : List ℕ → Option ℕ
get_packet_len buf = field 2 2 buf
