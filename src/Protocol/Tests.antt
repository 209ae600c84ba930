-- ===== src/Protocol/Tests.antt =====
-- Runs of the command protocol: a work mode request, its frame, and what is read back from it.
use livox_sdk.Base.{
  ℕ, ◌+◌, ◌%◌, ◌≡◌, refl, arith, List, [], ◌∷◌, ◌++◌, none, some, take, drop, replicate,
  length-replicate, are_bytes-IsByte,
}
use livox_sdk.Protocol.{
  CommPacket, FastCrc, PackOutput, Ret, pack, parse_comm_stream, check_preamble, parse_packet,
}
use livox_sdk.Protocol.Frame.{frame, Fits}
use livox_sdk.Protocol.Pack.{pack-frame, pack_overrun}
use livox_sdk.Protocol.Stream.{pack-parse_comm_stream}
use livox_sdk.Protocol.Accepted.{parse_comm_stream-IsFrame, IsFrame}

-- A stand-in for the checksums: the sum of the bytes.
abbrev sum : List ℕ → ℕ
sum [] = 0
sum (b ∷ bs) = b + sum bs

abbrev sum_crc : FastCrc
sum_crc = record {
  ccitt = λ bs. sum bs % 65536;
  crc32 = λ bs. sum bs % 4294967296;
  ccitt-lt = λ bs. omega arith;
  crc32-lt = λ bs. omega arith;
}

abbrev request : CommPacket
request = record {
  protocol = 0;
  version = 0;
  seq_num = 7;
  cmd_id = 0x0100;
  cmd_type = 0;
  sender_type = 0;
  payload = some (1 ∷ 2 ∷ 3 ∷ []);
  data_len = 2;
}

request-Fits : Fits request
request-Fits = record {
  is_sdk = refl;
  seq = omega arith;
  id = omega arith;
  type = omega arith;
  sender = omega arith;
  len = omega arith;
}

abbrev room : List ℕ
room = replicate 32 0

abbrev wire : List ℕ
wire = frame sum_crc request (replicate 6 0) (1 ∷ 2 ∷ [])

pack-frame_example :
    pack sum_crc room 32 5 request
    ≡ some (record { ret = Ret.succeeded; o_buf = wire ++ replicate 6 0; o_len = 26 })
unfolding take drop
pack-frame_example =
    pack-frame sum_crc request room 5 32 (1 ∷ 2 ∷ []) (3 ∷ []) request-Fits refl refl (omega arith)
      (omega arith)

pack-parse_comm_stream_example :
    (out : PackOutput) × (pack sum_crc room 32 5 request ≡ some out)
    × (out.o_len ≡ 26)
    × (parse_comm_stream sum_crc (some out.o_buf) out.o_len
        ≡ some (some (record request { payload = some (1 ∷ 2 ∷ replicate 6 0) })))
unfolding drop
pack-parse_comm_stream_example =
    pack-parse_comm_stream sum_crc request room (1 ∷ 2 ∷ []) (3 ∷ []) 5 request-Fits refl refl
      (omega arith)

parse_comm_stream-IsFrame_example :
    IsFrame sum_crc 26 (record request { payload = some (1 ∷ 2 ∷ []) }) wire
unfolding parse_comm_stream check_preamble parse_packet drop
parse_comm_stream-IsFrame_example =
    parse_comm_stream-IsFrame sum_crc wire 26 (record request { payload = some (1 ∷ 2 ∷ []) })
      (are_bytes-IsByte wire refl) (omega arith) refl

-- The longest data that a 16-bit length can tell of.
abbrev long_request : CommPacket
long_request = record {
  protocol = 0;
  version = 0;
  seq_num = 7;
  cmd_id = 0x0100;
  cmd_type = 0;
  sender_type = 0;
  payload = some (replicate 65535 0 ++ []);
  data_len = 65535;
}

pack_overrun_example : pack sum_crc room 32 5 long_request ≡ none
pack_overrun_example =
    pack_overrun sum_crc long_request room 5 (replicate 65535 0) [] refl (omega arith) (omega arith)
      refl (length-replicate {A = ℕ} 65535 0) (omega arith) (omega arith)
