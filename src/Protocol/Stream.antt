-- ===== src/Protocol/Stream.antt =====
-- `CommPort::ParseCommStream`: what it accepts, that it stays inside the buffer, and the round trip
-- with `Pack`.
use livox_sdk.Base.{
  ℕ, ◌+◌, ◌≤◌, ◌≡◌, ◌≢◌, refl, arith, List, ◌++◌, none, some, true, false, Bool-cases, ltb, no_more,
  inl, inr, length, take, drop, length-take, length-drop, by_prefix,
}
use livox_sdk.Protocol.{CommPacket, FastCrc, check_preamble, PackOutput, pack, parse_comm_stream}
use livox_sdk.Protocol.Frame.{frame, Fits}
use livox_sdk.Protocol.Pack.{pack-frame}
use livox_sdk.Protocol.Parse.{
  check_preamble_total, check_preamble-frame, parse_packet-frame, parse_packet_total,
}

check_preamble_short :
    (crc : FastCrc) (buf : List ℕ) (n : ℕ)
    → ltb n 24 ≡ true
    → check_preamble crc (some buf) n ≡ some false
unfolding check_preamble
check_preamble_short crc buf n short = rw short

-- A stream that is no longer than its buffer is read inside the buffer: the parser always answers.
pub parse_comm_stream_total :
    (crc : FastCrc) (buf : List ℕ) (n : ℕ)
    → n ≤ length buf
    → parse_comm_stream crc (some buf) n ≢ none
unfolding parse_comm_stream
parse_comm_stream_total crc buf n inside = elim (Bool-cases (ltb n 24)) [
  | inl short ↦ ground (arith, check_preamble_short crc buf n short)
  | inr long ↦
      ground (arith, check_preamble_total crc n buf inside, parse_packet_total n buf inside)
]

module _ (crc : FastCrc) (p : CommPacket) (body rest : List ℕ) (n : ℕ) where
  -- A frame of a packet whose fields fit, whatever its six reserved bytes and whatever stands
  -- behind it, is parsed to that packet when the stream is at least as long as the frame; its data
  -- pointer reaches what stands behind the frame too.
  pub parse_comm_stream-frame :
      (rsvd : List ℕ)
      → Fits p
      → length rsvd ≡ 6
      → length body ≡ p.data_len
      → p.data_len + 24 ≤ n
      → parse_comm_stream crc (some (frame crc p rsvd body ++ rest)) n
        ≡ some (some (record p { protocol = 0; version = 0; payload = some (body ++ rest) }))
  unfolding parse_comm_stream
  parse_comm_stream-frame rsvd fits six len_is room =
      by_prefix 6
        (λ r.
          length r ≡ 6
          → parse_comm_stream crc (some (frame crc p r body ++ rest)) n
            ≡ some (some (record p { protocol = 0; version = 0; payload = some (body ++ rest) })))
        (λ r0 r1 r2 r3 r4 r5 r e. rw (no_more r (omega arith)) (
          rw (check_preamble-frame crc p body rest fits len_is n room r0 r1 r2 r3 r4 r5)
            (parse_packet-frame crc p body rest fits len_is n room r0 r1 r2 r3 r4 r5)))
        rsvd (omega arith) six

-- A packet of the SDK whose fields fit the frame's, whose data is readable and whose frame fits the
-- output buffer is packed, and what `Pack` writes the stream parser reads back: the same packet, of
-- version 0, with the buffer behind the header as its data.
pub pack-parse_comm_stream :
    (crc : FastCrc) (p : CommPacket) (o_buf body more : List ℕ) (o_len : ℕ)
    → Fits p
    → p.payload ≡ some (body ++ more)
    → length body ≡ p.data_len
    → p.data_len + 24 ≤ length o_buf
    → (out : PackOutput) × (pack crc o_buf (length o_buf) o_len p ≡ some out)
      × (out.o_len ≡ p.data_len + 24)
      × (parse_comm_stream crc (some out.o_buf) out.o_len
          ≡ some (
              some (record p {
                protocol = 0;
                version = 0;
                payload = some (body ++ drop (p.data_len + 24) o_buf);
              })))
pack-parse_comm_stream crc p o_buf body more o_len fits data_is len_is room = (
  _,
  pack-frame crc p o_buf o_len (length o_buf) body more fits data_is len_is room room,
  refl,
  parse_comm_stream-frame crc p body (drop (p.data_len + 24) o_buf) (p.data_len + 24)
      (take 6 (drop 12 o_buf)) fits
      (length-take 6 (drop 12 o_buf) (omega (arith, length-drop 12 o_buf))) len_is (omega arith),
)
