-- ===== src/Protocol/Accepted.antt =====
-- What `ParseCommStream` accepts is a frame.
use livox_sdk.Base.{
  ℕ, ◌+◌, ◌-◌, ◌*◌, ◌≤◌, ◌≡◌, refl, arith, List, [], ◌∷◌, ◌++◌, some, true, subst, sym, length, All,
  IsByte, by_prefix, split_at,
}
use livox_sdk.Protocol.{CommPacket, FastCrc, check_preamble, parse_packet, parse_comm_stream}
use livox_sdk.Protocol.Frame.{frame}
use native.Mathlib.Nat.{le_trans}
use livox_sdk.Protocol.Parse.{Header, accepted_header, accepted_body, parsed}
use livox_sdk.Protocol.Rebuilt.{frame_bytes}

-- The first `n` bytes of the buffer start with a frame of the packet, whose data pointer reaches
-- the frame's data and what stands behind it.
abbrev pub IsFrame : FastCrc → ℕ → CommPacket → List ℕ → Type 0
IsFrame crc n q buf =
    (rsvd : List ℕ) × (body : List ℕ) × (rest : List ℕ) × (buf ≡ frame crc q rsvd body ++ rest)
    × (length rsvd ≡ 6)
    × (length body ≡ q.data_len)
    × (q.data_len + 24 ≤ n)
    × (q.payload ≡ some (body ++ rest))
    × (q.protocol ≡ 0)
    × (q.version ≡ 0)

abbrev Sound : FastCrc → ℕ → CommPacket → List ℕ → Type 0
Sound crc n q buf =
    All IsByte buf
    → n ≤ length buf
    → check_preamble crc (some buf) n ≡ some true
    → parse_packet (some buf) n ≡ some (some q)
    → IsFrame crc n q buf

module _ (crc : FastCrc) (n : ℕ) where
  frame_with :
      (q : CommPacket)
      (b0 b1 b2 b3 b4 b5 b6 b7 b8 b9 b10 b11 b12 b13 b14 b15 b16 b17 b18 b19 b20 b21 b22 b23 : ℕ)
      (body rest : List ℕ)
      → length body ≡ b2 + 256 * b3 - 24
      → Sound crc n q (
          b0
          ∷ b1
          ∷ b2
          ∷ b3
          ∷ b4
          ∷ b5
          ∷ b6
          ∷ b7
          ∷ b8
          ∷ b9
          ∷ b10
          ∷ b11
          ∷ b12
          ∷ b13
          ∷ b14
          ∷ b15
          ∷ b16
          ∷ b17
          ∷ b18
          ∷ b19
          ∷ b20
          ∷ b21
          ∷ b22
          ∷ b23
          ∷ (body ++ rest))
  frame_with q b0 b1 b2 b3 b4 b5 b6 b7 b8 b9 b10 b11 b12 b13 b14 b15 b16 b17 b18 b19 b20 b21 b22 b23
        body rest l bytes inside good is =
      let h : Header crc n b0 b1 b2 b3 b4 b5 b6 b7 b8 b9 b10 b11 b12 b13 b14 b15 b16 b17 b18 b19 b20
          b21 b22 b23 (body ++ rest) =
        accepted_header crc n b0 b1 b2 b3 b4 b5 b6 b7 b8 b9 b10 b11 b12 b13 b14 b15 b16 b17 b18 b19
          b20 b21 b22 b23 (body ++ rest) good in
      let sum =
        accepted_body crc n b0 b1 b2 b3 b4 b5 b6 b7 b8 b9 b10 b11 b12 b13 b14 b15 b16 b17 b18 b19
          b20 b21 b22 b23 (body ++ rest) body rest good refl l in
      let e =
        parsed crc n b0 b1 b2 b3 b4 b5 b6 b7 b8 b9 b10 b11 b12 b13 b14 b15 b16 b17 b18 b19 b20 b21
          b22 b23 (body ++ rest) q h is in
      rw e (
        b12 ∷ b13 ∷ b14 ∷ b15 ∷ b16 ∷ b17 ∷ [],
        body,
        rest,
        frame_bytes crc b0 b1 b2 b3 b4 b5 b6 b7 b8 b9 b10 b11 b12 b13 b14 b15 b16 b17 b18 b19 b20
            b21 b22 b23 body rest bytes h.1 h.2 h.3 h.5 sum,
        refl,
        l,
        omega arith,
        refl,
        refl,
        h.2,
      )

  frame_prefixed :
      (q : CommPacket)
      (b0 b1 b2 b3 b4 b5 b6 b7 b8 b9 b10 b11 b12 b13 b14 b15 b16 b17 b18 b19 b20 b21 b22 b23 : ℕ)
      (rest : List ℕ)
      → Sound crc n q (
          b0 ∷ b1 ∷ b2 ∷ b3 ∷ b4 ∷ b5 ∷ b6 ∷ b7 ∷ b8 ∷ b9 ∷ b10 ∷ b11 ∷ b12 ∷ b13 ∷ b14 ∷ b15 ∷ b16
          ∷ b17 ∷ b18 ∷ b19 ∷ b20 ∷ b21 ∷ b22 ∷ b23 ∷ rest)
  frame_prefixed q b0 b1 b2 b3 b4 b5 b6 b7 b8 b9 b10 b11 b12 b13 b14 b15 b16 b17 b18 b19 b20 b21 b22
        b23 rest bytes inside good is =
      let h : Header crc n b0 b1 b2 b3 b4 b5 b6 b7 b8 b9 b10 b11 b12 b13 b14 b15 b16 b17 b18 b19 b20
          b21 b22 b23 rest =
        accepted_header crc n b0 b1 b2 b3 b4 b5 b6 b7 b8 b9 b10 b11 b12 b13 b14 b15 b16 b17 b18 b19
          b20 b21 b22 b23 rest good in
      let (body, more, e, l) = split_at (b2 + 256 * b3 - 24) rest (omega arith) in
      subst
        (λ r. Sound crc n q (
          b0 ∷ b1 ∷ b2 ∷ b3 ∷ b4 ∷ b5 ∷ b6 ∷ b7 ∷ b8 ∷ b9 ∷ b10 ∷ b11 ∷ b12 ∷ b13 ∷ b14 ∷ b15 ∷ b16
          ∷ b17 ∷ b18 ∷ b19 ∷ b20 ∷ b21 ∷ b22 ∷ b23 ∷ r))
        (sym e)
        (frame_with q b0 b1 b2 b3 b4 b5 b6 b7 b8 b9 b10 b11 b12 b13 b14 b15 b16 b17 b18 b19 b20 b21
          b22 b23 body more l)
        bytes inside good is

accepted :
    (crc : FastCrc) (buf : List ℕ) (n : ℕ) (q : CommPacket)
    → parse_comm_stream crc (some buf) n ≡ some (some q)
    → (check_preamble crc (some buf) n ≡ some true) × (parse_packet (some buf) n ≡ some (some q))
unfolding parse_comm_stream
accepted crc buf n q h = ground arith

long_enough :
    (crc : FastCrc) (buf : List ℕ) (n : ℕ) → check_preamble crc (some buf) n ≡ some true → 24 ≤ n
unfolding check_preamble
long_enough crc buf n h = ground arith

-- From a stream of bytes that is no longer than its buffer, a packet comes out of the parser only
-- if the stream starts with a frame of exactly that packet, checksums included, that is no longer
-- than the stream; its data pointer reaches the data of the frame and what stands behind it.
pub parse_comm_stream-IsFrame :
    (crc : FastCrc) (buf : List ℕ) (n : ℕ) (q : CommPacket)
    → All IsByte buf
    → n ≤ length buf
    → parse_comm_stream crc (some buf) n ≡ some (some q)
    → IsFrame crc n q buf
parse_comm_stream-IsFrame crc buf n q bytes inside h =
    let (good, is) = accepted crc buf n q h in
    by_prefix 24 (Sound crc n q) (frame_prefixed crc n q) buf
      (le_trans (long_enough crc buf n good) inside) bytes inside good is
