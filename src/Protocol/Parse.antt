-- ===== src/Protocol/Parse.antt =====
-- `CheckPreamble` and `ParsePacket` against the frame.
use livox_sdk.Base.{
  ℕ, ◌+◌, ◌-◌, ◌*◌, ◌≤◌, ◌<◌, ◌≡◌, ◌≢◌, refl, arith, List, [], ◌∷◌, ◌++◌, none, some, true, false,
  length, ltb, ==_self, le→ltb, le, le8, le16, le32, drop, by_prefix, read_front_total,
  read_front-append,
}
use livox_sdk.Protocol.{CommPacket, FastCrc, check_preamble, parse_packet, lidar_sdk}
use livox_sdk.Protocol.Frame.{frame, header, checksum, Fits}

checksum-lt : (crc : FastCrc) (body : List ℕ) → checksum crc body < 4294967296
checksum-lt crc body = ground (arith, crc.crc32-lt body)

module _ (crc : FastCrc) (n : ℕ) where
  abbrev pub Answers : List ℕ → Type 0
  Answers buf = (n ≤ length buf) → (24 ≤ n) → check_preamble crc (some buf) n ≢ none

  pub check_preamble_total : (buf : List ℕ) → Answers buf
  unfolding check_preamble
  check_preamble_total buf h k =
      by_prefix 24 Answers
        (λ b0 b1 b2 b3 b4 b5 b6 b7 b8 b9 b10 b11 b12 b13 b14 b15 b16 b17 b18 b19 b20 b21 b22 b23
            rest inside long.
          ground (arith, read_front_total (b2 + 256 * (b3 + 0) - 24) rest))
        buf (omega arith) h k

module _ (crc : FastCrc) (p : CommPacket) (body rest : List ℕ) (fits : Fits p)
    (len_is : length body ≡ p.data_len) (n : ℕ) (room : p.data_len + 24 ≤ n) where
  pub check_preamble-frame :
      (r0 r1 r2 r3 r4 r5 : ℕ)
      → let rsvd = r0 ∷ r1 ∷ r2 ∷ r3 ∷ r4 ∷ r5 ∷ [] in
        check_preamble crc (some (frame crc p rsvd body ++ rest)) n ≡ some true
  unfolding check_preamble
  check_preamble-frame r0 r1 r2 r3 r4 r5 =
      let rsvd = r0 ∷ r1 ∷ r2 ∷ r3 ∷ r4 ∷ r5 ∷ [] in
      let e0 : ltb n 24 ≡ false = le→ltb n 24 (omega arith) in
      let e1 : le (le16 (p.data_len + 24)) ≡ p.data_len + 24 = omega (arith, fits.len) in
      let e2 : le (le16 (crc.ccitt (header p rsvd))) ≡ crc.ccitt (header p rsvd) =
        omega (arith, crc.ccitt-lt (header p rsvd)) in
      let e3 : le (le32 (checksum crc body)) ≡ checksum crc body =
        omega (arith, checksum-lt crc body) in
      let e4 : ltb (p.data_len + 24) 24 ≡ false = le→ltb _ _ (omega arith) in
      let e5 : p.data_len + 24 - 24 ≡ p.data_len = omega arith in
      rw
        (
          e0,
          e1,
          e2,
          e3,
          e4,
          le→ltb _ _ room,
          ==_self,
          e5,
          ← len_is,
          read_front-append body rest,
          ==_self (checksum crc body),
        )
        refl

  pub parse_packet-frame :
      (r0 r1 r2 r3 r4 r5 : ℕ)
      → let rsvd = r0 ∷ r1 ∷ r2 ∷ r3 ∷ r4 ∷ r5 ∷ [] in
        parse_packet (some (frame crc p rsvd body ++ rest)) n
        ≡ some
            (some (record p { protocol = lidar_sdk; version = 0; payload = some (body ++ rest) }))
  unfolding parse_packet drop
  parse_packet-frame r0 r1 r2 r3 r4 r5 =
      let rsvd = r0 ∷ r1 ∷ r2 ∷ r3 ∷ r4 ∷ r5 ∷ [] in
      let e0 : ltb n 24 ≡ false = le→ltb n 24 (omega arith) in
      let e1 : le (le16 (p.data_len + 24)) ≡ p.data_len + 24 = omega (arith, fits.len) in
      let e2 : le (le32 p.seq_num) ≡ p.seq_num = omega (arith, fits.seq) in
      let e3 : le (le16 p.cmd_id) ≡ p.cmd_id = omega (arith, fits.id) in
      let e4 : le (le8 p.cmd_type) ≡ p.cmd_type = omega (arith, fits.type) in
      let e5 : le (le8 p.sender_type) ≡ p.sender_type = omega (arith, fits.sender) in
      let e6 : ltb (p.data_len + 24) 24 ≡ false = le→ltb _ _ (omega arith) in
      let e7 : p.data_len + 24 - 24 ≡ p.data_len = omega arith in
      rw (e0, e1, e2, e3, e4, e5, e6, le→ltb _ _ room, e7) refl

module _ (n : ℕ) where
  abbrev pub Reads : List ℕ → Type 0
  Reads buf = (n ≤ length buf) → (24 ≤ n) → parse_packet (some buf) n ≢ none

  pub parse_packet_total : (buf : List ℕ) → Reads buf
  unfolding parse_packet
  parse_packet_total buf h k =
      by_prefix 24 Reads
        (λ b0 b1 b2 b3 b4 b5 b6 b7 b8 b9 b10 b11 b12 b13 b14 b15 b16 b17 b18 b19 b20 b21 b22 b23
            rest inside long.
          ground arith)
        buf (omega arith) h k

module _ (crc : FastCrc) (n : ℕ)
    (b0 b1 b2 b3 b4 b5 b6 b7 b8 b9 b10 b11 b12 b13 b14 b15 b16 b17 b18 b19 b20 b21 b22 b23 : ℕ)
    (rest : List ℕ) where
  abbrev pub Header : Type 0
  Header =
      (24 ≤ n)
      × (b0 ≡ 0xaa)
      × (b1 ≡ 0)
      × (24 ≤ b2 + 256 * b3)
      × (b2 + 256 * b3 ≤ n)
      × (b18 + 256 * b19
          ≡ crc.ccitt (
              b0 ∷ b1 ∷ b2 ∷ b3 ∷ b4 ∷ b5 ∷ b6 ∷ b7 ∷ b8 ∷ b9 ∷ b10 ∷ b11 ∷ b12 ∷ b13 ∷ b14 ∷ b15
              ∷ b16 ∷ b17 ∷ []))

  pub accepted_header :
      check_preamble crc
          (some (
            b0 ∷ b1 ∷ b2 ∷ b3 ∷ b4 ∷ b5 ∷ b6 ∷ b7 ∷ b8 ∷ b9 ∷ b10 ∷ b11 ∷ b12 ∷ b13 ∷ b14 ∷ b15
            ∷ b16 ∷ b17 ∷ b18 ∷ b19 ∷ b20 ∷ b21 ∷ b22 ∷ b23 ∷ rest))
          n
        ≡ some true
      → Header
  unfolding check_preamble
  accepted_header h = ground arith

  pub accepted_body :
      (body rest' : List ℕ)
      → check_preamble crc
          (some (
            b0 ∷ b1 ∷ b2 ∷ b3 ∷ b4 ∷ b5 ∷ b6 ∷ b7 ∷ b8 ∷ b9 ∷ b10 ∷ b11 ∷ b12 ∷ b13 ∷ b14 ∷ b15
            ∷ b16 ∷ b17 ∷ b18 ∷ b19 ∷ b20 ∷ b21 ∷ b22 ∷ b23 ∷ rest))
          n
        ≡ some true
      → rest ≡ body ++ rest'
      → length body ≡ b2 + 256 * b3 - 24
      → b20 + 256 * (b21 + 256 * (b22 + 256 * b23)) ≡ checksum crc body
  unfolding check_preamble
  accepted_body body rest' h e l = ground (arith, read_front-append body rest')

  pub parsed :
      (q : CommPacket)
      → Header
      → parse_packet
          (some (
            b0 ∷ b1 ∷ b2 ∷ b3 ∷ b4 ∷ b5 ∷ b6 ∷ b7 ∷ b8 ∷ b9 ∷ b10 ∷ b11 ∷ b12 ∷ b13 ∷ b14 ∷ b15
            ∷ b16 ∷ b17 ∷ b18 ∷ b19 ∷ b20 ∷ b21 ∷ b22 ∷ b23 ∷ rest))
          n
        ≡ some (some q)
      → q ≡ record {
        protocol = 0;
        version = b1;
        seq_num = b4 + 256 * (b5 + 256 * (b6 + 256 * b7));
        cmd_id = b8 + 256 * b9;
        cmd_type = b10;
        sender_type = b11;
        payload = some rest;
        data_len = b2 + 256 * b3 - 24;
      }
  unfolding parse_packet drop
  parsed q h e = ground arith
