-- ===== src/Protocol/Rebuilt.antt =====
-- The bytes of an accepted stream are those of a frame: each word is put together again.
use livox_sdk.Base.{
  ℕ, ◌+◌, ◌-◌, ◌*◌, ◌≤◌, ◌≡◌, refl, arith, List, [], ◌∷◌, ◌++◌, some, ◌%◌, ◌/◌, sym, ap, All,
  IsByte,
}
use livox_sdk.Protocol.{CommPacket, FastCrc}
use livox_sdk.Protocol.Frame.{header, frame, checksum}

module _ (crc : FastCrc)
    (b0 b1 b2 b3 b4 b5 b6 b7 b8 b9 b10 b11 b12 b13 b14 b15 b16 b17 b18 b19 b20 b21 b22 b23 : ℕ)
    (body rest : List ℕ) where
  abbrev pub packet : CommPacket
  packet = record {
    protocol = 0;
    version = b1;
    seq_num = b4 + 256 * (b5 + 256 * (b6 + 256 * b7));
    cmd_id = b8 + 256 * b9;
    cmd_type = b10;
    sender_type = b11;
    payload = some (body ++ rest);
    data_len = b2 + 256 * b3 - 24;
  }

  pub header_bytes :
      All IsByte (
        b0
        ∷ b1
        ∷ b2
        ∷ b3
        ∷ b4
        ∷ b5
        ∷ b6
        ∷ b7
        ∷ b8
        ∷ b9
        ∷ b10
        ∷ b11
        ∷ b12
        ∷ b13
        ∷ b14
        ∷ b15
        ∷ b16
        ∷ b17
        ∷ b18
        ∷ b19
        ∷ b20
        ∷ b21
        ∷ b22
        ∷ b23
        ∷ (body ++ rest))
      → b0 ≡ 0xaa
      → b1 ≡ 0
      → 24 ≤ b2 + 256 * b3
      → header packet (b12 ∷ b13 ∷ b14 ∷ b15 ∷ b16 ∷ b17 ∷ [])
        ≡ b0 ∷ b1 ∷ b2 ∷ b3 ∷ b4 ∷ b5 ∷ b6 ∷ b7 ∷ b8 ∷ b9 ∷ b10 ∷ b11 ∷ b12 ∷ b13 ∷ b14 ∷ b15 ∷ b16
          ∷ b17 ∷ []
  header_bytes bytes sof ver long =
      let len : b2 + 256 * b3 - 24 + 24 ≡ b2 + 256 * b3 = omega arith in
      let x2 : (b2 + 256 * b3) % 256 ≡ b2 = omega arith in
      let x3 : (b2 + 256 * b3) / 256 % 256 ≡ b3 = omega arith in
      let x4 : (b4 + 256 * (b5 + 256 * (b6 + 256 * b7))) % 256 ≡ b4 = omega arith in
      let x5 : (b4 + 256 * (b5 + 256 * (b6 + 256 * b7))) / 256 % 256 ≡ b5 = omega arith in
      let x6 : (b4 + 256 * (b5 + 256 * (b6 + 256 * b7))) / 65536 % 256 ≡ b6 = omega arith in
      let x7 : (b4 + 256 * (b5 + 256 * (b6 + 256 * b7))) / 16777216 % 256 ≡ b7 = omega arith in
      let x8 : (b8 + 256 * b9) % 256 ≡ b8 = omega arith in
      let x9 : (b8 + 256 * b9) / 256 % 256 ≡ b9 = omega arith in
      let x10 : b10 % 256 ≡ b10 = omega arith in
      let x11 : b11 % 256 ≡ b11 = omega arith in
      rw (sof, ver, len, x2, x3, x4, x5, x6, x7, x8, x9, x10, x11) refl

  pub frame_bytes :
      All IsByte (
        b0
        ∷ b1
        ∷ b2
        ∷ b3
        ∷ b4
        ∷ b5
        ∷ b6
        ∷ b7
        ∷ b8
        ∷ b9
        ∷ b10
        ∷ b11
        ∷ b12
        ∷ b13
        ∷ b14
        ∷ b15
        ∷ b16
        ∷ b17
        ∷ b18
        ∷ b19
        ∷ b20
        ∷ b21
        ∷ b22
        ∷ b23
        ∷ (body ++ rest))
      → b0 ≡ 0xaa
      → b1 ≡ 0
      → 24 ≤ b2 + 256 * b3
      → b18 + 256 * b19
        ≡ crc.ccitt (
            b0 ∷ b1 ∷ b2 ∷ b3 ∷ b4 ∷ b5 ∷ b6 ∷ b7 ∷ b8 ∷ b9 ∷ b10 ∷ b11 ∷ b12 ∷ b13 ∷ b14 ∷ b15
            ∷ b16 ∷ b17 ∷ [])
      → b20 + 256 * (b21 + 256 * (b22 + 256 * b23)) ≡ checksum crc body
      → b0
          ∷ b1
          ∷ b2
          ∷ b3
          ∷ b4
          ∷ b5
          ∷ b6
          ∷ b7
          ∷ b8
          ∷ b9
          ∷ b10
          ∷ b11
          ∷ b12
          ∷ b13
          ∷ b14
          ∷ b15
          ∷ b16
          ∷ b17
          ∷ b18
          ∷ b19
          ∷ b20
          ∷ b21
          ∷ b22
          ∷ b23
          ∷ (body ++ rest)
        ≡ frame crc packet (b12 ∷ b13 ∷ b14 ∷ b15 ∷ b16 ∷ b17 ∷ []) body ++ rest
  frame_bytes bytes sof ver long sum16 sum32 =
      let y18 : (b18 + 256 * b19) % 256 ≡ b18 = omega arith in
      let y19 : (b18 + 256 * b19) / 256 % 256 ≡ b19 = omega arith in
      let y20 : (b20 + 256 * (b21 + 256 * (b22 + 256 * b23))) % 256 ≡ b20 = omega arith in
      let y21 : (b20 + 256 * (b21 + 256 * (b22 + 256 * b23))) / 256 % 256 ≡ b21 = omega arith in
      let y22 : (b20 + 256 * (b21 + 256 * (b22 + 256 * b23))) / 65536 % 256 ≡ b22 = omega arith in
      let y23 : (b20 + 256 * (b21 + 256 * (b22 + 256 * b23))) / 16777216 % 256 ≡ b23 =
        omega arith in
      rw (header_bytes bytes sof ver long, ← sum16, ← sum32, y18, y19, y20, y21, y22, y23)
        (ap (λ (hd : List ℕ). hd ++ (b18 ∷ b19 ∷ b20 ∷ b21 ∷ b22 ∷ b23 ∷ (body ++ rest)))
          (sym (header_bytes bytes sof ver long)))
