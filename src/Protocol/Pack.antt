-- ===== src/Protocol/Pack.antt =====
-- `SdkProtocol::Pack` against the frame.
use livox_sdk.Base.{
  ℕ, ◌+◌, ◌%◌, ◌≤◌, ◌<◌, ◌≡◌, refl, arith, List, ◌∷◌, ◌++◌, none, some, true, length, take, drop,
  drop-add, drop-append, ◌==◌, lt→ltb, le→ltb, le8, le16, by_prefix, split_at, read_front-append,
  write_front-append, write_front_overflow,
}
use livox_sdk.Protocol.{CommPacket, FastCrc, Ret, sdk_protocol_sof, sdk_ver, pack}
use livox_sdk.Protocol.Frame.{frame, Fits}

drop_past : (xs ys : List ℕ) (n : ℕ) → length xs ≡ n → drop n (xs ++ ys) ≡ ys
drop_past xs ys n h = rw (← h) (drop-append xs ys)

module _ (crc : FastCrc) (p : CommPacket) (body more : List ℕ) (o_buf_size o_len : ℕ) where
  abbrev Packs : List ℕ → Type 0
  Packs o_buf =
      (p.data_len + 24 ≤ length o_buf)
      → pack crc o_buf o_buf_size o_len p
        ≡ some (record {
          ret = Ret.succeeded;
          o_buf = frame crc p (take 6 (drop 12 o_buf)) body ++ drop (p.data_len + 24) o_buf;
          o_len = p.data_len + 24;
        })

  module _ (fits : Fits p) (data_is : p.payload ≡ some (body ++ more))
      (len_is : length body ≡ p.data_len) (allowed : p.data_len + 24 ≤ o_buf_size) where
    pack_prefixed :
        (b0 b1 b2 b3 b4 b5 b6 b7 b8 b9 b10 b11 b12 b13 b14 b15 b16 b17 b18 b19 b20 b21 b22 b23 : ℕ)
        (rest : List ℕ)
        → Packs (
            b0 ∷ b1 ∷ b2 ∷ b3 ∷ b4 ∷ b5 ∷ b6 ∷ b7 ∷ b8 ∷ b9 ∷ b10 ∷ b11 ∷ b12 ∷ b13 ∷ b14 ∷ b15
            ∷ b16 ∷ b17 ∷ b18 ∷ b19 ∷ b20 ∷ b21 ∷ b22 ∷ b23 ∷ rest)
    unfolding pack take drop
    pack_prefixed b0 b1 b2 b3 b4 b5 b6 b7 b8 b9 b10 b11 b12 b13 b14 b15 b16 b17 b18 b19 b20 b21 b22
          b23 rest room =
        let (old, rest', e, l) = split_at (length body) rest (omega arith) in
        let e1 : (p.protocol == 0) ≡ true = ground (arith, fits.is_sdk) in
        let e2 : (p.data_len + 24) % 65536 ≡ p.data_len + 24 = omega (arith, fits.len) in
        let e3 : p.seq_num % 65536 ≡ p.seq_num = omega (arith, fits.seq) in
        rw
          (
            e1,
            e2,
            le→ltb _ _ allowed,
            e3,
            data_is,
            ← len_is,
            read_front-append body more,
            drop-add (length body) 24,
            e,
            write_front-append body old rest' l,
            drop_past old rest' (length body) l,
          )
          refl

    pack-frame_from : (o_buf : List ℕ) → Packs o_buf
    pack-frame_from o_buf room = by_prefix 24 Packs pack_prefixed o_buf (omega arith) room

module _ (crc : FastCrc) (p : CommPacket) (o_buf : List ℕ) (o_len : ℕ) where
  -- A packet of the SDK whose fields fit those of the frame (a sequence number and an identifier of 16
  -- bits, a type and a sender of 8, a length of the frame below 65536), whose data is readable, and
  -- whose frame fits into the output buffer and the size that is told of it, is packed: `Pack`
  -- returns 0, the buffer starts with the frame, over the reserved bytes that stood there, and keeps
  -- the bytes behind it, and `*o_len` is the frame's length.
  pub pack-frame :
      (o_buf_size : ℕ) (body more : List ℕ)
      → Fits p
      → p.payload ≡ some (body ++ more)
      → length body ≡ p.data_len
      → p.data_len + 24 ≤ o_buf_size
      → p.data_len + 24 ≤ length o_buf
      → pack crc o_buf o_buf_size o_len p
        ≡ some (record {
          ret = Ret.succeeded;
          o_buf = frame crc p (take 6 (drop 12 o_buf)) body ++ drop (p.data_len + 24) o_buf;
          o_len = p.data_len + 24;
        })
  pack-frame o_buf_size body more fits data_is len_is allowed room =
      pack-frame_from crc p body more o_buf_size o_len fits data_is len_is allowed o_buf room

  -- A packet of the SDK whose frame is longer than the buffer, but not too long for the 16-bit
  -- length, is refused: `Pack` returns -1, leaves `*o_len` alone, and has written only the first
  -- four bytes of the buffer, which has that many.
  pub pack_too_large :
      (o_buf_size : ℕ)
      → p.protocol ≡ 0
      → p.data_len + 24 < 65536
      → o_buf_size < p.data_len + 24
      → 4 ≤ length o_buf
      → pack crc o_buf o_buf_size o_len p
        ≡ some (record {
          ret = Ret.failed;
          o_buf = le8 sdk_protocol_sof ++ (le8 sdk_ver ++ (le16 (p.data_len + 24) ++ drop 4 o_buf));
          o_len = o_len;
        })
  unfolding pack drop
  pack_too_large o_buf_size is_sdk fits large room =
      let e1 : (p.protocol == 0) ≡ true = ground (arith, is_sdk) in
      let e2 : (p.data_len + 24) % 65536 ≡ p.data_len + 24 = omega arith in
      by_prefix 4
        (λ buf.
          pack crc buf o_buf_size o_len p
          ≡ some (record {
            ret = Ret.failed;
            o_buf = le8 sdk_protocol_sof ++ (le8 sdk_ver ++ (le16 (p.data_len + 24) ++ drop 4 buf));
            o_len = o_len;
          }))
        (λ b0 b1 b2 b3 rest. rw (e1, e2, lt→ltb _ _ large) refl) o_buf room

  -- For a packet of the SDK with readable data, the 16-bit length of the frame wraps at a data length
  -- from 65512 to 65535. `Pack` then takes the frame for a short one: it writes past the end of every
  -- buffer that holds 24 bytes or more but not the whole frame, and whose size it is told.
  pub pack_overrun :
      (body more : List ℕ)
      → p.protocol ≡ 0
      → p.data_len < 65536
      → 65536 ≤ p.data_len + 24
      → p.payload ≡ some (body ++ more)
      → length body ≡ p.data_len
      → 24 ≤ length o_buf
      → length o_buf < p.data_len + 24
      → pack crc o_buf (length o_buf) o_len p ≡ none
  unfolding pack
  pack_overrun body more is_sdk u16 wraps data_is len_is room short =
      let e1 : (p.protocol == 0) ≡ true = ground (arith, is_sdk) in
      by_prefix 24 (λ buf. length buf < p.data_len + 24 → pack crc buf (length buf) o_len p ≡ none)
        (λ b0 b1 b2 b3 b4 b5 b6 b7 b8 b9 b10 b11 b12 b13 b14 b15 b16 b17 b18 b19 b20 b21 b22 b23
            rest small.
          rw
            (
              e1,
              le→ltb
                  (length (
                    b0 ∷ b1 ∷ b2 ∷ b3 ∷ b4 ∷ b5 ∷ b6 ∷ b7 ∷ b8 ∷ b9 ∷ b10 ∷ b11 ∷ b12 ∷ b13 ∷ b14
                    ∷ b15 ∷ b16 ∷ b17 ∷ b18 ∷ b19 ∷ b20 ∷ b21 ∷ b22 ∷ b23 ∷ rest))
                  ((p.data_len + 24) % 65536) (omega arith),
              data_is,
              ← len_is,
              read_front-append body more,
              write_front_overflow body rest (omega arith),
            )
            refl)
        o_buf room short
