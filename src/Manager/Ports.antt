-- ===== src/Manager/Ports.antt =====
-- The loop of `AddViewLidar` in sdk_core/device_manager.cpp against the keys it reads, described without
-- offsets, and the answers with which it does not end.
use livox_sdk.Base.{
  ℕ, zero, suc, ◌+◌, ◌%◌, ◌≤◌, ◌<◌, ◌≡◌, refl, sym, ap, ◌∙◌, arith, List, [], ◌∷◌, ◌++◌, length,
  length-append, All, le→ltb, lt→ltb, ltb, Option, none, some, read_at, le, le16, ◌==◌, false, true,
}
use mathlib.Core.List.{append_assoc}
use native.Mathlib.Nat.{add-zero}
use livox_sdk.StateInfo.Message.{Tlv, encode_tlv, read_at-behind}
use livox_sdk.Manager.Scan.{fault, done, ViewPorts, no_ports, read_key, scan}

-- A key of the answer: the addresses of the point data, those of the inertial data, or another key.
-- An address is four bytes, the port of the host, the port of the lidar, and further bytes.
pub data Param : Type 0 where
  point_data_host : ℕ → ℕ → ℕ → ℕ → ℕ → ℕ → List ℕ → Param
  imu_data_host : ℕ → ℕ → ℕ → ℕ → ℕ → ℕ → List ℕ → Param
  other : ℕ → List ℕ → Param

abbrev address : ℕ → ℕ → ℕ → ℕ → ℕ → ℕ → List ℕ → List ℕ
address a b c d host lidar more = a ∷ b ∷ c ∷ d ∷ (le16 host ++ (le16 lidar ++ more))

abbrev tlv : Param → Tlv
tlv (point_data_host a b c d host lidar more) = record {
  key = 6;
  value = address a b c d host lidar more;
}
tlv (imu_data_host a b c d host lidar more) = record {
  key = 7;
  value = address a b c d host lidar more;
}
tlv (other key value) = record { key = key; value = value }

abbrev pub encode : List Param → List ℕ
encode [] = []
encode (q ∷ qs) = encode_tlv (tlv q) ++ encode qs

abbrev pub ports_of : List Param → ViewPorts → ViewPorts
ports_of [] p = p
ports_of (point_data_host a b c d host lidar more ∷ qs) p =
    ports_of qs (record p { host_point_port = host; lidar_point_port = lidar })
ports_of (imu_data_host a b c d host lidar more ∷ qs) p =
    ports_of qs (record p { host_imu_data_port = host; lidar_imu_data_port = lidar })
ports_of (other key value ∷ qs) p = ports_of qs p

-- The numbers fit their fields, and a key with another meaning is neither of the two.
abbrev pub FitsParam : Param → Type 0
FitsParam (point_data_host a b c d host lidar more) = (host < 65536) × (lidar < 65536)
FitsParam (imu_data_host a b c d host lidar more) = (host < 65536) × (lidar < 65536)
FitsParam (other key value) = (key < 65536) × ((key == 6) ≡ false) × ((key == 7) ≡ false)

le-le16 : (n : ℕ) → n < 65536 → le (le16 n) ≡ n
le-le16 n h = omega (arith, h)

-- A round behind a prefix.
read_key-behind :
    (pre d : List ℕ) (p : ViewPorts) → read_key (length pre) (pre ++ d) p ≡ read_key 0 d p
read_key-behind pre d p =
    let e : read_at (length pre) 2 (pre ++ d) ≡ read_at 0 2 d =
      rw (add-zero (length pre)) at (read_at-behind pre d 0 2) in
    rw (e, read_at-behind pre d 2 2, read_at-behind pre d 8 2, read_at-behind pre d 10 2)

read_key-front :
    (q : Param) (rest : List ℕ) (p : ViewPorts)
    → FitsParam q
    → length (tlv q).value < 65536
    → read_key 0 (encode_tlv (tlv q) ++ rest) p ≡ some (ports_of (q ∷ []) p, length (tlv q).value)
read_key-front (point_data_host a b c d host lidar more) rest p fits short =
    rw (le-le16 _ short, le-le16 host fits.0, le-le16 lidar fits.1)
read_key-front (imu_data_host a b c d host lidar more) rest p fits short =
    rw (le-le16 _ short, le-le16 host fits.0, le-le16 lidar fits.1)
read_key-front (other key value) rest p fits short =
    rw (le-le16 key fits.0, fits.1, fits.2, le-le16 _ short)

-- One round, where the data from the offset on starts with a key.
scan-step :
    (left i n : ℕ) (q : Param) (pre rest : List ℕ) (p : ViewPorts)
    → FitsParam q
    → i < n
    → n < 256
    → length (pre ++ encode_tlv (tlv q)) < 65536
    → scan (suc left) i n (length pre) (pre ++ (encode_tlv (tlv q) ++ rest)) p
      ≡ scan left
          (suc i)
          n
          (length (pre ++ encode_tlv (tlv q)))
          (pre ++ (encode_tlv (tlv q) ++ rest))
          (ports_of (q ∷ []) p)
unfolding scan
scan-step left i n q pre rest p fits inside small room =
    let total : length (pre ++ encode_tlv (tlv q)) ≡ length pre + 4 + length (tlv q).value =
      omega (arith, length-append pre (encode_tlv (tlv q))) in
    let e : ltb i n ≡ true = lt→ltb i n inside in
    let r =
      read_key-behind pre (encode_tlv (tlv q) ++ rest) p
      ∙ read_key-front q rest p fits (omega arith) in
    let j : (i + 1) % 256 ≡ suc i = omega arith in
    let o : (length pre + 4 + length (tlv q).value) % 65536 ≡ length (pre ++ encode_tlv (tlv q)) =
      omega arith in
    rw (e, r, j, o) refl

-- An answer that promises 256 keys or more is never scanned to its end, whatever its data is: the counter
-- is a `uint8_t`.
pub scan_endless :
    (fuel i param_num off : ℕ) (d : List ℕ) (p q : ViewPorts)
    → 256 ≤ param_num
    → i < 256
    → ¬ (scan fuel i param_num off d p ≡ done q)
unfolding scan
scan_endless zero i param_num off d p q many small =
    let e : ltb i param_num ≡ true = lt→ltb i param_num (omega arith) in rw e (λ h. cc)
scan_endless (suc fuel) i param_num off d p q many small =
    let e : ltb i param_num ≡ true = lt→ltb i param_num (omega arith) in
    rw e (
      after (read_key off d p) (λ next ports.
        scan_endless fuel ((i + 1) % 256) param_num next d ports q many (omega arith)))
  where
    after :
        (o : Option (ViewPorts × ℕ))
        → ((next : ℕ) (ports : ViewPorts)
            → ¬ (scan fuel ((i + 1) % 256) param_num next d ports ≡ done q))
        → ¬ (
            elim o [
              | none ↦ fault
              | some (ports, val_len) ↦
                  scan fuel ((i + 1) % 256) param_num ((off + 4 + val_len) % 65536) d ports
            ]
            ≡ done q)
    after none rest = λ h. cc
    after (some (ports, val_len)) rest = rest _ ports

ports_of-∷ :
    (q : Param) (qs : List Param) (p : ViewPorts)
    → ports_of (q ∷ qs) p ≡ ports_of qs (ports_of (q ∷ []) p)
ports_of-∷ (point_data_host a b c d host lidar more) qs p = refl
ports_of-∷ (imu_data_host a b c d host lidar more) qs p = refl
ports_of-∷ (other key value) qs p = refl

scan_done : (n off : ℕ) (d : List ℕ) (p : ViewPorts) → scan 0 n n off d p ≡ done p
unfolding scan
scan_done n off d p = let e : ltb n n ≡ false = le→ltb n n (omega arith) in rw e

scan-keys :
    (qs : List Param) (i n : ℕ) (pre rest : List ℕ) (p : ViewPorts)
    → All FitsParam qs
    → i + length qs ≡ n
    → n < 256
    → length (pre ++ encode qs) < 65536
    → scan (length qs) i n (length pre) (pre ++ (encode qs ++ rest)) p ≡ done (ports_of qs p)
scan-keys [] i n pre rest p fits count small room =
    let e : i ≡ n = omega arith in rw e (scan_done n (length pre) (pre ++ rest) p)
scan-keys (q ∷ qs) i n pre rest p fits count small room =
    let a : (pre ++ encode_tlv (tlv q)) ++ encode qs ≡ pre ++ (encode_tlv (tlv q) ++ encode qs) =
      append_assoc pre (encode_tlv (tlv q)) (encode qs) in
    let b : length (pre ++ encode_tlv (tlv q)) < 65536 = omega (
      arith,
      length-append pre (encode_tlv (tlv q)),
      length-append pre (encode (q ∷ qs)),
      length-append (encode_tlv (tlv q)) (encode qs),
      room,
    ) in
    let c : length ((pre ++ encode_tlv (tlv q)) ++ encode qs) < 65536 = rw (a) (room) in
    ap (λ x. scan (suc (length qs)) i n (length pre) (pre ++ x) p)
      (append_assoc (encode_tlv (tlv q)) (encode qs) rest)
    ∙ scan-step (length qs) i n q pre (encode qs ++ rest) p fits.0 (omega arith) small b
    ∙ ap
        (λ x.
          scan (length qs) (suc i) n (length (pre ++ encode_tlv (tlv q))) x (ports_of (q ∷ []) p))
        (sym (append_assoc pre (encode_tlv (tlv q)) (encode qs ++ rest)))
    ∙ scan-keys qs (suc i) n (pre ++ encode_tlv (tlv q)) rest (ports_of (q ∷ []) p) fits.1
        (omega arith) small c
    ∙ ap done (sym (ports_of-∷ q qs p))

-- The scan of an answer with fewer than 256 keys, in fewer than 65,536 bytes, where the values of the
-- two keys with the addresses of the host hold at least 8 bytes (the address, and two ports of 16
-- bits) and the other keys are other numbers of 16 bits: it ends after as many rounds as there are
-- keys, with the ports of the last key of each kind.
pub scan-encode :
    (qs : List Param) (rest : List ℕ)
    → All FitsParam qs
    → length qs < 256
    → length (encode qs) < 65536
    → scan (length qs) 0 (length qs) 0 (encode qs ++ rest) no_ports ≡ done (ports_of qs no_ports)
scan-encode qs rest fits small room =
    scan-keys qs 0 (length qs) [] rest no_ports fits (omega arith) small room
