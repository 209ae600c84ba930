-- ===== src/StateInfo/Message.antt =====
-- The message that `ParseStateInfo` reads, described without offsets, and the parser against it.
use Prim.Native.Nat.{min}
use livox_sdk.Base.{
  ℕ, zero, suc, ◌+◌, ◌-◌, ◌%◌, ◌/◌, ◌≤◌, ◌<◌, ◌≡◌, refl, sym, ap, ◌∙◌, arith, List, [], ◌∷◌, ◌++◌,
  length, length-append, All, le→ltb, ltb, Option, none, some, read_at, read_at-append, read_front,
  le, le16, Bool-cases, inl, inr, ltb→le, ◌||◌, false,
}
use mathlib.Core.List.{append_assoc}
use native.Mathlib.Nat.{add-zero}
use livox_sdk.Base.Outcome.{Outcome, ok, bind_cong, ◌>>=◌}
use livox_sdk.Protocol.{CommPacket}
use livox_sdk.StateInfo.Keys.{ParamKeyName, KeyMask, find_key}
use livox_sdk.StateInfo.Info.{Field, Info, zero_info, size_of}
use livox_sdk.StateInfo.Values.{
  copy_value, copy_port, parse_ip, parse_lidar_ip_addr, parse_ip_cfg, parse_ntp_server_ip,
  parse_value,
}
use livox_sdk.StateInfo.Cases.{Body, guarded, by_case}
use livox_sdk.StateInfo.Parse.{no_keys, parse_case, parse_tlvs, parse_state_info}

pub record Tlv : Type 0 where
  pub key : ℕ
  pub value : List ℕ

abbrev pub encode_tlv : Tlv → List ℕ
encode_tlv t = le16 t.key ++ (le16 (length t.value) ++ t.value)

abbrev pub encode_tlvs : List Tlv → List ℕ
encode_tlvs [] = []
encode_tlvs (t ∷ ts) = encode_tlv t ++ encode_tlvs ts

-- The number of keys, two unused bytes, and the keys with their values.
abbrev pub message : List Tlv → ℕ → ℕ → List ℕ
message ts a b = le16 (length ts) ++ (a ∷ b ∷ encode_tlvs ts)

abbrev pub FitsTlv : Tlv → Type 0
FitsTlv t = (t.key < 65536) × (length t.value < 65536)

-- What a message means: each value, on its own, is put into the structure, in their order.
abbrev pub apply_tlvs : List Tlv → Info × KeyMask → Outcome (Info × KeyMask)
apply_tlvs [] s = ok s
apply_tlvs (t ∷ ts) s = parse_case (find_key t.key) t.value 0 (length t.value) s >>= apply_tlvs ts

read_front-prefix :
    (n : ℕ) (v rest : List ℕ) → n ≤ length v → read_front n (v ++ rest) ≡ read_front n v
read_front-prefix zero v rest h = refl
read_front-prefix (suc n) [] rest h = absurd (omega arith)
read_front-prefix (suc n) (x ∷ v) rest h = rw (read_front-prefix n v rest (omega arith))

pub read_at-prefix :
    (o n : ℕ) (v rest : List ℕ) → o + n ≤ length v → read_at o n (v ++ rest) ≡ read_at o n v
read_at-prefix zero n v rest h = read_front-prefix n v rest (omega arith)
read_at-prefix (suc o) zero [] rest h = absurd (omega arith)
read_at-prefix (suc o) (suc n) [] rest h = absurd (omega arith)
read_at-prefix (suc o) n (x ∷ v) rest h = read_at-prefix o n v rest (omega arith)

-- A read behind a prefix.
pub read_at-behind :
    (pre d : List ℕ) (o n : ℕ) → read_at (length pre + o) n (pre ++ d) ≡ read_at o n d
read_at-behind [] d o n = let e : 0 + o ≡ o = omega arith in rw e
read_at-behind (x ∷ pre) d o n =
    let e : suc (length pre) + o ≡ suc (length pre + o) = omega arith in
    rw e (read_at-behind pre d o n)

read_at-inside :
    (pre v rest : List ℕ) (o n : ℕ)
    → o + n ≤ length v
    → read_at (length pre + o) n (pre ++ (v ++ rest)) ≡ read_at o n v
read_at-inside pre v rest o n h = read_at-behind pre (v ++ rest) o n ∙ read_at-prefix o n v rest h

module _ (pre rest : List ℕ) where
  abbrev Local : Body → Type 0
  Local body =
      (v : List ℕ) (info : Info)
      → body (pre ++ (v ++ rest)) (length pre) (length v) info ≡ body v 0 (length v) info

  copy_value-Local : (f : Field) → Local (copy_value f)
  unfolding copy_value
  copy_value-Local f v info = rw (
    ← add-zero (length pre),
    read_at-inside pre v rest 0 (min (size_of f) (length v)) (omega arith),
  )

  parse_ip-inside :
      (f : Field) (v : List ℕ) (o off : ℕ) (info : Info)
      → off ≡ length pre + o
      → o + 4 ≤ length v
      → parse_ip f (pre ++ (v ++ rest)) off info ≡ parse_ip f v o info
  unfolding parse_ip
  parse_ip-inside f v o off info e h = rw (e, read_at-inside pre v rest o 4 h)

  copy_port-inside :
      (f : Field) (v : List ℕ) (o off : ℕ) (info : Info)
      → off ≡ length pre + o
      → o + 2 ≤ length v
      → copy_port f (pre ++ (v ++ rest)) off info ≡ copy_port f v o info
  unfolding copy_port
  copy_port-inside f v o off info e h = rw (e, read_at-inside pre v rest o 2 h)

  guarded-Local :
      (n : ℕ) (f : List ℕ → ℕ → Info → Outcome Info)
      → ((v : List ℕ) (info : Info)
          → n ≤ length v
          → f (pre ++ (v ++ rest)) (length pre) info ≡ f v 0 info)
      → Local (guarded n f)
  guarded-Local n f inner v info = elim (Bool-cases (ltb (length v) n)) [
    | inl short ↦ rw short
    | inr long ↦ rw long (inner v info (ltb→le (length v) n long))
  ]

  endpoint-Local : (ip dst src : Field) → Local (guarded 8 (parse_ip_cfg ip dst src))
  unfolding parse_ip_cfg
  endpoint-Local ip dst src = guarded-Local 8 (parse_ip_cfg ip dst src) λ v info h.
      bind_cong _ _ _ _ (parse_ip-inside ip v 0 (length pre) info (omega arith) (omega arith)) λ i.
        bind_cong _ _ _ _ (copy_port-inside dst v 4 (length pre + 4) i refl (omega arith))
          λ j. copy_port-inside src v 6 (length pre + 6) j refl (omega arith)

  lidar_ip-Local : Local (guarded 12 parse_lidar_ip_addr)
  unfolding parse_lidar_ip_addr
  lidar_ip-Local = guarded-Local 12 parse_lidar_ip_addr λ v info h.
      bind_cong _ _ _ _
        (parse_ip-inside Field.lidar_ip_addr v 0 (length pre) info (omega arith) (omega arith))
        λ i.
          bind_cong _ _ _ _
            (parse_ip-inside Field.lidar_net_mask v 4 (length pre + 4) i refl (omega arith))
            λ j. parse_ip-inside Field.lidar_gw_addr v 8 (length pre + 8) j refl (omega arith)

  -- A value is put into the structure the same way wherever it stands in a message.
  parse_value-Local : (k : ParamKeyName) → Local (parse_value k)
  unfolding parse_ntp_server_ip
  parse_value-Local =
      by_case Local copy_value-Local (λ ip dst src _ _ _. endpoint-Local ip dst src) lidar_ip-Local
        (guarded-Local 4 parse_ntp_server_ip
          (λ v info h. parse_ip-inside Field.ntp_server_ip v 0 (length pre) info (omega arith) h))
        (λ v info. refl)

  parse_case-Local :
      (k : Option ParamKeyName) (v : List ℕ) (s : Info × KeyMask)
      → parse_case k (pre ++ (v ++ rest)) (length pre) (length v) s ≡ parse_case k v 0 (length v) s
  unfolding parse_case
  parse_case-Local none v s = refl
  parse_case-Local (some k) v s = bind_cong _ _ _ _ (parse_value-Local k v s.0) (λ i. refl)

has_room :
    (data_len off n : ℕ) → off + n ≤ data_len → (ltb data_len off || ltb (data_len - off) n) ≡ false
has_room data_len off n h = ground arith

-- One round, where the data from the offset on starts with a key and its value.
parse_tlvs-step :
    (left data_len : ℕ) (pre rest : List ℕ) (t : Tlv) (s : Info × KeyMask)
    → FitsTlv t
    → length (pre ++ encode_tlv t) ≤ data_len
    → parse_tlvs (suc left) (pre ++ (encode_tlv t ++ rest)) data_len (length pre) s ≡ (
        parse_case (find_key t.key) t.value 0 (length t.value) s >>= λ r.
        parse_tlvs left (pre ++ (encode_tlv t ++ rest)) data_len (length (pre ++ encode_tlv t)) r)
unfolding parse_tlvs
parse_tlvs-step left data_len pre rest t s fits room =
    let head : List ℕ = le16 t.key ++ le16 (length t.value) in
    let total : length (pre ++ encode_tlv t) ≡ length pre + 4 + length t.value =
      omega (arith, length-append pre (encode_tlv t)) in
    let e1 : (ltb data_len (length pre) || ltb (data_len - length pre) 4) ≡ false =
      has_room data_len (length pre) 4 (omega arith) in
    let e2 : (ltb data_len (length pre + 4) || ltb (data_len - (length pre + 4)) (length t.value))
        ≡ false =
      has_room data_len (length pre + 4) (length t.value) (omega arith) in
    let k : le (le16 t.key) ≡ t.key = omega (arith, fits.0) in
    let l : le (le16 (length t.value)) ≡ length t.value = omega (arith, fits.1) in
    let b : length (pre ++ head) ≡ length pre + 4 = length-append pre head in
    let c = parse_case-Local (pre ++ head) rest (find_key t.key) t.value s in
    rw
      (
        e1,
        read_at-append pre (le16 t.key) (le16 (length t.value) ++ (t.value ++ rest)),
        read_at-behind pre (encode_tlv t ++ rest) 2 2,
        k,
        l,
        e2,
        total,
      )
      (ap
        (λ m. m >>= λ r.
          parse_tlvs left (pre ++ (encode_tlv t ++ rest)) data_len (length pre + 4 + length t.value)
            r)
        (rw (append_assoc pre head (t.value ++ rest), b) at c))

parse_tlvs_done :
    (d : List ℕ) (data_len off : ℕ) (s : Info × KeyMask) → parse_tlvs 0 d data_len off s ≡ ok s
unfolding parse_tlvs
parse_tlvs_done d data_len off s = refl

parse_tlvs-encode :
    (ts : List Tlv) (data_len : ℕ) (pre rest : List ℕ) (s : Info × KeyMask)
    → All FitsTlv ts
    → length (pre ++ encode_tlvs ts) ≤ data_len
    → parse_tlvs (length ts) (pre ++ (encode_tlvs ts ++ rest)) data_len (length pre) s
      ≡ apply_tlvs ts s
parse_tlvs-encode [] data_len pre rest s fits room = parse_tlvs_done _ _ _ _
parse_tlvs-encode (t ∷ ts) data_len pre rest s fits room =
    ap (λ d. parse_tlvs (suc (length ts)) (pre ++ d) data_len (length pre) s)
      (append_assoc (encode_tlv t) (encode_tlvs ts) rest)
    ∙ (parse_tlvs-step (length ts) data_len pre (encode_tlvs ts ++ rest) t s fits.0 (
          omega (
            arith,
            length-append (pre ++ encode_tlv t) (encode_tlvs ts),
            ap length (append_assoc pre (encode_tlv t) (encode_tlvs ts)),
          ))
        ∙ bind_cong _ _ _ _ refl λ r.
          ap (λ d. parse_tlvs (length ts) d data_len (length (pre ++ encode_tlv t)) r)
            (sym (append_assoc pre (encode_tlv t) (encode_tlvs ts ++ rest)))
          ∙ parse_tlvs-encode ts data_len (pre ++ encode_tlv t) rest r fits.1
              (rw (append_assoc pre (encode_tlv t) (encode_tlvs ts)) room))

-- Parsing a message is putting each of its values, on its own, into the zeroed structure, in their
-- order: for keys and values that fit 16 bits each, in any number below 65536, whatever the two
-- unused bytes are and whatever follows the message in the data.
pub parse_state_info-message :
    (ts : List Tlv) (a b : ℕ) (rest : List ℕ) (p : CommPacket)
    → All FitsTlv ts
    → length ts < 65536
    → p.payload ≡ some (message ts a b ++ rest)
    → length (message ts a b) ≤ p.data_len
    → parse_state_info p ≡ apply_tlvs ts (zero_info, no_keys)
unfolding parse_state_info
parse_state_info-message ts a b rest p fits few is room =
    let e : ltb p.data_len 4 ≡ false = le→ltb p.data_len 4 (omega arith) in
    let n : le (le16 (length ts)) ≡ length ts = omega arith in
    rw (is, e, n)
      (parse_tlvs-encode ts p.data_len (length ts % 256 ∷ length ts / 256 % 256 ∷ a ∷ b ∷ []) rest _
        fits room)
