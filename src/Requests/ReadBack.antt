-- ===== src/Requests/ReadBack.antt =====
-- What a parser of the messages reads in the requests that set the addresses of the host.
use livox_sdk.Base.{
  ℕ, ◌+◌, ◌-◌, ◌%◌, ◌≤◌, ◌<◌, ◌≡◌, ◌≢◌, refl, ap, ◌∙◌, arith, List, [], ◌∷◌, ◌++◌, length,
  length-append, append_assoc, All, some, replicate, le, le16, ◌==◌, Bool-cases, inl, inr, ltb,
  false, write_front, write_front-zeros,
}
use livox_sdk.Base.Outcome.{ok}
use livox_sdk.Protocol.{CommPacket}
use livox_sdk.StateInfo.Keys.{
  ParamKeyName, key_code, find_key, lidar_imu_host_ip_cfg, lidar_point_data_host_ip_cfg,
  state_info_host_ip_cfg,
}
use livox_sdk.StateInfo.Info.{Field, Info, zero_info, set_field, size_of, offset_of}
use livox_sdk.StateInfo.Values.{
  ip_str, to_string, store, parse_ip, copy_port, parse_value, parse_state_info_host_ip_cfg,
  parse_point_cloud_host_ip_cfg, parse_imu_data_host_ip_cfg,
}
use livox_sdk.StateInfo.Parse.{no_keys, parse_case, parse_state_info, insert}
use livox_sdk.StateInfo.Message.{Tlv, apply_tlvs, parse_state_info-message}
use livox_sdk.StateInfo.Text.{c_string}
use livox_sdk.Requests.{Attempt, done, ◌>>=◌, Request, zeroed, put_key_num}
use livox_sdk.Requests.Address.{ip_to_u8}
use livox_sdk.Requests.Dotted.{ip_to_u8-ip_str}
use livox_sdk.Requests.Build.{
  HostIpInfo, put_host_key, build_set_host_state_info_ip_cfg_request,
  build_set_host_point_data_ip_info_request, build_set_host_imu_data_ip_info_request,
}
use livox_sdk.Requests.Message.{request_of, endpoint, one_endpoint}

-- The text of a byte has no terminator in it, and at most three characters.
abbrev Printed : List ℕ → Type 0
Printed text = All (λ b. b ≢ 0) text

Printed-append : (xs ys : List ℕ) → Printed xs → Printed ys → Printed (xs ++ ys)
Printed-append [] ys h k = k
Printed-append (x ∷ xs) ys (p, h) k = (p, Printed-append xs ys h k)

to_string-Printed : (n : ℕ) → Printed (to_string n) × (length (to_string n) ≤ 3)
unfolding to_string
to_string-Printed n = elim (Bool-cases (ltb n 10)) [
  | inl a ↦ rw (to_string, a) ((ground arith, tt), omega arith)
  | inr a ↦ elim (Bool-cases (ltb n 100)) [
    | inl b ↦ rw (to_string, a, b) ((ground arith, (ground arith, tt)), omega arith)
    | inr b ↦ rw (to_string, a, b) ((ground arith, (ground arith, (ground arith, tt))), omega arith)
  ]
]

c_string-terminated : (text rest : List ℕ) → Printed text → c_string (text ++ (0 ∷ rest)) ≡ text
unfolding c_string
c_string-terminated [] rest h = refl
c_string-terminated (b ∷ bs) rest (p, h) =
    let other : b == 0 ≡ false = ground (arith, p) in
    rw (c_string, other, c_string-terminated bs rest h) refl

dotted : (x y : List ℕ) → Printed x → Printed y → Printed (x ++ (b'.' ∷ y))
dotted x y h k = Printed-append x (b'.' ∷ y) h (ground arith, k)

ip_str-Printed :
    (a b c d : ℕ)
    → Printed (ip_str (a ∷ b ∷ c ∷ d ∷ [])) × (length (ip_str (a ∷ b ∷ c ∷ d ∷ [])) ≤ 15)
unfolding ip_str
ip_str-Printed a b c d =
    let (pa, la) = to_string-Printed a in
    let (pb, lb) = to_string-Printed b in
    let (pc, lc) = to_string-Printed c in
    let (pd, ld) = to_string-Printed d in
    let z = b'.' ∷ to_string d in
    let y = b'.' ∷ (to_string c ++ z) in
    let x = b'.' ∷ (to_string b ++ y) in
    (
      dotted (to_string a) _ pa (dotted (to_string b) _ pb (dotted (to_string c) _ pc pd)),
      omega (
        arith,
        length-append (to_string a) x,
        length-append (to_string b) y,
        length-append (to_string c) z,
        la,
        lb,
        lc,
        ld,
      ),
    )

module _ (a b c d host_port lidar_port : ℕ) where
  abbrev text : List ℕ
  text = ip_str (a ∷ b ∷ c ∷ d ∷ [])

  abbrev image : List ℕ
  image = text ++ (0 ∷ replicate (15 - length text) 0)

  abbrev stored : Field → Field → Field → Info
  stored ip dst src =
      set_field src (le16 lidar_port)
        (set_field dst (le16 host_port) (set_field ip image zero_info))

  image-write : write_front (text ++ (0 ∷ [])) (replicate 16 0) ≡ some image
  image-write =
      let (_, short) = ip_str-Printed a b c d in
      let l : length (text ++ (0 ∷ [])) ≡ length text + 1 = length-append text (0 ∷ []) in
      let r : 16 - (length text + 1) ≡ 15 - length text = omega arith in
      write_front-zeros (text ++ (0 ∷ [])) 16 (omega (arith, l, short))
      ∙ ap some (rw (l, r) (append_assoc text (0 ∷ []) (replicate (15 - length text) 0)))

  state_endpoint :
      apply_tlvs
        (endpoint state_info_host_ip_cfg (a ∷ b ∷ c ∷ d ∷ []) host_port lidar_port ∷ [])
        (zero_info, no_keys)
      ≡ ok (
        stored Field.host_state_ip_addr Field.host_state_info_port Field.lidar_state_info_port,
        insert 0x0005 no_keys,
      )
  unfolding key_code find_key parse_case parse_value parse_state_info_host_ip_cfg parse_ip copy_port
      store zero_info set_field size_of offset_of
  state_endpoint = rw image-write refl

  point_endpoint :
      apply_tlvs
        (endpoint lidar_point_data_host_ip_cfg (a ∷ b ∷ c ∷ d ∷ []) host_port lidar_port ∷ [])
        (zero_info, no_keys)
      ≡ ok (
        stored Field.host_point_ip_addr Field.host_point_data_port Field.lidar_point_data_port,
        insert 0x0006 no_keys,
      )
  unfolding key_code find_key parse_case parse_value parse_point_cloud_host_ip_cfg parse_ip
      copy_port store zero_info set_field size_of offset_of
  point_endpoint = rw image-write refl

  imu_endpoint :
      apply_tlvs
        (endpoint lidar_imu_host_ip_cfg (a ∷ b ∷ c ∷ d ∷ []) host_port lidar_port ∷ [])
        (zero_info, no_keys)
      ≡ ok (
        stored Field.host_imu_ip_addr Field.host_imu_data_port Field.lidar_imu_data_port,
        insert 0x0007 no_keys,
      )
  unfolding key_code find_key parse_case parse_value parse_imu_data_host_ip_cfg parse_ip copy_port
      store zero_info set_field size_of offset_of
  imu_endpoint = rw image-write refl

-- Parsed as state information, the request gives back the text of the address and the two ports, in
-- the members of the structure that are named, and the mask of its one key.
abbrev pub ReadsBack : Attempt Request → Field → Field → Field → ℕ → HostIpInfo → Type 0
ReadsBack built ip dst src code cfg =
    (r : Request) × (built ≡ done r)
    × ((p : CommPacket)
        → p.payload ≡ some r.buf
        → p.data_len ≡ r.len
        → (info : Info) × (parse_state_info p ≡ ok (info, insert code no_keys))
          × (c_string (info ip) ≡ cfg.host_ip_addr)
          × (le (info dst) ≡ cfg.host_port)
          × (le (info src) ≡ cfg.lidar_port))

module _ (a b c d host_port lidar_port : ℕ) (bytes : (a < 256) × (b < 256) × (c < 256) × (d < 256))
    (ports : (host_port < 65536) × (lidar_port < 65536)) where
  abbrev configured : HostIpInfo
  configured = record {
    host_ip_addr = ip_str (a ∷ b ∷ c ∷ d ∷ []);
    host_port = host_port;
    lidar_port = lidar_port;
  }

  configured-bytes : ip_to_u8 (ip_str (a ∷ b ∷ c ∷ d ∷ [])) ≡ done (a ∷ b ∷ c ∷ d ∷ [])
  configured-bytes =
      let ea : a % 256 ≡ a = omega (arith, bytes) in
      let eb : b % 256 ≡ b = omega (arith, bytes) in
      let ec : c % 256 ≡ c = omega (arith, bytes) in
      let ed : d % 256 ≡ d = omega (arith, bytes) in
      let small : (a ≤ 256) × (b ≤ 256) × (c ≤ 256) × (d ≤ 256) = omega (arith, bytes) in
      let e = ip_to_u8-ip_str a b c d small in rw (ea, eb, ec, ed) at e

  -- The request of one endpoint is read back, if what its key and value do to the structure is known.
  read_back :
      (k : ParamKeyName) (ip dst src : Field) (code : ℕ)
      → key_code k < 65536
      → apply_tlvs (endpoint k (a ∷ b ∷ c ∷ d ∷ []) host_port lidar_port ∷ []) (zero_info, no_keys)
        ≡ ok (stored a b c d host_port lidar_port ip dst src, insert code no_keys)
      → c_string (stored a b c d host_port lidar_port ip dst src ip) ≡ configured.host_ip_addr
      → stored a b c d host_port lidar_port ip dst src dst ≡ le16 host_port
      → stored a b c d host_port lidar_port ip dst src src ≡ le16 lidar_port
      → ReadsBack
          (put_key_num 1 zeroed >>= put_host_key k configured.host_ip_addr host_port lidar_port)
          ip
          dst
          src
          code
          configured
  read_back k ip dst src code small applied as_text as_dst as_src =
      let t : List Tlv = endpoint k (a ∷ b ∷ c ∷ d ∷ []) host_port lidar_port ∷ [] in
      (
        request_of t,
        one_endpoint k configured ∙ rw configured-bytes refl,
        λ p is long. (
          stored a b c d host_port lidar_port ip dst src,
          parse_state_info-message t 0 0 (replicate 1384 0) p ((small, omega arith), tt)
                (omega arith) is (omega (arith, long))
              ∙ applied,
          as_text,
          rw as_dst (omega (arith, ports)),
          rw as_src (omega (arith, ports)),
        ),
      )

  -- The requests that set the addresses of the host, for an address of four bytes that is printed as
  -- `ParseIp` prints one and ports of 16 bits: each is built, and a packet with it as data is parsed
  -- as state information to exactly that one key, with the text of the address and both ports in the
  -- members for the state, the points and the inertial data respectively.
  pub host_addresses_ReadsBack :
      ReadsBack
        (build_set_host_state_info_ip_cfg_request configured zeroed)
        Field.host_state_ip_addr
        Field.host_state_info_port
        Field.lidar_state_info_port
        0x0005
        configured
      × ReadsBack
          (build_set_host_point_data_ip_info_request configured zeroed)
          Field.host_point_ip_addr
          Field.host_point_data_port
          Field.lidar_point_data_port
          0x0006
          configured
      × ReadsBack
          (build_set_host_imu_data_ip_info_request configured zeroed)
          Field.host_imu_ip_addr
          Field.host_imu_data_port
          Field.lidar_imu_data_port
          0x0007
          configured
  unfolding build_set_host_state_info_ip_cfg_request build_set_host_point_data_ip_info_request
      build_set_host_imu_data_ip_info_request set_field offset_of key_code
  host_addresses_ReadsBack =
      let (printed, _) = ip_str-Printed a b c d in
      let as_text = c_string-terminated (ip_str (a ∷ b ∷ c ∷ d ∷ [])) _ printed in
      (
        read_back state_info_host_ip_cfg Field.host_state_ip_addr Field.host_state_info_port
            Field.lidar_state_info_port 0x0005 (omega arith)
            (state_endpoint a b c d host_port lidar_port) as_text refl refl,
        read_back lidar_point_data_host_ip_cfg Field.host_point_ip_addr Field.host_point_data_port
            Field.lidar_point_data_port 0x0006 (omega arith)
            (point_endpoint a b c d host_port lidar_port) as_text refl refl,
        read_back lidar_imu_host_ip_cfg Field.host_imu_ip_addr Field.host_imu_data_port
            Field.lidar_imu_data_port 0x0007 (omega arith)
            (imu_endpoint a b c d host_port lidar_port) as_text refl refl,
      )
