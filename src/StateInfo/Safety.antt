-- ===== src/StateInfo/Safety.antt =====
-- No pushed message makes the parser read past its data or write past a member of the structure.
use Prim.Native.Nat.{min}
use livox_sdk.Base.{
  ℕ, zero, suc, ◌+◌, ◌-◌, ◌≤◌, ◌≡◌, refl, ◌∙◌, arith, Bool-cases, inl, inr, List, [], ◌∷◌, ◌++◌,
  length, length-append, Option, none, some, ltb, ltb→le, ◌||◌, false, le, read_at_total,
  write_front_total,
}
use livox_sdk.Base.Outcome.{Outcome, Safe, Safe-bind, Safe-unless, Safe-read}
use livox_sdk.Protocol.{CommPacket}
use livox_sdk.StateInfo.Keys.{ParamKeyName, KeyMask, find_key}
use livox_sdk.StateInfo.Info.{Field, Info, IsSized, size_of, set_field-IsSized, zero_info-IsSized}
use livox_sdk.StateInfo.Values.{
  store, copy_value, copy_port, to_string, ip_str, parse_ip, parse_lidar_ip_addr, parse_ip_cfg,
  parse_ntp_server_ip, parse_value,
}
use livox_sdk.StateInfo.Cases.{Body, guarded, by_case}
use livox_sdk.StateInfo.Parse.{parse_case, parse_tlvs, parse_state_info}

store-IsSized :
    (f : Field) (bs : List ℕ) (info : Info)
    → length bs ≤ size_of f
    → IsSized info
    → Safe IsSized (store f bs info)
unfolding store
store-IsSized f bs info fits sized =
    let (image, e, l) = write_front_total bs (info f) (omega (arith, sized f)) in
    rw e (set_field-IsSized f image info (l ∙ sized f) sized)

length-to_string-le : (n : ℕ) → length (to_string n) ≤ 3
unfolding to_string
length-to_string-le n = ground arith

-- A printed address and its terminator fit sixteen bytes.
length-ip_str-le : (bs : List ℕ) → length (ip_str bs) ≤ 15
unfolding ip_str
length-ip_str-le (a ∷ b ∷ c ∷ d ∷ []) = simp length-append (
    omega (
      arith,
      length-to_string-le a,
      length-to_string-le b,
      length-to_string-le c,
      length-to_string-le d,
    ))
length-ip_str-le _ = omega arith

header_room :
    (data_len off : ℕ) → (ltb data_len off || ltb (data_len - off) 4) ≡ false → off + 4 ≤ data_len
header_room data_len off h = ground arith

value_room :
    (data_len off n : ℕ) → (ltb data_len off || ltb (data_len - off) n) ≡ false → off + n ≤ data_len
value_room data_len off n h = ground arith

module _ (d : List ℕ) where
  copy_value-IsSized :
      (f : Field) (off len : ℕ) (info : Info)
      → off + len ≤ length d
      → IsSized info
      → Safe IsSized (copy_value f d off len info)
  unfolding copy_value
  copy_value-IsSized f off len info inside sized =
      let (bs, e, l) = read_at_total off (min (size_of f) len) d (omega arith) in
      rw e (store-IsSized f bs info (omega arith) sized)

  copy_port-IsSized :
      (f : Field) (off : ℕ) (info : Info)
      → size_of f ≡ 2
      → off + 2 ≤ length d
      → IsSized info
      → Safe IsSized (copy_port f d off info)
  unfolding copy_port
  copy_port-IsSized f off info two inside sized =
      let (bs, e, l) = read_at_total off 2 d inside in
      rw e (store-IsSized f bs info (omega arith) sized)

  parse_ip-IsSized :
      (f : Field) (off : ℕ) (info : Info)
      → size_of f ≡ 16
      → off + 4 ≤ length d
      → IsSized info
      → Safe IsSized (parse_ip f d off info)
  unfolding parse_ip
  parse_ip-IsSized f off info sixteen inside sized =
      let (bs, e, l) = read_at_total off 4 d inside in
      rw e (
        store-IsSized f (ip_str bs ++ (0 ∷ [])) info
          (omega (arith, length-append (ip_str bs) (0 ∷ []), length-ip_str-le bs)) sized)

  endpoint-IsSized :
      (ip dst src : Field) (off : ℕ) (info : Info)
      → size_of ip ≡ 16
      → size_of dst ≡ 2
      → size_of src ≡ 2
      → off + 8 ≤ length d
      → IsSized info
      → Safe IsSized (parse_ip_cfg ip dst src d off info)
  unfolding parse_ip_cfg
  endpoint-IsSized ip dst src off info s16 s2 s2' inside sized =
      Safe-bind IsSized IsSized _ _ (parse_ip-IsSized ip off info s16 (omega arith) sized) (λ i h.
        Safe-bind IsSized IsSized _ _ (copy_port-IsSized dst (off + 4) i s2 (omega arith) h)
          (λ j k. copy_port-IsSized src (off + 6) j s2' (omega arith) k))

  lidar_ip-IsSized :
      (off : ℕ) (info : Info)
      → off + 12 ≤ length d
      → IsSized info
      → Safe IsSized (parse_lidar_ip_addr d off info)
  unfolding parse_lidar_ip_addr size_of
  lidar_ip-IsSized off info inside sized =
      Safe-bind IsSized IsSized _ _
        (parse_ip-IsSized Field.lidar_ip_addr off info refl (omega arith) sized)
        (λ i h.
          Safe-bind IsSized IsSized _ _
            (parse_ip-IsSized Field.lidar_net_mask (off + 4) i refl (omega arith) h)
            (λ j k. parse_ip-IsSized Field.lidar_gw_addr (off + 8) j refl (omega arith) k))

  abbrev StaysInside : Body → Type 0
  StaysInside body =
      (off len : ℕ) (info : Info)
      → off + len ≤ length d
      → IsSized info
      → Safe IsSized (body d off len info)

  guarded-StaysInside :
      (n : ℕ) (f : List ℕ → ℕ → Info → Outcome Info)
      → ((off : ℕ) (info : Info) → off + n ≤ length d → IsSized info → Safe IsSized (f d off info))
      → StaysInside (guarded n f)
  guarded-StaysInside n f inner off len info inside sized = elim (Bool-cases (ltb len n)) [
    | inl short ↦ rw short tt
    | inr long ↦ rw long (inner off info (omega (arith, ltb→le len n long)) sized)
  ]

  -- Each value is read inside the message, and written inside its member.
  parse_value-IsSized : (k : ParamKeyName) → StaysInside (parse_value k)
  unfolding parse_ntp_server_ip size_of
  parse_value-IsSized =
      by_case StaysInside copy_value-IsSized
        (λ ip dst src s16 s2 s2'.
          guarded-StaysInside 8 (parse_ip_cfg ip dst src)
            (λ off info. endpoint-IsSized ip dst src off info s16 s2 s2'))
        (guarded-StaysInside 12 parse_lidar_ip_addr lidar_ip-IsSized)
        (guarded-StaysInside 4 parse_ntp_server_ip
          (λ off info. parse_ip-IsSized Field.ntp_server_ip off info refl))
        (λ off len info inside sized. sized)

  abbrev Kept : Info × KeyMask → Type 0
  Kept s = IsSized s.0

  parse_case-IsSized :
      (k : Option ParamKeyName) (off len : ℕ) (s : Info × KeyMask)
      → off + len ≤ length d
      → Kept s
      → Safe Kept (parse_case k d off len s)
  unfolding parse_case
  parse_case-IsSized none off len s inside sized = sized
  parse_case-IsSized (some k) off len s inside sized =
      Safe-bind IsSized Kept _ _ (parse_value-IsSized k off len s.0 inside sized) (λ i h. h)

  parse_tlvs-IsSized :
      (left data_len off : ℕ) (s : Info × KeyMask)
      → data_len ≤ length d
      → Kept s
      → Safe Kept (parse_tlvs left d data_len off s)
  unfolding parse_tlvs
  parse_tlvs-IsSized zero data_len off s inside sized = sized
  parse_tlvs-IsSized (suc left) data_len off s inside sized =
      Safe-unless Kept (ltb data_len off || ltb (data_len - off) 4) _ λ room.
        Safe-read Kept off 2 d _ (omega (arith, header_room data_len off room)) λ key _.
          Safe-read Kept (off + 2) 2 d _ (omega (arith, header_room data_len off room)) λ val_len _.
            Safe-unless Kept (ltb data_len (off + 4) || ltb (data_len - (off + 4)) (le val_len)) _
              λ fits.
                Safe-bind Kept Kept _ _
                  (parse_case-IsSized (find_key (le key)) (off + 4) (le val_len) s
                    (omega (arith, value_room data_len (off + 4) (le val_len) fits)) sized)
                  λ stored kept.
                    parse_tlvs-IsSized left data_len (off + 4 + le val_len) stored inside kept

-- A pushed message whose data pointer reaches at least `data_len` bytes never makes the parser read
-- outside of the data or write outside of a member of the structure: it refuses the message, or
-- returns a structure in which every member still has the size of its type.
pub parse_state_info-IsSized :
    (p : CommPacket) (d : List ℕ)
    → p.payload ≡ some d
    → p.data_len ≤ length d
    → Safe (λ s. IsSized s.0) (parse_state_info p)
unfolding parse_state_info
parse_state_info-IsSized p d is inside = rw is (
    Safe-unless _ (ltb p.data_len 4) _ λ long.
      Safe-read _ 0 2 d _ (omega (arith, ltb→le p.data_len 4 long))
        λ key_num _. parse_tlvs-IsSized d (le key_num) p.data_len 4 (_, _) inside zero_info-IsSized)
