-- ===== src/PointData/Packet.antt =====
-- `IsCompleteDataPacket`: which packets pass, and that their points lie inside them.
use livox_sdk.Base.{
  ℕ, ◌+◌, ◌*◌, ◌≤◌, ◌<◌, ◌≡◌, ◌≢◌, ◌↔◌, ◌⊎◌, arith, List, ◌∷◌, none, some, true, length, by_prefix,
  refl, ◌/◌, false, ltb, le→ltb, inl, inr, some-injective, read_at, read_at_total, All, IsByte,
}
use livox_sdk.PointData.{is_complete_data_packet, get_data_element_size}
use native.Mathlib.Nat.{le_trans, mul-le-mul_right, suc-mul}
use livox_sdk.Protocol.{field}

-- The packet's type has points of a known size, and its header and `dot_num` points fit into the
-- length that it declares, which fits into what was received.
abbrev pub IsWhole : List ℕ → ℕ → Type 0
IsWhole buf n =
    (type : ℕ) × (count : ℕ) × (declared : ℕ) × (field 10 1 buf ≡ some type)
    × (field 5 2 buf ≡ some count)
    × (field 1 2 buf ≡ some declared)
    × (36 ≤ n)
    × (0 < get_data_element_size type)
    × (36 + count * get_data_element_size type ≤ declared)
    × (declared ≤ n)

element_sizes :
    (t : ℕ)
    → let s = get_data_element_size t in
      (s ≡ 0) ⊎ ((s ≡ 24) ⊎ ((s ≡ 14) ⊎ ((s ≡ 8) ⊎ ((s ≡ 10) ⊎ (s ≡ 28)))))
unfolding get_data_element_size
element_sizes t = ground arith

-- The guard against an overflow of the product never fires: the number of points has 16 bits.
no_overflow :
    (t count : ℕ)
    → count < 65536
    → 0 < get_data_element_size t
    → ltb (18446744073709551579 / get_data_element_size t) count ≡ false
no_overflow t count h pos = elim (element_sizes t) [
  | inl e ↦ absurd (omega (arith, e, pos))
  | inr (inl e) ↦ rw e (le→ltb _ _ (omega arith))
  | inr (inr (inl e)) ↦ rw e (le→ltb _ _ (omega arith))
  | inr (inr (inr (inl e))) ↦ rw e (le→ltb _ _ (omega arith))
  | inr (inr (inr (inr (inl e)))) ↦ rw e (le→ltb _ _ (omega arith))
  | inr (inr (inr (inr (inr e)))) ↦ rw e (le→ltb _ _ (omega arith))
]

module _ (n : ℕ) where
  abbrev Answers : List ℕ → Type 0
  Answers buf = is_complete_data_packet (some buf) n ≢ none

  answers : (buf : List ℕ) → 36 ≤ length buf → Answers buf
  unfolding is_complete_data_packet
  answers buf h =
      by_prefix 11 Answers (λ b0 b1 b2 b3 b4 b5 b6 b7 b8 b9 b10 rest. ground arith) buf
        (omega arith)

  abbrev Accepts : List ℕ → Type 0
  Accepts buf = is_complete_data_packet (some buf) n ≡ some true → IsWhole buf n

  accepts : (buf : List ℕ) → 36 ≤ length buf → Accepts buf
  unfolding is_complete_data_packet
  accepts buf h =
      by_prefix 11 Accepts
        (λ b0 b1 b2 b3 b4 b5 b6 b7 b8 b9 b10 rest ok. (
          b10 + 0,
          b5 + 256 * (b6 + 0),
          b1 + 256 * (b2 + 0),
          refl,
          refl,
          refl,
          ground arith,
          ground arith,
          ground arith,
          ground arith,
        ))
        buf (omega arith)

  abbrev Completes : List ℕ → Type 0
  Completes buf = All IsByte buf → IsWhole buf n → is_complete_data_packet (some buf) n ≡ some true

  accepts_whole :
      (b0 b1 b2 b3 b4 b5 b6 b7 b8 b9 b10 : ℕ) (rest : List ℕ)
      → Completes (b0 ∷ b1 ∷ b2 ∷ b3 ∷ b4 ∷ b5 ∷ b6 ∷ b7 ∷ b8 ∷ b9 ∷ b10 ∷ rest)
  unfolding is_complete_data_packet
  accepts_whole b0 b1 b2 b3 b4 b5 b6 b7 b8 b9 b10 rest bytes
        (t, c, d, et, ec, ed, long, pos, fits, room) =
      let xt : b10 + 0 ≡ t = some-injective _ _ et in
      let xc : b5 + 256 * (b6 + 0) ≡ c = some-injective _ _ ec in
      let xd : b1 + 256 * (b2 + 0) ≡ d = some-injective _ _ ed in
      let e0 = no_overflow t c (omega arith) pos in
      let e1 : ltb n 36 ≡ false = le→ltb n 36 long in rw (xt, xc, xd, e0, e1) (ground arith)

-- Of a buffer that holds the header of a packet, `IsCompleteDataPacket` always gets an answer, and
-- it is true exactly when the type of the points is known and the header and the `dot_num` points
-- fit into the length that the packet declares, and that length into what was received.
pub is_complete_data_packet-IsWhole :
    (n : ℕ) (buf : List ℕ)
    → All IsByte buf
    → 36 ≤ length buf
    → (is_complete_data_packet (some buf) n ≢ none)
      × ((is_complete_data_packet (some buf) n ≡ some true) ↔ IsWhole buf n)
is_complete_data_packet-IsWhole n buf bytes h = (
  answers n buf h,
  (accepts n buf h, by_prefix 11 (Completes n) (accepts_whole n) buf (omega arith) bytes),
)

received_header : (n : ℕ) (buf : List ℕ) → is_complete_data_packet (some buf) n ≡ some true → 36 ≤ n
unfolding is_complete_data_packet
received_header n buf ok = ground arith

-- The points that a callback may read in a packet that was accepted.
abbrev pub PointsInside : List ℕ → ℕ → Type 0
PointsInside buf n =
    (type : ℕ) × (count : ℕ) × (field 10 1 buf ≡ some type)
    × (field 5 2 buf ≡ some count)
    × (0 < get_data_element_size type)
    × ((i : ℕ)
        → i < count
        → (point : List ℕ) × (read_at (36 + i * get_data_element_size type)
              (get_data_element_size type) buf
            ≡ some point)
          × (length point ≡ get_data_element_size type))

one_more : (i count s : ℕ) → i < count → i * s + s ≤ count * s
one_more i count s h = omega (arith, mul-le-mul_right s h, suc-mul i s)

-- In a packet that was accepted, received into a buffer that holds as many bytes as were received,
-- every one of the `dot_num` points lies, whole, inside the buffer.
pub is_complete_data_packet-PointsInside :
    (n : ℕ) (buf : List ℕ)
    → n ≤ length buf
    → is_complete_data_packet (some buf) n ≡ some true
    → PointsInside buf n
is_complete_data_packet-PointsInside n buf inside ok =
    let (t, c, d, et, ec, ed, long, pos, fits, room) =
      accepts n buf (le_trans (received_header n buf ok) inside) ok in
    (
      t,
      c,
      et,
      ec,
      pos,
      λ i h. read_at_total _ _ buf (omega (arith, one_more i c (get_data_element_size t) h)),
    )
