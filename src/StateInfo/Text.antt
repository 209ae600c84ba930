-- ===== src/StateInfo/Text.antt =====
-- The calls that the program makes on rapidjson's writer, as data, and the texts and numbers that it
-- hands to them: `BoundedStringLength`, the C strings and the hexadecimal status code.
use Prim.Native.String.{String}
use livox_sdk.StateInfo.Keys.{ParamKeyName}
use livox_sdk.Base.{
  ℕ, zero, suc, ◌+◌, ◌-◌, ◌/◌, ◌%◌, ◌^◌, List, [], ◌∷◌, ◌++◌, take, drop, ltb, ◌==◌, if◌then◌else◌,
}

-- `negsuc n` is -(n + 1).
pub data ℤ : Type 0 where
  pos : ℕ → ℤ
  negsuc : ℕ → ℤ

-- A `double` is a `float` that was widened: the bits of the `float`.
pub data Event : Type 0 where
  key : String → Event
  uint : ℕ → Event
  int : ℤ → Event
  double : ℕ → Event
  str : List ℕ → Event
  start_object end_object start_array end_array : Event

-- The signed number that a word stands for.
abbrev pub signed32 : ℕ → ℤ
signed32 n = if ltb n (2 ^ 31) then pos n else negsuc (2 ^ 32 - n - 1)

abbrev pub signed64 : ℕ → ℤ
signed64 n = if ltb n (2 ^ 63) then pos n else negsuc (2 ^ 64 - n - 1)

-- The bytes of a member of a nested structure, or of an element of an array.
unfoldable pub part : ℕ → ℕ → List ℕ → List ℕ
unfolding take drop
part o n image = take n (drop o image)

-- What `strlen` and a copy see of a buffer: the bytes before the terminator.
unfoldable pub c_string : List ℕ → List ℕ
c_string [] = []
c_string (b ∷ bs) = if b == 0 then [] else b ∷ c_string bs

-- `BoundedStringLength`: the loop over the bytes below the capacity.
unfoldable pub bounded_string_length : List ℕ → ℕ → ℕ
bounded_string_length value zero = 0
bounded_string_length [] (suc capacity) = 0
bounded_string_length (b ∷ bs) (suc capacity) =
    if b == 0 then 0 else suc (bounded_string_length bs capacity)

unfoldable pub bounded : List ℕ → ℕ → List ℕ
unfolding take bounded_string_length
bounded image capacity = take (bounded_string_length image capacity) image

-- A digit, and a `uint8_t` printed with `std::hex`.
unfoldable pub hex_digit : ℕ → ℕ
hex_digit n = if ltb n 10 then 48 + n else 87 + n

unfoldable pub to_hex : ℕ → List ℕ
unfolding hex_digit
to_hex b = if ltb b 16 then hex_digit b ∷ [] else hex_digit (b / 16) ∷ hex_digit (b % 16) ∷ []

-- The loop from the last byte down to the first, with a space before each byte but the first that
-- is printed.
unfoldable pub hex_bytes : List ℕ → List ℕ
unfolding to_hex
hex_bytes [] = []
hex_bytes (b ∷ []) = to_hex b
hex_bytes (b ∷ c ∷ bs) = hex_bytes (c ∷ bs) ++ (b' ' ∷ to_hex b)

unfoldable pub status_text : List ℕ → List ℕ
unfolding hex_bytes
status_text code = hex_bytes code

-- The member that is written for a key.
abbrev pub Row : Type 0
Row = ParamKeyName × List Event
