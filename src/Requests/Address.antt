-- ===== src/Requests/Address.antt =====
-- `IpToU8` in sdk_core/command_handler/build_request.cpp, over the bytes of a text, with the
-- `std::stoi` that it calls.
use livox_sdk.Base.{
  ℕ, zero, suc, ◌+◌, ◌-◌, ◌*◌, ◌%◌, ◌^◌, Bool, true, false, ◌&&◌, ◌||◌, List, [], ◌∷◌, ◌++◌, Option,
  none, some, ltb, leb, ◌==◌, if◌then◌else◌, length,
}
use livox_sdk.Requests.{Attempt, fault, thrown, refused, done, ◌>>=◌}
use livox_sdk.StateInfo.Text.{ℤ, pos, negsuc}

-- `isspace` and `isdigit` in the C locale.
abbrev pub is_space : ℕ → Bool
is_space b = b == b' ' || (leb 9 b && leb b 13)

abbrev pub is_digit : ℕ → Bool
is_digit b = leb b'0' b && leb b b'9'

unfoldable pub skip_space : List ℕ → List ℕ
skip_space [] = []
skip_space (b ∷ bs) = let rest = skip_space bs in if is_space b then rest else b ∷ bs

-- The digits that the text starts with, behind the number that was read.
unfoldable pub digits : ℕ → List ℕ → ℕ
digits n [] = n
digits n (b ∷ bs) = let more = digits (10 * n + (b - b'0')) bs in if is_digit b then more else n

abbrev pub starts_number : List ℕ → Bool
starts_number [] = false
starts_number (b ∷ bs) = is_digit b

-- A number with its sign, where it fits an `int`.
abbrev pub in_int : Bool → ℕ → Option ℤ
in_int true zero = some (pos 0)
in_int true (suc n) = if ltb n (2 ^ 31) then some (negsuc n) else none
in_int false n = if ltb n (2 ^ 31) then some (pos n) else none

abbrev pub unsigned_text : Bool → List ℕ → Option ℤ
unsigned_text minus text = if starts_number text then in_int minus (digits 0 text) else none

abbrev pub signed_text : List ℕ → Option ℤ
signed_text [] = none
signed_text (b ∷ bs) =
    if b == b'-'
    then unsigned_text true bs
    else if b == b'+'
    then unsigned_text false bs
    else unsigned_text false (b ∷ bs)

-- `std::stoi(text)`: `none` is an exception, for a text without a number or for one out of range.
unfoldable pub stoi : List ℕ → Option ℤ
stoi text = signed_text (skip_space text)

-- `src.find(".", pos)`: the bytes before the first dot, and those behind it.
unfoldable pub find_dot : List ℕ → Option (List ℕ × List ℕ)
find_dot [] = none
find_dot (b ∷ bs) =
    let later = find_dot bs in
    if b == b'.'
    then some ([], bs)
    else elim later [ none ↦ none | some (before, behind) ↦ some (b ∷ before, behind) ]

-- The check of a part, and `result.push_back(val)`, which keeps the low byte.
abbrev pub push_value : Option ℤ → List ℕ → Attempt (List ℕ)
push_value none result = thrown
push_value (some (negsuc n)) result = refused
push_value (some (pos n)) result = if ltb 256 n then refused else done (result ++ (n % 256 ∷ []))

abbrev pub push_part : List ℕ → List ℕ → Attempt (List ℕ)
push_part part result = push_value (stoi part) result

-- What follows the loop: the rest of the text, if there is any.
abbrev pub last_part : List ℕ → List ℕ → Attempt (List ℕ)
last_part [] result = done result
last_part (b ∷ bs) result = push_part (b ∷ bs) result

-- The loop, on the text from `pos1` on; the fuel bounds its rounds.
unfoldable pub ip_parts : ℕ → List ℕ → List ℕ → Attempt (List ℕ)
ip_parts zero text result = fault
ip_parts (suc fuel) text result = elim (find_dot text) [
  | none ↦ last_part text result
  | some (before, behind) ↦ push_part before result >>= ip_parts fuel behind
]

abbrev pub four_parts : List ℕ → Attempt (List ℕ)
four_parts result = if length result == 4 then done result else refused

-- `IpToU8(src, ".", result)`.
unfoldable pub ip_to_u8 : List ℕ → Attempt (List ℕ)
ip_to_u8 src = ip_parts (suc (length src)) src [] >>= four_parts
