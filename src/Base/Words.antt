-- ===== src/Base/Words.antt =====
-- Little-endian words, as the packed structures of the program lay them out.
use Prim.Native.Nat.{ℕ, ◌+◌, ◌*◌, ◌/◌, ◌%◌, ◌<◌}
use mathlib.Core.Path.{◌≡◌}
use mathlib.Core.List.{List, [], ◌∷◌}
use mathlib.Core.Bool.{Bool, true, ◌&&◌}
use mathlib.Core.Logic.{inl, inr}
use native.Mathlib.Omega.{arith}
use package.livox_sdk.Base.Lists.{All}
use package.livox_sdk.Base.Tests.{ltb, ltb→lt, Bool-cases}

-- The number that a word's bytes stand for.
abbrev pub le : List ℕ → ℕ
le [] = 0
le (b ∷ bs) = b + 256 * le bs

-- The stores of a `uint8_t`, `uint16_t` and `uint32_t`: what does not fit is cut off.
abbrev pub le8 : ℕ → List ℕ
le8 n = n % 256 ∷ []

abbrev pub le16 : ℕ → List ℕ
le16 n = n % 256 ∷ n / 256 % 256 ∷ []

abbrev pub le32 : ℕ → List ℕ
le32 n = n % 256 ∷ n / 256 % 256 ∷ n / 65536 % 256 ∷ n / 16777216 % 256 ∷ []

abbrev pub IsByte : ℕ → Type 0
IsByte b = b < 256

pub le-le8 : (n : ℕ) → le (le8 n) ≡ n % 256
le-le8 n = omega arith

pub le-le16 : (n : ℕ) → le (le16 n) ≡ n % 65536
le-le16 n = omega arith

pub le-le32 : (n : ℕ) → le (le32 n) ≡ n % 4294967296
le-le32 n = omega arith

-- The test of a whole buffer.
abbrev pub are_bytes : List ℕ → Bool
are_bytes [] = true
are_bytes (b ∷ bs) = ltb b 256 && are_bytes bs

pub are_bytes-IsByte : (bs : List ℕ) → are_bytes bs ≡ true → All IsByte bs
are_bytes-IsByte [] h = tt
are_bytes-IsByte (b ∷ bs) h = elim (Bool-cases (ltb b 256)) [
  | inl small ↦ (ltb→lt b 256 small, are_bytes-IsByte bs (rw small at h))
  | inr large ↦ absurd (ground (arith, h, large))
]
