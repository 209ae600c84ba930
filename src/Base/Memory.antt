-- ===== src/Base/Memory.antt =====
-- A buffer is the list of its bytes. `none` is an access outside of it.
use mathlib.Core.Logic.{◌⊎◌, inl, inr}
use Prim.Native.Nat.{ℕ, zero, suc, ◌+◌, ◌-◌, ◌≤◌, ◌<◌}
use mathlib.Core.Path.{◌≡◌, refl, ap}
use mathlib.Core.List.{List, [], ◌∷◌, ◌++◌}
use mathlib.Core.Option.{Option, none, some}
use native.Mathlib.Omega.{arith}
use package.livox_sdk.Base.Lists.{length, replicate}

infixl 5 ◌>>=◌
abbrev pub ◌>>=◌ {ℓ κ} : {A : Type ℓ} {B : Type κ} → Option A → (A → Option B) → Option B
none >>= f = none
some a >>= f = f a

abbrev pub push_front : ℕ → Option (List ℕ) → Option (List ℕ)
push_front b none = none
push_front b (some bs) = some (b ∷ bs)

-- The first `n` bytes of a buffer.
abbrev pub read_front : ℕ → List ℕ → Option (List ℕ)
read_front zero buf = some []
read_front (suc n) [] = none
read_front (suc n) (b ∷ buf) = push_front b (read_front n buf)

-- `memcpy(destination, &buf[offset], n)`: the bytes that it reads.
abbrev pub read_at : ℕ → ℕ → List ℕ → Option (List ℕ)
read_at zero n buf = read_front n buf
read_at (suc o) n [] = none
read_at (suc o) n (b ∷ buf) = read_at o n buf

abbrev pub write_front : List ℕ → List ℕ → Option (List ℕ)
write_front [] buf = some buf
write_front (x ∷ xs) [] = none
write_front (x ∷ xs) (b ∷ buf) = push_front x (write_front xs buf)

-- `memcpy(&buf[offset], source, n)`, with the bytes of the source written out.
abbrev pub write_at : ℕ → List ℕ → List ℕ → Option (List ℕ)
write_at zero xs buf = write_front xs buf
write_at (suc o) xs [] = none
write_at (suc o) xs (b ∷ buf) = push_front b (write_at o xs buf)

pub read_front_total :
    (n : ℕ) (buf : List ℕ)
    → n ≤ length buf
    → (bs : List ℕ) × (read_front n buf ≡ some bs) × (length bs ≡ n)
read_front_total zero buf h = ([], refl, refl)
read_front_total (suc n) [] h = absurd (omega arith)
read_front_total (suc n) (b ∷ buf) h =
    let (bs, e, l) = read_front_total n buf (omega arith) in (b ∷ bs, rw e, ap suc l)

-- A read inside the buffer succeeds, with as many bytes as were asked for.
pub read_at_total :
    (o n : ℕ) (buf : List ℕ)
    → o + n ≤ length buf
    → (bs : List ℕ) × (read_at o n buf ≡ some bs) × (length bs ≡ n)
read_at_total zero n buf h = read_front_total n buf (omega arith)
read_at_total (suc o) zero [] h = absurd (omega arith)
read_at_total (suc o) (suc n) [] h = absurd (omega arith)
read_at_total (suc o) n (b ∷ buf) h = read_at_total o n buf (omega arith)

pub write_front_total :
    (xs buf : List ℕ)
    → length xs ≤ length buf
    → (bs : List ℕ) × (write_front xs buf ≡ some bs) × (length bs ≡ length buf)
write_front_total [] buf h = (buf, refl, refl)
write_front_total (x ∷ xs) [] h = absurd (omega arith)
write_front_total (x ∷ xs) (b ∷ buf) h =
    let (bs, e, l) = write_front_total xs buf (omega arith) in (x ∷ bs, rw e, ap suc l)

-- What was read is what stands there.
pub read_front-append : (xs rest : List ℕ) → read_front (length xs) (xs ++ rest) ≡ some xs
read_front-append [] rest = refl
read_front-append (x ∷ xs) rest = rw (read_front-append xs rest)

pub read_at-append :
    (pre xs rest : List ℕ) → read_at (length pre) (length xs) (pre ++ (xs ++ rest)) ≡ some xs
read_at-append [] xs rest = read_front-append xs rest
read_at-append (b ∷ pre) xs rest = read_at-append pre xs rest

pub write_front-append :
    (xs old rest : List ℕ)
    → length old ≡ length xs
    → write_front xs (old ++ rest) ≡ some (xs ++ rest)
write_front-append [] [] rest h = refl
write_front-append [] (b ∷ old) rest h = absurd (omega arith)
write_front-append (x ∷ xs) [] rest h = absurd (omega arith)
write_front-append (x ∷ xs) (b ∷ old) rest h = rw (write_front-append xs old rest (omega arith))

-- What holds of every list with `n` bytes written out in front holds of a list that long.
abbrev pub Prefixed : ℕ → (List ℕ → Type 0) → Type 0
Prefixed zero P = (rest : List ℕ) → P rest
Prefixed (suc n) P = (b : ℕ) → Prefixed n (λ rest. P (b ∷ rest))

pub by_prefix :
    (n : ℕ) (P : List ℕ → Type 0) → Prefixed n P → (buf : List ℕ) → n ≤ length buf → P buf
by_prefix zero P f buf h = f buf
by_prefix (suc n) P f [] h = absurd (omega arith)
by_prefix (suc n) P f (b ∷ buf) h = by_prefix n (λ rest. P (b ∷ rest)) (f b) buf (omega arith)

-- Any list at least `n` long is `n` bytes and a rest.
pub split_at :
    (n : ℕ) (buf : List ℕ)
    → n ≤ length buf
    → (xs : List ℕ) × (rest : List ℕ) × (buf ≡ xs ++ rest) × (length xs ≡ n)
split_at zero buf h = ([], buf, refl, refl)
split_at (suc n) [] h = absurd (omega arith)
split_at (suc n) (b ∷ buf) h =
    let (xs, rest, e, l) = split_at n buf (omega arith) in
    (b ∷ xs, rest, ap (λ t. b ∷ t) e, ap suc l)

-- A write that is longer than what is left faults.
pub write_front_overflow : (xs buf : List ℕ) → length buf < length xs → write_front xs buf ≡ none
write_front_overflow [] buf h = absurd (omega arith)
write_front_overflow (x ∷ xs) [] h = refl
write_front_overflow (x ∷ xs) (b ∷ buf) h = rw (write_front_overflow xs buf (omega arith))

pub some_bind {ℓ κ} :
    {A : Type ℓ} {B : Type κ}
    → (x : Option A) (f : A → Option B) (b : B) → (x >>= f) ≡ some b
    → (a : A) × (x ≡ some a) × (f a ≡ some b)
some_bind none f b e = absurd (ground arith)
some_bind (some a) f b e = (a, refl, e)

pub Option-cases {ℓ} : {A : Type ℓ} → (x : Option A) → (x ≡ none) ⊎ ((a : A) × (x ≡ some a))
Option-cases none = inl refl
Option-cases (some a) = inr (a, refl)

-- A write over zeroes.
pub write_front-zeros :
    (xs : List ℕ) (n : ℕ)
    → length xs ≤ n
    → write_front xs (replicate n 0) ≡ some (xs ++ replicate (n - length xs) 0)
write_front-zeros [] n h = let e : n - 0 ≡ n = omega arith in rw e refl
write_front-zeros (x ∷ xs) zero h = absurd (omega arith)
write_front-zeros (x ∷ xs) (suc n) h =
    let e : suc n - suc (length xs) ≡ n - length xs = omega arith in
    rw (write_front-zeros xs n (omega arith), e) refl

-- A write behind a prefix leaves the prefix.
pub write_at-behind :
    (pre xs d image : List ℕ)
    → write_front xs d ≡ some image
    → write_at (length pre) xs (pre ++ d) ≡ some (pre ++ image)
write_at-behind [] xs d image e = e
write_at-behind (b ∷ pre) xs d image e = rw (write_at-behind pre xs d image e) refl
