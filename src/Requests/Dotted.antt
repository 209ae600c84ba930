-- ===== src/Requests/Dotted.antt =====
-- What `IpToU8` makes of a text: it ends, it gives four bytes, and it reads what `ParseIp` prints.
use livox_sdk.Base.{
  ℕ, zero, suc, ◌+◌, ◌-◌, ◌*◌, ◌/◌, ◌%◌, ◌^◌, ◌≤◌, ◌<◌, ◌≡◌, ◌≢◌, refl, ◌∙◌, arith, true, false,
  List, [], ◌∷◌, ◌++◌, Option, none, some, ltb, ◌==◌, length, Bool-cases, inl, inr, Option-cases,
  ltb→lt, le→ltb, lt→ltb, length-append,
}
use livox_sdk.Requests.{Attempt, fault, thrown, refused, done, ◌>>=◌}
use livox_sdk.Requests.Address.{
  is_space, is_digit, skip_space, digits, stoi, find_dot, push_value, push_part, last_part,
  ip_parts, four_parts, ip_to_u8,
}
use livox_sdk.StateInfo.Text.{ℤ, pos, negsuc}
use livox_sdk.StateInfo.Values.{ip_str, to_string}

-- What is behind a dot is shorter.
find_dot-shorter :
    (text before behind : List ℕ)
    → find_dot text ≡ some (before, behind)
    → length behind < length text
unfolding find_dot
find_dot-shorter [] before behind e = absurd (ground (arith, e))
find_dot-shorter (b ∷ bs) before behind e = elim (Bool-cases (b == b'.')) [
  | inl dot ↦ ground (arith, rw (find_dot, dot) at e)
  | inr other ↦ elim (Option-cases (find_dot bs)) [
    | inl ends ↦ absurd (ground (arith, rw (find_dot, other, ends) at e))
    | inr ((start, rest), more) ↦
        ground (arith, rw (find_dot, other, more) at e, find_dot-shorter bs start rest more)
  ]
]

push_value-returns : (v : Option ℤ) (result : List ℕ) → push_value v result ≢ fault
push_value-returns none result = ground arith
push_value-returns (some (pos n)) result = ground arith
push_value-returns (some (negsuc n)) result = ground arith

bind-returns :
    {A B : Type 0} (m : Attempt A) (f : A → Attempt B)
    → m ≢ fault
    → ((a : A) → f a ≢ fault)
    → (m >>= f) ≢ fault
bind-returns fault f h k = absurd (h refl)
bind-returns thrown f h k = λ e. ground (arith, e)
bind-returns refused f h k = λ e. ground (arith, e)
bind-returns (done a) f h k = k a

last_part-returns : (text result : List ℕ) → last_part text result ≢ fault
last_part-returns [] result = ground arith
last_part-returns (b ∷ bs) result = push_value-returns (stoi (b ∷ bs)) result

ip_parts-returns :
    (fuel : ℕ) (text result : List ℕ) → length text < fuel → ip_parts fuel text result ≢ fault
unfolding ip_parts
ip_parts-returns zero text result h = absurd (omega arith)
ip_parts-returns (suc fuel) text result h = elim (Option-cases (find_dot text)) [
  | inl e ↦ rw (ip_parts, e) (last_part-returns text result)
  | inr ((before, behind), e) ↦
      rw (ip_parts, e)
        (bind-returns (push_part before result) (ip_parts fuel behind)
          (push_value-returns (stoi before) result)
          (λ more.
            ip_parts-returns fuel behind more
              (omega (arith, h, find_dot-shorter text before behind e))))
]

pub ip_to_u8_returns : (src : List ℕ) → ip_to_u8 src ≢ fault
unfolding ip_to_u8
ip_to_u8_returns src =
    bind-returns (ip_parts (suc (length src)) src []) four_parts
      (ip_parts-returns (suc (length src)) src [] (omega arith)) (λ r. ground arith)

pub bind-done :
    {A B : Type 0} (m : Attempt A) (f : A → Attempt B) {b : B}
    → (m >>= f) ≡ done b
    → (a : A) × (m ≡ done a) × (f a ≡ done b)
bind-done fault f h = cc
bind-done thrown f h = cc
bind-done refused f h = cc
bind-done (done a) f h = (a, refl, h)

-- An accepted address is four bytes.
pub length-ip_to_u8 : (src v : List ℕ) → ip_to_u8 src ≡ done v → length v ≡ 4
unfolding ip_to_u8
length-ip_to_u8 src v e =
    let (parts, _, four) = bind-done (ip_parts (suc (length src)) src []) four_parts e in
    elim (Bool-cases (length parts == 4)) [
      | inl long ↦ ground (arith, long, rw long at four)
      | inr other ↦ absurd (ground (arith, rw other at four))
    ]

-- Four parts, a refusal, or an exception of `std::stoi`.
abbrev pub IsAnswer : Attempt (List ℕ) → Type 0
IsAnswer fault = ⊥
IsAnswer thrown = Unit {0}
IsAnswer refused = Unit {0}
IsAnswer (done v) = length v ≡ 4

answers :
    (m : Attempt (List ℕ)) → m ≢ fault → ((v : List ℕ) → m ≡ done v → length v ≡ 4) → IsAnswer m
answers fault returns four = returns refl
answers thrown returns four = tt
answers refused returns four = tt
answers (done v) returns four = four v refl

-- The loop over the dots of an address ends, for every text: as many rounds as the text has bytes,
-- and one more, are enough. What is left are exactly four parts, a refusal, or an exception of
-- `std::stoi`.
pub ip_to_u8_total : (src : List ℕ) → IsAnswer (ip_to_u8 src)
ip_to_u8_total src = answers (ip_to_u8 src) (ip_to_u8_returns src) (length-ip_to_u8 src)

-- A digit is no space, no sign and no dot.
digit_tests :
    (d : ℕ)
    → d < 10
    → (is_space (48 + d) ≡ false)
      × (is_digit (48 + d) ≡ true)
      × ((48 + d) == b'-' ≡ false)
      × ((48 + d) == b'+' ≡ false)
      × ((48 + d) == b'.' ≡ false)
digit_tests d h = ground arith

module _ (d : ℕ) (small : d < 10) where
  skip_space-digit : (bs : List ℕ) → skip_space ((48 + d) ∷ bs) ≡ (48 + d) ∷ bs
  unfolding skip_space
  skip_space-digit bs = rw (skip_space, (digit_tests d small).0) refl

  digits-digit : (n : ℕ) (bs : List ℕ) → digits n ((48 + d) ∷ bs) ≡ digits (10 * n + d) bs
  unfolding digits
  digits-digit n bs =
      let e : 48 + d - 48 ≡ d = omega arith in rw (digits, (digit_tests d small).1, e) refl

  find_dot-digit :
      (bs before behind : List ℕ)
      → find_dot bs ≡ some (before, behind)
      → find_dot ((48 + d) ∷ bs) ≡ some ((48 + d) ∷ before, behind)
  unfolding find_dot
  find_dot-digit bs before behind e = rw (find_dot, (digit_tests d small).4, e) refl

  find_dot_skip : (bs : List ℕ) → find_dot bs ≡ none → find_dot ((48 + d) ∷ bs) ≡ none
  unfolding find_dot
  find_dot_skip bs e = rw (find_dot, (digit_tests d small).4, e) refl

  stoi-digit : (bs : List ℕ) → digits d bs < 1000 → stoi ((48 + d) ∷ bs) ≡ some (pos (digits d bs))
  unfolding stoi
  stoi-digit bs short =
      let z : 10 * 0 + d ≡ d = omega arith in
      let fits : ltb (digits d bs) (2 ^ 31) ≡ true = lt→ltb (digits d bs) (2 ^ 31) (omega arith) in
      rw
        (
          stoi,
          skip_space-digit bs,
          (digit_tests d small).2,
          (digit_tests d small).3,
          (digit_tests d small).1,
          digits-digit 0 bs,
          z,
          fits,
        )
        refl

-- The text of a byte, read back.
module _ (n : ℕ) (small : n ≤ 256) where
  abbrev ReadBack : List ℕ → Type 0
  ReadBack text =
      (stoi text ≡ some (pos n))
      × ((rest : List ℕ) → find_dot (text ++ (b'.' ∷ rest)) ≡ some (text, rest))
      × (find_dot text ≡ none)

  one_digit : n < 10 → ReadBack ((48 + n) ∷ [])
  unfolding digits find_dot
  one_digit h = (
    stoi-digit n h [] (omega arith),
    λ rest. find_dot-digit n h (b'.' ∷ rest) [] rest refl,
    find_dot_skip n h [] refl,
  )

  two_digits : n < 100 → ReadBack ((48 + n / 10) ∷ (48 + n % 10) ∷ [])
  unfolding digits find_dot
  two_digits h =
      let a : n / 10 < 10 = omega arith in
      let b : n % 10 < 10 = omega arith in
      let e : digits (n / 10) ((48 + n % 10) ∷ []) ≡ n =
        digits-digit (n % 10) b (n / 10) [] ∙ omega arith in
      (
        stoi-digit (n / 10) a ((48 + n % 10) ∷ []) (omega (arith, e)) ∙ rw e refl,
        λ rest.
            find_dot-digit (n / 10) a _ _ rest
              (find_dot-digit (n % 10) b (b'.' ∷ rest) [] rest refl),
        find_dot_skip (n / 10) a _ (find_dot_skip (n % 10) b [] refl),
      )

  three_digits : ReadBack ((48 + n / 100) ∷ (48 + n / 10 % 10) ∷ (48 + n % 10) ∷ [])
  unfolding digits find_dot
  three_digits =
      let a : n / 100 < 10 = omega arith in
      let b : n / 10 % 10 < 10 = omega arith in
      let c : n % 10 < 10 = omega arith in
      let e : digits (n / 100) ((48 + n / 10 % 10) ∷ (48 + n % 10) ∷ []) ≡ n =
        digits-digit (n / 10 % 10) b (n / 100) ((48 + n % 10) ∷ [])
        ∙ (digits-digit (n % 10) c (10 * (n / 100) + n / 10 % 10) [] ∙ omega arith) in
      (
        stoi-digit (n / 100) a ((48 + n / 10 % 10) ∷ (48 + n % 10) ∷ []) (omega (arith, e))
            ∙ rw e refl,
        λ rest. find_dot-digit (n / 100) a _ _ rest (
            find_dot-digit (n / 10 % 10) b _ _ rest
              (find_dot-digit (n % 10) c (b'.' ∷ rest) [] rest refl)),
        find_dot_skip (n / 100) a _
            (find_dot_skip (n / 10 % 10) b _ (find_dot_skip (n % 10) c [] refl)),
      )

  to_string-ReadBack : ReadBack (to_string n)
  unfolding to_string
  to_string-ReadBack = elim (Bool-cases (ltb n 10)) [
    | inl h ↦ rw (to_string, h) (one_digit (ltb→lt n 10 h))
    | inr g ↦ elim (Bool-cases (ltb n 100)) [
      | inl h ↦ rw (to_string, g, h) (two_digits (ltb→lt n 100 h))
      | inr h ↦ rw (to_string, g, h) three_digits
    ]
  ]

  push_part-to_string :
      (result : List ℕ) → push_part (to_string n) result ≡ done (result ++ (n % 256 ∷ []))
  push_part-to_string result =
      let fits : ltb 256 n ≡ false = le→ltb 256 n small in rw (to_string-ReadBack.0, fits) refl

last_part-stoi :
    (text result : List ℕ) (v : ℤ)
    → stoi text ≡ some v
    → last_part text result ≡ push_part text result
unfolding stoi skip_space
last_part-stoi [] result v e = absurd (ground (arith, e))
last_part-stoi (b ∷ bs) result v e = refl

module _ (n : ℕ) (small : n ≤ 256) (fuel : ℕ) where
  ip_parts-part :
      (rest result : List ℕ)
      → ip_parts (suc fuel) (to_string n ++ (b'.' ∷ rest)) result
        ≡ ip_parts fuel rest (result ++ (n % 256 ∷ []))
  unfolding ip_parts
  ip_parts-part rest result =
      let (_, cut, _) = to_string-ReadBack n small in
      rw (ip_parts, cut rest, push_part-to_string n small result) refl

  ip_parts_last :
      (result : List ℕ) → ip_parts (suc fuel) (to_string n) result ≡ done (result ++ (n % 256 ∷ []))
  unfolding ip_parts
  ip_parts_last result =
      let (read, _, ends) = to_string-ReadBack n small in
      rw (ip_parts, ends)
        (last_part-stoi (to_string n) result (pos n) read ∙ push_part-to_string n small result)

length-dotted : (a b c d : List ℕ) → 3 ≤ length (a ++ (b'.' ∷ (b ++ (b'.' ∷ (c ++ (b'.' ∷ d))))))
length-dotted a b c d = omega (
  arith,
  length-append a (b'.' ∷ (b ++ (b'.' ∷ (c ++ (b'.' ∷ d))))),
  length-append b (b'.' ∷ (c ++ (b'.' ∷ d))),
  length-append c (b'.' ∷ d),
)

module _ (a b c d : ℕ) (small : (a ≤ 256) × (b ≤ 256) × (c ≤ 256) × (d ≤ 256)) where
  abbrev low_bytes : List ℕ
  low_bytes = a % 256 ∷ b % 256 ∷ c % 256 ∷ d % 256 ∷ []

  ip_parts-ip_str :
      (fuel : ℕ)
      → ip_parts (suc (suc (suc (suc fuel)))) (ip_str (a ∷ b ∷ c ∷ d ∷ [])) [] ≡ done low_bytes
  unfolding ip_str
  ip_parts-ip_str fuel =
      ip_parts-part a small.0 (suc (suc (suc fuel))) _ []
      ∙ (ip_parts-part b small.1 (suc (suc fuel)) _ (a % 256 ∷ [])
          ∙ (ip_parts-part c small.2 (suc fuel) _ (a % 256 ∷ b % 256 ∷ [])
              ∙ ip_parts_last d small.3 fuel (a % 256 ∷ b % 256 ∷ c % 256 ∷ [])))

  -- An address that is printed as `ParseIp` prints one is read back as the bytes that were printed.
  -- The parts may be up to 256; of 256, which the check lets pass, the low byte is kept, which is 0.
  pub ip_to_u8-ip_str : ip_to_u8 (ip_str (a ∷ b ∷ c ∷ d ∷ [])) ≡ done low_bytes
  unfolding ip_to_u8 ip_str
  ip_to_u8-ip_str =
      let src = ip_str (a ∷ b ∷ c ∷ d ∷ []) in
      let enough : suc (length src) ≡ suc (suc (suc (suc (length src - 3)))) =
        omega (arith, length-dotted (to_string a) (to_string b) (to_string c) (to_string d)) in
      rw (enough, ip_parts-ip_str (length src - 3)) refl
