-- ===== src/StateInfo/Mask.antt =====
-- Which keys the parser reports: `key_mask` after a message.
use livox_sdk.Base.{
  ℕ, ◌≡◌, refl, Bool, true, false, ◌&&◌, ◌||◌, Option, none, some, List, [], ◌∷◌, length, All, ◌==◌,
  ==_iff, ◌++◌, ◌≤◌, ◌<◌, ◌∙◌, sym, Bool-cases, inl, inr, or_false, or_true, and_false, or_and_or,
  ap,
}
use livox_sdk.Base.Outcome.{ok, bind-eq-ok, ok-injective}
use livox_sdk.Protocol.{CommPacket}
use livox_sdk.StateInfo.Keys.{ParamKeyName, KeyMask, key_code, find_in, find_key, switch_keys}
use livox_sdk.StateInfo.Info.{Info, zero_info}
use livox_sdk.StateInfo.Values.{parse_value}
use livox_sdk.StateInfo.Parse.{no_keys, insert, parse_case, parse_state_info}
use livox_sdk.StateInfo.Message.{Tlv, FitsTlv, message, apply_tlvs, parse_state_info-message}

abbrev pub is_some : Option ParamKeyName → Bool
is_some none = false
is_some (some k) = true

-- The switch has a case for the key.
abbrev pub handled : ℕ → Bool
handled n = is_some (find_key n)

abbrev pub mentions : ℕ → List Tlv → Bool
mentions j [] = false
mentions j (t ∷ ts) = t.key == j || mentions j ts

key_code-find_in :
    (ks : List ParamKeyName) (n : ℕ) (k : ParamKeyName) → find_in ks n ≡ some k → key_code k ≡ n
key_code-find_in [] n k h = cc
key_code-find_in (x ∷ ks) n k h = elim (Bool-cases (key_code x == n)) [
  | inl hit ↦
      let same : some x ≡ some k = rw hit at h in
      let here : x ≡ k = cc in rw (← here) ((==_iff (key_code x) n).0 hit)
  | inr miss ↦ let later : find_in ks n ≡ some k = rw miss at h in key_code-find_in ks n k later
]

pub key_code-find_key : (n : ℕ) (k : ParamKeyName) → find_key n ≡ some k → key_code k ≡ n
unfolding find_key
key_code-find_key n k h = key_code-find_in switch_keys n k h

module _ (d : List ℕ) (off len : ℕ) (s r : Info × KeyMask) (n j : ℕ) where
  case-mask :
      (o : Option ParamKeyName)
      → find_key n ≡ o
      → parse_case o d off len s ≡ ok r
      → r.1 j ≡ (s.1 j || (handled j && n == j))
  unfolding parse_case
  case-mask none e h =
      let same : s ≡ r = ok-injective h in
      rw (← same) (elim (Bool-cases (n == j)) [
        | inl hit ↦
            let here : n ≡ j = (==_iff n j).0 hit in
            let not_handled : handled j ≡ false = rw (← here, e) in
            rw not_handled (sym (or_false (s.1 j)))
        | inr miss ↦ rw (miss, and_false (handled j)) (sym (or_false (s.1 j)))
      ])
  case-mask (some k) e h =
      let (info, stored, inserted) = bind-eq-ok (parse_value k d off len s.0) _ h in
      let code : key_code k ≡ n = key_code-find_key n k e in
      let same : (info, insert (key_code k) s.1) ≡ r = ok-injective inserted in
      rw (← same, code)
        (elim (Bool-cases (n == j)) [
          | inl hit ↦
              let here : n ≡ j = (==_iff n j).0 hit in
              let is_handled : handled j ≡ true = rw (← here, e) in
              rw (hit, is_handled) (sym (or_true (s.1 j)))
          | inr miss ↦ rw (miss, and_false (handled j)) (sym (or_false (s.1 j)))
        ])

apply_tlvs-mask :
    (ts : List Tlv) (s r : Info × KeyMask) (j : ℕ)
    → apply_tlvs ts s ≡ ok r
    → r.1 j ≡ (s.1 j || (handled j && mentions j ts))
apply_tlvs-mask [] s r j h =
    let same : s ≡ r = ok-injective h in rw (← same, and_false (handled j)) (sym (or_false (s.1 j)))
apply_tlvs-mask (t ∷ ts) s r j h =
    let (mid, first, rest) =
      bind-eq-ok (parse_case (find_key t.key) t.value 0 (length t.value) s) _ h in
    apply_tlvs-mask ts mid r j rest
    ∙ (ap (λ b. b || (handled j && mentions j ts))
          (case-mask t.value 0 (length t.value) s mid t.key j (find_key t.key) refl first)
        ∙ or_and_or (s.1 j) (handled j) (t.key == j) (mentions j ts))

-- After a message of keys and values of 16 bits each that is accepted, the set of keys holds
-- exactly the keys that the message mentions and that the switch has a case for.
pub parse_state_info-key_mask :
    (ts : List Tlv) (a b : ℕ) (rest : List ℕ) (p : CommPacket) (r : Info × KeyMask) (j : ℕ)
    → All FitsTlv ts
    → length ts < 65536
    → p.payload ≡ some (message ts a b ++ rest)
    → length (message ts a b) ≤ p.data_len
    → parse_state_info p ≡ ok r
    → r.1 j ≡ (handled j && mentions j ts)
parse_state_info-key_mask ts a b rest p r j fits few is room done =
    apply_tlvs-mask ts (zero_info, no_keys) r j
      (sym (parse_state_info-message ts a b rest p fits few is room) ∙ done)
