-- ===== src/Devices/Retry.antt =====
-- The query of the firmware's type is repeated, but not for ever.
use livox_sdk.Base.{
  ℕ, suc, ◌+◌, ◌≤◌, ◌≡◌, refl, ap, ◌∙◌, arith, false, Option, Option-cases, List, [], ◌∷◌, ◌++◌,
  length, All, replicate, ltb, inl, inr, le→ltb,
}
use livox_sdk.Base.Map.{find}
use livox_sdk.Commands.{LivoxLidarStatus}
use livox_sdk.Devices.{Effect, GeneralHandler}
use livox_sdk.Devices.Answers.{FwResponse, update_fw_type, query_fw_type_callback, is_good}

abbrev pub Answer : Type 0
Answer = LivoxLidarStatus × Option FwResponse

-- The answers to the query, one after the other.
abbrev pub answer_all : GeneralHandler → ℕ → List Answer → GeneralHandler × List Effect
answer_all g handle [] = (g, [])
answer_all g handle ((status, response) ∷ answers) =
    let (next, asked) = query_fw_type_callback g status handle response in
    let (last, more) = answer_all next handle answers in (last, asked ++ more)

-- Not the type of the firmware: a failure, no response, an error of the device, or another key.
abbrev pub IsBad : Answer → Type 0
IsBad (status, response) = is_good status response ≡ false

bad_answers :
    (g : GeneralHandler) (handle : ℕ) (answers more : List Answer)
    → All IsBad answers
    → g.count + length answers ≤ 11
    → answer_all g handle (answers ++ more) ≡ (
        let r = answer_all (record g { count = g.count + length answers }) handle more in
        (r.0, replicate (length answers) (Effect.query_fw_type handle) ++ r.1))
unfolding query_fw_type_callback
bad_answers g handle [] more bad few = let e : g.count + 0 ≡ g.count = omega arith in rw e refl
bad_answers g handle ((status, response) ∷ answers) more (worse, bad) few =
    let below : ltb 10 g.count ≡ false = le→ltb 10 g.count (omega arith) in
    let e : g.count + 1 + length answers ≡ g.count + suc (length answers) = omega arith in
    rw (query_fw_type_callback, below, worse)
      (ap (λ (r : GeneralHandler × List Effect). (r.0, Effect.query_fw_type handle ∷ r.1))
        (bad_answers (record g { count = g.count + 1 }) handle answers more bad (omega (arith, few))
          ∙ rw e refl))

update_fw_type-count :
    (g : GeneralHandler) (handle n : ℕ)
    → record (update_fw_type (record g { count = n }) handle 1) { count = 0 }
      ≡ record (update_fw_type g handle 1) { count = 0 }
unfolding update_fw_type
update_fw_type-count g handle n = elim (Option-cases (find handle g.devices)) [
  | inl e ↦ rw (update_fw_type, e) refl
  | inr (info, e) ↦ rw (update_fw_type, e) refl
]

-- Where the counter of `QueryFwTypeCallback`, which all devices share, stands at 0: eleven answers in a
-- row, all for one device, that do not tell the type of the firmware are each followed by another
-- query, and nothing else. The next answer, whatever it is, ends the queries: the device, if it is
-- known, counts as one that runs its application, and the counter stands at 0 again.
pub retry_ends :
    (g : GeneralHandler) (handle : ℕ) (answers : List Answer) (last : Answer)
    → g.count ≡ 0
    → length answers ≡ 11
    → All IsBad answers
    → answer_all g handle (answers ++ (last ∷ [])) ≡ (
      record (update_fw_type g handle 1) { count = 0 },
      replicate 11 (Effect.query_fw_type handle),
    )
unfolding query_fw_type_callback
retry_ends g handle answers last fresh eleven bad =
    let c : g.count + length answers ≡ 11 = omega (arith, fresh, eleven) in
    let b = bad_answers g handle answers (last ∷ []) bad (omega (arith, c)) in
    (rw (c, eleven) at b)
    ∙ ap (λ (h : GeneralHandler). (h, replicate 11 (Effect.query_fw_type handle)))
        (update_fw_type-count g handle 11)
