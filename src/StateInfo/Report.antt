-- ===== src/StateInfo/Report.antt =====
-- `ParseLidarStateInfo::Parse`, from the bytes of a message to the members of the JSON.
use Prim.Native.String.{String}
use livox_sdk.Base.{
  Bool, true, not, ◌/◌, ◌%◌, ◌^◌, ◌==◌, if◌then◌else◌, Option, none, ◌>>=◌, some_bind, Bool-cases,
  inl, inr, arith, ◌↔◌, ℕ, ◌≡◌, refl, ap, ◌∙◌, ◌&&◌, List, [], ◌∷◌, ◌++◌, some, length, All, ◌≤◌,
  ◌<◌,
}
use livox_sdk.Base.Outcome.{ok, bind-eq-ok, ok-injective}
use livox_sdk.Protocol.{CommPacket}
use livox_sdk.StateInfo.Keys.{ParamKeyName, KeyMask, key_code}
use livox_sdk.StateInfo.Text.{Event, double}
use livox_sdk.StateInfo.Parse.{parse_state_info}
use livox_sdk.StateInfo.Json.{livox_lidar_state_info_to_json, parse}
use livox_sdk.StateInfo.Message.{Tlv, FitsTlv, message}
use livox_sdk.StateInfo.Mask.{handled, mentions, parse_state_info-key_mask}
use livox_sdk.StateInfo.Members.{Frame, nest, note, nests, chosen, to_json_complete}
use livox_sdk.StateInfo.Names.{json_order}

chosen-cong :
    (mask seen : KeyMask) (ks : List ParamKeyName)
    → ((j : ℕ) → mask j ≡ seen j)
    → chosen mask ks ≡ chosen seen ks
unfolding chosen
chosen-cong mask seen [] same = refl
chosen-cong mask seen (k ∷ ks) same = rw (same (key_code k), chosen-cong mask seen ks same) refl

-- The bits of a `float` that is no infinity and no NaN.
abbrev pub is_finite : ℕ → Bool
is_finite n = not ((n / 2 ^ 23) % 256 == 255)

-- `Writer::Double` writes no value for an infinity or a NaN.
abbrev pub is_written : Event → Bool
is_written (double n) = is_finite n
is_written _ = true

-- The calls on the writer that leave it with a document that is well formed so far.
abbrev pub call : List Frame → Event → Option (List Frame)
call st e = if is_written e then nest st e else none

abbrev pub calls : List Frame → List String → List Event → Option (List String × List Frame)
calls st names [] = some (names, st)
calls st names (e ∷ es) = call st e >>= λ next. calls next (note st e names) es

abbrev pub AllWritten : List Event → Type 0
AllWritten es = All (λ e. is_written e ≡ true) es

calls-nests :
    (es : List Event) (st : List Frame) (names : List String)
    → AllWritten es
    → calls st names es ≡ nests st names es
unfolding nests
calls-nests [] st names w = refl
calls-nests (e ∷ es) st names (w, ws) =
    rw w (next (nest st e) (λ n. calls-nests es n (note st e names) ws))
  where
    next :
        (o : Option (List Frame))
        → ((n : List Frame) → calls n (note st e names) es ≡ nests n (note st e names) es)
        → (o >>= λ n. calls n (note st e names) es) ≡ (o >>= λ n. nests n (note st e names) es)
    next none same = refl
    next (some n) same = same n

calls-Written :
    (es : List Event) (st : List Frame) (names : List String) (r : List String × List Frame)
    → calls st names es ≡ some r
    → AllWritten es
calls-Written [] st names r h = tt
calls-Written (e ∷ es) st names r h =
    let (next, made, rest) = some_bind (call st e) _ r h in
    (
      elim (Bool-cases (is_written e)) [
        | inl w ↦ w
        | inr bad ↦ absurd (ground (arith, rw bad at made))
      ],
      calls-Written es next (note st e names) r rest,
    )

-- What is printed for a message of keys and values of 16 bits each, when it is accepted: it is one
-- complete JSON object, whose members are the names of the keys that the message mentions and that
-- the switch has a case for, each once and in the fixed order, exactly when every floating-point
-- number that is handed to the writer is finite.
pub parse_complete :
    (ts : List Tlv) (a b : ℕ) (rest : List ℕ) (p : CommPacket) (events : List Event)
    → All FitsTlv ts
    → length ts < 65536
    → p.payload ≡ some (message ts a b ++ rest)
    → length (message ts a b) ≤ p.data_len
    → parse p ≡ ok events
    → (calls [] [] events ≡ some (chosen (λ j. handled j && mentions j ts) json_order, []))
      ↔ AllWritten events
unfolding parse
parse_complete ts a b rest p events fits few is room done =
    let ((info, mask), parsed, printed) = bind-eq-ok (parse_state_info p) _ done in
    let text : livox_lidar_state_info_to_json info mask ≡ events = ok-injective printed in
    let nested =
      to_json_complete info mask
      ∙ ap (λ names. some (names, []))
          (chosen-cong mask _ json_order (λ j.
            parse_state_info-key_mask ts a b rest p (info, mask) j fits few is room parsed)) in
    (
      calls-Written events [] [] _,
      λ written. calls-nests events [] [] written ∙ (rw text at nested),
    )
