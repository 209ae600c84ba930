-- ===== src/Commands/Expiry.antt =====
-- `CommandsHandle`: the commands that are given up, and those that go on waiting.
use livox_sdk.Base.{
  ℕ, suc, ◌≤◌, ◌≡◌, refl, arith, false, Option, none, some, List, [], ◌∷◌, ◌++◌, All, Bool-cases,
  inl, inr, ltb, ◌==◌, if◌then◌else◌,
}
use livox_sdk.Base.Map.{Above, find, erase, find_below, Above-mono}
use livox_sdk.Commands.{Command, Commands, Call, LivoxLidarStatus, invoke, expire}

-- The commands whose time is up, and the entries of the others, in their order.
abbrev pub overdue : ℕ → Commands → List Command
overdue now [] = []
overdue now ((k, (c, deadline)) ∷ m) = if ltb deadline now then c ∷ overdue now m else overdue now m

abbrev pub kept : ℕ → Commands → Commands
kept now [] = []
kept now ((k, (c, deadline)) ∷ m) =
    if ltb deadline now then kept now m else (k, (c, deadline)) ∷ kept now m

module _ (now : ℕ) where
  -- An entry with a smaller key than all that are looked at stays where it is.
  expire_past :
      (k n : ℕ) (v : Command × ℕ) (es m : Commands)
      → suc k ≤ n
      → Above n es
      → expire now es ((k, v) ∷ m) ≡ ((expire now es m).0, (k, v) ∷ (expire now es m).1)
  unfolding expire erase
  expire_past k n v [] m h a = refl
  expire_past k n v ((j, (c, deadline)) ∷ es) m h a =
      let other : (k == j) ≡ false = ground arith in
      let step : erase j ((k, v) ∷ m) ≡ (k, v) ∷ erase j m = rw other refl in
      elim (Bool-cases (ltb deadline now)) [
        | inl due ↦ rw (due, step, expire_past k (suc j) v es (erase j m) (omega arith) a.1) refl
        | inr waits ↦ rw (waits, expire_past k (suc j) v es m (omega arith) a.1) refl
      ]

  pub expire-kept :
      (n : ℕ) (m : Commands) → Above n m → expire now m m ≡ (overdue now m, kept now m)
  unfolding expire erase
  expire-kept n [] a = refl
  expire-kept n ((k, (c, deadline)) ∷ m) a =
      let first : erase k ((k, (c, deadline)) ∷ m) ≡ m = ground arith in
      elim (Bool-cases (ltb deadline now)) [
        | inl due ↦ rw (due, first, expire-kept (suc k) m a.1) refl
        | inr waits ↦
            rw
              (
                waits,
                expire_past k (suc k) (c, deadline) m m (omega arith) a.1,
                expire-kept (suc k) m a.1,
              )
              refl
      ]

  pub kept-Above : (n : ℕ) (m : Commands) → Above n m → Above n (kept now m)
  kept-Above n [] a = tt
  kept-Above n ((k, (c, deadline)) ∷ m) a = elim (Bool-cases (ltb deadline now)) [
    | inl due ↦ rw due (Above-mono n (suc k) (kept now m) (omega arith) (kept-Above (suc k) m a.1))
    | inr waits ↦ rw waits (a.0, kept-Above (suc k) m a.1)
  ]

  pub kept-All : (P : ℕ × (Command × ℕ) → Type 0) (m : Commands) → All P m → All P (kept now m)
  kept-All P [] a = tt
  kept-All P ((k, (c, deadline)) ∷ m) a = elim (Bool-cases (ltb deadline now)) [
    | inl due ↦ rw due (kept-All P m a.1)
    | inr waits ↦ rw waits (a.0, kept-All P m a.1)
  ]

  -- What is left of an entry.
  abbrev pub still : Option (Command × ℕ) → Option (Command × ℕ)
  still none = none
  still (some (c, deadline)) = if ltb deadline now then none else some (c, deadline)

  pub find-kept :
      (n : ℕ) (m : Commands) (j : ℕ) → Above n m → find j (kept now m) ≡ still (find j m)
  unfolding find
  find-kept n [] j a = refl
  find-kept n ((k, (c, deadline)) ∷ m) j a = elim (Bool-cases (k == j)) [
    | inl same ↦ elim (Bool-cases (ltb deadline now)) [
      | inl due ↦
          rw (same, due)
            (find_below (suc k) (kept now m) j (kept-Above (suc k) m a.1) (ground (arith, same)))
      | inr waits ↦ rw (same, waits) (ground (arith, same, waits))
    ]
    | inr other ↦ elim (Bool-cases (ltb deadline now)) [
      | inl due ↦ rw (other, due) (find-kept (suc k) m j a.1)
      | inr waits ↦ rw (other, waits) (ground (arith, other, find-kept (suc k) m j a.1))
    ]
  ]

  -- The callbacks of the overdue commands, each told of the timeout and given no data.
  abbrev pub timeouts : Commands → List Call
  timeouts [] = []
  timeouts ((k, (c, deadline)) ∷ m) =
      (if ltb deadline now then invoke c.cb LivoxLidarStatus.timeout c.handle none else [])
      ++ timeouts m
