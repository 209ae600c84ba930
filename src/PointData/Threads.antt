-- ===== src/PointData/Threads.antt =====
-- `DataHandler::Handle` and `Destory` in several threads (data_handler.cpp): the callbacks are copied under
-- the mutex, and called when it is free again.
use livox_sdk.Base.{
  ℕ, ◌+◌, ◌≤◌, ◌≡◌, refl, ap, sym, ◌∙◌, arith, Option, none, some, some_bind, some-injective,
  Bool-cases, inl, inr, List, [], ◌∷◌, ◌++◌, All, length, length-append, ◌==◌,
}
use livox_sdk.Base.Map.{erase}
use livox_sdk.PointData.Observers.{remove-erase}
use livox_sdk.Protocol.{field}
use livox_sdk.PointData.{
  DataHandler, null_observer, Call, Delivery, copy_callbacks, deliver, notify_all,
  is_complete_data_packet, remove_point_cloud_observer, destory,
}

-- The data handler, and for each packet in flight the calls that it still has to make.
pub record System : Type 0 where
  pub state : DataHandler
  pub in_flight : List (List Call)

-- One step of some thread, while nobody registers anything: a packet copies the callbacks, one in flight
-- makes its next call, an observer is removed, or everything is destroyed.
pub data Step : System → List Call → System → Type 0 where
  copied :
      (s : System) (dev_type handle n : ℕ) (buf : Option (List ℕ)) (d : Option Delivery)
      → copy_callbacks s.state dev_type handle buf n ≡ some d
      → Step s [] (record s { in_flight = deliver d ∷ s.in_flight })
  called :
      (s : System) (before after : List (List Call)) (c : Call) (cs : List Call)
      → s.in_flight ≡ before ++ ((c ∷ cs) ∷ after)
      → Step s (c ∷ []) (record s { in_flight = before ++ (cs ∷ after) })
  removed :
      (s : System) (id : ℕ)
      → Step s [] (record s { state = remove_point_cloud_observer s.state id })
  destroyed : (s : System) → Step s [] (record s { state = destory s.state })

pub data Run : System → List Call → System → Type 0 where
  stop : {s : System} → Run s [] s
  step : {s t u : System} {xs ys : List Call} → Step s xs t → Run t ys u → Run s (xs ++ ys) u

-- Nothing is registered.
abbrev IsOff : DataHandler → Type 0
IsOff h = (h.point_data ≡ null_observer) × (h.imu_data ≡ null_observer) × (h.observers ≡ [])

copied-Off :
    (h : DataHandler) (dev_type handle n : ℕ) (buf : Option (List ℕ)) (d : Option Delivery)
    → IsOff h
    → copy_callbacks h dev_type handle buf n ≡ some d
    → deliver d ≡ []
unfolding copy_callbacks notify_all
copied-Off h dev_type handle n none d off e = ap deliver (sym (some-injective _ _ e))
copied-Off h dev_type handle n (some buf) d (point, imu, all) e =
    let (complete, _, rest) = some_bind (is_complete_data_packet (some buf) n) _ d e in
    elim (Bool-cases complete) [
      | inl whole ↦
          let (t, _, made) = some_bind (field 10 1 buf) _ d (rw whole at rest) in
          ap deliver (sym (some-injective _ _ made)) ∙ elim (Bool-cases (t == 0)) [
            | inl is_imu ↦ rw (is_imu, imu, all) refl
            | inr is_point ↦ rw (is_point, point, all) refl
          ]
      | inr short ↦ ap deliver (sym (some-injective _ _ (rw short at rest)))
    ]

destory-Off : (h : DataHandler) → IsOff (destory h)
unfolding destory
destory-Off h = (refl, refl, refl)

remove-Off : (h : DataHandler) (id : ℕ) → IsOff h → IsOff (remove_point_cloud_observer h id)
unfolding erase
remove-Off h id (point, imu, all) =
    rw (remove-erase h id) (point, imu, ap (λ os. erase id os) all ∙ refl)

-- The calls that are still to be made.
abbrev pub pending : List (List Call) → ℕ
pending [] = 0
pending (cs ∷ css) = length cs + pending css

pending-taken :
    (before after : List (List Call)) (c : Call) (cs : List Call)
    → pending (before ++ ((c ∷ cs) ∷ after)) ≡ 1 + pending (before ++ (cs ∷ after))
pending-taken [] after c cs = omega arith
pending-taken (b ∷ before) after c cs = omega (arith, pending-taken before after c cs)

module _ (P : Call → Type 0) where
  abbrev pub AllPending : List (List Call) → Type 0
  AllPending css = All (λ cs. All P cs) css

  taken :
      (before after : List (List Call)) (c : Call) (cs : List Call)
      → AllPending (before ++ ((c ∷ cs) ∷ after))
      → P c × AllPending (before ++ (cs ∷ after))
  taken [] after c cs ((p, ps), rest) = (p, (ps, rest))
  taken (b ∷ before) after c cs (p, ps) = let r = taken before after c cs ps in (r.0, (p, r.1))

  All-join : (xs ys : List Call) → All P xs → All P ys → All P (xs ++ ys)
  All-join [] ys a b = b
  All-join (x ∷ xs) ys (p, a) b = (p, All-join xs ys a b)

  -- What is called, and what is left to call.
  abbrev Within : System → List Call → System → Type 0
  Within s xs t =
      IsOff t.state
      × All P xs
      × AllPending t.in_flight
      × (length xs + pending t.in_flight ≤ pending s.in_flight)

  Step-Within :
      (s : System) (xs : List Call) (t : System)
      → IsOff s.state
      → AllPending s.in_flight
      → Step s xs t
      → Within s xs t
  Step-Within s xs t off ps (copied _ dev_type handle n buf d e) =
      let nothing : deliver d ≡ [] = copied-Off s.state dev_type handle n buf d off e in
      rw nothing (off, tt, (tt, ps), omega arith)
  Step-Within s xs t off ps (called _ before after c cs e) =
      let r = taken before after c cs (rw e at ps) in
      (off, (r.0, tt), r.1, rw e (omega (arith, pending-taken before after c cs)))
  Step-Within s xs t off ps (removed _ id) = (remove-Off s.state id off, tt, ps, omega arith)
  Step-Within s xs t off ps (destroyed _) = (destory-Off s.state, tt, ps, omega arith)

  Run-Within :
      {s t : System} {xs : List Call}
      → IsOff s.state
      → AllPending s.in_flight
      → Run s xs t
      → Within s xs t
  Run-Within off ps stop = (off, tt, ps, omega arith)
  Run-Within off ps (step {s = s} {t = t} {xs = xs} {ys = ys} first rest) =
      let (off', all, ps', few) = Step-Within s xs t off ps first in
      let (off'', more, ps'', fewer) = Run-Within off' ps' rest in
      (off'', All-join xs ys all more, ps'', omega (arith, length-append xs ys, few, fewer))

-- From `Destory` on, while nobody registers anything: however packets that come in, packets in flight,
-- removals and further calls of `Destory` follow each other in their threads, no call is made but
-- those that the packets in flight at the time of `Destory` had still to make, and no more of them
-- than there were. `Destory` does not wait for these.
pub destory-in_flight :
    (P : Call → Type 0) (s t : System) (calls : List Call)
    → AllPending P s.in_flight
    → Run (record s { state = destory s.state }) calls t
    → All P calls × (length calls ≤ pending s.in_flight)
destory-in_flight P s t calls ps run =
    let (_, all, _, few) = Run-Within P (destory-Off s.state) ps run in (all, omega (arith, few))
