-- ===== src/PointData/Observers.antt =====
-- `DataHandler`: the identifiers of the observers, and which callbacks a packet reaches.
use livox_sdk.Base.{
  ℕ, ◌≤◌, ◌<◌, ◌≡◌, ◌≢◌, refl, ap, ◌∙◌, arith, List, [], ◌∷◌, ◌++◌, none, some, true, if◌then◌else◌,
  ◌==◌, some_bind, Option-cases, append_assoc, some-injective, subst, sym, Bool-cases, inl, inr,
  ltb, ==_self,
}
use livox_sdk.Base.Map.{
  Map, Above, find, assign, erase, find-assign, find-erase, assign-Above, erase-Above, erase-assign,
  erase_absent,
}
use livox_sdk.PointData.{
  DataHandler, Observer, Call, copy_callbacks, deliver, notify, notify_all, handle_data,
  is_complete_data_packet, add_point_cloud_observer, remove_point_cloud_observer,
  generate_observer_id,
}
use livox_sdk.Protocol.{field}

-- A generated identifier is never 0, has 16 bits, and differs from the one before.
pub generate_observer_id-range :
    (value : ℕ)
    → 1 ≤ value
    → value ≤ 65535
    → (1 ≤ generate_observer_id value)
      × (generate_observer_id value ≤ 65535)
      × (generate_observer_id value ≢ value)
unfolding generate_observer_id
generate_observer_id-range value low high = ground arith

module _ (handle dev_type : ℕ) (o : Observer) where
  -- The calls with a new observer are the calls without it, and its own somewhere between them.
  abbrev pub Inserted : List Call → List Call → Type 0
  Inserted old new =
      (before : List Call) × (after : List Call) × (old ≡ before ++ after)
      × (new ≡ before ++ (notify handle dev_type o ++ after))

  Inserted-append :
      (pre old new : List Call) → Inserted old new → Inserted (pre ++ old) (pre ++ new)
  Inserted-append pre old new (before, after, e1, e2) = (
    pre ++ before,
    after,
    rw e1 (sym (append_assoc pre before after)),
    rw e2 (sym (append_assoc pre before _)),
  )

  notify_all-assign :
      (k : ℕ) (m : Map Observer)
      → find k m ≡ none
      → Inserted (notify_all handle dev_type m) (notify_all handle dev_type (assign k o m))
  unfolding notify_all assign find
  notify_all-assign k [] h = ([], [], refl, refl)
  notify_all-assign k ((j, w) ∷ m) h = elim (Bool-cases (j == k)) [
    | inl same ↦ absurd (ground (arith, h))
    | inr other ↦ elim (Bool-cases (ltb k j)) [
      | inl below ↦ (
        [],
        notify handle dev_type w ++ notify_all handle dev_type m,
        refl,
        rw (other, below) refl,
      )
      | inr above ↦
          rw (other, above)
            (Inserted-append (notify handle dev_type w) _ _
              (notify_all-assign k m (ground (arith, h))))
    ]
  ]

module _ (h : DataHandler) (o : Observer) where
  abbrev Fresh : Type 0
  Fresh = find (generate_observer_id h.observer_id) h.observers ≡ none

  -- An observer that is added under an identifier that is not in use, and removed again, leaves
  -- everything as it was but the counter.
  pub remove-add :
      Fresh
      → remove_point_cloud_observer
          (add_point_cloud_observer h o).0
          (add_point_cloud_observer h o).1
        ≡ record h { observer_id = generate_observer_id h.observer_id }
  unfolding add_point_cloud_observer remove_point_cloud_observer
  remove-add fresh =
      let k = generate_observer_id h.observer_id in
      let e : find k (assign k o h.observers) ≡ some o =
        rw (find-assign k o h.observers k, ==_self k) refl in
      rw
        (
          remove_point_cloud_observer,
          add_point_cloud_observer,
          e,
          erase-assign k o h.observers fresh,
        )
        refl

  -- A packet that is delivered reaches an observer that was added under an identifier not in use,
  -- once, if its callback is not empty, and all the other calls are made as before, in their order.
  pub handle-add :
      (handle dev_type n : ℕ) (buf : List ℕ) (calls : List Call)
      → Fresh
      → is_complete_data_packet (some buf) n ≡ some true
      → handle_data h dev_type handle (some buf) n ≡ some calls
      → (new : List Call) × (handle_data
            (add_point_cloud_observer h o).0
            dev_type
            handle
            (some buf)
            n
          ≡ some new)
        × Inserted handle dev_type o calls new
  unfolding handle_data copy_callbacks add_point_cloud_observer
  handle-add handle dev_type n buf calls fresh ok e =
      let (d, ed, ec') = some_bind (copy_callbacks h dev_type handle (some buf) n) _ calls e in
      let (t, et, et') = some_bind (field 10 1 buf) _ d (rw (copy_callbacks, ok) at ed) in
      let ec : some _ ≡ some calls = ap (λ x. some (deliver x)) (some-injective _ _ et') ∙ ec' in
      let first = notify handle dev_type (if t == 0 then h.imu_data else h.point_data) in
      (
        first
            ++ notify_all handle dev_type
                (assign (generate_observer_id h.observer_id) o h.observers),
        rw (ok, et) refl,
        subst
            (λ old. Inserted handle dev_type o old (
              first
              ++ notify_all handle dev_type
                  (assign (generate_observer_id h.observer_id) o h.observers)))
            (some-injective _ _ ec)
            (Inserted-append handle dev_type o first _ _ (
              notify_all-assign handle dev_type o (generate_observer_id h.observer_id) h.observers
                fresh)),
      )

-- What every operation keeps: the observers stand in the order of their identifiers, each of them
-- and the counter a number from 1 to 65535.
abbrev pub IsValid : DataHandler → Type 0
IsValid h =
    Above 1 h.observers
    × (1 ≤ h.observer_id)
    × (h.observer_id ≤ 65535)
    × ((id : ℕ) → 65535 < id → find id h.observers ≡ none)

-- Adding an observer keeps the data handler valid.
pub add_point_cloud_observer-IsValid :
    (h : DataHandler) (o : Observer) → IsValid h → IsValid (add_point_cloud_observer h o).0
unfolding add_point_cloud_observer
add_point_cloud_observer-IsValid h o (above, low, high, small) =
    let (l, u, _) = generate_observer_id-range h.observer_id low high in
    (
      assign-Above 1 _ o h.observers l above,
      l,
      u,
      λ id big.
          rw (find-assign (generate_observer_id h.observer_id) o h.observers id, small id big)
            (ground arith),
    )

pub remove-erase :
    (h : DataHandler) (id : ℕ)
    → remove_point_cloud_observer h id ≡ record h { observers = erase id h.observers }
unfolding remove_point_cloud_observer
remove-erase h id = elim (Option-cases (find id h.observers)) [
  | inl e ↦ rw (remove_point_cloud_observer, e, erase_absent id h.observers e) refl
  | inr (_, e) ↦ rw (remove_point_cloud_observer, e) refl
]

-- So does removing one.
pub remove_point_cloud_observer-IsValid :
    (h : DataHandler) (id : ℕ) → IsValid h → IsValid (remove_point_cloud_observer h id)
remove_point_cloud_observer-IsValid h id (above, low, high, small) = rw (remove-erase h id) (
  erase-Above 1 id h.observers above,
  low,
  high,
  λ j big. rw (find-erase id 1 h.observers j above, small j big) (ground arith),
)

-- After a removal from a valid data handler the observer is gone, and every other one is as it was.
pub find-remove :
    (h : DataHandler) (id : ℕ)
    → IsValid h
    → (j : ℕ)
    → find j (remove_point_cloud_observer h id).observers
      ≡ (if id == j then none else find j h.observers)
find-remove h id (above, low, high, small) j =
    rw (remove-erase h id) (find-erase id 1 h.observers j above)
