-- ===== src/Requests/Listing.antt =====
-- What a query for keys is: their number, two zeroes, and the keys, each once, in their order.
use livox_sdk.Base.{
  ℕ, suc, ◌+◌, ◌-◌, ◌*◌, ◌%◌, ◌≤◌, ◌<◌, ◌≡◌, refl, sym, ap, ◌∙◌, arith, Bool, false, ◌||◌, List, [],
  ◌∷◌, ◌++◌, map, length, length-append, append_assoc, Option, none, some, replicate, le16, ltb,
  ◌==◌, Bool-cases, inl, inr, write_front-zeros, write_at-behind,
}
use livox_sdk.StateInfo.Keys.{ParamKeyName, key_code}
use livox_sdk.Requests.{done, Request}
use livox_sdk.Requests.Queries.{
  insert_key, key_set, list_keys, keys_request, query_livox_lidar_internal_info,
}
use livox_sdk.Base.Map.{Map}
use livox_sdk.Commands.{LivoxLidarStatus}
use livox_sdk.Requests.Client.{Client, send_request}
use livox_sdk.StateInfo.Query.{
  get_query_lidar_internal_info_keys, query-Table, hap_keys, mid360_keys, mid360s_keys, avia2_keys,
  mid360l_keys,
}

abbrev pub has : ℕ → List ℕ → Bool
has k [] = false
has k (j ∷ js) = k == j || has k js

-- The list ascends, from `n` on.
abbrev pub Ascending : ℕ → List ℕ → Type 0
Ascending n [] = Unit {0}
Ascending n (k ∷ ks) = (n ≤ k) × Ascending (k + 1) ks

has-insert : (k j : ℕ) (js : List ℕ) → has k (insert_key j js) ≡ (k == j || has k js)
has-insert k j [] = refl
has-insert k j (i ∷ js) = ground (arith, has-insert k j js)

insert-Ascending : (n k : ℕ) (ks : List ℕ) → n ≤ k → Ascending n ks → Ascending n (insert_key k ks)
insert-Ascending n k [] h s = (h, tt)
insert-Ascending n k (j ∷ js) h (low, s) = elim (Bool-cases (ltb k j)) [
  | inl less ↦ rw less (h, (ground (arith, less), s))
  | inr more ↦ elim (Bool-cases (k == j)) [
    | inl same ↦ rw (more, same) (low, s)
    | inr other ↦
        rw (more, other) (low, insert-Ascending (j + 1) k js (ground (arith, more, other)) s)
  ]
]

length-insert : (k : ℕ) (ks : List ℕ) → length (insert_key k ks) ≤ suc (length ks)
length-insert k [] = omega arith
length-insert k (j ∷ js) = ground (arith, length-insert k js)

-- The set of some keys ascends, has no more members than there are keys, and has exactly their codes.
pub key_set-Ascending : (ks : List ParamKeyName) → Ascending 0 (key_set ks)
unfolding key_set
key_set-Ascending [] = tt
key_set-Ascending (k ∷ ks) =
    insert-Ascending 0 (key_code k) (key_set ks) (omega arith) (key_set-Ascending ks)

pub length-key_set : (ks : List ParamKeyName) → length (key_set ks) ≤ length ks
unfolding key_set
length-key_set [] = omega arith
length-key_set (k ∷ ks) = omega (arith, length-insert (key_code k) (key_set ks), length-key_set ks)

pub has-key_set : (k : ℕ) (ks : List ParamKeyName) → has k (key_set ks) ≡ has k (map key_code ks)
unfolding key_set
has-key_set k [] = refl
has-key_set k (j ∷ ks) =
    has-insert k (key_code j) (key_set ks) ∙ ap (λ b. k == key_code j || b) (has-key_set k ks)

abbrev pub key_bytes : List ℕ → List ℕ
key_bytes [] = []
key_bytes (k ∷ ks) = le16 k ++ key_bytes ks

abbrev pub listing : List ℕ → List ℕ
listing ks = le16 (length ks) ++ (0 ∷ 0 ∷ key_bytes ks)

length-key_bytes : (ks : List ℕ) → length (key_bytes ks) ≡ 2 * length ks
length-key_bytes [] = omega arith
length-key_bytes (k ∷ ks) = omega (arith, length-key_bytes ks)

-- The loop, behind what was written.
list_keys-append :
    (ks pre : List ℕ) (n : ℕ)
    → 2 * length ks ≤ n
    → length pre + n < 65536
    → list_keys ks (record { buf = pre ++ replicate n 0; len = length pre })
      ≡ done (record {
        buf = pre ++ (key_bytes ks ++ replicate (n - 2 * length ks) 0);
        len = length pre + 2 * length ks;
      })
unfolding list_keys
list_keys-append [] pre n h k =
    let e : n - 2 * 0 ≡ n = omega arith in
    let f : length pre + 2 * 0 ≡ length pre = omega arith in rw (e, f) refl
list_keys-append (j ∷ ks) pre n h k =
    let w =
      write_at-behind pre (le16 j) (replicate n 0) _ (write_front-zeros (le16 j) n (omega arith)) in
    let next : List ℕ = pre ++ le16 j in
    let l : length next ≡ length pre + 2 = length-append pre (le16 j) in
    let room : (length pre + 2) % 65536 ≡ length next = omega (arith, l, k, h) in
    let left : n - 2 - 2 * length ks ≡ n - 2 * suc (length ks) = omega arith in
    let total : length next + 2 * length ks ≡ length pre + 2 * suc (length ks) = omega (arith, l) in
    let rest = list_keys-append ks next (n - 2) (omega arith) (omega (arith, l, k, h)) in
    rw (w, room, sym (append_assoc pre (le16 j) (replicate (n - 2) 0)))
      (rest
        ∙ rw
            (
              left,
              total,
              append_assoc pre (le16 j) (key_bytes ks ++ replicate (n - 2 * suc (length ks)) 0),
            )
            refl)

-- The buffer after a listing was written to it.
abbrev pub listing_request : List ℕ → Request
listing_request ks = record {
  buf = listing ks ++ replicate (1396 - 2 * length ks) 0;
  len = 4 + 2 * length ks;
}

pub keys_request-listing :
    (ks : List ℕ) → 2 * length ks ≤ 1396 → keys_request ks ≡ done (listing_request ks)
keys_request-listing ks h =
    list_keys-append ks (le16 (length ks) ++ (0 ∷ 0 ∷ [])) 1396 h (omega arith)

-- The keys that a device is asked for are at most 33.
few_keys :
    (types : Map ℕ) (handle : ℕ) (ks : List ParamKeyName)
    → get_query_lidar_internal_info_keys types handle ≡ some ks
    → length ks ≤ 33
unfolding hap_keys mid360_keys mid360s_keys avia2_keys mid360l_keys
few_keys types handle ks e =
    query-Table (λ xs. length xs ≤ 33) (omega arith) (omega arith) (omega arith) (omega arith)
      (omega arith) types handle ks e

-- For a device whose type has keys to ask for, the query that is sent is a listing of a set: of keys
-- that ascend, and so are each listed once, at most 33 of them, with exactly the keys of the type. For
-- any other device nothing is sent, and the call says that the handle is invalid.
pub query-listing :
    (c : Client) (types : Map ℕ) (handle : ℕ) (cb : Option ℕ)
    → (get_query_lidar_internal_info_keys types handle ≡ none
        → query_livox_lidar_internal_info c types handle cb
          ≡ done (record {
            status = LivoxLidarStatus.invalid_handle;
            calls = [];
            commands = c.commands;
          }))
      × ((ks : List ParamKeyName)
          → get_query_lidar_internal_info_keys types handle ≡ some ks
          → (js : List ℕ) × (query_livox_lidar_internal_info c types handle cb
              ≡ send_request c handle 0x0101 (done (listing_request js)) cb)
            × Ascending 0 js
            × (length js ≤ 33)
            × ((k : ℕ) → has k js ≡ has k (map key_code ks)))
unfolding query_livox_lidar_internal_info
query-listing c types handle cb = (
  λ e. rw (query_livox_lidar_internal_info, e) refl,
  λ ks e.
      let few : length (key_set ks) ≤ 33 =
        omega (arith, length-key_set ks, few_keys types handle ks e) in
      (
        key_set ks,
        rw
            (
              query_livox_lidar_internal_info,
              e,
              keys_request-listing (key_set ks) (omega (arith, few)),
            )
            refl,
        key_set-Ascending ks,
        few,
        λ k. has-key_set k ks,
      ),
)
