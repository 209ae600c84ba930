-- ===== src/Config/Addresses.antt =====
-- The addresses that `CheckLidarIp` of sdk_core/params_check.cpp lets pass.
use livox_sdk.Base.{
  ℕ, Bool, true, false, ◌≡◌, ◌≢◌, ◌↔◌, refl, sym, ◌∙◌, Bool-cases, inl, inr, List, [], ◌∷◌, ◌++◌,
  All, ◌==◌, ==_iff, ==_self, if◌then◌else◌,
}
use livox_sdk.Requests.Build.{LivoxLidarCfg}
use livox_sdk.Config.{
  same_text, has_ip, is_empty, ip_of, check_custom_ips, check_ips, check_lidar_ip,
}

same_text_self : (x : List ℕ) → same_text x x ≡ true
unfolding same_text
same_text_self [] = refl
same_text_self (a ∷ x) = rw (==_self a) (same_text_self x)

same_text→≡ : (x y : List ℕ) → same_text x y ≡ true → x ≡ y
unfolding same_text
same_text→≡ [] [] h = refl
same_text→≡ [] (b ∷ y) h = cc
same_text→≡ (a ∷ x) [] h = cc
same_text→≡ (a ∷ x) (b ∷ y) h = elim (Bool-cases (a == b)) [
  | inl same ↦
      let heads : a ≡ b = (==_iff a b).0 same in
      let tails : x ≡ y = same_text→≡ x y (rw same at h) in rw (heads, tails)
  | inr other ↦ absurd (clash other)
]
  where
    clash : (a == b) ≡ false → ⊥
    clash other = let no : false ≡ true = rw other at h in cc

≢→same_text : (x y : List ℕ) → x ≢ y → same_text x y ≡ false
≢→same_text x y n = elim (Bool-cases (same_text x y)) [
  | inl same ↦ absurd (n (same_text→≡ x y same))
  | inr other ↦ other
]

same_text→≢ : (x y : List ℕ) → same_text x y ≡ false → x ≢ y
same_text→≢ x y h e =
    let yes : same_text y y ≡ false = rw e at h in
    let both : true ≡ false = sym (same_text_self y) ∙ yes in cc

-- The addresses are pairwise different.
abbrev pub Distinct : List (List ℕ) → Type 0
Distinct [] = Unit {0}
Distinct (x ∷ xs) = All (λ y. x ≢ y) xs × Distinct xs

abbrev Fresh : List (List ℕ) → List (List ℕ) → Type 0
Fresh seen xs = All (λ y. has_ip y seen ≡ false) xs

-- The addresses of the configurations that have one.
abbrev pub set_ips : List LivoxLidarCfg → List (List ℕ)
set_ips [] = []
set_ips (c ∷ cfgs) = if is_empty (ip_of c) then set_ips cfgs else ip_of c ∷ set_ips cfgs

abbrev pub custom_ips : List LivoxLidarCfg → List (List ℕ)
custom_ips [] = []
custom_ips (c ∷ cfgs) = ip_of c ∷ custom_ips cfgs

fresh_add :
    (x : List ℕ) (seen xs : List (List ℕ))
    → Fresh seen xs
    → All (λ y. x ≢ y) xs
    → Fresh (x ∷ seen) xs
fresh_add x seen [] f n = tt
fresh_add x seen (y ∷ ys) (f, fs) (n, ns) = (rw (≢→same_text x y n) f, fresh_add x seen ys fs ns)

fresh_back :
    (x : List ℕ) (seen xs : List (List ℕ))
    → Fresh (x ∷ seen) xs
    → Fresh seen xs × All (λ y. x ≢ y) xs
fresh_back x seen [] f = (tt, tt)
fresh_back x seen (y ∷ ys) (f, fs) =
    let r = fresh_back x seen ys fs in
    elim (Bool-cases (same_text x y)) [
      | inl same ↦ absurd (clash same)
      | inr other ↦ ((rw other at f, r.0), (same_text→≢ x y other, r.1))
    ]
  where
    clash : same_text x y ≡ true → ⊥
    clash same = let no : true ≡ false = rw same at f in cc

-- The addresses that may follow those that were seen.
abbrev Admitted : List (List ℕ) → List (List ℕ) → Type 0
Admitted seen xs = Fresh seen xs × Distinct xs

admit :
    (x : List ℕ) (seen xs : List (List ℕ))
    → has_ip x seen ≡ false
    → Admitted (x ∷ seen) xs
    → Admitted seen (x ∷ xs)
admit x seen xs h (f, d) = let r = fresh_back x seen xs f in ((h, r.0), (r.1, d))

rest_of : (x : List ℕ) (seen xs : List (List ℕ)) → Admitted seen (x ∷ xs) → Admitted (x ∷ seen) xs
rest_of x seen xs ((h, f), (n, d)) = (fresh_add x seen xs f n, d)

abbrev pub AllSet : List (List ℕ) → Type 0
AllSet xs = All (λ x. is_empty x ≡ false) xs

if_true-else : (b c : Bool) → (if b then false else c) ≡ true → (b ≡ false) × (c ≡ true)
if_true-else true c h = cc
if_true-else false c h = (refl, h)

custom-Sound :
    (cs : List LivoxLidarCfg) (seen : List (List ℕ))
    → check_custom_ips cs seen ≡ true
    → AllSet (custom_ips cs) × Admitted seen (custom_ips cs)
unfolding check_custom_ips
custom-Sound [] seen h = (tt, (tt, tt))
custom-Sound (c ∷ cs) seen h =
    let a = if_true-else (is_empty (ip_of c)) _ h in
    let b = if_true-else (has_ip (ip_of c) seen) _ a.1 in
    let r = custom-Sound cs (ip_of c ∷ seen) b.1 in
    ((a.0, r.0), admit (ip_of c) seen (custom_ips cs) b.0 r.1)

custom-Complete :
    (cs : List LivoxLidarCfg) (seen : List (List ℕ))
    → AllSet (custom_ips cs)
    → Admitted seen (custom_ips cs)
    → check_custom_ips cs seen ≡ true
unfolding check_custom_ips
custom-Complete [] seen s a = refl
custom-Complete (c ∷ cs) seen (s, ss) a =
    rw (s, a.0.0)
      (custom-Complete cs (ip_of c ∷ seen) ss (rest_of (ip_of c) seen (custom_ips cs) a))

ips-Sound :
    (ls cs : List LivoxLidarCfg) (seen : List (List ℕ))
    → check_ips ls cs seen ≡ true
    → AllSet (custom_ips cs) × Admitted seen (set_ips ls ++ custom_ips cs)
unfolding check_ips
ips-Sound [] cs seen h = custom-Sound cs seen h
ips-Sound (c ∷ ls) cs seen h = elim (Bool-cases (is_empty (ip_of c))) [
  | inl unset ↦ rw unset (ips-Sound ls cs seen (rw unset at h))
  | inr given ↦
      let b = if_true-else (has_ip (ip_of c) seen) _ (rw given at h) in
      let r = ips-Sound ls cs (ip_of c ∷ seen) b.1 in
      rw given (r.0, admit (ip_of c) seen (set_ips ls ++ custom_ips cs) b.0 r.1)
]

ips-Complete :
    (ls cs : List LivoxLidarCfg) (seen : List (List ℕ))
    → AllSet (custom_ips cs)
    → Admitted seen (set_ips ls ++ custom_ips cs)
    → check_ips ls cs seen ≡ true
unfolding check_ips
ips-Complete [] cs seen s a = custom-Complete cs seen s a
ips-Complete (c ∷ ls) cs seen s a = elim (Bool-cases (is_empty (ip_of c))) [
  | inl unset ↦ rw unset (ips-Complete ls cs seen s (rw unset at a))
  | inr given ↦
      let b : Admitted seen (ip_of c ∷ (set_ips ls ++ custom_ips cs)) = rw given at a in
      rw (given, b.0.0)
        (ips-Complete ls cs (ip_of c ∷ seen) s
          (rest_of (ip_of c) seen (set_ips ls ++ custom_ips cs) b))
]

fresh_nil : (xs : List (List ℕ)) → Fresh [] xs
fresh_nil [] = tt
fresh_nil (x ∷ xs) = (refl, fresh_nil xs)

-- The addresses are accepted exactly when every configuration of one lidar has an address, and no two
-- configurations have the same one; a configuration of a device type may have none.
pub check_lidar_ip-Distinct :
    (ls cs : List LivoxLidarCfg)
    → (check_lidar_ip ls cs ≡ true)
      ↔ (AllSet (custom_ips cs) × Distinct (set_ips ls ++ custom_ips cs))
check_lidar_ip-Distinct ls cs = (
  λ h. let r = ips-Sound ls cs [] h in (r.0, r.1.1),
  λ h. ips-Complete ls cs [] h.0 (fresh_nil (set_ips ls ++ custom_ips cs), h.1),
)
