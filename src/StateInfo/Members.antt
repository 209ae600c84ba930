-- ===== src/StateInfo/Members.antt =====
-- The JSON that is written: a complete document, with one member for each key that was found.
use mathlib.Core.List.{append-nil, append_assoc}
use Prim.Native.String.{String}
use livox_sdk.Base.{
  ◌≡◌, refl, ap, Bool-cases, inl, inr, Option, none, some, List, [], ◌∷◌, ◌++◌, map, All,
  if◌then◌else◌, ◌>>=◌, ◌∙◌,
}
use livox_sdk.StateInfo.Keys.{ParamKeyName, KeyMask, key_code}
use livox_sdk.StateInfo.Info.{Info}
use livox_sdk.StateInfo.Text.{
  Event, Row, key, uint, int, double, str, start_object, end_object, start_array, end_array,
}
use livox_sdk.StateInfo.Names.{json_name, json_order}
use livox_sdk.StateInfo.Settings.{network_rows, setup_rows}
use livox_sdk.StateInfo.Reports.{mode_rows, identity_rows, state_rows}
use livox_sdk.StateInfo.Json.{json_rows, write_rows, livox_lidar_state_info_to_json}

-- Where rapidjson's writer stands: in an object before a name, in an object before a value, in an
-- array, for each object and array that is open, the innermost first.
pub data Frame : Type 0 where
  expects_key expects_value in_array : Frame

-- The calls that nest there, whatever the values are. The document is one object.
pub close : List Frame → Option (List Frame)
close (expects_value ∷ st) = some (expects_key ∷ st)
close (in_array ∷ st) = some (in_array ∷ st)
close (expects_key ∷ st) = none
close [] = some []

pub nest : List Frame → Event → Option (List Frame)
unfolding close
nest (expects_key ∷ st) (key s) = some (expects_value ∷ st)
nest (expects_key ∷ st) end_object = close st
nest (in_array ∷ st) end_array = close st
nest (expects_value ∷ st) start_object = some (expects_key ∷ expects_value ∷ st)
nest (expects_value ∷ st) start_array = some (in_array ∷ expects_value ∷ st)
nest (expects_value ∷ st) (uint n) = some (expects_key ∷ st)
nest (expects_value ∷ st) (int n) = some (expects_key ∷ st)
nest (expects_value ∷ st) (double n) = some (expects_key ∷ st)
nest (expects_value ∷ st) (str s) = some (expects_key ∷ st)
nest (in_array ∷ st) (uint n) = some (in_array ∷ st)
nest [] start_object = some (expects_key ∷ [])
nest _ _ = none

-- The names of the outermost object's members, behind those that came before.
pub note : List Frame → Event → List String → List String
note (expects_key ∷ []) (key s) names = names ++ (s ∷ [])
note _ _ names = names

-- Those calls one after the other: the names, and where the writer stands in the end.
unfoldable pub nests : List Frame → List String → List Event → Option (List String × List Frame)
unfolding note nest
nests st names [] = some (names, st)
nests st names (e ∷ es) = nest st e >>= λ next. nests next (note st e names) es

unfoldable pub chosen : KeyMask → List ParamKeyName → List String
chosen mask [] = []
chosen mask (k ∷ ks) = (if mask (key_code k) then json_name k ∷ [] else []) ++ chosen mask ks

-- A row is a whole member of the outermost object, under its key's name.
abbrev IsMember : Row → Type 0
IsMember (k, es) =
    (names : List String) (rest : List Event)
    → nests (expects_key ∷ []) names (es ++ rest)
      ≡ nests (expects_key ∷ []) (names ++ (json_name k ∷ [])) rest

All-append : (P : Row → Type 0) (xs ys : List Row) → All P xs → All P ys → All P (xs ++ ys)
All-append P [] ys hx hy = hy
All-append P (x ∷ xs) ys hx hy = (hx.0, All-append P xs ys hx.1 hy)

network_rows-IsMember : (info : Info) → All IsMember (network_rows info)
unfolding network_rows nests json_name
network_rows-IsMember info = (
  λ n r. refl,
  (
    λ n r. refl,
    (
      λ n r. refl,
      (
        λ n r. refl,
        (
          λ n r. refl,
          (λ n r. refl, (λ n r. refl, (λ n r. refl, (λ n r. refl, (λ n r. refl, tt))))),
        ),
      ),
    ),
  ),
)

setup_rows-IsMember : (info : Info) → All IsMember (setup_rows info)
unfolding setup_rows nests json_name
setup_rows-IsMember info = (
  λ n r. refl,
  (
    λ n r. refl,
    (
      λ n r. refl,
      (λ n r. refl, (λ n r. refl, (λ n r. refl, (λ n r. refl, (λ n r. refl, (λ n r. refl, tt)))))),
    ),
  ),
)

mode_rows-IsMember : (info : Info) → All IsMember (mode_rows info)
unfolding mode_rows nests json_name
mode_rows-IsMember info = (
  λ n r. refl,
  (
    λ n r. refl,
    (
      λ n r. refl,
      (
        λ n r. refl,
        (
          λ n r. refl,
          (
            λ n r. refl,
            (
              λ n r. refl,
              (
                λ n r. refl,
                (
                  λ n r. refl,
                  (λ n r. refl, (λ n r. refl, (λ n r. refl, (λ n r. refl, (λ n r. refl, tt))))),
                ),
              ),
            ),
          ),
        ),
      ),
    ),
  ),
)

identity_rows-IsMember : (info : Info) → All IsMember (identity_rows info)
unfolding identity_rows nests json_name
identity_rows-IsMember info =
    (λ n r. refl, (λ n r. refl, (λ n r. refl, (λ n r. refl, (λ n r. refl, (λ n r. refl, tt))))))

state_rows-IsMember : (info : Info) → All IsMember (state_rows info)
unfolding state_rows nests json_name
state_rows-IsMember info = (
  λ n r. refl,
  (
    λ n r. refl,
    (
      λ n r. refl,
      (
        λ n r. refl,
        (
          λ n r. refl,
          (
            λ n r. refl,
            (
              λ n r. refl,
              (
                λ n r. refl,
                (λ n r. refl, (λ n r. refl, (λ n r. refl, (λ n r. refl, (λ n r. refl, tt))))),
              ),
            ),
          ),
        ),
      ),
    ),
  ),
)

json_rows-IsMember : (info : Info) → All IsMember (json_rows info)
unfolding json_rows
json_rows-IsMember info =
    let states = state_rows info in
    let identities = identity_rows info ++ states in
    let modes = mode_rows info ++ identities in
    let setup = setup_rows info ++ modes in
    All-append IsMember (network_rows info) setup (network_rows-IsMember info) (
      All-append IsMember (setup_rows info) modes (setup_rows-IsMember info) (
        All-append IsMember (mode_rows info) identities (mode_rows-IsMember info) (
          All-append IsMember (identity_rows info) states (identity_rows-IsMember info)
            (state_rows-IsMember info))))

nests-write_rows :
    (mask : KeyMask) (rows : List Row) (names : List String) (rest : List Event)
    → All IsMember rows
    → nests (expects_key ∷ []) names (write_rows mask rows ++ rest)
      ≡ nests (expects_key ∷ []) (names ++ chosen mask (map (λ r. r.0) rows)) rest
unfolding write_rows chosen
nests-write_rows mask [] names rest members = rw append-nil
nests-write_rows mask ((k, es) ∷ rows) names rest members = elim (Bool-cases (mask (key_code k))) [
  | inl found ↦
      rw (found, append_assoc es (write_rows mask rows) rest)
        (members.0 names (write_rows mask rows ++ rest)
          ∙ (nests-write_rows mask rows (names ++ (json_name k ∷ [])) rest members.1
              ∙ ap (λ l. nests (expects_key ∷ []) l rest)
                  (append_assoc names (json_name k ∷ []) (chosen mask (map (λ r. r.0) rows)))))
  | inr absent ↦ rw absent (nests-write_rows mask rows names rest members.1)
]

json_rows-order : (info : Info) → map (λ r. r.0) (json_rows info) ≡ json_order
unfolding json_rows
json_rows-order info = refl

-- Whatever the structure holds, the calls on the writer nest to one document: an object whose
-- members are those of the keys in the set, each once, under their names and in the fixed order.
pub to_json_complete :
    (info : Info) (mask : KeyMask)
    → nests [] [] (livox_lidar_state_info_to_json info mask) ≡ some (chosen mask json_order, [])
unfolding livox_lidar_state_info_to_json nests
to_json_complete info mask =
    nests-write_rows mask (json_rows info) [] (end_object ∷ []) (json_rows-IsMember info)
    ∙ ap (λ ks. some (chosen mask ks, [])) (json_rows-order info)
