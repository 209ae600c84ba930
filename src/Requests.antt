-- ===== src/Requests.antt =====
-- The requests of sdk_core/command_handler: the ones that `BuildRequest` (build_request.cpp) and
-- `CommandImpl` (command_impl.cpp) write, key by key, into a zeroed buffer, and the calls of the
-- public interface (livox_lidar_sdk.cpp) that send them.
pub mod Address
pub mod Dotted
pub mod Build
pub mod Message
pub mod Update
pub mod Structures
pub mod Client
pub mod Control
pub mod Queries
pub mod Listing
pub mod Sdk
pub mod Tests
pub mod Wire
pub mod Outgoing
pub mod ReadBack
use livox_sdk.Base.{ℕ, ◌+◌, ◌-◌, ◌%◌, List, Option, none, some, write_at, le16, replicate}
use livox_sdk.StateInfo.Keys.{ParamKeyName, key_code}

-- How a call ends: outside of a buffer, by an exception, with `false`, or with a result.
pub data Attempt {ℓ} (A : Type ℓ) : Type ℓ where
  fault : Attempt A
  thrown : Attempt A
  refused : Attempt A
  done : A → Attempt A

infixl 5 ◌>>=◌
abbrev pub ◌>>=◌ {ℓ κ} : {A : Type ℓ} {B : Type κ} → Attempt A → (A → Attempt B) → Attempt B
fault >>= f = fault
thrown >>= f = thrown
refused >>= f = refused
done a >>= f = f a

abbrev pub access {ℓ} : {A : Type ℓ} → Option A → Attempt A
access none = fault
access (some a) = done a

-- `req_buf` and `req_len`.
pub record Request : Type 0 where
  pub buf : List ℕ
  pub len : ℕ

-- `uint8_t req_buff[kMaxCommandBufferSize] = {0}; uint16_t req_len = 0;`
abbrev pub zeroed : Request
zeroed = record { buf = replicate 1400 0; len = 0 }

-- A store at an offset in the buffer.
abbrev pub put : ℕ → List ℕ → Request → Attempt Request
put offset bytes r = do
  image ← access (write_at offset bytes r.buf)
  done (record r { buf = image })

-- `memcpy(&req_buf[req_len], &key_num, sizeof(key_num)); req_len = sizeof(key_num) + sizeof(uint16_t);`
abbrev pub put_key_num : ℕ → Request → Attempt Request
put_key_num key_num r = do with_num ← put r.len (le16 key_num) r; done (record with_num { len = 4 })

-- `kv->key = ...; kv->length = ...;` where `kv` points to `req_buf[req_len]`.
abbrev pub put_key : ParamKeyName → ℕ → Request → Attempt Request
put_key key value_len r = do
  with_key ← put r.len (le16 (key_code key)) r
  put (r.len + 2) (le16 value_len) with_key

-- A store at an offset in the value of the key at `req_len`.
abbrev pub put_value : ℕ → List ℕ → Request → Attempt Request
put_value offset bytes r = put (r.len + 4 + offset) bytes r

-- `req_len += sizeof(LivoxLidarKeyValueParam) - 1 + n`.
abbrev pub advance : ℕ → Request → Request
advance n r = record r { len = (r.len + (5 - 1 + n)) % 65536 }
