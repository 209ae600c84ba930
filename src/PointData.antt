-- ===== src/PointData.antt =====
-- sdk_core/data_handler: the check of a data packet from a device, and the callbacks and observers
-- that receive it (data_handler.h, data_handler.cpp).
pub mod Packet
pub mod Observers
pub mod Threads
pub mod Tests
use livox_sdk.Base.{
  ℕ, ◌+◌, ◌-◌, ◌*◌, ◌/◌, ◌^◌, Bool, true, false, Option, none, some, List, [], ◌∷◌, ◌++◌, not, ltb,
  leb, ◌&&◌, ◌==◌, ◌>>=◌, if◌then◌else◌,
}
use livox_sdk.Base.Map.{Map, find, assign, erase}
use livox_sdk.Protocol.{field}

-- `offsetof(LivoxLidarEthernetPacket, data)`, packed.
abbrev pub data_header_size : ℕ
data_header_size = 36

-- The sizes of the packed points, by the type of the data; 0 for any other type.
unfoldable pub get_data_element_size : ℕ → ℕ
get_data_element_size t =
    if t == 0x00
    then 24
    else if t == 0x01
    then 14
    else if t == 0x02
    then 8
    else if t == 0x03
    then 10
    else if t == 0x11
    then 28
    else 0

abbrev pub size_max : ℕ
size_max = 2 ^ 64 - 1

-- `IsCompleteDataPacket`; `none` is a read outside of the buffer.
unfoldable pub is_complete_data_packet : Option (List ℕ) → ℕ → Option Bool
is_complete_data_packet none buf_size = some false
is_complete_data_packet (some buf) buf_size =
    if ltb buf_size data_header_size then some false else do
      data_type ← field 10 1 buf
      dot_num ← field 5 2 buf
      length ← field 1 2 buf
      if get_data_element_size data_type == 0
          then some false
          else if ltb ((size_max - data_header_size) / get_data_element_size data_type) dot_num
          then some false
          else some (
              leb (data_header_size + dot_num * get_data_element_size data_type) length
              && leb length buf_size)

-- A callback and the pointer that is handed back to it; `none` is an empty `std::function`.
pub record Observer : Type 0 where
  pub callback : Option ℕ
  pub client_data : ℕ

-- The members of `DataHandler`, and the static counter of `GenerateObserverId`.
pub record DataHandler : Type 0 where
  pub point_data : Observer
  pub imu_data : Observer
  pub observers : Map Observer
  pub observer_id : ℕ

abbrev pub null_observer : Observer
null_observer = record { callback = none; client_data = 0 }

abbrev pub init : DataHandler
init = record {
  point_data = null_observer;
  imu_data = null_observer;
  observers = [];
  observer_id = 1;
}

unfoldable pub destory : DataHandler → DataHandler
destory h = record h { point_data = null_observer; imu_data = null_observer; observers = [] }

-- One call of a callback: the function, and its arguments but for the packet.
pub record Call : Type 0 where
  pub function : ℕ
  pub handle : ℕ
  pub dev_type : ℕ
  pub client_data : ℕ

abbrev pub notify : ℕ → ℕ → Observer → List Call
notify handle dev_type o = elim o.callback [
  | none ↦ []
  | some f ↦
      record { function = f; handle = handle; dev_type = dev_type; client_data = o.client_data }
      ∷ []
]

-- The loop over the copy of the observers.
unfoldable pub notify_all : ℕ → ℕ → Map Observer → List Call
notify_all handle dev_type [] = []
notify_all handle dev_type ((id, o) ∷ os) =
    notify handle dev_type o ++ notify_all handle dev_type os

-- What a packet in flight holds: copies of the callback of its type and of the observers.
pub record Delivery : Type 0 where
  pub handle : ℕ
  pub dev_type : ℕ
  pub callback : Observer
  pub observers : Map Observer

-- `Handle` as far as it holds the mutex; an inner `none` is a packet that is not complete.
unfoldable pub copy_callbacks : DataHandler → ℕ → ℕ → Option (List ℕ) → ℕ → Option (Option Delivery)
copy_callbacks h dev_type handle none buf_size = some none
copy_callbacks h dev_type handle (some buf) buf_size = do
  complete ← is_complete_data_packet (some buf) buf_size
  if not complete then some none else do
    data_type ← field 10 1 buf
    some (
        some (record {
          handle = handle;
          dev_type = dev_type;
          callback = if data_type == 0 then h.imu_data else h.point_data;
          observers = h.observers;
        }))

-- The rest of `Handle`, without the mutex: the calls that it makes, in their order.
abbrev pub deliver : Option Delivery → List Call
deliver none = []
deliver (some d) =
    notify d.handle d.dev_type d.callback ++ notify_all d.handle d.dev_type d.observers

-- `Handle`, for the data handler at the time when it is locked. The calls come later, when the mutex is
-- free again.
unfoldable pub handle_data : DataHandler → ℕ → ℕ → Option (List ℕ) → ℕ → Option (List Call)
handle_data h dev_type handle buf buf_size =
    copy_callbacks h dev_type handle buf buf_size >>= λ d. some (deliver d)

-- `GenerateObserverId`, run by one thread: the new value of the counter, which is the result.
unfoldable pub generate_observer_id : ℕ → ℕ
generate_observer_id value = if value == 65535 then 1 else value + 1

unfoldable pub add_point_cloud_observer : DataHandler → Observer → DataHandler × ℕ
unfolding generate_observer_id
add_point_cloud_observer h o =
    let id = generate_observer_id h.observer_id in
    (record h { observers = assign id o h.observers; observer_id = id }, id)

unfoldable pub remove_point_cloud_observer : DataHandler → ℕ → DataHandler
remove_point_cloud_observer h id = elim (find id h.observers) [
  | none ↦ h
  | some _ ↦ record h { observers = erase id h.observers }
]

unfoldable pub set_point_data_callback : DataHandler → Observer → DataHandler
set_point_data_callback h o = record h { point_data = o }

unfoldable pub set_imu_data_callback : DataHandler → Observer → DataHandler
set_imu_data_callback h o = record h { imu_data = o }
