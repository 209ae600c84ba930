-- ===== src/PointData/Tests.antt =====
-- Two points of the low resolution, with the callbacks of an application.
use livox_sdk.Base.{
  ℕ, ◌≡◌, ◌≢◌, ◌↔◌, refl, arith, true, List, [], ◌∷◌, none, some, replicate, All, are_bytes-IsByte,
  ◌≤◌,
}
use livox_sdk.Base.Map.{find}
use livox_sdk.PointData.{
  DataHandler, Observer, handle_data, is_complete_data_packet, get_data_element_size,
  add_point_cloud_observer, remove_point_cloud_observer, generate_observer_id, notify_all,
  null_observer, Call, destory, copy_callbacks,
}
use livox_sdk.PointData.Packet.{
  IsWhole, PointsInside, is_complete_data_packet-IsWhole, is_complete_data_packet-PointsInside,
}
use livox_sdk.PointData.Threads.{System, copied, called, stop, step, destory-in_flight}
use livox_sdk.PointData.Observers.{
  IsValid, Inserted, generate_observer_id-range, handle-add, remove_point_cloud_observer-IsValid,
}

-- 52 bytes: version 0, length 52, two points of type 2.
abbrev points : List ℕ
points = 0 ∷ 52 ∷ 0 ∷ 0 ∷ 0 ∷ 2 ∷ 0 ∷ 0 ∷ 0 ∷ 0 ∷ 2 ∷ replicate 41 7

abbrev o : Observer
o = record { callback = some 5; client_data = 6 }

abbrev handler : DataHandler
handler = record {
  point_data = o;
  imu_data = null_observer;
  observers = (1, o) ∷ (7, o) ∷ [];
  observer_id = 7;
}

complete : is_complete_data_packet (some points) 52 ≡ some true
unfolding is_complete_data_packet get_data_element_size
complete = refl

handler-IsValid : IsValid handler
unfolding find
handler-IsValid =
    ((omega arith, (omega arith, tt)), omega arith, omega arith, λ id big. ground arith)

is_complete_data_packet-IsWhole_example :
    (is_complete_data_packet (some points) 52 ≢ none)
    × ((is_complete_data_packet (some points) 52 ≡ some true) ↔ IsWhole points 52)
is_complete_data_packet-IsWhole_example =
    is_complete_data_packet-IsWhole 52 points (are_bytes-IsByte points refl) (omega arith)

is_complete_data_packet-PointsInside_example : PointsInside points 52
is_complete_data_packet-PointsInside_example =
    is_complete_data_packet-PointsInside 52 points (omega arith) complete

abbrev calls : List Call
calls =
    record { function = 5; handle = 9; dev_type = 10; client_data = 6 }
    ∷ record { function = 5; handle = 9; dev_type = 10; client_data = 6 }
    ∷ record { function = 5; handle = 9; dev_type = 10; client_data = 6 }
    ∷ []

handle-add_example :
    (new : List Call) × (handle_data (add_point_cloud_observer handler o).0 10 9 (some points) 52
      ≡ some new)
    × Inserted 9 10 o calls new
unfolding find generate_observer_id handle_data copy_callbacks notify_all is_complete_data_packet
    get_data_element_size
handle-add_example = handle-add handler o 9 10 52 points calls refl complete refl

abbrev one_call : Call
one_call = record { function = 5; handle = 9; dev_type = 10; client_data = 6 }

-- A packet that has made one of three calls when everything is destroyed.
abbrev under_way : System
under_way = record { state = handler; in_flight = (one_call ∷ (one_call ∷ [])) ∷ [] }

destory-in_flight_example :
    All (λ (c : Call). c.function ≡ 5) (one_call ∷ (one_call ∷ [])) × (2 ≤ 2)
unfolding destory copy_callbacks is_complete_data_packet get_data_element_size notify_all
destory-in_flight_example =
    destory-in_flight (λ c. c.function ≡ 5) under_way
      (record { state = destory handler; in_flight = ([] ∷ ([] ∷ [])) })
      (one_call ∷ (one_call ∷ [])) ((refl, (refl, tt)), tt)
      (step
        (called (record under_way { state = destory handler }) [] [] one_call (one_call ∷ []) refl)
        (step
          (copied (record { state = destory handler; in_flight = (one_call ∷ []) ∷ [] }) 10 9 52
            (some points)
            (some (record { handle = 9; dev_type = 10; callback = null_observer; observers = [] }))
            refl)
          (step
            (called (record { state = destory handler; in_flight = [] ∷ ((one_call ∷ []) ∷ []) })
              ([] ∷ []) [] one_call [] refl)
            stop)))

remove_point_cloud_observer-IsValid_example : IsValid (remove_point_cloud_observer handler 7)
remove_point_cloud_observer-IsValid_example =
    remove_point_cloud_observer-IsValid handler 7 handler-IsValid

generate_observer_id-range_example :
    (1 ≤ generate_observer_id 65535)
    × (generate_observer_id 65535 ≤ 65535)
    × (generate_observer_id 65535 ≢ 65535)
generate_observer_id-range_example = generate_observer_id-range 65535 (omega arith) (omega arith)
