-- ===== src/Dispatch.antt =====
-- What a datagram from a device's command port sets off: `GeneralCommandHandler::Handler` of
-- sdk_core/command_handler/general_command_handler.cpp, and the admission of detection data
-- (sdk_core/command_handler/detection_data_admission.h).
pub mod Delivery
pub mod Tests
use livox_sdk.Base.{
  ℕ, Bool, true, false, Option, none, some, List, [], ◌∷◌, ◌++◌, ltb, ◌==◌, ◌&&◌, if◌then◌else◌,
  ◌>>=◌, read_at, le, take, drop,
}
use livox_sdk.Protocol.{CommPacket, FastCrc, parse_comm_stream}
use livox_sdk.StateInfo.Text.{c_string}
use livox_sdk.Commands.{
  Command, Commands, Handlers, LivoxLidarStatus, command_type_cmd, command_type_ack,
  get_lidar_command_handler, take_command_ack,
}
use livox_sdk.Callbacks.{CallbackState}

pub record DetectionData : Type 0 where
  pub ret_code : ℕ
  pub dev_type : ℕ
  pub sn : List ℕ
  pub lidar_ip : List ℕ
  pub cmd_port : ℕ

-- `sizeof(DetectionData)`, packed.
abbrev pub detection_data_size : ℕ
detection_data_size = 24

pub data DetectionDataStatus : Type 0 where
  malformed : DetectionDataStatus
  device_error : DetectionData → List ℕ → DetectionDataStatus
  accepted : DetectionData → List ℕ → DetectionDataStatus

-- `DetectionSerialNumber`: the bytes before the terminator, or all of them.
unfoldable pub detection_serial_number : DetectionData → List ℕ
detection_serial_number data' = c_string data'.sn

-- The structure in the bytes that `memcpy` fills it with.
abbrev pub detection_fields : List ℕ → DetectionData
detection_fields bytes = record {
  ret_code = le (take 1 bytes);
  dev_type = le (take 1 (drop 1 bytes));
  sn = take 16 (drop 2 bytes);
  lidar_ip = take 4 (drop 18 bytes);
  cmd_port = le (take 2 (drop 22 bytes));
}

-- `ParseDetectionData`, with the structure and the serial number that it leaves; `none` is a read
-- outside of the packet's data.
unfoldable pub parse_detection_data : CommPacket → Option DetectionDataStatus
parse_detection_data packet = elim packet.payload [
  | none ↦ some DetectionDataStatus.malformed
  | some bs ↦
      if ltb packet.data_len detection_data_size then some DetectionDataStatus.malformed else do
        bytes ← read_at 0 detection_data_size bs
        let detected = detection_fields bytes
        some (
            if detected.ret_code == 0
            then DetectionDataStatus.accepted detected (detection_serial_number detected)
            else DetectionDataStatus.device_error detected (detection_serial_number detected))
]

-- What the handler calls: `HandleAcceptedDetectionData`, a command's callback, and `Handle` of the
-- handler of a device type.
pub data Event : Type 0 where
  handle_accepted_detection_data : ℕ → DetectionData → List ℕ → Event
  command_callback : ℕ → LivoxLidarStatus → ℕ → Option (List ℕ) → Event
  handler_handle : ℕ → ℕ → ℕ → CommPacket → Event

-- `HandleDetectionData`.
unfoldable pub handle_detection_data : ℕ → CommPacket → Option (List Event)
handle_detection_data handle packet = do
  status ← parse_detection_data packet
  elim status [
    | malformed ↦ some []
    | device_error detected sn ↦ some []
    | accepted detected sn ↦ some (Event.handle_accepted_detection_data handle detected sn ∷ [])
  ]

abbrev pub callback_event : Option ℕ → ℕ → Option (List ℕ) → List Event
callback_event none handle response = []
callback_event (some f) handle response =
    Event.command_callback f LivoxLidarStatus.success handle response ∷ []

-- The answer's callback, and the pending commands, if there was a command to answer.
abbrev pub answered : ℕ → Commands → Option (Command × Commands) → List Event × Commands
answered handle m none = ([], m)
answered handle m (some (c, left)) = (callback_event c.cb handle c.packet.payload, left)

abbrev pub pushed : ℕ → ℕ → CommPacket → Option ℕ → List Event
pushed handle lidar_port packet none = []
pushed handle lidar_port packet (some h) = Event.handler_handle h handle lidar_port packet ∷ []

-- What follows once the packet is parsed: the calls, in their order, and the pending commands.
unfoldable pub handle_packet :
    Handlers → ℕ → ℕ → CommPacket → Commands → Option (List Event × Commands)
handle_packet hs handle lidar_port packet m =
    if lidar_port == 56000 && packet.cmd_id == 0
    then (if packet.cmd_type == command_type_cmd
        then some ([], m)
        else (handle_detection_data handle packet >>= λ events. some (events, m)))
    else if packet.cmd_type == command_type_ack
    then some (answered handle m (take_command_ack handle packet m))
    else if packet.cmd_id == 0x0102
    then some (pushed handle lidar_port packet (get_lidar_command_handler hs handle), m)
    else some ([], m)

-- `Handler(handle, lidar_port, buf, buf_size)`; `none` is a read outside of the buffer.
unfoldable pub handler :
    FastCrc
    → CallbackState
    → Handlers
    → ℕ
    → ℕ
    → Option (List ℕ)
    → ℕ
    → Commands
    → Option (List Event × Commands)
handler crc callbacks hs handle lidar_port none buf_size m = some ([], m)
handler crc callbacks hs handle lidar_port (some buf) buf_size m =
    if callbacks.callback_operations_stopped
    then some ([], m)
    else if buf_size == 0
    then some ([], m)
    else do
      parsed ← parse_comm_stream crc (some buf) buf_size
      elim parsed [
        | none ↦ some ([], m)
        | some packet ↦ handle_packet hs handle lidar_port packet m
      ]
