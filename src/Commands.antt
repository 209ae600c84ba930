-- ===== src/Commands.antt =====
-- The command channel of sdk_core: the commands that wait for their answer
-- (command_handler/general_command_handler.cpp), the sequence numbers (comm/generate_seq.cpp) and the
-- way of a command through the handler of a device type (command_handler/hap_command_handler.cpp,
-- whose senders the handlers of the other types repeat).
pub mod Pending
pub mod Expiry
pub mod Answers
pub mod Sending
pub mod Tests
use livox_sdk.Base.{
  ℕ, ◌+◌, Bool, true, false, not, ◌&&◌, ◌||◌, if◌then◌else◌, Option, none, some, List, [], ◌∷◌,
  ◌++◌, ltb, ◌==◌, ◌>>=◌, replicate,
}
use livox_sdk.Base.Map.{Map, find, assign, erase}
use livox_sdk.Protocol.{CommPacket, FastCrc, pack}

-- `LivoxLidarStatus`.
pub data LivoxLidarStatus : Type 0 where
  send_failed handler_impl_not_exist invalid_handle channel_not_exist : LivoxLidarStatus
  not_enough_memory timeout not_supported not_connected failure success : LivoxLidarStatus

-- `cb` names a callback; `none` is the null pointer. `time_out` is in milliseconds.
pub record Command : Type 0 where
  pub packet : CommPacket
  pub handle : ℕ
  pub lidar_ip : List ℕ
  pub time_out : ℕ
  pub cb : Option ℕ

-- One call of a callback.
pub record Call : Type 0 where
  pub callback : ℕ
  pub status : LivoxLidarStatus
  pub handle : ℕ
  pub response : Option (List ℕ)

-- `commands_`: by its sequence number, a command and the time at which it is given up.
abbrev pub Commands : Type 0
Commands = Map (Command × ℕ)

abbrev pub command_type_cmd : ℕ
command_type_cmd = 0

abbrev pub command_type_ack : ℕ
command_type_ack = 1

abbrev pub work_mode_control : ℕ
work_mode_control = 0x0100

-- `GenerateSeq::GetSeq`, run by one thread: the new value of the counter, which is the result.
unfoldable pub get_seq : ℕ → ℕ
get_seq value = if value == 65535 then 1 else value + 1

-- `if (cb) (*cb)(status, handle, data)`.
abbrev pub invoke : Option ℕ → LivoxLidarStatus → ℕ → Option (List ℕ) → List Call
invoke none status handle response = []
invoke (some f) status handle response =
    record { callback = f; status = status; handle = handle; response = response } ∷ []

-- `if (cmd.packet.data != NULL) { cmd.packet.data = NULL; cmd.packet.data_len = 0; }`
abbrev pub clear_data : Option (List ℕ) → Command → Command
clear_data none c = c
clear_data (some _) c = record c { packet = record c.packet { payload = none; data_len = 0 } }

abbrev pub without_data : Command → Command
without_data c = clear_data c.packet.payload c

unfoldable pub add_command : ℕ → Command → Commands → Commands
add_command now c m =
    if c.packet.cmd_type == command_type_ack
    then m
    else assign c.packet.seq_num (without_data c, now + c.time_out) m

unfoldable pub remove_command : ℕ → Commands → Bool × Commands
remove_command sequence m = elim (find sequence m) [
  | none ↦ (false, erase sequence m)
  | some _ ↦ (true, erase sequence m)
]

abbrev pub is_null : Option (List ℕ) → Bool
is_null none = true
is_null (some _) = false

-- `TakeCommandAck`: the command with the answer as its packet, or `none` for false.
-- `sizeof(LivoxLidarAsyncControlResponse)` is 3, packed.
unfoldable pub take_command_ack : ℕ → CommPacket → Commands → Option (Command × Commands)
take_command_ack handle packet m = do
  pending ← find packet.seq_num m
  let request = pending.0
  if not (request.handle == handle) || not (request.packet.cmd_id == packet.cmd_id)
      then none
      else if request.packet.cmd_id == work_mode_control
          && (is_null packet.payload || ltb packet.data_len 3)
      then none
      else some (record request { packet = packet }, erase packet.seq_num m)

-- The loop of `CommandsHandle` over the entries that stood in the map when it started: the commands
-- that are given up, and the map.
unfoldable pub expire : ℕ → Commands → Commands → List Command × Commands
expire now [] m = ([], m)
expire now ((seq, (c, deadline)) ∷ entries) m =
    let rest = expire now entries m in
    let erased = expire now entries (erase seq m) in
    if ltb deadline now then (c ∷ erased.0, erased.1) else rest

unfoldable pub notify_timeouts : List Command → List Call
notify_timeouts [] = []
notify_timeouts (c ∷ cs) =
    invoke c.cb LivoxLidarStatus.timeout c.handle c.packet.payload ++ notify_timeouts cs

-- `CommandsHandle`, while callbacks are allowed.
unfoldable pub commands_handle : ℕ → Commands → List Call × Commands
commands_handle now m = let (timeouts, kept) = expire now m m in (notify_timeouts timeouts, kept)

-- What a send depends on outside of this code: the checksums, `DeviceManager::SendCommand`, which
-- tells whether it sent the bytes, `inet_ntoa`, and what other threads do to the pending commands while the bytes
-- are on their way.
pub record Transport : Type 0 where
  pub crc : FastCrc
  pub sends : ℕ → List ℕ → ℕ → Bool
  pub inet_ntoa : ℕ → List ℕ
  pub meanwhile : Commands → Commands

-- What a send leaves: its status, the calls of callbacks that it made, the pending commands.
pub record Sent : Type 0 where
  pub status : LivoxLidarStatus
  pub calls : List Call
  pub commands : Commands

abbrev pub max_command_buffer_size : ℕ
max_command_buffer_size = 1400

-- `HapCommandHandler::SendCommand(command)`; `none` is an access outside of the buffer. The result
-- of `Pack` is not looked at.
unfoldable pub device_send_command : Transport → Command → Commands → Option Sent
device_send_command t c m =
    if c.packet.cmd_type == command_type_ack
    then some (record { status = LivoxLidarStatus.failure; calls = []; commands = m })
    else do
      out ←
          pack t.crc (replicate (max_command_buffer_size + 1) 0) max_command_buffer_size 0 c.packet
      let later = t.meanwhile m
      if t.sends c.handle out.o_buf out.o_len
          then some (record { status = LivoxLidarStatus.success; calls = []; commands = later })
          else some (record {
            status = LivoxLidarStatus.send_failed;
            calls =
                if (remove_command c.packet.seq_num later).0
                then invoke c.cb LivoxLidarStatus.send_failed c.handle none
                else [];
            commands = (remove_command c.packet.seq_num later).1;
          })

abbrev pub is_success : LivoxLidarStatus → Bool
is_success LivoxLidarStatus.success = true
is_success _ = false

-- `Command(seq, command_id, kCommandTypeCmd, kHostSend, data, length, handle, lidar_ip, cb)`.
abbrev pub new_command : Transport → ℕ → ℕ → Option (List ℕ) → ℕ → ℕ → Option ℕ → Command
new_command t seq command_id buffer length handle cb = record {
  packet = record {
    protocol = 0;
    version = 3;
    seq_num = seq;
    cmd_id = command_id;
    cmd_type = command_type_cmd;
    sender_type = 0;
    payload = buffer;
    data_len = length;
  };
  handle = handle;
  lidar_ip = t.inet_ntoa handle;
  time_out = 1000;
  cb = cb;
}

-- The type of each device, and a handler for each type that has one.
pub record Handlers : Type 0 where
  pub device_dev_type : Map ℕ
  pub lidars_command_handler : Map ℕ

-- `GetLidarCommandHandler(handle)`; `none` is the null pointer.
unfoldable pub get_lidar_command_handler : Handlers → ℕ → Option ℕ
get_lidar_command_handler hs handle = do
  dev_type ← find handle hs.device_dev_type
  find dev_type hs.lidars_command_handler

-- `GeneralCommandHandler::SendCommand` at a time, from the last sequence number.
unfoldable pub send_command :
    Transport → Handlers → ℕ → ℕ → ℕ → ℕ → Option (List ℕ) → ℕ → Option ℕ → Commands → Option Sent
send_command t hs now last handle command_id buffer length cb m =
    let c = new_command t (get_seq last) command_id buffer length handle cb in
    elim (get_lidar_command_handler hs handle) [
      | none ↦ some (record { status = LivoxLidarStatus.send_failed; calls = []; commands = m })
      | some _ ↦ do
        sent ← device_send_command t c (add_command now c m)
        if is_success sent.status
            then some sent
            else some (record sent { commands = (remove_command c.packet.seq_num sent.commands).1 })
    ]
