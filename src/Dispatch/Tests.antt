-- ===== src/Dispatch/Tests.antt =====
-- The answer to a request for the work mode, as it comes from the network.
use livox_sdk.Base.{
  ℕ, ◌≡◌, ◌≢◌, refl, arith, none, some, List, [], ◌∷◌, ◌++◌, replicate, are_bytes-IsByte,
}
use livox_sdk.Base.Map.{find, erase}
use livox_sdk.Protocol.{CommPacket, FastCrc}
use livox_sdk.Protocol.Frame.{frame, Fits}
use livox_sdk.Commands.{Command, Commands, Handlers}
use livox_sdk.Callbacks.{initial}
use livox_sdk.Dispatch.{callback_event, handler}
use livox_sdk.Dispatch.Delivery.{handler-answer, handler_total}

abbrev flat_crc : FastCrc
flat_crc = record {
  ccitt = λ bs. 7;
  crc32 = λ bs. 9;
  ccitt-lt = λ bs. omega arith;
  crc32-lt = λ bs. omega arith;
}

abbrev ack : CommPacket
ack = record {
  protocol = 0;
  version = 0;
  seq_num = 6;
  cmd_id = 0x0100;
  cmd_type = 1;
  sender_type = 1;
  payload = none;
  data_len = 3;
}

ack-Fits : Fits ack
ack-Fits = record {
  is_sdk = refl;
  seq = omega arith;
  id = omega arith;
  type = omega arith;
  sender = omega arith;
  len = omega arith;
}

abbrev request : Command
request = record {
  packet = record ack { cmd_type = 0; sender_type = 0; data_len = 0 };
  handle = 77;
  lidar_ip = [];
  time_out = 1000;
  cb = some 3;
}

abbrev pending : Commands
pending = (6, (request, 1050)) ∷ []

abbrev no_handlers : Handlers
no_handlers = record { device_dev_type = []; lidars_command_handler = [] }

abbrev wire : List ℕ
wire = frame flat_crc ack (replicate 6 0) (0 ∷ 0 ∷ 0 ∷ [])

handler-answer_example :
    handler flat_crc initial no_handlers 77 56100 (some (wire ++ [])) 27 pending
    ≡ some (callback_event (some 3) 77 (some (0 ∷ 0 ∷ 0 ∷ [])), [])
unfolding find erase
handler-answer_example =
    handler-answer flat_crc initial no_handlers 77 56100 pending ack (replicate 6 0)
      (0 ∷ 0 ∷ 0 ∷ []) [] 27 request 1050 ack-Fits refl refl (omega arith) refl refl (omega arith)
      refl (refl, refl, λ e. (refl, omega arith))

handler_total_example : handler flat_crc initial no_handlers 77 56100 (some wire) 27 pending ≢ none
handler_total_example =
    handler_total flat_crc initial no_handlers 77 56100 pending wire 27 (are_bytes-IsByte wire refl)
      (omega arith)
