-- ===== src/Requests/Client.antt =====
-- How the calls of `CommandImpl` in sdk_core/command_handler/command_impl.cpp end: in
-- `GeneralCommandHandler::SendCommand`, or before it.
use livox_sdk.Base.{ℕ, List, [], Option, some}
use livox_sdk.Commands.{Commands, Transport, Handlers, Sent, LivoxLidarStatus, send_command}
use livox_sdk.Requests.{Attempt, fault, thrown, refused, done, access, Request}

-- What a call of the interface meets: the transport, the devices' handlers, the time, the last
-- sequence number, and the commands that wait.
pub record Client : Type 0 where
  pub transport : Transport
  pub handlers : Handlers
  pub now : ℕ
  pub last : ℕ
  pub commands : Commands

-- `GeneralCommandHandler::GetInstance().SendCommand(handle, command_id, req_buff, req_len, ...)`.
abbrev pub send : Client → ℕ → ℕ → Option (List ℕ) → ℕ → Option ℕ → Attempt Sent
send c handle command_id buffer len cb =
    access
      (send_command c.transport c.handlers c.now c.last handle command_id buffer len cb c.commands)

-- A request is sent; without one the call returns -1.
abbrev pub send_request : Client → ℕ → ℕ → Attempt Request → Option ℕ → Attempt Sent
send_request c handle command_id fault cb = fault
send_request c handle command_id thrown cb = thrown
send_request c handle command_id refused cb =
    done (record { status = LivoxLidarStatus.failure; calls = []; commands = c.commands })
send_request c handle command_id (done r) cb = send c handle command_id (some r.buf) r.len cb
