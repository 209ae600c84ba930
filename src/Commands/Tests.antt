-- ===== src/Commands/Tests.antt =====
-- One request on its way: answered, failed and given up.
use livox_sdk.Base.{
  ℕ, ◌+◌, ◌≤◌, ◌≡◌, ◌≢◌, ◌↔◌, refl, arith, true, false, none, some, List, [], ◌∷◌, replicate,
}
use livox_sdk.Base.Map.{find, assign, erase}
use livox_sdk.Protocol.{CommPacket, FastCrc, PackOutput, Ret, pack}
use livox_sdk.Commands.{
  Command, Commands, Transport, Sent, LivoxLidarStatus, Handlers, get_lidar_command_handler,
  send_command, add_command, remove_command, take_command_ack, get_seq, new_command, invoke,
}
use livox_sdk.Commands.Pending.{IsValid, Answers, take_command_ack-Answers, add_command-IsValid}
use livox_sdk.Commands.Answers.{
  take_command_ack-once, Operation, run, count, waiting, all_added, run-reports,
}
use livox_sdk.Base.{replicate}
use livox_sdk.Commands.Sending.{send_command_failed, send_command-take, packed, later}

abbrev flat_crc : FastCrc
flat_crc = record {
  ccitt = λ bs. 7;
  crc32 = λ bs. 9;
  ccitt-lt = λ bs. omega arith;
  crc32-lt = λ bs. omega arith;
}

abbrev up : Transport
up = record {
  crc = flat_crc;
  sends = λ handle buf size. true;
  inet_ntoa = λ handle. b'1' ∷ [];
  meanwhile = λ m. m;
}

abbrev down : Transport
down = record {
  crc = flat_crc;
  sends = λ handle buf size. false;
  inet_ntoa = λ handle. b'1' ∷ [];
  meanwhile = λ m. m;
}

abbrev handlers : Handlers
handlers = record { device_dev_type = (77, 10) ∷ []; lidars_command_handler = (10, 1) ∷ [] }

abbrev out : PackOutput
out = record {
  ret = Ret.succeeded;
  o_buf =
      0xaa
      ∷ 0
      ∷ 25
      ∷ 0
      ∷ 6
      ∷ 0
      ∷ 0
      ∷ 0
      ∷ 0
      ∷ 1
      ∷ 0
      ∷ 0
      ∷ 0
      ∷ 0
      ∷ 0
      ∷ 0
      ∷ 0
      ∷ 0
      ∷ 7
      ∷ 0
      ∷ 9
      ∷ 0
      ∷ 0
      ∷ 0
      ∷ 4
      ∷ replicate 1376 0;
  o_len = 25;
}

abbrev request : Command
request = new_command up 6 0x0100 (some (4 ∷ [])) 1 77 (some 3)

abbrev pending : Commands
pending = add_command 50 request []

written : packed up handlers 50 5 77 0x0100 (some (4 ∷ [])) 1 (some 3) [] ≡ some out
unfolding pack get_seq
written = refl

written_too : packed down handlers 50 5 77 0x0100 (some (4 ∷ [])) 1 (some 3) [] ≡ some out
unfolding pack get_seq
written_too = refl

known : get_lidar_command_handler handlers 77 ≡ some 1
unfolding get_lidar_command_handler find
known = refl

abbrev ack : CommPacket
ack = record {
  protocol = 0;
  version = 0;
  seq_num = 6;
  cmd_id = 0x0100;
  cmd_type = 1;
  sender_type = 1;
  payload = some (0 ∷ 0 ∷ 0 ∷ []);
  data_len = 3;
}

pending-IsValid : IsValid pending
pending-IsValid = add_command-IsValid 50 request [] (tt, tt)

abbrev answered : Command × Commands
answered = (record request { packet = ack }, [])

take_command_ack-Answers_example : (take_command_ack 77 ack pending ≡ some answered) ↔ (
    (asked : Command) × (deadline : ℕ) × (find 6 pending ≡ some (asked, deadline))
    × Answers 77 ack asked
    × (answered ≡ (record asked { packet = ack }, erase 6 pending)))
take_command_ack-Answers_example = take_command_ack-Answers 77 ack pending answered

accepted : take_command_ack 77 ack pending ≡ some answered
unfolding take_command_ack add_command get_seq assign erase find
accepted = refl

take_command_ack-once_example :
    ((from : ℕ) (again : CommPacket) → again.seq_num ≡ 6 → take_command_ack from again [] ≡ none)
    × ((remove_command 6 []).0 ≡ false)
    × ((j : ℕ) → j ≢ 6 → find j [] ≡ find j pending)
take_command_ack-once_example =
    take_command_ack-once 77 ack pending answered pending-IsValid accepted

abbrev story : List Operation
story =
    Operation.add 50 request
    ∷ Operation.take 77 ack
    ∷ Operation.fail 6
    ∷ Operation.expire_all 2000
    ∷ []

run-reports_example :
    IsValid (run story []).1
    × (count 6 (run story []).0 + waiting (find 6 (run story []).1)
        ≤ all_added 6 story + waiting (find 6 []))
run-reports_example = run-reports 6 story [] (tt, tt)

send_command_failed_example :
    (sent : Sent) × (send_command down handlers 50 5 77 0x0100 (some (4 ∷ [])) 1 (some 3) []
      ≡ some sent)
    × (sent.status ≡ LivoxLidarStatus.send_failed)
    × (find (get_seq 5) sent.commands ≡ none)
    × (find (get_seq 5) (later down handlers 50 5 77 0x0100 (some (4 ∷ [])) 1 (some 3) []) ≡ none
        → sent.calls ≡ [])
    × ((v : Command × ℕ)
        → find (get_seq 5) (later down handlers 50 5 77 0x0100 (some (4 ∷ [])) 1 (some 3) [])
          ≡ some v
        → sent.calls ≡ invoke (some 3) LivoxLidarStatus.send_failed 77 none)
unfolding assign
send_command_failed_example =
    send_command_failed down handlers 50 5 77 0x0100 (some (4 ∷ [])) 1 (some 3) [] 1 out known
      written_too refl (omega arith, tt)

send_command-take_example :
    (sent : Sent) × (r : Command × Commands) × (send_command up handlers 50 5 77 0x0100
        (some (4 ∷ []))
        1
        (some 3)
        []
      ≡ some sent)
    × (sent.status ≡ LivoxLidarStatus.success)
    × (sent.calls ≡ [])
    × (take_command_ack 77 ack sent.commands ≡ some r)
    × (r.0.cb ≡ some 3)
    × (r.0.packet ≡ ack)
unfolding get_seq
send_command-take_example =
    send_command-take up handlers 50 5 77 0x0100 (some (4 ∷ [])) 1 (some 3) [] 1 out ack known
      written refl (λ c. refl) refl refl (λ e. (refl, omega arith))
