-- ===== src/Dispatch/Delivery.antt =====
-- From the bytes of a datagram to the callback of the command that it answers.
use livox_sdk.Base.{
  ℕ, ◌+◌, ◌≤◌, ◌≡◌, ◌≢◌, refl, arith, true, false, none, some, List, ◌++◌, length, length-append,
  All, IsByte, ltb, ltb→le, ◌==◌, ◌&&◌, Bool-cases, Option-cases, inl, inr, read_at_total,
  and_false, ◌∙◌,
}
use livox_sdk.Base.Map.{find, erase}
use livox_sdk.Protocol.{CommPacket, FastCrc, parse_comm_stream}
use livox_sdk.Protocol.Frame.{frame, Fits}
use livox_sdk.Protocol.Stream.{parse_comm_stream-frame, parse_comm_stream_total}
use livox_sdk.Protocol.Accepted.{parse_comm_stream-IsFrame}
use livox_sdk.Commands.{Command, Commands, Handlers, take_command_ack}
use livox_sdk.Commands.Pending.{Answers, take_command_ack-Answers}
use livox_sdk.Callbacks.{CallbackState}
use livox_sdk.Dispatch.{
  DetectionDataStatus, parse_detection_data, handle_detection_data, callback_event, handle_packet,
  handler,
}

module _ (handle : ℕ) (packet : CommPacket) (d : List ℕ) (is : packet.payload ≡ some d)
    (inside : packet.data_len ≤ length d) where
  parse_detection_data_total : parse_detection_data packet ≢ none
  unfolding parse_detection_data
  parse_detection_data_total = elim (Bool-cases (ltb packet.data_len 24)) [
    | inl short ↦ rw (is, short) (ground arith)
    | inr long ↦
        let (bytes, e, l) = read_at_total 0 24 d (omega (arith, ltb→le packet.data_len 24 long)) in
        rw (is, long, e) (ground arith)
  ]

  handle_detection_data_total : handle_detection_data handle packet ≢ none
  unfolding handle_detection_data
  handle_detection_data_total = elim (Option-cases (parse_detection_data packet)) [
    | inl fault ↦ absurd (parse_detection_data_total fault)
    | inr (DetectionDataStatus.malformed, e) ↦ rw e (ground arith)
    | inr (DetectionDataStatus.device_error _ _, e) ↦ rw e (ground arith)
    | inr (DetectionDataStatus.accepted _ _, e) ↦ rw e (ground arith)
  ]

  handle_packet_total :
      (hs : Handlers) (lidar_port : ℕ) (m : Commands)
      → handle_packet hs handle lidar_port packet m ≢ none
  unfolding handle_packet
  handle_packet_total hs lidar_port m =
      elim (Bool-cases (lidar_port == 56000 && packet.cmd_id == 0)) [
        | inl search ↦ elim (Bool-cases (packet.cmd_type == 0)) [
          | inl command ↦ rw (handle_packet, search, command) (ground arith)
          | inr answer ↦ elim (Option-cases (handle_detection_data handle packet)) [
            | inl fault ↦ absurd (handle_detection_data_total fault)
            | inr (events, e) ↦ rw (handle_packet, search, answer, e) (ground arith)
          ]
        ]
        | inr other ↦ elim (Bool-cases (packet.cmd_type == 1)) [
          | inl answer ↦ rw (handle_packet, other, answer) (ground arith)
          | inr command ↦ elim (Bool-cases (packet.cmd_id == 0x0102)) [
            | inl push ↦ rw (handle_packet, other, command, push) (ground arith)
            | inr unknown ↦ rw (handle_packet, other, command, unknown) (ground arith)
          ]
        ]
      ]

module _ (crc : FastCrc) (callbacks : CallbackState) (hs : Handlers) (handle lidar_port : ℕ)
    (m : Commands) where
  handler-parsed :
      (buf : List ℕ) (n : ℕ) (packet : CommPacket)
      → callbacks.callback_operations_stopped ≡ false
      → (n == 0) ≡ false
      → parse_comm_stream crc (some buf) n ≡ some (some packet)
      → handler crc callbacks hs handle lidar_port (some buf) n m
        ≡ handle_packet hs handle lidar_port packet m
  unfolding handler
  handler-parsed buf n packet runs some_bytes e = rw (handler, runs, some_bytes, e) refl

  handle_packet-answered :
      (q : CommPacket) (c : Command) (left : Commands)
      → q.cmd_type ≡ 1
      → q.cmd_id ≢ 0
      → take_command_ack handle q m ≡ some (c, left)
      → handle_packet hs handle lidar_port q m
        ≡ some (callback_event c.cb handle c.packet.payload, left)
  unfolding handle_packet
  handle_packet-answered q c left ack no_search e =
      let other : (q.cmd_id == 0) ≡ false = ground arith in
      let answer : (q.cmd_type == 1) ≡ true = ground (arith, ack) in
      rw (handle_packet, other, and_false (lidar_port == 56000), answer, e) refl

  -- A datagram that starts with the frame of an answer, checksums included, is handed to the
  -- callback of the request that waits under its number and that it is an answer to, once, as a
  -- success with the data behind the header, and the request waits no longer. The callbacks must be
  -- allowed, the fields of the packet must fit the frame's, and its command must not be the search
  -- for devices.
  pub handler-answer :
      (p : CommPacket) (rsvd body rest : List ℕ) (n : ℕ) (request : Command) (deadline : ℕ)
      → Fits p
      → length rsvd ≡ 6
      → length body ≡ p.data_len
      → p.data_len + 24 ≤ n
      → callbacks.callback_operations_stopped ≡ false
      → p.cmd_type ≡ 1
      → p.cmd_id ≢ 0
      → find p.seq_num m ≡ some (request, deadline)
      → Answers handle
          (record p { protocol = 0; version = 0; payload = some (body ++ rest) })
          request
      → handler crc callbacks hs handle lidar_port (some (frame crc p rsvd body ++ rest)) n m
        ≡ some (callback_event request.cb handle (some (body ++ rest)), erase p.seq_num m)
  unfolding handler handle_packet
  handler-answer p rsvd body rest n request deadline fits six len_is room runs ack no_search found
        answers =
      let q = record p { protocol = 0; version = 0; payload = some (body ++ rest) } in
      let e0 : (n == 0) ≡ false = ground arith in
      handler-parsed (frame crc p rsvd body ++ rest) n q runs e0
        (parse_comm_stream-frame crc p body rest n rsvd fits six len_is room)
      ∙ handle_packet-answered q (record request { packet = q }) (erase p.seq_num m) ack no_search
          ((take_command_ack-Answers handle q m _).1 (request, deadline, found, answers, refl))

  -- Bytes that were received, no more of them than the buffer holds, never make the handler read
  -- outside of the buffer, whatever they are and whatever is pending or registered.
  pub handler_total :
      (buf : List ℕ) (n : ℕ)
      → All IsByte buf
      → n ≤ length buf
      → handler crc callbacks hs handle lidar_port (some buf) n m ≢ none
  unfolding handler
  handler_total buf n bytes inside = elim (Bool-cases callbacks.callback_operations_stopped) [
    | inl stopped ↦ rw (handler, stopped) (ground arith)
    | inr runs ↦ elim (Bool-cases (n == 0)) [
      | inl empty ↦ rw (handler, runs, empty) (ground arith)
      | inr full ↦ elim (Option-cases (parse_comm_stream crc (some buf) n)) [
        | inl fault ↦ absurd (parse_comm_stream_total crc buf n inside fault)
        | inr (none, e) ↦ rw (handler, runs, full, e) (ground arith)
        | inr (some packet, e) ↦
            let (rsvd, body, rest, is, six, len_is, room, data_is, _, _) =
              parse_comm_stream-IsFrame crc buf n packet bytes inside e in
            rw (handler-parsed buf n packet runs full e) (
              handle_packet_total handle packet (body ++ rest) data_is
                (omega (arith, length-append body rest, len_is)) hs lidar_port m)
      ]
    ]
  ]
