-- ===== src/Commands/Sending.antt =====
-- `GeneralCommandHandler::SendCommand` over a device's handler: what waits, and what is called back.
use livox_sdk.Base.{
  ℕ, ◌+◌, ◌≤◌, ◌≡◌, ◌≢◌, refl, arith, sym, ◌∙◌, Bool, true, false, Option, none, some, List, [],
  Bool-cases, inl, inr, ==_self, if◌then◌else◌, replicate,
}
use livox_sdk.Base.Map.{
  find, assign, erase, IsSorted, find-assign, find-erase, erase-assign, erase_absent, erase-Above,
}
use livox_sdk.Protocol.{CommPacket, PackOutput, Ret, pack}
use livox_sdk.Protocol.Frame.{frame}
use livox_sdk.Protocol.Pack.{pack-frame}
use livox_sdk.Base.{◌<◌, ◌++◌, length, drop, take, replicate, length-replicate}
use livox_sdk.Commands.Pending.{remove-erase, take_command_ack-Answers}
use livox_sdk.Commands.{
  Command, Commands, Transport, Sent, LivoxLidarStatus, Handlers, get_lidar_command_handler,
  send_command, device_send_command, add_command, remove_command, take_command_ack, get_seq,
  new_command, invoke, without_data, clear_data, is_null,
}

-- A sequence number fits the 16 bits that the frame has for it, is never 0, and is not the one before.
pub get_seq-range :
    (value : ℕ)
    → 1 ≤ value
    → value ≤ 65535
    → (1 ≤ get_seq value) × (get_seq value ≤ 65535) × (get_seq value ≢ value)
unfolding get_seq
get_seq-range value low high = ground arith

module _ (t : Transport) (hs : Handlers) (now last handle command_id : ℕ) (buffer : Option (List ℕ))
    (len : ℕ) (cb : Option ℕ) (m : Commands) where
  abbrev pub command : Command
  command = new_command t (get_seq last) command_id buffer len handle cb

  abbrev pub packed : Option PackOutput
  packed = pack t.crc (replicate 1401 0) 1400 0 command.packet

  abbrev pub later : Commands
  later = t.meanwhile (assign (get_seq last) (without_data command, now + 1000) m)

  abbrev pub sent_or_failed : Bool → Sent
  sent_or_failed true = record { status = LivoxLidarStatus.success; calls = []; commands = later }
  sent_or_failed false = record {
    status = LivoxLidarStatus.send_failed;
    calls =
        if (remove_command (get_seq last) later).0
        then invoke cb LivoxLidarStatus.send_failed handle none
        else [];
    commands = erase (get_seq last) (erase (get_seq last) later);
  }

  pub send_command-known :
      (type : ℕ) (out : PackOutput)
      → get_lidar_command_handler hs handle ≡ some type
      → packed ≡ some out
      → send_command t hs now last handle command_id buffer len cb m
        ≡ some (sent_or_failed (t.sends handle out.o_buf out.o_len))
  unfolding send_command add_command device_send_command
  send_command-known type out e p = elim (Bool-cases (t.sends handle out.o_buf out.o_len)) [
    | inl ok ↦ rw (send_command, e, p, ok) refl
    | inr bad ↦
        rw
          (
            send_command,
            e,
            p,
            bad,
            remove-erase (get_seq last) later,
            remove-erase (get_seq last) (erase (get_seq last) later),
          )
          refl
  ]

  -- A send that fails, of a command that was packed, to a device whose handler is known, whatever
  -- other threads did to the pending commands meanwhile, as long as they are still in order: it
  -- returns that it failed, its command waits no longer, and its callback is told, once and with no
  -- data, exactly if the command was still waiting.
  pub send_command_failed :
      (type : ℕ) (out : PackOutput)
      → get_lidar_command_handler hs handle ≡ some type
      → packed ≡ some out
      → t.sends handle out.o_buf out.o_len ≡ false
      → IsSorted later
      → (sent : Sent) × (send_command t hs now last handle command_id buffer len cb m ≡ some sent)
        × (sent.status ≡ LivoxLidarStatus.send_failed)
        × (find (get_seq last) sent.commands ≡ none)
        × (find (get_seq last) later ≡ none → sent.calls ≡ [])
        × ((v : Command × ℕ)
            → find (get_seq last) later ≡ some v
            → sent.calls ≡ invoke cb LivoxLidarStatus.send_failed handle none)
  unfolding remove_command
  send_command_failed type out e p bad sorted =
      let k = get_seq last in
      let sorted' = erase-Above 0 k later sorted in
      (
        sent_or_failed false,
        rw (send_command-known type out e p, bad) refl,
        refl,
        rw (find-erase k 0 (erase k later) k sorted', ==_self k) refl,
        λ gone. rw (remove_command, gone) refl,
        λ v waits. rw (remove_command, waits) refl,
      )

  -- If no other thread changes the pending commands in between, a send that fails, of a packed
  -- command to a device whose handler is known, under a number that is not in use, leaves the
  -- pending commands as they were and tells the callback.
  pub send_command_unchanged :
      (type : ℕ) (out : PackOutput)
      → get_lidar_command_handler hs handle ≡ some type
      → packed ≡ some out
      → t.sends handle out.o_buf out.o_len ≡ false
      → ((c : Commands) → t.meanwhile c ≡ c)
      → find (get_seq last) m ≡ none
      → send_command t hs now last handle command_id buffer len cb m
        ≡ some (record {
          status = LivoxLidarStatus.send_failed;
          calls = invoke cb LivoxLidarStatus.send_failed handle none;
          commands = m;
        })
  unfolding remove_command
  send_command_unchanged type out e p bad quiet fresh =
      let k = get_seq last in
      let entry : Command × ℕ = (without_data command, now + 1000) in
      let waits : find k (assign k entry m) ≡ some entry =
        rw (find-assign k entry m k, ==_self k) refl in
      rw
        (
          send_command-known type out e p,
          bad,
          quiet (assign k entry m),
          remove_command,
          waits,
          erase-assign k entry m fresh,
          erase_absent k m fresh,
        )
        refl

  clear_data-fields :
      (o : Option (List ℕ)) (c : Command)
      → ((clear_data o c).handle ≡ c.handle)
        × ((clear_data o c).packet.cmd_id ≡ c.packet.cmd_id)
        × ((clear_data o c).cb ≡ c.cb)
  clear_data-fields none c = (refl, refl, refl)
  clear_data-fields (some _) c = (refl, refl, refl)

  -- A command that was packed and sent, to a device whose handler is known, is waiting when its
  -- answer comes, if no other thread changes the pending commands in between: the send succeeds and
  -- calls nothing, and the first packet under its number, from the device it went to and for the
  -- same command, with data as long as the response if it controls the work mode, is taken as the
  -- answer for its callback.
  pub send_command-take :
      (type : ℕ) (out : PackOutput) (ack : CommPacket)
      → get_lidar_command_handler hs handle ≡ some type
      → packed ≡ some out
      → t.sends handle out.o_buf out.o_len ≡ true
      → ((c : Commands) → t.meanwhile c ≡ c)
      → ack.seq_num ≡ get_seq last
      → ack.cmd_id ≡ command_id
      → (ack.cmd_id ≡ 0x0100 → (is_null ack.payload ≡ false) × (3 ≤ ack.data_len))
      → (sent : Sent) × (r : Command × Commands) × (send_command t hs now last handle command_id
            buffer len cb m
          ≡ some sent)
        × (sent.status ≡ LivoxLidarStatus.success)
        × (sent.calls ≡ [])
        × (take_command_ack handle ack sent.commands ≡ some r)
        × (r.0.cb ≡ cb)
        × (r.0.packet ≡ ack)
  send_command-take type out ack e p ok quiet numbered named long =
      let k = get_seq last in
      let entry : Command × ℕ = (without_data command, now + 1000) in
      let waits : find ack.seq_num later ≡ some entry =
        rw (numbered, quiet (assign k entry m), find-assign k entry m k, ==_self k) refl in
      let (same_handle, same_id, same_cb) = clear_data-fields buffer command in
      (
        sent_or_failed true,
        (record (without_data command) { packet = ack }, erase ack.seq_num later),
        rw (send_command-known type out e p, ok) refl,
        refl,
        refl,
        (take_command_ack-Answers handle ack later _).1 (
          without_data command,
          now + 1000,
          waits,
          (same_handle, same_id ∙ sym named, long),
          refl,
        ),
        same_cb,
        refl,
      )

module _ (t : Transport) (hs : Handlers) (now last handle command_id : ℕ) (body more : List ℕ)
    (cb : Option ℕ) (m : Commands) where
  -- A command whose data is readable and at most 1376 bytes long, with a sequence number and an
  -- identifier of 16 bits, is packed: what is handed to the transport starts with the frame of the
  -- command, six zeroes in its reserved bytes, and the size is that of the frame.
  pub packed-frame :
      get_seq last < 65536
      → command_id < 65536
      → length body ≤ 1376
      → packed t hs now last handle command_id (some (body ++ more)) (length body) cb m
        ≡ some (record {
          ret = Ret.succeeded;
          o_buf =
              frame t.crc
                (command t hs now last handle command_id
                  (some (body ++ more))
                  (length body)
                  cb
                  m).packet
                (replicate 6 0)
                body
              ++ drop (length body + 24) (replicate 1401 0);
          o_len = length body + 24;
        })
  unfolding take drop
  packed-frame small_seq small_id small =
      pack-frame t.crc
        (command t hs now last handle command_id (some (body ++ more)) (length body) cb m).packet
        (replicate 1401 0) 0 1400 body more
        (record {
          is_sdk = refl;
          seq = small_seq;
          id = small_id;
          type = omega arith;
          sender = omega arith;
          len = omega arith;
        })
        refl refl (omega arith) (omega (arith, length-replicate {A = ℕ} 1401 0))
