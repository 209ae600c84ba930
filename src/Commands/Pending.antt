-- ===== src/Commands/Pending.antt =====
-- The invariant of the pending commands, and that every operation on them keeps it.
use livox_sdk.Base.{
  ◌↔◌, not, ◌&&◌, ◌||◌, ltb, ◌≤◌, sym, ℕ, ◌+◌, ◌≡◌, ◌≢◌, refl, arith, false, Option, none, some,
  List, All, Bool-cases, Option-cases, inl, inr, ◌==◌, if◌then◌else◌, some_bind,
}
use livox_sdk.Base.Map.{IsSorted, find, erase, assign-Above, erase-Above, assign-All, erase-All}
use livox_sdk.Protocol.{CommPacket}
use livox_sdk.Commands.{
  Command, Commands, add_command, remove_command, take_command_ack, clear_data, is_null,
}

-- A pending command is no answer, holds no data, and stands under its own sequence number.
abbrev pub Waiting : ℕ × (Command × ℕ) → Type 0
Waiting (k, (c, deadline)) =
    (c.packet.seq_num ≡ k) × (c.packet.payload ≡ none) × (c.packet.cmd_type ≢ 1)

abbrev pub IsValid : Commands → Type 0
IsValid m = IsSorted m × All Waiting m

clear_data-Waiting :
    (o : Option (List ℕ)) (c : Command) (deadline : ℕ)
    → o ≡ c.packet.payload
    → c.packet.cmd_type ≢ 1
    → Waiting (c.packet.seq_num, (clear_data o c, deadline))
clear_data-Waiting none c deadline e h = (refl, sym e, h)
clear_data-Waiting (some bs) c deadline e h = (refl, refl, h)

-- Adding a command keeps the pending commands valid: in the order of their sequence numbers, each
-- under its own, none an answer, and none with data, whatever data the command had.
pub add_command-IsValid :
    (now : ℕ) (c : Command) (m : Commands) → IsValid m → IsValid (add_command now c m)
unfolding add_command
add_command-IsValid now c m (sorted, all) = elim (Bool-cases (c.packet.cmd_type == 1)) [
  | inl ack ↦ rw ack (sorted, all)
  | inr command ↦ rw command (
    assign-Above 0 c.packet.seq_num (clear_data c.packet.payload c, now + c.time_out) m
        (omega arith) sorted,
    assign-All Waiting c.packet.seq_num (clear_data c.packet.payload c, now + c.time_out) m
        (clear_data-Waiting c.packet.payload c (now + c.time_out) refl (ground (arith, command)))
        all,
  )
]

pub erase-IsValid : (k : ℕ) (m : Commands) → IsValid m → IsValid (erase k m)
erase-IsValid k m (sorted, all) = (erase-Above 0 k m sorted, erase-All Waiting k m all)

pub remove-erase : (k : ℕ) (m : Commands) → (remove_command k m).1 ≡ erase k m
unfolding remove_command
remove-erase k m = elim (Option-cases (find k m)) [
  | inl e ↦ rw (remove_command, e) refl
  | inr (_, e) ↦ rw (remove_command, e) refl
]

-- The answer is for this request: from the same device, for the same command, and, for the control
-- of the work mode, with data as long as its response.
abbrev pub Answers : ℕ → CommPacket → Command → Type 0
Answers handle packet request =
    (request.handle ≡ handle)
    × (request.packet.cmd_id ≡ packet.cmd_id)
    × (packet.cmd_id ≡ 0x0100 → (is_null packet.payload ≡ false) × (3 ≤ packet.data_len))

module _ {A : Type 0} (handle : ℕ) (packet : CommPacket) (request : Command) (x : A) where
  abbrev checked : Option A
  checked =
      if not (request.handle == handle) || not (request.packet.cmd_id == packet.cmd_id)
      then none
      else if request.packet.cmd_id == 0x0100 && (is_null packet.payload || ltb packet.data_len 3)
      then none
      else some x

  admitted : (r : A) → checked ≡ some r → Answers handle packet request × (r ≡ x)
  admitted r e = ground arith

  admits : Answers handle packet request → checked ≡ some x
  admits a = ground arith

-- An answer is taken exactly when a request waits under its sequence number that it is an answer to.
pub take_command_ack-Answers :
    (handle : ℕ) (packet : CommPacket) (m : Commands) (r : Command × Commands)
    → (take_command_ack handle packet m ≡ some r) ↔ (
        (request : Command) × (deadline : ℕ) × (find packet.seq_num m ≡ some (request, deadline))
        × Answers handle packet request
        × (r ≡ (record request { packet = packet }, erase packet.seq_num m)))
unfolding take_command_ack
take_command_ack-Answers handle packet m r = (
  λ e.
      let ((request, deadline), found, rest) = some_bind (find packet.seq_num m) _ r e in
      let (a, is) =
        admitted handle packet request (record request { packet = packet }, erase packet.seq_num m)
          r rest in
      (request, deadline, found, a, is),
  λ h.
      let (request, deadline, found, a, is) = h in
      rw (found, is) (admits handle packet request _ a),
)
