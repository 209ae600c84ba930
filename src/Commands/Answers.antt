-- ===== src/Commands/Answers.antt =====
-- A command is reported at most once, whatever the order of answers, timeouts and failed sends.
use livox_sdk.Base.{
  ℕ, suc, ◌+◌, ◌≤◌, ◌≡◌, ◌≢◌, refl, arith, Bool, true, false, Option, none, some, List, [], ◌∷◌,
  ◌++◌, All, Bool-cases, Option-cases, inl, inr, ltb, ◌==◌, ==_self, ==_iff, if◌then◌else◌,
}
use livox_sdk.Base.Map.{
  Above, IsSorted, find, erase, find_below, find-erase, find-assign, erase_absent,
}
use livox_sdk.Protocol.{CommPacket}
use livox_sdk.Commands.{Command, Commands, expire, take_command_ack, remove_command, add_command}
use livox_sdk.Commands.Pending.{
  Waiting, IsValid, take_command_ack-Answers, add_command-IsValid, erase-IsValid,
}
use livox_sdk.Commands.Expiry.{overdue, kept, expire-kept, kept-Above, kept-All}

-- An answer that was taken from valid pending commands is not taken again, from whatever device and
-- with whatever packet under that number; `RemoveCommand` finds nothing to remove under that number;
-- and all other commands go on waiting.
pub take_command_ack-once :
    (handle : ℕ) (packet : CommPacket) (m : Commands) (r : Command × Commands)
    → IsValid m
    → take_command_ack handle packet m ≡ some r
    → ((from : ℕ) (again : CommPacket)
        → again.seq_num ≡ packet.seq_num
        → take_command_ack from again r.1 ≡ none)
      × ((remove_command packet.seq_num r.1).0 ≡ false)
      × ((j : ℕ) → j ≢ packet.seq_num → find j r.1 ≡ find j m)
unfolding take_command_ack remove_command
take_command_ack-once handle packet m r (sorted, all) e =
    let (request, deadline, found, a, is) = (take_command_ack-Answers handle packet m r).0 e in
    let k = packet.seq_num in
    let gone : find k (erase k m) ≡ none = rw (find-erase k 0 m k sorted, ==_self k) refl in
    rw is (
      λ from again same. rw (same, gone) refl,
      rw (remove_command, gone) refl,
      λ j other.
          let differs : (k == j) ≡ false = ground (arith, other) in
          rw (find-erase k 0 m j sorted, differs) refl,
    )

-- What happens to the pending commands.
pub data Operation : Type 0 where
  add : ℕ → Command → Operation
  take : ℕ → CommPacket → Operation
  fail : ℕ → Operation
  expire_all : ℕ → Operation

-- The sequence numbers that an operation reports to the callbacks, and the commands after it.
abbrev pub answer : ℕ → Commands → Option (Command × Commands) → List ℕ × Commands
answer seq m none = ([], m)
answer seq m (some r) = (seq ∷ [], r.1)

abbrev pub failed : ℕ → Bool × Commands → List ℕ × Commands
failed seq (true, m) = (seq ∷ [], m)
failed seq (false, m) = ([], m)

abbrev pub numbers : List Command → List ℕ
numbers [] = []
numbers (c ∷ cs) = c.packet.seq_num ∷ numbers cs

abbrev pub step : Operation → Commands → List ℕ × Commands
step (add now c) m = ([], add_command now c m)
step (take handle packet) m = answer packet.seq_num m (take_command_ack handle packet m)
step (fail seq) m = failed seq (remove_command seq m)
step (expire_all now) m = (numbers (expire now m m).0, (expire now m m).1)

abbrev pub count : ℕ → List ℕ → ℕ
count k [] = 0
count k (j ∷ js) = (if j == k then 1 else 0) + count k js

abbrev pub waiting : Option (Command × ℕ) → ℕ
waiting none = 0
waiting (some _) = 1

-- How often the number was given to a command that was added.
abbrev pub added : ℕ → Operation → ℕ
added k (add now c) = if c.packet.seq_num == k then 1 else 0
added k (take _ _) = 0
added k (fail _) = 0
added k (expire_all _) = 0

abbrev Reported : ℕ → Operation → Commands → Type 0
Reported k op m =
    (IsValid (step op m).1)
    × (count k (step op m).0 + waiting (find k (step op m).1) ≤ added k op + waiting (find k m))

overdue-count :
    (now k n : ℕ) (m : Commands)
    → Above n m
    → All Waiting m
    → count k (numbers (overdue now m)) + waiting (find k (kept now m)) ≤ waiting (find k m)
unfolding find
overdue-count now k n [] a all = omega arith
overdue-count now k n ((j, (c, deadline)) ∷ m) a all =
    let rest = overdue-count now k (suc j) m a.1 all.1 in
    elim (Bool-cases (j == k)) [
      | inl same ↦
          let none_left : find k m ≡ none = find_below (suc j) m k a.1 (ground (arith, same)) in
          let rest' : count k (numbers (overdue now m)) + waiting (find k (kept now m)) ≤ 0 =
            rw none_left at rest in
          elim (Bool-cases (ltb deadline now)) [
            | inl due ↦ rw (due, all.0.0, same) (omega (arith, rest'))
            | inr waits ↦ rw (waits, same) (omega (arith, rest'))
          ]
      | inr other ↦ elim (Bool-cases (ltb deadline now)) [
        | inl due ↦ rw (due, all.0.0, other) (omega (arith, rest))
        | inr waits ↦ rw (waits, other) (omega (arith, rest))
      ]
    ]

-- One command that is taken out of the map is reported once, and was there.
erased-count :
    (k seq : ℕ) (m : Commands) (v : Command × ℕ)
    → IsSorted m
    → find seq m ≡ some v
    → count k (seq ∷ []) + waiting (find k (erase seq m)) ≤ waiting (find k m)
erased-count k seq m v sorted found = elim (Bool-cases (seq == k)) [
  | inl same ↦
      let at_k : find k m ≡ some v = rw ((==_iff seq k).0 same) at found in
      rw (find-erase seq 0 m k sorted, same, at_k) (omega arith)
  | inr other ↦ rw (find-erase seq 0 m k sorted, other) (omega arith)
]

added-count :
    (k now : ℕ) (c : Command) (m : Commands)
    → waiting (find k (add_command now c m)) ≤ added k (add now c) + waiting (find k m)
unfolding add_command
added-count k now c m = elim (Bool-cases (c.packet.cmd_type == 1)) [
  | inl ack ↦ rw ack (omega arith)
  | inr command ↦ elim (Bool-cases (c.packet.seq_num == k)) [
    | inl same ↦ rw (command, find-assign c.packet.seq_num _ m k, same) (omega arith)
    | inr other ↦ rw (command, find-assign c.packet.seq_num _ m k, other) (omega arith)
  ]
]

reported : (k : ℕ) (op : Operation) (m : Commands) → IsValid m → Reported k op m
unfolding remove_command
reported k (add now c) m v = (add_command-IsValid now c m v, omega (arith, added-count k now c m))
reported k (take handle packet) m v = elim (Option-cases (take_command_ack handle packet m)) [
  | inl e ↦ rw e (v, omega arith)
  | inr (r, e) ↦
      let (request, deadline, found, _, is) = (take_command_ack-Answers handle packet m r).0 e in
      rw (e, is)
        (
          erase-IsValid packet.seq_num m v,
          omega (arith, erased-count k packet.seq_num m (request, deadline) v.0 found),
        )
]
reported k (fail seq) m v = elim (Option-cases (find seq m)) [
  | inl e ↦ rw (remove_command, e) (erase-IsValid seq m v, rw (erase_absent seq m e) (omega arith))
  | inr (w, e) ↦
      rw (remove_command, e) (erase-IsValid seq m v, omega (arith, erased-count k seq m w v.0 e))
]
reported k (expire_all now) m (sorted, all) = rw (expire-kept now 0 m sorted) (
  (kept-Above now 0 m sorted, kept-All now Waiting m all),
  omega (arith, overdue-count now k 0 m sorted all),
)

-- A run of operations: all that they report, and the commands in the end.
abbrev pub run : List Operation → Commands → List ℕ × Commands
run [] m = ([], m)
run (op ∷ ops) m = ((step op m).0 ++ (run ops (step op m).1).0, (run ops (step op m).1).1)

abbrev pub all_added : ℕ → List Operation → ℕ
all_added k [] = 0
all_added k (op ∷ ops) = added k op + all_added k ops

count-append : (k : ℕ) (xs ys : List ℕ) → count k (xs ++ ys) ≡ count k xs + count k ys
count-append k [] ys = omega arith
count-append k (x ∷ xs) ys = omega (arith, count-append k xs ys)

-- However commands, answers, failed sends and timeouts follow each other, from valid pending
-- commands on: the commands stay valid, and the callbacks of a sequence number are told of no more
-- than the commands that were added under it and the one that waited at the start, less the one
-- that still waits in the end.
pub run-reports :
    (k : ℕ) (ops : List Operation) (m : Commands)
    → IsValid m
    → IsValid (run ops m).1
      × (count k (run ops m).0 + waiting (find k (run ops m).1)
          ≤ all_added k ops + waiting (find k m))
run-reports k [] m v = (v, omega arith)
run-reports k (op ∷ ops) m v =
    let (valid, once) = reported k op m v in
    let (end, rest) = run-reports k ops (step op m).1 valid in
    (end, omega (arith, once, rest, count-append k (step op m).0 (run ops (step op m).1).0))
