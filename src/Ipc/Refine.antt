-- ===== src/Ipc/Refine.antt =====
-- The message queue of kernel/proc/ipc.c against a bounded list of messages.
use vault_os.Prelude.{
  ℕ, zero, suc, ◌+◌, ◌-◌, ◌%◌, ◌≤◌, ◌<◌, List, [], ◌∷◌, ◌++◌, Option, none, some, if◌then◌else◌,
  Bool, true, ◌==◌, ◌≡◌, refl, ap, ◌∙◌, sym, ltb, arith, length, take, drop, get_or, set,
  length-set, length-take, length-replicate, take-set_ge, take-suc, drop-set_lt, drop-eq-cons,
  get_or-set_self, append_assoc, append-nil, inl, inr, Bool-cases, ==→eq, ==→ne,
}
use mathlib.Core.Path.{subst}
use vault_os.ErrorCode.{ErrorCode}
use vault_os.Ipc.{
  Message, Ipc, queue_size, zero_message, init, send, shift, addressed, take_out, removed, scan,
  recv,
}

pub record IsValid (s : Ipc) : Type 0 where
  pub slots : length s.queue ≡ queue_size
  pub head_lt : s.head < queue_size
  pub tail_zero : s.tail ≡ 0

-- What the queue holds, oldest first.
abbrev pub contents : Ipc → List Message
contents s = take s.head s.queue

pub init-IsValid : IsValid init
unfolding init
init-IsValid = record {
  slots = length-replicate 64 zero_message;
  head_lt = omega arith;
  tail_zero = refl;
}

-- A message is for `pid` if it names it, or names 0.
unfoldable pub is_for : ℕ → Message → Bool
is_for pid m = if m.dst_pid == 0 then true else m.dst_pid == pid

addressed-is_for : (pid : ℕ) (m : Message) → addressed pid m ≡ is_for pid m
unfolding addressed is_for
addressed-is_for pid m = ground arith

-- The specification of `ipc_recv`: the first message for `pid`, and the others in order.
unfoldable pub deliver : ℕ → List Message → Option (Message × List Message)
deliver pid [] = none
deliver pid (m ∷ ms) =
    if is_for pid m
    then some (m, ms)
    else elim (deliver pid ms) [ none ↦ none | some (r, rest) ↦ some (r, m ∷ rest) ]

-- What `ipc_send` stores.
abbrev pub stamped : ℕ → ℕ → ℕ → Message → Message
stamped id now dst msg = record msg { msg_id = id; dst_pid = dst; timestamp = now }

-- The specification of `ipc_send`: at most 63 messages wait.
unfoldable pub enqueue : List Message → Message → ErrorCode × List Message
enqueue ms m = if ltb (length ms) 63 then (ErrorCode.ok, ms ++ m ∷ []) else (ErrorCode.full, ms)

-- On a valid queue `ipc_send` appends the stamped message if fewer than 63 are queued, and
-- otherwise reports `VOS_ERR_FULL` and leaves the messages as they are; the queue stays valid.
pub send_refines :
    (now dst : ℕ) (msg : Message) {s : Ipc}
    → IsValid s
    → let (e, s') = send now dst msg s in
      ((e, contents s') ≡ enqueue (contents s) (stamped s.next_msg_id now dst msg)) × IsValid s'
unfolding send enqueue
send_refines now dst msg {s} v =
    let m = stamped s.next_msg_id now dst msg in
    ground (
      arith,
      length-take s.head s.queue,
      take-suc s.head (set s.queue s.head m) zero_message,
      take-set_ge s.head s.head s.queue m,
      length-set s.queue s.head m,
      get_or-set_self s.queue s.head m zero_message,
    )

-- Copying a slot's right neighbour into it moves the gap by one.
move_gap :
    (q : List Message) (idx n : ℕ)
    → suc idx < length q
    → let q1 = set q idx (get_or q (suc idx) zero_message) in
      take (suc idx) q1 ++ take n (drop (suc (suc idx)) q1)
      ≡ take idx q ++ take (suc n) (drop (suc idx) q)
move_gap q idx n h =
    let v = get_or q (suc idx) zero_message in
    rw
      (
        take-suc idx (set q idx v) zero_message (rw length-set (omega arith)),
        take-set_ge idx idx q v (omega arith),
        get_or-set_self q idx v zero_message (omega arith),
        drop-set_lt (suc (suc idx)) idx q v (omega arith),
        drop-eq-cons (suc idx) q zero_message h,
      )
      (append_assoc (take idx q) (v ∷ []) (take n (drop (suc (suc idx)) q)))

-- The loop's result: the slots from `idx` on have moved down by one.
abbrev Closes : Option (List Message) → ℕ → ℕ → List Message → Type 0
Closes r head idx q =
    (q' : List Message) × (r ≡ some q')
    × (length q' ≡ 64)
    × (take (head - 1) q' ≡ take idx q ++ take (head - 1 - idx) (drop (suc idx) q))

Closes-last :
    (head idx : ℕ) (q : List Message) → length q ≡ 64 → suc idx ≡ head → Closes (some q) head idx q
Closes-last head idx q hl e =
    let last : head - 1 ≡ idx = omega arith in
    let gone : idx - idx ≡ 0 = omega arith in
    (q, refl, hl, rw (last, gone) (sym (append-nil (take idx q))))

Closes-next :
    (r : Option (List Message)) (head idx : ℕ) (q : List Message)
    → head < 64
    → suc idx < head
    → length q ≡ 64
    → Closes r head (suc idx) (set q idx (get_or q (suc idx) zero_message))
    → Closes r head idx q
Closes-next r head idx q hh hi hl (q', run, len, held) =
    let more : suc (head - 1 - suc idx) ≡ head - 1 - idx = omega arith in
    (
      q',
      run,
      len,
      held
          ∙ move_gap q idx (head - 1 - suc idx) (omega arith)
          ∙ ap (λ k. take idx q ++ take k (drop (suc idx) q)) more,
    )

-- The inner loop ends, and closes the gap at `idx`.
shift_lem :
    (fuel head idx : ℕ) (q : List Message)
    → head < 64
    → idx < head
    → length q ≡ 64
    → head ≤ fuel + idx
    → Closes (shift fuel q head idx (suc idx)) head idx q
unfolding shift
shift_lem zero head idx q hh hi hl hf = absurd (omega arith)
shift_lem (suc fuel) head idx q hh hi hl hf = elim (Bool-cases (suc idx == head)) [
  | inl e ↦ rw e (Closes-last head idx q hl (==→eq (suc idx) head e))
  | inr e ↦
      let ne = ==→ne (suc idx) head e in
      let q1 = set q idx (get_or q (suc idx) zero_message) in
      let next : (suc idx + 1) % 64 ≡ suc (suc idx) = omega arith in
      rw (e, next)
        (Closes-next (shift fuel q1 head (suc idx) (suc (suc idx))) head idx q hh (omega arith) hl
          (shift_lem fuel head (suc idx) q1 hh (omega arith) (rw length-set hl) (omega arith)))
]

-- What `ipc_recv` is to do, from the specification's answer on the messages not yet passed:
-- `passed` are those before them.
abbrev pub Delivered :
    Ipc
    → List Message
    → Option (Message × List Message)
    → Option (ErrorCode × Option Message × Ipc)
    → Type 0
Delivered s passed none r = r ≡ some (ErrorCode.notfound, none, s)
Delivered s passed (some (m, ms)) r =
    (s' : Ipc) × (r ≡ some (ErrorCode.ok, some m, s'))
    × (contents s' ≡ passed ++ ms)
    × (s'.next_msg_id ≡ s.next_msg_id)
    × IsValid s'

removed_lem :
    (s : Ipc) (idx : ℕ) (r : Option (List Message))
    → IsValid s
    → idx < s.head
    → Closes r s.head idx s.queue
    → Delivered s
        (take idx s.queue)
        (some (get_or s.queue idx zero_message, take (s.head - 1 - idx) (drop (suc idx) s.queue)))
        (removed s idx r)
unfolding removed
removed_lem s idx r v h (q', run, len, held) =
    let head_eq : (s.head + 64 - 1) % 64 ≡ s.head - 1 = ground arith in
    (
      record s { queue = q'; head = (s.head + 64 - 1) % 64 },
      rw run refl,
      rw head_eq held,
      refl,
      record { slots = len; head_lt = omega arith; tail_zero = v.tail_zero },
    )

take_out_lem :
    (s : Ipc) (idx : ℕ)
    → IsValid s
    → idx < s.head
    → Delivered s
        (take idx s.queue)
        (some (get_or s.queue idx zero_message, take (s.head - 1 - idx) (drop (suc idx) s.queue)))
        (take_out s idx)
unfolding take_out
take_out_lem s idx v h =
    let next : (idx + 1) % 64 ≡ suc idx = omega arith in
    removed_lem s idx (shift 64 s.queue s.head idx ((idx + 1) % 64)) v h
      (rw next (shift_lem 64 s.head idx s.queue v.head_lt h v.slots (omega arith)))

Delivered-skip :
    (s : Ipc) (passed : List Message) (m : Message) (o : Option (Message × List Message))
    (r : Option (ErrorCode × Option Message × Ipc))
    → Delivered s (passed ++ m ∷ []) o r
    → Delivered s passed (elim o [ none ↦ none | some (x, rest) ↦ some (x, m ∷ rest) ]) r
Delivered-skip s passed m none r h = h
Delivered-skip s passed m (some (x, rest)) r (s', run, held, id, v) =
    (s', run, held ∙ append_assoc passed (m ∷ []) rest, id, v)

-- One round of the outer loop, from what its two ways on do.
Delivered-round :
    (s : Ipc) (passed : List Message) (m : Message) (pid : ℕ) (ms : List Message)
    (found rest : Option (ErrorCode × Option Message × Ipc))
    → Delivered s passed (some (m, ms)) found
    → Delivered s (passed ++ m ∷ []) (deliver pid ms) rest
    → Delivered s passed (deliver pid (m ∷ ms)) (if addressed pid m then found else rest)
unfolding deliver
Delivered-round s passed m pid ms found rest f r = elim (Bool-cases (is_for pid m)) [
  | inl e ↦ rw (addressed-is_for pid m, e) f
  | inr e ↦ rw (addressed-is_for pid m, e) (Delivered-skip s passed m (deliver pid ms) rest r)
]

-- The outer loop, from slot `idx` on.
scan_lem :
    (fuel pid : ℕ) (s : Ipc) (idx : ℕ)
    → IsValid s
    → idx ≤ s.head
    → s.head < fuel + idx
    → Delivered s
        (take idx s.queue)
        (deliver pid (take (s.head - idx) (drop idx s.queue)))
        (scan fuel pid s idx)
unfolding scan deliver
scan_lem zero pid s idx v hi hf = absurd (omega arith)
scan_lem (suc fuel) pid s idx v hi hf = elim (Bool-cases (idx == s.head)) [
  | inl e ↦ let none_left : s.head - idx ≡ 0 = ground arith in rw (e, none_left) refl
  | inr e ↦
      let ne = ==→ne idx s.head e in
      let next : (idx + 1) % 64 ≡ suc idx = omega arith in
      let more : s.head - idx ≡ suc (s.head - 1 - idx) = omega arith in
      let later : s.head - 1 - idx ≡ s.head - suc idx = omega arith in
      rw (e, more, drop-eq-cons idx s.queue zero_message (omega arith), next)
        (Delivered-round s (take idx s.queue) (get_or s.queue idx zero_message) pid
          (take (s.head - 1 - idx) (drop (suc idx) s.queue)) (take_out s idx)
          (scan fuel pid s (suc idx)) (take_out_lem s idx v (omega arith))
          (rw (later, ← take-suc idx s.queue zero_message (omega arith))
            (scan_lem fuel pid s (suc idx) v (omega arith) (omega arith))))
]

-- On a valid queue `ipc_recv` ends. If no queued message has `dst_pid` equal to `pid` or to 0, it
-- reports `VOS_ERR_NOTFOUND` and changes nothing; otherwise it hands out the oldest such message,
-- keeps the others in order, and the queue stays valid.
pub recv_refines :
    (pid : ℕ) {s : Ipc} → IsValid s → Delivered s [] (deliver pid (contents s)) (recv pid s)
unfolding recv
recv_refines pid {s} v =
    let all : s.head - 0 ≡ s.head = omega arith in
    subst (λ t. Delivered s [] (deliver pid (contents s)) (scan 64 pid s t)) (sym v.tail_zero)
      (subst (λ k. Delivered s [] (deliver pid (take k s.queue)) (scan 64 pid s 0)) all
        (scan_lem 64 pid s 0 v (omega arith) (omega arith)))
