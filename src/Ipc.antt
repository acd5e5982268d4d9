-- ===== src/Ipc.antt =====
-- kernel/proc/ipc.c and kernel/proc/ipc.h: the kernel's one message queue.
pub mod Refine
use vault_os.Prelude.{
  ℕ, zero, suc, ◌+◌, ◌-◌, ◌%◌, ◌^◌, List, [], ◌∷◌, Option, none, some, Bool, ◌||◌, if◌then◌else◌,
  ◌==◌, get_or, set, replicate,
}
use vault_os.ErrorCode.{ErrorCode}

-- `ipc_message_t`
pub record Message : Type 0 where
  pub msg_id : ℕ
  pub src_pid : ℕ
  pub dst_pid : ℕ
  pub type : ℕ
  pub payload : List ℕ
  pub payload_size : ℕ
  pub timestamp : ℕ

-- `IPC_QUEUE_SIZE`
abbrev pub queue_size : ℕ
queue_size = 64

-- A message of zero bytes, as `memset` leaves it.
abbrev pub zero_message : Message
zero_message = record {
  msg_id = 0;
  src_pid = 0;
  dst_pid = 0;
  type = 0;
  payload = replicate 512 0;
  payload_size = 0;
  timestamp = 0;
}

-- The static variables of the file.
pub record Ipc : Type 0 where
  pub queue : List Message
  pub head : ℕ
  pub tail : ℕ
  pub next_msg_id : ℕ

pub init : Ipc
init = record { queue = replicate queue_size zero_message; head = 0; tail = 0; next_msg_id = 1 }

-- `ipc_send`; `now` is what `pit_get_ticks` returns.
pub send : ℕ → ℕ → Message → Ipc → ErrorCode × Ipc
send now dst_pid msg s =
    let next = (s.head + 1) % queue_size in
    if next == s.tail then (ErrorCode.full, s) else (
      ErrorCode.ok,
      record s {
        queue =
            set s.queue s.head
              (record msg { msg_id = s.next_msg_id; dst_pid = dst_pid; timestamp = now });
        head = next;
        next_msg_id = (s.next_msg_id + 1) % 2 ^ 64;
      },
    )

-- The inner loop of `ipc_recv`: it moves each later message down by one slot.
pub shift : ℕ → List Message → ℕ → ℕ → ℕ → Option (List Message)
shift zero queue head idx next = none
shift (suc fuel) queue head idx next =
    let rest =
      shift fuel (set queue idx (get_or queue next zero_message)) head next
        ((next + 1) % queue_size) in
    if next == head then some queue else rest

-- The test of `ipc_recv`: addressed to this pid, or to pid 0.
pub addressed : ℕ → Message → Bool
addressed pid msg = msg.dst_pid == pid || msg.dst_pid == 0

-- The branch of `ipc_recv` that has found a message at `idx`, once the later ones are moved.
pub removed : Ipc → ℕ → Option (List Message) → Option (ErrorCode × Option Message × Ipc)
removed s idx none = none
removed s idx (some queue) = some (
  ErrorCode.ok,
  some (get_or s.queue idx zero_message),
  record s { queue = queue; head = (s.head + queue_size - 1) % queue_size },
)

pub take_out : Ipc → ℕ → Option (ErrorCode × Option Message × Ipc)
take_out s idx = removed s idx (shift queue_size s.queue s.head idx ((idx + 1) % queue_size))

-- The outer loop of `ipc_recv`.
pub scan : ℕ → ℕ → Ipc → ℕ → Option (ErrorCode × Option Message × Ipc)
scan zero pid s idx = none
scan (suc fuel) pid s idx =
    let rest = scan fuel pid s ((idx + 1) % queue_size) in
    if idx == s.head
    then some (ErrorCode.notfound, none, s)
    else if addressed pid (get_or s.queue idx zero_message)
    then take_out s idx
    else rest

-- `ipc_recv`: the status, what it stores through `msg`, and the new state. `none` is no result:
-- a loop has used up its fuel, one round for each slot of the queue.
pub recv : ℕ → Ipc → Option (ErrorCode × Option Message × Ipc)
recv pid s = scan queue_size pid s s.tail
