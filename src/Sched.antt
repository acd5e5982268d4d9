-- ===== src/Sched.antt =====
-- kernel/proc/scheduler.c: the round-robin scheduler. A process is named by a number; the ready
-- queue is the list of the processes whose `sched_node` is linked into it, each at most once.
-- `stack_base` is the field of that name. `context_switch` returns in the process switched to, so
-- the state after `schedule` is the one that process sees.
pub mod Turns
pub mod Start
use vault_os.Prelude.{
  ℕ, zero, suc, ◌+◌, ◌*◌, ◌%◌, ◌^◌, List, [], ◌∷◌, ◌++◌, Option, none, some, Bool, true, false, not,
  ◌&&◌, if◌then◌else◌, ◌==◌,
}

-- `proc_state_t`
pub data ProcState : Type 0 where
  ready running blocked terminated : ProcState

-- The static variables of the file, the states of the processes, and the TSS field `rsp0`.
pub record Sched : Type 0 where
  pub queue : List ℕ
  pub current : Option ℕ
  pub tick_count : ℕ
  pub active : Bool
  pub states : ℕ → ProcState
  pub rsp0 : ℕ

-- `TIMESLICE`, `PROC_STACK_SIZE`
abbrev pub timeslice : ℕ
timeslice = 10

abbrev pub stack_size : ℕ
stack_size = 64 * 1024

unfoldable pub is_running : ProcState → Bool
is_running ProcState.ready = false
is_running ProcState.running = true
is_running ProcState.blocked = false
is_running ProcState.terminated = false

-- `proc->state = st`
unfoldable pub set_state : (ℕ → ProcState) → ℕ → ProcState → ℕ → ProcState
set_state states p st q = if q == p then st else states q

-- `list_del` on the node of a process, which is linked at most once.
unfoldable pub unlink : ℕ → List ℕ → List ℕ
unlink p [] = []
unlink p (q ∷ qs) = if q == p then qs else q ∷ unlink p qs

-- `list_add_tail`
unfoldable pub link_tail : ℕ → List ℕ → List ℕ
link_tail p qs = qs ++ (p ∷ [])

unfoldable pub is_current : Option ℕ → ℕ → Bool
is_current none p = false
is_current (some q) p = q == p

-- `scheduler_init`
unfoldable pub init : Sched → Sched
init s = record s { queue = []; current = none; tick_count = 0; active = false }

-- `scheduler_add`, `scheduler_remove`, `scheduler_unblock`
unfoldable pub add : ℕ → Sched → Sched
add p s = record s { states = set_state s.states p ProcState.ready; queue = link_tail p s.queue }

unfoldable pub remove : ℕ → Sched → Sched
remove p s = record s { queue = unlink p s.queue }

unfoldable pub unblock : ℕ → Sched → Sched
unblock p s = add p (record s { states = set_state s.states p ProcState.ready })

-- The part of `schedule` that moves a running process to the back of the queue.
unfoldable pub requeue : Option ℕ → Sched → Sched
requeue none s = s
requeue (some prev) s =
    if is_running (s.states prev)
    then record s {
      states = set_state s.states prev ProcState.ready;
      queue = link_tail prev (unlink prev s.queue);
    }
    else s

module _ (stack_base : ℕ → ℕ) where
  -- The part that makes `next` the current process.
  unfoldable pub switch_to : ℕ → Sched → Sched
  switch_to next s = record s {
    queue = link_tail next (unlink next s.queue);
    states = set_state s.states next ProcState.running;
    current = some next;
    rsp0 = (stack_base next + stack_size) % 2 ^ 64;
  }

  unfoldable pub schedule_next : List ℕ → Sched → Sched
  schedule_next [] s = s
  schedule_next (next ∷ rest) s =
      if not s.active
      then s
      else if is_current s.current next
      then s
      else switch_to next (requeue s.current s)

  -- `schedule`, which `scheduler_yield` calls
  unfoldable pub schedule : Sched → Sched
  schedule s = schedule_next s.queue s

  -- `scheduler_tick`
  unfoldable pub tick : Sched → Sched
  tick s =
      let s' = record s { tick_count = (s.tick_count + 1) % 2 ^ 64 } in
      if not s.active then s' else if s'.tick_count % timeslice == 0 then schedule s' else s'

  -- `scheduler_block`
  unfoldable pub block : ℕ → Sched → Sched
  block p s =
      let s' = remove p (record s { states = set_state s.states p ProcState.blocked }) in
      if is_current s'.current p then schedule s' else s'

  -- `scheduler_start`, up to the jump into the first process; `none` is the failed assertion.
  unfoldable pub start_at : List ℕ → Sched → Option Sched
  start_at [] s = none
  start_at (first ∷ rest) s = some (record s {
    states = set_state s.states first ProcState.running;
    current = some first;
    active = true;
    rsp0 = (stack_base first + stack_size) % 2 ^ 64;
  })

  unfoldable pub start : Sched → Option Sched
  start s = start_at s.queue s
