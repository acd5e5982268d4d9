-- ===== src/Sched/Start.antt =====
-- The first process of kernel/proc/scheduler.c: `scheduler_start` leaves it at the head of the queue.
use vault_os.Prelude.{ℕ, zero, suc, ◌+◌, ◌%◌, ◌^◌, List, ◌∷◌, some, true, ◌≡◌, refl, sym, arith}
use mathlib.Core.Path.{subst}
use vault_os.Sched.{
  Sched, ProcState, is_current, schedule_next, schedule, tick, start, start_at, set_state,
  stack_size,
}

-- The current process stands first in the queue.
pub record First (p : ℕ) (rest : List ℕ) (s : Sched) : Type 0 where
  pub queued : s.queue ≡ p ∷ rest
  pub runs : s.current ≡ some p

module _ (stack_base : ℕ → ℕ) where
  schedule-First : (p : ℕ) (rest : List ℕ) (s : Sched) → First p rest s → schedule stack_base s ≡ s
  unfolding schedule schedule_next is_current
  schedule-First p rest s f =
      subst (λ q. schedule_next stack_base q s ≡ s) (sym f.queued) (ground (arith, f.runs))

  tick-First :
      (p : ℕ) (rest : List ℕ) (s : Sched) → First p rest s → First p rest (tick stack_base s)
  unfolding tick
  tick-First p rest s f =
      let s' : Sched = record s { tick_count = (s.tick_count + 1) % 2 ^ 64 } in
      let same = schedule-First p rest s' (record { queued = f.queued; runs = f.runs }) in
      ground arith

  -- `n` ticks of the timer.
  unfoldable pub ticks : ℕ → Sched → Sched
  ticks zero s = s
  ticks (suc n) s = ticks n (tick stack_base s)

  ticks-First : (n p : ℕ) (rest : List ℕ) (s : Sched) → First p rest s → First p rest (ticks n s)
  unfolding ticks
  ticks-First zero p rest s f = f
  ticks-First (suc n) p rest s f = ticks-First n p rest (tick stack_base s) (tick-First p rest s f)

  start-First :
      (p : ℕ) (rest : List ℕ) (s : Sched)
      → s.queue ≡ p ∷ rest
      → (s' : Sched) × (start stack_base s ≡ some s') × First p rest s'
  unfolding start start_at
  start-First p rest s q =
      let s' : Sched = record s {
        states = set_state s.states p ProcState.running;
        current = some p;
        active = true;
        rsp0 = (stack_base p + stack_size) % 2 ^ 64;
      } in
      (
        s',
        subst (λ l. start_at stack_base l s ≡ some s') (sym q) refl,
        record { queued = q; runs = refl },
      )

  -- After `scheduler_start` on a queue of any length the first process is never preempted: however
  -- often the timer ticks, it stays the current one, and the queue stays as it was.
  pub start_never_preempts :
      (n p : ℕ) (rest : List ℕ) (s : Sched)
      → s.queue ≡ p ∷ rest
      → (s' : Sched) × (start stack_base s ≡ some s')
        × ((ticks n s').current ≡ some p)
        × ((ticks n s').queue ≡ p ∷ rest)
  start_never_preempts n p rest s q =
      let (s', run, f) = start-First p rest s q in
      let g = ticks-First n p rest s' f in (s', run, g.runs, g.queued)
