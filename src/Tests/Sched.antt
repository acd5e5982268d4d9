-- ===== src/Tests/Sched.antt =====
-- kernel/proc/scheduler.c with three processes.
use vault_os.Prelude.{ℕ, [], ◌∷◌, some, true, false, ◌*◌, ◌≡◌, refl, arith, length, suc}
use vault_os.Sched.{Sched, ProcState, start}
use vault_os.Sched.Turns.{Turn, rounds, rounds-current}
use vault_os.Sched.Start.{ticks, start_never_preempts}

abbrev stacks : ℕ → ℕ
stacks p = p * 65536

abbrev waiting : Sched
waiting = record {
  queue = 1 ∷ 2 ∷ 3 ∷ [];
  current = some 1;
  tick_count = 0;
  active = false;
  states = λ p. ProcState.ready;
  rsp0 = 0;
}

-- Process 1 runs, and 2 and 3 stand before it.
abbrev turning : Sched
turning = record waiting { queue = 2 ∷ 3 ∷ 1 ∷ []; active = true; states = λ p. ProcState.running }

turning-Turn : Turn (2 ∷ 3 ∷ []) 1 turning
turning-Turn = record {
  queued = refl;
  runs = refl;
  running = refl;
  on = refl;
  distinct = ((omega arith, (omega arith, tt)), ((omega arith, tt), (tt, tt)));
}

rounds-current_example : (rounds stacks (suc (length {A = ℕ} (2 ∷ []))) turning).current ≡ some 3
rounds-current_example = rounds-current stacks (2 ∷ []) 3 [] 1 turning turning-Turn

start_never_preempts_example :
    (s' : Sched) × (start stacks waiting ≡ some s')
    × ((ticks stacks 100 s').current ≡ some 1)
    × ((ticks stacks 100 s').queue ≡ 1 ∷ 2 ∷ 3 ∷ [])
start_never_preempts_example = start_never_preempts stacks 100 1 (2 ∷ 3 ∷ []) waiting refl
