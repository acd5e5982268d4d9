-- ===== src/Sched/Turns.antt =====
-- The turns of kernel/proc/scheduler.c: once the running process stands last in the ready queue,
-- every process of the queue gets its turn in order.
use vault_os.Prelude.{
  ℕ, zero, suc, List, [], ◌∷◌, ◌++◌, some, true, ◌≡◌, ◌≢◌, refl, ap, sym, ◌∙◌, arith, length,
  append_assoc, eq→==, ne→==,
}
use mathlib.Core.Path.{subst}
use vault_os.Sched.{
  Sched, ProcState, is_running, set_state, unlink, link_tail, is_current, requeue, switch_to,
  schedule_next, schedule,
}

abbrev pub Absent : ℕ → List ℕ → Type 0
Absent p [] = Unit
Absent p (q ∷ qs) = (q ≢ p) × Absent p qs

-- No process is queued twice.
abbrev pub Distinct : List ℕ → Type 0
Distinct [] = Unit
Distinct (q ∷ qs) = Absent q qs × Distinct qs

Absent-append : (p : ℕ) (xs ys : List ℕ) → Absent p xs → Absent p ys → Absent p (xs ++ ys)
Absent-append p [] ys a b = b
Absent-append p (x ∷ xs) ys a b = (a.0, Absent-append p xs ys a.1 b)

Absent-last : (p c : ℕ) (xs : List ℕ) → Absent p (xs ++ (c ∷ [])) → (c ≢ p) × Absent p xs
Absent-last p c [] a = (a.0, tt)
Absent-last p c (x ∷ xs) a = let r = Absent-last p c xs a.1 in (r.0, (a.0, r.1))

Distinct-last : (c : ℕ) (xs : List ℕ) → Distinct (xs ++ (c ∷ [])) → Absent c xs × Distinct xs
Distinct-last c [] d = (tt, tt)
Distinct-last c (x ∷ xs) d =
    let r = Distinct-last c xs d.1 in
    let a = Absent-last x c xs d.0 in ((λ e. a.0 (sym e), r.0), (a.1, r.1))

Distinct-snoc : (c : ℕ) (xs : List ℕ) → Absent c xs → Distinct xs → Distinct (xs ++ (c ∷ []))
Distinct-snoc c [] a d = (tt, tt)
Distinct-snoc c (x ∷ xs) a d =
    (Absent-append x xs (c ∷ []) d.0 (λ e. a.0 (sym e), tt), Distinct-snoc c xs a.1 d.1)

unlink-last : (c : ℕ) (xs : List ℕ) → Absent c xs → unlink c (xs ++ (c ∷ [])) ≡ xs
unfolding unlink
unlink-last c [] a = rw (eq→== c c refl) refl
unlink-last c (x ∷ xs) a = rw (ne→== x c a.0, unlink-last c xs a.1) refl

unlink-head : (x : ℕ) (xs : List ℕ) → unlink x (x ∷ xs) ≡ xs
unfolding unlink
unlink-head x xs = rw (eq→== x x refl) refl

-- The running process stands last in the queue; `xs` wait before it.
pub record Turn (xs : List ℕ) (c : ℕ) (s : Sched) : Type 0 where
  pub queued : s.queue ≡ xs ++ (c ∷ [])
  pub runs : s.current ≡ some c
  pub running : s.states c ≡ ProcState.running
  pub on : s.active ≡ true
  pub distinct : Distinct (xs ++ (c ∷ []))

module _ (stack_base : ℕ → ℕ) where
  turn_at :
      (x c : ℕ) (xs : List ℕ) (s : Sched)
      → Absent c (x ∷ xs)
      → s.current ≡ some c
      → s.states c ≡ ProcState.running
      → s.active ≡ true
      → s.queue ≡ x ∷ (xs ++ (c ∷ []))
      → let s' = schedule_next stack_base (x ∷ (xs ++ (c ∷ []))) s in
        (s'.queue ≡ (xs ++ (c ∷ [])) ++ (x ∷ []))
        × (s'.current ≡ some x)
        × (s'.states x ≡ ProcState.running)
        × (s'.active ≡ true)
  unfolding schedule_next switch_to requeue is_current is_running set_state link_tail
  turn_at x c xs s a cur run on q =
      let out : unlink c s.queue ≡ x ∷ xs = ap (unlink c) q ∙ unlink-last c (x ∷ xs) a in
      let front = unlink-head x (xs ++ (c ∷ [])) in
      let other = a.0 in (ground arith, ground arith, ground arith, ground arith)

  -- A call of `schedule` gives the turn to the first process that waits, and puts it last.
  pub schedule-Turn :
      (x c : ℕ) (xs : List ℕ) (s : Sched)
      → Turn (x ∷ xs) c s
      → Turn (xs ++ (c ∷ [])) x (schedule stack_base s)
  unfolding schedule
  schedule-Turn x c xs s t =
      let (absent, rest) = Distinct-last c (x ∷ xs) t.distinct in
      let (queue, cur, run, on) =
        subst
          (λ q.
            let s' = schedule_next stack_base q s in
            (s'.queue ≡ (xs ++ (c ∷ [])) ++ (x ∷ []))
            × (s'.current ≡ some x)
            × (s'.states x ≡ ProcState.running)
            × (s'.active ≡ true))
          (sym t.queued) (turn_at x c xs s absent t.runs t.running t.on t.queued) in
      record {
        queued = queue;
        runs = cur;
        running = run;
        on = on;
        distinct = Distinct-snoc x (xs ++ (c ∷ [])) t.distinct.0 t.distinct.1;
      }

  -- `n` calls of `schedule`.
  unfoldable pub rounds : ℕ → Sched → Sched
  rounds zero s = s
  rounds (suc n) s = rounds n (schedule stack_base s)

  -- Once the running process stands last in the queue, with no process queued twice, the process
  -- behind `ps` in the queue is the current one after as many calls of `schedule` as there are
  -- processes up to it: no process waits longer than that.
  pub rounds-current :
      (ps : List ℕ) (x : ℕ) (rest : List ℕ) (c : ℕ) (s : Sched)
      → Turn (ps ++ (x ∷ rest)) c s
      → (rounds (suc (length ps)) s).current ≡ some x
  unfolding rounds
  rounds-current [] x rest c s t = (schedule-Turn x c rest s t).runs
  rounds-current (p ∷ ps) x rest c s t =
      rounds-current ps x (rest ++ (c ∷ [])) p (schedule stack_base s) (
        subst (λ q. Turn q p (schedule stack_base s)) (append_assoc ps (x ∷ rest) (c ∷ []))
          (schedule-Turn p c (ps ++ (x ∷ rest)) s t))
