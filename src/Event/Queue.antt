-- ===== src/Event/Queue.antt =====
-- The ring of gui/event.c is a queue of at most 255 events.
use mathlib.Core.Path.{subst}
use vault_os.Prelude.{
  ℕ, zero, suc, ◌+◌, ◌-◌, ◌%◌, ◌≤◌, ◌<◌, List, [], ◌∷◌, ◌++◌, Option, none, some, if◌then◌else◌,
  ◌==◌, ◌≡◌, ◌≢◌, refl, ap, sym, ◌∙◌, arith, ltb, length, length-set, get_or, set, get_or-set_self,
  get_or-set_ne, Bool-cases, inl, inr, ==→eq, ==→ne, lt→ltb, le→ltb,
}
use vault_os.Event.{Event, Events, zero_event, buf_size, push, poll}

-- `n` slots from `i` on, around the ring.
unfoldable pub collect : ℕ → ℕ → List Event → List Event
collect zero i buf = []
collect (suc n) i buf = get_or buf i zero_event ∷ collect n ((i + 1) % 256) buf

abbrev pub waiting : Events → ℕ
waiting s = (s.head + 256 - s.tail) % 256

-- What the ring holds, oldest first.
abbrev pub contents : Events → List Event
contents s = collect (waiting s) s.tail s.buf

pub record IsValid (s : Events) : Type 0 where
  pub slots : length s.buf ≡ buf_size
  pub head_lt : s.head < buf_size
  pub tail_lt : s.tail < buf_size

pub length-collect : (n i : ℕ) (buf : List Event) → length (collect n i buf) ≡ n
unfolding collect
length-collect zero i buf = refl
length-collect (suc n) i buf = ap suc (length-collect n ((i + 1) % 256) buf)

collect-suc :
    (n i : ℕ) (buf : List Event)
    → i < 256
    → collect (suc n) i buf ≡ collect n i buf ++ (get_or buf ((i + n) % 256) zero_event ∷ [])
unfolding collect
collect-suc zero i buf h = let here : (i + 0) % 256 ≡ i = omega arith in rw here refl
collect-suc (suc n) i buf h =
    let there : ((i + 1) % 256 + n) % 256 ≡ (i + suc n) % 256 = omega arith in
    ap (◌∷◌ (get_or buf i zero_event)) (
      collect-suc n ((i + 1) % 256) buf (omega arith)
      ∙ ap (λ k. collect n ((i + 1) % 256) buf ++ (get_or buf k zero_event ∷ [])) there)

-- A write to a slot that is not among those collected.
collect-set :
    (n i j : ℕ) (buf : List Event) (ev : Event)
    → i < 256
    → j < 256
    → n ≤ (j + 256 - i) % 256
    → collect n i (set buf j ev) ≡ collect n i buf
unfolding collect
collect-set zero i j buf ev hi hj apart = refl
collect-set (suc n) i j buf ev hi hj apart =
    rw
      (
        get_or-set_ne buf j i ev zero_event (omega arith),
        collect-set n ((i + 1) % 256) j buf ev (omega arith) hj (omega arith),
      )
      refl

-- The specification of `event_push`.
unfoldable pub enqueue : Event → List Event → List Event
enqueue ev evs = if ltb (length evs) 255 then evs ++ (ev ∷ []) else evs

pub push-IsValid : (ev : Event) (s : Events) → IsValid s → IsValid (push ev s)
unfolding push
push-IsValid ev s v = elim (Bool-cases ((s.head + 1) % buf_size == s.tail)) [
  | inl full ↦ rw full v
  | inr room ↦ rw room (record {
    slots = length-set s.buf s.head ev ∙ v.slots;
    head_lt = let lt = v.head_lt in omega arith;
    tail_lt = v.tail_lt;
  })
]

pushed :
    (ev : Event) (s : Events)
    → IsValid s
    → (s.head + 1) % buf_size ≢ s.tail
    → collect (((s.head + 1) % 256 + 256 - s.tail) % 256) s.tail (set s.buf s.head ev)
      ≡ contents s ++ (ev ∷ [])
pushed ev s v room =
    let slots = v.slots in
    let head_lt = v.head_lt in
    let tail_lt = v.tail_lt in
    let more : ((s.head + 1) % 256 + 256 - s.tail) % 256 ≡ suc (waiting s) = omega arith in
    let slot : (s.tail + waiting s) % 256 ≡ s.head = omega arith in
    ap (λ n. collect n s.tail (set s.buf s.head ev)) more
    ∙ collect-suc (waiting s) s.tail (set s.buf s.head ev) (omega arith)
    ∙ ap (λ xs. xs ++ (get_or (set s.buf s.head ev) ((s.tail + waiting s) % 256) zero_event ∷ []))
        (collect-set (waiting s) s.tail s.head s.buf ev (omega arith) (omega arith) (omega arith))
    ∙ ap (λ k. contents s ++ (get_or (set s.buf s.head ev) k zero_event ∷ [])) slot
    ∙ ap (λ e. contents s ++ (e ∷ [])) (get_or-set_self s.buf s.head ev zero_event (omega arith))

-- On a valid ring `event_push` appends the event if fewer than 255 wait, and otherwise drops it.
pub push-enqueue :
    (ev : Event) (s : Events) → IsValid s → contents (push ev s) ≡ enqueue ev (contents s)
unfolding push enqueue
push-enqueue ev s v = elim (Bool-cases ((s.head + 1) % buf_size == s.tail)) [
  | inl full ↦
      let head_lt = v.head_lt in
      let tail_lt = v.tail_lt in
      let same = ==→eq _ _ full in
      let many =
        le→ltb (length (contents s)) 255 (omega (arith, length-collect (waiting s) s.tail s.buf)) in
      rw (full, many) refl
  | inr room ↦
      let head_lt = v.head_lt in
      let tail_lt = v.tail_lt in
      let other = ==→ne _ _ room in
      let few =
        lt→ltb (length (contents s)) 255 (omega (arith, length-collect (waiting s) s.tail s.buf)) in
      rw (room, few) (pushed ev s v other)
]

-- The specification of `event_poll`.
unfoldable pub dequeue : List Event → Option Event × List Event
dequeue [] = (none, [])
dequeue (ev ∷ evs) = (some ev, evs)

polled :
    (n : ℕ) (s : Events)
    → suc n ≡ waiting s
    → s.tail < 256
    → (some (get_or s.buf s.tail zero_event), collect n ((s.tail + 1) % 256) s.buf)
      ≡ dequeue (contents s)
unfolding dequeue collect
polled n s more h = rw (sym more) refl

-- On a valid ring `event_poll` hands out the oldest event and removes it, or says that there is
-- none; the ring stays valid.
pub poll-dequeue :
    (s : Events)
    → IsValid s
    → let (r, s') = poll s in ((r, contents s') ≡ dequeue (contents s)) × IsValid s'
unfolding poll dequeue
poll-dequeue s v = elim (Bool-cases (s.tail == s.head)) [
  | inl same ↦
      let head_lt = v.head_lt in
      let at = ==→eq _ _ same in
      let nothing : waiting s ≡ 0 = omega arith in
      rw same (
        subst (λ n. (none, collect n s.tail s.buf) ≡ dequeue (collect n s.tail s.buf)) (sym nothing)
            (unfold collect in refl),
        v,
      )
  | inr other ↦
      let head_lt = v.head_lt in
      let tail_lt = v.tail_lt in
      let ne = ==→ne _ _ other in
      let left : (s.head + 256 - (s.tail + 1) % 256) % 256 ≡ waiting s - 1 = omega arith in
      rw other (
        ap (λ n. (some (get_or s.buf s.tail zero_event), collect n ((s.tail + 1) % 256) s.buf)) left
            ∙ polled (waiting s - 1) s (omega arith) tail_lt,
        record { slots = v.slots; head_lt = v.head_lt; tail_lt = omega arith },
      )
]
