-- ===== src/Event/Pump.antt =====
-- `event_pump` of gui/event.c: which events it makes of the input, and what is left of them when
-- the ring is full.
use vault_os.Prelude.{
  ℕ, zero, suc, ◌≤◌, List, [], ◌∷◌, ◌++◌, Bool, true, false, ◌&&◌, if◌then◌else◌, ◌==◌, ◌≡◌, refl,
  ap, sym, ◌∙◌, arith, ltb, length, take, Bool-cases, inl, inr, append_assoc, append-nil, ltb→lt,
  ltb→le, map, length-append,
}
use mathlib.Core.Path.{subst}
use vault_os.Event.{
  Event, Events, MouseInput, push, move_event, button_event, has_changed, pump_buttons, pump_mouse,
  pump_mice, key_event, pump_keys, pump,
}
use vault_os.Event.Queue.{
  IsValid, contents, waiting, length-collect, enqueue, push-IsValid, push-enqueue,
}
use vault_os.Event.Buttons.{button_change, change_one, change_two, change_four}

-- The events of one mouse input, given the buttons before it.
unfoldable pub mouse_events : ℕ → List MouseInput → List Event
mouse_events prev [] = []
mouse_events prev (m ∷ ms) =
    (if m.dx == 0 && m.dy == 0 then [] else move_event m ∷ [])
    ++ ((button_change m prev 1 ++ (button_change m prev 2 ++ button_change m prev 4))
        ++ mouse_events m.buttons ms)

-- From `s` to `s'` the events are appended, as far as there is room.
pub record Appends (evs : List Event) (s s' : Events) : Type 0 where
  pub valid : IsValid s'
  pub queued : contents s' ≡ take 255 (contents s ++ evs)

module _ {A : Type 0} where
  take_all : (n : ℕ) (xs : List A) → length xs ≤ n → take n xs ≡ xs
  take_all zero [] h = refl
  take_all zero (x ∷ xs) h = absurd (omega arith)
  take_all (suc n) [] h = refl
  take_all (suc n) (x ∷ xs) h = ap (◌∷◌ x) (take_all n xs (omega arith))

  take_front : (n : ℕ) (xs ys : List A) → n ≤ length xs → take n (xs ++ ys) ≡ take n xs
  take_front zero xs ys h = refl
  take_front (suc n) [] ys h = absurd (omega arith)
  take_front (suc n) (x ∷ xs) ys h = ap (◌∷◌ x) (take_front n xs ys (omega arith))

  take-append-take : (n : ℕ) (xs ys : List A) → take n (take n xs ++ ys) ≡ take n (xs ++ ys)
  take-append-take zero xs ys = refl
  take-append-take (suc n) [] ys = refl
  take-append-take (suc n) (x ∷ xs) ys = ap (◌∷◌ x) (take-append-take n xs ys)

few : (s : Events) → IsValid s → length (contents s) ≤ 255
few s v = omega (arith, length-collect (waiting s) s.tail s.buf)

none-Appends : (s : Events) → IsValid s → Appends [] s s
none-Appends s v = record {
  valid = v;
  queued =
      sym (append-nil (contents s))
      ∙ sym (take_all 255 (contents s ++ []) (rw append-nil (few s v)));
}

enqueue-take :
    (ev : Event) (evs : List Event)
    → length evs ≤ 255
    → enqueue ev evs ≡ take 255 (evs ++ (ev ∷ []))
unfolding enqueue
enqueue-take ev evs h = elim (Bool-cases (ltb (length evs) 255)) [
  | inl room ↦
      let short = ltb→lt _ _ room in
      rw room (sym (take_all 255 (evs ++ (ev ∷ [])) (rw length-append (omega arith))))
  | inr full ↦
      let long = ltb→le _ _ full in
      rw full (sym (take_front 255 evs (ev ∷ []) long ∙ take_all 255 evs h))
]

push-Appends : (ev : Event) (s : Events) → IsValid s → Appends (ev ∷ []) s (push ev s)
push-Appends ev s v = record {
  valid = push-IsValid ev s v;
  queued = push-enqueue ev s v ∙ enqueue-take ev (contents s) (few s v);
}

Appends-trans :
    {a b : List Event} {s s' s'' : Events}
    → Appends a s s'
    → Appends b s' s''
    → Appends (a ++ b) s s''
Appends-trans {a} {b} {s} x y = record {
  valid = y.valid;
  queued =
      y.queued
      ∙ ap (λ q. take 255 (q ++ b)) x.queued
      ∙ take-append-take 255 (contents s ++ a) b
      ∙ ap (take 255) (append_assoc (contents s) a b);
}

push_if :
    (c : Bool) (ev : Event) (s : Events)
    → IsValid s
    → Appends (if c then ev ∷ [] else []) s (if c then push ev s else s)
push_if true ev s v = push-Appends ev s v
push_if false ev s v = none-Appends s v

push_unless :
    (c : Bool) (ev : Event) (s : Events)
    → IsValid s
    → Appends (if c then [] else ev ∷ []) s (if c then s else push ev s)
push_unless true ev s v = none-Appends s v
push_unless false ev s v = push-Appends ev s v

-- One round of the loop over the buttons.
button-Appends :
    (btn weight : ℕ) (m : MouseInput) (prev : ℕ) (s : Events)
    → IsValid s
    → (if has_changed m prev btn then button_event m btn ∷ [] else []) ≡ button_change m prev weight
    → Appends
        (button_change m prev weight)
        s
        (if has_changed m prev btn then push (button_event m btn) s else s)
button-Appends btn weight m prev s v e =
    subst (λ evs. Appends evs s (if has_changed m prev btn then push (button_event m btn) s else s))
      e (push_if (has_changed m prev btn) (button_event m btn) s v)

pump_buttons-Appends :
    (m : MouseInput) (prev : ℕ) (s : Events)
    → IsValid s
    → Appends
        (button_change m prev 1 ++ (button_change m prev 2 ++ button_change m prev 4))
        s
        (pump_buttons 3 0 m prev s)
unfolding pump_buttons
pump_buttons-Appends m prev s v =
    let one = button-Appends 0 1 m prev s v (change_one m prev) in
    let two = button-Appends 1 2 m prev _ one.valid (change_two m prev) in
    Appends-trans one
      (Appends-trans two (button-Appends 2 4 m prev _ two.valid (change_four m prev)))

remember :
    (evs : List Event) (s s' : Events) (buttons : ℕ)
    → Appends evs s s'
    → Appends evs s (record s' { prev_buttons = buttons })
remember evs s s' buttons x = record {
  valid = record { slots = x.valid.slots; head_lt = x.valid.head_lt; tail_lt = x.valid.tail_lt };
  queued = x.queued;
}

pump_mice-Appends :
    (ms : List MouseInput) (s : Events)
    → IsValid s
    → Appends (mouse_events s.prev_buttons ms) s (pump_mice ms s)
unfolding mouse_events pump_mice pump_mouse
pump_mice-Appends [] s v = none-Appends s v
pump_mice-Appends (m ∷ ms) s v =
    let moved = push_unless (m.dx == 0 && m.dy == 0) (move_event m) s v in
    let clicked = pump_buttons-Appends m s.prev_buttons _ moved.valid in
    let after = remember _ _ _ m.buttons clicked in
    Appends-trans moved (Appends-trans after (pump_mice-Appends ms _ after.valid))

pump_keys-Appends :
    (ks : List ℕ) (s : Events) → IsValid s → Appends (map key_event ks) s (pump_keys ks s)
unfolding pump_keys
pump_keys-Appends [] s v = none-Appends s v
pump_keys-Appends (k ∷ ks) s v =
    let first = push-Appends (key_event k) s v in
    Appends-trans first (pump_keys-Appends ks _ first.valid)

-- On a valid ring `event_pump` appends, in this order, for each mouse input its movement, if there
-- is one, and each of the three buttons that has changed since the input before, and then each
-- key, as far as they fit into 255 waiting events; the ring stays valid.
pub pump-Appends :
    (ms : List MouseInput) (ks : List ℕ) (s : Events)
    → IsValid s
    → Appends (mouse_events s.prev_buttons ms ++ map key_event ks) s (pump ms ks s)
unfolding pump
pump-Appends ms ks s v =
    let mice = pump_mice-Appends ms s v in
    Appends-trans mice (pump_keys-Appends ks (pump_mice ms s) mice.valid)
