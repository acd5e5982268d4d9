-- ===== src/Event/Buttons.antt =====
-- The buttons in `event_pump` of gui/event.c: which events a change of them makes.
use vault_os.Prelude.{
  ℕ, ◌+◌, ◌/◌, ◌%◌, List, [], ◌∷◌, Bool, if◌then◌else◌, ◌==◌, ◌≡◌, ap, ◌∙◌, arith,
}
use Prim.Native.Nat.{bit_xor}
use vault_os.Prelude.Xor.{bit_xor-half, bit_xor-low}
use vault_os.Prelude.And.{bit_and_one, bit_and_two, bit_and_four}
use vault_os.Event.{
  EventType, evt_mouse_up, evt_mouse_down, zero_event, Event, MouseInput, button_event, has_changed,
}

-- Is the button of weight 1, 2 or 4 down?
unfoldable pub is_down : ℕ → ℕ → Bool
is_down buttons weight = buttons / weight % 2 == 1

-- The event of one button, from whether it was down and is.
unfoldable pub button_change : MouseInput → ℕ → ℕ → List Event
button_change m prev weight =
    let ev = λ (t : EventType). record zero_event {
      type = t;
      mouse_x = m.mx;
      mouse_y = m.my;
      mouse_button = weight;
      mouse_buttons = m.buttons;
    } in
    if is_down prev weight
    then (if is_down m.buttons weight then [] else ev evt_mouse_up ∷ [])
    else (if is_down m.buttons weight then ev evt_mouse_down ∷ [] else [])

-- What the tests of the loop say of a button.
pub change_one :
    (m : MouseInput) (prev : ℕ)
    → (if has_changed m prev 0 then button_event m 0 ∷ [] else []) ≡ button_change m prev 1
unfolding has_changed button_event button_change is_down
change_one m prev =
    let x = bit_xor-low m.buttons prev in
    ground (arith, bit_and_one (bit_xor m.buttons prev), bit_and_one m.buttons)

pub change_two :
    (m : MouseInput) (prev : ℕ)
    → (if has_changed m prev 1 then button_event m 1 ∷ [] else []) ≡ button_change m prev 2
unfolding has_changed button_event button_change is_down
change_two m prev =
    let half = bit_xor-half m.buttons prev in
    let x = bit_xor-low (m.buttons / 2) (prev / 2) in
    let x' : bit_xor m.buttons prev / 2 % 2 ≡ (m.buttons / 2 + prev / 2) % 2 =
      ap (λ n. n % 2) half ∙ x in
    ground (arith, bit_and_two (bit_xor m.buttons prev), bit_and_two m.buttons)

pub change_four :
    (m : MouseInput) (prev : ℕ)
    → (if has_changed m prev 2 then button_event m 2 ∷ [] else []) ≡ button_change m prev 4
unfolding has_changed button_event button_change is_down
change_four m prev =
    let half = bit_xor-half m.buttons prev in
    let quarter = ap (λ n. n / 2) half ∙ bit_xor-half (m.buttons / 2) (prev / 2) in
    let low = ap (λ n. n % 2) quarter ∙ bit_xor-low (m.buttons / 2 / 2) (prev / 2 / 2) in
    let x : bit_xor m.buttons prev / 4 % 2 ≡ (m.buttons / 4 + prev / 4) % 2 = omega (arith, low) in
    ground (arith, bit_and_four (bit_xor m.buttons prev), bit_and_four m.buttons)
