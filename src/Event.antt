-- ===== src/Event.antt =====
-- gui/event.c and gui/event.h: the ring of interface events, and the pump that fills it from the
-- mouse and the keyboard.
pub mod Queue
pub mod Buttons
pub mod Pump
use Prim.Native.Nat.{bit_and, bit_xor}
use vault_os.Prelude.{
  ℕ, zero, suc, ◌+◌, ◌%◌, ◌^◌, List, [], ◌∷◌, Option, none, some, Bool, ◌&&◌, not, if◌then◌else◌,
  ◌==◌, get_or, set,
}

-- `event_type_t`
pub data EventType : Type 0 where
  evt_none evt_mouse_move evt_mouse_down evt_mouse_up evt_key_down : EventType
  evt_paint evt_close evt_focus evt_blur : EventType

-- `gui_event_t`; an int16_t is its bit pattern.
pub record Event : Type 0 where
  pub type : EventType
  pub mouse_x : ℕ
  pub mouse_y : ℕ
  pub mouse_button : ℕ
  pub mouse_buttons : ℕ
  pub key : ℕ
  pub target_window : ℕ

-- An event of zero bytes.
abbrev pub zero_event : Event
zero_event = record {
  type = evt_none;
  mouse_x = 0;
  mouse_y = 0;
  mouse_button = 0;
  mouse_buttons = 0;
  key = 0;
  target_window = 0;
}

-- `EVENT_BUF_SIZE`
abbrev pub buf_size : ℕ
buf_size = 256

-- The static variables of the file.
pub record Events : Type 0 where
  pub buf : List Event
  pub head : ℕ
  pub tail : ℕ
  pub prev_buttons : ℕ

-- `event_init`
unfoldable pub init : Events → Events
init s = record s { head = 0; tail = 0; prev_buttons = 0 }

-- `event_push`
unfoldable pub push : Event → Events → Events
push ev s =
    let next = (s.head + 1) % buf_size in
    if next == s.tail then s else record s { buf = set s.buf s.head ev; head = next }

-- `event_poll`
unfoldable pub poll : Events → Option Event × Events
poll s =
    if s.tail == s.head
    then (none, s)
    else (some (get_or s.buf s.tail zero_event), record s { tail = (s.tail + 1) % buf_size })

-- What one successful `mouse_poll` and the `mouse_get_position` after it give.
pub record MouseInput : Type 0 where
  pub dx : ℕ
  pub dy : ℕ
  pub buttons : ℕ
  pub mx : ℕ
  pub my : ℕ

-- The event of a movement, and that of a button that has changed.
unfoldable pub move_event : MouseInput → Event
move_event m = record zero_event {
  type = evt_mouse_move;
  mouse_x = m.mx;
  mouse_y = m.my;
  mouse_buttons = m.buttons;
}

unfoldable pub button_event : MouseInput → ℕ → Event
button_event m btn = record zero_event {
  type = if bit_and m.buttons (2 ^ btn) == 0 then evt_mouse_up else evt_mouse_down;
  mouse_x = m.mx;
  mouse_y = m.my;
  mouse_button = 2 ^ btn;
  mouse_buttons = m.buttons;
}

-- `changed & (1 << btn)`
unfoldable pub has_changed : MouseInput → ℕ → ℕ → Bool
has_changed m prev btn = not (bit_and (bit_xor m.buttons prev) (2 ^ btn) == 0)

-- The loop over the buttons, `rounds` of them from `btn` on.
unfoldable pub pump_buttons : ℕ → ℕ → MouseInput → ℕ → Events → Events
pump_buttons zero btn m prev s = s
pump_buttons (suc rounds) btn m prev s =
    pump_buttons rounds (btn + 1) m prev
      (if has_changed m prev btn then push (button_event m btn) s else s)

-- One round of the mouse loop of `event_pump`.
unfoldable pub pump_mouse : MouseInput → Events → Events
pump_mouse m s =
    let moved = if m.dx == 0 && m.dy == 0 then s else push (move_event m) s in
    record (pump_buttons 3 0 m s.prev_buttons moved) { prev_buttons = m.buttons }

unfoldable pub pump_mice : List MouseInput → Events → Events
pump_mice [] s = s
pump_mice (m ∷ ms) s = pump_mice ms (pump_mouse m s)

unfoldable pub key_event : ℕ → Event
key_event key = record zero_event { type = evt_key_down; key = key }

-- The keyboard loop of `event_pump`, over the keys up to the first 0 that
-- `keyboard_getchar_nonblock` returns.
unfoldable pub pump_keys : List ℕ → Events → Events
pump_keys [] s = s
pump_keys (k ∷ ks) s = pump_keys ks (push (key_event k) s)

-- `event_pump`, on what the two drivers have waiting.
unfoldable pub pump : List MouseInput → List ℕ → Events → Events
pump ms ks s = pump_keys ks (pump_mice ms s)
