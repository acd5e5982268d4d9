-- ===== src/Tests/Event.antt =====
-- gui/event.c with a mouse and two keys.
use vault_os.Prelude.{[], ◌∷◌, ◌++◌, ◌≡◌, arith, map, replicate, length-replicate}
use vault_os.Event.{Events, MouseInput, zero_event, push, poll, pump, key_event}
use vault_os.Event.Queue.{
  IsValid, contents, enqueue, dequeue, push-enqueue, push-IsValid, poll-dequeue,
}
use vault_os.Event.Pump.{Appends, mouse_events, pump-Appends}

-- An empty ring whose slots wrap around.
abbrev ring : Events
ring = record { buf = replicate 256 zero_event; head = 255; tail = 255; prev_buttons = 0 }

ring-IsValid : IsValid ring
ring-IsValid = record {
  slots = length-replicate 256 zero_event;
  head_lt = omega arith;
  tail_lt = omega arith;
}

push-enqueue_example : contents (push (key_event 65) ring) ≡ enqueue (key_event 65) (contents ring)
push-enqueue_example = push-enqueue (key_event 65) ring ring-IsValid

poll-dequeue_example :
    let (r, s') = poll (push (key_event 65) ring) in
    ((r, contents s') ≡ dequeue (contents (push (key_event 65) ring))) × IsValid s'
poll-dequeue_example =
    poll-dequeue (push (key_event 65) ring) (push-IsValid (key_event 65) ring ring-IsValid)

-- The left button goes down during a movement.
abbrev click : MouseInput
click = record { dx = 3; dy = 0; buttons = 1; mx = 40; my = 50 }

pump-Appends_example :
    Appends
      (mouse_events ring.prev_buttons (click ∷ []) ++ map key_event (65 ∷ 66 ∷ []))
      ring
      (pump (click ∷ []) (65 ∷ 66 ∷ []) ring)
pump-Appends_example = pump-Appends (click ∷ []) (65 ∷ 66 ∷ []) ring ring-IsValid
