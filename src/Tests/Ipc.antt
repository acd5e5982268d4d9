-- ===== src/Tests/Ipc.antt =====
-- kernel/proc/ipc.c at concrete messages.
use vault_os.Prelude.{[], ◌≡◌}
use vault_os.Ipc.{Message, Ipc, zero_message, init, send, recv}
use vault_os.Ipc.Refine.{
  IsValid, init-IsValid, contents, deliver, enqueue, stamped, Delivered, send_refines, recv_refines,
}

abbrev note : Message
note = record zero_message { src_pid = 3; type = 7; payload_size = 4 }

abbrev queued : Ipc
queued = (send 5 2 note init).1

send_refines_example :
    let (e, s') = send 5 2 note init in
    ((e, contents s') ≡ enqueue (contents init) (stamped init.next_msg_id 5 2 note)) × IsValid s'
send_refines_example = send_refines 5 2 note init-IsValid

recv_refines_example : Delivered queued [] (deliver 2 (contents queued)) (recv 2 queued)
recv_refines_example = recv_refines 2 (send_refines 5 2 note init-IsValid).1
