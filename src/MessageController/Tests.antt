-- ===== src/MessageController/Tests.antt =====
-- Descriptor 5 of the pool's thread arrives in a worker as 3.
use heimdall_web_switch.Prelude.{◌≡◌, refl, true, false, some, [], ◌∷◌}
use heimdall_web_switch.Throwable.{ok_from}
use heimdall_web_switch.Scheduler.{failed}
use heimdall_web_switch.HttpRequest.{Chars}
use heimdall_web_switch.UnixSocket.{unix_listen, unix_connect}
use heimdall_web_switch.MessageController.{
  ReceiveCalls, received, receive_fd, SendCalls, send_fd, control_of,
}
use heimdall_web_switch.MessageController.Passing.{receive_fd-send_fd}

abbrev path : Chars
path = b'/' ∷ b's' ∷ []

abbrev sender : SendCalls
sender = record { asprintf = some path; socket = some 6; connect = true; sendmsg = true }

abbrev receiver : ReceiveCalls
receiver = record {
  asprintf = some path;
  remove = true;
  socket = some 4;
  bind = true;
  listen = true;
  accept = some 7;
  recvmsg = received (record (control_of 5) { fd = 3 });
}

handed : (send_fd 8 5 sender []).message ≡ some (control_of 5)
unfolding send_fd unix_connect ok_from
handed = refl

listens : failed (unix_listen 8 (some path) (some 4) true true []).throwable ≡ false
unfolding unix_listen ok_from
listens = refl

receive_fd-send_fd_example :
    ((receive_fd 8 receiver []).value ≡ some 3)
    × ((receive_fd 8 receiver []).throwable ≡ ok_from "receive_fd")
receive_fd-send_fd_example =
    receive_fd-send_fd 8 5 3 sender [] [] receiver (control_of 5) path 7 handed refl refl listens
      refl refl
