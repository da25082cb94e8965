-- ===== src/Send.antt =====
-- The three writes of src/task_msg.cpp that put one message on the wire: in
-- MsgServer::parseServerData and in MsgClient::sendRequest.
pub mod Wire
use task_monitor.Base.{ℕ, List, Option, some, take, ℤ, ◌+ℤ◌}
use task_monitor.Socket.{Socket, write_socket}
use task_monitor.Package.{htonl}

infixl 5 ◌>>=◌
abbrev pub ◌>>=◌ {ℓ κ} : {A : Type ℓ} {B : Type κ} → Option A → (A → Option B) → Option B
m >>= f = elim m [ Option.none ↦ Option.none | Option.some a ↦ f a ]

-- A write that fails does not stop the next; the results are added up.
unfoldable pub send_frame : Socket → ℕ → List ℕ → ℕ → Option (ℤ × Socket)
send_frame fd req_id buf len = do
  (r1, fd1) ← write_socket fd (htonl req_id)
  (r2, fd2) ← write_socket fd1 (htonl len)
  (r3, fd3) ← write_socket fd2 (take len buf)
  some ((r1 +ℤ r2) +ℤ r3, fd3)
