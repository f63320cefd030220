-- ===== src/Session/Flush.antt =====
-- What the send loops of both poll handlers share: one `doSend` with the socket's answer, and the
-- loop's state when it stops. Source/ClientServerProtocol.cpp.
pub mod Laws
use conntop.Prelude.{ℕ, Bool, String, List, Option, if◌then◌else◌}
use conntop.Wire.Writer.{Writer, Bytes, Store, is_sending, do_send}
use conntop.Session.{SendResult, accepted, send_failed}

pub data Tried : Type 0 where
  failed : String → Tried
  went : Writer → Bool → Bytes → Tried

abbrev went_all : Writer × Bool × Bytes → Tried
went_all (w, sent, out) = went w sent out

-- A `SocketException` comes before any change of the writer. An idle writer does not ask the socket.
unfoldable pub try_send : Store → Writer → SendResult → Tried
try_send m w (accepted n) = went_all (do_send m w n)
try_send m w (send_failed e) = if is_sending w.msg_type then failed e else went_all (do_send m w 0)

-- The writer, the queue, the bytes that went out, and the `SocketException` that stopped the loop.
pub record Flushed (Q : Type 0) : Type 0 where
  pub writer : Writer
  pub send_queue : List Q
  pub out : Bytes
  pub failure : Option String
