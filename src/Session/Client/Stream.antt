-- ===== src/Session/Client/Stream.antt =====
-- The send loop of `ClientSession::SocketPollHandler` and the bytes that it puts
-- on the socket. Source/ClientServerProtocol.cpp.
use mathlib.Core.List.{append_assoc, append-nil}
use conntop.Prelude.{ℕ, ◌+◌, ◌≡◌, refl, ◌⊎◌, ◌≢◌, List, [], ◌∷◌, ◌++◌, none, arith}
use conntop.Protocol.{ClientMsg}
use conntop.Protocol.Message.{SerializedMessage}
use conntop.Wire.Writer.{Bytes, Writer, send}
use conntop.Wire.Writer.Stream.{IsValid, pending, send_lem}
use conntop.Session.{SendResult}
use conntop.Session.Flush.{Tried, failed, went, try_send, Flushed}
use conntop.Session.Flush.Laws.{Keeps, try_send-Keeps}
use conntop.Session.Client.Poll.{no_shared, flush}

-- The bytes of the queued messages, in order.
abbrev pub texts : List (SerializedMessage ClientMsg) → Bytes
texts [] = []
texts (x ∷ q) = x.msg ++ texts q

pub record Streams (w : Writer) (q : List (SerializedMessage ClientMsg))
    (f : Flushed (SerializedMessage ClientMsg)) : Type 0 where
  pub valid : IsValid no_shared f.writer
  pub stream :
      f.out ++ (pending no_shared f.writer ++ texts f.send_queue) ≡ pending no_shared w ++ texts q
  pub unsent : (f.send_queue ≡ []) ⊎ (pending no_shared f.writer ≢ []) ⊎ (f.failure ≢ none)

module _ (sends : ℕ → SendResult) (k : ℕ) (w : Writer) where
  last_round :
      (t : Tried)
      → IsValid no_shared w
      → try_send no_shared w (sends k) ≡ t
      → Keeps no_shared w t
      → Streams w [] (flush sends k w [])
  unfolding flush
  last_round (failed what) v e h = rw (e, flush) (ground arith)
  last_round (went w' sent out) v e h =
      rw (e, flush)
        (ground (arith, append-nil (pending no_shared w), append-nil (pending no_shared w')))

  one_round :
      (x : SerializedMessage ClientMsg) (q : List (SerializedMessage ClientMsg)) (t : Tried)
      → IsValid no_shared w
      → try_send no_shared w (sends k) ≡ t
      → Keeps no_shared w t
      → ((w' : Writer) → IsValid no_shared w' → Streams w' q (flush sends (k + 1) w' q))
      → Streams w (x ∷ q) (flush sends k w (x ∷ q))
  unfolding flush
  one_round x q (failed what) v e h rec = rw (e, flush) (ground arith)
  one_round x q (went w' sent out) v e h rec =
      rw (e, flush)
        (let next = flush sends (k + 1) (send w' x.msg).0 q in
          ground (
            arith,
            send_lem no_shared w' x.msg,
            rec (send w' x.msg).0,
            append-nil out,
            append_assoc out next.out (pending no_shared next.writer ++ texts next.send_queue),
            append_assoc out (pending no_shared w') (x.msg ++ texts q),
          ))

-- The send loop of the client's poll handler, from a valid writer and with any answers of the
-- socket: the bytes that went out, those still pending in the writer and the texts left in the
-- queue are together, in this order, the bytes that were pending and the texts of the queue; the
-- writer stays valid; and a queue that is not empty is left only behind pending bytes or after a
-- failure.
pub client_flush-Streams :
    (sends : ℕ → SendResult) (k : ℕ) (w : Writer) (q : List (SerializedMessage ClientMsg))
    → IsValid no_shared w
    → Streams w q (flush sends k w q)
client_flush-Streams sends k w [] v =
    last_round sends k w _ v refl (try_send-Keeps no_shared w (sends k) v)
client_flush-Streams sends k w (x ∷ q) v =
    one_round sends k w x q _ v refl (try_send-Keeps no_shared w (sends k) v)
      (λ w' v'. client_flush-Streams sends (k + 1) w' q v')
