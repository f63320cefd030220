-- ===== src/Session/Server/Poll/Stream.antt =====
-- The send loop of `ServerSession::SocketPollHandler` and the bytes that it puts
-- on the socket. Source/ClientServerProtocol.cpp.
use mathlib.Core.List.{append_assoc, append-nil}
use conntop.Prelude.{
  ℕ, ◌+◌, ◌≡◌, refl, ap, ◌∙◌, Bool, true, false, ◌⊎◌, ◌≢◌, List, [], ◌∷◌, ◌++◌, none, arith,
}
use conntop.Wire.Writer.{Bytes, Writer, send, send_shared}
use conntop.Wire.Writer.Stream.{IsValid, pending, send_lem, send_shared_lem}
use conntop.Session.{SendResult}
use conntop.Session.Flush.{Tried, failed, went, try_send, Flushed}
use conntop.Session.Flush.Laws.{Keeps, try_send-Keeps}
use conntop.Session.Server.{Shared, store, QueuedMsg, own_msg, shared_msg, message_at, is_data}
use conntop.Session.Server.Poll.{hand_over, flush}

-- The bytes that the queue's pointers lead to, in order.
abbrev pub texts : Shared → List QueuedMsg → Bytes
texts m [] = []
texts m (x ∷ q) = (message_at m x).msg ++ texts m q

module _ (m : Shared) where
  pub record Streams (w : Writer) (q : List QueuedMsg) (f : Flushed QueuedMsg) : Type 0 where
    pub valid : IsValid (store m) f.writer
    pub stream :
        f.out ++ (pending (store m) f.writer ++ texts m f.send_queue)
        ≡ pending (store m) w ++ texts m q
    pub unsent : (f.send_queue ≡ []) ⊎ (pending (store m) f.writer ≢ []) ⊎ (f.failure ≢ none)

  hand_over_lem :
      (w : Writer) (x : QueuedMsg)
      → IsValid (store m) w
      → w.msg_type ≡ conntop.Wire.Writer.none
      → IsValid (store m) (hand_over m w x)
        × (pending (store m) (hand_over m w x) ≡ (message_at m x).msg)
  unfolding hand_over
  hand_over_lem w (own_msg x) v e = ground (arith, send_lem (store m) w x.msg)
  hand_over_lem w (shared_msg slot) v e = ground (arith, send_shared_lem (store m) w slot)

  module _ (sends : ℕ → SendResult) (k : ℕ) (sending : Bool) (w : Writer) where
    last_round :
        (t : Tried)
        → IsValid (store m) w
        → try_send (store m) w (sends k) ≡ t
        → Keeps (store m) w t
        → Streams w [] (flush m sends k sending w []).1
    unfolding flush
    last_round (failed what) v e h = rw (e, flush) (ground arith)
    last_round (went w' sent out) v e h =
        rw (e, flush)
          (ground (arith, append-nil (pending (store m) w), append-nil (pending (store m) w')))

    one_round :
        (x : QueuedMsg) (q : List QueuedMsg) (t : Tried)
        → IsValid (store m) w
        → try_send (store m) w (sends k) ≡ t
        → Keeps (store m) w t
        → ((b : Bool) (w' : Writer)
            → IsValid (store m) w'
            → Streams w' q (flush m sends (k + 1) b w' q).1)
        → Streams w (x ∷ q) (flush m sends k sending w (x ∷ q)).1
    unfolding flush
    one_round x q (failed what) v e h rec = rw (e, flush) (ground arith)
    one_round x q (went w' false out) v e h rec =
        rw (e, flush) (ground (arith, append_assoc out (pending (store m) w') (texts m (x ∷ q))))
    one_round x q (went w' true out) v e h rec = rw (e, flush) (after next)
      where
        handed :
            IsValid (store m) (hand_over m w' x)
            × (pending (store m) (hand_over m w' x) ≡ (message_at m x).msg)
        handed = hand_over_lem w' x h.0 (h.3.0 refl)

        rest : Flushed QueuedMsg
        rest = (flush m sends (k + 1) (is_data (message_at m x).msg_type) (hand_over m w' x) q).1

        next : Streams (hand_over m w' x) q rest
        next = rec _ _ handed.0

        after :
            Streams (hand_over m w' x) q rest
            → Streams w (x ∷ q) (record rest { out = out ++ rest.out })
        after n = record {
          valid = n.valid;
          unsent = n.unsent;
          stream =
              append_assoc out rest.out _
              ∙ ap (λ o. out ++ o) (n.stream ∙ ap (λ o. o ++ texts m q) handed.1)
              ∙ ground (arith, append-nil out);
        }

  -- The send loop of the server's poll handler, from a valid writer and with any answers of the
  -- socket, with the shared messages as they stand during the loop: the bytes that went out, those
  -- still pending and the texts that the rest of the queue leads to are together, in this order,
  -- the bytes that were pending and the texts of the queue; the writer stays valid; and a queue
  -- that is not empty is left only behind pending bytes or after a failure.
  pub server_flush-Streams :
      (sends : ℕ → SendResult) (k : ℕ) (sending : Bool) (w : Writer) (q : List QueuedMsg)
      → IsValid (store m) w
      → Streams w q (flush m sends k sending w q).1
  server_flush-Streams sends k sending w [] v =
      last_round sends k sending w _ v refl (try_send-Keeps (store m) w (sends k) v)
  server_flush-Streams sends k sending w (x ∷ q) v =
      one_round sends k sending w x q _ v refl (try_send-Keeps (store m) w (sends k) v)
        (λ b w' v'. server_flush-Streams sends (k + 1) b w' q v')
