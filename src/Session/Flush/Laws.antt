-- ===== src/Session/Flush/Laws.antt =====
-- One call of `doSend`, whatever the socket answers.
use conntop.Prelude.{◌≡◌, true, ◌↔◌, [], ◌++◌, arith}
use conntop.Wire.Writer.{Writer, Store, none}
use conntop.Wire.Writer.Stream.{IsValid, pending, do_send_lem}
use conntop.Session.{SendResult, accepted, send_failed}
use conntop.Session.Flush.{Tried, failed, went, try_send}

-- What holds of the answer to one try: nothing was done, or no byte was lost.
abbrev pub Keeps : Store → Writer → Tried → Type 0
Keeps m w (failed what) = Unit {0}
Keeps m w (went w' sent out) =
    IsValid m w'
    × (out ++ pending m w' ≡ pending m w)
    × ((sent ≡ true) ↔ (pending m w' ≡ []))
    × ((sent ≡ true) ↔ (w'.msg_type ≡ none))

pub try_send-Keeps :
    (m : Store) (w : Writer) (r : SendResult) → IsValid m w → Keeps m w (try_send m w r)
unfolding try_send
try_send-Keeps m w (accepted n) v = do_send_lem m w n v
try_send-Keeps m w (send_failed what) v = ground (arith, do_send_lem m w 0 v)
