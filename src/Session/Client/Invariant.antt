-- ===== src/Session/Client/Invariant.antt =====
-- The invariant of a `ClientSession` between any two calls. Source/ClientServerProtocol.cpp.
use conntop.Prelude.{ℕ, ◌≡◌, ◌≢◌, Bool, true, false, List, [], ◌∷◌, Option, none, some, arith}
use conntop.Json.{JsonLib}
use conntop.Protocol.{ClientMsg, DisconnectReason, SessionState, disconnected, closing}
use conntop.Protocol.Message.{
  SerializedMessage, Surroundings, client_hello, client_disconnect, client_request_data,
  create_client_msg,
}
use conntop.Wire.Writer.Stream
use conntop.Session.{ErrorText, Outcome, done, thrown, PollFlags}
use conntop.Session.Client.{
  ClientSession, ClientCallback, send_message, quick_disconnect, on_banner, on_hello, on_disconnect,
  on_update_tick, server_hello, server_data_status, on_data_status, on_data, on_message, on_update,
  disconnect, request_data, connect,
}
use conntop.Session.Client.Poll.{no_shared}

-- An open socket is registered for input, and for output too while a message is queued.
abbrev pub Waits : List (SerializedMessage ClientMsg) → Option PollFlags → Type 0
Waits q none = ⊥
Waits [] (some f) = f.input ≡ true
Waits (x ∷ q) (some f) = (f.input ≡ true) × (f.output ≡ true)

abbrev pub IsOpen : Option ℕ → Type 0
IsOpen none = ⊥
IsOpen (some fd) = Unit {0}

-- A session that is disconnected has no socket, waits for nothing and queues nothing; any other has
-- an open socket that waits for what it must.
abbrev pub Fits : SessionState → ClientSession → Type 0
Fits disconnected s =
    (s.socket ≡ none)
    × (s.poll ≡ none)
    × (s.send_queue ≡ [])
    × (s.is_connection_established ≡ false)
Fits _ s = IsOpen s.socket × Waits s.send_queue s.poll

pub record IsValid (s : ClientSession) : Type 0 where
  pub fits : Fits s.state s
  pub writer : Stream.IsValid no_shared s.writer

-- The session that a handler leaves, whether it returned or threw.
abbrev pub after : {W : Type 0} → Outcome (W × ClientSession) → ClientSession
after (done ws) = ws.1
after (thrown text ws) = ws.1

-- The owner's callbacks keep the session valid.
pub record Keeps {V : Type 0} {W : Type 0} (cb : ClientCallback V W) : Type 0 where
  pub connection_established :
      (ws : W × ClientSession) → IsValid ws.1 → IsValid (cb.on_connection_established ws).1
  pub established :
      (ws : W × ClientSession) → IsValid ws.1 → IsValid (cb.on_session_established ws).1
  pub disconnect : (ws : W × ClientSession) → IsValid ws.1 → IsValid (cb.on_session_disconnect ws).1
  pub tick : (ws : W × ClientSession) → IsValid ws.1 → IsValid (cb.on_session_server_tick ws).1
  pub status :
      (b : Bool) (ws : W × ClientSession)
      → IsValid ws.1
      → IsValid (cb.on_session_data_status b ws).1
  pub data_received :
      (t : ℕ) (b : Bool) (v : V) (ws : W × ClientSession)
      → IsValid ws.1
      → IsValid (after (cb.on_session_data t b v ws))

send_message-IsValid :
    (msg : SerializedMessage ClientMsg) (s : ClientSession)
    → SessionState.disconnected ≢ s.state
    → IsValid s
    → IsValid (send_message msg s)
unfolding send_message
send_message-IsValid msg s h v = ground arith

module _ (J : JsonLib) {W : Type 0} (cb : ClientCallback (J.Value) W) (e : Surroundings)
    (k : Keeps cb) where
  pub quick_disconnect-IsValid :
      (r : DisconnectReason) (error : Option ErrorText) (w : W) (s : ClientSession)
      → IsValid s
      → IsValid (quick_disconnect J cb e r error (w, s)).1
  unfolding quick_disconnect
  quick_disconnect-IsValid r error w s v = k.disconnect _ (ground arith)

  on_banner-IsValid :
      (m : J.Value) (w : W) (s : ClientSession)
      → IsValid s
      → IsValid (after (on_banner J cb e m (w, s)))
  unfolding on_banner
  on_banner-IsValid m w s v = ground (
    arith,
    quick_disconnect-IsValid DisconnectReason.version_mismatch none w s v,
    send_message-IsValid (create_client_msg J ClientMsg.hello (client_hello J e))
        (record s { expected_msg = server_hello }),
  )

  on_hello-IsValid :
      (m : J.Value) (w : W) (s : ClientSession)
      → IsValid s
      → IsValid (after (on_hello J cb e m (w, s)))
  unfolding on_hello
  on_hello-IsValid m w s v = grind (arith, k.established)

  on_disconnect-IsValid :
      (m : J.Value) (w : W) (s : ClientSession)
      → IsValid s
      → IsValid (after (on_disconnect J cb e m (w, s)))
  unfolding on_disconnect
  on_disconnect-IsValid m w s v = grind (arith, quick_disconnect-IsValid)

  on_update_tick-IsValid :
      (m : J.Value) (w : W) (s : ClientSession)
      → IsValid s
      → IsValid (after (on_update_tick J cb e s.state m (w, s)))
  unfolding on_update_tick
  on_update_tick-IsValid m w s v = grind (arith, k.tick)

  on_data_status-IsValid :
      (m : J.Value) (w : W) (s : ClientSession)
      → IsValid s
      → IsValid (after (on_data_status J cb e s.state m (w, s)))
  unfolding on_data_status
  on_data_status-IsValid m w s v = grind (arith, k.status)

  on_data-IsValid :
      (m : J.Value) (w : W) (s : ClientSession)
      → IsValid s
      → IsValid (after (on_data J cb e s.state m (w, s)))
  unfolding on_data
  on_data-IsValid m w s v = grind (arith, k.data_received)

  -- If the owner's callbacks keep the client session valid, so does the handling of every message,
  -- well formed or not, also when the handler throws.
  pub on_message-IsValid :
      (m : J.Value) (w : W) (s : ClientSession)
      → IsValid s
      → IsValid (after (on_message J cb e m (w, s)))
  unfolding on_message
  on_message-IsValid m w s v = ground (
    arith,
    on_banner-IsValid m w s v,
    on_hello-IsValid m w s v,
    on_disconnect-IsValid m w s v,
    on_update_tick-IsValid m w s v,
    on_data_status-IsValid m w s v,
    on_data-IsValid m w s v,
  )

  pub on_update-IsValid :
      (w : W) (s : ClientSession) → IsValid s → IsValid (on_update J cb e (w, s)).1
  unfolding on_update
  on_update-IsValid w s v =
      ground (arith, quick_disconnect-IsValid DisconnectReason.timeout none w s v)

  pub disconnect-IsValid :
      (w : W) (s : ClientSession) → IsValid s → IsValid (disconnect J cb e (w, s)).1
  unfolding disconnect
  disconnect-IsValid w s v = ground (
    arith,
    quick_disconnect-IsValid DisconnectReason.user_decision none w s v,
    send_message-IsValid
        (create_client_msg J ClientMsg.disconnect
          (client_disconnect J DisconnectReason.user_decision))
        (record s {
          state = closing;
          session_ttl = 2;
          disconnect_reason = DisconnectReason.user_decision;
          disconnect_error = [];
        }),
  )

pub request_data-IsValid :
    (J : JsonLib) (f u : ℕ) (s : ClientSession) → IsValid s → IsValid (request_data J f u s)
unfolding request_data
request_data-IsValid J f u s v = ground (
  arith,
  send_message-IsValid (create_client_msg J ClientMsg.request_data (client_request_data J f u))
      (record s { expected_msg = server_data_status }),
)

pub connect-IsValid : (fd : Option ℕ) (s : ClientSession) → IsValid s → IsValid (connect fd s)
unfolding connect
connect-IsValid fd s v = ground arith
