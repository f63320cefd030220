-- ===== src/Session/Client/Poll.antt =====
-- `ClientSession::SocketPollHandler` of Source/ClientServerProtocol.cpp.
pub mod Invariant
use conntop.Prelude.{
  ℕ, ◌+◌, Bool, true, false, ◌&&◌, not, String, List, [], ◌∷◌, ◌++◌, Option, none, some,
  if◌then◌else◌,
}
use conntop.Json.{JsonLib}
use conntop.Protocol.{
  ClientMsg, DisconnectReason, SessionState, disconnected, closing, opening, connected,
}
use conntop.Protocol.Message.{SerializedMessage, Surroundings}
use conntop.Wire.Writer.{Writer, Store, send}
use conntop.Session.{
  ErrorText, Outcome, done, thrown, PollFlags, Received, lost, receive_failed, parsed, SendResult,
  SocketAnswers,
}
use conntop.Session.Flush.{Tried, failed, went, try_send, Flushed}
use conntop.Session.Client.{ClientSession, ClientCallback, on_message, quick_disconnect}

-- A client's writer has messages of its own only: there is no shared one.
abbrev pub no_shared : Store
no_shared slot = []

-- `while (doSend()) { … }`; `k` counts the answers used. Each round but the last takes one message
-- off the queue.
unfoldable pub flush :
    (ℕ → SendResult)
    → ℕ
    → Writer
    → List (SerializedMessage ClientMsg)
    → Flushed (SerializedMessage ClientMsg)
unfolding try_send
flush sends k w [] = elim (try_send no_shared w (sends k)) [
  | failed what ↦ record { writer = w; send_queue = []; out = []; failure = some what }
  | went w' sent out ↦ record { writer = w'; send_queue = []; out = out; failure = none }
]
flush sends k w (x ∷ q) = elim (try_send no_shared w (sends k)) [
  | failed what ↦ record { writer = w; send_queue = x ∷ q; out = []; failure = some what }
  | went w' sent out ↦
      let next = flush sends (k + 1) (send w' x.msg).0 q in
      if sent
      then record next { out = out ++ next.out }
      else record { writer = w'; send_queue = x ∷ q; out = out; failure = none }
]

is_disconnected : SessionState → Bool
is_disconnected disconnected = true
is_disconnected _ = false

-- `error` of the receive branch: `m_isConnectionEstablished ? "Unable to receive data: " : ""`.
receive_error : Bool → String → ErrorText
receive_error true what = "Unable to receive data: " ∷ what ∷ []
receive_error false what = what ∷ []

module _ (J : JsonLib) {W : Type 0} (cb : ClientCallback (J.Value) W) (e : Surroundings) where
  open J use {Value}

  -- The parser calls `onMessage` for each document; a throw drops what comes after it.
  pub deliver : List Value → Option String → W × ClientSession → Outcome (W × ClientSession)
  deliver [] none ws = done ws
  deliver [] (some what) ws = thrown (what ∷ []) ws
  deliver (v ∷ vs) end ws = elim (on_message J cb e v ws) [
    | thrown text ws' ↦ thrown text ws'
    | done ws' ↦ deliver vs end ws'
  ]

  lost_at : SessionState → W × ClientSession → W × ClientSession
  lost_at closing (w, s) = quick_disconnect J cb e s.disconnect_reason none (w, s)
  lost_at _ ws = quick_disconnect J cb e DisconnectReason.connection_lost none ws

  unfoldable pub handle_input : Received Value → W × ClientSession → W × ClientSession
  unfolding lost_at receive_error
  handle_input lost (w, s) = lost_at s.state (w, s)
  handle_input (receive_failed what) (w, s) =
      quick_disconnect J cb e DisconnectReason.socket_error
        (some (receive_error s.is_connection_established what)) (w, s)
  handle_input (parsed vs end) ws = elim (deliver vs end ws) [
    | done ws' ↦ ws'
    | thrown text ws' ↦ quick_disconnect J cb e DisconnectReason.protocol_error (some text) ws'
  ]

  after_flush : Flushed (SerializedMessage ClientMsg) → W × ClientSession → W × ClientSession
  after_flush f (w, s) =
      let s' : ClientSession = record s { writer = f.writer; send_queue = f.send_queue } in
      elim f.failure [
        | none ↦ (w, s')
        | some what ↦
            quick_disconnect J cb e DisconnectReason.socket_error
              (some ("Unable to send data: " ∷ what ∷ [])) (w, s')
      ]

  -- The endpoint stays as it was if `getRemoteEndpoint` throws.
  established : Option ℕ → W × ClientSession → W × ClientSession
  established none ws = cb.on_connection_established ws
  established (some endpoint) (w, s) =
      cb.on_connection_established (w, record s { server_endpoint = some endpoint })

  verified : Option String → W × ClientSession → W × ClientSession
  verified none (w, s) = (w, record s { is_connection_established = true })
  verified (some what) ws =
      quick_disconnect J cb e DisconnectReason.socket_error (some (what ∷ [])) ws

  check_connect : SocketAnswers Value → W × ClientSession → W × ClientSession
  check_connect a ws =
      let ws' = verified a.verify_connect ws in
      if (ws'.1).is_connection_established then established a.remote_endpoint ws' else ws'

  pub handle_output : SocketAnswers Value → W × ClientSession → W × ClientSession
  handle_output a (w, s) =
      if s.is_connection_established
      then after_flush (flush a.sends 0 s.writer s.send_queue) (w, s)
      else check_connect a (w, s)

  is_open : Option ℕ → Bool
  is_open none = false
  is_open (some fd) = true

  is_empty : List (SerializedMessage ClientMsg) → Bool
  is_empty [] = true
  is_empty _ = false

  -- The flags for which the socket goes on waiting.
  wait_again : W × ClientSession → W × ClientSession
  unfolding is_open is_empty
  wait_again (w, s) =
      if is_open s.socket
      then (
        w,
        record s {
          poll =
              some (record { input = true; output = not (is_empty s.send_queue); error = false });
        },
      )
      else (w, s)

  input_stage : PollFlags → Received Value → W × ClientSession → W × ClientSession
  input_stage flags received ws = if flags.input then handle_input received ws else ws

  output_stage : PollFlags → SocketAnswers Value → W × ClientSession → W × ClientSession
  unfolding is_disconnected
  output_stage flags a ws =
      if flags.output && not (is_disconnected (ws.1).state) then handle_output a ws else ws

  error_stage : PollFlags → W × ClientSession → W × ClientSession
  unfolding is_disconnected
  error_stage flags ws =
      if flags.error && not (is_disconnected (ws.1).state)
      then quick_disconnect J cb e DisconnectReason.socket_error (some ("Socket poll failed" ∷ []))
          ws
      else ws

  pub socket_poll_handler : PollFlags → SocketAnswers Value → W × ClientSession → W × ClientSession
  socket_poll_handler flags a ws =
      wait_again (error_stage flags (output_stage flags a (input_stage flags a.received ws)))
