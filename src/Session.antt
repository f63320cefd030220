-- ===== src/Session.antt =====
-- What the two session classes of Source/ClientServerProtocol.hpp share.
pub mod Flush
pub mod Client
pub mod Server
pub mod Fields
pub mod Handshake
pub mod Ticks
pub mod Timeout
pub mod Parting
use conntop.Prelude.{ℕ, Bool, String, List, [], ◌∷◌, Option, none, some}

-- An error text, as the pieces that make it up.
abbrev pub ErrorText : Type 0
ErrorText = List String

-- `(error) ? error : ""`
abbrev pub text_or_empty : Option ErrorText → ErrorText
text_or_empty none = []
text_or_empty (some e) = e

-- A handler that returned, or one that threw `std::invalid_argument`, with what it had done.
pub data Outcome (S : Type 0) : Type 0 where
  done : S → Outcome S
  thrown : ErrorText → S → Outcome S

-- The `EPollFlags` that a socket is registered for, or that have been reported.
pub record PollFlags : Type 0 where
  pub input : Bool
  pub output : Bool
  pub error : Bool

-- What `doReceive` meets: no byte (the peer has closed), a `SocketException`, or bytes that the
-- parser makes documents of, after which it may throw a `MessageParserException`.
pub data Received (V : Type 0) : Type 0 where
  lost : Received V
  receive_failed : String → Received V
  parsed : List V → Option String → Received V

-- What the socket answers to one `send`: so many bytes taken, or a `SocketException`.
pub data SendResult : Type 0 where
  accepted : ℕ → SendResult
  send_failed : String → SendResult

-- Everything that the socket answers during one call of a poll handler; `sends k` is the answer to
-- the k-th call of `send`.
pub record SocketAnswers (V : Type 0) : Type 0 where
  pub received : Received V
  pub sends : ℕ → SendResult
  pub verify_connect : Option String
  pub remote_endpoint : Option ℕ
