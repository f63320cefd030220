-- ===== src/Wire/Writer.antt =====
-- `StreamSocketWriter` of Source/SocketReaderWriter.hpp. `m_data` is a pointer: into the writer's
-- own message, into its buffer, or into a message that it shares with the rest of the server. The
-- shared messages live in a store, so that a change of one is seen through the pointer.
pub mod Stream
use conntop.Prelude.{
  ℕ, ◌+◌, ◌-◌, Bool, true, false, List, [], leb, ◌==◌, if◌then◌else◌, length, take, drop,
}

abbrev pub Bytes : Type 0
Bytes = List ℕ

-- The texts of the shared messages, by the place that holds each.
abbrev pub Store : Type 0
Store = ℕ → Bytes

-- `EMessageType`
pub data MessageType : Type 0 where
  none own shared buffered : MessageType

-- What `m_data` points at.
pub data DataPtr : Type 0 where
  null to_msg to_buffer : DataPtr
  to_shared : ℕ → DataPtr

pub record Writer : Type 0 where
  pub msg_type : MessageType
  pub buffer : Bytes
  pub ptr : DataPtr
  pub data_length : ℕ
  pub data_pos : ℕ
  pub msg : Bytes

unfoldable pub initial : Writer
initial = record {
  msg_type = none;
  buffer = [];
  ptr = null;
  data_length = 0;
  data_pos = 0;
  msg = [];
}

-- The bytes at `m_data`.
abbrev pub deref : Store → Writer → DataPtr → Bytes
deref m w null = []
deref m w to_msg = w.msg
deref m w to_buffer = w.buffer
deref m w (to_shared slot) = m slot

-- `m_data+m_dataPos`, up to `m_dataLength-m_dataPos` bytes.
abbrev pub window : Store → Writer → Bytes
window m w = take (w.data_length - w.data_pos) (drop w.data_pos (deref m w w.ptr))

unfoldable pub is_sending : MessageType → Bool
is_sending none = false
is_sending _ = true

stop_at : Store → Writer → MessageType → Writer × Bool
stop_at m w none = (w, true)
stop_at m w own =
    if w.data_pos == 0 then (record w { msg_type = none; msg = [] }, true) else (w, false)
stop_at m w shared = if w.data_pos == 0 then (record w { msg_type = none }, true) else (
  record w {
    buffer = window m w;
    ptr = to_buffer;
    data_length = length (window m w);
    data_pos = 0;
    msg_type = buffered;
  },
  false,
)
stop_at m w buffered = (w, false)

unfoldable pub stop : Store → Writer → Writer × Bool
unfolding stop_at
stop m w = stop_at m w w.msg_type

unfoldable pub send : Writer → Bytes → Writer × Bool
unfolding is_sending
send w text = if is_sending w.msg_type then (w, false) else (
  record w { msg = text; ptr = to_msg; data_length = length text; data_pos = 0; msg_type = own },
  true,
)

unfoldable pub send_shared : Store → Writer → ℕ → Writer × Bool
unfolding is_sending
send_shared m w slot = if is_sending w.msg_type then (w, false) else (
  record w { ptr = to_shared slot; data_length = length (m slot); data_pos = 0; msg_type = shared },
  true,
)

-- The text that is cleared when a message of this kind has been sent.
finish : Writer → MessageType → Writer
finish w own = record w { msg = []; msg_type = none }
finish w buffered = record w { buffer = []; msg_type = none }
finish w _ = record w { msg_type = none }

-- `doSend`, where the socket takes `accepted` bytes of those that it is offered: the new writer,
-- the result, and the bytes that went out.
unfoldable pub do_send : Store → Writer → ℕ → Writer × Bool × Bytes
unfolding is_sending finish
do_send m w accepted =
    let moved : Writer = record w { data_pos = w.data_pos + accepted } in
    if is_sending w.msg_type
    then if leb w.data_length moved.data_pos
      then (finish moved w.msg_type, true, take accepted (window m w))
      else (moved, false, take accepted (window m w))
    else (w, true, [])
