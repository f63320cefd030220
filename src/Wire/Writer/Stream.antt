-- ===== src/Wire/Writer/Stream.antt =====
-- The bytes that go out of a `StreamSocketWriter`: Source/SocketReaderWriter.hpp.
use conntop.Prelude.{
  ℕ, ◌+◌, ◌-◌, ◌≤◌, ◌≡◌, true, false, [], ◌++◌, arith, if◌then◌else◌, ◌↔◌, ◌⊎◌, length, take, drop,
  take-append-drop, length-take, length-drop, drop-all, drop-add, take-all,
}
use mathlib.Core.List.{append-nil}
use conntop.Wire.Writer.{
  Bytes, Store, MessageType, none, own, shared, buffered, DataPtr, to_msg, to_buffer, to_shared,
  Writer, deref, window, stop, send, send_shared, do_send,
}

-- The bytes that an accepted message still has to put on the wire.
abbrev pub rest : Store → Writer → MessageType → Bytes
rest m w none = []
rest m w _ = drop w.data_pos (deref m w w.ptr)

unfoldable pub pending : Store → Writer → Bytes
pending m w = rest m w w.msg_type

-- A writer that is sending points at the text of that kind, and its position lies within it.
abbrev pub Fits : Store → Writer → MessageType → DataPtr → Type 0
Fits m w none p = Unit {0}
Fits m w own to_msg = (w.data_length ≡ length w.msg) × (w.data_pos ≤ w.data_length)
Fits m w shared (to_shared slot) = (w.data_length ≡ length (m slot)) × (w.data_pos ≤ w.data_length)
Fits m w buffered to_buffer = (w.data_length ≡ length w.buffer) × (w.data_pos ≤ w.data_length)
Fits m w _ _ = ⊥

unfoldable pub IsValid : Store → Writer → Type 0
IsValid m w = Fits m w w.msg_type w.ptr

-- One call of `doSend` on a valid writer, with `accepted` bytes taken by the socket.
module _ (m : Store) (w : Writer) (accepted : ℕ) (v : IsValid m w) where
  do_send-IsValid : IsValid m (do_send m w accepted).0
  unfolding do_send IsValid pending
  do_send-IsValid =
      ground (arith, length-take (w.data_length - w.data_pos) (drop w.data_pos (deref m w w.ptr)))

  do_send-pending : (do_send m w accepted).2 ++ pending m (do_send m w accepted).0 ≡ pending m w
  unfolding do_send IsValid pending
  do_send-pending = ground (
    arith,
    take-append-drop accepted (drop w.data_pos (deref m w w.ptr)),
    drop-add w.data_pos accepted (deref m w w.ptr),
    length-drop w.data_pos (deref m w w.ptr),
    take-all (w.data_length - w.data_pos) (drop w.data_pos (deref m w w.ptr)),
    take-all accepted (drop w.data_pos (deref m w w.ptr)),
    append-nil (take accepted (window m w)),
  )

  -- The result is `true` exactly when the message is out to its last byte.
  do_send-done : ((do_send m w accepted).1 ≡ true) ↔ (pending m (do_send m w accepted).0 ≡ [])
  unfolding do_send IsValid pending
  do_send-done = ground (
    arith,
    length-drop (w.data_pos + accepted) (deref m w w.ptr),
    drop-all (w.data_pos + accepted) (deref m w w.ptr),
  )

  -- Then, and only then, is the writer idle.
  do_send-idle : ((do_send m w accepted).1 ≡ true) ↔ ((do_send m w accepted).0.msg_type ≡ none)
  unfolding do_send
  do_send-idle = ground arith

-- One call of doSend on a valid writer, whatever number the socket answers: the writer stays
-- valid, the bytes that went out and those still pending are together the bytes that were pending,
-- and the result is true exactly when nothing is pending any more, which is exactly when the
-- writer is idle.
pub do_send_lem :
    (m : Store) (w : Writer) (accepted : ℕ)
    → IsValid m w
    → let (w', done, out) = do_send m w accepted in
      IsValid m w'
      × (out ++ pending m w' ≡ pending m w)
      × ((done ≡ true) ↔ (pending m w' ≡ []))
      × ((done ≡ true) ↔ (w'.msg_type ≡ none))
do_send_lem m w accepted v = (
  do_send-IsValid m w accepted v,
  do_send-pending m w accepted v,
  do_send-done m w accepted v,
  do_send-idle m w accepted v,
)

-- When stop refuses on a valid writer, what is pending afterwards is what was pending, whatever
-- the shared messages become, and the writer is valid in the new store.
pub stop_refused :
    (m m' : Store) (w : Writer)
    → IsValid m w
    → (stop m w).1 ≡ false
    → (pending m' (stop m w).0 ≡ pending m w) × IsValid m' (stop m w).0
unfolding stop IsValid pending
stop_refused m m' w v e = ground (
  arith,
  take-all (w.data_length - w.data_pos) (drop w.data_pos (deref m w w.ptr)),
  length-drop w.data_pos (deref m w w.ptr),
)

-- When stop succeeds on a valid writer, nothing is pending afterwards, the writer was idle or the
-- pending bytes were the whole message, and the writer stays valid.
pub stop_done :
    (m : Store) (w : Writer)
    → IsValid m w
    → (stop m w).1 ≡ true
    → (pending m (stop m w).0 ≡ [])
      × ((w.msg_type ≡ none) ⊎ (pending m w ≡ deref m w w.ptr))
      × IsValid m (stop m w).0
unfolding stop IsValid pending
stop_done m w v e = ground arith

-- An idle writer takes a message, which is then pending whole; a busy one refuses it and keeps what
-- it has.
pub send_lem :
    (m : Store) (w : Writer) (text : Bytes)
    → IsValid m w
    → let (w', taken) = send w text in
      IsValid m w'
      × ((taken ≡ true) ↔ (w.msg_type ≡ none))
      × (pending m w' ≡ (if taken then text else pending m w))
unfolding send IsValid pending
send_lem m w text v = ground arith

pub send_shared_lem :
    (m : Store) (w : Writer) (slot : ℕ)
    → IsValid m w
    → let (w', taken) = send_shared m w slot in
      IsValid m w'
      × ((taken ≡ true) ↔ (w.msg_type ≡ none))
      × (pending m w' ≡ (if taken then m slot else pending m w))
unfolding send_shared IsValid pending
send_shared_lem m w slot v = ground arith
