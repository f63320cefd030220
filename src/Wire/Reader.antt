-- ===== src/Wire/Reader.antt =====
-- `StreamSocketReader` of Source/SocketReaderWriter.hpp, over any parser. `buffer` holds what was
-- received; of it, `m_bufferPos` bytes wait for the rest of their token.
pub mod Room
use conntop.Prelude.{
  ℕ, ◌+◌, ◌-◌, Bool, true, false, String, List, [], ◌∷◌, ◌++◌, ltb, if◌then◌else◌, length, take,
  drop,
}
use conntop.Wire.Writer.{Bytes}

-- What the parser makes of the data: its state and the number of bytes that it took, or the text of
-- its exception; `stuck` stands for a parser that does not return.
pub data Parsed (P : Type 0) : Type 0 where
  took : P → ℕ → Parsed P
  refused : P → String → Parsed P
  stuck : Parsed P

-- What the socket's `receive` does: it gives bytes, none if the connection is lost, or throws.
pub data Answer : Type 0 where
  bytes : Bytes → Answer
  failure : String → Answer

-- How `doReceive` ends: with its result, with an exception of the socket or of the parser, or not.
pub data Ended : Type 0 where
  returned : Bool → Ended
  socket_threw parser_threw : String → Ended
  hangs : Ended

pub record Reader (P : Type 0) : Type 0 where
  pub buffer : Bytes
  pub buffer_pos : ℕ
  pub buffer_size : ℕ
  pub parser : P

-- The bytes that `receive` is offered room for.
abbrev pub room : {P : Type 0} → Reader P → ℕ
room r = r.buffer_size - r.buffer_pos - 1

module _ {P : Type 0} (parse : P → Bytes → ℕ → Parsed P) where
  -- The reader after the parser: what is not taken moves to the front of the buffer.
  unfoldable pub after_parse : Bytes → Parsed P → Reader P → Reader P × Ended
  after_parse text (took p n) r =
      if ltb n (length text)
      then (
        record r { buffer = drop n text; buffer_pos = length text - n; parser = p },
        returned false,
      )
      else (record r { buffer = text; buffer_pos = 0; parser = p }, returned false)
  after_parse text (refused p what) r = (record r { buffer = text; parser = p }, parser_threw what)
  after_parse text stuck r = (r, hangs)

  unfoldable pub do_receive : Answer → Reader P → Reader P × Ended
  unfolding after_parse
  do_receive (failure what) r = (r, socket_threw what)
  do_receive (bytes []) r = (r, returned true)
  do_receive (bytes (b ∷ bs)) r =
      let text = take r.buffer_pos r.buffer ++ (b ∷ bs) in
      after_parse text (parse r.parser text r.buffer_size) r
