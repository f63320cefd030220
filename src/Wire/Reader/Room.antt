-- ===== src/Wire/Reader/Room.antt =====
-- The room in the buffer of a `StreamSocketReader`, and the bytes that wait in it.
-- Source/SocketReaderWriter.hpp.
use conntop.Prelude.{
  ℕ, ◌-◌, ◌≤◌, ◌<◌, ◌≡◌, ◌≢◌, ◌⊎◌, [], ◌∷◌, ◌++◌, length, take, drop, length-append, length-take,
  length-drop, take-all, drop-all, arith,
}
use conntop.Wire.Writer.{Bytes}
use conntop.Wire.Reader.{
  Parsed, took, refused, stuck, Answer, bytes, failure, hangs, Reader, room, after_parse,
  do_receive,
}

pub record IsValid {P : Type 0} (r : Reader P) : Type 0 where
  pub held : r.buffer_pos ≤ length r.buffer
  pub free : 0 < room r

-- The bytes that wait in the buffer.
abbrev pub waiting : {P : Type 0} → Reader P → Bytes
waiting r = take r.buffer_pos r.buffer

-- What the reader needs of a parser's answer for so many bytes and this size of the buffer.
abbrev pub Sound : {P : Type 0} → ℕ → ℕ → Parsed P → Type 0
Sound n size (took p k) = (k ≤ n) × ((0 < k) ⊎ (n < size - 1))
Sound n size (refused p text) = Unit {0}
Sound n size stuck = ⊥

-- The bytes that an answer brings.
abbrev pub brought : Answer → Bytes
brought (bytes bs) = bs
brought (failure text) = []

-- What becomes of the bytes of `text`: those that the parser did not take wait in front.
abbrev pub Kept : {P : Type 0} → Bytes → Parsed P → Reader P → Type 0
Kept text (took p k) r = (waiting r ≡ drop k text) × (r.parser ≡ p)
Kept text _ r = Unit {0}

module _ {P : Type 0} (parse : P → Bytes → ℕ → Parsed P) (r : Reader P) where
  after_parse_lem :
      (text : Bytes) (o : Parsed P)
      → IsValid r
      → r.buffer_pos ≤ length text
      → length text < r.buffer_size
      → Sound (length text) r.buffer_size o
      → let (r', ended) = after_parse parse text o r in
        IsValid r' × Kept text o r' × (ended ≢ hangs)
  unfolding after_parse
  after_parse_lem text (took p k) v h l s =
      ground (arith, length-drop k text, take-all (length text - k) (drop k text), drop-all k text)
  after_parse_lem text (refused p what) v h l s = ground arith
  after_parse_lem text stuck v h l s = absurd s

  pub do_receive_lem :
      (a : Answer)
      → IsValid r
      → length (brought a) ≤ room r
      → Sound
          (length (waiting r ++ brought a))
          r.buffer_size
          (parse r.parser (waiting r ++ brought a) r.buffer_size)
      → let (r', ended) = do_receive parse a r in
        IsValid r'
        × ((brought a ≡ [])
            ⊎ Kept
                (waiting r ++ brought a)
                (parse r.parser (waiting r ++ brought a) r.buffer_size)
                r')
        × (ended ≢ hangs)
  unfolding do_receive
  do_receive_lem (failure what) v h s = ground arith
  do_receive_lem (bytes []) v h s = ground arith
  do_receive_lem (bytes (b ∷ bs)) v h s =
      let text = waiting r ++ (b ∷ bs) in
      ground (
        arith,
        after_parse_lem text (parse r.parser text r.buffer_size) v
            (ground (arith, length-append (waiting r) (b ∷ bs), length-take r.buffer_pos r.buffer))
            (ground (arith, length-append (waiting r) (b ∷ bs), length-take r.buffer_pos r.buffer))
            s,
      )
