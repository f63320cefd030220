-- ===== src/Wire/Parser/Total.antt =====
-- The loop of `MessageParser::parse`, and the reader over it.
-- Source/ClientServerProtocol.hpp, Source/SocketReaderWriter.hpp.
use conntop.Prelude.{
  ◌⊎◌, ltb, if◌then◌else◌, ◌++◌, [], ℕ, zero, suc, ◌+◌, ◌≤◌, ◌<◌, ◌≡◌, ◌≢◌, false, Option, none,
  some, String, length, arith,
}
use conntop.Wire.Writer.{Bytes}
use conntop.Wire.Reader.{Answer, Reader, hangs, room, do_receive}
use conntop.Wire.Reader.Room.{IsValid, waiting, Sound, brought, Kept, do_receive_lem}
use conntop.Wire.Parser.{
  peek, TokenReader, Tokens, completed, partial, bad, endless, tokens, Step, stopped, threw, loops,
  Callback, called, with_value, hand_on, do_parse, round, rounds, judge_length, parse,
}
use conntop.Wire.Parser.Loop.{Ends, tokens-past}

module _ (R : TokenReader) where
  open R use {State, is_complete, init_lem}

  module _ {W : Type 0} (on_message : Callback R W) where
    abbrev Steps : Bytes → ℕ → Step R W → Type 0
    Steps text low (stopped s w tell parsed) =
        (low ≤ tell) × (tell ≤ length text) × (parsed ≤ tell) × (is_complete s ≡ false)
    Steps text low (threw s w what) = Unit {0}
    Steps text low loops = ⊥

    called-Steps :
        (text : Bytes) (low : ℕ) (s : State) (o : W × Option String) (tell parsed : ℕ)
        → (low ≤ tell) × (tell ≤ length text) × (parsed ≤ tell)
        → Steps text low (called R on_message s o tell parsed)
    unfolding called
    called-Steps text low s (w, none) tell parsed h = (h.0, h.1, h.2, init_lem s)
    called-Steps text low s (w, some what) tell parsed h = tt

    with_value-Steps :
        (text : Bytes) (low : ℕ) (o : State × Option R.Value) (w : W) (tell parsed : ℕ)
        → (low ≤ tell) × (tell ≤ length text) × (parsed ≤ tell)
        → Steps text low (with_value R on_message o w tell parsed)
    unfolding with_value
    with_value-Steps text low (s, none) w tell parsed h = tt
    with_value-Steps text low (s, some v) w tell parsed h =
        called-Steps text low s (on_message v w) tell parsed h

    hand_on-Steps :
        (text : Bytes) (low : ℕ) (t : Tokens R) (w : W)
        → Ends R text low t
        → Steps text low (hand_on R on_message t w)
    unfolding hand_on
    hand_on-Steps text low (completed s tell parsed) w h =
        with_value-Steps text low (R.get s) w tell parsed h
    hand_on-Steps text low (partial s tell parsed) w h = (h.0, h.1, h.2, h.4)
    hand_on-Steps text low (bad s what) w h = tt
    hand_on-Steps text low endless w h = h

    do_parse-Steps :
        (s : State) (w : W) (text : Bytes) (tell : ℕ)
        → tell < length text
        → is_complete s ≡ false
        → peek text tell ≢ 0
        → Steps text (tell + 1) (do_parse R on_message s w text tell)
    unfolding do_parse
    do_parse-Steps s w text tell h c z =
        hand_on-Steps text (tell + 1) (tokens R (suc (length text)) s text tell tell) w (
          tokens-past R (suc (length text)) s text tell tell (omega arith) (omega arith)
            (omega arith) c z)

    round-Steps :
        (s : State) (w : W) (text : Bytes) (tell : ℕ)
        → tell < length text
        → is_complete s ≡ false
        → Steps text (tell + 1) (round R on_message s w text tell)
    round-Steps s w text tell h c = ground (arith, do_parse-Steps s w text tell h c)

    higher :
        (text : Bytes) (low low' : ℕ) (t : Step R W)
        → low ≤ low'
        → Steps text low' t
        → Steps text low t
    higher text low low' (stopped s w tell parsed) h e = ground arith
    higher text low low' (threw s w what) h e = tt
    higher text low low' loops h e = e

    step_on :
        (text : Bytes) (tell : ℕ) (o : Step R W) (run : State → W → ℕ → ℕ → Step R W)
        → ((s : State) (w : W) (tell' parsed' : ℕ)
            → tell < tell'
            → tell' ≤ length text
            → parsed' ≤ tell'
            → is_complete s ≡ false
            → Steps text tell' (run s w tell' parsed'))
        → Steps text (tell + 1) o
        → Steps text tell (elim o [
          | stopped s w tell' parsed' ↦ run s w tell' parsed'
          | threw s w what ↦ threw s w what
          | loops ↦ loops
        ])
    step_on text tell (stopped s w tell' parsed') run rec h =
        higher text tell tell' _ (omega arith) (rec s w tell' parsed' (omega arith) h.1 h.2 h.3)
    step_on text tell (threw s w what) run rec h = tt
    step_on text tell loops run rec h = h

    go_or_stop :
        (text : Bytes) (tell : ℕ) (x y : Step R W)
        → (tell < length text → Steps text tell x)
        → Steps text tell y
        → Steps text tell (if ltb tell (length text) then x else y)
    go_or_stop text tell x y hx hy = ground arith

    rounds-Steps :
        (k : ℕ) (s : State) (w : W) (text : Bytes) (tell parsed : ℕ)
        → tell ≤ length text
        → parsed ≤ tell
        → length text < k + tell
        → is_complete s ≡ false
        → Steps text tell (rounds R on_message k s w text tell parsed)
    unfolding rounds
    rounds-Steps zero s w text tell parsed h p f c = absurd (omega arith)
    rounds-Steps (suc k) s w text tell parsed h p f c =
        go_or_stop text tell _ _
          (λ l.
            step_on text tell (round R on_message s w text tell)
              (λ s' w' tell' parsed'. rounds R on_message k s' w' text tell' parsed')
              (λ s' w' tell' parsed' a b d e.
                rounds-Steps k s' w' text tell' parsed' b d (omega arith) e)
              (round-Steps s w text tell l c))
          (omega arith, h, p, c)

    judge_length-Sound :
        (text : Bytes) (size low : ℕ) (t : Step R W)
        → Steps text low t
        → Sound (length text) size (judge_length R on_message t size (length text))
    unfolding judge_length
    judge_length-Sound text size low (stopped s w tell parsed) h = ground arith
    judge_length-Sound text size low (threw s w what) h = tt
    judge_length-Sound text size low loops h = h

    pub parse-Sound :
        (s : State) (w : W) (text : Bytes) (size : ℕ)
        → is_complete s ≡ false
        → Sound (length text) size (parse R on_message (s, w) text size)
    unfolding parse
    parse-Sound s w text size c =
        judge_length-Sound text size 0 _ (
          rounds-Steps (suc (length text)) s w text 0 0 (omega arith) (omega arith) (omega arith) c)

    -- For a valid stream reader over the message parser, which has no completed message in hand,
    -- and an answer of the socket that fits the room it was offered: doReceive ends (the parser's
    -- loops need no more rounds than there are bytes, and one), the reader is valid again, so that
    -- its buffer is within bounds and the next receive is offered at least one byte, and either no
    -- bytes came or, where the parser returned, what waits in the buffer is what waited and what
    -- came less the bytes that the parser took.
    pub receive_lem :
        (r : Reader (State × W)) (a : Answer)
        → IsValid r
        → is_complete (r.parser).0 ≡ false
        → length (brought a) ≤ room r
        → let (r', how) = do_receive (parse R on_message) a r in
          IsValid r'
          × ((brought a ≡ [])
              ⊎ Kept
                  (waiting r ++ brought a)
                  (parse R on_message r.parser (waiting r ++ brought a) r.buffer_size)
                  r')
          × (how ≢ hangs)
    receive_lem r a v c h =
        do_receive_lem (parse R on_message) r a v h
          (parse-Sound (r.parser).0 (r.parser).1 (waiting r ++ brought a) r.buffer_size c)
