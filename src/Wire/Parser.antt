-- ===== src/Wire/Parser.antt =====
-- `MessageParser` of Source/ClientServerProtocol.hpp, over RapidJSON's iterative reader, which is a
-- parameter (vendored in Library/RapidJSON).
pub mod Loop
pub mod Total
use conntop.Prelude.{
  ℕ, zero, suc, ◌+◌, ◌-◌, ◌≤◌, ◌<◌, ◌≡◌, Bool, true, false, ◌&&◌, String, List, [], ◌∷◌, Option,
  none, some, ltb, leb, ◌==◌, if◌then◌else◌, length, drop,
}
use conntop.Wire.Writer.{Bytes}
use conntop.Wire.Reader.{Parsed, took, refused, stuck}

-- `stream.Peek()`; a NUL stands behind the data.
abbrev pub front : Bytes → ℕ
front [] = 0
front (b ∷ bs) = b

abbrev pub peek : Bytes → ℕ → ℕ
peek text tell = front (drop tell text)

-- The reader and the handler that its tokens build a value in. A call of `next`, which is made only
-- while no message is complete, reads one token from a position of the stream; without an error it
-- fails only where the data ends or a NUL stands.
pub record TokenReader : Type 1 where
  pub State : Type 0
  pub Value : Type 0
  pub init : State → State
  pub is_complete : State → Bool
  pub next : State → Bytes → ℕ → State × Bool × ℕ
  pub error : State → Option String
  pub is_last_value_invalid : State → Bool
  pub pop_last_value : State → State
  -- The value that was built, which leaves the handler.
  pub get : State → State × Option Value
  pub init_lem : (s : State) → is_complete (init s) ≡ false
  pub pop_lem : (s : State) → is_complete (pop_last_value s) ≡ is_complete s
  pub token_lem :
      (s s' : State) (text : Bytes) (tell tell' : ℕ)
      → is_complete s ≡ false
      → next s text tell ≡ (s', true, tell')
      → (tell < tell') × (tell' ≤ length text)
  pub partial_lem :
      (s s' : State) (text : Bytes) (tell tell' : ℕ)
      → is_complete s ≡ false
      → tell ≤ length text
      → next s text tell ≡ (s', false, tell')
      → error s' ≡ none
      → (tell ≤ tell') × (tell' ≤ length text) × (peek text tell' ≡ 0) × (is_complete s' ≡ false)

module _ (R : TokenReader) where
  open R use {
    State, Value, init, is_complete, next, error, is_last_value_invalid, pop_last_value, get,
  }

  -- How the loop of `doParse` ends, with `stream.Tell()` and `parsedLength`; `endless` is out of fuel.
  pub data Tokens : Type 0 where
    completed partial : State → ℕ → ℕ → Tokens
    bad : State → String → Tokens
    endless : Tokens

  pub data Round : Type 0 where
    more : State → ℕ → Round
    ended : Tokens → Round

  abbrev pub tidied : State → State
  tidied s = if is_last_value_invalid s then pop_last_value s else s

  unfoldable pub judge : State × Bool × ℕ → ℕ → Round
  judge (s, true, tell) parsed = more s tell
  judge (s, false, tell) parsed = elim (error s) [
    | some text ↦ ended (bad (init s) text)
    | none ↦ ended (partial (tidied s) tell parsed)
  ]

  unfoldable pub token : State → Bytes → ℕ → ℕ → Round
  unfolding judge
  token s text tell parsed =
      if is_complete s then ended (completed s tell parsed) else judge (next s text tell) parsed

  unfoldable pub tokens : ℕ → State → Bytes → ℕ → ℕ → Tokens
  tokens zero s text tell parsed = endless
  tokens (suc k) s text tell parsed = elim (token s text tell parsed) [
    | more s' tell' ↦ tokens k s' text tell' tell'
    | ended t ↦ t
  ]

  -- What the callback does with a message: it may throw.
  abbrev pub Callback : Type 0 → Type 0
  Callback W = Value → W → W × Option String

  -- How a call of `doParse` ends, the owner's world included.
  pub data Step (W : Type 0) : Type 0 where
    stopped : State → W → ℕ → ℕ → Step W
    threw : State → W → String → Step W
    loops : Step W

  module _ {W : Type 0} (on_message : Callback W) where
    called : State → W × Option String → ℕ → ℕ → Step W
    called s (w, none) tell parsed = stopped (init s) w tell parsed
    called s (w, some text) tell parsed = threw s w text

    -- The callback is called with the value; without `init` if it throws.
    with_value : State × Option Value → W → ℕ → ℕ → Step W
    unfolding called
    with_value (s, none) w tell parsed = threw (init s) w "Message deserialization failed"
    with_value (s, some v) w tell parsed = called s (on_message v w) tell parsed

    hand_on : Tokens → W → Step W
    unfolding with_value
    hand_on (completed s tell parsed) w = with_value (get s) w tell parsed
    hand_on (partial s tell parsed) w = stopped s w tell parsed
    hand_on (bad s text) w = threw s w text
    hand_on endless w = loops

    unfoldable pub do_parse : State → W → Bytes → ℕ → Step W
    unfolding hand_on
    do_parse s w text tell = hand_on (tokens (suc (length text)) s text tell tell) w

    -- One round of the loop of `parse`: a NUL is skipped.
    abbrev pub round : State → W → Bytes → ℕ → Step W
    round s w text tell =
        if peek text tell == 0 then stopped s w (tell + 1) (tell + 1) else do_parse s w text tell

    unfoldable pub rounds : ℕ → State → W → Bytes → ℕ → ℕ → Step W
    rounds zero s w text tell parsed = loops
    rounds (suc k) s w text tell parsed =
        let next_round : Step W = (elim (round s w text tell) [
          | stopped s' w' tell' parsed' ↦ rounds k s' w' text tell' parsed'
          | threw s' w' what ↦ threw s' w' what
          | loops ↦ loops
        ]) in
        if ltb tell (length text) then next_round else stopped s w tell parsed

    judge_length : Step W → ℕ → ℕ → Parsed (State × W)
    judge_length (stopped s w tell parsed) size n =
        if parsed == 0 && leb (size - 1) n
        then refused (init s, w) "Message token is too big"
        else took (s, w) parsed
    judge_length (threw s w what) size n = refused (s, w) what
    judge_length loops size n = stuck

    unfoldable pub parse : State × W → Bytes → ℕ → Parsed (State × W)
    unfolding judge_length
    parse (s, w) text size =
        judge_length (rounds (suc (length text)) s w text 0 0) size (length text)
