-- ===== src/Tests/ReaderTests.antt =====
-- The reader and the parser at concrete inputs: every byte but NUL is a message of its own.
use conntop.Prelude.{
  ◌⊎◌, ℕ, ◌+◌, ◌≤◌, ◌<◌, ◌≡◌, ◌≢◌, refl, Bool, true, false, List, [], ◌∷◌, ◌++◌, Option, none, some,
  String, if◌then◌else◌, ◌==◌, length, drop-all, arith,
}
use conntop.Wire.Writer.{Bytes}
use conntop.Wire.Reader.{bytes, Reader, hangs, do_receive}
use conntop.Wire.Reader.Room.{IsValid, waiting, brought, Kept}
use conntop.Wire.Parser.{peek, TokenReader, parse}
use conntop.Wire.Parser.Total.{receive_lem}

-- Whether a message is complete, and its value while it is there.
abbrev Reading : Type 0
Reading = Bool × Option ℕ

abbrev read_byte : Reading → Bytes → ℕ → Reading × Bool × ℕ
read_byte s text tell =
    if peek text tell == 0
    then ((false, none), false, tell)
    else ((true, some (peek text tell)), true, tell + 1)

abbrev is_full : Reading → Bool
is_full s = s.0

abbrev no_error : Reading → Option String
no_error s = none

read_lem :
    (s s' : Reading) (text : Bytes) (tell tell' : ℕ)
    → is_full s ≡ false
    → read_byte s text tell ≡ (s', true, tell')
    → (tell < tell') × (tell' ≤ length text)
read_lem s s' text tell tell' c e = ground (arith, drop-all tell text)

end_lem :
    (s s' : Reading) (text : Bytes) (tell tell' : ℕ)
    → is_full s ≡ false
    → tell ≤ length text
    → read_byte s text tell ≡ (s', false, tell')
    → no_error s' ≡ none
    → (tell ≤ tell') × (tell' ≤ length text) × (peek text tell' ≡ 0) × (is_full s' ≡ false)
end_lem s s' text tell tell' c h e q = ground arith

abbrev byte_reader : TokenReader
byte_reader = record {
  State = Reading;
  Value = ℕ;
  init = λ s. (false, none);
  is_complete = is_full;
  next = read_byte;
  error = no_error;
  is_last_value_invalid = λ s. false;
  pop_last_value = λ s. s;
  get = λ s. ((s.0, none), s.1);
  init_lem = λ s. refl;
  pop_lem = λ s. refl;
  token_lem = read_lem;
  partial_lem = end_lem;
}

-- The owner keeps the messages and refuses 9.
abbrev note : ℕ → List ℕ → List ℕ × Option String
note b seen = if b == 9 then (seen, some "nine") else (b ∷ seen, none)

-- A reader whose buffer holds a byte that was taken before.
abbrev fresh : Reader (Reading × List ℕ)
fresh = record { buffer = 7 ∷ []; buffer_pos = 0; buffer_size = 4; parser = ((false, none), []) }

fresh-IsValid : IsValid fresh
fresh-IsValid = record { held = omega arith; free = omega arith }

receive_example :
    let (r', how) = do_receive (parse byte_reader note) (bytes (5 ∷ 0 ∷ 6 ∷ [])) fresh in
    IsValid r'
    × ((brought (bytes (5 ∷ 0 ∷ 6 ∷ [])) ≡ [])
        ⊎ Kept
            (waiting fresh ++ brought (bytes (5 ∷ 0 ∷ 6 ∷ [])))
            (parse byte_reader note fresh.parser
              (waiting fresh ++ brought (bytes (5 ∷ 0 ∷ 6 ∷ [])))
              4)
            r')
    × (how ≢ hangs)
receive_example =
    receive_lem byte_reader note fresh (bytes (5 ∷ 0 ∷ 6 ∷ [])) fresh-IsValid refl (omega arith)
