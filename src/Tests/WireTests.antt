-- ===== src/Tests/WireTests.antt =====
-- The writer at work: two bytes of five are out when `stop` is called.
use conntop.Prelude.{◌≡◌, refl, ◌⊎◌, ◌↔◌, true, [], ◌∷◌, ◌++◌, arith}
use conntop.Wire.Writer.{Store, none, shared, to_shared, Writer, stop, do_send}
use conntop.Wire.Writer.Stream.{IsValid, pending, do_send_lem, stop_refused, stop_done}

abbrev greeting : Store
greeting slot = 72 ∷ 69 ∷ 76 ∷ 76 ∷ 79 ∷ []

abbrev gone : Store
gone slot = []

abbrev halfway : Writer
halfway = record {
  msg_type = shared;
  buffer = [];
  ptr = to_shared 1;
  data_length = 5;
  data_pos = 2;
  msg = [];
}

halfway-IsValid : IsValid greeting halfway
unfolding IsValid
halfway-IsValid = omega arith

do_send_example :
    let (w', sent, out) = do_send greeting halfway 3 in
    IsValid greeting w'
    × (out ++ pending greeting w' ≡ pending greeting halfway)
    × ((sent ≡ true) ↔ (pending greeting w' ≡ []))
    × ((sent ≡ true) ↔ (w'.msg_type ≡ none))
do_send_example = do_send_lem greeting halfway 3 halfway-IsValid

stop_refused_example :
    (pending gone (stop greeting halfway).0 ≡ pending greeting halfway)
    × IsValid gone (stop greeting halfway).0
unfolding stop
stop_refused_example = stop_refused greeting gone halfway halfway-IsValid refl

abbrev unsent : Writer
unsent = record halfway { data_pos = 0 }

unsent-IsValid : IsValid greeting unsent
unfolding IsValid
unsent-IsValid = omega arith

stop_done_example :
    (pending greeting (stop greeting unsent).0 ≡ [])
    × ((unsent.msg_type ≡ none) ⊎ (pending greeting unsent ≡ greeting 1))
    × IsValid greeting (stop greeting unsent).0
unfolding stop
stop_done_example = stop_done greeting unsent unsent-IsValid refl
