-- ===== src/Tests/ListTests.antt =====
-- The connection list at concrete inputs.
use conntop.Prelude.{◌≡◌, ◌⊎◌, refl, true, false, [], ◌∷◌}
use conntop.ConnectionList.Sort.{Names, rx_bytes, compare_func, ascending}
use conntop.ConnectionList.Sort.Order.{compare_func-StrictWeak}
use conntop.Tests.ConnectionTests.{visit}
use conntop.Tests.ReplicaTests.{later}

-- Nothing is known of addresses and ports.
abbrev pub nameless : Names
nameless = record {
  numeric_string = λ a. 49 ∷ [];
  hostname_string = λ a. [];
  asn = λ a. 0;
  country = λ a. 0;
  service_string = λ p. [];
}

-- The visit had received less.
compare_func_example :
    let less = compare_func nameless rx_bytes true in
    (less later visit ≡ false) × ((less visit visit ≡ true) ⊎ (less visit later ≡ true))
unfolding compare_func ascending
compare_func_example = compare_func-StrictWeak nameless rx_bytes true visit later visit refl
