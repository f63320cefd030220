-- ===== src/ConnectionList/Sort/Order.antt =====
-- What `std::sort` and `std::upper_bound` need of the orders of a connection list.
-- Source/ConnectionList.cpp.
use conntop.Prelude.{ℕ, ◌⊎◌, inl, inr, ◌≡◌, Bool, true, false, List, [], ◌∷◌, ltb, arith}
use conntop.Connection.{Address, ConnectionData, is_proto_equal}
use conntop.ConnectionList.Sort.{
  SortMode, unsorted, proto, proto_state, src_address, dst_address, src_hostname, dst_hostname,
  src_asn, dst_asn, src_country, dst_country, src_port, dst_port, src_service, dst_service,
  rx_packets, tx_packets, rx_bytes, tx_bytes, rx_speed, tx_speed, Names, text_less, int_less,
  proto_less, proto_state_less, address_less, ascending, compare_func,
}

-- `a` comes before `b`, so `b` does not come before `a`, and any `c` comes after the one or before
-- the other.
abbrev Separates : {A : Type 0} → (A → A → Bool) → A → A → A → Type 0
Separates less a b c = (less b a ≡ false) × ((less a c ≡ true) ⊎ (less c b ≡ true))

ltb-Separates : (x y z : ℕ) → ltb x y ≡ true → Separates ltb x y z
ltb-Separates x y z h = ground arith

text_less-Separates : (x y z : List ℕ) → text_less x y ≡ true → Separates text_less x y z
unfolding text_less
text_less-Separates x [] z h = ground arith
text_less-Separates [] (y ∷ ys) [] h = ground arith
text_less-Separates [] (y ∷ ys) (z ∷ zs) h = ground arith
text_less-Separates (x ∷ xs) (y ∷ ys) [] h = ground (arith, text_less-Separates xs ys [])
text_less-Separates (x ∷ xs) (y ∷ ys) (z ∷ zs) h = ground (arith, text_less-Separates xs ys zs)

int_less-Separates : (x y z : ℕ) → int_less x y ≡ true → Separates int_less x y z
int_less-Separates x y z h = ltb-Separates _ _ _ h

proto_less-Separates : (a b c : ConnectionData) → proto_less a b ≡ true → Separates proto_less a b c
unfolding proto_less
proto_less-Separates a b c h = ltb-Separates _ _ _ h

proto_state_less-Separates :
    (a b c : ConnectionData) → proto_state_less a b ≡ true → Separates proto_state_less a b c
unfolding proto_state_less is_proto_equal
proto_state_less-Separates a b c h = ground (arith, int_less-Separates a.state b.state c.state)

address_less-Separates :
    (n : Names) (a b c : Address) → address_less n a b ≡ true → Separates (address_less n) a b c
unfolding address_less
address_less-Separates n a b c h =
    ground
      (arith, text_less-Separates (n.numeric_string a) (n.numeric_string b) (n.numeric_string c))

ascending-Separates :
    (n : Names) (mode : SortMode) (a b c : ConnectionData)
    → ascending n mode a b ≡ true
    → Separates (ascending n mode) a b c
unfolding ascending
ascending-Separates n unsorted a b c h = ground arith
ascending-Separates n proto a b c h = proto_less-Separates a b c h
ascending-Separates n proto_state a b c h = proto_state_less-Separates a b c h
ascending-Separates n src_address a b c h = address_less-Separates n _ _ _ h
ascending-Separates n dst_address a b c h = address_less-Separates n _ _ _ h
ascending-Separates n src_hostname a b c h = text_less-Separates _ _ _ h
ascending-Separates n dst_hostname a b c h = text_less-Separates _ _ _ h
ascending-Separates n src_asn a b c h = ltb-Separates _ _ _ h
ascending-Separates n dst_asn a b c h = ltb-Separates _ _ _ h
ascending-Separates n src_country a b c h = ltb-Separates _ _ _ h
ascending-Separates n dst_country a b c h = ltb-Separates _ _ _ h
ascending-Separates n src_port a b c h = ltb-Separates _ _ _ h
ascending-Separates n dst_port a b c h = ltb-Separates _ _ _ h
ascending-Separates n src_service a b c h = text_less-Separates _ _ _ h
ascending-Separates n dst_service a b c h = text_less-Separates _ _ _ h
ascending-Separates n rx_packets a b c h = ltb-Separates _ _ _ h
ascending-Separates n tx_packets a b c h = ltb-Separates _ _ _ h
ascending-Separates n rx_bytes a b c h = ltb-Separates _ _ _ h
ascending-Separates n tx_bytes a b c h = ltb-Separates _ _ _ h
ascending-Separates n rx_speed a b c h = ltb-Separates _ _ _ h
ascending-Separates n tx_speed a b c h = ltb-Separates _ _ _ h

-- The order of every sort mode, ascending or descending, is a strict weak order, as std::sort and
-- std::upper_bound require: if one connection comes before another, then the other does not come
-- before it, and any third comes after the first or before the second.
pub compare_func-StrictWeak :
    (n : Names) (mode : SortMode) (is_ascending : Bool) (a b c : ConnectionData)
    → compare_func n mode is_ascending a b ≡ true
    → let less = compare_func n mode is_ascending in
      (less b a ≡ false) × ((less a c ≡ true) ⊎ (less c b ≡ true))
unfolding compare_func
compare_func-StrictWeak n mode true a b c h = ascending-Separates n mode a b c h
compare_func-StrictWeak n mode false a b c h =
    let (other, between) = ascending-Separates n mode b a c h in
    (other, elim between [ inl q ↦ inr q | inr q ↦ inl q ])
