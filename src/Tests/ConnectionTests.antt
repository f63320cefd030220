-- ===== src/Tests/ConnectionTests.antt =====
-- Connections at concrete inputs: names, equality, and an item that is written and read back.
use Prim.Native.String.{String}
use Prim.Native.Char.{code}
use conntop.Prelude.{ℕ, zero, suc, ◌≡◌, refl, inl, false, if◌then◌else◌, arith, ◌==◌}
use conntop.Json.{Result, has_nul, ok}
use conntop.Connection.{
  Address, ip4, ip6, tcp, tcp4, Connection, ConnectionData, update, create_type, port_type_of,
}
use conntop.Connection.Serialize.{AddressText, serialize}
use conntop.Connection.Deserialize.{read_item}
use conntop.Connection.Deserialize.RoundTrip.{IsWide, read_item-serialize}
use conntop.Tests.JsonModel.{json}

-- Texts of addresses, by strokes: "11;" is 2.
abbrev strokes : ℕ → String → String
strokes zero s = String.◌∷◌ ";" s
strokes (suc n) s = String.◌∷◌ "1" (strokes n s)

abbrev take_strokes : String → ℕ × String
take_strokes String.[] = (0, "")
take_strokes (String.◌∷◌ c s) =
    let rest = take_strokes s in if code c == 59 then (0, s) else (suc rest.0, rest.1)

take_strokes_lem : (n : ℕ) (s : String) → take_strokes (strokes n s) ≡ (n, s)
take_strokes_lem zero s = refl
take_strokes_lem (suc n) s = rw (take_strokes_lem n s)

strokes_IsPlain : (n : ℕ) (s : String) → has_nul s ≡ false → has_nul (strokes n s) ≡ false
strokes_IsPlain zero s h = h
strokes_IsPlain (suc n) s h = strokes_IsPlain n s h

abbrev to_text : Address → String
to_text (ip4 n) = strokes n ""
to_text (ip6 a b c d) = strokes a (strokes b (strokes c (strokes d "")))

abbrev read4 : String → Result Address
read4 s = ok (ip4 (take_strokes s).0)

abbrev read6 : String → Result Address
read6 s =
    let (a, s1) = take_strokes s in
    let (b, s2) = take_strokes s1 in
    let (c, s3) = take_strokes s2 in ok (ip6 a b c (take_strokes s3).0)

pub to_text_IsPlain : (a : Address) → has_nul (to_text a) ≡ false
to_text_IsPlain (ip4 n) = strokes_IsPlain n "" refl
to_text_IsPlain (ip6 a b c d) =
    strokes_IsPlain a _ (strokes_IsPlain b _ (strokes_IsPlain c _ (strokes_IsPlain d "" refl)))

pub read4_lem : (n : ℕ) → read4 (to_text (ip4 n)) ≡ ok (ip4 n)
read4_lem n = rw (take_strokes_lem n "")

pub read6_lem : (a b c d : ℕ) → read6 (to_text (ip6 a b c d)) ≡ ok (ip6 a b c d)
read6_lem a b c d = rw (
  take_strokes_lem a (strokes b (strokes c (strokes d ""))),
  take_strokes_lem b (strokes c (strokes d "")),
  take_strokes_lem c (strokes d ""),
  take_strokes_lem d "",
)

abbrev pub address_text : AddressText
address_text = record {
  to_string = to_text;
  ip4_from_string = read4;
  ip6_from_string = read6;
  plain = to_text_IsPlain;
  ip4_lem = read4_lem;
  ip6_lem = read6_lem;
}

abbrev pub visit : ConnectionData
visit = record {
  connection = record {
    src_addr = ip4 3;
    src_port = record { port_type = tcp; number = 50000 };
    dst_addr = ip4 5;
    dst_port = record { port_type = tcp; number = 443 };
  };
  traffic = record {
    rx_packets = 10;
    tx_packets = 20;
    rx_bytes = 1000;
    tx_bytes = 2000;
    rx_speed = 5;
    tx_speed = 6;
  };
  state = 3;
}

pub visit-IsWide : IsWide visit
unfolding port_type_of create_type
visit-IsWide = record {
  src_port = omega arith;
  dst_port = omega arith;
  state = inl (omega arith);
  rx_packets = omega arith;
  tx_packets = omega arith;
  rx_bytes = omega arith;
  tx_bytes = omega arith;
  rx_speed = omega arith;
  tx_speed = omega arith;
}

-- An update of the state (2) and of the received bytes (256).
read_item_example :
    read_item json (serialize json address_text visit update 258)
    ≡ ok (record {
      action = update;
      connection_type = tcp4;
      src_address = "111;";
      dst_address = "11111;";
      src_port = 50000;
      dst_port = 443;
      update_flags = 258;
      state = 3;
      traffic = record {
        rx_packets = 0;
        tx_packets = 0;
        rx_bytes = 1000;
        tx_bytes = 0;
        rx_speed = 0;
        tx_speed = 0;
      };
    })
unfolding create_type
read_item_example =
    read_item-serialize json address_text visit 258 update visit-IsWide (omega arith)

abbrev reply : Connection
reply = record {
  src_addr = ip4 5;
  src_port = record { port_type = tcp; number = 443 };
  dst_addr = ip4 3;
  dst_port = record { port_type = tcp; number = 50000 };
}
