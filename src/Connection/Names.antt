-- ===== src/Connection/Names.antt =====
-- Names read back, and equality of connections. Source/Connection.cpp, Source/Connection.hpp.
use conntop.Prelude.{
  ℕ, ◌≤◌, ◌≡◌, refl, ◌⊎◌, inl, inr, ◌↔◌, Bool, true, false, String, List, [], ◌∷◌, if◌then◌else◌,
  arith, ◌==◌, ==_iff, holds_to, holds_to_lem,
}
use conntop.Json.{ok, has_nul}
use conntop.Connection.{
  Address, ip4, Port, PortType, udp, tcp, ConnectionType, udp4, udp6, tcp4, tcp6, ConnectionAction,
  create, Connection, create_type, type_to_string, type_to_enum, action_to_string, action_to_enum,
  listen, name_in, tcp_names, state_to_string, state_to_enum, udp_state_to_string,
  tcp_state_to_string, udp_state_to_enum, tcp_state_to_enum, port_type_of, address_eq, port_eq,
  connection_type_eq, connection_eq,
}

pub type_to_enum-to_string : (t : ConnectionType) → type_to_enum (type_to_string t) ≡ ok t
unfolding type_to_enum type_to_string
type_to_enum-to_string udp4 = refl
type_to_enum-to_string t = refl

pub action_to_enum-to_string : (a : ConnectionAction) → action_to_enum (action_to_string a) ≡ ok a
unfolding action_to_enum action_to_string
action_to_enum-to_string create = refl
action_to_enum-to_string a = refl

-- The states that the enumerations of the two protocols name.
abbrev pub IsState : PortType → ℕ → Type 0
IsState udp s = (s ≡ 0) ⊎ (s ≡ listen)
IsState tcp s = (s ≤ 11) ⊎ (s ≡ listen)

udp_back : (s : ℕ) → IsState udp s → udp_state_to_enum (udp_state_to_string s) ≡ s
unfolding udp_state_to_string udp_state_to_enum
udp_back s (inl e) = rw e
udp_back s (inr e) = rw e

tcp_table : holds_to (λ s. tcp_state_to_enum (tcp_state_to_string s) == s) 11 ≡ true
unfolding holds_to tcp_state_to_string tcp_state_to_enum
tcp_table = refl

tcp_back : (s : ℕ) → IsState tcp s → tcp_state_to_enum (tcp_state_to_string s) ≡ s
unfolding tcp_state_to_string tcp_state_to_enum
tcp_back s (inl h) = (==_iff _ s).0 (holds_to_lem _ 11 s (omega arith) tcp_table)
tcp_back s (inr e) = rw e

-- Every state that the enumeration of a connection's protocol names is read back from its text,
-- UNKNOWN included.
pub state_to_enum-to_string :
    (t : ConnectionType) (s : ℕ)
    → IsState (port_type_of t) s
    → state_to_enum (port_type_of t) (state_to_string s t) ≡ s
unfolding state_to_enum state_to_string port_type_of
state_to_enum-to_string udp4 s h = udp_back s h
state_to_enum-to_string udp6 s h = udp_back s h
state_to_enum-to_string tcp4 s h = tcp_back s h
state_to_enum-to_string tcp6 s h = tcp_back s h

either_IsPlain :
    (b : Bool) (s t : String)
    → has_nul s ≡ false
    → has_nul t ≡ false
    → has_nul (if b then s else t) ≡ false
either_IsPlain true s t p q = p
either_IsPlain false s t p q = q

plain_names : List (ℕ × String) → Bool
plain_names [] = true
plain_names ((n, name) ∷ rest) = if has_nul name then false else plain_names rest

name_in-IsPlain :
    (names : List (ℕ × String)) (s : ℕ)
    → plain_names names ≡ true
    → has_nul (name_in names s) ≡ false
unfolding name_in plain_names
name_in-IsPlain [] s h = refl
name_in-IsPlain ((n, name) ∷ rest) s h =
    either_IsPlain (n == s) name (name_in rest s) (ground arith)
      (name_in-IsPlain rest s (ground arith))

tcp_IsPlain : (s : ℕ) → has_nul (tcp_state_to_string s) ≡ false
unfolding tcp_state_to_string plain_names
tcp_IsPlain s = name_in-IsPlain tcp_names s refl

udp_IsPlain : (s : ℕ) → has_nul (udp_state_to_string s) ≡ false
unfolding udp_state_to_string
udp_IsPlain s =
    either_IsPlain (s == 0) "" (if s == listen then "LISTEN" else "?") refl
      (either_IsPlain (s == listen) "LISTEN" "?" refl refl)

pub state_to_string-IsPlain : (t : ConnectionType) (s : ℕ) → has_nul (state_to_string s t) ≡ false
unfolding state_to_string
state_to_string-IsPlain udp4 s = udp_IsPlain s
state_to_string-IsPlain udp6 s = udp_IsPlain s
state_to_string-IsPlain tcp4 s = tcp_IsPlain s
state_to_string-IsPlain tcp6 s = tcp_IsPlain s

pub address_eq_iff : (a b : Address) → (address_eq a b ≡ true) ↔ (a ≡ b)
unfolding address_eq
address_eq_iff (ip4 x) (ip4 y) = ground arith
address_eq_iff a b = ground arith

pub port_eq_iff : (a b : Port) → (port_eq a b ≡ true) ↔ (a ≡ b)
unfolding port_eq
port_eq_iff a b = ground arith

-- Two connections compare equal exactly when their addresses and ports are the same.
pub connection_eq_iff : (a b : Connection) → (connection_eq a b ≡ true) ↔ (a ≡ b)
unfolding connection_eq connection_type_eq create_type
connection_eq_iff a b = ground (
  arith,
  address_eq_iff a.src_addr b.src_addr,
  address_eq_iff a.dst_addr b.dst_addr,
  port_eq_iff a.src_port b.src_port,
  port_eq_iff a.dst_port b.dst_port,
)
