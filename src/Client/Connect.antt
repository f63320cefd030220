-- ===== src/Client/Connect.antt =====
-- `ClientConnector` of Source/Client.cpp.
pub mod Order
use conntop.Prelude.{
  ℕ, ◌+◌, ◌*◌, ◌-◌, zero, suc, Bool, true, false, String, List, [], ◌∷◌, Option, none, some,
  get_elem?, length, ltb, leb, if◌then◌else◌,
}
use conntop.Connection.{Address}

-- `m_portIndex` and `m_addressIndex` are below the sizes of the packs, and one.
pub record Connector : Type 0 where
  pub resolved_addresses : List Address
  pub resolved_ports : List ℕ
  pub address_index : ℕ
  pub port_index : ℕ
  pub current_address : Option Address
  pub current_port : ℕ

abbrev pub default_port : ℕ
default_port = 55555

-- What the loop of `tryNext` came to: a socket, or no more combinations.
pub data Attempted : Type 0 where
  connected_to : ℕ → Attempted
  no_more out_of_rounds : Attempted

-- The next combination, if there is one.
choose : Option Address → Option ℕ → Connector → Option (Address × ℕ) × Connector
choose (some a) (some p) c = (some (a, p), record c { current_address = some a; current_port = p })
choose _ _ c = (none, record c { current_address = none; current_port = default_port })

unfoldable pub advance : Connector → Option (Address × ℕ) × Connector
unfolding choose
advance c = elim c.resolved_ports [
  | [] ↦
      let address = get_elem? c.resolved_addresses c.address_index in
      choose address (some default_port) (
        if ltb c.address_index (length c.resolved_addresses)
        then record c { address_index = c.address_index + 1 }
        else c)
  | _ ∷ _ ↦
      let wraps = leb (length c.resolved_addresses) c.address_index in
      let c₁ = if wraps then record c { port_index = c.port_index + 1; address_index = 0 } else c in
      choose (get_elem? c.resolved_addresses c₁.address_index)
        (get_elem? c.resolved_ports c₁.port_index)
        (record c₁ { address_index = c₁.address_index + 1 })
]

-- The loop, on fuel; `attempt` is the socket's `connect`.
unfoldable pub rounds : ℕ → (Address → ℕ → Option ℕ) → Connector → Attempted × Connector
rounds zero attempt c = (out_of_rounds, c)
rounds (suc n) attempt c =
    let (next, c') = advance c in
    let rest = rounds n attempt c' in
    elim next [
      | none ↦ (no_more, c')
      | some (a, p) ↦ elim (attempt a p) [ some fd ↦ (connected_to fd, c') | none ↦ rest ]
    ]

-- Rounds enough for every combination, and one to see that there are no more.
abbrev pub enough : Connector → ℕ
enough c = suc (length c.resolved_addresses * suc (length c.resolved_ports))

-- `tryNext`, which does nothing as long as no address is known.
try_from : (Address → ℕ → Option ℕ) → Connector → List Address → Option Attempted × Connector
try_from attempt c [] = (none, c)
try_from attempt c (_ ∷ _) = let (result, c') = rounds (enough c) attempt c in (some result, c')

unfoldable pub try_next : (Address → ℕ → Option ℕ) → Connector → Option Attempted × Connector
unfolding try_from
try_next attempt c = try_from attempt c c.resolved_addresses
