-- ===== src/Storage/Enter.antt =====
-- Entering both ends of a connection in the storage, and the connection itself.
use conntop.Prelude.{◌≡◌, refl, ◌∙◌, true, false, none, some, ◌∷◌, if◌then◌else◌, arith}
use conntop.Connection.{Address, ip4, ip6, Port, Connection, ConnectionData, connection_eq}
use conntop.Connection.Names.{connection_eq_iff}
use conntop.Storage.{
  Storage, find_connection, add_connection, remove_connection, get_connection, write,
}
use conntop.Storage.Laws.{find-erase, find-assign, find-connection}
use conntop.Storage.Backed.{
  address_step, port_step, knows, Ends, enter, knows-address_step, has_port-port_step,
}

-- The addresses of a storage, and its ports, are all that an end is looked up in.
knows_by :
    (a : Address) (s t : Storage)
    → t.address_ip4_map ≡ s.address_ip4_map
    → t.address_ip6_map ≡ s.address_ip6_map
    → knows a s ≡ true
    → knows a t ≡ true
knows_by (ip4 a) s t p q h = rw p h
knows_by (ip6 a b c d) s t p q h = rw q h

pub Ends-by :
    (c : Connection) (s t : Storage)
    → t.address_ip4_map ≡ s.address_ip4_map
    → t.address_ip6_map ≡ s.address_ip6_map
    → t.port_map ≡ s.port_map
    → Ends c s
    → Ends c t
Ends-by c s t p q r h = record {
  src_addr = knows_by c.src_addr s t p q h.src_addr;
  dst_addr = knows_by c.dst_addr s t p q h.dst_addr;
  src_port = rw r h.src_port;
  dst_port = rw r h.dst_port;
}

Ends-address_step :
    (c : Connection) (a : Address) (s : Storage) → Ends c s → Ends c (address_step a true s).1
Ends-address_step c a s h = record {
  src_addr = (knows-address_step a c.src_addr s).0 h.src_addr;
  dst_addr = (knows-address_step a c.dst_addr s).0 h.dst_addr;
  src_port = rw ((knows-address_step a a s).2) h.src_port;
  dst_port = rw ((knows-address_step a a s).2) h.dst_port;
}

Ends-port_step :
    (c : Connection) (p : Port) (s : Storage) → Ends c s → Ends c (port_step p true s).1
Ends-port_step c p s h = record {
  src_addr =
      knows_by c.src_addr s _ (has_port-port_step p p s).2 (has_port-port_step p p s).3 h.src_addr;
  dst_addr =
      knows_by c.dst_addr s _ (has_port-port_step p p s).2 (has_port-port_step p p s).3 h.dst_addr;
  src_port = (has_port-port_step p c.src_port s).0 h.src_port;
  dst_port = (has_port-port_step p c.dst_port s).0 h.dst_port;
}

pub Ends-enter : (k c : Connection) (s : Storage) → Ends k s → Ends k (enter c s)
Ends-enter k c s h = Ends-port_step k c.dst_port _ (
    Ends-port_step k c.src_port _
      (Ends-address_step k c.dst_addr _ (Ends-address_step k c.src_addr s h)))

pub enter-connection_map :
    (c : Connection) (s : Storage) → (enter c s).connection_map ≡ s.connection_map
enter-connection_map c s =
    let s₁ = (address_step c.src_addr true s).1 in
    let s₂ = (address_step c.dst_addr true s₁).1 in
    let s₃ = (port_step c.src_port true s₂).1 in
    (has_port-port_step c.dst_port c.dst_port s₃).4
    ∙ (has_port-port_step c.src_port c.src_port s₂).4
    ∙ (knows-address_step c.dst_addr c.dst_addr s₁).3
    ∙ (knows-address_step c.src_addr c.src_addr s).3

pub enter-Ends : (c : Connection) (s : Storage) → Ends c (enter c s)
enter-Ends c s =
    let s₁ = (address_step c.src_addr true s).1 in
    let s₂ = (address_step c.dst_addr true s₁).1 in
    let s₃ = (port_step c.src_port true s₂).1 in
    let p₂ = has_port-port_step c.src_port c.src_port s₂ in
    let p₃ = has_port-port_step c.dst_port c.dst_port s₃ in
    record {
      src_addr = knows_by c.src_addr s₃ _ p₃.2 p₃.3 (
          knows_by c.src_addr s₂ _ p₂.2 p₂.3 (
            (knows-address_step c.dst_addr c.src_addr s₁).0
              (knows-address_step c.src_addr c.src_addr s).1));
      dst_addr =
          knows_by c.dst_addr s₃ _ p₃.2 p₃.3
            (knows_by c.dst_addr s₂ _ p₂.2 p₂.3 (knows-address_step c.dst_addr c.dst_addr s₁).1);
      src_port = (has_port-port_step c.dst_port c.src_port s₃).0 p₂.1;
      dst_port = p₃.1;
    }

-- What the operations make of a look-up.
pub get-add_connection :
    (d : ConnectionData) (k : Connection) (s : Storage)
    → get_connection k (add_connection d s).2 ≡ (elim (get_connection k s) [
      | some x ↦ some x
      | none ↦ if connection_eq d.connection k then some d else none
    ])
unfolding get_connection add_connection find_connection
get-add_connection d k s =
    ground (arith, connection_eq_iff d.connection k, find-connection k s.connection_map)

pub get-remove_connection :
    (c k : Connection) (s : Storage)
    → get_connection k (remove_connection c s).1
      ≡ (if connection_eq c k then none else get_connection k s)
unfolding get_connection remove_connection
get-remove_connection c k s = ground (arith, connection_eq_iff c k, find-erase c k s.connection_map)

pub get-write :
    (d : ConnectionData) (k : Connection) (s : Storage)
    → get_connection k (write d s) ≡ (elim (get_connection k s) [
      | none ↦ none
      | some x ↦ if connection_eq d.connection k then some d else some x
    ])
unfolding get_connection write
get-write d k s = find-assign d k s.connection_map

pub get-connection :
    (c : Connection) (s : Storage) (d : ConnectionData)
    → get_connection c s ≡ some d
    → d.connection ≡ c
unfolding get_connection
get-connection c s d q = find-connection c s.connection_map d q

pub add_connection-new :
    (d : ConnectionData) (s : Storage)
    → get_connection d.connection s ≡ none
    → add_connection d s ≡ (d, true, record s { connection_map = d ∷ s.connection_map })
unfolding add_connection get_connection
add_connection-new d s q = ground arith

pub add_connection-old :
    (d old : ConnectionData) (s : Storage)
    → get_connection d.connection s ≡ some old
    → add_connection d s ≡ (old, false, s)
unfolding add_connection get_connection
add_connection-old d old s q = ground arith

-- These three leave the ends alone.
pub Ends-add_connection :
    (k : Connection) (d : ConnectionData) (s : Storage) → Ends k s → Ends k (add_connection d s).2
unfolding add_connection
Ends-add_connection k d s h = ground (arith, Ends-by k s)

pub Ends-remove_connection :
    (k c : Connection) (s : Storage) → Ends k s → Ends k (remove_connection c s).1
unfolding remove_connection
Ends-remove_connection k c s h = ground (arith, Ends-by k s)

pub Ends-write : (k : Connection) (d : ConnectionData) (s : Storage) → Ends k s → Ends k (write d s)
unfolding write
Ends-write k d s h = Ends-by k s (write d s) refl refl refl h
