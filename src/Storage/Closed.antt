-- ===== src/Storage/Closed.antt =====
-- Storages in which both ends of every connection have entries. Source/ConnectionStorage.hpp.
use conntop.Prelude.{◌≡◌, ap, inl, inr, Option-cases, arith}
use conntop.Connection.{Connection, ConnectionData}
use conntop.Connection.Names.{connection_eq_iff}
use conntop.Storage.{
  Storage, find_connection, get_connection, add_connection, remove_connection, write,
}
use conntop.Storage.Backed.{Closed, enter}
use conntop.Storage.Enter.{
  Ends-enter, enter-Ends, enter-connection_map, get-add_connection, get-remove_connection,
  get-write, Ends-add_connection, Ends-remove_connection, Ends-write,
}

pub get-enter : (k c : Connection) (s : Storage) → get_connection k (enter c s) ≡ get_connection k s
unfolding get_connection
get-enter k c s = ap (find_connection k) (enter-connection_map c s)

pub Closed-add_connection :
    (d : ConnectionData) (s : Storage)
    → Closed s
    → Closed (add_connection d (enter d.connection s)).2
Closed-add_connection d s h k x e =
    Ends-add_connection k d _ (elim (Option-cases (get_connection k s)) [
      | inr (y, q) ↦ Ends-enter k d.connection s (h k y q)
      | inl q ↦
          rw
            (← (connection_eq_iff d.connection k).0 (
              ground
                (arith, get-add_connection d k (enter d.connection s), get-enter k d.connection s)))
            (enter-Ends d.connection s)
    ])

pub Closed-remove_connection :
    (c : Connection) (s : Storage) → Closed s → Closed (remove_connection c s).1
Closed-remove_connection c s h k x e =
    Ends-remove_connection k c s (h k x (ground (arith, get-remove_connection c k s)))

pub Closed-write : (d : ConnectionData) (s : Storage) → Closed s → Closed (write d s)
Closed-write d s h k x e = elim (Option-cases (get_connection k s)) [
  | inr (y, q) ↦ Ends-write k d s (h k y q)
  | inl q ↦ absurd (ground (arith, get-write d k s))
]
