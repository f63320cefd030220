-- ===== src/Storage/Laws.antt =====
-- What each operation of the storage makes of a look-up. Source/ConnectionStorage.hpp.
use conntop.Prelude.{◌≡◌, refl, true, List, [], ◌∷◌, none, some, if◌then◌else◌, arith}
use conntop.Connection.{Connection, ConnectionData, connection_eq}
use conntop.Connection.Names.{connection_eq_iff}
use conntop.Storage.{find_connection, erase, assign}

pub connection_eq_refl : (c : Connection) → connection_eq c c ≡ true
connection_eq_refl c = (connection_eq_iff c c).1 refl

pub find-erase :
    (c k : Connection) (ds : List ConnectionData)
    → find_connection k (erase c ds) ≡ (if connection_eq c k then none else find_connection k ds)
unfolding find_connection erase
find-erase c k [] = ground arith
find-erase c k (d ∷ ds) = ground (
  arith,
  find-erase c k ds,
  connection_eq_iff d.connection c,
  connection_eq_iff d.connection k,
  connection_eq_iff c k,
)

pub find-assign :
    (d : ConnectionData) (k : Connection) (ds : List ConnectionData)
    → find_connection k (assign d ds) ≡ (elim (find_connection k ds) [
      | none ↦ none
      | some x ↦ if connection_eq d.connection k then some d else some x
    ])
unfolding find_connection assign
find-assign d k [] = ground arith
find-assign d k (x ∷ xs) = ground (
  arith,
  find-assign d k xs,
  connection_eq_iff x.connection d.connection,
  connection_eq_iff d.connection k,
  connection_eq_iff x.connection k,
)

-- The data that are found are those of the connection.
pub find-connection :
    (c : Connection) (ds : List ConnectionData) (d : ConnectionData)
    → find_connection c ds ≡ some d
    → d.connection ≡ c
unfolding find_connection
find-connection c [] d h = ground arith
find-connection c (x ∷ xs) d h =
    ground (arith, find-connection c xs d, connection_eq_iff x.connection c)
