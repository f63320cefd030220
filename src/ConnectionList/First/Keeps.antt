-- ===== src/ConnectionList/First/Keeps.antt =====
-- Adding and removing connections leaves those in a list that come first.
-- Source/ConnectionList.cpp.
use conntop.Prelude.{ℕ, ◌≡◌, refl, Bool, true, List, [], ◌∷◌, arith}
use conntop.Connection.{Connection}
use conntop.Connection.Names.{connection_eq_iff}
use conntop.ConnectionList.Keys.{has, before_last, settled}
use conntop.ConnectionList.View.{View}
use conntop.ConnectionList.Valid.{Valid}

module _ (less new : Connection → Connection → Bool) where
  before_last-agree :
      (c : Connection) (ks : List Connection)
      → ((k : Connection) → has k ks ≡ true → new c k ≡ less c k)
      → before_last new c ks ≡ before_last less c ks
  unfolding before_last has
  before_last-agree c [] p = refl
  before_last-agree c (k ∷ []) p = p k (ground (arith, connection_eq_iff k k))
  before_last-agree c (k ∷ l ∷ ls) p = before_last-agree c (l ∷ ls) (λ a i. p a (ground (arith, i)))

  pub settled-agree :
      (n : ℕ) (c : Connection) (ks : List Connection)
      → ((k : Connection) → has k ks ≡ true → new c k ≡ less c k)
      → settled less n c ks ≡ true
      → settled new n c ks ≡ true
  unfolding settled
  settled-agree n c ks p h = ground (arith, h, before_last-agree c ks p)
