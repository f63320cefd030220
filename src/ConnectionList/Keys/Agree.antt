-- ===== src/ConnectionList/Keys/Agree.antt =====
-- The order of a list under a comparison that is new for one connection. Source/ConnectionList.cpp,
-- `ConnectionList::update`.
use conntop.Prelude.{
  ℕ, zero, suc, ◌+◌, ◌-◌, ◌≡◌, refl, Bool, true, false, not, ◌&&◌, ◌||◌, List, [], ◌∷◌, Option,
  none, some, ltb, if◌then◌else◌, length, get_elem?, arith,
}
use conntop.Connection.{Connection, connection_eq}
use conntop.Connection.Names.{connection_eq_iff}
use conntop.ConnectionList.Keys.{has, distinct, none_before, sorted}
use conntop.ConnectionList.Keys.Insert.{StrictWeak}

-- Comparing the connections at two places.
abbrev pub less_between : (Connection → Connection → Bool) → List Connection → ℕ → ℕ → Bool
less_between less ks m n = elim (get_elem? ks m) [
  | none ↦ false
  | some a ↦ elim (get_elem? ks n) [ none ↦ false | some b ↦ less a b ]
]

-- The connection at a place is out of order with one next to it.
abbrev pub misplaced : (Connection → Connection → Bool) → ℕ → List Connection → Bool
misplaced less i ks =
    ltb 0 i && less_between less ks i (i - 1)
    || ltb (i + 1) (length ks) && less_between less ks (i + 1) i

unfoldable pub place : Connection → List Connection → Option ℕ
place c [] = none
place c (k ∷ ks) =
    if connection_eq k c then some 0 else elim (place c ks) [ none ↦ none | some n ↦ some (suc n) ]

-- No connection comes before the one in front of it.
unfoldable adjacent : (Connection → Connection → Bool) → List Connection → Bool
adjacent less [] = true
adjacent less (k ∷ []) = true
adjacent less (k ∷ l ∷ ls) = not (less l k) && adjacent less (l ∷ ls)

place-tail :
    (c : Connection) (n : ℕ) (k : Connection) (ks : List Connection)
    → connection_eq k c ≡ false
    → place c (k ∷ ks) ≡ some (suc n)
    → place c ks ≡ some n
unfolding place
place-tail c n k ks p q = ground (arith, p, q)

module _ (less new : Connection → Connection → Bool) where
  none_before-agree :
      (c : Connection) (ks : List Connection)
      → ((a : Connection) → has a ks ≡ true → new a c ≡ less a c)
      → none_before new c ks ≡ none_before less c ks
  unfolding none_before has
  none_before-agree c [] p = refl
  none_before-agree c (k ∷ ks) p =
      ground
        (arith, none_before-agree c ks (λ a i. p a (ground (arith, i))), p k, connection_eq_iff k k)

  pub sorted-agree :
      (ks : List Connection)
      → ((a b : Connection) → has a ks ≡ true → has b ks ≡ true → new a b ≡ less a b)
      → sorted new ks ≡ sorted less ks
  unfolding sorted has
  sorted-agree [] p = refl
  sorted-agree (k ∷ ks) p =
      let here : (connection_eq k k || has k ks) ≡ true = ground (arith, connection_eq_iff k k) in
      ground (
        arith,
        sorted-agree ks (λ a b i j. p a b (ground (arith, i)) (ground (arith, j))),
        none_before-agree k ks (λ a i. p a k (ground (arith, i)) here),
      )

  sorted-adjacent : (ks : List Connection) → sorted less ks ≡ true → adjacent less ks ≡ true
  unfolding sorted none_before adjacent
  sorted-adjacent [] h = refl
  sorted-adjacent (k ∷ []) h = refl
  sorted-adjacent (k ∷ l ∷ ls) h = ground (arith, sorted-adjacent (l ∷ ls))

  misplaced-tail :
      (n : ℕ) (k l : Connection) (ls : List Connection)
      → misplaced new (suc n) (k ∷ l ∷ ls) ≡ false
      → misplaced new n (l ∷ ls) ≡ false
  misplaced-tail zero k l ls h = ground arith
  misplaced-tail (suc n) k l ls h = ground arith

  -- For all other connections the comparison is the old one.
  module _ (c : Connection)
      (same : (a b : Connection)
        → connection_eq a c ≡ false
        → connection_eq b c ≡ false
        → new a b ≡ less a b) where
    adjacent-absent :
        (ks : List Connection) → has c ks ≡ false → adjacent less ks ≡ true → adjacent new ks ≡ true
    unfolding adjacent has
    adjacent-absent [] p h = refl
    adjacent-absent (k ∷ []) p h = refl
    adjacent-absent (k ∷ l ∷ ls) p h = ground (arith, adjacent-absent (l ∷ ls), same l k)

    -- The step over the first one.
    adjacent-step :
        (n : ℕ) (k l : Connection) (ls : List Connection)
        → connection_eq k c ≡ false
        → place c (l ∷ ls) ≡ some n
        → misplaced new (suc n) (k ∷ l ∷ ls) ≡ false
        → less l k ≡ false
        → new l k ≡ false
    unfolding place
    adjacent-step zero k l ls p q r h = ground arith
    adjacent-step (suc n) k l ls p q r h = ground (arith, same l k)

    adjacent-placed :
        (i : ℕ) (ks : List Connection)
        → distinct ks ≡ true
        → place c ks ≡ some i
        → misplaced new i ks ≡ false
        → adjacent less ks ≡ true
        → adjacent new ks ≡ true
    unfolding adjacent place distinct has
    adjacent-placed i [] d p q h = refl
    adjacent-placed i (k ∷ []) d p q h = refl
    adjacent-placed zero (k ∷ l ∷ ls) d p q h =
        ground (arith, adjacent-absent (l ∷ ls), connection_eq_iff k c)
    adjacent-placed (suc n) (k ∷ l ∷ ls) d p q h =
        let elsewhere : connection_eq k c ≡ false = ground (arith, p) in
        let there : place c (l ∷ ls) ≡ some n = place-tail c n k (l ∷ ls) elsewhere p in
        let tail : adjacent new (l ∷ ls) ≡ true =
          adjacent-placed n (l ∷ ls) (ground (arith, d)) there (misplaced-tail n k l ls q)
            (ground (arith, h)) in
        let head : new l k ≡ false = adjacent-step n k l ls elsewhere there q (ground (arith, h)) in
        ground (arith, head, tail)

  adjacent-sorted :
      StrictWeak new → (ks : List Connection) → adjacent new ks ≡ true → sorted new ks ≡ true
  unfolding sorted none_before adjacent
  adjacent-sorted weak [] h = refl
  adjacent-sorted weak (k ∷ []) h = refl
  adjacent-sorted weak (k ∷ l ∷ ls) h = ground (arith, adjacent-sorted weak (l ∷ ls), above l k ls)
    where
      above :
          (a b : Connection) (ms : List Connection)
          → none_before new a ms ≡ true
          → new a b ≡ false
          → none_before new b ms ≡ true
      above a b [] p q = refl
      above a b (m ∷ ms) p q = ground (arith, above a b ms, weak m b a)

  pub sorted-placed :
      StrictWeak new
      → (c : Connection) (i : ℕ) (ks : List Connection)
      → ((a b : Connection)
          → connection_eq a c ≡ false
          → connection_eq b c ≡ false
          → new a b ≡ less a b)
      → distinct ks ≡ true
      → place c ks ≡ some i
      → misplaced new i ks ≡ false
      → sorted less ks ≡ true
      → sorted new ks ≡ true
  sorted-placed weak c i ks same d p q h =
      adjacent-sorted weak ks (adjacent-placed c same i ks d p q (sorted-adjacent ks h))
