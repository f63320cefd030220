-- ===== src/ConnectionList/Keys/Count.antt =====
-- Counting distinct connections.
use conntop.Prelude.{◌-◌, ◌≤◌, ◌≡◌, refl, true, false, List, [], ◌∷◌, if◌then◌else◌, length, arith}
use conntop.Connection.{Connection, connection_eq}
use conntop.Connection.Names.{connection_eq_iff}
use conntop.ConnectionList.Keys.{has, distinct}

-- The list without the first of its elements that is the connection.
unfoldable pub remove_first : Connection → List Connection → List Connection
remove_first c [] = []
remove_first c (k ∷ ks) = let rest = remove_first c ks in if connection_eq k c then ks else k ∷ rest

pub length-remove_first :
    (c : Connection) (ks : List Connection)
    → length (remove_first c ks) ≡ (if has c ks then length ks - 1 else length ks)
unfolding has remove_first
length-remove_first c [] = refl
length-remove_first c (k ∷ []) = ground (arith)
length-remove_first c (k ∷ l ∷ ls) = ground (arith, length-remove_first c (l ∷ ls))

pub has-remove_first :
    (a c : Connection) (ks : List Connection)
    → connection_eq c a ≡ false
    → has a (remove_first c ks) ≡ has a ks
unfolding has remove_first
has-remove_first a c [] h = refl
has-remove_first a c (k ∷ ks) h = ground (arith, has-remove_first a c ks, connection_eq_iff k c)

-- Distinct connections that are all among others are no more than those.
pub length-within :
    (ks ls : List Connection)
    → distinct ks ≡ true
    → ((a : Connection) → has a ks ≡ true → has a ls ≡ true)
    → length ks ≤ length ls
unfolding has distinct
length-within [] ls p q = omega arith
length-within (k ∷ ks) ls p q =
    let k∈ls : has k ls ≡ true = q k (ground (arith, connection_eq_iff k k)) in
    let rest : length ks ≤ length (remove_first k ls) =
      length-within ks (remove_first k ls) (ground arith)
        (λ a h. ground (arith, q a, has-remove_first a k ls, connection_eq_iff k a)) in
    ground (arith, length-remove_first k ls, k∈ls, rest, nonempty k ls)
  where
    nonempty : (c : Connection) (xs : List Connection) → has c xs ≡ true → 1 ≤ length xs
    nonempty c [] h = ground arith
    nonempty c (x ∷ xs) h = omega arith
