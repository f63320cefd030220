-- ===== src/ConnectionList/Keys/Insert.antt =====
-- Insertion into an ordered list of connections, and the loss of its last one.
-- Source/ConnectionList.cpp, `ConnectionList::insertItem`.
use conntop.Prelude.{
  suc, ◌-◌, ◌≡◌, ◌⊎◌, refl, Bool, true, false, not, ◌&&◌, ◌||◌, List, [], ◌∷◌, ◌++◌, length, arith,
}
use conntop.Connection.{Connection, connection_eq}
use conntop.Connection.Names.{connection_eq_iff}
use conntop.ConnectionList.Keys.{
  has, distinct, without_last, none_before, sorted, before_last, insert,
}

pub length-without_last : (ks : List Connection) → length (without_last ks) ≡ length ks - 1
unfolding without_last
length-without_last [] = refl
length-without_last (k ∷ []) = refl
length-without_last (k ∷ l ∷ ls) = ground (arith, length-without_last (l ∷ ls))

pub has-without_last :
    (c : Connection) (ks : List Connection) → has c (without_last ks) ≡ true → has c ks ≡ true
unfolding has without_last
has-without_last c [] h = h
has-without_last c (k ∷ []) h = ground arith
has-without_last c (k ∷ l ∷ ls) h = ground (arith, has-without_last c (l ∷ ls))

pub distinct-without_last :
    (ks : List Connection) → distinct ks ≡ true → distinct (without_last ks) ≡ true
unfolding has distinct without_last
distinct-without_last [] h = h
distinct-without_last (k ∷ []) h = refl
distinct-without_last (k ∷ l ∷ ls) h =
    ground (arith, distinct-without_last (l ∷ ls), has-without_last k (l ∷ ls))

pub has-append :
    (c k : Connection) (ks : List Connection)
    → has c (ks ++ k ∷ []) ≡ (has c ks || connection_eq k c)
unfolding has
has-append c k [] = ground arith
has-append c k (l ∷ ls) = ground (arith, has-append c k ls)

pub distinct-append :
    (k : Connection) (ks : List Connection)
    → distinct ks ≡ true
    → has k ks ≡ false
    → distinct (ks ++ k ∷ []) ≡ true
unfolding has distinct
distinct-append k [] p q = refl
distinct-append k (l ∷ ls) p q =
    ground
      (arith, distinct-append k ls, has-append l k ls, connection_eq_iff k l, connection_eq_iff l k)

-- `less` is a strict weak order, as `Compare` of the C++ standard requires.
abbrev pub StrictWeak : {A : Type 0} → (A → A → Bool) → Type 0
StrictWeak {A = A} less =
    (a b c : A) → less a b ≡ true → (less b a ≡ false) × ((less a c ≡ true) ⊎ (less c b ≡ true))

module _ {A : Type 0} (less : A → A → Bool) where
  pub none_before-insert :
      (a c : A) (ks : List A)
      → none_before less a (insert less c ks) ≡ (not (less c a) && none_before less a ks)
  unfolding none_before insert
  none_before-insert a c [] = ground arith
  none_before-insert a c (k ∷ ks) = ground (arith, none_before-insert a c ks)

  module _ (weak : StrictWeak less) where
    none_before-before :
        (c k : A) (ks : List A)
        → less c k ≡ true
        → none_before less k ks ≡ true
        → none_before less c ks ≡ true
    unfolding none_before
    none_before-before c k [] p q = refl
    none_before-before c k (l ∷ ls) p q =
        ground (arith, none_before-before c k ls, weak c k l, weak l c k)

    pub sorted-insert :
        (c : A) (ks : List A) → sorted less ks ≡ true → sorted less (insert less c ks) ≡ true
    unfolding none_before sorted insert
    sorted-insert c [] h = refl
    sorted-insert c (k ∷ ks) h = ground (
      arith,
      sorted-insert c ks,
      none_before-insert k c ks,
      none_before-before c k ks,
      weak c k k,
    )

module _ (less : Connection → Connection → Bool) where
  pub length-insert :
      (c : Connection) (ks : List Connection) → length (insert less c ks) ≡ suc (length ks)
  unfolding insert
  length-insert c [] = refl
  length-insert c (k ∷ ks) = ground (arith, length-insert c ks)

  pub has-insert :
      (a c : Connection) (ks : List Connection)
      → has a (insert less c ks) ≡ (connection_eq c a || has a ks)
  unfolding has insert
  has-insert a c [] = ground arith
  has-insert a c (k ∷ ks) = ground (arith, has-insert a c ks)

  pub distinct-insert :
      (c : Connection) (ks : List Connection)
      → distinct ks ≡ true
      → has c ks ≡ false
      → distinct (insert less c ks) ≡ true
  unfolding has distinct insert
  distinct-insert c [] p q = refl
  distinct-insert c (k ∷ ks) p q =
      ground (
        arith,
        distinct-insert c ks,
        has-insert k c ks,
        connection_eq_iff c k,
        connection_eq_iff k c,
      )

  pub none_before-without_last :
      (c : Connection) (ks : List Connection)
      → none_before less c ks ≡ true
      → none_before less c (without_last ks) ≡ true
  unfolding none_before without_last
  none_before-without_last c [] h = h
  none_before-without_last c (k ∷ []) h = refl
  none_before-without_last c (k ∷ l ∷ ls) h = ground (arith, none_before-without_last c (l ∷ ls))

  pub sorted-without_last :
      (ks : List Connection) → sorted less ks ≡ true → sorted less (without_last ks) ≡ true
  unfolding none_before sorted without_last
  sorted-without_last [] h = h
  sorted-without_last (k ∷ []) h = refl
  sorted-without_last (k ∷ l ∷ ls) h =
      ground (arith, sorted-without_last (l ∷ ls), none_before-without_last k (l ∷ ls))

  pub none_before-append :
      (a c : Connection) (ks : List Connection)
      → none_before less a (ks ++ c ∷ []) ≡ (none_before less a ks && not (less c a))
  unfolding none_before
  none_before-append a c [] = ground arith
  none_before-append a c (k ∷ ks) = ground (arith, none_before-append a c ks)

  module _ (weak : StrictWeak less) where
    -- What does not come before the last does not come before the first.
    before_last-first :
        (c k : Connection) (ks : List Connection)
        → sorted less (k ∷ ks) ≡ true
        → before_last less c (k ∷ ks) ≡ false
        → less c k ≡ false
    unfolding none_before sorted before_last
    before_last-first c k [] p q = q
    before_last-first c k (l ∷ ls) p q = ground (arith, before_last-first c l ls, weak c k l)

    pub sorted-append :
        (c : Connection) (ks : List Connection)
        → sorted less ks ≡ true
        → before_last less c ks ≡ false
        → sorted less (ks ++ c ∷ []) ≡ true
    unfolding none_before sorted before_last
    sorted-append c [] p q = refl
    sorted-append c (k ∷ []) p q = ground arith
    sorted-append c (k ∷ l ∷ ls) p q = ground (
      arith,
      sorted-append c (l ∷ ls),
      none_before-append k c (l ∷ ls),
      before_last-first c k (l ∷ ls),
    )

    pub before_last-without_last :
        (c : Connection) (ks : List Connection)
        → sorted less ks ≡ true
        → before_last less c ks ≡ false
        → before_last less c (without_last ks) ≡ false
    unfolding none_before sorted before_last without_last
    before_last-without_last c [] p q = refl
    before_last-without_last c (k ∷ []) p q = refl
    before_last-without_last c (k ∷ l ∷ []) p q = ground (arith, weak c k l)
    before_last-without_last c (k ∷ l ∷ m ∷ ms) p q =
        ground (arith, before_last-without_last c (l ∷ m ∷ ms))

    -- A connection that is lost does not come before the last of the rest.
    pub has-lost :
        (c : Connection) (ks : List Connection)
        → sorted less ks ≡ true
        → has c ks ≡ true
        → (has c (without_last ks) ≡ true) ⊎ (before_last less c (without_last ks) ≡ false)
    unfolding none_before sorted before_last without_last has
    has-lost c [] p q = ground arith
    has-lost c (k ∷ []) p q = ground arith
    has-lost c (k ∷ l ∷ []) p q = ground (arith, connection_eq_iff l c, connection_eq_iff k c)
    has-lost c (k ∷ l ∷ m ∷ ms) p q = ground (arith, has-lost c (l ∷ m ∷ ms))

  -- The last one stays where it is when a connection that comes before it is inserted.
  pub before_last-insert :
      (a c : Connection) (ks : List Connection)
      → before_last less c ks ≡ true
      → before_last less a (insert less c ks) ≡ before_last less a ks
  unfolding before_last insert
  before_last-insert a c [] h = ground arith
  before_last-insert a c (k ∷ []) h = ground arith
  before_last-insert a c (k ∷ l ∷ []) h = ground (arith, before_last-insert a c (l ∷ []))
  before_last-insert a c (k ∷ l ∷ m ∷ ms) h = ground (arith, before_last-insert a c (l ∷ m ∷ ms))
