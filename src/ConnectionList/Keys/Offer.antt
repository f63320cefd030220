-- ===== src/ConnectionList/Keys/Offer.antt =====
-- Considering connections of the storage for the list, one after the other.
-- Source/ConnectionList.cpp, the loop of `ConnectionList::fill`.
use conntop.Prelude.{
  ℕ, suc, ◌≤◌, ◌≡◌, ◌⊎◌, Bool, true, false, ◌||◌, List, [], ◌∷◌, ltb, leb, if◌then◌else◌, length,
  length-append, arith,
}
use conntop.Connection.{Connection, connection_eq}
use conntop.Connection.Names.{connection_eq_iff}
use conntop.ConnectionList.Keys.{
  has, distinct, sorted, before_last, insert, insert_bounded, offer, settled, offer_all,
}
use conntop.ConnectionList.Keys.Insert.{
  StrictWeak, length-without_last, has-without_last, distinct-without_last, has-append,
  distinct-append, length-insert, has-insert, distinct-insert, sorted-without_last, sorted-insert,
  sorted-append, before_last-without_last, has-lost, before_last-insert,
}

module _ (less : Connection → Connection → Bool) where
  pub length-insert_bounded :
      (limit : ℕ) (c : Connection) (ks : List Connection)
      → length (insert_bounded less limit c ks)
        ≡ (if ltb limit (suc (length ks)) then length ks else suc (length ks))
  unfolding insert_bounded
  length-insert_bounded limit c ks =
      ground (arith, length-insert less c ks, length-without_last (insert less c ks))

  pub has-insert_bounded :
      (limit : ℕ) (a c : Connection) (ks : List Connection)
      → has a (insert_bounded less limit c ks) ≡ true
      → (connection_eq c a || has a ks) ≡ true
  unfolding insert_bounded
  has-insert_bounded limit a c ks h =
      ground (arith, has-insert less a c ks, has-without_last a (insert less c ks))

  pub distinct-insert_bounded :
      (limit : ℕ) (c : Connection) (ks : List Connection)
      → distinct ks ≡ true
      → has c ks ≡ false
      → distinct (insert_bounded less limit c ks) ≡ true
  unfolding insert_bounded
  distinct-insert_bounded limit c ks p q =
      ground (arith, distinct-insert less c ks, distinct-without_last (insert less c ks))

  pub length-offer :
      (limit : ℕ) (c : Connection) (ks : List Connection)
      → (length ks ≤ length (offer less limit c ks))
        × ((length (offer less limit c ks) ≤ limit) ⊎ (length (offer less limit c ks) ≤ length ks))
  unfolding offer
  length-offer limit c ks =
      ground (arith, length-insert_bounded limit c ks, length-append ks (c ∷ []))

  pub has-offer :
      (limit : ℕ) (a c : Connection) (ks : List Connection)
      → has a (offer less limit c ks) ≡ true
      → (connection_eq c a || has a ks) ≡ true
  unfolding offer
  has-offer limit a c ks h = ground (arith, has-insert_bounded limit a c ks, has-append a c ks)

  pub distinct-offer :
      (limit : ℕ) (c : Connection) (ks : List Connection)
      → distinct ks ≡ true
      → distinct (offer less limit c ks) ≡ true
  unfolding offer
  distinct-offer limit c ks p =
      ground (arith, distinct-insert_bounded limit c ks, distinct-append c ks)

  -- The list has the connection or is full.
  abbrev pub present : ℕ → Connection → List Connection → Bool
  present limit a ks = has a ks || leb limit (length ks)

  pub present-insert_bounded :
      (limit : ℕ) (a c : Connection) (ks : List Connection)
      → (connection_eq c a || present limit a ks) ≡ true
      → present limit a (insert_bounded less limit c ks) ≡ true
  unfolding insert_bounded
  present-insert_bounded limit a c ks h = ground (
    arith,
    has-insert less a c ks,
    length-insert less c ks,
    length-without_last (insert less c ks),
  )

  pub present-offer :
      (limit : ℕ) (a c : Connection) (ks : List Connection)
      → (connection_eq c a || present limit a ks) ≡ true
      → present limit a (offer less limit c ks) ≡ true
  unfolding offer
  present-offer limit a c ks h = ground (
    arith,
    connection_eq_iff c a,
    present-insert_bounded limit a c ks,
    has-append a c ks,
    length-append ks (c ∷ []),
  )

  module _ (weak : StrictWeak less) where
    pub sorted-insert_bounded :
        (limit : ℕ) (c : Connection) (ks : List Connection)
        → sorted less ks ≡ true
        → sorted less (insert_bounded less limit c ks) ≡ true
    unfolding insert_bounded
    sorted-insert_bounded limit c ks p =
        ground (arith, sorted-insert less weak c ks, sorted-without_last less (insert less c ks))

    pub sorted-offer :
        (limit : ℕ) (c : Connection) (ks : List Connection)
        → sorted less ks ≡ true
        → sorted less (offer less limit c ks) ≡ true
    unfolding offer
    sorted-offer limit c ks p =
        ground (arith, sorted-insert_bounded limit c ks, sorted-append less weak c ks)

    -- Of a connection that was in the list or is inserted, and of one that does not come before the
    -- last of a full list.
    pub settled-insert_bounded :
        (limit : ℕ) (a c : Connection) (ks : List Connection)
        → sorted less ks ≡ true
        → before_last less c ks ≡ true
        → (connection_eq c a || settled less limit a ks) ≡ true
        → settled less limit a (insert_bounded less limit c ks) ≡ true
    unfolding settled insert_bounded
    settled-insert_bounded limit a c ks p q h = ground (
      arith,
      sorted-insert less weak c ks,
      has-insert less a c ks,
      length-insert less c ks,
      length-without_last (insert less c ks),
      has-lost less weak a (insert less c ks),
      before_last-insert less a c ks,
      before_last-without_last less weak a (insert less c ks),
    )

    pub settled-offer :
        (limit : ℕ) (a c : Connection) (ks : List Connection)
        → sorted less ks ≡ true
        → (connection_eq c a || settled less limit a ks) ≡ true
        → settled less limit a (offer less limit c ks) ≡ true
    unfolding offer settled
    settled-offer limit a c ks p h =
        ground
          (arith, connection_eq_iff c a, settled-insert_bounded limit a c ks, has-append a c ks)

  pub length-offer_all :
      (limit : ℕ) (cs ks : List Connection)
      → (length ks ≤ length (offer_all less limit cs ks))
        × ((length (offer_all less limit cs ks) ≤ limit)
            ⊎ (length (offer_all less limit cs ks) ≤ length ks))
  unfolding offer_all
  length-offer_all limit [] ks = ground arith
  length-offer_all limit (c ∷ cs) ks =
      ground (arith, length-offer_all limit cs (offer less limit c ks), length-offer limit c ks)

  pub has-offer_all :
      (limit : ℕ) (a : Connection) (cs ks : List Connection)
      → has a (offer_all less limit cs ks) ≡ true
      → (has a cs || has a ks) ≡ true
  unfolding offer_all has
  has-offer_all limit a [] ks h = h
  has-offer_all limit a (c ∷ cs) ks h =
      ground (arith, has-offer_all limit a cs (offer less limit c ks), has-offer limit a c ks)

  pub present-offer_all :
      (limit : ℕ) (a : Connection) (cs ks : List Connection)
      → (has a cs || present limit a ks) ≡ true
      → present limit a (offer_all less limit cs ks) ≡ true
  unfolding offer_all has
  present-offer_all limit a [] ks h = h
  present-offer_all limit a (c ∷ cs) ks h =
      ground
        (arith, present-offer_all limit a cs (offer less limit c ks), present-offer limit a c ks)

  pub distinct-offer_all :
      (limit : ℕ) (cs ks : List Connection)
      → distinct ks ≡ true
      → distinct (offer_all less limit cs ks) ≡ true
  unfolding offer_all
  distinct-offer_all limit [] ks p = p
  distinct-offer_all limit (c ∷ cs) ks p =
      distinct-offer_all limit cs (offer less limit c ks) (distinct-offer limit c ks p)

  module _ (weak : StrictWeak less) where
    pub sorted-offer_all :
        (limit : ℕ) (cs ks : List Connection)
        → sorted less ks ≡ true
        → sorted less (offer_all less limit cs ks) ≡ true
    unfolding offer_all
    sorted-offer_all limit [] ks p = p
    sorted-offer_all limit (c ∷ cs) ks p =
        sorted-offer_all limit cs (offer less limit c ks) (sorted-offer weak limit c ks p)

    pub settled-offer_all :
        (limit : ℕ) (a : Connection) (cs ks : List Connection)
        → sorted less ks ≡ true
        → (has a cs || settled less limit a ks) ≡ true
        → settled less limit a (offer_all less limit cs ks) ≡ true
    unfolding offer_all has
    settled-offer_all limit a [] ks p h = h
    settled-offer_all limit a (c ∷ cs) ks p h = ground (
      arith,
      settled-offer_all limit a cs (offer less limit c ks),
      settled-offer weak limit a c ks,
      sorted-offer weak limit c ks,
    )
