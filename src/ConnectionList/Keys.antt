-- ===== src/ConnectionList/Keys.antt =====
-- The connections that a `ConnectionList` shows, without what is to be redrawn: its `m_list` with the
-- pointers only, a pointer to an entry of the storage being the connection of the entry.
-- Source/ConnectionList.cpp. `less` is `m_compareFunc`, and `limit` the scroll offset and the target
-- size together.
pub mod Insert
pub mod Offer
pub mod Count
pub mod Agree
use conntop.Prelude.{
  ℕ, Bool, true, false, not, ◌&&◌, ◌||◌, List, [], ◌∷◌, ◌++◌, ltb, leb, if◌then◌else◌, length,
}
use conntop.Connection.{Connection, connection_eq}

unfoldable pub has : Connection → List Connection → Bool
has c [] = false
has c (k ∷ ks) = connection_eq k c || has c ks

-- No connection twice.
unfoldable pub distinct : List Connection → Bool
distinct [] = true
distinct (k ∷ ks) = not (has k ks) && distinct ks

unfoldable pub without_last : {A : Type 0} → List A → List A
without_last [] = []
without_last (k ∷ []) = []
without_last (k ∷ l ∷ ls) = k ∷ without_last (l ∷ ls)

module _ {A : Type 0} (less : A → A → Bool) where
  -- None of the list comes before the element.
  unfoldable pub none_before : A → List A → Bool
  none_before c [] = true
  none_before c (k ∷ ks) = not (less k c) && none_before c ks

  unfoldable pub sorted : List A → Bool
  sorted [] = true
  sorted (k ∷ ks) = none_before k ks && sorted ks

  -- It comes before the last one.
  unfoldable pub before_last : A → List A → Bool
  before_last c [] = false
  before_last c (k ∷ []) = less c k
  before_last c (k ∷ l ∷ ls) = before_last c (l ∷ ls)

  unfoldable pub insert : A → List A → List A
  insert c [] = c ∷ []
  insert c (k ∷ ks) = let rest = insert c ks in if less c k then c ∷ k ∷ ks else k ∷ rest

module _ (less : Connection → Connection → Bool) where
  -- Insertion into a list that is cut off at the limit.
  unfoldable pub insert_bounded : ℕ → Connection → List Connection → List Connection
  insert_bounded limit c ks =
      let inserted = insert less c ks in
      if ltb limit (length inserted) then without_last inserted else inserted

  -- What becomes of the list when a connection is considered that may be in it.
  unfoldable pub offer : ℕ → Connection → List Connection → List Connection
  offer limit c ks =
      if before_last less c ks
      then (if has c ks then ks else insert_bounded limit c ks)
      else if ltb (length ks) limit
      then (if has c ks then ks else ks ++ c ∷ [])
      else ks

  -- The list has the connection, or it is full and the connection does not come before its last.
  unfoldable pub settled : ℕ → Connection → List Connection → Bool
  settled limit c ks = has c ks || leb limit (length ks) && not (before_last less c ks)

  unfoldable pub offer_all : ℕ → List Connection → List Connection → List Connection
  offer_all limit [] ks = ks
  offer_all limit (c ∷ cs) ks = offer_all limit cs (offer limit c ks)

-- The list that the loop of `fill` starts with: the first connection of the storage if it is empty.
unfoldable pub started : List Connection → List Connection → List Connection
started [] ks = ks
started (c ∷ cs) [] = c ∷ []
started (c ∷ cs) (k ∷ ks) = k ∷ ks
