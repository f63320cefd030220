-- ===== src/ConnectionList/Drawing.antt =====
-- The loop in which the terminal user interface draws the rows of a `ConnectionList` anew.
-- Source/UI_Curses/Screens/ScreenConnectionList.cpp and Source/ConnectionList.cpp.
use conntop.Prelude.{
  ℕ, zero, suc, ◌+◌, ◌≤◌, ◌<◌, ◌≡◌, refl, true, false, List, [], ◌∷◌, Option, none, some,
  if◌then◌else◌, length, drop, arith,
}
use conntop.ConnectionList.{Item, Listing}
use conntop.ConnectionList.Cursor.{ListUpdate, next_update, get_next_update}

-- The updates that are drawn, in order, in at most a number of rounds.
unfoldable pub refresh_rows : ℕ → Listing → List ListUpdate × Listing
refresh_rows zero l = ([], l)
refresh_rows (suc n) l =
    let (update, l') = get_next_update l in
    let rest = refresh_rows n l' in elim update [ none ↦ ([], l') | some u ↦ (u ∷ rest.0, rest.1) ]

-- How many items are to be redrawn, of all and of the visible ones.
unfoldable pub pending : List Item → ℕ
pending [] = 0
pending (i ∷ is) = let rest = pending is in if i.is_refresh_required then suc rest else rest

pub pending-length : (is : List Item) → pending is ≤ length is
unfolding pending
pending-length [] = omega arith
pending-length (i ∷ is) = ground (arith, pending-length is)

drop-nothing : (n : ℕ) → pending (drop n []) ≡ 0
unfolding pending
drop-nothing zero = refl
drop-nothing (suc n) = refl

-- One is found if there is one, and then it is no longer to be redrawn.
next_update-pending :
    (skipped row : ℕ) (is : List Item)
    → pending (drop skipped is) ≡ (elim (next_update skipped row is).0 as (λ _. ℕ) [
      | none ↦ 0
      | some u ↦ suc (pending (drop skipped (next_update skipped row is).1))
    ])
unfolding next_update pending
next_update-pending skipped row [] = drop-nothing skipped
next_update-pending (suc n) row (i ∷ is) = next_update-pending n row is
next_update-pending zero row (i ∷ is) = ground (arith, next_update-pending zero (row + 1) is)

abbrev pub visible : Listing → List Item
visible l = drop l.scroll_offset l.list

-- Nothing is left, or one fewer.
abbrev Progress : Listing → Option ListUpdate × Listing → Type 0
Progress l (none, m) =
    (pending (visible l) ≡ 0) × (pending (visible m) ≡ 0) × (m.is_refresh_required ≡ false)
Progress l (some u, m) =
    (pending (visible l) ≡ suc (pending (visible m))) × (m.is_refresh_required ≡ true)

get_next_update-Progress :
    (l : Listing) → l.is_refresh_required ≡ true → Progress l (get_next_update l)
unfolding get_next_update
get_next_update-Progress l h = by_update (get_next_update l) refl
  where
    by_update : (r : Option ListUpdate × Listing) → get_next_update l ≡ r → Progress l r
    by_update (none, m) p = ground (arith, h, p, next_update-pending l.scroll_offset 0 l.list)
    by_update (some u, m) p = ground (arith, h, p, next_update-pending l.scroll_offset 0 l.list)

abbrev Drained : ℕ → Listing → Type 0
Drained n l =
    (length (refresh_rows n l).0 ≡ pending (visible l))
    × (pending (visible (refresh_rows n l).1) ≡ 0)
    × ((refresh_rows n l).1.is_refresh_required ≡ false)

Drained-suc :
    (n : ℕ) (l : Listing) (o : Option ListUpdate) (m : Listing)
    → (get_next_update l).0 ≡ o
    → (get_next_update l).1 ≡ m
    → Progress l (o, m)
    → (m.is_refresh_required ≡ true → pending (visible m) < n → Drained n m)
    → pending (visible l) < suc n
    → Drained (suc n) l
unfolding refresh_rows
Drained-suc n l none m q r s h p = ground (arith, q, r, s)
Drained-suc n l (some u) m q r s h p =
    let rest : Drained n m = h s.1 (omega (arith, s.0, p)) in ground (arith, q, r, s, rest)

-- The loop that draws a list ends: with a list that is to be refreshed it takes as many rounds as
-- there are visible items to be redrawn, and one more, and draws that many rows; then none is left
-- to be redrawn, and the list is not to be refreshed.
pub refresh_rows-drains :
    (n : ℕ) (l : Listing)
    → l.is_refresh_required ≡ true
    → pending (visible l) < n
    → (length (refresh_rows n l).0 ≡ pending (visible l))
      × (pending (visible (refresh_rows n l).1) ≡ 0)
      × ((refresh_rows n l).1.is_refresh_required ≡ false)
refresh_rows-drains zero l h p = absurd (omega (arith, p))
refresh_rows-drains (suc n) l h p =
    let m = (get_next_update l).1 in
    Drained-suc n l (get_next_update l).0 m refl refl (get_next_update-Progress l h)
      (λ r q. refresh_rows-drains n m r q) p
