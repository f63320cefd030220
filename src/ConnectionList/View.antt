-- ===== src/ConnectionList/View.antt =====
-- What a `ConnectionList` is for the one who looks at it: the connections that are stored and those
-- that are shown, the window on them, the cursor and the connection in detail, without traffic, names
-- and what is to be redrawn. Source/ConnectionList.cpp.
pub mod Filling
pub mod Steps
pub mod Moves
use conntop.Prelude.{
  ℕ, zero, suc, ◌+◌, ◌-◌, ◌≤◌, ◌<◌, ◌≡◌, Bool, true, false, not, ◌&&◌, ◌||◌, List, [], ◌∷◌, ◌++◌,
  Option, none, some, ltb, leb, if◌then◌else◌, length,
}
use conntop.Connection.{Connection, connection_eq}
use conntop.ConnectionList.Keys.{
  has, distinct, without_last, before_last, insert_bounded, offer_all, started,
}

pub record View : Type 0 where
  pub stored : List Connection
  pub shown : List Connection
  pub scroll_offset : ℕ
  pub target_size : ℕ
  pub cursor_pos : ℕ
  pub detail : Option Connection

abbrev pub size : View → ℕ
size v = length v.shown - v.scroll_offset

-- No connection is stored or shown twice, and what is shown is stored, so that no pointer dangles;
-- the window is not overfull, and if it has room then all that is stored is shown; the cursor is on a
-- visible connection, or at the top of an empty window; and the connection in detail is stored.
pub record IsValid (v : View) : Type 0 where
  pub stored_once : distinct v.stored ≡ true
  pub shown_once : distinct v.shown ≡ true
  pub shown_stored : (c : Connection) → has c v.shown ≡ true → has c v.stored ≡ true
  pub fits : size v ≤ v.target_size
  pub complete :
      (c : Connection) → has c v.stored ≡ true → size v < v.target_size → has c v.shown ≡ true
  pub cursor : v.cursor_pos ≤ size v - 1
  pub detail_stored : (c : Connection) → v.detail ≡ some c → has c v.stored ≡ true

unfoldable pub erase_key : Connection → List Connection → List Connection
erase_key c [] = []
erase_key c (k ∷ ks) = let rest = erase_key c ks in if connection_eq k c then rest else k ∷ rest

unfoldable pub without_detail : Connection → Option Connection → Option Connection
without_detail c none = none
without_detail c (some k) = if connection_eq k c then none else some k

abbrev pub is_fillable : View → Bool
is_fillable v = ltb (size v) v.target_size && ltb (length v.shown) (length v.stored)

abbrev pub clamp : View → View
clamp v = if ltb (size v - 1) v.cursor_pos then record v { cursor_pos = size v - 1 } else v

abbrev pub pop : ℕ → List Connection → List Connection
pop zero ks = ks
pop (suc n) ks = pop n (without_last ks)

module _ (less : Connection → Connection → Bool) where
  abbrev pub filled : View → View
  filled v = record v {
    shown =
        if is_fillable v
        then offer_all less (v.scroll_offset + v.target_size) v.stored (started v.stored v.shown)
        else v.shown;
  }

  abbrev pub inserted : Connection → View → View
  inserted c v = record v {
    shown = insert_bounded less (v.scroll_offset + v.target_size) c v.shown;
  }

  -- A new connection.
  abbrev pub entered : Connection → View → View
  entered c v =
      let v' = record v { stored = c ∷ v.stored } in
      if before_last less c v.shown
      then inserted c v'
      else if ltb (size v) v.target_size
      then record v' { shown = v.shown ++ c ∷ [] }
      else v'

  abbrev pub removed : Connection → View → View
  removed c v = clamp (
      filled (record v {
        stored = erase_key c v.stored;
        shown = erase_key c v.shown;
        detail = without_detail c v.detail;
      }))

  abbrev pub scrolled_down : ℕ → View → View
  scrolled_down n v = filled (record v { scroll_offset = v.scroll_offset + n })

  -- Shown anew, in another order.
  abbrev pub restarted : View → View
  restarted v = filled (record v { shown = [] })

  abbrev pub retargeted : ℕ → View → View
  retargeted n v =
      let v' = record v { target_size = n } in
      clamp (
        if ltb n (size v')
        then record v' { shown = pop (size v' - n) v'.shown }
        else if ltb (size v') n
        then filled v'
        else v')

abbrev pub cleared : View → View
cleared v = record v { stored = []; shown = []; cursor_pos = 0; detail = none }

abbrev pub scrolled_up : ℕ → View → View
scrolled_up n v =
    let v' = record v { scroll_offset = v.scroll_offset - n } in
    record v' { shown = pop (size v' - v'.target_size) v'.shown }
