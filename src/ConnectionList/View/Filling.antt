-- ===== src/ConnectionList/View/Filling.antt =====
-- `ConnectionList::fill` keeps a view valid, and shows as many connections as it can.
-- Source/ConnectionList.cpp.
use conntop.Prelude.{
  ℕ, ◌+◌, ◌-◌, ◌≤◌, ◌<◌, ◌≡◌, refl, Bool, true, false, ◌||◌, List, [], ◌∷◌, some, length, arith,
}
use conntop.Connection.{Connection}
use conntop.Connection.Names.{connection_eq_iff}
use conntop.ConnectionList.Keys.{has, distinct, sorted, none_before, offer_all, started}
use conntop.ConnectionList.Keys.Offer.{
  length-offer_all, has-offer_all, present-offer_all, distinct-offer_all,
}
use conntop.ConnectionList.Keys.Count.{length-within}
use conntop.ConnectionList.View.{View, IsValid, size, filled}

has-started :
    (a : Connection) (cs ks : List Connection)
    → has a (started cs ks) ≡ true
    → (has a cs || has a ks) ≡ true
unfolding has started
has-started a [] ks h = h
has-started a (c ∷ cs) [] h = ground arith
has-started a (c ∷ cs) (k ∷ ks) h = ground arith

distinct-started : (cs ks : List Connection) → distinct ks ≡ true → distinct (started cs ks) ≡ true
unfolding distinct has started
distinct-started [] ks h = h
distinct-started (c ∷ cs) [] h = refl
distinct-started (c ∷ cs) (k ∷ ks) h = h

length-started :
    (cs ks : List Connection)
    → (length ks ≤ length (started cs ks))
      × (length (started cs ks) ≤ length ks + 1)
      × (1 ≤ length ks → length (started cs ks) ≡ length ks)
unfolding started
length-started [] ks = ground arith
length-started (c ∷ cs) [] = ground arith
length-started (c ∷ cs) (k ∷ ks) = ground arith

pub sorted-started :
    (less : Connection → Connection → Bool) (cs ks : List Connection)
    → sorted less ks ≡ true
    → sorted less (started cs ks) ≡ true
unfolding sorted none_before started
sorted-started less [] ks h = h
sorted-started less (c ∷ cs) [] h = refl
sorted-started less (c ∷ cs) (k ∷ ks) h = h

-- Distinct connections that are among others, and no fewer, are all of them.
pub has-all :
    (ks ls : List Connection) (c : Connection)
    → distinct ks ≡ true
    → ((a : Connection) → has a ks ≡ true → has a ls ≡ true)
    → length ls ≤ length ks
    → has c ls ≡ true
    → has c ks ≡ true
unfolding has distinct
has-all ks ls c p q r h =
    elim (has c ks) as (λ b. has c ks ≡ b → b ≡ true) [
      | true ↦ λ _. refl
      | false ↦ λ absent. absurd (
          omega (
            arith,
            r,
            length-within (c ∷ ks) ls (ground arith)
                (λ a i. ground (arith, q a, connection_eq_iff c a)),
          ))
    ]
      refl

-- What is left of validity where the window may have room and the cursor may be beyond its end.
pub record IsSound (v : View) : Type 0 where
  pub stored_once : distinct v.stored ≡ true
  pub shown_once : distinct v.shown ≡ true
  pub shown_stored : (c : Connection) → has c v.shown ≡ true → has c v.stored ≡ true
  pub fits : size v ≤ v.target_size
  pub detail_stored : (c : Connection) → v.detail ≡ some c → has c v.stored ≡ true

abbrev pub sound : (v : View) → IsValid v → IsSound v
sound v h = record {
  stored_once = h.stored_once;
  shown_once = h.shown_once;
  shown_stored = h.shown_stored;
  fits = h.fits;
  detail_stored = h.detail_stored;
}

module _ (less : Connection → Connection → Bool) (v : View) (h : IsSound v) where
  limit : ℕ
  limit = v.scroll_offset + v.target_size

  offered : List Connection
  offered = offer_all less limit v.stored (started v.stored v.shown)

  length-offered :
      (1 ≤ v.target_size)
      → (length v.shown ≤ length offered) × (length offered - v.scroll_offset ≤ v.target_size)
  unfolding offered limit
  length-offered p = ground (
    arith,
    h.fits,
    length-offer_all less limit v.stored (started v.stored v.shown),
    length-started v.stored v.shown,
  )

  pub length-filled : length v.shown ≤ length (filled less v).shown
  unfolding offered limit
  length-filled = ground (arith, length-offered)

  pub filled_complete :
      (c : Connection)
      → has c v.stored ≡ true
      → size (filled less v) < v.target_size
      → has c (filled less v).shown ≡ true
  unfolding offered limit
  filled_complete c p q = ground (
    arith,
    present-offer_all less limit c v.stored (started v.stored v.shown),
    has-all v.shown v.stored c h.shown_once h.shown_stored,
    p,
    q,
  )

  pub filled-IsSound : IsSound (filled less v)
  unfolding offered limit
  filled-IsSound = record {
    stored_once = h.stored_once;
    shown_once = ground (
      arith,
      h.shown_once,
      distinct-started v.stored v.shown,
      distinct-offer_all less limit v.stored (started v.stored v.shown),
    );
    shown_stored = λ c i. ground (
      arith,
      h.shown_stored c,
      has-offer_all less limit c v.stored (started v.stored v.shown),
      has-started c v.stored v.shown,
    );
    fits = ground (arith, h.fits, length-offered);
    detail_stored = h.detail_stored;
  }

  -- A cursor that was on the window stays on it.
  pub filled-IsValid : v.cursor_pos ≤ size v - 1 → IsValid (filled less v)
  filled-IsValid q = record {
    stored_once = filled-IsSound.stored_once;
    shown_once = filled-IsSound.shown_once;
    shown_stored = filled-IsSound.shown_stored;
    fits = filled-IsSound.fits;
    complete = filled_complete;
    cursor = omega (arith, q, length-filled);
    detail_stored = filled-IsSound.detail_stored;
  }
