-- ===== src/ConnectionList/View/Steps.antt =====
-- Every step of a view keeps it valid. Source/ConnectionList.cpp.
use conntop.Prelude.{
  ℕ, zero, suc, ◌+◌, ◌-◌, ◌≤◌, ◌<◌, ◌≡◌, ◌⊎◌, inl, inr, refl, Bool, true, false, not, ◌&&◌, List,
  [], ◌∷◌, ltb, if◌then◌else◌, length, length-append, arith,
}
use conntop.Connection.{Connection, connection_eq}
use conntop.Connection.Names.{connection_eq_iff}
use conntop.ConnectionList.Keys.{has, distinct, without_last}
use conntop.ConnectionList.Keys.Insert.{
  length-without_last, has-without_last, distinct-without_last, has-append, distinct-append,
}
use conntop.ConnectionList.Keys.Offer.{
  length-insert_bounded, has-insert_bounded, distinct-insert_bounded, present-insert_bounded,
}
use conntop.ConnectionList.Keys.Count.{length-within}
use conntop.ConnectionList.View.{
  View, IsValid, size, erase_key, clamp, pop, filled, inserted, entered,
}
use conntop.ConnectionList.View.Filling.{IsSound, filled_complete}

pub length-pop : (n : ℕ) (ks : List Connection) → length (pop n ks) ≡ length ks - n
length-pop zero ks = omega arith
length-pop (suc n) ks = omega (arith, length-pop n (without_last ks), length-without_last ks)

pub has-pop :
    (n : ℕ) (c : Connection) (ks : List Connection) → has c (pop n ks) ≡ true → has c ks ≡ true
has-pop zero c ks h = h
has-pop (suc n) c ks h = has-without_last c ks (has-pop n c (without_last ks) h)

pub distinct-pop : (n : ℕ) (ks : List Connection) → distinct ks ≡ true → distinct (pop n ks) ≡ true
distinct-pop zero ks h = h
distinct-pop (suc n) ks h = distinct-pop n (without_last ks) (distinct-without_last ks h)

pub has-erase_key :
    (a c : Connection) (ks : List Connection)
    → has a (erase_key c ks) ≡ (has a ks && not (connection_eq c a))
unfolding has erase_key
has-erase_key a c [] = ground arith
has-erase_key a c (k ∷ ks) = ground (
  arith,
  has-erase_key a c ks,
  connection_eq_iff k c,
  connection_eq_iff k a,
  connection_eq_iff c a,
)

pub distinct-erase_key :
    (c : Connection) (ks : List Connection) → distinct ks ≡ true → distinct (erase_key c ks) ≡ true
unfolding has distinct erase_key
distinct-erase_key c [] h = h
distinct-erase_key c (k ∷ ks) h = ground (arith, distinct-erase_key c ks, has-erase_key k c ks)

pub length-erase_key : (c : Connection) (ks : List Connection) → length (erase_key c ks) ≤ length ks
unfolding erase_key
length-erase_key c [] = omega arith
length-erase_key c (k ∷ ks) = ground (arith, length-erase_key c ks)

-- A window that has been filled is full, or all that is stored is shown.
pub filled-reaches :
    (less : Connection → Connection → Bool) (v : View)
    → IsSound v
    → (v.target_size ≤ size (filled less v)) ⊎ (length v.stored ≤ length (filled less v).shown)
filled-reaches less v h =
    elim (ltb (size (filled less v)) v.target_size)
        as (λ b.
          ltb (size (filled less v)) v.target_size ≡ b
          → (v.target_size ≤ size (filled less v))
            ⊎ (length v.stored ≤ length (filled less v).shown)) [
              | true ↦ λ p. inr (
                  length-within v.stored (filled less v).shown h.stored_once
                    (λ a i. filled_complete less v h a i (ground arith)))
              | false ↦ λ p. inl (ground arith)
            ]
      refl

pub clamp-IsValid :
    (v : View)
    → IsSound v
    → ((c : Connection) → has c v.stored ≡ true → size v < v.target_size → has c v.shown ≡ true)
    → IsValid (clamp v)
clamp-IsValid v h q =
    elim (ltb (size v - 1) v.cursor_pos)
        as (λ b.
          ltb (size v - 1) v.cursor_pos ≡ b
          → IsValid (if b then record v { cursor_pos = size v - 1 } else v)) [
            | true ↦ λ p. record {
              stored_once = h.stored_once;
              shown_once = h.shown_once;
              shown_stored = h.shown_stored;
              fits = h.fits;
              complete = q;
              cursor = omega arith;
              detail_stored = h.detail_stored;
            }
            | false ↦ λ p. record {
              stored_once = h.stored_once;
              shown_once = h.shown_once;
              shown_stored = h.shown_stored;
              fits = h.fits;
              complete = q;
              cursor = ground arith;
              detail_stored = h.detail_stored;
            }
          ]
      refl

module _ (less : Connection → Connection → Bool) (v : View) (h : IsValid v) where
  pub inserted-IsValid :
      (c : Connection) → has c v.stored ≡ true → has c v.shown ≡ false → IsValid (inserted less c v)
  inserted-IsValid c p q =
      let limit = v.scroll_offset + v.target_size in
      let counted = length-insert_bounded less limit c v.shown in
      record {
        stored_once = h.stored_once;
        shown_once = distinct-insert_bounded less limit c v.shown h.shown_once q;
        shown_stored = λ a i. ground (
          arith,
          p,
          h.shown_stored a,
          has-insert_bounded less limit a c v.shown i,
          connection_eq_iff c a,
        );
        fits = ground (arith, h.fits, counted);
        complete = λ a i r.
            ground
              (arith, h.complete a, i, r, present-insert_bounded less limit a c v.shown, counted);
        cursor = ground (arith, h.cursor, counted);
        detail_stored = h.detail_stored;
      }

  pub entered-IsValid : (c : Connection) → has c v.stored ≡ false → IsValid (entered less c v)
  unfolding distinct has
  entered-IsValid c p =
      let limit = v.scroll_offset + v.target_size in
      let counted = length-insert_bounded less limit c v.shown in
      let absent : has c v.shown ≡ false = ground (arith, h.shown_stored c, p) in
      let appended = length-append v.shown (c ∷ []) in
      record {
        stored_once = ground (arith, p, h.stored_once);
        shown_once = ground (
          arith,
          absent,
          h.shown_once,
          distinct-insert_bounded less limit c v.shown,
          distinct-append c v.shown,
        );
        shown_stored = λ a i. ground (
          arith,
          h.shown_stored a,
          has-insert_bounded less limit a c v.shown,
          has-append a c v.shown,
          i,
        );
        fits = ground (arith, h.fits, counted, appended);
        complete = λ a i r. ground (
          arith,
          h.complete a,
          i,
          r,
          present-insert_bounded less limit a c v.shown,
          has-append a c v.shown,
          counted,
          appended,
        );
        cursor = ground (arith, h.cursor, counted, appended);
        detail_stored = λ a i. ground (arith, h.detail_stored a, i);
      }
