-- ===== src/ConnectionList/First/Window.antt =====
-- The connections that come first, in views whose window has been scrolled or resized.
-- Source/ConnectionList.cpp.
use conntop.Prelude.{
  ℕ, zero, suc, ◌+◌, ◌-◌, ◌≤◌, ◌≡◌, refl, Bool, true, false, not, ◌||◌, List, ltb, if◌then◌else◌,
  length, arith,
}
use conntop.Connection.{Connection}
use conntop.ConnectionList.Keys.{has, sorted, before_last, settled, without_last}
use conntop.ConnectionList.Keys.Insert.{
  StrictWeak, sorted-without_last, has-lost, before_last-without_last,
}
use conntop.ConnectionList.View.{
  View, IsValid, size, clamp, pop, filled, scrolled_up, scrolled_down, retargeted,
}
use conntop.ConnectionList.View.Filling.{IsSound}
use conntop.ConnectionList.View.Steps.{length-pop}
use conntop.ConnectionList.View.Moves.{lowered-IsSound}
use conntop.ConnectionList.First.{settled-filled}

-- It is in the list, or does not come before the last one.
unfoldable reached : (Connection → Connection → Bool) → Connection → List Connection → Bool
reached less c ks = has c ks || not (before_last less c ks)

abbrev pub FirstView : (Connection → Connection → Bool) → View → Type 0
FirstView less v =
    (c : Connection)
    → has c v.stored ≡ true
    → settled less (v.scroll_offset + v.target_size) c v.shown ≡ true

pub FirstView-if :
    (less : Connection → Connection → Bool) (b : Bool) (v w : View)
    → (b ≡ true → FirstView less v)
    → (b ≡ false → FirstView less w)
    → FirstView less (if b then v else w)
FirstView-if less true v w p q = p refl
FirstView-if less false v w p q = q refl

clamped :
    (less : Connection → Connection → Bool) (v : View) → FirstView less v → FirstView less (clamp v)
clamped less v h = FirstView-if less _ _ v (λ _. h) (λ _. h)

module _ (less : Connection → Connection → Bool) (weak : StrictWeak less) where
  reached-without_last :
      (c : Connection) (ks : List Connection)
      → sorted less ks ≡ true
      → reached less c ks ≡ true
      → reached less c (without_last ks) ≡ true
  unfolding reached
  reached-without_last c ks p h =
      ground (arith, h, has-lost less weak c ks p, before_last-without_last less weak c ks p)

  reached-pop :
      (n : ℕ) (c : Connection) (ks : List Connection)
      → sorted less ks ≡ true
      → reached less c ks ≡ true
      → reached less c (pop n ks) ≡ true
  reached-pop zero c ks p h = h
  reached-pop (suc n) c ks p h =
      reached-pop n c (without_last ks) (sorted-without_last less ks p)
        (reached-without_last c ks p h)

  pub settled-scrolled_up :
      (n : ℕ) (v : View) (c : Connection)
      → n ≤ v.scroll_offset
      → sorted less v.shown ≡ true
      → settled less (v.scroll_offset + v.target_size) c v.shown ≡ true
      → settled less ((scrolled_up n v).scroll_offset + v.target_size) c (scrolled_up n v).shown
        ≡ true
  unfolding settled reached
  settled-scrolled_up n v c p q h =
      let k = length v.shown - (v.scroll_offset - n) - v.target_size in
      elim k
          as (λ j.
            k ≡ j → settled less ((v.scroll_offset - n) + v.target_size) c (pop j v.shown) ≡ true) [
              | zero ↦ λ e. ground (arith, h, e, p)
              | suc j ↦ λ e.
                  ground
                    (arith, h, e, p, length-pop (suc j) v.shown, reached-pop (suc j) c v.shown q)
            ]
        refl

  pub retargeted-FirstView :
      (n : ℕ) (v : View)
      → IsValid v
      → 1 ≤ n
      → sorted less v.shown ≡ true
      → FirstView less v
      → FirstView less (retargeted less n v)
  unfolding settled reached
  retargeted-FirstView n v h t q r =
      let v' : View = record v { target_size = n } in
      let k = size v - n in
      let popped : View = record v' { shown = pop k v.shown } in
      let grown = if ltb (size v') n then filled less v' else v' in
      let sound_at : size v ≤ n → IsSound v' = (λ room. record {
        stored_once = h.stored_once;
        shown_once = h.shown_once;
        shown_stored = h.shown_stored;
        fits = room;
        detail_stored = h.detail_stored;
      }) in
      clamped less (if ltb n (size v') then popped else grown) (
        FirstView-if less (ltb n (size v')) popped grown
          (λ p c i. ground (arith, p, t, r c i, length-pop k v.shown, reached-pop k c v.shown q))
          (λ p.
            FirstView-if less (ltb (size v') n) (filled less v') v'
              (λ room c i.
                settled-filled less v' weak (sound_at (ground (arith, room))) q
                  (ground (arith, room)) c i)
              (λ full c i. ground (arith, p, full, t, r c i))))

  pub settled-scrolled_down :
      (n : ℕ) (v : View) (c : Connection)
      → IsValid v
      → 1 ≤ n
      → 1 ≤ v.target_size
      → sorted less v.shown ≡ true
      → has c v.stored ≡ true
      → settled less (v.scroll_offset + n + v.target_size) c (scrolled_down less n v).shown ≡ true
  settled-scrolled_down n v c h t u q i =
      settled-filled less (record v { scroll_offset = v.scroll_offset + n }) weak
        (lowered-IsSound less v h n) q (omega (arith, h.fits, t, u)) c i
