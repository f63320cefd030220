-- ===== src/ConnectionList/View/Moves.antt =====
-- Removal, scrolling, resizing and sorting anew keep a view valid. Source/ConnectionList.cpp.
use conntop.Prelude.{
  ℕ, ◌+◌, ◌-◌, ◌≤◌, ◌≡◌, refl, Bool, true, false, [], ltb, if◌then◌else◌, length, arith,
}
use conntop.Connection.{Connection}
use conntop.Connection.Names.{connection_eq_iff}
use conntop.ConnectionList.Keys.{has, distinct}
use conntop.ConnectionList.Keys.Count.{length-within}
use conntop.ConnectionList.View.{
  View, IsValid, size, erase_key, without_detail, clamp, pop, filled, removed, cleared, scrolled_up,
  scrolled_down, restarted, retargeted,
}
use conntop.ConnectionList.View.Filling.{IsSound, length-filled, filled_complete, filled-IsSound}
use conntop.ConnectionList.View.Steps.{
  length-pop, has-pop, distinct-pop, has-erase_key, distinct-erase_key, length-erase_key,
  filled-reaches, clamp-IsValid,
}

pub cleared-IsValid : (v : View) → IsValid (cleared v)
unfolding distinct has
cleared-IsValid v = record {
  stored_once = refl;
  shown_once = refl;
  shown_stored = λ c i. i;
  fits = omega arith;
  complete = λ c i r. i;
  cursor = omega arith;
  detail_stored = λ c i. ground arith;
}

pub scrolled_up-IsValid :
    (n : ℕ) (v : View) → n ≤ v.scroll_offset → IsValid v → IsValid (scrolled_up n v)
scrolled_up-IsValid n v p h =
    let v' : View = record v { scroll_offset = v.scroll_offset - n } in
    let k = size v' - v'.target_size in
    let counted = length-pop k v.shown in
    record {
      stored_once = h.stored_once;
      shown_once = distinct-pop k v.shown h.shown_once;
      shown_stored = λ c i. h.shown_stored c (has-pop k c v.shown i);
      fits = omega (arith, counted);
      complete = λ c i r.
          let none_popped : k ≡ 0 = omega (arith, counted, r) in
          rw none_popped (h.complete c i (omega (arith, counted, r)));
      cursor = omega (arith, counted, h.cursor, h.fits);
      detail_stored = h.detail_stored;
    }

module _ (less : Connection → Connection → Bool) (v : View) (h : IsValid v) where
  -- The view with the window further down, before the list is filled.
  pub lowered-IsSound : (n : ℕ) → IsSound (record v { scroll_offset = v.scroll_offset + n })
  lowered-IsSound n = record {
    stored_once = h.stored_once;
    shown_once = h.shown_once;
    shown_stored = h.shown_stored;
    fits = omega (arith, h.fits);
    detail_stored = h.detail_stored;
  }

  pub scrolled_down-IsValid :
      (n : ℕ) → n ≤ length v.stored - length v.shown → IsValid (scrolled_down less n v)
  scrolled_down-IsValid n p =
      let v' : View = record v { scroll_offset = v.scroll_offset + n } in
      let h' : IsSound v' = lowered-IsSound n in
      let s = filled-IsSound less v' h' in
      record {
        stored_once = s.stored_once;
        shown_once = s.shown_once;
        shown_stored = s.shown_stored;
        fits = s.fits;
        complete = filled_complete less v' h';
        cursor =
            ground (arith, filled-reaches less v' h', h.cursor, h.fits, length-filled less v' h');
        detail_stored = s.detail_stored;
      }

  pub restarted-IsValid : IsValid (restarted less v)
  unfolding distinct has
  restarted-IsValid =
      let v' : View = record v { shown = [] } in
      let h' : IsSound v' = record {
        stored_once = h.stored_once;
        shown_once = refl;
        shown_stored = λ c i. ground arith;
        fits = omega arith;
        detail_stored = h.detail_stored;
      } in
      let s = filled-IsSound less v' h' in
      record {
        stored_once = s.stored_once;
        shown_once = s.shown_once;
        shown_stored = s.shown_stored;
        fits = s.fits;
        complete = filled_complete less v' h';
        cursor = ground (
          arith,
          filled-reaches less v' h',
          h.cursor,
          h.fits,
          length-within v.shown v.stored h.shown_once h.shown_stored,
        );
        detail_stored = s.detail_stored;
      }

  -- The view without a connection, before the list is filled again.
  pub without-IsSound :
      (c : Connection)
      → IsSound (record v {
        stored = erase_key c v.stored;
        shown = erase_key c v.shown;
        detail = without_detail c v.detail;
      })
  unfolding without_detail
  without-IsSound c = record {
    stored_once = distinct-erase_key c v.stored h.stored_once;
    shown_once = distinct-erase_key c v.shown h.shown_once;
    shown_stored = λ a i.
        ground (arith, h.shown_stored a, has-erase_key a c v.stored, has-erase_key a c v.shown, i);
    fits = omega (arith, h.fits, length-erase_key c v.shown);
    detail_stored = λ a i. ground (
      arith,
      h.detail_stored a,
      has-erase_key a c v.stored,
      connection_eq_iff c a,
      connection_eq_iff a c,
      i,
    );
  }

  pub removed-IsValid : (c : Connection) → IsValid (removed less c v)
  removed-IsValid c =
      let v' : View = record v {
        stored = erase_key c v.stored;
        shown = erase_key c v.shown;
        detail = without_detail c v.detail;
      } in
      let h' : IsSound v' = without-IsSound c in
      clamp-IsValid (filled less v') (filled-IsSound less v' h') (filled_complete less v' h')

  pub retargeted-IsValid : (n : ℕ) → IsValid (retargeted less n v)
  retargeted-IsValid n =
      let v' : View = record v { target_size = n } in
      let k = size v' - n in
      let counted = length-pop k v.shown in
      elim (ltb n (size v'))
          as (λ b.
            ltb n (size v') ≡ b
            → IsValid (
                clamp (
                  if b
                  then record v' { shown = pop k v'.shown }
                  else if ltb (size v') n
                  then filled less v'
                  else v'))) [
                    | true ↦ λ p.
                        clamp-IsValid (record v' { shown = pop k v.shown })
                          (record {
                            stored_once = h.stored_once;
                            shown_once = distinct-pop k v.shown h.shown_once;
                            shown_stored = λ c i. h.shown_stored c (has-pop k c v.shown i);
                            fits = ground (arith, counted);
                            detail_stored = h.detail_stored;
                          })
                          (λ c i r. absurd (ground (arith, counted)))
                    | false ↦ λ p.
                        let h' : IsSound v' = record {
                          stored_once = h.stored_once;
                          shown_once = h.shown_once;
                          shown_stored = h.shown_stored;
                          fits = ground arith;
                          detail_stored = h.detail_stored;
                        } in
                        elim (ltb (size v') n)
                            as (λ b.
                              ltb (size v') n ≡ b
                              → IsValid (clamp (if b then filled less v' else v'))) [
                                | true ↦ λ q.
                                    clamp-IsValid (filled less v') (filled-IsSound less v' h')
                                      (filled_complete less v' h')
                                | false ↦ λ q. clamp-IsValid v' h' (λ c i r. absurd (ground arith))
                              ]
                          refl
                  ]
        refl
