-- ===== src/Client/Items.antt =====
-- The loop of `Client::onSessionData` over the items of a message. Source/Client.cpp.
use conntop.Prelude.{◌≡◌, refl, true, List, [], ◌∷◌, ◌++◌, arith}
use conntop.Json.{JsonLib, ok}
use conntop.Connection.Serialize.{AddressText}
use conntop.Connection.Deserialize.Apply.{UpdateCallback, deserialize}
use conntop.Client.{receive_items}

module _ (J : JsonLib) (T : AddressText) {W : Type 0} (cb : UpdateCallback W) where
  pub receive-cons :
      (v : J.Value) (vs : List (J.Value)) (w : W)
      → (deserialize T cb J v w).0 ≡ ok true
      → receive_items J T cb (v ∷ vs) w ≡ receive_items J T cb vs (deserialize T cb J v w).1
  unfolding receive_items
  receive-cons v vs w p = rw (p, receive_items) refl

  pub receive-append :
      (xs ys : List (J.Value)) (w : W)
      → (receive_items J T cb xs w).0 ≡ ok tt
      → receive_items J T cb (xs ++ ys) w ≡ receive_items J T cb ys (receive_items J T cb xs w).1
  unfolding receive_items
  receive-append [] ys w p = refl
  receive-append (x ∷ xs) ys w p = ground (arith, receive-append xs ys (deserialize T cb J x w).1)
