-- ===== src/Server/Updates/Replica.antt =====
-- A client that deserializes the items of a server's update. Source/Server.hpp, Source/Client.cpp,
-- Source/Connection.cpp.
use conntop.Prelude.{◌≡◌, refl, ap, ◌∙◌, true, []}
use conntop.Json.{JsonLib, ok}
use conntop.Connection.Serialize.{AddressText}
use conntop.Connection.Deserialize.Apply.{UpdateCallback}
use conntop.Client.{receive_items}
use conntop.Client.Items.{receive-append}
use conntop.Storage.{Storage}
use conntop.Storage.Backed.{Backed}
use conntop.Server.Updates.{Serializer}
use conntop.Server.Updates.Changes.{AllFit, perform, Runs, here, next}
use conntop.Server.Updates.Steps.{Follows, Step, step}

module _ (J : JsonLib) (T : AddressText) where
  module _ {W : Type 0} (cb : UpdateCallback W) (storage : W → Storage)
      (b : Backed cb storage) where
    record Replicated (z : Serializer J T) (w : W) : Type 0 where
      enabled : z.is_serialization_enabled ≡ true
      fit : AllFit z.storage
      received : (receive_items J T cb z.items w).0 ≡ ok tt
      follows : Follows J T cb storage b z.storage (receive_items J T cb z.items w).1

    step_on :
        (z z' : Serializer J T) (w : W)
        → Replicated z w
        → Step J T cb storage b z z' (receive_items J T cb z.items w).1
        → Replicated z' w
    step_on z z' w r s =
        let whole =
          ap (λ vs. receive_items J T cb vs w) s.appended
          ∙ receive-append J T cb z.items s.items w r.received in
        record {
          enabled = s.enabled;
          fit = s.fit;
          received = ap (λ o. o.0) whole ∙ s.received;
          follows = rw whole s.follows;
        }

    run : {z z' : Serializer J T} (w : W) → Runs J T z z' → Replicated z w → Replicated z' w
    run w here r = r
    run w (next {y} runs c a) r =
        let so_far = run w runs r in
        step_on y (perform J T c y) w so_far (
          step J T cb storage b c y (receive_items J T cb y.items w).1 so_far.enabled so_far.fit
            so_far.follows a)

    -- Take a server whose update serializer is enabled and has no items, whose connections can be
    -- carried by items, and a client, over any callback that keeps its connections in a storage,
    -- which has the same connections with the same data and an entry for both ends of each. Let
    -- the collector add connections, change some and report flags that name every changed field,
    -- and remove connections, in any order. When the client then deserializes the serializer's
    -- items in order, no item is refused, and the client again has the server's connections with
    -- the server's data and an entry for both ends of each.
    pub replica :
        (z z' : Serializer J T) (w : W)
        → Runs J T z z'
        → z.items ≡ []
        → z.is_serialization_enabled ≡ true
        → AllFit z.storage
        → Follows J T cb storage b z.storage w
        → ((receive_items J T cb z'.items w).0 ≡ ok tt)
          × Follows J T cb storage b z'.storage (receive_items J T cb z'.items w).1
    unfolding receive_items
    replica z z' w runs i e f h =
        let start : Replicated z w = record {
          enabled = e;
          fit = f;
          received = rw i refl;
          follows = rw i h;
        } in
        let last = run w runs start in (last.received, last.follows)
