-- ===== src/Conntrack/Collector/Life.antt =====
-- A collector and the server's update serializer between two times that it starts over, and a client
-- of the server. Source/Collector_Netfilter/Conntrack.cpp, Source/Server.hpp, Source/Client.cpp.
use conntop.Prelude.{
  ◌||◌, ◌≡◌, refl, sym, subst, Bool, true, false, not, List, [], none, if◌then◌else◌, arith,
}
use conntop.Json.{JsonLib}
use conntop.Session.{Outcome, done, thrown}
use conntop.Connection.Serialize.{AddressText}
use conntop.Storage.{Storage}
use conntop.Server.Updates.{callback}
use conntop.Server.Updates.Changes.{AllFit, Runs, here}
use conntop.Conntrack.{NfConntrack}
use conntop.Conntrack.Collector.{
  MsgType, Conntrack, event_callbacks, process_events, handle_queries, on_update,
}
use conntop.Conntrack.Collector.Extract.{EachEventFits, EachPlausible, Runs-append, Runs-AllFit, S}
use conntop.Conntrack.Collector.Serves.{
  Served, EachEventPlausible, process_events-Runs, handle_queries-Runs, event_callbacks-Served,
}
use conntop.Conntrack.Collector.{
  event_poll_handler, Caught, caught, no_buffers, would_block, catch_failed, caught_up, checked,
  set_paused,
}
use conntop.Session.{PollFlags}
use conntop.Client.{receive_items}
use conntop.Json.{ok}
use conntop.Connection.Deserialize.Apply.{UpdateCallback}
use conntop.Storage.Backed.{Backed}
use conntop.Server.Updates.Steps.{Follows}
use conntop.Server.Updates.Replica.{replica}

module _ (J : JsonLib) (T : AddressText) where
  -- Polls, updates that do not start over, and pauses, none of which throws.
  pub data Life (start : Conntrack × S J T) : Conntrack × S J T → Type 0 where
    begins : Life start start
    polled :
        (k : Conntrack) (z : S J T) (kz : Conntrack × S J T) (flags : PollFlags)
        (events : List (MsgType × NfConntrack)) (end : Caught)
        → Life start (k, z)
        → EachEventPlausible events
        → event_poll_handler (callback J T) flags events end (k, z) ≡ done kz
        → Life start kz
    updated :
        (k : Conntrack) (z : S J T) (kz : Conntrack × S J T) (dump : List NfConntrack)
        → Life start (k, z)
        → EachPlausible dump
        → k.is_refill_required ≡ false
        → on_update (callback J T) dump none (k, z) ≡ done kz
        → Life start kz
    paused :
        (k : Conntrack) (z : S J T) (b : Bool) → Life start (k, z) → Life start (set_paused b k, z)

  -- What holds of the state if there was no exception.
  abbrev Returned : (Conntrack × S J T → Type 0) → Outcome (Conntrack × S J T) → Type 0
  Returned P (done kz) = P kz
  Returned P (thrown text kz) = Unit

  caught_up-Served :
      (k : Conntrack) (z : S J T) (kz : Conntrack × S J T) (end : Caught)
      → Served J T k z kz
      → Returned (Served J T k z) (caught_up (callback J T) end kz)
  unfolding caught_up
  caught_up-Served k z kz caught s = s
  caught_up-Served k z kz no_buffers s = record { runs = s.runs; events = s.events }
  caught_up-Served k z kz would_block s = s
  caught_up-Served k z kz (catch_failed text) s = tt

  checked-Served :
      (k : Conntrack) (z : S J T) (error : Bool) (o : Outcome (Conntrack × S J T))
      → Returned (Served J T k z) o
      → Returned (Served J T k z) (checked (callback J T) error o)
  unfolding checked
  checked-Served k z error (thrown text kz) s = tt
  checked-Served k z true (done kz) s = tt
  checked-Served k z false (done kz) s = s

  polled-Served :
      (k : Conntrack) (z : S J T) (flags : PollFlags) (events : List (MsgType × NfConntrack))
      (end : Caught)
      → EachEventPlausible events
      → EachEventFits k.event_queue
      → Returned (Served J T k z) (event_poll_handler (callback J T) flags events end (k, z))
  unfolding event_poll_handler
  polled-Served k z flags events end p h = checked-Served k z flags.error _ (at flags.input)
    where
      at :
          (input : Bool)
          → Returned (Served J T k z) (
              if input
              then caught_up (callback J T) end (event_callbacks (callback J T) events (k, z))
              else done (k, z))
      at true = caught_up-Served k z _ end (event_callbacks-Served J T events k z p h)
      at false = record { runs = here; events = h }

  updated-Served :
      (k : Conntrack) (z : S J T) (dump : List NfConntrack)
      → EachPlausible dump
      → EachEventFits k.event_queue
      → AllFit z.storage
      → k.is_refill_required ≡ false
      → Returned (Served J T k z) (on_update (callback J T) dump none (k, z))
  unfolding on_update
  updated-Served k z dump p h f r = at (not k.is_initialized || k.is_paused)
    where
      k₁ : Conntrack
      k₁ = record k { event_queue = [] }

      first : Runs J T z (process_events (callback J T) k.event_queue z)
      first = process_events-Runs J T k.event_queue z h

      after : S J T → Conntrack × S J T
      after y = (record k₁ { is_refill_required = false }, handle_queries (callback J T) dump k₁ y)

      served :
          (y : S J T) → y ≡ process_events (callback J T) k.event_queue z → Served J T k z (after y)
      served y e = record {
        runs = rw e (
            Runs-append J T z _ _ first
              (handle_queries-Runs J T dump k₁ _ p r (Runs-AllFit J T z _ first f)));
        events = tt;
      }

      at :
          (idle : Bool)
          → Returned (Served J T k z) (
              if idle
              then done (k, z)
              else done (
                  after (
                    if k.is_refill_required
                    then (callback J T).clear z
                    else process_events (callback J T) k.event_queue z)))
      at true = record { runs = here; events = h }
      at false = served _ (rw r refl)

  set_paused-events : (b : Bool) (k : Conntrack) → (set_paused b k).event_queue ≡ k.event_queue
  unfolding set_paused
  set_paused-events b k = ground arith

  then_Served :
      (k k₁ : Conntrack) (z z₁ : S J T) (kz : Conntrack × S J T)
      → Served J T k z (k₁, z₁)
      → Served J T k₁ z₁ kz
      → Served J T k z kz
  then_Served k k₁ z z₁ kz s t = record {
    runs = Runs-append J T z z₁ _ s.runs t.runs;
    events = t.events;
  }

  Life-Served :
      (k : Conntrack) (z : S J T) (kz : Conntrack × S J T)
      → EachEventFits k.event_queue
      → AllFit z.storage
      → Life (k, z) kz
      → Served J T k z kz
  Life-Served k z kz h f begins = record { runs = here; events = h }
  Life-Served k z kz h f (polled k₁ z₁ _ flags events end life p e) =
      let s = Life-Served k z (k₁, z₁) h f life in
      then_Served k k₁ z z₁ kz s
        (subst (Returned (Served J T k₁ z₁)) e (polled-Served k₁ z₁ flags events end p s.events))
  Life-Served k z kz h f (updated k₁ z₁ _ dump life p r e) =
      let s = Life-Served k z (k₁, z₁) h f life in
      then_Served k k₁ z z₁ kz s (
        subst (Returned (Served J T k₁ z₁)) e
          (updated-Served k₁ z₁ dump p s.events (Runs-AllFit J T z z₁ s.runs f) r))
  Life-Served k z kz h f (paused k₁ z₁ b life) =
      let s = Life-Served k z (k₁, z₁) h f life in
      record { runs = s.runs; events = subst EachEventFits (sym (set_paused-events b k₁)) s.events }

  module _ {W : Type 0} (cb : UpdateCallback W) (storage : W → Storage)
      (b : Backed cb storage) where
    -- Take a collector that writes to the server's update serializer, enabled and without items,
    -- and a client, over any callback that keeps its connections in a storage, which has the
    -- server's connections; all of them, and those of the events that wait, can be carried by
    -- items. Let the collector go through any polls of kernel events, updates that do not start
    -- over, and pauses, none of which throws, with ports below 2^16 and counters below 2^64. When
    -- the client then deserializes the serializer's items in order, no item is refused, and the
    -- client again has the server's connections with the server's data and an entry for both ends
    -- of each.
    pub collected :
        (k k' : Conntrack) (z z' : S J T) (w : W)
        → Life (k, z) (k', z')
        → EachEventFits k.event_queue
        → z.items ≡ []
        → z.is_serialization_enabled ≡ true
        → AllFit z.storage
        → Follows J T cb storage b z.storage w
        → ((receive_items J T cb z'.items w).0 ≡ ok tt)
          × Follows J T cb storage b z'.storage (receive_items J T cb z'.items w).1
    collected k k' z z' w life h i e f s =
        let runs = (Life-Served k z (k', z') h f life).runs in
        replica J T cb storage b z z' w runs i e f s
