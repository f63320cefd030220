-- ===== src/Conntrack/Collector/Serves.antt =====
-- The collector with the server's update serializer as its callback: what it makes of the kernel's
-- events and counters are changes of the server's connections.
-- Source/Collector_Netfilter/Conntrack.cpp, Source/Server.hpp.
use conntop.Prelude.{
  ℕ, ◌≡◌, ◌∙◌, ap, Bool, true, false, not, List, [], ◌∷◌, Option, none, some, Option-cases, inl,
  inr, ◌==◌, if◌then◌else◌,
}
use conntop.Json.{JsonLib}
use conntop.Connection.{Connection, ConnectionData}
use conntop.Connection.Serialize.{AddressText}
use conntop.Storage.{get_connection, write}
use conntop.Storage.Enter.{get-connection}
use conntop.Server.Updates.{callback, add, add_with, find, change}
use conntop.Server.Updates.Changes.{
  opened, changed, closed, IsFit, AllFit, perform, Runs, here, next,
}
use conntop.Conntrack.{NfConntrack, measured}
use conntop.Conntrack.Collector.{
  ConntrackEvent, EventType, new_connection, removed_connection, MsgType, nfct_t_new,
  nfct_t_destroy, other_msg, Conntrack, handle_query, update_with, update_found, tell, handle_event,
  queued, is_new, event_callback, event_callbacks, process, process_events, handle_queries,
}
use conntop.Conntrack.Measure.{measured-Covers, measured-IsFit}
use conntop.Conntrack.Collector.Extract.{
  IsPlausible, first_data, EachEventFits, EachPlausible, Fits, events-append, Runs-append,
  Runs-AllFit, S, extract_address_port-Extracted,
}

abbrev pub EachEventPlausible : List (MsgType × NfConntrack) → Type 0
EachEventPlausible [] = Unit
EachEventPlausible ((type, ct) ∷ es) = IsPlausible ct × EachEventPlausible es

module _ (J : JsonLib) (T : AddressText) where
  pub record Served (k : Conntrack) (z : S J T) (kz : Conntrack × S J T) : Type 0 where
    pub runs : Runs J T z kz.1
    pub events : EachEventFits kz.0.event_queue

  queued-EachEventFits :
      (type : EventType) (c : Option Connection) (k : Conntrack)
      → EachEventFits k.event_queue
      → Fits c
      → EachEventFits (queued type c k).event_queue
  unfolding queued
  queued-EachEventFits type none k h f = h
  queued-EachEventFits type (some c) k h f = events-append k.event_queue _ h f

  handle_event-Served :
      (ct : NfConntrack) (type : EventType) (k : Conntrack) (z : S J T)
      → IsPlausible ct
      → EachEventFits k.event_queue
      → Served k z (handle_event (callback J T) ct type (k, z))
  unfolding handle_event
  handle_event-Served ct type k z p h =
      let x = extract_address_port-Extracted J T ct (is_new type) z p in
      record { runs = x.runs; events = queued-EachEventFits type _ k h x.fits }

  event_callback-Served :
      (type : MsgType) (ct : NfConntrack) (k : Conntrack) (z : S J T)
      → IsPlausible ct
      → EachEventFits k.event_queue
      → Served k z (event_callback (callback J T) type ct (k, z))
  unfolding event_callback
  event_callback-Served type ct k z p h = at k.is_refill_required type
    where
      at :
          (refill : Bool) (m : MsgType)
          → Served k z (
              if not refill
              then elim m [
                | nfct_t_new ↦ handle_event (callback J T) ct new_connection (k, z)
                | nfct_t_destroy ↦ handle_event (callback J T) ct removed_connection (k, z)
                | other_msg ↦ (k, z)
              ]
              else (k, z))
      at true m = record { runs = here; events = h }
      at false nfct_t_new = handle_event-Served ct new_connection k z p h
      at false nfct_t_destroy = handle_event-Served ct removed_connection k z p h
      at false other_msg = record { runs = here; events = h }

  -- The events that waited.
  processed :
      (type : EventType) (c : Connection) (z : S J T)
      → IsFit (first_data c)
      → Runs J T z (process (callback J T) (record { type = type; connection = c }) z)
  unfolding process callback add add_with perform
  processed new_connection c z f = next here (opened (first_data c)) f
  processed removed_connection c z f = next here (closed c) tt

  process-Runs :
      (e : ConntrackEvent) (z : S J T)
      → IsFit (first_data e.connection)
      → Runs J T z (process (callback J T) e z)
  process-Runs e z f = processed e.type e.connection z f

  pub process_events-Runs :
      (es : List ConntrackEvent) (z : S J T)
      → EachEventFits es
      → Runs J T z (process_events (callback J T) es z)
  unfolding process_events
  process_events-Runs [] z h = here
  process_events-Runs (e ∷ es) z (f, h) =
      Runs-append J T z _ _ (process-Runs e z f) (process_events-Runs es _ h)

  -- A known connection that the dump shows.
  tell-Runs :
      (ct : NfConntrack) (c : Connection) (d : ConnectionData) (z : S J T)
      → IsPlausible ct
      → AllFit z.storage
      → get_connection c z.storage ≡ some d
      → Runs J T z (tell (callback J T) (measured ct d) z)
  unfolding tell callback perform
  tell-Runs ct c d z p f q = at (not (flags == 0))
    where
      new : ConnectionData
      new = (measured ct d).0

      flags : ℕ
      flags = (measured ct d).1

      fit : IsFit d
      fit = f c d q

      at :
          (told : Bool)
          → Runs J T z (
              if told then change J T new flags (record z { storage = write new z.storage }) else z)
      at true =
          let (covers, bound) =
            measured-Covers ct d p.counted fit.wide.rx_bytes fit.wide.tx_bytes in
          let found =
            ap (λ k. get_connection k z.storage)
              (covers.connection ∙ get-connection c z.storage d q)
            ∙ q in
          next here (changed new flags)
            (measured-IsFit ct d p.counted fit, bound, (d, found, covers))
      at false = here

  update_with-Runs :
      (ct : NfConntrack) (c : Option Connection) (z : S J T)
      → IsPlausible ct
      → AllFit z.storage
      → Runs J T z (update_with (callback J T) ct c z)
  unfolding update_with update_found callback find
  update_with-Runs ct none z p f = here
  update_with-Runs ct (some c) z p f = elim (Option-cases (get_connection c z.storage)) [
    | inl q ↦ rw (q, update_found) here
    | inr (d, q) ↦ rw (q, update_found) (tell-Runs ct c d z p f q)
  ]

  handle_query-Runs :
      (ct : NfConntrack) (k : Conntrack) (z : S J T)
      → IsPlausible ct
      → k.is_refill_required ≡ false
      → AllFit z.storage
      → Runs J T z (handle_query (callback J T) ct k z)
  unfolding handle_query
  handle_query-Runs ct k z p r f =
      let x = extract_address_port-Extracted J T ct false z p in
      rw r (Runs-append J T z _ _ x.runs (update_with-Runs ct _ _ p (Runs-AllFit J T z _ x.runs f)))

  pub handle_queries-Runs :
      (cts : List NfConntrack) (k : Conntrack) (z : S J T)
      → EachPlausible cts
      → k.is_refill_required ≡ false
      → AllFit z.storage
      → Runs J T z (handle_queries (callback J T) cts k z)
  unfolding handle_queries
  handle_queries-Runs [] k z h r f = here
  handle_queries-Runs (ct ∷ cts) k z (p, h) r f =
      let one = handle_query-Runs ct k z p r f in
      Runs-append J T z _ _ one (handle_queries-Runs cts k _ h r (Runs-AllFit J T z _ one f))

  pub event_callbacks-Served :
      (es : List (MsgType × NfConntrack)) (k : Conntrack) (z : S J T)
      → EachEventPlausible es
      → EachEventFits k.event_queue
      → Served k z (event_callbacks (callback J T) es (k, z))
  unfolding event_callbacks
  event_callbacks-Served [] k z h f = record { runs = here; events = f }
  event_callbacks-Served ((type, ct) ∷ es) k z (p, h) f =
      let one = event_callback-Served type ct k z p f in
      let rest = event_callbacks-Served es _ _ h one.events in
      record { runs = Runs-append J T z _ _ one.runs rest.runs; events = rest.events }
