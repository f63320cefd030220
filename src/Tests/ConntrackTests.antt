-- ===== src/Tests/ConntrackTests.antt =====
-- The collector at concrete inputs.
use conntop.Prelude.{◌≡◌, ◌<◌, ◌^◌, refl, true, false, none, [], ◌∷◌, arith}
use conntop.Json.{ok}
use conntop.Session.{Outcome, done, thrown, PollFlags}
use conntop.Connection.{create_type}
use conntop.Connection.Deserialize.Apply.Stored.{Covers}
use conntop.Client.{receive_items}
use conntop.Server.Updates.{Serializer, callback, get_address, port, new_serializer}
use conntop.Server.Updates.Keeps.{callback-Backed}
use conntop.Server.Updates.Steps.{Follows}
use conntop.Conntrack.{
  NfConntrack, af_inet, ipproto_tcp, conntrack_established, conntrack_close_wait, measured, sub64,
  is_tcp, tcp_state_to_enum, addresses_in, port_type_in,
}
use conntop.Conntrack.Collector.{
  nfct_t_new, Conntrack, caught, event_poll_handler, on_update, caught_up, checked, event_callbacks,
  event_callback, handle_event, extract_address_port, is_new, new_conntrack, init,
}
use conntop.Conntrack.Measure.{IsCounted, measured_lem, measured-Covers, measured-IsFit}
use conntop.Server.Updates.Changes.{IsFit}
use conntop.Conntrack.Collector.Extract.{IsPlausible}
use conntop.Conntrack.Collector.Life.{Life, begins, polled, updated, collected}
use conntop.Tests.JsonModel.{json}
use conntop.Tests.ConnectionTests.{address_text, visit}
use conntop.Tests.ReplicaTests.{nothing, visit-IsFit, empty-AllFit, empty-Closed}

abbrev tracked : NfConntrack
tracked = record {
  l3_proto = af_inet;
  l4_proto = ipproto_tcp;
  ipv4_src = 3;
  ipv4_dst = 5;
  ipv6_src = (0, 0, 0, 0);
  ipv6_dst = (0, 0, 0, 0);
  port_src = 50000;
  port_dst = 443;
  tcp_state = conntrack_close_wait;
  repl_counter_packets = 12;
  orig_counter_packets = 20;
  repl_counter_bytes = 1500;
  orig_counter_bytes = 2000;
}

tracked-IsCounted : IsCounted tracked
tracked-IsCounted = record {
  repl_counter_packets = omega arith;
  orig_counter_packets = omega arith;
  repl_counter_bytes = omega arith;
  orig_counter_bytes = omega arith;
}

tracked-IsPlausible : IsPlausible tracked
tracked-IsPlausible = record {
  port_src = omega arith;
  port_dst = omega arith;
  counted = tracked-IsCounted;
}

-- The visit had 1000 bytes received: 500 since.
measured_run : measured tracked visit ≡ (
  record visit {
    state = 7;
    traffic = record {
      rx_packets = 12;
      tx_packets = 20;
      rx_bytes = 1500;
      tx_bytes = 2000;
      rx_speed = 500;
      tx_speed = 0;
    };
  },
  3394,
)
unfolding measured conntop.Conntrack.is_state_changed conntop.Conntrack.tcp_state_is_equal
    conntop.Conntrack.metered tcp_state_to_enum create_type
measured_run = refl

measured_example :
    let t = ((measured tracked visit).0).traffic in
    (t.rx_packets ≡ 12)
    × (t.tx_packets ≡ 20)
    × (t.rx_bytes ≡ 1500)
    × (t.tx_bytes ≡ 2000)
    × (t.rx_speed ≡ 500)
    × (t.tx_speed ≡ 0)
    × ((measured tracked visit).0.state ≡ 7)
unfolding tcp_state_to_enum create_type
measured_example = measured_lem tracked visit tracked-IsCounted (omega arith) (omega arith)

measured-Covers_example :
    Covers (measured tracked visit).1 visit (measured tracked visit).0
    × ((measured tracked visit).1 < 2 ^ 32)
measured-Covers_example =
    measured-Covers tracked visit tracked-IsCounted (omega arith) (omega arith)

measured-IsFit_example : IsFit (measured tracked visit).0
measured-IsFit_example = measured-IsFit tracked visit tracked-IsCounted visit-IsFit

-- The kernel tells of a new connection; then its table is dumped.
abbrev state_of : {S : Type 0} → Outcome S → S
state_of (done s) = s
state_of (thrown text s) = s

abbrev ready : Conntrack
ready = record (init new_conntrack) { is_refill_required = false }

abbrev readable : PollFlags
readable = record { input = true; output = false; error = false }

abbrev told : Conntrack × Serializer json address_text
told = state_of (
    event_poll_handler (callback json address_text) readable ((nfct_t_new, tracked) ∷ []) caught
      (ready, nothing))

abbrev dumped : Conntrack × Serializer json address_text
dumped = state_of (on_update (callback json address_text) (tracked ∷ []) none told)

told-Life : Life json address_text (ready, nothing) told
unfolding event_poll_handler caught_up checked
told-Life =
    polled ready nothing told readable ((nfct_t_new, tracked) ∷ []) caught begins
      (tracked-IsPlausible, tt) refl

dumped-Life : Life json address_text (ready, nothing) dumped
unfolding on_update event_poll_handler caught_up checked new_conntrack init event_callbacks
    event_callback handle_event extract_address_port addresses_in port_type_in callback get_address
    is_new port
dumped-Life =
    updated told.0 told.1 dumped (tracked ∷ []) told-Life (tracked-IsPlausible, tt) refl refl

collected_example :
    ((receive_items json address_text (callback json address_text) (dumped.1).items nothing).0
      ≡ ok tt)
    × Follows json address_text
        (callback json address_text)
        (λ w. w.storage)
        (callback-Backed json address_text)
        (dumped.1).storage
        (receive_items json address_text (callback json address_text) (dumped.1).items nothing).1
unfolding new_serializer new_conntrack init
collected_example =
    collected json address_text (callback json address_text) (λ w. w.storage)
      (callback-Backed json address_text) ready dumped.0 nothing dumped.1 nothing dumped-Life tt
      refl refl empty-AllFit (record { same = λ c. refl; closed = empty-Closed })
