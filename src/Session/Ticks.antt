-- ===== src/Session/Ticks.antt =====
-- Update ticks: what the client demands of their timestamps, and where the server keeps its tick.
-- Source/ClientServerProtocol.cpp and Source/ClientServerProtocol.hpp.
use conntop.Prelude.{ℕ, ◌<◌, ◌^◌, ◌≡◌, ◌==◌, [], ◌∷◌, if◌then◌else◌, add32, arith}
use conntop.Json.{JsonLib}
use conntop.Protocol.{ServerMsg, connected}
use conntop.Protocol.Message.{SerializedMessage, Surroundings, server_update_tick}
use conntop.Session.{done, thrown}
use conntop.Session.Fields
use conntop.Session.Client
use conntop.Session.Client.{ClientSession, ClientCallback}
use conntop.Session.Server.{
  Shared, ServerContext, tick_slot, hello_slot, banner_slot, connections_slot,
}

-- The client's session after a tick that it takes.
abbrev pub ticked : ℕ → ClientSession → ClientSession
ticked t s = record s { current_timestamp = t; session_ttl = add32 s.session_ttl 1 }

module _ (J : JsonLib) {W : Type 0} (cb : ClientCallback (J.Value) W) (e : Surroundings) where
  -- A connected client takes a tick with a timestamp below 2^32 if its current timestamp is 0 or
  -- the tick's is its successor mod 2^32: the owner is told, the timestamp is the tick's and the
  -- session lives one update longer. Any other tick is refused with an exception, and nothing
  -- changes.
  pub tick_taken :
      (t : ℕ) (w : W) (s : ClientSession)
      → t < 2 ^ 32
      → s.state ≡ connected
      → Client.on_message J cb e (server_update_tick J t) (w, s) ≡ (
          if s.current_timestamp == 0
          then done (cb.on_session_server_tick (w, ticked t s))
          else if t == add32 s.current_timestamp 1
          then done (cb.on_session_server_tick (w, ticked t s))
          else thrown ("Unexpected update tick timestamp" ∷ []) (w, s))
  unfolding Client.on_message
  tick_taken t w s h p =
      ground (arith, Fields.server_msg_type-tick J t, Fields.tick_fields-tick J t h)

-- The message at each place: the cached ones of the context, and the two of the server.
unfoldable pub shared_messages :
    ServerContext → SerializedMessage ServerMsg → SerializedMessage ServerMsg → Shared
shared_messages c connections updates slot =
    if slot == banner_slot
    then c.cached_msg_banner
    else if slot == hello_slot
    then c.cached_msg_hello
    else if slot == tick_slot
    then c.cached_msg_update_tick
    else if slot == connections_slot
    then connections
    else updates
