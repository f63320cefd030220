-- ===== src/Connection/Deserialize/Apply/Stored.antt =====
-- What an item that the server wrote does to the storage behind the callback.
-- Source/Connection.cpp, Source/ConnectionStorage.hpp.
use conntop.Prelude.{
  ℕ, ◌<◌, ◌^◌, ◌≡◌, refl, ap, ◌∙◌, Bool, true, false, not, some, ◌==◌, if◌then◌else◌, has_flag,
  arith,
}
use conntop.Json.{JsonLib, Result, ok}
use conntop.Connection.{Address, Port, ConnectionAction, create, update, remove, ConnectionData}
use conntop.Connection.Serialize.{
  AddressText, serialize, proto_state_flag, rx_packets_flag, tx_packets_flag, rx_bytes_flag,
  tx_bytes_flag, rx_speed_flag, tx_speed_flag,
}
use conntop.Connection.Deserialize.{is_create}
use conntop.Connection.Deserialize.RoundTrip.{IsWide, carried, carried_state}
use conntop.Connection.Deserialize.Apply.{
  UpdateCallback, act, apply_update, updated, seen_flags, deserialize,
}
use conntop.Connection.Deserialize.Apply.Items.{IsUniform, item, asked, Gives, deserialize-Gives}
use conntop.Storage.{Storage, has_port, get_connection, add_connection, remove_connection, write}
use conntop.Storage.Backed.{
  Backed, address_step, port_step, knows, Ends, enter, address_step-known, port_step-known,
  address_step-added,
}

-- The data differ at most in the fields that the flags name.
pub record Covers (flags : ℕ) (old new : ConnectionData) : Type 0 where
  pub connection : new.connection ≡ old.connection
  pub state : has_flag flags proto_state_flag ≡ false → new.state ≡ old.state
  pub rx_packets :
      has_flag flags rx_packets_flag ≡ false → (new.traffic).rx_packets ≡ (old.traffic).rx_packets
  pub tx_packets :
      has_flag flags tx_packets_flag ≡ false → (new.traffic).tx_packets ≡ (old.traffic).tx_packets
  pub rx_bytes :
      has_flag flags rx_bytes_flag ≡ false → (new.traffic).rx_bytes ≡ (old.traffic).rx_bytes
  pub tx_bytes :
      has_flag flags tx_bytes_flag ≡ false → (new.traffic).tx_bytes ≡ (old.traffic).tx_bytes
  pub rx_speed :
      has_flag flags rx_speed_flag ≡ false → (new.traffic).rx_speed ≡ (old.traffic).rx_speed
  pub tx_speed :
      has_flag flags tx_speed_flag ≡ false → (new.traffic).tx_speed ≡ (old.traffic).tx_speed

module _ (J : JsonLib) (T : AddressText) {W : Type 0} (cb : UpdateCallback W)
    (storage : W → Storage) (b : Backed cb storage) (d : ConnectionData) (flags : ℕ) where
  asked-create :
      (w : W)
      → Gives J T d create flags cb w
        × (storage (asked J T d create flags cb w) ≡ enter d.connection (storage w))
  asked-create w =
      let c = d.connection in
      let w₁ = (cb.get_address c.src_addr true w).1 in
      let w₂ = (cb.get_address c.dst_addr true w₁).1 in
      let w₃ = (cb.get_port c.src_port true w₂).1 in
      let e₁ = b.address c.src_addr true w in
      let e₂ = b.address c.dst_addr true w₁ in
      let e₃ = b.port c.src_port true w₂ in
      let e₄ = b.port c.dst_port true w₃ in
      (
        record {
          src_addr = e₁.0 ∙ address_step-added c.src_addr (storage w);
          dst_addr = e₂.0 ∙ address_step-added c.dst_addr (storage w₁);
          src_port = e₃.0;
          dst_port = e₄.0;
        },
        e₄.1
            ∙ ap (λ s. (port_step c.dst_port true s).1)
                (e₃.1
                  ∙ ap (λ s. (port_step c.src_port true s).1)
                      (e₂.1 ∙ ap (λ s. (address_step c.dst_addr true s).1) e₁.1)),
      )

  address-known :
      (a : Address) (w : W)
      → knows a (storage w) ≡ true
      → ((cb.get_address a false w).0 ≡ some a) × (storage (cb.get_address a false w).1 ≡ storage w)
  address-known a w h = (
    (b.address a false w).0 ∙ ap (λ r. r.0) (address_step-known a (storage w) h),
    (b.address a false w).1 ∙ ap (λ r. r.1) (address_step-known a (storage w) h),
  )

  port-known :
      (p : Port) (w : W)
      → has_port p (storage w).port_map ≡ true
      → ((cb.get_port p false w).0 ≡ some p) × (storage (cb.get_port p false w).1 ≡ storage w)
  port-known p w h = (
    (b.port p false w).0 ∙ ap (λ r. r.0) (port_step-known p (storage w) h),
    (b.port p false w).1 ∙ ap (λ r. r.1) (port_step-known p (storage w) h),
  )

  -- The four answers, in the order in which they are asked for.
  abbrev Answers : W → Type 0
  Answers w =
      let c = d.connection in
      let (src, w₁) = cb.get_address c.src_addr false w in
      let (dst, w₂) = cb.get_address c.dst_addr false w₁ in
      let (p, w₃) = cb.get_port c.src_port false w₂ in
      let (q, w₄) = cb.get_port c.dst_port false w₃ in
      (src ≡ some c.src_addr)
      × (dst ≡ some c.dst_addr)
      × (p ≡ some c.src_port)
      × (q ≡ some c.dst_port)
      × (storage w₄ ≡ storage w)

  answers : (w : W) → Ends d.connection (storage w) → Answers w
  answers w h =
      let c = d.connection in
      let e₁ = address-known c.src_addr w h.src_addr in
      let w₁ = (cb.get_address c.src_addr false w).1 in
      let e₂ = address-known c.dst_addr w₁ (rw e₁.1 h.dst_addr) in
      let w₂ = (cb.get_address c.dst_addr false w₁).1 in
      let s₂ = e₂.1 ∙ e₁.1 in
      let e₃ = port-known c.src_port w₂ (rw s₂ h.src_port) in
      let w₃ = (cb.get_port c.src_port false w₂).1 in
      let s₃ = e₃.1 ∙ s₂ in
      let e₄ = port-known c.dst_port w₃ (rw s₃ h.dst_port) in (e₁.0, e₂.0, e₃.0, e₄.0, e₄.1 ∙ s₃)

  asked-known :
      (action : ConnectionAction) (w : W)
      → is_create action ≡ false
      → Ends d.connection (storage w)
      → Gives J T d action flags cb w × (storage (asked J T d action flags cb w) ≡ storage w)
  asked-known create w f h = absurd (ground arith)
  asked-known update w f h =
      let (p, q, r, s, t) = answers w h in
      (record { src_addr = p; dst_addr = q; src_port = r; dst_port = s }, t)
  asked-known remove w f h =
      let (p, q, r, s, t) = answers w h in
      (record { src_addr = p; dst_addr = q; src_port = r; dst_port = s }, t)

  updated-Covers :
      (old : ConnectionData)
      → Covers flags old d
      → updated flags (carried_state J T d flags update) (carried update flags d.traffic) old ≡ d
  unfolding updated
  updated-Covers old c = ground arith

  -- Whether the callback is told or not, the storage has the data that were assigned.
  either_told :
      (told : Bool) (x : ConnectionData) (f : ℕ) (w : W)
      → storage (if told then cb.update x f (cb.write x w) else cb.write x w) ≡ write x (storage w)
  either_told true x f w = b.update x f (cb.write x w) ∙ b.write x w
  either_told false x f w = b.write x w

  act-update :
      (old : ConnectionData) (w : W)
      → cb.find d.connection w ≡ some old
      → Covers flags old d
      → let (result, w') = act T cb update (item J T d update flags) d.connection w in
        (result ≡ ok true) × (storage w' ≡ write d (storage w))
  unfolding act apply_update
  act-update old w g c =
      rw (g, updated-Covers old c)
        (refl, either_told (not (seen_flags flags == 0)) d (seen_flags flags) w)

  module _ (w : W) (wide : IsWide d) (u : IsUniform d.connection) (h : flags < 2 ^ 32) where
    abbrev left : ConnectionAction → Result Bool × W
    left action = deserialize T cb J (serialize J T d action flags) w

    pub deserialize-create :
        ((left create).0 ≡ ok true)
        × (storage (left create).1 ≡ (add_connection d (enter d.connection (storage w))).2)
    unfolding act
    deserialize-create =
        rw (deserialize-Gives J T d create flags cb w wide u h (asked-create w).0) (
          refl,
          b.add d.connection d.traffic d.state (asked J T d create flags cb w)
              ∙ ap (λ s. (add_connection d s).2) (asked-create w).1,
        )

    pub deserialize-remove :
        Ends d.connection (storage w)
        → ((left remove).0 ≡ ok true)
          × (storage (left remove).1 ≡ (remove_connection d.connection (storage w)).1)
    unfolding act
    deserialize-remove k =
        rw (deserialize-Gives J T d remove flags cb w wide u h (asked-known remove w refl k).0) (
          refl,
          b.remove d.connection (asked J T d remove flags cb w)
              ∙ ap (λ s. (remove_connection d.connection s).1) (asked-known remove w refl k).1,
        )

    pub deserialize-update :
        (old : ConnectionData)
        → Ends d.connection (storage w)
        → get_connection d.connection (storage w) ≡ some old
        → Covers flags old d
        → ((left update).0 ≡ ok true) × (storage (left update).1 ≡ write d (storage w))
    deserialize-update old k g c =
        let asked_w = asked J T d update flags cb w in
        let same = asked-known update w refl k in
        let r =
          act-update old asked_w
            (b.find d.connection asked_w ∙ ap (get_connection d.connection) same.1 ∙ g) c in
        rw (deserialize-Gives J T d update flags cb w wide u h same.0)
          (r.0, r.1 ∙ ap (write d) same.1)
