-- ===== src/Connection/Deserialize/Apply/Refused.antt =====
-- Items that `ConnectionData::Deserialize` refuses. Source/Connection.cpp.
use conntop.Prelude.{
  ◌⊎◌, inl, inr, ◌≡◌, ◌≢◌, refl, ap, ◌∙◌, Bool, true, false, Option, none, some, arith,
}
use conntop.Json.{JsonLib, Result, ok, err}
use conntop.Connection.{
  Address, ip4, ip6, Port, ConnectionAction, create, update, remove, Connection,
}
use conntop.Connection.Serialize.{AddressText}
use conntop.Connection.Deserialize.{Item, read_item}
use conntop.Connection.Deserialize.Apply.{
  UpdateCallback, apply_update, act, with_ports, with_addresses, second_address, first_address,
  apply_item, applied, deserialize,
}
use conntop.Storage.{Storage}
use conntop.Storage.Backed.{Backed, address_step, port_step, knows-address_step, has_port-port_step}

address_step-connection_map :
    (a : Address) (add : Bool) (s : Storage)
    → (address_step a add s).1.connection_map ≡ s.connection_map
address_step-connection_map a true s = (knows-address_step a a s).3
address_step-connection_map (ip4 a) false s = refl
address_step-connection_map (ip6 a b c d) false s = refl

port_step-connection_map :
    (p : Port) (add : Bool) (s : Storage) → (port_step p add s).1.connection_map ≡ s.connection_map
port_step-connection_map p true s = (has_port-port_step p p s).4
port_step-connection_map p false s = refl

module _ (T : AddressText) {W : Type 0} (cb : UpdateCallback W) (storage : W → Storage)
    (b : Backed cb storage) where
  -- An item was taken, or the connections are what they were.
  abbrev Spares : W → Result Bool × W → Type 0
  Spares w r = (r.0 ≡ ok true) ⊎ ((storage r.1).connection_map ≡ (storage w).connection_map)

  get_address-connection_map :
      (a : Address) (add : Bool) (w : W)
      → (storage (cb.get_address a add w).1).connection_map ≡ (storage w).connection_map
  get_address-connection_map a add w =
      ap (λ s. s.connection_map) (b.address a add w).1
      ∙ address_step-connection_map a add (storage w)

  get_port-connection_map :
      (p : Port) (add : Bool) (w : W)
      → (storage (cb.get_port p add w).1).connection_map ≡ (storage w).connection_map
  get_port-connection_map p add w =
      ap (λ s. s.connection_map) (b.port p add w).1 ∙ port_step-connection_map p add (storage w)

  -- A step that keeps the connections may go first.
  Spares-after :
      (w w' : W) (r : Result Bool × W)
      → (storage w').connection_map ≡ (storage w).connection_map
      → Spares w' r
      → Spares w r
  Spares-after w w' r e (inl q) = inl q
  Spares-after w w' r e (inr q) = inr (q ∙ e)

  act-Spares :
      (action : ConnectionAction) (i : Item) (c : Connection) (w : W)
      → Spares w (act T cb action i c w)
  unfolding act apply_update
  act-Spares create i c w = inl refl
  act-Spares update i c w = ground arith
  act-Spares remove i c w = inl refl

  with_ports-Spares :
      (i : Item) (a d : Address) (p q : Option Port) (w : W)
      → Spares w (with_ports T cb i a d p q w)
  unfolding with_ports
  with_ports-Spares i a d (some p) (some q) w = act-Spares i.action i _ w
  with_ports-Spares i a d none q w = inr refl
  with_ports-Spares i a d (some p) none w = inr refl

  with_addresses-Spares :
      (i : Item) (a d : Option Address) (w : W) → Spares w (with_addresses T cb i a d w)
  unfolding with_addresses
  with_addresses-Spares i (some a) (some d) w =
      Spares-after w _ _ (get_port-connection_map _ _ w)
        (Spares-after _ _ _ (get_port-connection_map _ _ _) (with_ports-Spares i a d _ _ _))
  with_addresses-Spares i none d w = inr refl
  with_addresses-Spares i (some a) none w = inr refl

  second_address-Spares :
      (i : Item) (a : Option Address) (d : Result Address) (w : W)
      → Spares w (second_address T cb i a d w)
  unfolding second_address
  second_address-Spares i a (err text) w = inr refl
  second_address-Spares i a (ok d) w =
      Spares-after w _ _ (get_address-connection_map d _ w) (with_addresses-Spares i a _ _)

  first_address-Spares :
      (i : Item) (a : Result Address) (w : W) → Spares w (first_address T cb i a w)
  unfolding first_address
  first_address-Spares i (err text) w = inr refl
  first_address-Spares i (ok a) w =
      Spares-after w _ _ (get_address-connection_map a _ w) (second_address-Spares i _ _ _)

  applied-Spares : (i : Result Item) (w : W) → Spares w (applied T cb i w)
  unfolding applied apply_item
  applied-Spares (err text) w = inr refl
  applied-Spares (ok i) w = first_address-Spares i _ w

  -- An item that Deserialize does not take, whether it throws or gives false, leaves the
  -- connections as they were, over any callback that keeps them in a storage.
  pub deserialize-refused :
      (J : JsonLib) (document : J.Value) (w : W)
      → (deserialize T cb J document w).0 ≢ ok true
      → (storage (deserialize T cb J document w).1).connection_map ≡ (storage w).connection_map
  unfolding deserialize
  deserialize-refused J document w h = elim (applied-Spares (read_item J document) w) [
    | inl q ↦ absurd (h q)
    | inr q ↦ q
  ]
