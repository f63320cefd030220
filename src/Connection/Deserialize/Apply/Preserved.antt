-- ===== src/Connection/Deserialize/Apply/Preserved.antt =====
-- What `ConnectionData::Deserialize` preserves is what every call that it makes of its callback does.
-- Source/Connection.cpp.
use conntop.Prelude.{
  ℕ, ◌≡◌, refl, sym, Bool, true, false, not, Option, none, some, ◌==◌, if◌then◌else◌, subst, arith,
}
use conntop.Json.{JsonLib, Result, ok, err}
use conntop.Connection.{
  Address, Port, Connection, ConnectionTraffic, ConnectionData, ConnectionAction, create, update,
  remove,
}
use conntop.Connection.Serialize.{AddressText}
use conntop.Connection.Deserialize.{Item, read_item}
use conntop.Connection.Deserialize.Apply.{
  UpdateCallback, seen_flags, updated, apply_update, act, with_ports, with_addresses,
  second_address, first_address, apply_item, applied, deserialize,
}

-- Every call preserves a property, where the data that are written through what `find` gives belong
-- to the same connection, and either the callback is told or nothing is changed.
pub record Preserves {W : Type 0} (cb : UpdateCallback W) (P : W → Type 0) : Type 0 where
  pub address : (a : Address) (add : Bool) (w : W) → P w → P (cb.get_address a add w).1
  pub port : (p : Port) (add : Bool) (w : W) → P w → P (cb.get_port p add w).1
  pub add : (c : Connection) (t : ConnectionTraffic) (n : ℕ) (w : W) → P w → P (cb.add c t n w)
  pub remove : (c : Connection) (w : W) → P w → P (cb.remove c w)
  pub change_found :
      (c : Connection) (d d' : ConnectionData) (flags : ℕ) (w : W)
      → cb.find c w ≡ some d
      → d'.connection ≡ d.connection
      → P w
      → P (cb.update d' flags (cb.write d' w))
  pub rewrite_found :
      (c : Connection) (d : ConnectionData) (w : W) → cb.find c w ≡ some d → P w → P (cb.write d w)

-- Without a flag that stands for a field, no field is set.
updated-nothing :
    (flags state : ℕ) (t : ConnectionTraffic) (d : ConnectionData)
    → (seen_flags flags == 0) ≡ true
    → updated flags state t d ≡ d
unfolding updated seen_flags
updated-nothing flags state t d h = ground (arith, h)

P-if :
    {W : Type 0} (P : W → Type 0) (b : Bool) (v w : W)
    → (b ≡ false → P v)
    → (b ≡ true → P w)
    → P (if not b then v else w)
P-if P true v w p q = q refl
P-if P false v w p q = p refl

module _ (T : AddressText) {W : Type 0} (cb : UpdateCallback W) (P : W → Type 0)
    (h : Preserves cb P) where
  apply_update-Preserves :
      (i : Item) (c : Connection) (o : Option ConnectionData) (w : W)
      → cb.find c w ≡ o
      → P w
      → P (apply_update T cb i o w).1
  unfolding apply_update updated
  apply_update-Preserves i c none w p q = q
  apply_update-Preserves i c (some d) w p q =
      let d' = updated i.update_flags i.state i.traffic d in
      let flags = seen_flags i.update_flags in
      P-if P (flags == 0) (cb.update d' flags (cb.write d' w)) (cb.write d' w)
        (λ _. h.change_found c d d' flags w p refl q)
        (λ r.
          subst (λ e. P (cb.write e w)) (sym (updated-nothing i.update_flags i.state i.traffic d r))
            (h.rewrite_found c d w p q))

  act-Preserves :
      (a : ConnectionAction) (i : Item) (c : Connection) (w : W) → P w → P (act T cb a i c w).1
  unfolding act
  act-Preserves create i c w q = h.add c i.traffic i.state w q
  act-Preserves update i c w q = apply_update-Preserves i c (cb.find c w) w refl q
  act-Preserves remove i c w q = h.remove c w q

  with_ports-Preserves :
      (i : Item) (src dst : Address) (p q : Option Port) (w : W)
      → P w
      → P (with_ports T cb i src dst p q w).1
  unfolding with_ports
  with_ports-Preserves i src dst (some p) (some q) w r = act-Preserves i.action i _ w r
  with_ports-Preserves i src dst (some p) none w r = r
  with_ports-Preserves i src dst none q w r = r

  with_addresses-Preserves :
      (i : Item) (src dst : Option Address) (w : W) → P w → P (with_addresses T cb i src dst w).1
  unfolding with_addresses
  with_addresses-Preserves i (some src) (some dst) w r =
      with_ports-Preserves i src dst _ _ _ (h.port _ _ _ (h.port _ _ _ r))
  with_addresses-Preserves i (some src) none w r = r
  with_addresses-Preserves i none dst w r = r

  second_address-Preserves :
      (i : Item) (src : Option Address) (b : Result Address) (w : W)
      → P w
      → P (second_address T cb i src b w).1
  unfolding second_address
  second_address-Preserves i src (err e) w r = r
  second_address-Preserves i src (ok b) w r = with_addresses-Preserves i src _ _ (h.address _ _ _ r)

  first_address-Preserves :
      (i : Item) (a : Result Address) (w : W) → P w → P (first_address T cb i a w).1
  unfolding first_address
  first_address-Preserves i (err e) w r = r
  first_address-Preserves i (ok a) w r = second_address-Preserves i _ _ _ (h.address _ _ _ r)

  applied-Preserves : (i : Result Item) (w : W) → P w → P (applied T cb i w).1
  unfolding applied apply_item
  applied-Preserves (err e) w r = r
  applied-Preserves (ok i) w r = first_address-Preserves i _ w r

  pub deserialize-Preserves :
      (L : JsonLib) (document : L.Value) (w : W) → P w → P (deserialize T cb L document w).1
  unfolding deserialize
  deserialize-Preserves L document w r = applied-Preserves (read_item L document) w r
