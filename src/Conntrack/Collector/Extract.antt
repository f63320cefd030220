-- ===== src/Conntrack/Collector/Extract.antt =====
-- The ends of a tracked connection, looked up through the server's update serializer.
-- Source/Collector_Netfilter/Conntrack.cpp, Source/Server.hpp.
use conntop.Prelude.{
  ℕ, ◌<◌, ◌^◌, ◌⊎◌, ◌≡◌, refl, sym, subst, ◌∙◌, Bool, true, false, List, [], ◌∷◌, ◌++◌, Option,
  none, some, inl, inr, arith,
}
use conntop.Json.{JsonLib}
use conntop.Connection.{
  Address, ip4, ip6, PortType, udp, tcp, Connection, ConnectionData, no_traffic, create_type,
}
use conntop.Connection.Serialize.{AddressText}
use conntop.Storage.{write, get_ip4_address, get_ip6_address, get_port}
use conntop.Server.Updates.{Serializer, callback, get_address, port, add}
use conntop.Server.Updates.Keeps.{callback-Backed}
use conntop.Server.Updates.Changes.{
  Change, opened, changed, closed, met, met_port, IsFit, AllFit, perform, Allowed, Runs, here, next,
  fit_opened, fit_changed, fit_closed, get_address-Untouched, port-Untouched,
}
use conntop.Conntrack.{
  NfConntrack, L3Proto, addresses_in, port_type_in, af_inet, af_inet6, other_family,
}
use conntop.Conntrack.Collector.{
  ConntrackEvent, extract_address_port, with_ports, with_addresses, extract_at,
}
use conntop.Conntrack.Measure.{IsCounted, unknown-IsState}

-- The kernel's ports are 16 bits wide, and its counters 64.
pub record IsPlausible (ct : NfConntrack) : Type 0 where
  pub port_src : ct.port_src < 2 ^ 16
  pub port_dst : ct.port_dst < 2 ^ 16
  pub counted : IsCounted ct

abbrev pub first_data : Connection → ConnectionData
first_data c = record { connection = c; traffic = no_traffic; state = 0 }

-- The connections of the events that wait can be carried by items.
abbrev pub EachEventFits : List ConntrackEvent → Type 0
EachEventFits [] = Unit
EachEventFits (e ∷ es) = IsFit (first_data e.connection) × EachEventFits es

abbrev pub EachPlausible : List NfConntrack → Type 0
EachPlausible [] = Unit
EachPlausible (ct ∷ cts) = IsPlausible ct × EachPlausible cts

abbrev pub Fits : Option Connection → Type 0
Fits none = Unit
Fits (some c) = IsFit (first_data c)

pub events-append :
    (es : List ConntrackEvent) (e : ConntrackEvent)
    → EachEventFits es
    → IsFit (first_data e.connection)
    → EachEventFits (es ++ (e ∷ []))
events-append [] e h f = (f, tt)
events-append (x ∷ es) e (g, h) f = (g, events-append es e h f)

-- Both ends, if any, are of one family.
abbrev SameFamily : Option (Address × Address) → Type 0
SameFamily none = Unit
SameFamily (some (a, b)) = (u : PortType) → create_type b u ≡ create_type a u

ip4_type : (a b : ℕ) (u : PortType) → create_type (ip4 b) u ≡ create_type (ip4 a) u
unfolding create_type
ip4_type a b udp = refl
ip4_type a b tcp = refl

ip6_type :
    (a b c d e f g h : ℕ) (u : PortType) → create_type (ip6 e f g h) u ≡ create_type (ip6 a b c d) u
unfolding create_type
ip6_type a b c d e f g h udp = refl
ip6_type a b c d e f g h tcp = refl

addresses_in-SameFamily :
    (ct : NfConntrack) (family : L3Proto) → ct.l3_proto ≡ family → SameFamily (addresses_in ct)
unfolding addresses_in
addresses_in-SameFamily ct af_inet q = rw q (ip4_type _ _)
addresses_in-SameFamily ct af_inet6 q = rw q (ip6_type _ _ _ _ _ _ _ _)
addresses_in-SameFamily ct other_family q = rw q tt

module _ (J : JsonLib) (T : AddressText) where
  abbrev pub S : Type 0
  S = Serializer J T

  pub Runs-append : (x y z : S) → Runs J T x y → Runs J T y z → Runs J T x z
  Runs-append x y z r here = r
  Runs-append x y z r (next {y = v} s c a) = next (Runs-append x y v r s) c a

  perform-AllFit :
      (c : Change) (z : S) → AllFit z.storage → Allowed J T c z → AllFit (perform J T c z).storage
  unfolding perform callback
  perform-AllFit (opened d) z f a =
      rw ((callback-Backed J T).add d.connection d.traffic d.state z) (fit_opened d z.storage a f)
  perform-AllFit (changed d flags) z f (a, _, _) =
      rw ((callback-Backed J T).update d flags (record z { storage = write d z.storage }))
        (fit_changed d z.storage a f)
  perform-AllFit (closed c) z f _ = rw ((callback-Backed J T).remove c z) (fit_closed c z.storage f)
  perform-AllFit (met a) z f _ =
      λ c d q. f c d (sym ((get_address-Untouched J T a z).connections c) ∙ q)
  perform-AllFit (met_port p) z f _ =
      λ c d q. f c d (sym ((port-Untouched J T p z).connections c) ∙ q)

  pub Runs-AllFit : (z z' : S) → Runs J T z z' → AllFit z.storage → AllFit z'.storage
  Runs-AllFit z z' here f = f
  Runs-AllFit z z' (next {y} r c a) f = perform-AllFit c y (Runs-AllFit z y r f) a

  abbrev pub between : NfConntrack → Address → Address → PortType → Connection
  between ct a b t = record {
    src_addr = a;
    src_port = record { port_type = t; number = ct.port_src };
    dst_addr = b;
    dst_port = record { port_type = t; number = ct.port_dst };
  }

  between-IsFit :
      (ct : NfConntrack) (a b : Address) (t : PortType)
      → IsPlausible ct
      → ((u : PortType) → create_type b u ≡ create_type a u)
      → IsFit (first_data (between ct a b t))
  unfolding no_traffic
  between-IsFit ct a b t p u = record {
    wide = record {
      src_port = p.port_src;
      dst_port = p.port_dst;
      state = unknown-IsState _;
      rx_packets = omega arith;
      tx_packets = omega arith;
      rx_bytes = omega arith;
      tx_bytes = omega arith;
      rx_speed = omega arith;
      tx_speed = omega arith;
    };
    uniform = u t;
  }

  extract-adding :
      (ct : NfConntrack) (a b : Address) (t : PortType) (z : S)
      → extract_at (callback J T) ct (some (a, b)) (some t) true z ≡ (
        some (between ct a b t),
        perform J T (met_port (record { port_type = t; number = ct.port_dst })) (
            perform J T
              (met_port (record { port_type = t; number = ct.port_src }))
              (perform J T (met b) (perform J T (met a) z))),
      )
  unfolding extract_at with_addresses with_ports callback get_address port perform
  extract-adding ct (ip4 a) (ip4 b) t z = refl
  extract-adding ct (ip4 a) (ip6 b c d e) t z = refl
  extract-adding ct (ip6 a b c d) (ip4 e) t z = refl
  extract-adding ct (ip6 a b c d) (ip6 e f g h) t z = refl

  extract-looking :
      (ct : NfConntrack) (a b : Address) (t : PortType) (z : S)
      → let r = extract_at (callback J T) ct (some (a, b)) (some t) false z in
        (r.1 ≡ z) × ((r.0 ≡ none) ⊎ (r.0 ≡ some (between ct a b t)))
  unfolding extract_at with_addresses with_ports callback get_address port get_ip4_address
      get_ip6_address get_port
  extract-looking ct (ip4 a) (ip4 b) t z = ground arith
  extract-looking ct (ip4 a) (ip6 b c d e) t z = ground arith
  extract-looking ct (ip6 a b c d) (ip4 e) t z = ground arith
  extract-looking ct (ip6 a b c d) (ip6 e f g h) t z = ground arith

  -- A connection that was extracted, and the changes that looking its ends up made.
  pub record Extracted (add : Bool) (z : S) (r : Option Connection × S) : Type 0 where
    pub runs : Runs J T z r.1
    pub looking : add ≡ false → r.1 ≡ z
    pub fits : Fits r.0

  nothing-Extracted : (add : Bool) (z : S) → Extracted add z (none, z)
  nothing-Extracted add z = record { runs = here; looking = λ h. refl; fits = tt }

  looked_up :
      (c : Connection) (z : S) (r : Option Connection × S)
      → r.1 ≡ z
      → (r.0 ≡ none) ⊎ (r.0 ≡ some c)
      → IsFit (first_data c)
      → Extracted false z r
  looked_up c z (none, y) e h f = record {
    runs = subst (Runs J T z) (sym e) here;
    looking = λ _. e;
    fits = tt;
  }
  looked_up c z (some x, y) e h f = record {
    runs = subst (Runs J T z) (sym e) here;
    looking = λ _. e;
    fits = elim h [ inl q ↦ ground arith | inr q ↦ subst Fits (sym q) f ];
  }

  Extracted-at :
      (ct : NfConntrack) (ends : Option (Address × Address)) (type : Option PortType) (add : Bool)
      (z : S)
      → IsPlausible ct
      → SameFamily ends
      → Extracted add z (extract_at (callback J T) ct ends type add z)
  unfolding extract_at
  Extracted-at ct none type add z p f = nothing-Extracted add z
  Extracted-at ct (some (a, b)) none add z p f = nothing-Extracted add z
  Extracted-at ct (some (a, b)) (some t) true z p f = rw (extract-adding ct a b t z) (record {
    runs = next (next (next (next here (met a) tt) (met b) tt) (met_port _) tt) (met_port _) tt;
    looking = λ h. ground (arith, h);
    fits = between-IsFit ct a b t p f;
  })
  Extracted-at ct (some (a, b)) (some t) false z p f =
      let (same, found) = extract-looking ct a b t z in
      looked_up (between ct a b t) z _ same found (between-IsFit ct a b t p f)

  pub extract_address_port-Extracted :
      (ct : NfConntrack) (add : Bool) (z : S)
      → IsPlausible ct
      → Extracted add z (extract_address_port (callback J T) ct add z)
  unfolding extract_address_port
  extract_address_port-Extracted ct add z p =
      Extracted-at ct (addresses_in ct) (port_type_in ct) add z p
        (addresses_in-SameFamily ct ct.l3_proto refl)
