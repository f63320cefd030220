-- ===== src/Server/Updates/Steps.antt =====
-- One change of the server's connections, and a client that deserializes its items.
-- Source/Server.hpp, Source/Client.cpp, Source/Connection.cpp.
use mathlib.Core.List.{append-nil}
use conntop.Prelude.{
  ℕ, ◌≡◌, refl, ap, ◌∙◌, sym, true, List, [], ◌∷◌, ◌++◌, some, Option-cases, inl, inr, arith, subst,
}
use conntop.Json.{JsonLib, ok}
use conntop.Connection.{create, update, remove, Connection, ConnectionData}
use conntop.Connection.Serialize.{AddressText, serialize}
use conntop.Connection.Deserialize.Apply.{UpdateCallback, deserialize}
use conntop.Connection.Deserialize.Apply.Stored.{
  deserialize-create, deserialize-update, deserialize-remove,
}
use conntop.Client.{receive_items}
use conntop.Client.Items.{receive-cons}
use conntop.Storage.{Storage, get_connection, add_connection, remove_connection, write}
use conntop.Storage.Backed.{Backed, Ends, Closed, enter}
use conntop.Storage.Enter.{add_connection-old, get-add_connection, get-remove_connection, get-write}
use conntop.Storage.Closed.{
  get-enter, Closed-add_connection, Closed-remove_connection, Closed-write,
}
use conntop.Storage.Enter.{get-connection}
use conntop.Server.Updates.{Serializer, all_flags, add_with, change, drop}
use conntop.Server.Updates.Changes.{
  Change, opened, changed, closed, IsFit, AllFit, SameConnections, perform, fit_opened, fit_changed,
  fit_closed, add_with-new, add_with-old, change_lem, drop-found, drop-missing, Allowed, met,
  met_port, Untouched, get_address-Untouched, port-Untouched,
}

module _ (J : JsonLib) (T : AddressText) where
  module _ {W : Type 0} (cb : UpdateCallback W) (storage : W → Storage)
      (b : Backed cb storage) where
    pub record Follows (s : Storage) (w : W) : Type 0 where
      pub same : SameConnections s (storage w)
      pub closed : Closed (storage w)

    -- The items that one change adds, and what they come to.
    pub record Step (z z' : Serializer J T) (w : W) : Type 0 where
      pub items : List (J.Value)
      pub appended : z'.items ≡ z.items ++ items
      pub enabled : z'.is_serialization_enabled ≡ true
      pub fit : AllFit z'.storage
      pub received : (receive_items J T cb items w).0 ≡ ok tt
      pub follows : Follows z'.storage (receive_items J T cb items w).1

    step_with :
        (z z' : Serializer J T) (w : W) (v : J.Value)
        → z'.items ≡ z.items ++ (v ∷ [])
        → z'.is_serialization_enabled ≡ true
        → AllFit z'.storage
        → (deserialize T cb J v w).0 ≡ ok true
        → Follows z'.storage (deserialize T cb J v w).1
        → Step z z' w
    unfolding receive_items
    step_with z z' w v i e f p h = record {
      items = v ∷ [];
      appended = i;
      enabled = e;
      fit = f;
      received = rw (receive-cons J T cb v [] w p, receive_items) refl;
      follows = rw (receive-cons J T cb v [] w p, receive_items) h;
    }

    step_without :
        (z z' : Serializer J T) (w : W)
        → z'.items ≡ z.items
        → z'.is_serialization_enabled ≡ true
        → AllFit z'.storage
        → Follows z'.storage w
        → Step z z' w
    unfolding receive_items
    step_without z z' w i e f h = record {
      items = [];
      appended = i ∙ sym (append-nil z.items);
      enabled = e;
      fit = f;
      received = refl;
      follows = h;
    }

    Follows-old :
        (d old : ConnectionData) (s : Storage) (w : W)
        → Follows s w
        → get_connection d.connection s ≡ some old
        → Follows (add_connection d s).2 w
    Follows-old d old s w h q =
        rw (add_connection-old d old s q) (record { same = h.same; closed = h.closed })

    Follows-opened :
        (d : ConnectionData) (s : Storage) (w w' : W)
        → Follows s w
        → storage w' ≡ (add_connection d (enter d.connection (storage w))).2
        → Follows (add_connection d s).2 w'
    Follows-opened d s w w' h e = record {
      same = λ k. ground (
        arith,
        get-add_connection d k s,
        get-add_connection d k (enter d.connection (storage w)),
        get-enter k d.connection (storage w),
        h.same k,
      );
      closed = rw e (Closed-add_connection d (storage w) h.closed);
    }

    Follows-changed :
        (d : ConnectionData) (s : Storage) (w w' : W)
        → Follows s w
        → storage w' ≡ write d (storage w)
        → Follows (write d s) w'
    Follows-changed d s w w' h e = record {
      same = λ k. ground (arith, get-write d k s, get-write d k (storage w), h.same k);
      closed = rw e (Closed-write d (storage w) h.closed);
    }

    Follows-closed :
        (c : Connection) (s : Storage) (w w' : W)
        → Follows s w
        → storage w' ≡ (remove_connection c (storage w)).1
        → Follows (remove_connection c s).1 w'
    Follows-closed c s w w' h e = record {
      same = λ k.
          ground
            (arith, get-remove_connection c k s, get-remove_connection c k (storage w), h.same k);
      closed = rw e (Closed-remove_connection c (storage w) h.closed);
    }

    step_opened :
        (d : ConnectionData) (z : Serializer J T) (w : W)
        → z.is_serialization_enabled ≡ true
        → AllFit z.storage
        → Follows z.storage w
        → IsFit d
        → Step z (add_with J T d.connection d.traffic d.state z) w
    step_opened d z w e f h a = elim (Option-cases (get_connection d.connection z.storage)) [
      | inr (old, q) ↦ rw (add_with-old J T d old z q) (
          step_without z _ w refl e (fit_opened d z.storage a f)
            (Follows-old d old z.storage w h q))
      | inl q ↦
          let r =
            deserialize-create J T cb storage b d all_flags w a.wide a.uniform (omega arith) in
          rw (add_with-new J T d z e q) (
            step_with z _ w (serialize J T d create all_flags) refl refl
              (fit_opened d z.storage a f) r.0 (Follows-opened d z.storage w _ h r.1))
    ]

    step_changed :
        (d : ConnectionData) (flags : ℕ) (z : Serializer J T) (w : W)
        → z.is_serialization_enabled ≡ true
        → AllFit z.storage
        → Follows z.storage w
        → Allowed J T (changed d flags) z
        → Step z (change J T d flags (record z { storage = write d z.storage })) w
    step_changed d flags z w e f h (a, l, (old, q, c)) =
        let there = sym (h.same d.connection) ∙ q in
        let r =
          deserialize-update J T cb storage b d flags w a.wide a.uniform l old
            (h.closed d.connection old there) there c in
        rw (change_lem J T d flags z e) (
          step_with z _ w (serialize J T d update flags) refl refl (fit_changed d z.storage a f) r.0
            (Follows-changed d z.storage w _ h r.1))

    step_closed :
        (c : Connection) (z : Serializer J T) (w : W)
        → z.is_serialization_enabled ≡ true
        → AllFit z.storage
        → Follows z.storage w
        → Step z (drop J T c z) w
    step_closed c z w e f h = elim (Option-cases (get_connection c z.storage)) [
      | inl q ↦ rw (drop-missing J T c z q) (step_without z z w refl e f h)
      | inr (d, q) ↦
          let same = get-connection c z.storage d q in
          let fit = f c d q in
          let there = h.closed c d (sym (h.same c) ∙ q) in
          let r =
            deserialize-remove J T cb storage b d all_flags w fit.wide fit.uniform (omega arith)
              (subst (λ k. Ends k (storage w)) (sym same) there) in
          rw (drop-found J T c d z e q) (
            step_with z _ w (serialize J T d remove all_flags) refl refl (fit_closed c z.storage f)
              r.0
              (Follows-closed c z.storage w _ h
                (r.1 ∙ ap (λ k. (remove_connection k (storage w)).1) same)))
    ]

    step_untouched :
        (z z' : Serializer J T) (w : W)
        → z.is_serialization_enabled ≡ true
        → AllFit z.storage
        → Follows z.storage w
        → Untouched J T z z'
        → Step z z' w
    step_untouched z z' w e f h u =
        step_without z z' w u.items (u.enabled ∙ e) (λ c d q. f c d (sym (u.connections c) ∙ q))
          (record { same = λ c. u.connections c ∙ h.same c; closed = h.closed })

    pub step :
        (c : Change) (z : Serializer J T) (w : W)
        → z.is_serialization_enabled ≡ true
        → AllFit z.storage
        → Follows z.storage w
        → Allowed J T c z
        → Step z (perform J T c z) w
    unfolding perform
    step (opened d) z w e f h a = step_opened d z w e f h a
    step (changed d flags) z w e f h a = step_changed d flags z w e f h a
    step (closed c) z w e f h a = step_closed c z w e f h
    step (met a) z w e f h _ = step_untouched z _ w e f h (get_address-Untouched J T a z)
    step (met_port p) z w e f h _ = step_untouched z _ w e f h (port-Untouched J T p z)
