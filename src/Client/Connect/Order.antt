-- ===== src/Client/Connect/Order.antt =====
-- The order in which `ClientConnector::tryNext` tries addresses and ports. Source/Client.cpp.
use conntop.Prelude.{
  ℕ, ◌+◌, ◌*◌, ◌≡◌, ◌<◌, ◌≤◌, ◌≢◌, refl, ap, true, false, List, [], ◌∷◌, ◌++◌, Option, none, some,
  zero, suc, get_elem?, drop, drop-get_elem?, drop-all, length-append, length-drop, ◌⊎◌, inl, inr,
  length, ltb, leb, arith,
}
use native.Mathlib.Nat.{mul-le-mul_left}
use conntop.Connection.{Address}
use conntop.Client.Connect.{
  Connector, Attempted, connected_to, no_more, default_port, advance, choose, rounds, enough,
  try_from, try_next,
}

abbrev at_port : ℕ → List Address → List (Address × ℕ)
at_port p [] = []
at_port p (a ∷ bs) = (a, p) ∷ at_port p bs

abbrev at_ports : List Address → List ℕ → List (Address × ℕ)
at_ports bs [] = []
at_ports bs (p ∷ ps) = at_port p bs ++ at_ports bs ps

abbrev from : List Address → ℕ → List ℕ → List (Address × ℕ)
from bs i [] = []
from bs i (p ∷ ps) = at_port p (drop i bs) ++ at_ports bs ps

-- The combinations that have not been tried: every address with a port, before the next port; with
-- the default port, if no port was asked for.
abbrev pub ahead : Connector → List (Address × ℕ)
ahead c = elim c.resolved_ports [
  | [] ↦ at_port default_port (drop c.address_index c.resolved_addresses)
  | p ∷ ps ↦ from c.resolved_addresses c.address_index (drop c.port_index (p ∷ ps))
]

-- The first combination that is answered, and those behind it.
abbrev pub first_answered :
    (Address → ℕ → Option ℕ) → List (Address × ℕ) → Attempted × List (Address × ℕ)
first_answered attempt [] = (no_more, [])
first_answered attempt ((a, p) ∷ xs) =
    let rest = first_answered attempt xs in
    elim (attempt a p) [ some fd ↦ (connected_to fd, xs) | none ↦ rest ]

abbrev Advances : Connector → Option (Address × ℕ) → Connector → Type 0
Advances c none c' = (ahead c ≡ []) × (ahead c' ≡ [])
Advances c (some x) c' = ahead c ≡ x ∷ ahead c'

-- An index is at an element or behind them all.
at_or_beyond :
    {A : Type 0} (n : ℕ) (xs : List A)
    → ((leb (length xs) n ≡ true) × (get_elem? xs n ≡ none) × (drop n xs ≡ []))
      ⊎ ((leb (length xs) n ≡ false)
          × ((x : A) × (get_elem? xs n ≡ some x) × (drop n xs ≡ x ∷ drop (suc n) xs)))
at_or_beyond n [] = inl (ground arith, refl, drop-all n [] (omega arith))
at_or_beyond zero (x ∷ xs) = inr (ground arith, (x, refl, refl))
at_or_beyond (suc n) (x ∷ xs) = elim (at_or_beyond n xs) [
  | inl (b, g, d) ↦ inl (ground arith, g, d)
  | inr (b, g) ↦ inr (ground arith, g)
]

advance-no_ports :
    (a : Address) (bs : List Address) (i j q : ℕ) (cur : Option Address)
    → let c : Connector = record {
      resolved_addresses = a ∷ bs;
      resolved_ports = [];
      address_index = i;
      port_index = j;
      current_address = cur;
      current_port = q;
    } in
      Advances c (advance c).0 (advance c).1
unfolding advance choose
advance-no_ports a bs i j q cur = elim (at_or_beyond i (a ∷ bs)) [
  | inl (b, g, d) ↦
      let behind : ltb i (length (a ∷ bs)) ≡ false = ground arith in
      rw (g, behind, choose) (ground arith)
  | inr (b, (x, g, d)) ↦
      let before : ltb i (length (a ∷ bs)) ≡ true = ground arith in
      rw (g, before, choose) (ground arith)
]

advance-ports :
    (a : Address) (bs : List Address) (p : ℕ) (ps : List ℕ) (i j q : ℕ) (cur : Option Address)
    → let c : Connector = record {
      resolved_addresses = a ∷ bs;
      resolved_ports = p ∷ ps;
      address_index = i;
      port_index = j;
      current_address = cur;
      current_port = q;
    } in
      Advances c (advance c).0 (advance c).1
unfolding advance choose
advance-ports a bs p ps i j q cur = elim (at_or_beyond i (a ∷ bs)) [
  | inl (b, g, d) ↦ elim (at_or_beyond (j + 1) (p ∷ ps)) [
    | inl (b', g', d') ↦ rw (b, g', choose) (ground (arith, drop-get_elem? j (p ∷ ps)))
    | inr (b', (x', g', d')) ↦
        rw (b, g', choose) (ground (arith, drop-get_elem? j (p ∷ ps), at_or_beyond j (p ∷ ps)))
  ]
  | inr (b, (x, g, d)) ↦ elim (at_or_beyond j (p ∷ ps)) [
    | inl (b', g', d') ↦ rw (b, g, g', choose) (ground arith)
    | inr (b', (x', g', d')) ↦ rw (b, g, g', choose) (ground arith)
  ]
]

length-at_port : (p : ℕ) (xs : List Address) → length (at_port p xs) ≡ length xs
length-at_port p [] = refl
length-at_port p (x ∷ xs) = ap suc (length-at_port p xs)

length-at_ports :
    (xs : List Address) (ps : List ℕ) → length (at_ports xs ps) ≡ length xs * length ps
length-at_ports xs [] = omega arith
length-at_ports xs (p ∷ ps) = omega (
  arith,
  length-append (at_port p xs) (at_ports xs ps),
  length-at_port p xs,
  length-at_ports xs ps,
)

length-from :
    (xs : List Address) (i : ℕ) (ps : List ℕ) → length (from xs i ps) ≤ length xs * length ps
length-from xs i [] = omega arith
length-from xs i (p ∷ ps) = omega (
  arith,
  length-append (at_port p (drop i xs)) (at_ports xs ps),
  length-at_port p (drop i xs),
  length-drop i xs,
  length-at_ports xs ps,
)

advance_at :
    (xs : List Address) (ps : List ℕ) (i j q : ℕ) (cur : Option Address)
    → xs ≢ []
    → let c : Connector = record {
      resolved_addresses = xs;
      resolved_ports = ps;
      address_index = i;
      port_index = j;
      current_address = cur;
      current_port = q;
    } in
      Advances c (advance c).0 (advance c).1
advance_at [] ps i j q cur h = absurd (h refl)
advance_at (a ∷ bs) [] i j q cur h = advance-no_ports a bs i j q cur
advance_at (a ∷ bs) (p ∷ ps) i j q cur h = advance-ports a bs p ps i j q cur

advance_lem : (c : Connector) → c.resolved_addresses ≢ [] → Advances c (advance c).0 (advance c).1
advance_lem c h =
    advance_at c.resolved_addresses c.resolved_ports c.address_index c.port_index c.current_port
      c.current_address h

advance-resolved_addresses :
    (c : Connector) → (advance c).1.resolved_addresses ≡ c.resolved_addresses
unfolding advance choose
advance-resolved_addresses c = ground arith

rounds_lem :
    (n : ℕ) (attempt : Address → ℕ → Option ℕ) (c : Connector)
    → c.resolved_addresses ≢ []
    → length (ahead c) < n
    → let (result, c') = rounds n attempt c in (result, ahead c') ≡ first_answered attempt (ahead c)
unfolding rounds
rounds_lem zero attempt c h l = absurd (omega arith)
rounds_lem (suc n) attempt c h l =
    one (rounds_lem n attempt) (advance c).0 (advance c).1 (advance_lem c h)
      (rw (advance-resolved_addresses c) h)
  where
    Answers : Connector → Attempted × Connector → Type 0
    Answers c (result, c') = (result, ahead c') ≡ first_answered attempt (ahead c)

    one :
        ((c' : Connector)
          → c'.resolved_addresses ≢ []
          → length (ahead c') < n
          → Answers c' (rounds n attempt c'))
        → (next : Option (Address × ℕ)) (c' : Connector) → Advances c next c'
        → c'.resolved_addresses ≢ []
        → let (result, c'') : Attempted × Connector = elim next [
          | none ↦ (no_more, c')
          | some (a, p) ↦ elim (attempt a p) [
            | some fd ↦ (connected_to fd, c')
            | none ↦ rounds n attempt c'
          ]
        ] in
          (result, ahead c'') ≡ first_answered attempt (ahead c)
    one rec none c' (e, e') k = rw (e, e') refl
    one rec (some (a, p)) c' e k = rw e (tried (attempt a p))
      where
        shorter : length (ahead c') < n
        shorter = omega (arith, ap length e)

        tried :
            (answer : Option ℕ)
            → let (result, c'') : Attempted × Connector = elim answer [
              | some fd ↦ (connected_to fd, c')
              | none ↦ rounds n attempt c'
            ] in
              (result, ahead c'') ≡ (elim answer [
                | some fd ↦ (connected_to fd, ahead c')
                | none ↦ first_answered attempt (ahead c')
              ])
        tried none = rec c' k shorter
        tried (some fd) = refl

bound_at :
    (xs : List Address) (ps : List ℕ) (i j : ℕ)
    → length
        (elim ps [ [] ↦ at_port default_port (drop i xs) | p ∷ qs ↦ from xs i (drop j (p ∷ qs)) ])
      < suc (length xs * suc (length ps))
bound_at xs [] i j = omega (arith, length-at_port default_port (drop i xs), length-drop i xs)
bound_at xs (p ∷ qs) i j =
    omega (arith, length-from xs i (drop j (p ∷ qs)), mul-le-mul_left (length xs) shorter)
  where
    shorter : length (drop j (p ∷ qs)) ≤ suc (suc (length qs))
    shorter = omega (arith, length-drop j (p ∷ qs))

ahead_bound : (c : Connector) → length (ahead c) < enough c
ahead_bound c = bound_at c.resolved_addresses c.resolved_ports c.address_index c.port_index

-- Where an address is known, tryNext ends, and it tries what is left of the combinations in order,
-- every address with one port before the next port (with the default port if no port was asked
-- for): its socket is the first that connects, and those behind it are left; if none connects,
-- there are no more.
pub try_next_lem :
    (attempt : Address → ℕ → Option ℕ) (c : Connector)
    → c.resolved_addresses ≢ []
    → let (result, c') = try_next attempt c in
      (result ≡ some (first_answered attempt (ahead c)).0)
      × (ahead c' ≡ (first_answered attempt (ahead c)).1)
unfolding try_next try_from
try_next_lem attempt c h = at c.resolved_addresses h
  where
    found :
        let (result, c') = rounds (enough c) attempt c in
        (result, ahead c') ≡ first_answered attempt (ahead c)
    found = rounds_lem (enough c) attempt c h (ahead_bound c)

    at :
        (xs : List Address)
        → xs ≢ []
        → let (result, c') = try_from attempt c xs in
          (result ≡ some (first_answered attempt (ahead c)).0)
          × (ahead c' ≡ (first_answered attempt (ahead c)).1)
    at [] k = absurd (k refl)
    at (a ∷ bs) k = (ap (λ r. some r.0) found, ap (λ r. r.1) found)
