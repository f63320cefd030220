-- ===== src/Wire/Parser/Loop.antt =====
-- Where the token loop of `MessageParser::doParse` ends. Source/ClientServerProtocol.hpp.
use conntop.Prelude.{
  inl, inr, ℕ, zero, suc, ◌+◌, ◌≤◌, ◌<◌, ◌≡◌, ◌≢◌, refl, ◌⊎◌, Bool, true, false, if◌then◌else◌,
  length, arith,
}
use conntop.Wire.Writer.{Bytes}
use conntop.Wire.Parser.{
  peek, TokenReader, Tokens, completed, partial, bad, endless, Round, more, ended, judge, token,
  tokens,
}

module _ (R : TokenReader) where
  open R use {State, is_complete, next, error, pop_lem, token_lem, partial_lem, init_lem}

  -- Where a loop of `doParse` may end, from `low` on.
  abbrev pub Ends : Bytes → ℕ → Tokens R → Type 0
  Ends text low (completed s tell' parsed') =
      (low ≤ tell') × (tell' ≤ length text) × (parsed' ≤ tell')
  Ends text low (partial s tell' parsed') =
      (low ≤ tell')
      × (tell' ≤ length text)
      × (parsed' ≤ tell')
      × (peek text tell' ≡ 0)
      × (is_complete s ≡ false)
  Ends text low (bad s what) = Unit {0}
  Ends text low endless = ⊥

  abbrev Goes : Bytes → ℕ → Round R → Type 0
  Goes text tell (more s tell') = (tell < tell') × (tell' ≤ length text)
  Goes text tell (ended t) = Ends text tell t

  judge_lem :
      (s : State) (text : Bytes) (tell parsed : ℕ) (o : State × Bool × ℕ)
      → is_complete s ≡ false
      → tell ≤ length text
      → parsed ≤ tell
      → next s text tell ≡ o
      → Goes text tell (judge R o parsed)
  unfolding judge
  judge_lem s text tell parsed (s', true, tell') c h p e = token_lem s s' text tell tell' c e
  judge_lem s text tell parsed (s', false, tell') c h p e =
      ground (arith, partial_lem s s' text tell tell' c h e, pop_lem s')

  reads :
      (b : Bool) (s : State) (text : Bytes) (tell parsed : ℕ)
      → is_complete s ≡ b
      → tell ≤ length text
      → parsed ≤ tell
      → Goes text tell
          (if b then ended (completed s tell parsed) else judge R (next s text tell) parsed)
  reads true s text tell parsed c h p = (omega arith, h, p)
  reads false s text tell parsed c h p = judge_lem s text tell parsed _ c h p refl

  token-Goes :
      (s : State) (text : Bytes) (tell parsed : ℕ)
      → tell ≤ length text
      → parsed ≤ tell
      → Goes text tell (token R s text tell parsed)
  unfolding token
  token-Goes s text tell parsed h p = reads (is_complete s) s text tell parsed refl h p

  lower :
      (text : Bytes) (low low' : ℕ) (t : Tokens R) → low ≤ low' → Ends text low' t → Ends text low t
  lower text low low' (completed s tell parsed) h e = ground arith
  lower text low low' (partial s tell parsed) h e = ground arith
  lower text low low' (bad s what) h e = tt
  lower text low low' endless h e = e

  tokens-Ends :
      (k : ℕ) (s : State) (text : Bytes) (tell parsed : ℕ)
      → tell ≤ length text
      → parsed ≤ tell
      → length text < k + tell
      → Ends text tell (tokens R k s text tell parsed)
  unfolding tokens
  tokens-Ends zero s text tell parsed h p f = absurd (omega arith)
  tokens-Ends (suc k) s text tell parsed h p f =
      elim (token R s text tell parsed)
          as (λ o.
            Goes text tell o
            → Ends text tell
                (elim o [ more s' tell' ↦ tokens R k s' text tell' tell' | ended t ↦ t ])) [
                  | more s' tell' ↦ (λ g.
                      lower text tell tell' _ (omega arith)
                        (tokens-Ends k s' text tell' tell' g.1 (omega arith) (omega arith)))
                  | ended t ↦ (λ g. g)
                ]
        (token-Goes s text tell parsed h p)

  -- The first token of a message is read from bytes that are there.
  abbrev Fresh : Round R → Type 0
  Fresh (ended (completed s tell parsed)) = ⊥
  Fresh _ = Unit {0}

  judge-Fresh : (o : State × Bool × ℕ) (parsed : ℕ) → Fresh (judge R o parsed)
  unfolding judge
  judge-Fresh (s, true, tell) parsed = tt
  judge-Fresh (s, false, tell) parsed = ground arith

  token-Fresh :
      (s : State) (text : Bytes) (tell parsed : ℕ)
      → is_complete s ≡ false
      → Fresh (token R s text tell parsed)
  unfolding token
  token-Fresh s text tell parsed e = rw e (judge-Fresh (next s text tell) parsed)

  decide_eq : (a b : ℕ) → (a ≡ b) ⊎ (a ≢ b)
  decide_eq a b = ground arith

  past :
      (text : Bytes) (tell : ℕ) (t : Tokens R)
      → peek text tell ≢ 0
      → Fresh (ended t)
      → Ends text tell t
      → Ends text (tell + 1) t
  past text tell (completed s tell' parsed) z f e = absurd f
  past text tell (partial s tell' parsed) z f e = elim (decide_eq tell tell') [
    | inl q ↦ absurd (z (rw q e.3))
    | inr q ↦ ground arith
  ]
  past text tell (bad s what) z f e = tt
  past text tell endless z f e = e

  pub tokens-past :
      (k : ℕ) (s : State) (text : Bytes) (tell parsed : ℕ)
      → tell ≤ length text
      → parsed ≤ tell
      → length text < k + tell
      → is_complete s ≡ false
      → peek text tell ≢ 0
      → Ends text (tell + 1) (tokens R k s text tell parsed)
  unfolding tokens
  tokens-past zero s text tell parsed h p f c z = absurd (omega arith)
  tokens-past (suc k) s text tell parsed h p f c z =
      elim (token R s text tell parsed)
          as (λ o.
            Goes text tell o
            → Fresh o
            → Ends text (tell + 1)
                (elim o [ more s' tell' ↦ tokens R k s' text tell' tell' | ended t ↦ t ])) [
                  | more s' tell' ↦ (λ g fr.
                      lower text (tell + 1) tell' _ (omega arith)
                        (tokens-Ends k s' text tell' tell' g.1 (omega arith) (omega arith)))
                  | ended t ↦ (λ g fr. past text tell t z fr g)
                ]
        (token-Goes s text tell parsed h p) (token-Fresh s text tell parsed c)
