-- ===== src/Safety/Modes.antt =====
-- The modes of a market engine, over every sequence of transitions and messages.
use tradedrift.Base.{
  ℕ, ◌≡◌, refl, ◌≢◌, sym, inl, inr, ◌∙◌, ◌⊎◌, List, [], ◌∷◌, Bool, true, false, subst, All,
}
use tradedrift.Engine.State.{
  Mode, mode_recovery, mode_live, mode_blocked, mode_reconciling, MarketConfig, MarketEngine,
  new_market_engine, publish_atomic_snapshot, set_live, set_reconciling, approve_reconciliation,
  set_blocked, trigger_fatal_halt,
}

-- What the recovery, the operator and the event loop call.
pub data Call : Type 0 where
  call_set_live call_approve call_halt call_publish : Call
  call_set_reconciling call_set_blocked : ℕ → Call

abbrev pub perform : MarketEngine → Call → MarketEngine
perform m call_set_live = (set_live m).0
perform m call_approve = (approve_reconciliation m).0
perform m call_halt = trigger_fatal_halt m
perform m call_publish = publish_atomic_snapshot m
perform m (call_set_reconciling reason) = (set_reconciling reason m).0
perform m (call_set_blocked err) = set_blocked err m

abbrev pub perform_all : MarketEngine → List Call → MarketEngine
perform_all m [] = m
perform_all m (c ∷ cs) = perform_all (perform m c) cs

-- The transitions of the mode that the documentation of the engine allows.
pub data Allowed : Call → Mode → Mode → Type 0 where
  stays : (c : Call) (s : Mode) → Allowed c s s
  replayed : Allowed call_set_live mode_recovery mode_live
  reset : (reason : ℕ) → Allowed (call_set_reconciling reason) mode_recovery mode_reconciling
  approved : Allowed call_approve mode_reconciling mode_live
  fails : (err : ℕ) (s : Mode) → Allowed (call_set_blocked err) s mode_blocked

-- What one call makes of the mode, of the published state and of a halt.
pub record Performed (m : MarketEngine) (c : Call) (m' : MarketEngine) : Type 0 where
  pub allowed : Allowed c m.mode m'.mode
  pub published : m.snapshot.state ≡ m.mode → m'.snapshot.state ≡ m'.mode
  pub halt_stays : m.is_fatal_halt ≡ true → m'.is_fatal_halt ≡ true
  pub halt_not_live : m.is_fatal_halt ≡ true → m'.mode ≡ mode_live → m.mode ≡ mode_live
  pub same_book : m'.book ≡ m.book

-- A call that leaves all of this as it was.
unchanged :
    (m : MarketEngine) (c : Call) (m' : MarketEngine)
    → m'.mode ≡ m.mode
    → m'.snapshot.state ≡ m.snapshot.state
    → m'.is_fatal_halt ≡ m.is_fatal_halt
    → m'.book ≡ m.book
    → Performed m c m'
unchanged m c m' mode state halt book = record {
  allowed = subst (Allowed c m.mode) (sym mode) (stays c m.mode);
  published = λ p. state ∙ p ∙ sym mode;
  halt_stays = λ h. halt ∙ h;
  halt_not_live = λ h l. sym mode ∙ l;
  same_book = book;
}

-- A call on an engine that is not halted, which takes the mode from `from` to `to` and publishes it.
moved :
    (m : MarketEngine) (c : Call) (m' : MarketEngine)
    → Allowed c m.mode m'.mode
    → m'.snapshot.state ≡ m'.mode
    → m.is_fatal_halt ≡ false
    → m'.book ≡ m.book
    → Performed m c m'
moved m c m' a p h b = record {
  allowed = a;
  published = λ _. p;
  halt_stays = λ t. cc;
  halt_not_live = λ t l. cc;
  same_book = b;
}

set_live-Performed : (m : MarketEngine) → Performed m call_set_live (set_live m).0
unfolding set_live publish_atomic_snapshot
set_live-Performed m = go m.mode m.is_fatal_halt
  where
    go :
        (mode : Mode) (halt : Bool)
        → let n = record m { mode = mode; is_fatal_halt = halt } in
          Performed n call_set_live (set_live n).0
    go mode true = unchanged _ _ _ refl refl refl refl
    go mode_recovery false = moved _ _ _ replayed refl refl refl
    go mode_live false = unchanged _ _ _ refl refl refl refl
    go mode_blocked false = unchanged _ _ _ refl refl refl refl
    go mode_reconciling false = unchanged _ _ _ refl refl refl refl

approve-Performed : (m : MarketEngine) → Performed m call_approve (approve_reconciliation m).0
unfolding approve_reconciliation publish_atomic_snapshot
approve-Performed m = go m.mode m.is_fatal_halt
  where
    go :
        (mode : Mode) (halt : Bool)
        → let n = record m { mode = mode; is_fatal_halt = halt } in
          Performed n call_approve (approve_reconciliation n).0
    go mode true = unchanged _ _ _ refl refl refl refl
    go mode_recovery false = unchanged _ _ _ refl refl refl refl
    go mode_live false = unchanged _ _ _ refl refl refl refl
    go mode_blocked false = unchanged _ _ _ refl refl refl refl
    go mode_reconciling false = moved _ _ _ approved refl refl refl

set_reconciling-Performed :
    (reason : ℕ) (m : MarketEngine)
    → Performed m (call_set_reconciling reason) (set_reconciling reason m).0
unfolding set_reconciling publish_atomic_snapshot
set_reconciling-Performed reason m = go m.mode m.is_fatal_halt
  where
    go :
        (mode : Mode) (halt : Bool)
        → let n = record m { mode = mode; is_fatal_halt = halt } in
          Performed n (call_set_reconciling reason) (set_reconciling reason n).0
    go mode true = unchanged _ _ _ refl refl refl refl
    go mode_recovery false = moved _ _ _ (reset reason) refl refl refl
    go mode_live false = unchanged _ _ _ refl refl refl refl
    go mode_blocked false = unchanged _ _ _ refl refl refl refl
    go mode_reconciling false = unchanged _ _ _ refl refl refl refl

-- Every call of an engine transition makes an allowed change of mode, keeps a published state that
-- agrees with the mode, keeps a halt, takes no halted engine to the live mode, and does not touch
-- the book.
pub perform-Performed : (m : MarketEngine) (c : Call) → Performed m c (perform m c)
unfolding set_blocked trigger_fatal_halt publish_atomic_snapshot
perform-Performed m call_set_live = set_live-Performed m
perform-Performed m call_approve = approve-Performed m
perform-Performed m call_halt = record {
  allowed = stays call_halt m.mode;
  published = λ p. p;
  halt_stays = λ h. refl;
  halt_not_live = λ h l. l;
  same_book = refl;
}
perform-Performed m call_publish = record {
  allowed = stays call_publish m.mode;
  published = λ p. refl;
  halt_stays = λ h. h;
  halt_not_live = λ h l. l;
  same_book = refl;
}
perform-Performed m (call_set_reconciling reason) = set_reconciling-Performed reason m
perform-Performed m (call_set_blocked err) = record {
  allowed = fails err m.mode;
  published = λ p. refl;
  halt_stays = λ h. h;
  halt_not_live = λ h l. absurd (not_live l);
  same_book = refl;
}
  where
    not_live : mode_blocked ≡ mode_live → ⊥
    not_live e = cc

Allowed-blocked : (c : Call) (s t : Mode) → Allowed c s t → s ≡ mode_blocked → t ≡ mode_blocked
Allowed-blocked c s t (stays _ _) e = e
Allowed-blocked c s t replayed e = cc
Allowed-blocked c s t (reset _) e = cc
Allowed-blocked c s t approved e = cc
Allowed-blocked c s t (fails _ _) e = refl

-- A blocked market stays blocked under every sequence of calls.
pub blocked_absorbs :
    (m : MarketEngine) (cs : List Call)
    → m.mode ≡ mode_blocked
    → (perform_all m cs).mode ≡ mode_blocked
blocked_absorbs m [] e = e
blocked_absorbs m (c ∷ cs) e =
    blocked_absorbs (perform m c) cs
      (Allowed-blocked c m.mode (perform m c).mode (perform-Performed m c).allowed e)

Allowed-reconciling :
    (c : Call) (s t : Mode)
    → Allowed c s t
    → c ≢ call_approve
    → (s ≡ mode_reconciling) ⊎ (s ≡ mode_blocked)
    → (t ≡ mode_reconciling) ⊎ (t ≡ mode_blocked)
Allowed-reconciling c s t (stays _ _) n e = e
Allowed-reconciling c s t replayed n (inl e) = cc
Allowed-reconciling c s t replayed n (inr e) = cc
Allowed-reconciling c s t (reset _) n (inl e) = cc
Allowed-reconciling c s t (reset _) n (inr e) = cc
Allowed-reconciling c s t approved n e = absurd (n refl)
Allowed-reconciling c s t (fails _ _) n e = inr refl

-- A market that is reconciling or blocked is not live after any sequence of calls without an
-- approval.
pub reconciling_needs_approval :
    (m : MarketEngine) (cs : List Call)
    → All (λ c. c ≢ call_approve) cs
    → (m.mode ≡ mode_reconciling) ⊎ (m.mode ≡ mode_blocked)
    → (perform_all m cs).mode ≢ mode_live
reconciling_needs_approval m [] a (inl e) = λ l. cc
reconciling_needs_approval m [] a (inr e) = λ l. cc
reconciling_needs_approval m (c ∷ cs) a e =
    reconciling_needs_approval (perform m c) cs a.1
      (Allowed-reconciling c m.mode (perform m c).mode (perform-Performed m c).allowed a.0 e)

-- A halted market that is not live is halted and not live after every sequence of calls.
pub halted_never_live :
    (m : MarketEngine) (cs : List Call)
    → m.is_fatal_halt ≡ true
    → m.mode ≢ mode_live
    → ((perform_all m cs).is_fatal_halt ≡ true) × ((perform_all m cs).mode ≢ mode_live)
halted_never_live m [] h n = (h, n)
halted_never_live m (c ∷ cs) h n =
    let p = perform-Performed m c in
    halted_never_live (perform m c) cs (p.halt_stays h) (λ l. n (p.halt_not_live h l))

-- The published state of an engine is its mode, after every sequence of calls on a new engine.
pub published_agrees :
    (config : MarketConfig) (cs : List Call)
    → let m = perform_all (new_market_engine config) cs in m.snapshot.state ≡ m.mode
unfolding new_market_engine
published_agrees config cs = go (new_market_engine config) cs refl
  where
    go :
        (m : MarketEngine) (cs' : List Call)
        → m.snapshot.state ≡ m.mode
        → (perform_all m cs').snapshot.state ≡ (perform_all m cs').mode
    go m [] e = e
    go m (c ∷ cs') e = go (perform m c) cs' ((perform-Performed m c).published e)
