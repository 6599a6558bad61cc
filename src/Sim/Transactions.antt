-- ===== src/Sim/Transactions.antt =====
-- The transactions of a connector, read from the calls on the stack, told independently of the code.
pub mod Quiet
pub mod Passes
pub mod Refresh
pub mod Iterations
use open_ocpp_simu.Common.{ℕ, ◌==◌, Bool, true, false, ◌||◌, ◌≡◌, [], ◌∷◌, if◌then◌else◌}
use open_ocpp_simu.Ocpp.{
  ChargePointStatus, charging, suspended_evse, suspended_ev, Calls, StackCall, Stack,
}
use open_ocpp_simu.Sim.World.{is_authorized}

-- The statuses of a running transaction.
abbrev pub in_transaction : ChargePointStatus → Bool
in_transaction charging = true
in_transaction suspended_evse = true
in_transaction suspended_ev = true
in_transaction _ = false

-- The last status that was notified for a connector is one of a running transaction.
abbrev pub shows_transaction : ℕ → Calls → Bool
shows_transaction id [] = false
shows_transaction id (StackCall.status_notification other st code ∷ cs) =
    if other == id then in_transaction st else shows_transaction id cs
shows_transaction id (_ ∷ cs) = shows_transaction id cs

module _ {F : Type 0} (s : Stack F) where
  -- A start that the stack authorized was not stopped yet.
  abbrev pub is_open : ℕ → Calls → Bool
  is_open id [] = false
  is_open id (StackCall.start_transaction other tag ∷ cs) =
      if other == id then is_authorized (s.starts cs other tag) || is_open id cs else is_open id cs
  is_open id (StackCall.stop_transaction other tag reason ∷ cs) =
      if other == id then false else is_open id cs
  is_open id (_ ∷ cs) = is_open id cs

  -- Starts and stops of the connector alternate: a transaction starts only while none is open, and stops only
  -- while one is.
  abbrev pub Alternates : ℕ → Calls → Type 0
  Alternates id [] = Unit
  Alternates id (StackCall.start_transaction other tag ∷ cs) =
      (if other == id then is_open id cs else false) ≡ false × Alternates id cs
  Alternates id (StackCall.stop_transaction other tag reason ∷ cs) =
      (if other == id then is_open id cs else true) ≡ true × Alternates id cs
  Alternates id (_ ∷ cs) = Alternates id cs

  -- The statuses that are notified tell which transactions are open.
  abbrev pub IsConsistent : ℕ → Calls → Type 0
  IsConsistent id cs = Alternates id cs × (shows_transaction id cs ≡ is_open id cs)
