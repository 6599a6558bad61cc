-- ===== src/System/Transactions.antt =====
-- The transactions of the connectors, whatever the threads do.
use mathlib.Core.Path.{subst}
use open_ocpp_simu.Common.{ℕ, zero, suc, ◌≤◌, ◌≡◌, ◌≢◌, refl, sym, some, arith, All}
use open_ocpp_simu.Ocpp.{Stack}
use open_ocpp_simu.Float.{FloatOps}
use open_ocpp_simu.Connector.{ConnectorType}
use open_ocpp_simu.Meter.{Meter}
use open_ocpp_simu.Sim.Loop.{operate}
use open_ocpp_simu.Sim.Later.{ids, ids-AllLater}
use open_ocpp_simu.Sim.Transactions.{is_open, shows_transaction, Alternates}
use open_ocpp_simu.Sim.Transactions.Refresh.{IsReflecting, Distinct}
use open_ocpp_simu.Sim.Transactions.Iterations.{AllConsistent, operate-AllConsistent}
use open_ocpp_simu.System.{
  System, phases_of, start_meter, start_connectors, start_system, Step, iterate, message,
  remote_start, remote_stop, availability, connection, reset, restart, measure, Reach, here,
  then_step,
}
use open_ocpp_simu.System.Invariants.{Reach-Leads, start_system-IsSound}

module _ {F : Type 0} ⦃f : FloatOps F⦄ where
  -- The steps of a run before a restart, with the answers of one stack.
  abbrev pub StepUses : Stack F → {a b : System F} → Step a b → Type 0
  StepUses s (iterate max t cs ds w v e) = t ≡ s
  StepUses s (restart cs w) = ⊥
  StepUses s _ = Unit

  abbrev pub Uses : Stack F → {a b : System F} → Reach a b → Type 0
  Uses s here = Unit
  Uses s (then_step b c r t) = StepUses s t × Uses s r

  later_numbers :
      (meter : Meter F) (max_setpoint : F) (j i left : ℕ)
      → j ≤ i
      → All (λ (k : ℕ). k ≢ j) (ids (start_connectors meter max_setpoint i left))
  unfolding start_connectors
  later_numbers meter max_setpoint j i zero h = tt
  later_numbers meter max_setpoint j i (suc left) h =
      (omega arith, later_numbers meter max_setpoint j (suc i) left (omega arith))

  start_connectors-Distinct :
      (meter : Meter F) (max_setpoint : F) (i left : ℕ)
      → Distinct (ids (start_connectors meter max_setpoint i left))
  unfolding start_connectors
  start_connectors-Distinct meter max_setpoint i zero = tt
  start_connectors-Distinct meter max_setpoint i (suc left) = (
    later_numbers meter max_setpoint (suc i) (suc i) left (omega arith),
    start_connectors-Distinct meter max_setpoint (suc i) left,
  )

  module _ (s : Stack F) (reflecting : IsReflecting s) where
    Step-AllConsistent :
        {a b : System F} (t : Step a b)
        → StepUses s t
        → Distinct (ids a.connectors)
        → AllConsistent s a.world.calls
        → AllConsistent s b.world.calls
    Step-AllConsistent (iterate max t cs ds w v e) u n h =
        let g : operate max s cs w ≡ some (ds, v) =
          subst (λ (k : Stack F). operate max k cs w ≡ some (ds, v)) u e in
        operate-AllConsistent s max cs w (ds, v) reflecting g n h
    Step-AllConsistent (message parse topic payload m b cs w e) u n h = h
    Step-AllConsistent (remote_start status before id tag g b cs w e) u n h = h
    Step-AllConsistent (remote_stop id g b cs w e) u n h = h
    Step-AllConsistent (availability id a r cs ds w e) u n h = h
    Step-AllConsistent (connection b cs w) u n h = h
    Step-AllConsistent (reset cs w) u n h = h
    Step-AllConsistent (restart cs w) u n h = elim u [ ]
    Step-AllConsistent (measure id cs ds w e) u n h = h

  -- Until the charge point is restarted, and whatever the threads do in whatever order, the starts and stops of every
  -- connector alternate: a transaction is started only while none that was authorized is open, and stopped only while
  -- one is. The last status notified for a connector is one of a running transaction exactly if it has an open one. This
  -- holds for a stack that gives a status of a running transaction exactly where the last one notified is one.
  pub Reach-AllConsistent :
      (type : ConnectorType) (nb_phases nb_connectors : ℕ) (max_setpoint voltage pf : F)
      (st : System F) (s : Stack F) (id : ℕ)
      (r : Reach (start_system type nb_phases nb_connectors max_setpoint voltage pf) st)
      → IsReflecting s
      → Uses s r
      → Alternates s id st.world.calls
        × (shows_transaction id st.world.calls ≡ is_open s id st.world.calls)
  unfolding start_system
  Reach-AllConsistent type nb_phases n max_setpoint voltage pf st s id r h u = go r u id
    where
      a : System F
      a = start_system type nb_phases n max_setpoint voltage pf

      go : {b : System F} (q : Reach a b) → Uses s q → AllConsistent s b.world.calls
      go here v = λ i. (tt, refl)
      go (then_step b c q t) v =
          let (l, _) =
            Reach-Leads q (start_system-IsSound type nb_phases n max_setpoint voltage pf) in
          let numbers = ids-AllLater a.connectors b.connectors l.0 in
          Step-AllConsistent s h t v.0
            (subst Distinct (sym numbers) (
              start_connectors-Distinct (start_meter type (phases_of type nb_phases) voltage pf)
                max_setpoint 0 n))
            (go q v.1)
