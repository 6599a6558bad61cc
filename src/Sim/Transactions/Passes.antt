-- ===== src/Sim/Transactions/Passes.antt =====
-- A pass over a connector keeps its starts and stops alternating.
use mathlib.Core.Path.{subst}
use open_ocpp_simu.Common.{
  ℕ, Bool, true, false, ◌≡◌, ◌≢◌, sym, ◌∙◌, some, arith, ℕ_discrete, if◌then◌else◌,
}
use open_ocpp_simu.Ocpp.{
  ChargePointStatus, available, preparing, charging, suspended_evse, suspended_ev, finishing,
  reserved, unavailable, faulted, Stack,
}
use open_ocpp_simu.Float.{FloatOps}
use open_ocpp_simu.Sim.World.{
  World, Connector, M, bind_inv, id_tag_pending, id_tag_of, reset_id_tag, remote_start_pending,
  remote_start_tag, reset_remote_start, remote_stop_pending, reset_remote_stop, authorize,
  start_transaction, stop_transaction, notify,
}
use open_ocpp_simu.Sim.IdTag.{
  local_tag, remote_authorize, remote_tag, is_valid_id_tag_present, local_stop, car_stop,
  remote_or_car_stop, is_transaction_stop_condition,
}
use open_ocpp_simu.Sim.Step.{
  fault_or_unavailable, step_available, present_tag, start_charge, check_timeout, leave_preparing,
  step_preparing, leave_suspended_evse, leave_suspended_ev, leave_charging, step_transaction,
  step_finishing, step_reserved, step_faulted, dispatch, step,
}
use open_ocpp_simu.Sim.Safety.{step-Permitted}
use open_ocpp_simu.Sim.Transactions.{
  in_transaction, shows_transaction, is_open, Alternates, IsConsistent,
}
use open_ocpp_simu.Sim.Transactions.Quiet.{==-refl, Quiet, Quiet-IsConsistent, Adds-Quiet}

module _ {F : Type 0} ⦃f : FloatOps F⦄ (s : Stack F) (c : Connector F) (w v : World F) where
  present_tag-Quiet :
      (d : Connector F)
      → present_tag s c w ≡ some (d, v)
      → (d.id ≡ c.id) × Quiet s c.id w.calls v.calls
  unfolding present_tag is_valid_id_tag_present local_tag remote_authorize remote_tag id_tag_pending
      id_tag_of reset_id_tag remote_start_pending remote_start_tag reset_remote_start authorize
  present_tag-Quiet d e = ground arith

  leave_preparing-Stays :
      (d : Connector F)
      → leave_preparing s c w ≡ some (d, v)
      → is_open s c.id w.calls ≡ false
      → IsConsistent s c.id w.calls
      → IsConsistent s c.id v.calls
  unfolding leave_preparing start_charge check_timeout notify start_transaction
  leave_preparing-Stays d e o h = ground (arith, ==-refl c.id)

  step_available-Stays :
      (d : Connector F)
      → step_available s c w ≡ some (d, v)
      → is_open s c.id w.calls ≡ false
      → IsConsistent s c.id w.calls
      → IsConsistent s c.id v.calls
  unfolding step_available fault_or_unavailable notify is_valid_id_tag_present local_tag
      remote_authorize remote_tag id_tag_pending id_tag_of reset_id_tag remote_start_pending
      remote_start_tag reset_remote_start authorize
  step_available-Stays d e o h = ground (arith, ==-refl c.id)

  step_reserved-Stays :
      (d : Connector F)
      → step_reserved s c w ≡ some (d, v)
      → is_open s c.id w.calls ≡ false
      → IsConsistent s c.id w.calls
      → IsConsistent s c.id v.calls
  unfolding step_reserved fault_or_unavailable notify is_valid_id_tag_present local_tag
      remote_authorize remote_tag id_tag_pending id_tag_of reset_id_tag remote_start_pending
      remote_start_tag reset_remote_start authorize
  step_reserved-Stays d e o h = ground (arith, ==-refl c.id)

  step_finishing-Stays :
      (d : Connector F)
      → step_finishing c w ≡ some (d, v)
      → is_open s c.id w.calls ≡ false
      → IsConsistent s c.id w.calls
      → IsConsistent s c.id v.calls
  unfolding step_finishing notify
  step_finishing-Stays d e o h = ground (arith, ==-refl c.id)

  step_faulted-Stays :
      (d : Connector F)
      → step_faulted c w ≡ some (d, v)
      → is_open s c.id w.calls ≡ false
      → IsConsistent s c.id w.calls
      → IsConsistent s c.id v.calls
  unfolding step_faulted notify
  step_faulted-Stays d e o h = ground (arith, ==-refl c.id)

  -- After the stop condition, the transaction is open exactly if it was not to stop.
  abbrev Stops : Bool → Type 0
  Stops r =
      Alternates s c.id v.calls
      × (is_open s c.id v.calls ≡ (if r then false else true))
      × (shows_transaction c.id v.calls ≡ true)

  local_stop-Stops :
      (r : Bool)
      → local_stop s c w ≡ some (r, v)
      → is_open s c.id w.calls ≡ true
      → IsConsistent s c.id w.calls
      → Stops r
  unfolding local_stop id_tag_of reset_id_tag authorize stop_transaction
  local_stop-Stops r e o h = ground (arith, ==-refl c.id)

  stop_condition-Stops :
      (r : Bool)
      → is_transaction_stop_condition s c w ≡ some (r, v)
      → is_open s c.id w.calls ≡ true
      → IsConsistent s c.id w.calls
      → Stops r
  unfolding is_transaction_stop_condition remote_or_car_stop car_stop id_tag_pending
      remote_stop_pending reset_remote_stop stop_transaction
  stop_condition-Stops r e o h = ground (arith, local_stop-Stops r, ==-refl c.id)

module _ {F : Type 0} ⦃f : FloatOps F⦄ (s : Stack F) (c : Connector F) (w v : World F) where
  abbrev Leaves : M F (Connector F) → Bool → Connector F → Type 0
  Leaves leave stop d =
      (if stop then notify c finishing else leave) w ≡ some (d, v)
      → Alternates s c.id w.calls
        × (is_open s c.id w.calls ≡ (if stop then false else true))
        × (shows_transaction c.id w.calls ≡ true)
      → IsConsistent s c.id v.calls

  leave_suspended_evse-Leaves :
      (stop : Bool) (d : Connector F) → Leaves (leave_suspended_evse c) stop d
  unfolding leave_suspended_evse notify
  leave_suspended_evse-Leaves stop d e h = ground (arith, ==-refl c.id)

  leave_suspended_ev-Leaves : (stop : Bool) (d : Connector F) → Leaves (leave_suspended_ev c) stop d
  unfolding leave_suspended_ev notify
  leave_suspended_ev-Leaves stop d e h = ground (arith, ==-refl c.id)

  leave_charging-Leaves : (stop : Bool) (d : Connector F) → Leaves (leave_charging c) stop d
  unfolding leave_charging notify
  leave_charging-Leaves stop d e h = ground (arith, ==-refl c.id)

module _ {F : Type 0} ⦃f : FloatOps F⦄ (s : Stack F) (c : Connector F) (w v : World F) where
  step_transaction-IsConsistent :
      (leave : Connector F → M F (Connector F)) (d : Connector F)
      → ((stop : Bool) (u : World F) → Leaves s c u v (leave c) stop d)
      → step_transaction s leave c w ≡ some (d, v)
      → is_open s c.id w.calls ≡ true
      → IsConsistent s c.id w.calls
      → IsConsistent s c.id v.calls
  unfolding step_transaction
  step_transaction-IsConsistent leave d rest e o h =
      let (r, er, eg) =
        bind_inv (is_transaction_stop_condition s c)
          (λ stop. if stop then notify c finishing else leave c) w e in
      rest r.0 r.1 eg (stop_condition-Stops s c w r.1 r.0 er o h)

  step_preparing-IsConsistent :
      (d : Connector F)
      → step_preparing s c w ≡ some (d, v)
      → is_open s c.id w.calls ≡ false
      → IsConsistent s c.id w.calls
      → IsConsistent s c.id v.calls
  unfolding step_preparing
  step_preparing-IsConsistent d e o h =
      let (r, er, eg) = bind_inv (present_tag s c) (λ b. leave_preparing s b) w e in
      let (same, q) = present_tag-Quiet s c w r.1 r.0 er in
      subst
        (λ (k : ℕ).
          is_open s k r.1.calls ≡ false → IsConsistent s k r.1.calls → IsConsistent s k v.calls)
        same (leave_preparing-Stays s r.0 r.1 v d eg) (q.0 ∙ o)
        (Quiet-IsConsistent s c.id w.calls r.1.calls q h)

  -- The calls for the connector leave the others alone.
  pub step-Quiet :
      (id : ℕ) (d : Connector F) → id ≢ c.id → step s c w ≡ some (d, v) → Quiet s id w.calls v.calls
  step-Quiet id d p e = Adds-Quiet s c c.status id w.calls v.calls p (step-Permitted s c w v d e)

  dispatch-IsConsistent :
      (st : ChargePointStatus) (d : Connector F)
      → dispatch st s c w ≡ some (d, v)
      → is_open s c.id w.calls ≡ in_transaction st
      → IsConsistent s c.id w.calls
      → IsConsistent s c.id v.calls
  unfolding dispatch
  dispatch-IsConsistent available d e o h = step_available-Stays s c w v d e o h
  dispatch-IsConsistent preparing d e o h = step_preparing-IsConsistent d e o h
  dispatch-IsConsistent suspended_evse d e o h =
      step_transaction-IsConsistent leave_suspended_evse d
        (λ stop u. leave_suspended_evse-Leaves s c u v stop d) e o h
  dispatch-IsConsistent suspended_ev d e o h =
      step_transaction-IsConsistent leave_suspended_ev d
        (λ stop u. leave_suspended_ev-Leaves s c u v stop d) e o h
  dispatch-IsConsistent charging d e o h =
      step_transaction-IsConsistent leave_charging d
        (λ stop u. leave_charging-Leaves s c u v stop d) e o h
  dispatch-IsConsistent finishing d e o h = step_finishing-Stays s c w v d e o h
  dispatch-IsConsistent reserved d e o h = step_reserved-Stays s c w v d e o h
  dispatch-IsConsistent unavailable d e o h = ground arith
  dispatch-IsConsistent faulted d e o h = step_faulted-Stays s c w v d e o h

  -- A pass over a connector whose status tells whether its transaction is open keeps the starts and stops of every connector
  -- alternating, and the statuses that are notified telling which transactions are open.
  pub step-IsConsistent :
      (id : ℕ) (d : Connector F)
      → step s c w ≡ some (d, v)
      → is_open s c.id w.calls ≡ in_transaction c.status
      → IsConsistent s id w.calls
      → IsConsistent s id v.calls
  unfolding step
  step-IsConsistent id d e o h = elim (ℕ_discrete id c.id) [
    | yes p ↦
        subst (λ (k : ℕ). IsConsistent s k w.calls → IsConsistent s k v.calls) (sym p)
          (dispatch-IsConsistent c.status d e o) h
    | no p ↦ Quiet-IsConsistent s id w.calls v.calls (step-Quiet id d p e) h
  ]
