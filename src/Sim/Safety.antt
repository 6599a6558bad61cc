-- ===== src/Sim/Safety.antt =====
-- Every call of a pass is permitted.

use open_ocpp_simu.Common.{Bool, ◌≡◌, some, arith, if◌then◌else◌}
use open_ocpp_simu.Ocpp.{
  ChargePointStatus, available, preparing, charging, suspended_evse, suspended_ev, finishing,
  reserved, unavailable, faulted, Stack,
}
use open_ocpp_simu.Float.{FloatOps}
use open_ocpp_simu.Sim.World.{
  World, Connector, M, bind_inv, id_tag_pending, id_tag_of, reset_id_tag, remote_start_pending,
  remote_start_tag, reset_remote_start, remote_stop_pending, reset_remote_stop, authorize,
  start_transaction, stop_transaction, notify,
}
use open_ocpp_simu.Sim.IdTag.{
  with_tags, local_tag, remote_authorize, remote_tag, is_valid_id_tag_present, local_stop, car_stop,
  remote_or_car_stop, is_transaction_stop_condition,
}
use open_ocpp_simu.Sim.Step.{
  fault_or_unavailable, step_available, present_tag, start_charge, check_timeout, leave_preparing,
  step_preparing, leave_suspended_evse, leave_suspended_ev, leave_charging, step_transaction,
  step_finishing, step_reserved, step_faulted, dispatch, step,
}
use open_ocpp_simu.Sim.Permitted.{Permitted, TakesTag, InTransaction, Adds, Adds-refl, Adds-trans}

TakesTag-of_InTransaction : (st : ChargePointStatus) → InTransaction st → TakesTag st
TakesTag-of_InTransaction suspended_evse h = tt
TakesTag-of_InTransaction suspended_ev h = tt
TakesTag-of_InTransaction charging h = tt
TakesTag-of_InTransaction _ h = absurd h

module _ {F : Type 0} ⦃f : FloatOps F⦄ (s : Stack F) (c : Connector F) (w v : World F) where
  is_valid_keeps :
      (lo : Bool) (r : Bool × Connector F)
      → is_valid_id_tag_present s c lo w ≡ some (r, v)
      → r.1 ≡ with_tags c r.1.id_tag r.1.parent_id_tag
  unfolding is_valid_id_tag_present local_tag remote_authorize remote_tag id_tag_pending id_tag_of
      reset_id_tag remote_start_pending remote_start_tag reset_remote_start authorize
  is_valid_keeps lo r e = ground arith

  is_valid-Adds :
      (st : ChargePointStatus) (lo : Bool) (r : Bool × Connector F)
      → TakesTag st
      → is_valid_id_tag_present s c lo w ≡ some (r, v)
      → Adds (Permitted c st) w.calls v.calls
  unfolding is_valid_id_tag_present local_tag remote_authorize remote_tag id_tag_pending id_tag_of
      reset_id_tag remote_start_pending remote_start_tag reset_remote_start authorize
  is_valid-Adds st lo r h e = ground (arith, Adds-refl (Permitted c st) w.calls)

  local_stop-Adds :
      (st : ChargePointStatus) (r : Bool)
      → InTransaction st
      → local_stop s c w ≡ some (r, v)
      → Adds (Permitted c st) w.calls v.calls
  unfolding local_stop id_tag_of reset_id_tag authorize stop_transaction
  local_stop-Adds st r h e =
      ground (arith, TakesTag-of_InTransaction st h, Adds-refl (Permitted c st) w.calls)

  stop_condition-Adds :
      (st : ChargePointStatus) (r : Bool)
      → InTransaction st
      → is_transaction_stop_condition s c w ≡ some (r, v)
      → Adds (Permitted c st) w.calls v.calls
  unfolding is_transaction_stop_condition remote_or_car_stop car_stop id_tag_pending
      remote_stop_pending reset_remote_stop stop_transaction
  stop_condition-Adds st r h e =
      ground (arith, local_stop-Adds st r h, Adds-refl (Permitted c st) w.calls)

  present_tag-Adds :
      (d : Connector F)
      → present_tag s c w ≡ some (d, v)
      → (d ≡ record c {
        id_tag = d.id_tag;
        parent_id_tag = d.parent_id_tag;
        preparing_start = d.preparing_start;
      })
        × Adds (Permitted c preparing) w.calls v.calls
  unfolding present_tag is_valid_id_tag_present local_tag remote_authorize remote_tag id_tag_pending
      id_tag_of reset_id_tag remote_start_pending remote_start_tag reset_remote_start authorize
  present_tag-Adds d e = ground (arith, Adds-refl (Permitted c preparing) w.calls)

  leave_preparing-Adds :
      (b d : Connector F)
      → b ≡ record c {
        id_tag = b.id_tag;
        parent_id_tag = b.parent_id_tag;
        preparing_start = b.preparing_start;
      }
      → leave_preparing s b w ≡ some (d, v)
      → Adds (Permitted c preparing) w.calls v.calls
  unfolding leave_preparing start_charge check_timeout notify start_transaction
  leave_preparing-Adds b d k e = ground (arith, Adds-refl (Permitted c preparing) w.calls)

  step_available-Adds :
      (d : Connector F)
      → step_available s c w ≡ some (d, v)
      → Adds (Permitted c available) w.calls v.calls
  unfolding step_available fault_or_unavailable notify is_valid_id_tag_present local_tag
      remote_authorize remote_tag id_tag_pending id_tag_of reset_id_tag remote_start_pending
      remote_start_tag reset_remote_start authorize
  step_available-Adds d e = ground (arith, Adds-refl (Permitted c available) w.calls)

  step_reserved-Adds :
      (d : Connector F)
      → step_reserved s c w ≡ some (d, v)
      → Adds (Permitted c reserved) w.calls v.calls
  unfolding step_reserved fault_or_unavailable notify is_valid_id_tag_present local_tag
      remote_authorize remote_tag id_tag_pending id_tag_of reset_id_tag remote_start_pending
      remote_start_tag reset_remote_start authorize
  step_reserved-Adds d e = ground (arith, Adds-refl (Permitted c reserved) w.calls)

  step_finishing-Adds :
      (d : Connector F)
      → step_finishing c w ≡ some (d, v)
      → Adds (Permitted c finishing) w.calls v.calls
  unfolding step_finishing notify
  step_finishing-Adds d e = ground (arith, Adds-refl (Permitted c finishing) w.calls)

  step_faulted-Adds :
      (d : Connector F)
      → step_faulted c w ≡ some (d, v)
      → Adds (Permitted c faulted) w.calls v.calls
  unfolding step_faulted notify
  step_faulted-Adds d e = ground (arith, Adds-refl (Permitted c faulted) w.calls)

module _ {F : Type 0} ⦃f : FloatOps F⦄ (s : Stack F) (c : Connector F) (w v : World F) where
  leave_suspended_evse-Adds :
      (stop : Bool) (u : World F) (d : Connector F)
      → (if stop then notify c finishing else leave_suspended_evse c) u ≡ some (d, v)
      → Adds (Permitted c suspended_evse) u.calls v.calls
  unfolding leave_suspended_evse notify
  leave_suspended_evse-Adds stop u d e =
      ground (arith, Adds-refl (Permitted c suspended_evse) u.calls)

  leave_suspended_ev-Adds :
      (stop : Bool) (u : World F) (d : Connector F)
      → (if stop then notify c finishing else leave_suspended_ev c) u ≡ some (d, v)
      → Adds (Permitted c suspended_ev) u.calls v.calls
  unfolding leave_suspended_ev notify
  leave_suspended_ev-Adds stop u d e = ground (arith, Adds-refl (Permitted c suspended_ev) u.calls)

  leave_charging-Adds :
      (stop : Bool) (u : World F) (d : Connector F)
      → (if stop then notify c finishing else leave_charging c) u ≡ some (d, v)
      → Adds (Permitted c charging) u.calls v.calls
  unfolding leave_charging notify
  leave_charging-Adds stop u d e = ground (arith, Adds-refl (Permitted c charging) u.calls)

  step_transaction-Adds :
      (st : ChargePointStatus) (leave : Connector F → M F (Connector F)) (d : Connector F)
      → InTransaction st
      → ((stop : Bool) (u : World F)
          → (if stop then notify c finishing else leave c) u ≡ some (d, v)
          → Adds (Permitted c st) u.calls v.calls)
      → step_transaction s leave c w ≡ some (d, v)
      → Adds (Permitted c st) w.calls v.calls
  unfolding step_transaction
  step_transaction-Adds st leave d h rest e =
      let (r, er, eg) =
        bind_inv (is_transaction_stop_condition s c)
          (λ stop. if stop then notify c finishing else leave c) w e in
      Adds-trans (Permitted c st) w.calls r.1.calls v.calls
        (stop_condition-Adds s c w r.1 st r.0 h er) (rest r.0 r.1 eg)

  step_preparing-Adds :
      (d : Connector F)
      → step_preparing s c w ≡ some (d, v)
      → Adds (Permitted c preparing) w.calls v.calls
  unfolding step_preparing
  step_preparing-Adds d e =
      let (r, er, eg) = bind_inv (present_tag s c) (λ b. leave_preparing s b) w e in
      let (keeps, before) = present_tag-Adds s c w r.1 r.0 er in
      Adds-trans (Permitted c preparing) w.calls r.1.calls v.calls before
        (leave_preparing-Adds s c r.1 v r.0 d keeps eg)

  dispatch-Adds :
      (st : ChargePointStatus) (d : Connector F)
      → dispatch st s c w ≡ some (d, v)
      → Adds (Permitted c st) w.calls v.calls
  unfolding dispatch
  dispatch-Adds available d e = step_available-Adds s c w v d e
  dispatch-Adds preparing d e = step_preparing-Adds d e
  dispatch-Adds suspended_evse d e =
      step_transaction-Adds suspended_evse leave_suspended_evse d tt
        (λ stop u. leave_suspended_evse-Adds stop u d) e
  dispatch-Adds suspended_ev d e =
      step_transaction-Adds suspended_ev leave_suspended_ev d tt
        (λ stop u. leave_suspended_ev-Adds stop u d) e
  dispatch-Adds charging d e =
      step_transaction-Adds charging leave_charging d tt (λ stop u. leave_charging-Adds stop u d) e
  dispatch-Adds finishing d e = step_finishing-Adds s c w v d e
  dispatch-Adds reserved d e = step_reserved-Adds s c w v d e
  dispatch-Adds unavailable d e = ground (arith, Adds-refl (Permitted c unavailable) w.calls)
  dispatch-Adds faulted d e = step_faulted-Adds s c w v d e

  -- Every call on the stack that a pass makes for a connector is permitted in the status of the
  -- connector: status changes follow `Transition` under its conditions, a transaction starts only
  -- for a plugged car with an id tag, and stops only in a status of a transaction.
  pub step-Permitted :
      (d : Connector F) → step s c w ≡ some (d, v) → Adds (Permitted c c.status) w.calls v.calls
  unfolding step
  step-Permitted d e = dispatch-Adds c.status d e
