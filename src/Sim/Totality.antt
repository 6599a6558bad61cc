-- ===== src/Sim/Totality.antt =====
-- A pass over a connector never indexes out of bounds.
use mathlib.Core.Path.{subst}
use open_ocpp_simu.Common.{
  ℕ, Bool, true, false, not, ◌&&◌, ◌≡◌, refl, [], is_empty, leb, Text, if◌then◌else◌, ◌+◌, some,
}
use open_ocpp_simu.Ocpp.{
  ChargePointStatus, available, preparing, charging, suspended_evse, suspended_ev, finishing,
  reserved, unavailable, faulted, Reason, local, remote, ev_disconnected, other, Stack,
}
use open_ocpp_simu.Float.{FloatOps}
use open_ocpp_simu.Sim.World.{
  World, Connector, M, ◌>>=◌, ◌>>◌, pure, notify, is_authorized, is_accepted, stop_transaction,
}
use open_ocpp_simu.Sim.IdTag.{
  with_tags, is_plugged, local_tag, remote_authorize, remote_tag, is_valid_id_tag_present,
  local_stop, car_stop, remote_or_car_stop, is_transaction_stop_condition,
}
use open_ocpp_simu.Sim.Step.{
  is_limited, fault_or_unavailable, step_available, present_tag, start_charge, check_timeout,
  leave_preparing, step_preparing, leave_suspended_evse, leave_suspended_ev, leave_charging,
  step_transaction, step_finishing, step_reserved, step_faulted, dispatch, step,
}
use open_ocpp_simu.Sim.Runs.{
  Fits, SameShape, SameShape-refl, Runs, Any, Runs-bind, Runs-imp, Runs-if, Runs-pure,
  id_tag_pending-Runs, id_tag_of-Runs, reset_id_tag-Runs, remote_start_pending-Runs,
  remote_start_tag-Runs, reset_remote_start-Runs, remote_stop_pending-Runs, reset_remote_stop-Runs,
  call-Runs, authorize-Runs, start_transaction-Runs, notify-Runs,
}

-- The connector with the number and the meter of the first one.
abbrev pub Same : {F : Type 0} → Connector F → Connector F → Type 0
Same c d = (d.id ≡ c.id) × (d.meter ≡ c.meter)

-- The result of `isValidIdTagPresent` is about the connector that it was given.
abbrev AnswerOf : {F : Type 0} → Connector F → Bool × Connector F → Type 0
AnswerOf c r = Same c r.1

module _ {F : Type 0} ⦃f : FloatOps F⦄ (s : Stack F) (c : Connector F) where
  local_tag-Runs : Runs c.id (AnswerOf c) (local_tag s c)
  unfolding local_tag
  local_tag-Runs = Runs-bind c.id Any (AnswerOf c) _ _ (id_tag_of-Runs c.id) λ tag _.
      Runs-bind c.id Any (AnswerOf c) _ _ (authorize-Runs c.id s tag c.parent_id_tag) λ a _.
        Runs-bind c.id Any (AnswerOf c) _ _ (reset_id_tag-Runs c.id)
          λ _ _. Runs-pure c.id (AnswerOf c) _ (refl, refl)

  remote_authorize-Runs : (tag : Text) → Runs c.id (AnswerOf c) (remote_authorize s c tag)
  unfolding remote_authorize
  remote_authorize-Runs tag =
      Runs-if c.id (AnswerOf c) s.authorize_remote_tx_requests _ _
        (λ _.
          Runs-bind c.id Any (AnswerOf c) _ _ (authorize-Runs c.id s tag c.parent_id_tag)
            λ a _. Runs-pure c.id (AnswerOf c) _ (refl, refl))
        (λ _. Runs-pure c.id (AnswerOf c) _ (refl, refl))

  remote_tag-Runs : Runs c.id (AnswerOf c) (remote_tag s c)
  unfolding remote_tag
  remote_tag-Runs =
      Runs-bind c.id Any (AnswerOf c) _ _ (remote_start_pending-Runs c.id) λ pending _.
        Runs-if c.id (AnswerOf c) pending _ _
          (λ _. Runs-bind c.id Any (AnswerOf c) _ _ (remote_start_tag-Runs c.id) λ tag _.
            Runs-bind c.id (AnswerOf c) (AnswerOf c) _ _ (remote_authorize-Runs tag) λ a q.
              Runs-bind c.id Any (AnswerOf c) _ _ (reset_remote_start-Runs c.id)
                λ _ _. Runs-pure c.id (AnswerOf c) a q)
          (λ _. Runs-pure c.id (AnswerOf c) _ (refl, refl))

  AnswerOf-clear :
      (r : Bool × Connector F)
      → AnswerOf c r
      → AnswerOf c (r.0, if r.0 then r.1 else with_tags r.1 [] [])
  AnswerOf-clear (true, d) h = h
  AnswerOf-clear (false, d) h = h

  is_valid-Runs : (lo : Bool) → Runs c.id (AnswerOf c) (is_valid_id_tag_present s c lo)
  unfolding is_valid_id_tag_present
  is_valid-Runs lo = Runs-bind c.id Any (AnswerOf c) _ _ (id_tag_pending-Runs c.id) λ pending _.
      Runs-bind c.id (AnswerOf c) (AnswerOf c) _ _
        (Runs-if c.id (AnswerOf c) pending _ _ (λ _. local_tag-Runs)
          (λ _.
            Runs-if c.id (AnswerOf c) lo _ _ (λ _. Runs-pure c.id (AnswerOf c) _ (refl, refl))
              (λ _. remote_tag-Runs)))
        λ r q. Runs-pure c.id (AnswerOf c) _ (AnswerOf-clear r q)

  stop-Runs :
      (tag : Text) (r : Reason) → Runs {F = F} c.id Any (stop_transaction c.id tag r >> pure true)
  unfolding stop_transaction
  stop-Runs tag r = Runs-bind c.id Any Any _ _ (call-Runs c.id _) λ _ _. Runs-pure c.id Any true tt

  stop_condition-Runs : Runs c.id Any (is_transaction_stop_condition s c)
  unfolding is_transaction_stop_condition local_stop remote_or_car_stop car_stop
  stop_condition-Runs = Runs-bind c.id Any Any _ _ (id_tag_pending-Runs c.id) λ pending _.
      Runs-if c.id Any pending _ _
        (λ _. Runs-bind c.id Any Any _ _ (id_tag_of-Runs c.id) λ tag _.
          Runs-bind c.id Any Any _ _ (authorize-Runs c.id s tag []) λ a _.
            Runs-bind c.id Any Any _ _ (reset_id_tag-Runs c.id) λ _ _.
              Runs-if c.id Any (is_accepted a.0) _ _ (λ _. stop-Runs tag local)
                (λ _. Runs-pure c.id Any false tt))
        (λ _. Runs-bind c.id Any Any _ _ (remote_stop_pending-Runs c.id) λ stop _.
          Runs-if c.id Any stop _ _
            (λ _.
              Runs-bind c.id Any Any _ _ (reset_remote_stop-Runs c.id) λ _ _. stop-Runs [] remote)
            (λ _.
              Runs-if c.id Any (not (is_plugged c)) _ _ (λ _. stop-Runs [] ev_disconnected)
                (λ _.
                  Runs-if c.id Any c.fault_pending _ _ (λ _. stop-Runs [] other)
                    (λ _. Runs-pure c.id Any false tt))))

module _ {F : Type 0} ⦃f : FloatOps F⦄ where
  notified : (c : Connector F) (st : ChargePointStatus) → Runs c.id (Same c) (notify c st)
  notified c st = notify-Runs c.id (Same c) c st (refl, refl)

  kept : (c : Connector F) → Runs {F = F} c.id (Same c) (pure c)
  kept c = Runs-pure c.id (Same c) c (refl, refl)

  -- What runs for the result runs for the connector.
  same_number :
      (d c : Connector F) (m : M F (Connector F))
      → Same c d
      → Runs d.id (Same d) m
      → Runs c.id (Same c) m
  same_number d c m e h =
      Runs-imp c.id (Same d) (Same c) m (λ a q. (cc, cc))
        (subst (λ (k : ℕ). Runs k (Same d) m) e.0 h)

  fault_or_unavailable-Runs : (c : Connector F) → Runs c.id (Same c) (fault_or_unavailable c)
  unfolding fault_or_unavailable
  fault_or_unavailable-Runs c =
      Runs-if c.id (Same c) c.fault_pending _ _ (λ _. notified c faulted)
        (λ _.
          Runs-if c.id (Same c) c.unavailable_pending _ _ (λ _. notified c unavailable)
            (λ _. kept c))

  -- The part that `Available` and `Reserved` share.
  tag_or_fault-Runs :
      (s : Stack F) (c : Connector F)
      → Runs c.id (Same c) (
          is_valid_id_tag_present s c false >>= λ valid.
          if valid.0 then notify valid.1 preparing else fault_or_unavailable valid.1)
  tag_or_fault-Runs s c = Runs-bind c.id (AnswerOf c) (Same c) _ _ (is_valid-Runs s c false) λ r q.
      same_number r.1 c _ q (
        Runs-if r.1.id (Same r.1) r.0 _ _ (λ _. notified r.1 preparing)
          (λ _. fault_or_unavailable-Runs r.1))

  leave_preparing-Runs : (s : Stack F) (c : Connector F) → Runs c.id (Same c) (leave_preparing s c)
  unfolding leave_preparing start_charge check_timeout
  leave_preparing-Runs s c =
      Runs-if c.id (Same c) (is_plugged c && not (is_empty c.id_tag)) _ _
        (λ _. Runs-bind c.id Any (Same c) _ _ (start_transaction-Runs c.id s c.id_tag) λ a _.
          Runs-if c.id (Same c) (is_authorized a) _ _
            (λ _.
              Runs-if c.id (Same c) (is_limited c) _ _ (λ _. notified c suspended_evse)
                (λ _.
                  Runs-if c.id (Same c) (not c.car_ready) _ _ (λ _. notified c suspended_ev)
                    (λ _. notified c charging)))
            (λ _. Runs-pure c.id (Same c) _ (refl, refl)))
        (λ _.
          Runs-if c.id (Same c) (not (is_plugged c) && is_empty c.id_tag) _ _
            (λ _. notified c available)
            (λ _.
              Runs-if c.id (Same c) c.fault_pending _ _ (λ _. notified c preparing)
                (λ _ w fits.
                  Runs-if c.id (Same c)
                    (leb (s.connection_time_out + c.preparing_start) (s.now w.calls)) _ _
                    (λ _. notified c available) (λ _. kept c) w fits)))

  present_tag-Runs : (s : Stack F) (c : Connector F) → Runs c.id (Same c) (present_tag s c)
  unfolding present_tag
  present_tag-Runs s c =
      Runs-if c.id (Same c) (is_empty c.id_tag) _ _
        (λ _.
          Runs-bind c.id (AnswerOf c) (Same c) _ _ (is_valid-Runs s c false)
            λ r q w fits. (_, refl, SameShape-refl w, restarted r (s.now w.calls) q))
        (λ _. kept c)
    where
      restarted :
          (r : Bool × Connector F) (now : ℕ)
          → AnswerOf c r
          → Same c (if r.0 then record r.1 { preparing_start = now } else r.1)
      restarted (true, d) now q = q
      restarted (false, d) now q = q

  step_preparing-Runs : (s : Stack F) (c : Connector F) → Runs c.id (Same c) (step_preparing s c)
  unfolding step_preparing
  step_preparing-Runs s c =
      Runs-bind c.id (Same c) (Same c) _ _ (present_tag-Runs s c)
        λ d q. same_number d c _ q (leave_preparing-Runs s d)

  step_transaction-Runs :
      (s : Stack F) (leave : Connector F → M F (Connector F)) (c : Connector F)
      → Runs c.id (Same c) (leave c)
      → Runs c.id (Same c) (step_transaction s leave c)
  unfolding step_transaction
  step_transaction-Runs s leave c h =
      Runs-bind c.id Any (Same c) _ _ (stop_condition-Runs s c)
        λ stop _. Runs-if c.id (Same c) stop _ _ (λ _. notified c finishing) (λ _. h)

  leave-Runs :
      (c : Connector F)
      → Runs c.id (Same c) (leave_suspended_evse c)
        × Runs c.id (Same c) (leave_suspended_ev c)
        × Runs c.id (Same c) (leave_charging c)
  unfolding leave_suspended_evse leave_suspended_ev leave_charging
  leave-Runs c = (
    Runs-if c.id (Same c) (not (is_limited c)) _ _
        (λ _.
          Runs-if c.id (Same c) (not c.car_ready) _ _ (λ _. notified c suspended_ev)
            (λ _. notified c charging))
        (λ _. kept c),
    Runs-if c.id (Same c) (is_limited c) _ _ (λ _. notified c suspended_evse)
        (λ _. Runs-if c.id (Same c) c.car_ready _ _ (λ _. notified c charging) (λ _. kept c)),
    Runs-if c.id (Same c) (is_limited c) _ _ (λ _. notified c suspended_evse)
        (λ _.
          Runs-if c.id (Same c) (not c.car_ready) _ _ (λ _. notified c suspended_ev) (λ _. kept c)),
  )

  dispatch-Runs :
      (st : ChargePointStatus) (s : Stack F) (c : Connector F)
      → Runs c.id (Same c) (dispatch st s c)
  unfolding dispatch step_available step_reserved step_finishing step_faulted
  dispatch-Runs available s c =
      Runs-if c.id (Same c) (is_plugged c) _ _ (λ _. notified c preparing)
        (λ _. tag_or_fault-Runs s c)
  dispatch-Runs preparing s c = step_preparing-Runs s c
  dispatch-Runs suspended_evse s c = step_transaction-Runs s leave_suspended_evse c (leave-Runs c).0
  dispatch-Runs suspended_ev s c = step_transaction-Runs s leave_suspended_ev c (leave-Runs c).1
  dispatch-Runs charging s c = step_transaction-Runs s leave_charging c (leave-Runs c).2
  dispatch-Runs finishing s c =
      Runs-if c.id (Same c) c.fault_pending _ _
        (λ _. Runs-bind c.id Any (Same c) _ _ (call-Runs c.id _) λ _ _. kept c)
        (λ _.
          Runs-if c.id (Same c) (not (is_plugged c)) _ _ (λ _. notified c available) (λ _. kept c))
  dispatch-Runs reserved s c = tag_or_fault-Runs s c
  dispatch-Runs unavailable s c = kept c
  dispatch-Runs faulted s c =
      Runs-if c.id (Same c) (not c.fault_pending) _ _ (λ _. notified c available)
        (λ _.
          Runs-if c.id (Same c) c.unavailable_pending _ _ (λ _. notified c unavailable)
            (λ _. kept c))

  -- A pass over a connector whose number is within every vector that it indexes always completes, with
  -- no access out of bounds, and keeps the sizes of the vectors, the flags that end the loop, and the number and the meter of the
  -- connector.
  pub step_total :
      (s : Stack F) (c : Connector F) (w : World F)
      → Fits c.id w
      → (r : Connector F × World F) × (step s c w ≡ some r) × SameShape w r.1 × Same c r.0
  unfolding step
  step_total s c w fits = dispatch-Runs c.status s c w fits
