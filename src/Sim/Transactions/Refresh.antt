-- ===== src/Sim/Transactions/Refresh.antt =====
-- The part of an iteration before the passes: it makes the statuses tell which transactions are open, and touches none.
use mathlib.Core.Path.{subst}
use open_ocpp_simu.Common.{
  ℕ, Bool, true, false, ◌≡◌, ◌≢◌, refl, sym, ap, ◌∙◌, some, List, [], ◌∷◌, map, arith, All,
  Pairwise, if◌then◌else◌,
}
use open_ocpp_simu.Ocpp.{
  ChargePointStatus, ChargePointStatus-discrete, available, preparing, charging, suspended_evse,
  suspended_ev, finishing, reserved, unavailable, faulted, Calls, StackCall, Stack,
}
use open_ocpp_simu.Float.{FloatOps}
use open_ocpp_simu.Sim.World.{
  World, Connector, M, pure, bind_inv, reset_id_tag, get_connector_status,
}
use open_ocpp_simu.Sim.Setpoints.{
  Limits, apply_answer, get_setpoint, read_setpoints, limit_by_cable, total_connectors, scale,
  share, floor_setpoint, finish_setpoints, rate_unit,
}
use open_ocpp_simu.Sim.Later.{ids}
use open_ocpp_simu.Sim.Loop.{enter_status, refresh_status, for_each}
use open_ocpp_simu.Sim.Transactions.{in_transaction, shows_transaction}
use open_ocpp_simu.Sim.Transactions.Quiet.{Quiet, Quiet-trans}

-- The status that the stack gives is one of a running transaction exactly if the last one that was notified is.
pub record IsReflecting {F : Type 0} (s : Stack F) : Type 0 where
  pub reflects :
      (cs : Calls) (id : ℕ) → in_transaction (s.connector_status cs id) ≡ shows_transaction id cs

-- No two connectors have the same number.
abbrev pub Distinct : List ℕ → Type 0
Distinct [] = Unit
Distinct (i ∷ is) = All (λ j. j ≢ i) is × Distinct is

module _ {F : Type 0} ⦃f : FloatOps F⦄ (s : Stack F) where
  -- The status of the connector tells whether the last one notified is one of a running transaction.
  abbrev pub Tells : Calls → Connector F → Type 0
  Tells cs c = in_transaction c.status ≡ shows_transaction c.id cs

  abbrev pub QuietAll : Calls → Calls → Type 0
  QuietAll old new = (id : ℕ) → Quiet s id old new

  -- What the refresh of a connector leaves.
  abbrev Refreshed : Connector F → World F → Connector F × World F → Type 0
  Refreshed c w r = (r.0.id ≡ c.id) × Tells r.1.calls r.0 × QuietAll w.calls r.1.calls

  enter_status_lem :
      (st : ChargePointStatus) (c : Connector F) (w : World F) (r : Connector F × World F)
      → enter_status s st c w ≡ some r
      → (r.0.id ≡ c.id) × (r.0.status ≡ st) × (r.1.calls ≡ w.calls)
  unfolding enter_status reset_id_tag
  enter_status_lem available c w r e = ground arith
  enter_status_lem preparing c w r e = ground arith
  enter_status_lem charging c w r e = ground arith
  enter_status_lem suspended_evse c w r e = ground arith
  enter_status_lem suspended_ev c w r e = ground arith
  enter_status_lem finishing c w r e = ground arith
  enter_status_lem reserved c w r e = ground arith
  enter_status_lem unavailable c w r e = ground arith
  enter_status_lem faulted c w r e = ground arith

  refresh_status_lem :
      (c : Connector F) (w : World F) (r : Connector F × World F)
      → IsReflecting s
      → refresh_status s c w ≡ some r
      → Refreshed c w r
  unfolding refresh_status get_connector_status
  refresh_status_lem c w r h e =
      go (ChargePointStatus-discrete (s.connector_status w.calls c.id) c.status) e
    where
      asked : World F
      asked = record w { calls = StackCall.get_connector_status c.id ∷ w.calls }

      go :
          (b : Dec (s.connector_status w.calls c.id ≡ c.status))
          → let m : M F (Connector F) = elim b [
            | yes _ ↦ pure c
            | no _ ↦ enter_status s (s.connector_status w.calls c.id) c
          ] in
            m asked ≡ some r → Refreshed c w r
      go (yes same) e =
          let eq : (c, asked) ≡ r = ground (arith, e) in
          subst (Refreshed c w) eq (
            refl,
            ap in_transaction (sym same) ∙ h.reflects w.calls c.id,
            λ id. (refl, refl, λ a. a),
          )
      go (no _) e =
          let (i, st, cs) = enter_status_lem (s.connector_status w.calls c.id) c asked r e in
          (
            i,
            ap in_transaction st ∙ h.reflects w.calls c.id ∙ rw (i, cs) refl,
            λ id. rw cs (refl, refl, λ a. a),
          )

  pub Quiet-Tells :
      (old new : Calls) (cs : List (Connector F))
      → QuietAll old new
      → All (Tells old) cs
      → All (Tells new) cs
  Quiet-Tells old new [] q h = tt
  Quiet-Tells old new (c ∷ cs) q h = (h.0 ∙ sym (q c.id).1, Quiet-Tells old new cs q h.1)

  abbrev pub RefreshedAll : List (Connector F) → World F → List (Connector F) × World F → Type 0
  RefreshedAll cs w r = (ids r.0 ≡ ids cs) × All (Tells r.1.calls) r.0 × QuietAll w.calls r.1.calls

  pub refresh_all_lem :
      (cs : List (Connector F)) (w : World F) (r : List (Connector F) × World F)
      → IsReflecting s
      → for_each (refresh_status s) cs w ≡ some r
      → RefreshedAll cs w r
  unfolding for_each
  refresh_all_lem [] w r h e =
      let eq : ([], w) ≡ r = ground (arith, e) in
      subst (RefreshedAll [] w) eq (refl, tt, λ id. (refl, refl, λ a. a))
  refresh_all_lem (c ∷ cs) w r h e =
      let (q, eq, g) = bind_inv (refresh_status s c) _ w e in
      let (t, et, k) = bind_inv (for_each (refresh_status s) cs) _ q.1 g in
      let (i, tells, quiet) = refresh_status_lem c w q h eq in
      let (is, all, rest) = refresh_all_lem cs q.1 t h et in
      let same : (q.0 ∷ t.0, t.1) ≡ r = ground (arith, k) in
      subst (RefreshedAll (c ∷ cs) w) same (
        cc,
        (tells ∙ sym (rest q.0.id).1, all),
        λ id. Quiet-trans s id w.calls q.1.calls t.1.calls (quiet id) (rest id),
      )

  -- What keeps the numbers and the statuses, and calls the stack only for the limits.
  abbrev pub SameStatus : Connector F → Connector F → Type 0
  SameStatus c d = (d.id ≡ c.id) × (d.status ≡ c.status)

  pub SameStatus-Tells :
      (calls : Calls) (cs ds : List (Connector F))
      → Pairwise SameStatus cs ds
      → All (Tells calls) cs
      → All (Tells calls) ds
  SameStatus-Tells calls [] [] p h = tt
  SameStatus-Tells calls (c ∷ cs) (d ∷ ds) p h =
      let i = p.0.0 in let st = p.0.1 in (rw (i, st) h.0, SameStatus-Tells calls cs ds p.1 h.1)
  SameStatus-Tells calls [] (d ∷ ds) p h = elim p [ ]
  SameStatus-Tells calls (c ∷ cs) [] p h = elim p [ ]

  pub SameStatus-ids : (cs ds : List (Connector F)) → Pairwise SameStatus cs ds → ids ds ≡ ids cs
  SameStatus-ids [] [] p = refl
  SameStatus-ids (c ∷ cs) (d ∷ ds) p = let k = SameStatus-ids cs ds p.1 in let i = p.0.0 in cc
  SameStatus-ids [] (d ∷ ds) p = elim p [ ]
  SameStatus-ids (c ∷ cs) [] p = elim p [ ]

  SameStatus-map :
      (g : Connector F → Connector F)
      → ((c : Connector F) → SameStatus c (g c))
      → (cs : List (Connector F)) → Pairwise SameStatus cs (map g cs)
  SameStatus-map g h [] = tt
  SameStatus-map g h (c ∷ cs) = (h c, SameStatus-map g h cs)

  pub SameStatus-trans :
      (cs ds es : List (Connector F))
      → Pairwise SameStatus cs ds
      → Pairwise SameStatus ds es
      → Pairwise SameStatus cs es
  SameStatus-trans [] [] [] h k = tt
  SameStatus-trans (c ∷ cs) (d ∷ ds) (e ∷ es) h k =
      ((k.0.0 ∙ h.0.0, k.0.1 ∙ h.0.1), SameStatus-trans cs ds es h.1 k.1)
  SameStatus-trans [] [] (e ∷ es) h k = k
  SameStatus-trans [] (d ∷ ds) es h k = elim h [ ]
  SameStatus-trans (c ∷ cs) [] es h k = elim h [ ]
  SameStatus-trans (c ∷ cs) (d ∷ ds) [] h k = elim k [ ]

  abbrev pub Limited : List (Connector F) → World F → List (Connector F) → World F → Type 0
  Limited cs w ds v = Pairwise SameStatus cs ds × QuietAll w.calls v.calls

  pub read_setpoints_lem :
      (cs : List (Connector F)) (l : Limits F) (w : World F)
      (r : (List (Connector F) × Limits F) × World F)
      → read_setpoints s cs l w ≡ some r
      → Limited cs w r.0.0 r.1
  unfolding read_setpoints get_setpoint apply_answer
  read_setpoints_lem [] l w r e =
      let eq : (([], l), w) ≡ r = ground (arith, e) in
      subst (λ (q : (List (Connector F) × Limits F) × World F). Limited [] w q.0.0 q.1) eq
        (tt, λ id. (refl, refl, λ a. a))
  read_setpoints_lem (c ∷ cs) l w r e =
      let unit = rate_unit c.meter.current_out_type in
      let a = s.setpoints w.calls c.id l.charge_point_setpoint l.connector_setpoint unit in
      let v : World F = record w { calls = StackCall.get_setpoint c.id unit ∷ w.calls } in
      let q = apply_answer a l c in
      let (t, et, k) = bind_inv (read_setpoints s cs q.1) _ v e in
      let (p, quiet) = read_setpoints_lem cs q.1 v t et in
      let same : ((q.0 ∷ t.0.0, t.0.1), t.1) ≡ r = ground (arith, k) in
      subst (λ (b : (List (Connector F) × Limits F) × World F). Limited (c ∷ cs) w b.0.0 b.1) same
        (((refl, refl), p), λ id. quiet id)

  map_id : (cs : List (Connector F)) → map (λ c. c) cs ≡ cs
  map_id [] = refl
  map_id (c ∷ cs) = ap (λ ds. c ∷ ds) (map_id cs)

  share-SameStatus : (whole : F) (cs : List (Connector F)) → Pairwise SameStatus cs (share whole cs)
  unfolding share scale
  share-SameStatus whole cs = go (f.lt whole (total_connectors f.nought cs))
    where
      go :
          (b : Bool)
          → Pairwise SameStatus cs
              (if b then map (scale (f.div whole (total_connectors f.nought cs))) cs else cs)
      go true = SameStatus-map _ (λ c. (refl, refl)) cs
      go false =
          subst (Pairwise SameStatus cs) (map_id cs)
            (SameStatus-map (λ c. c) (λ c. (refl, refl)) cs)

  pub finish_setpoints-SameStatus :
      (whole : F) (cs : List (Connector F)) → Pairwise SameStatus cs (finish_setpoints whole cs)
  unfolding finish_setpoints limit_by_cable floor_setpoint
  finish_setpoints-SameStatus whole cs =
      let ds = map limit_by_cable cs in
      SameStatus-trans cs (share whole ds) (map floor_setpoint (share whole ds))
        (SameStatus-trans cs ds (share whole ds)
          (SameStatus-map limit_by_cable (λ c. (refl, refl)) cs) (share-SameStatus whole ds))
        (SameStatus-map floor_setpoint (λ c. (refl, refl)) (share whole ds))
