-- ===== src/Sim/Setpoints/Bounds.antt =====
-- No setpoint exceeds what the connector, the cable and the central system allow.
use open_ocpp_simu.Common.{
  ℕ, Bool, true, false, ◌≡◌, refl, List, [], ◌∷◌, map, Option, none, some, arith, All, All-map,
  All-imp, Bool-cases, inl, inr, if◌then◌else◌,
}
use open_ocpp_simu.Ocpp.{Calls, StackCall, ChargingRateUnitType, Stack}
use open_ocpp_simu.Float.{FloatOps, ◌≼◌, IsNumber, IsIeee}
use open_ocpp_simu.Sim.World.{World, Connector, bind_eq}
use open_ocpp_simu.Sim.Setpoints.{
  Limits, rate_unit, lowered, apply_answer, get_setpoint, read_setpoints, limit_by_cable,
  total_connectors, scale, share, floor_setpoint, finish_setpoints, compute_setpoints,
}

module _ {F : Type 0} ⦃f : FloatOps F⦄ where
  -- The maximum is a cast of an unsigned int, and the cable's capacity is not NaN.
  pub record IsRated (c : Connector F) : Type 0 where
    pub amount : ℕ
    pub max_cast : c.max_setpoint ≡ f.of_uint amount
    pub cable_number : IsNumber c.car_cable_capacity

  -- The OCPP setpoint is within the maximum.
  pub record IsRead (c : Connector F) : Type 0 where
    pub rated : IsRated c
    pub ocpp_le : c.ocpp_setpoint ≼ c.max_setpoint

  -- The setpoint is within the maximum, the OCPP setpoint and the cable's capacity.
  pub record IsLimited (c : Connector F) : Type 0 where
    pub within_max : c.setpoint ≼ c.max_setpoint
    pub within_ocpp : c.setpoint ≼ c.ocpp_setpoint
    pub within_cable : c.setpoint ≼ c.car_cable_capacity

  -- Limits for the whole charge point are not negative.
  abbrev pub NotNegative : Option F → Type 0
  NotNegative none = Unit {0}
  NotNegative (some v) = f.nought ≼ v

  pub record LimitsWhole (s : Stack F) : Type 0 where
    pub not_negative :
        (calls : Calls) (id : ℕ) (cp con : Option F) (unit : ChargingRateUnitType)
        → NotNegative cp
        → NotNegative (s.setpoints calls id cp con unit).1

  module _ (laws : IsIeee F) where
    open laws use {
      number_of_le, le_trans, lt-eq-not-le, le_of_lt, of_uint-ge, floor-le, div-bounds, mul-bounds,
    }

    max-IsNumber : (c : Connector F) → IsRated c → IsNumber c.max_setpoint
    max-IsNumber c r =
        rw r.max_cast (number_of_le f.nought (f.of_uint r.amount) (of_uint-ge r.amount)).1

    lowered-le : (o : Option F) (limit : F) → IsNumber limit → lowered o limit ≼ limit
    lowered-le none limit h = h
    lowered-le (some v) limit h = ground (arith, le_of_lt v limit)

    lowered-NotNegative :
        (o : Option F) (limit : F) → NotNegative o → f.nought ≼ limit → f.nought ≼ lowered o limit
    lowered-NotNegative none limit h k = k
    lowered-NotNegative (some v) limit h k = ground arith

    limit_by_cable-IsLimited : (c : Connector F) → IsRead c → IsLimited (limit_by_cable c)
    unfolding limit_by_cable
    limit_by_cable-IsLimited c r =
        let (on, mn) = number_of_le c.ocpp_setpoint c.max_setpoint r.ocpp_le in
        let cn = r.rated.cable_number in
        ground (
          arith,
          lt-eq-not-le c.car_cable_capacity c.ocpp_setpoint cn on,
          le_of_lt c.car_cable_capacity c.ocpp_setpoint,
          le_trans c.car_cable_capacity c.ocpp_setpoint c.max_setpoint,
        )

    abbrev Safe : Connector F → Type 0
    Safe c = IsRated c × IsLimited c

    limit_by_cable-Safe : (c : Connector F) → IsRead c → Safe (limit_by_cable c)
    unfolding limit_by_cable
    limit_by_cable-Safe c r = (
      record {
        amount = r.rated.amount;
        max_cast = r.rated.max_cast;
        cable_number = r.rated.cable_number;
      },
      limit_by_cable-IsLimited c r,
    )

    -- A connector whose setpoint is lowered stays within its limits.
    lower-Safe :
        (c : Connector F) (x : F) → x ≼ c.setpoint → Safe c → Safe (record c { setpoint = x })
    lower-Safe c x h (r, l) = (
      record { amount = r.amount; max_cast = r.max_cast; cable_number = r.cable_number },
      record {
        within_max = le_trans x c.setpoint c.max_setpoint h l.within_max;
        within_ocpp = le_trans x c.setpoint c.ocpp_setpoint h l.within_ocpp;
        within_cable = le_trans x c.setpoint c.car_cable_capacity h l.within_cable;
      },
    )

    floor-Safe : (c : Connector F) → Safe c → Safe (floor_setpoint c)
    unfolding floor_setpoint
    floor-Safe c h =
        lower-Safe c (f.floor c.setpoint)
          (floor-le c.setpoint (number_of_le c.setpoint c.max_setpoint h.1.within_max).0) h

    scaled-le :
        (whole total : F) (c : Connector F)
        → f.nought ≼ whole
        → f.lt whole total ≡ true
        → Safe c
        → (if f.lt f.nought c.setpoint then f.mul c.setpoint (f.div whole total) else c.setpoint)
          ≼ c.setpoint
    scaled-le whole total c hw ht (r, l) = elim (Bool-cases (f.lt f.nought c.setpoint)) [
      | inl positive ↦
          let (lo, hi) = div-bounds whole total hw ht in
          let cast : c.setpoint ≼ f.of_uint r.amount = rw r.max_cast at l.within_max in
          rw positive
            (mul-bounds c.setpoint (f.div whole total) r.amount
              (le_of_lt f.nought c.setpoint positive) cast lo hi).1
      | inr other ↦ rw other (number_of_le c.setpoint c.max_setpoint l.within_max).0
    ]

    share-Safe :
        (whole : F) (cs : List (Connector F))
        → f.nought ≼ whole
        → All Safe cs
        → All Safe (share whole cs)
    unfolding share scale
    share-Safe whole cs hw h =
        let total = total_connectors f.nought cs in
        elim (Bool-cases (f.lt whole total)) [
          | inl over ↦ rw over (
              All-map Safe Safe (scale (f.div whole total)) cs
                (λ c hc. lower-Safe c _ (scaled-le whole total c hw over hc) hc) h)
          | inr fits ↦ rw fits h
        ]

    finish-Safe :
        (whole : F) (cs : List (Connector F))
        → f.nought ≼ whole
        → All IsRead cs
        → All Safe (finish_setpoints whole cs)
    unfolding finish_setpoints
    finish-Safe whole cs hw h = All-map Safe Safe floor_setpoint _ floor-Safe (
        share-Safe whole (map limit_by_cable cs) hw
          (All-map IsRead Safe limit_by_cable cs limit_by_cable-Safe h))

    -- What the loop variables satisfy between two rounds of the first loop.
    abbrev IsLimits : Limits F → Type 0
    IsLimits l = IsNumber l.whole × (f.nought ≼ l.whole) × NotNegative l.charge_point_setpoint

    IsRated-of : (c : Connector F) {x : F} → IsRated c → IsRated (record c { ocpp_setpoint = x })
    IsRated-of c r = record {
      amount = r.amount;
      max_cast = r.max_cast;
      cable_number = r.cable_number;
    }

    apply_answer_lem :
        (found : Bool) (cp con : Option F) (l : Limits F) (c : Connector F)
        → IsRated c
        → IsLimits l
        → NotNegative cp
        → let q = apply_answer (found, cp, con) l c in IsRead q.0 × IsLimits q.1
    unfolding apply_answer
    apply_answer_lem false cp con l c r h n =
        (record { rated = IsRated-of c r; ocpp_le = max-IsNumber c r }, (h.0, h.1, n))
    apply_answer_lem true cp con l c r h n = (
      record { rated = IsRated-of c r; ocpp_le = lowered-le con c.max_setpoint (max-IsNumber c r) },
      (
        (number_of_le (lowered cp l.whole) l.whole (lowered-le cp l.whole h.0)).0,
        lowered-NotNegative cp l.whole n h.1,
        n,
      ),
    )

    read_setpoints_lem :
        (s : Stack F) (cs : List (Connector F)) (l : Limits F) (w : World F)
        → LimitsWhole s
        → All IsRated cs
        → IsLimits l
        → (r : (List (Connector F) × Limits F) × World F) × (read_setpoints s cs l w ≡ some r)
          × All IsRead r.0.0
          × (f.nought ≼ r.0.1.whole)
    unfolding read_setpoints get_setpoint
    read_setpoints_lem s [] l w n h hl = ((([], l), w), refl, tt, hl.1)
    read_setpoints_lem s (c ∷ cs) l w n h hl =
        let unit = rate_unit c.meter.current_out_type in
        let a = s.setpoints w.calls c.id l.charge_point_setpoint l.connector_setpoint unit in
        let v : World F = record w { calls = StackCall.get_setpoint c.id unit ∷ w.calls } in
        let sign =
          n.not_negative w.calls c.id l.charge_point_setpoint l.connector_setpoint unit hl.2 in
        let (read, limits) = apply_answer_lem a.0 a.1 a.2 l c h.0 hl sign in
        let q = apply_answer a l c in
        let (r, er, all, whole) = read_setpoints_lem s cs q.1 v n h.1 limits in
        (
          ((q.0 ∷ r.0.0, r.0.1), r.1),
          bind_eq (read_setpoints s cs q.1) _ v r er,
          (read, all),
          whole,
        )

    -- `computeSetpoints` always completes, and leaves every setpoint within the maximum of the
    -- connector, its OCPP setpoint and the capacity of the cable, if the floats have the laws of
    -- IEEE 754, the maximum of the charge point is not negative, the maximum of each connector is a
    -- cast of an unsigned int, no capacity is NaN, and no limit for the whole charge point is negative.
    pub compute_setpoints-IsLimited :
        (max : F) (s : Stack F) (cs : List (Connector F)) (w : World F)
        → LimitsWhole s
        → f.nought ≼ max
        → All IsRated cs
        → (r : List (Connector F) × World F) × (compute_setpoints max s cs w ≡ some r)
          × All IsLimited r.0
    unfolding compute_setpoints
    compute_setpoints-IsLimited max s cs w n hm h =
        let l : Limits F = record {
          whole = max;
          charge_point_setpoint = none;
          connector_setpoint = none;
        } in
        let (r, er, all, whole) =
          read_setpoints_lem s cs l w n h ((number_of_le f.nought max hm).1, hm, tt) in
        let ds = finish_setpoints r.0.1.whole r.0.0 in
        (
          (ds, r.1),
          bind_eq (read_setpoints s cs l) _ w r er,
          All-imp Safe IsLimited ds (λ c q. q.1) (finish-Safe r.0.1.whole r.0.0 whole all),
        )
