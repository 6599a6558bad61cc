-- ===== src/Handler/Pending.antt =====
-- A request of the central system reaches the flags that the control loop looks at.

use open_ocpp_simu.Common.{
  ℕ, zero, suc, ◌+◌, ◌<◌, ◌≤◌, ◌≡◌, ◌≢◌, refl, Bool, true, false, none, some, List, Text, slot,
  modify_slot, arith, slot_total, IsSlot, modify_slot_total, slot-modify_slot_self,
  slot-modify_slot_ne, inl, inr, Bool-cases,
}
use native.Mathlib.Decide.{ℕ_discrete}
use open_ocpp_simu.Ocpp.{ChargePointStatus}
use open_ocpp_simu.Handler.{
  Handler, is_remote_start_pending, remote_start_id_tag, is_remote_stop_pending,
}
use open_ocpp_simu.Sim.World.{Connector}
use open_ocpp_simu.Handler.Requests.{
  flag_remote_start, start_first, remote_start_transaction_requested,
  remote_stop_transaction_requested, change_one, change_availability_requested, AvailabilityType,
}

-- The connector has a vector entry for its remote start.
abbrev pub HasStart : ℕ → Handler → Type 0
HasStart id h = IsSlot h.remote_start_pending id × IsSlot h.remote_start_id_tags id

-- The remote start of this connector is pending with the id tag, the remote starts of the others and
-- the stops are as before.
abbrev pub Started : ℕ → Text → Handler → Handler → Type 0
Started id tag h g =
    (is_remote_start_pending g id ≡ some true)
    × (remote_start_id_tag g id ≡ some tag)
    × (g.remote_stop_pending ≡ h.remote_stop_pending)
    × ((other : ℕ)
        → id ≢ other
        → (is_remote_start_pending g other ≡ is_remote_start_pending h other)
          × (remote_start_id_tag g other ≡ remote_start_id_tag h other))

flag_remote_start_lem :
    (id : ℕ) (tag : Text) (h : Handler)
    → HasStart id h
    → (g : Handler) × (flag_remote_start id tag h ≡ some g) × Started id tag h g
unfolding flag_remote_start is_remote_start_pending remote_start_id_tag
flag_remote_start_lem id tag h has =
    let (a, ea) = slot_total h.remote_start_pending id has.0 in
    let (ps, ep, _) = modify_slot_total h.remote_start_pending id (λ _. true) has.0 in
    let (b, eb) = slot_total h.remote_start_id_tags id has.1 in
    let (ts, et, _) = modify_slot_total h.remote_start_id_tags id (λ _. tag) has.1 in
    (
      record h { remote_start_pending = ps; remote_start_id_tags = ts },
      rw (flag_remote_start, ep, et) refl,
      (
        slot-modify_slot_self h.remote_start_pending ps id (λ _. true) a ea ep,
        slot-modify_slot_self h.remote_start_id_tags ts id (λ _. tag) b eb et,
        refl,
        λ other ne. (
          slot-modify_slot_ne h.remote_start_pending ps id other (λ _. true) ep ne,
          slot-modify_slot_ne h.remote_start_id_tags ts id other (λ _. tag) et ne,
        ),
      ),
    )

-- The outcome of the search from the number `i` on: the first connector whose status comes before
-- `Charging`, or none.
abbrev pub Chosen :
    (ℕ → ChargePointStatus)
    → (ChargePointStatus → Bool)
    → Text
    → ℕ
    → ℕ
    → Handler
    → Handler
    → Bool
    → Type 0
Chosen status before tag i n h g false =
    (g ≡ h) × ((k : ℕ) → i ≤ k → k < n + i → before (status k) ≡ false)
Chosen status before tag i n h g true =
    (k : ℕ) × (i ≤ k)
    × (k < n + i)
    × (before (status k) ≡ true)
    × ((j : ℕ) → i ≤ j → j < k → before (status j) ≡ false)
    × Started k tag h g

module _ (status : ℕ → ChargePointStatus) (before : ChargePointStatus → Bool) (tag : Text) where
  from_next :
      (i k : ℕ)
      → before (status i) ≡ false
      → ((j : ℕ) → suc i ≤ j → j < k → before (status j) ≡ false)
      → (j : ℕ) → i ≤ j
      → j < k
      → before (status j) ≡ false
  from_next i k e h j a b = elim (ℕ_discrete i j) [
    | yes same ↦ rw⁻¹ same e
    | no other ↦ h j (omega arith) b
  ]

  Chosen-later :
      (i n : ℕ) (h g : Handler) (found : Bool)
      → before (status i) ≡ false
      → Chosen status before tag (suc i) n h g found
      → Chosen status before tag i (suc n) h g found
  Chosen-later i n h g false e (same, all) = (
    same,
    λ j a b. from_next i (suc (n + i)) e (λ k p q. all k p (omega arith)) j a (omega arith),
  )
  Chosen-later i n h g true e (k, a, b, found, all, started) =
      (k, omega arith, omega arith, found, from_next i k e all, started)

  start_first_lem :
      (i n : ℕ) (h : Handler)
      → ((k : ℕ) → i ≤ k → k < n + i → HasStart k h)
      → (g : Handler) × (found : Bool) × (start_first status before tag i n h ≡ some (g, found))
        × Chosen status before tag i n h g found
  unfolding start_first
  start_first_lem i zero h has = (h, false, refl, (refl, λ k a b. absurd (omega arith)))
  start_first_lem i (suc n) h has = elim (Bool-cases (before (status i))) [
    | inl first ↦
        let (g, e, s) = flag_remote_start_lem i tag h (has i (omega arith) (omega arith)) in
        (
          g,
          true,
          rw (start_first, first, e) refl,
          (i, omega arith, omega arith, first, (λ j a b. absurd (omega arith)), s),
        )
    | inr later ↦
        let (g, found, e, c) =
          start_first_lem (suc i) n h (λ k a b. has k (omega arith) (omega arith)) in
        (g, found, rw (start_first, later) e, Chosen-later i n h g found later c)
  ]

  -- If the vectors have an entry for each connector, a remote start without the number of a
  -- connector goes to the first connector whose status comes before `Charging`, and to no other:
  -- the remote starts of the others stay as they are. It is refused, with nothing changed, if
  -- there is none.
  pub remote_start-any :
      (nb_connectors : ℕ) (h : Handler)
      → ((k : ℕ) → 1 ≤ k → k < nb_connectors + 1 → HasStart k h)
      → (g : Handler) × (found : Bool) × (remote_start_transaction_requested status before
            nb_connectors 0 tag h
          ≡ some (g, found))
        × Chosen status before tag 1 nb_connectors h g found
  unfolding remote_start_transaction_requested
  remote_start-any nb_connectors h has = start_first_lem 1 nb_connectors h has

  -- A remote start of a connector that exists leaves it pending, with its id tag.
  pub remote_start-one :
      (nb_connectors id : ℕ) (h : Handler)
      → HasStart id h
      → (g : Handler) × (remote_start_transaction_requested status before nb_connectors id tag h
          ≡ some (g, true))
        × Started id tag h g
  unfolding remote_start_transaction_requested
  remote_start-one nb_connectors zero h has = absurd (omega arith)
  remote_start-one nb_connectors (suc i) h has =
      let (g, e, s) = flag_remote_start_lem (suc i) tag h has in (g, rw e refl, s)

-- A remote stop of a connector that exists is pending from then on, for this connector alone. One for
-- number 0 writes out of bounds.
pub remote_stop_lem :
    (id : ℕ) (h : Handler)
    → IsSlot h.remote_stop_pending id
    → (g : Handler) × (remote_stop_transaction_requested id h ≡ some (g, true))
      × (is_remote_stop_pending g id ≡ some true)
      × ((other : ℕ) → id ≢ other → is_remote_stop_pending g other ≡ is_remote_stop_pending h other)
      × (remote_stop_transaction_requested 0 h ≡ none)
unfolding remote_stop_transaction_requested is_remote_stop_pending modify_slot
remote_stop_lem id h has =
    let (a, ea) = slot_total h.remote_stop_pending id has in
    let (ps, ep, _) = modify_slot_total h.remote_stop_pending id (λ _. true) has in
    (
      record h { remote_stop_pending = ps },
      rw (remote_stop_transaction_requested, ep) refl,
      slot-modify_slot_self h.remote_stop_pending ps id (λ _. true) a ea ep,
      (λ other ne. slot-modify_slot_ne h.remote_stop_pending ps id other (λ _. true) ep ne),
      refl,
    )

module _ {F : Type 0} where
  -- A change of the availability of a connector that exists has the answer and the effect of
  -- `change_one` for this connector, and keeps every other connector.
  pub change_availability_lem :
      (id : ℕ) (a : AvailabilityType) (cs : List (Connector F))
      → IsSlot cs id
      → (c : Connector F) × (ds : List (Connector F)) × (slot cs id ≡ some c)
        × (change_availability_requested id a cs ≡ some ((change_one a c).0, ds))
        × (slot ds id ≡ some (change_one a c).1)
        × ((other : ℕ) → id ≢ other → slot ds other ≡ slot cs other)
  unfolding change_availability_requested
  change_availability_lem zero a cs h = absurd (omega arith)
  change_availability_lem (suc i) a cs h =
      let g : Connector F → Connector F = λ d. (change_one a d).1 in
      let (c, ec) = slot_total cs (suc i) h in
      let (ds, ed, _) = modify_slot_total cs (suc i) g h in
      (
        c,
        ds,
        ec,
        rw (change_availability_requested, ec, ed) refl,
        slot-modify_slot_self cs ds (suc i) g c ec ed,
        λ other ne. slot-modify_slot_ne cs ds (suc i) other g ed ne,
      )
