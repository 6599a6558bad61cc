-- ===== src/Sim/Tags.antt =====
-- What becomes of a presented id tag and of a remote stop.

use open_ocpp_simu.Common.{
  ◌≡◌, refl, Bool, false, is_empty, [], ◌∷◌, some, arith, Text, if◌then◌else◌, slot_total,
  modify_slot_total, slot-modify_slot_self,
}
use open_ocpp_simu.Ocpp.{Stack, StackCall, local}
use open_ocpp_simu.Float.{FloatOps}
use open_ocpp_simu.Mqtt.{is_id_tag_pending, pending_id_tag, reset_id_tag_pending}
use open_ocpp_simu.Sim.World.{
  World, Connector, id_tag_pending, id_tag_of, reset_id_tag, authorize, stop_transaction,
  is_accepted, is_authorized,
}
use open_ocpp_simu.Sim.IdTag.{
  with_tags, local_tag, is_valid_id_tag_present, local_stop, is_transaction_stop_condition,
}
use open_ocpp_simu.Sim.Runs.{Fits}

module _ {F : Type 0} ⦃f : FloatOps F⦄ where
  -- For a connector within the vectors, a pending id tag is given to `authorize`, and stops the
  -- transaction exactly if it is accepted: the stop is notified with this id tag and the reason
  -- `Local`, and nothing else is called. In both cases the id tag is used up, and a remote stop
  -- stays pending.
  pub is_transaction_stop_condition_local :
      (s : Stack F) (c : Connector F) (w : World F) (tag : Text)
      → Fits c.id w
      → pending_id_tag w.mqtt c.id ≡ some tag
      → is_empty tag ≡ false
      → (v : World F) × (is_transaction_stop_condition s c w
          ≡ some (is_accepted (s.authorizes w.calls c.id tag []).0, v))
        × (v.calls ≡ (
            let asked = StackCall.authorize c.id tag ∷ w.calls in
            if is_accepted (s.authorizes w.calls c.id tag []).0
            then StackCall.stop_transaction c.id tag local ∷ asked
            else asked))
        × (pending_id_tag v.mqtt c.id ≡ some [])
        × (v.handler ≡ w.handler)
  unfolding is_transaction_stop_condition local_stop id_tag_pending id_tag_of reset_id_tag authorize
      stop_transaction pending_id_tag is_id_tag_pending reset_id_tag_pending
  is_transaction_stop_condition_local s c w tag fits e ne =
      let (a, ea) = slot_total w.mqtt.connectors c.id fits.mqtt_slot in
      let (cs, ecs, _) =
        modify_slot_total w.mqtt.connectors c.id (λ d. record d { id_tag = [] }) fits.mqtt_slot in
      let q =
        slot-modify_slot_self w.mqtt.connectors cs c.id (λ d. record d { id_tag = [] }) a ea ecs in
      let same : a.id_tag ≡ tag = ground arith in
      let asked = StackCall.authorize c.id tag ∷ w.calls in
      let ok = is_accepted (s.authorizes w.calls c.id tag []).0 in
      (
        record {
          calls = if ok then StackCall.stop_transaction c.id tag local ∷ asked else asked;
          mqtt = record w.mqtt { connectors = cs };
          handler = w.handler;
        },
        ground (arith, ea, ecs, same, ne),
        refl,
        rw q refl,
        refl,
      )

  -- For a connector within the vectors, `isValidIdTagPresent` gives a pending id tag to
  -- `authorize`, and calls nothing else. The answer is that of the stack: accepted, or in a
  -- concurrent transaction. If it is valid the connector has the id tag and the parent of the
  -- answer, else neither. In both cases the id tag is used up, and a remote start stays pending.
  pub is_valid_id_tag_present_local :
      (s : Stack F) (c : Connector F) (w : World F) (tag : Text) (local_only : Bool)
      → Fits c.id w
      → pending_id_tag w.mqtt c.id ≡ some tag
      → is_empty tag ≡ false
      → let answer = s.authorizes w.calls c.id tag c.parent_id_tag in
        let valid = is_authorized answer.0 in
        (d : Connector F) × (v : World F) × (is_valid_id_tag_present s c local_only w
          ≡ some ((valid, d), v))
        × (v.calls ≡ StackCall.authorize c.id tag ∷ w.calls)
        × (pending_id_tag v.mqtt c.id ≡ some [])
        × (v.handler ≡ w.handler)
        × (d ≡ (if valid then with_tags c tag answer.1 else with_tags c [] []))
  unfolding is_valid_id_tag_present local_tag id_tag_pending id_tag_of reset_id_tag authorize
      pending_id_tag is_id_tag_pending reset_id_tag_pending
  is_valid_id_tag_present_local s c w tag lo fits e ne =
      let (a, ea) = slot_total w.mqtt.connectors c.id fits.mqtt_slot in
      let (cs, ecs, _) =
        modify_slot_total w.mqtt.connectors c.id (λ d. record d { id_tag = [] }) fits.mqtt_slot in
      let q =
        slot-modify_slot_self w.mqtt.connectors cs c.id (λ d. record d { id_tag = [] }) a ea ecs in
      let same : a.id_tag ≡ tag = ground arith in
      let answer = s.authorizes w.calls c.id tag c.parent_id_tag in
      let ok = is_authorized answer.0 in
      (
        (if ok then with_tags c tag answer.1 else with_tags c [] []),
        record {
          calls = StackCall.authorize c.id tag ∷ w.calls;
          mqtt = record w.mqtt { connectors = cs };
          handler = w.handler;
        },
        ground (arith, ea, ecs, same, ne),
        refl,
        rw q refl,
        refl,
        refl,
      )
