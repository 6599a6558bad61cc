-- ===== src/System/Races.antt =====
-- What another thread does within a pass of the control loop: `isValidIdTagPresent` reads the id tag,
-- waits for the authorization by the central system, and only then takes the id tag as used.
use mathlib.Core.Option
use open_ocpp_simu.Common.{
  ℕ, ◌<◌, ◌^◌, ◌≡◌, ◌≢◌, refl, false, true, Bool, Option, none, some, [], ◌∷◌, Text, codes,
  is_empty, take, slot, modify_slot, arith, modify_slot-slot, slot-modify_slot_self,
}
use open_ocpp_simu.Certificates.Names.{has_slash}
use open_ocpp_simu.Connector.{ConnectorData}
use open_ocpp_simu.Ocpp.{Stack, StackCall}
use open_ocpp_simu.Mqtt.{Mqtt, pending_id_tag, reset_id_tag_pending}
use open_ocpp_simu.Mqtt.Messages.{Value, Document}
use open_ocpp_simu.Paho.Callbacks.{Message, on_message_received}
use open_ocpp_simu.Session.Presented.{id_tag_topic, manager_listener, pending_id_tag-delivered}
use open_ocpp_simu.Sim.World.{
  World, Connector, M, ◌>>=◌, ◌>>◌, pure, id_tag_of, reset_id_tag, authorize, is_authorized,
}
use open_ocpp_simu.Sim.IdTag.{with_tags}
use open_ocpp_simu.Sim.Runs.{Fits}

module _ {F : Type 0} where
  -- The branch of a locally presented id tag, with what other threads do during the authorization.
  unfoldable pub local_tag_during :
      M F (Unit {0}) → Stack F → Connector F → M F (Bool × Connector F)
  local_tag_during others s c = do
    tag ← id_tag_of c.id
    answer ← authorize s c.id tag c.parent_id_tag
    others
    reset_id_tag c.id
    pure (is_authorized answer.0, with_tags c tag answer.1)

  -- A message that the broker delivers.
  unfoldable pub deliver : (Text → Option (Document F)) → Text → Message → M F (Unit {0})
  deliver parse topic message w =
      Option.map (λ r. (tt, record w { mqtt = r.0 }))
        (on_message_received (some (some (manager_listener parse))) topic message (w.mqtt, false))

  reset_lem :
      (m : Mqtt F) (id : ℕ) (tag : Text)
      → pending_id_tag m id ≡ some tag
      → (n : Mqtt F) × (reset_id_tag_pending m id ≡ some n) × (pending_id_tag n id ≡ some [])
  unfolding pending_id_tag reset_id_tag_pending
  reset_lem m id tag h = go (slot m.connectors id) refl h
    where
      go :
          (o : Option (ConnectorData F (Unit {0})))
          → slot m.connectors id ≡ o
          → Option.map (λ c. c.id_tag) o ≡ some tag
          → (n : Mqtt F) × (Option.map
                (λ cs. record m { connectors = cs })
                (modify_slot m.connectors id (λ c. record c { id_tag = [] }))
              ≡ some n)
            × (Option.map (λ c. c.id_tag) (slot n.connectors id) ≡ some [])
      go none e h = cc
      go (some a) e h =
          let clear = λ (c : ConnectorData F (Unit {0})). record c { id_tag = [] } in
          let (cs, ecs) = modify_slot-slot m.connectors id clear a e in
          let q = slot-modify_slot_self m.connectors cs id clear a e ecs in
          (record m { connectors = cs }, rw ecs refl, rw q refl)

  -- An id tag that is delivered for a connector while another one is being authorized for it is lost:
  -- the answer and the connector have the first one, the stack is asked for no other, and no id tag
  -- is pending afterwards. The connector is within the vectors and has a number of 32 bits, the identifier of the charge point is
  -- not empty and has no slash, and the payload, up to its length, is an object with a text as its id.
  pub local_tag_during-delivered :
      (parse : Text → Option (Document F)) (charge_point_id first second : Text) (message : Message)
      (s : Stack F) (c : Connector F) (w : World F) (doc : Document F) (v : Value F)
      → Fits c.id w
      → c.id < 2 ^ 32
      → pending_id_tag w.mqtt c.id ≡ some first
      → has_slash charge_point_id ≡ false
      → is_empty charge_point_id ≡ false
      → parse (take message.payloadlen message.payload) ≡ some doc
      → doc.is_object ≡ true
      → doc.member (codes "id") ≡ some v
      → v.string ≡ some second
      → let answer = s.authorizes w.calls c.id first c.parent_id_tag in
        (u : World F) × (local_tag_during
            (deliver parse (id_tag_topic charge_point_id c.id) message)
            s
            c
            w
          ≡ some ((is_authorized answer.0, with_tags c first answer.1), u))
        × (u.calls ≡ StackCall.authorize c.id first ∷ w.calls)
        × (pending_id_tag u.mqtt c.id ≡ some [])
  unfolding local_tag_during deliver id_tag_of authorize reset_id_tag
  local_tag_during-delivered parse charge_point_id first second message s c w doc v fits small e h
        full hp ho hv ht =
      let number : c.id ≢ 0 = λ z. absurd (omega (arith, z, fits.mqtt_slot)) in
      let (n, delivered, pending, _, _) =
        pending_id_tag-delivered parse charge_point_id second message c.id 0 w.mqtt false doc v h
          full small fits.mqtt_slot number hp ho hv ht in
      let (m, er, cleared) = reset_lem n c.id second pending in
      (
        record w { calls = StackCall.authorize c.id first ∷ w.calls; mqtt = m },
        rw (◌>>=◌, e, delivered, er) refl,
        refl,
        cleared,
      )
