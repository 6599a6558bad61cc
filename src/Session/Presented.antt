-- ===== src/Session/Presented.antt =====
-- An id tag that is presented at a connector, from the callback of the MQTT client to what the
-- control loop reads.
use open_ocpp_simu.Common.{
  ℕ, ◌<◌, ◌^◌, ◌≡◌, ◌≢◌, refl, sym, ap, ◌∙◌, true, false, not, Option, some, ◌++◌, Text, codes,
  is_empty, slot, take, Bool, IsSlot,
}
use open_ocpp_simu.Certificates.Names.{has_slash}
use open_ocpp_simu.Mqtt.{Mqtt, pending_id_tag, is_id_tag_pending}
use mathlib.Core.Path.{subst}
use open_ocpp_simu.Mqtt.Messages.{Value, Document, message_received}
use open_ocpp_simu.Mqtt.Reception.{pending_id_tag-message_received}
use open_ocpp_simu.Paho.Callbacks.{Message, Listener, on_message_received}
use open_ocpp_simu.Startup.Decimal.{to_string, atoi_u32-to_string}
use open_ocpp_simu.Session.Addresses.{connector_topic_lem, to_string-plain}

-- What `m_connectors_topic` of a charge point is followed by for the id tag of one of its connectors.
abbrev pub id_tag_topic : Text → ℕ → Text
id_tag_topic charge_point_id connector =
    (codes "cp_simu/cps/" ++ (charge_point_id ++ codes "/"))
    ++ (codes "connectors/" ++ (to_string connector ++ codes "/id_tag"))

module _ {F : Type 0} where
  -- The MQTT manager as a listener. Its second part says that the configuration is to be published.
  abbrev pub manager_listener : (Text → Option (Document F)) → Listener (Mqtt F × Bool)
  manager_listener parse = record {
    mqtt_connection_lost = λ m. some m;
    mqtt_message_received =
        λ topic message qos retained m. message_received parse topic message m.0;
  }

  -- An id tag that the broker delivers for a connector of the charge point reaches the control loop: it is
  -- the pending id tag of this connector afterwards, which is pending exactly if it is not empty,
  -- and another connector keeps what it has. The identifier of the charge point is not empty and
  -- has no slash, the connector exists and its number has 32 bits, and the payload, up to its length, is an object
  -- with a text as its id.
  pub pending_id_tag-delivered :
      (parse : Text → Option (Document F)) (charge_point_id tag : Text) (message : Message)
      (connector other : ℕ) (m : Mqtt F) (b : Bool) (doc : Document F) (v : Value F)
      → has_slash charge_point_id ≡ false
      → is_empty charge_point_id ≡ false
      → connector < 2 ^ 32
      → IsSlot m.connectors connector
      → connector ≢ other
      → parse (take message.payloadlen message.payload) ≡ some doc
      → doc.is_object ≡ true
      → doc.member (codes "id") ≡ some v
      → v.string ≡ some tag
      → (n : Mqtt F) × (on_message_received
            (some (some (manager_listener parse)))
            (id_tag_topic charge_point_id connector)
            message
            (m, b)
          ≡ some (n, false))
        × (pending_id_tag n connector ≡ some tag)
        × (is_id_tag_pending n connector ≡ some (not (is_empty tag)))
        × (slot n.connectors other ≡ slot m.connectors other)
  unfolding has_slash on_message_received
  pending_id_tag-delivered parse charge_point_id tag message connector other m b doc v h full small
        exists ne hp ho hv ht =
      let read = atoi_u32-to_string connector small in
      let (plain, printed) = to_string-plain connector in
      let (last, before) =
        connector_topic_lem charge_point_id (to_string connector) (codes "id_tag") h full plain
          printed refl refl in
      let (n, received, pending, is_pending, kept) =
        pending_id_tag-message_received parse (id_tag_topic charge_point_id connector)
          (take message.payloadlen message.payload) m doc v (to_string connector) tag other hp ho hv
          ht last before (subst (λ i. IsSlot m.connectors i) (sym read) exists)
          (λ e. ne (sym read ∙ e)) in
      (
        n,
        received,
        ap (λ i. pending_id_tag n i) (sym read) ∙ pending,
        ap (λ i. is_id_tag_pending n i) (sym read) ∙ is_pending,
        kept,
      )
