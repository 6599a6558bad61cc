-- ===== src/Mqtt/Reception.antt =====
-- What a message does to the data of the connectors.
use mathlib.Core.Option
use open_ocpp_simu.Common.{
  ℕ, ◌≡◌, ◌≢◌, refl, ltb, leb, Bool, true, false, not, ◌&&◌, ◌⊎◌, inl, inr, Option, none, some,
  List, Text, arith, codes, is_empty, text_eq, text_eq_iff, length, slot, IsSlot, slot_total,
  modify_slot, modify_slot_total, length-modify_slot, slot-modify_slot_self, slot-modify_slot_ne,
  if◌then◌else◌,
}
use native.Mathlib.Decide.{ℕ_discrete}
use mathlib.Core.Path.{subst, ◌∙◌}
use mathlib.Core.Logic.{◌↔◌}
use open_ocpp_simu.Connector.{ConnectorData}
use open_ocpp_simu.Mqtt.{Mqtt, pending_id_tag, is_id_tag_pending}
use open_ocpp_simu.Mqtt.Topics.{filename, elements, before_last, atoi_u32}
use open_ocpp_simu.Mqtt.Messages.{
  Value, Document, receive_car, receive_id_tag, receive_faulted, receive_data, receive_connector,
  receive_command, message_received,
}

-- What the control loop decides about a connector, which no message changes.
pub record SameOwn {F : Type 0} (c d : ConnectorData F (Unit {0})) : Type 0 where
  pub same_id : d.id ≡ c.id
  pub same_status : d.status ≡ c.status
  pub same_parent : d.parent_id_tag ≡ c.parent_id_tag
  pub same_max : d.max_setpoint ≡ c.max_setpoint
  pub same_ocpp : d.ocpp_setpoint ≡ c.ocpp_setpoint
  pub same_setpoint : d.setpoint ≡ c.setpoint
  pub same_start : d.preparing_start ≡ c.preparing_start
  pub same_unavailable : d.unavailable_pending ≡ c.unavailable_pending

-- The topic has the number of the connector before its last element.
abbrev pub Addresses : Text → ℕ → Type 0
Addresses topic id =
    (name : Text) × (before_last (elements topic) ≡ some name) × (atoi_u32 name ≡ id)

-- What a message does to the slot of a connector: it keeps it, or it is about this connector.
abbrev pub SlotKept : {F : Type 0} → Mqtt F → Mqtt F → (ℕ → Type 0) → Type 0
SlotKept {F} m n About =
    (id : ℕ) (c : ConnectorData F (Unit {0}))
    → slot m.connectors id ≡ some c
    → (d : ConnectorData F (Unit {0})) × (slot n.connectors id ≡ some d)
      × SameOwn c d
      × ((d ≡ c) ⊎ About id)

module _ {F : Type 0} where
  receive_data-SameOwn :
      (name : Text) (doc : Document F) (c : ConnectorData F (Unit {0}))
      → SameOwn c (receive_data name doc c)
  unfolding receive_data receive_car receive_id_tag receive_faulted
  receive_data-SameOwn name doc c = ground arith

  SameOwn-refl : (c : ConnectorData F (Unit {0})) → SameOwn c c
  SameOwn-refl c = ground arith

  written-SlotKept :
      (m n : Mqtt F) (connector : ℕ) (name : Text) (doc : Document F)
      → modify_slot m.connectors connector (receive_data name doc) ≡ some n.connectors
      → SlotKept m n (λ id. connector ≡ id)
  written-SlotKept m n connector name doc e id c h = elim (ℕ_discrete connector id) [
    | yes same ↦
        let own : slot m.connectors connector ≡ some c = cc in
        let q =
          slot-modify_slot_self m.connectors n.connectors connector (receive_data name doc) c own
            e in
        (receive_data name doc c, cc, receive_data-SameOwn name doc c, inr same)
    | no other ↦ (
      c,
      slot-modify_slot_ne m.connectors n.connectors connector id (receive_data name doc) e other
          ∙ h,
      SameOwn-refl c,
      inl refl,
    )
  ]

  -- The branches of `receive_connector`.
  branch :
      (m n : Mqtt F) (known refused : Bool) (o : Option (List (ConnectorData F (Unit {0}))))
      → (if known
          then (if refused then none else Option.map (λ cs. record m { connectors = cs }) o)
          else some m)
        ≡ some n
      → (m ≡ n) ⊎ ((n.ended ≡ m.ended) × (o ≡ some n.connectors))
  branch m n true true o e = cc
  branch m n true false none e = cc
  branch m n true false (some cs) e = inr (ground arith)
  branch m n false refused o e = inl (cc)

  -- A message with a result about a connector keeps the end flag, the number of connectors, what the
  -- control loop decides of each connector, and the whole of the connectors with another number.
  pub receive_connector-SlotKept :
      (connector : ℕ) (name : Text) (doc : Document F) (m n : Mqtt F)
      → receive_connector connector name doc m ≡ some n
      → (n.ended ≡ m.ended)
        × (length n.connectors ≡ length m.connectors)
        × SlotKept m n (λ id. connector ≡ id)
  unfolding receive_connector
  receive_connector-SlotKept connector name doc m n e = elim (branch m n _ _ _ e) [
    | inl same ↦
        subst
          (λ v.
            (v.ended ≡ m.ended)
            × (length v.connectors ≡ length m.connectors)
            × SlotKept m v (λ id. connector ≡ id))
          same (refl, refl, λ id c h. (c, h, SameOwn-refl c, inl refl))
    | inr (flag, o) ↦ (
      flag,
      length-modify_slot m.connectors n.connectors connector (receive_data name doc) o,
      written-SlotKept m n connector name doc o,
    )
  ]

  -- A command with a type keeps every connector. The application is ended afterwards exactly if
  -- it was before or the type is `close`, and the OCPP configuration is published exactly if the
  -- type is `ocpp_config`.
  pub receive_command_lem :
      (doc : Document F) (m : Mqtt F) (v : Value F) (type : Text)
      → doc.is_object ≡ true
      → doc.member (codes "type") ≡ some v
      → v.string ≡ some type
      → (n : Mqtt F) × (published : Bool) × (receive_command doc m ≡ some (n, published))
        × (n.connectors ≡ m.connectors)
        × ((n.ended ≡ true) ↔ ((m.ended ≡ true) ⊎ (type ≡ codes "close")))
        × ((published ≡ true) ↔ (type ≡ codes "ocpp_config"))
  unfolding receive_command
  receive_command_lem doc m v type ho hv ht =
      let close = text_eq type (codes "close") in
      let config = text_eq type (codes "ocpp_config") in
      let closes = text_eq_iff type (codes "close") in
      let configs = text_eq_iff type (codes "ocpp_config") in
      (
        (if close then record m { ended = true } else m),
        (if close then false else config),
        ground (arith, closes, configs),
        ground (arith, closes, configs),
        ground (arith, closes, configs),
        ground (arith, closes, configs),
      )

  -- A presented id tag reaches the control loop: after a message with the id tag of a connector
  -- that exists, the pending id tag of the connector is the one of the message, and it is pending
  -- exactly if it is not empty. Another connector keeps what it has.
  pub pending_id_tag-message_received :
      (parse : Text → Option (Document F)) (topic message : Text) (m : Mqtt F) (doc : Document F)
      (v : Value F) (name tag : Text) (other : ℕ)
      → parse message ≡ some doc
      → doc.is_object ≡ true
      → doc.member (codes "id") ≡ some v
      → v.string ≡ some tag
      → filename topic ≡ codes "id_tag"
      → before_last (elements topic) ≡ some name
      → IsSlot m.connectors (atoi_u32 name)
      → atoi_u32 name ≢ other
      → (n : Mqtt F) × (message_received parse topic message m ≡ some (n, false))
        × (pending_id_tag n (atoi_u32 name) ≡ some tag)
        × (is_id_tag_pending n (atoi_u32 name) ≡ some (not (is_empty tag)))
        × (slot n.connectors other ≡ slot m.connectors other)
  unfolding message_received receive_connector receive_data receive_id_tag pending_id_tag
      is_id_tag_pending text_eq
  pending_id_tag-message_received parse topic message m doc v name tag other hp ho hv ht hf hn hs
        ne =
      let id = atoi_u32 name in
      let write = receive_data (codes "id_tag") doc in
      let (c, ec) = slot_total m.connectors id hs in
      let (cs, ecs, _) = modify_slot_total m.connectors id write hs in
      let written : slot cs id ≡ some (write c) =
        slot-modify_slot_self m.connectors cs id write c ec ecs in
      let presented : (write c).id_tag ≡ tag = rw (hv, ht) refl in
      let known : (ltb 0 id && leb id (length m.connectors)) ≡ true = ground arith in
      (
        record m { connectors = cs },
        rw (message_received, hp, hf, hn, receive_connector, known, hf, ecs, ho) refl,
        rw (pending_id_tag, written, presented) refl,
        rw (is_id_tag_pending, written, presented) refl,
        slot-modify_slot_ne m.connectors cs id other write ecs ne,
      )
