-- ===== src/Sim/World.antt =====
-- The state that the control loop works on, and its elementary actions.
use mathlib.Core.Option
use open_ocpp_simu.Common.{◌≡◌, refl, ℕ, Bool, true, false, Option, none, some, ◌∷◌, Text}
use open_ocpp_simu.Ocpp.{
  ChargePointStatus, AuthorizationStatus, Reason, no_error, Calls, StackCall, Stack,
}
use open_ocpp_simu.Connector.{ConnectorData}
use open_ocpp_simu.Meter.{Meter}
use open_ocpp_simu.Mqtt.{Mqtt}
use open_ocpp_simu.Mqtt
use open_ocpp_simu.Handler.{Handler}
use open_ocpp_simu.Handler

pub record World (F : Type 0) : Type 0 where
  pub calls : Calls
  pub mqtt : Mqtt F
  pub handler : Handler

-- A connector of the control loop, whose `meter` leads to a meter.
abbrev pub Connector : Type 0 → Type 0
Connector F = ConnectorData F (Meter F)

abbrev pub M : Type 0 → Type 0 → Type 0
M F A = World F → Option (A × World F)

infixl 5 ◌>>=◌ ◌>>◌
abbrev pub ◌>>=◌ : {F A B : Type 0} → M F A → (A → M F B) → M F B
◌>>=◌ m g w = elim (m w) [ none ↦ none | some (a, v) ↦ g a v ]

abbrev pub ◌>>◌ : {F A B : Type 0} → M F A → M F B → M F B
m >> k = m >>= λ _. k

abbrev pub pure : {F A : Type 0} → A → M F A
pure a w = some (a, w)

-- A bind whose first action succeeds.
pub bind_eq :
    {F A B : Type 0} (m : M F A) (g : A → M F B) (w : World F) (r : A × World F)
    → m w ≡ some r
    → (m >>= g) w ≡ g r.0 r.1
bind_eq m g w r e = rw (e, ◌>>=◌) refl

-- Inversion of a bind that succeeds.
pub bind_inv :
    {F A B : Type 0} (m : M F A) (g : A → M F B) (w : World F) {r : B × World F}
    → (m >>= g) w ≡ some r
    → (q : A × World F) × (m w ≡ some q) × (g q.0 q.1 ≡ some r)
bind_inv {F} {A} {B} m g w {r} e = go (m w) e
  where
    go :
        (o : Option (A × World F))
        → elim o [ none ↦ none | some (a, v) ↦ g a v ] ≡ some r
        → (q : A × World F) × (o ≡ some q) × (g q.0 q.1 ≡ some r)
    go none h = cc
    go (some q) h = (q, refl, h)

module _ {F : Type 0} where
  unfoldable pub id_tag_pending : ℕ → M F Bool
  id_tag_pending id w = Option.map (λ b. (b, w)) (Mqtt.is_id_tag_pending w.mqtt id)

  unfoldable pub id_tag_of : ℕ → M F Text
  id_tag_of id w = Option.map (λ t. (t, w)) (Mqtt.pending_id_tag w.mqtt id)

  unfoldable pub reset_id_tag : ℕ → M F (Unit {0})
  reset_id_tag id w =
      Option.map (λ m. (tt, record w { mqtt = m })) (Mqtt.reset_id_tag_pending w.mqtt id)

  unfoldable pub remote_start_pending : ℕ → M F Bool
  remote_start_pending id w =
      Option.map (λ b. (b, w)) (Handler.is_remote_start_pending w.handler id)

  unfoldable pub remote_start_tag : ℕ → M F Text
  remote_start_tag id w = Option.map (λ t. (t, w)) (Handler.remote_start_id_tag w.handler id)

  unfoldable pub reset_remote_start : ℕ → M F (Unit {0})
  reset_remote_start id w =
      Option.map (λ h. (tt, record w { handler = h }))
        (Handler.reset_remote_start_pending w.handler id)

  unfoldable pub remote_stop_pending : ℕ → M F Bool
  remote_stop_pending id w = Option.map (λ b. (b, w)) (Handler.is_remote_stop_pending w.handler id)

  unfoldable pub reset_remote_stop : ℕ → M F (Unit {0})
  reset_remote_stop id w =
      Option.map (λ h. (tt, record w { handler = h }))
        (Handler.reset_remote_stop_pending w.handler id)

  abbrev pub call : StackCall → M F (Unit {0})
  call c w = some (tt, record w { calls = c ∷ w.calls })

  -- `std::chrono::steady_clock::now()`
  abbrev pub clock : Stack F → M F ℕ
  clock s w = some (s.now w.calls, w)

  unfoldable pub get_connector_status : Stack F → ℕ → M F ChargePointStatus
  get_connector_status s id w = some (
    s.connector_status w.calls id,
    record w { calls = StackCall.get_connector_status id ∷ w.calls },
  )

  unfoldable pub authorize : Stack F → ℕ → Text → Text → M F (AuthorizationStatus × Text)
  authorize s id tag parent w = some (
    s.authorizes w.calls id tag parent,
    record w { calls = StackCall.authorize id tag ∷ w.calls },
  )

  unfoldable pub start_transaction : Stack F → ℕ → Text → M F AuthorizationStatus
  start_transaction s id tag w =
      some
        (s.starts w.calls id tag, record w { calls = StackCall.start_transaction id tag ∷ w.calls })

  unfoldable pub stop_transaction : ℕ → Text → Reason → M F (Unit {0})
  stop_transaction id tag reason = call (StackCall.stop_transaction id tag reason)

  -- `statusNotification`, and the connector that the loop goes on with.
  unfoldable pub notify : Connector F → ChargePointStatus → M F (Connector F)
  notify c status = do call (StackCall.status_notification c.id status no_error); pure c

-- Accepted, or in use by another transaction.
abbrev pub is_authorized : AuthorizationStatus → Bool
is_authorized AuthorizationStatus.accepted = true
is_authorized AuthorizationStatus.concurrent_tx = true
is_authorized _ = false

abbrev pub is_accepted : AuthorizationStatus → Bool
is_accepted AuthorizationStatus.accepted = true
is_accepted _ = false
