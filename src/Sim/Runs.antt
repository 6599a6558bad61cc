-- ===== src/Sim/Runs.antt =====
-- Total correctness of the actions of the loop: no access of a connector's slot is out of bounds.

use open_ocpp_simu.Common.{
  ℕ, Bool, true, false, not, is_empty, [], ◌≡◌, refl, some, arith, Text, length, IsSlot, slot_total,
  modify_slot_total, if◌then◌else◌,
}
use open_ocpp_simu.Ocpp.{ChargePointStatus, Stack}
use open_ocpp_simu.Mqtt.{is_id_tag_pending, pending_id_tag, reset_id_tag_pending}
use open_ocpp_simu.Handler.{
  is_remote_start_pending, is_remote_stop_pending, remote_start_id_tag, reset_remote_start_pending,
  reset_remote_stop_pending,
}
use open_ocpp_simu.Sim.World.{
  World, Connector, M, ◌>>=◌, pure, call, id_tag_pending, id_tag_of, reset_id_tag,
  remote_start_pending, remote_start_tag, reset_remote_start, remote_stop_pending,
  reset_remote_stop, authorize, start_transaction, notify,
}
use open_ocpp_simu.Ocpp.{StackCall}

-- The connector's number is within each vector that is indexed by it.
pub record Fits {F : Type 0} (id : ℕ) (w : World F) : Type 0 where
  pub mqtt_slot : IsSlot w.mqtt.connectors id
  pub start_slot : IsSlot w.handler.remote_start_pending id
  pub stop_slot : IsSlot w.handler.remote_stop_pending id
  pub tag_slot : IsSlot w.handler.remote_start_id_tags id

abbrev pub Any : {A : Type 0} → A → Type 0
Any a = Unit {0}

-- No vector changes its size, and the flags that end the loop stay.
pub record SameShape {F : Type 0} (w v : World F) : Type 0 where
  pub mqtt_size : length v.mqtt.connectors ≡ length w.mqtt.connectors
  pub start_size : length v.handler.remote_start_pending ≡ length w.handler.remote_start_pending
  pub stop_size : length v.handler.remote_stop_pending ≡ length w.handler.remote_stop_pending
  pub tag_size : length v.handler.remote_start_id_tags ≡ length w.handler.remote_start_id_tags
  pub ended_same : v.mqtt.ended ≡ w.mqtt.ended
  pub reset_same : v.handler.reset_pending ≡ w.handler.reset_pending

pub SameShape-refl : {F : Type 0} (w : World F) → SameShape w w
SameShape-refl w = ground arith

pub SameShape-trans : {F : Type 0} (u v w : World F) → SameShape u v → SameShape v w → SameShape u w
SameShape-trans u v w h k = ground arith

pub SameShape-Fits : {F : Type 0} (id : ℕ) (w v : World F) → SameShape w v → Fits id w → Fits id v
SameShape-Fits id w v h k = omega arith

module _ {F : Type 0} (id : ℕ) where
  -- The action returns a result, which satisfies `Q`, and keeps the shape.
  abbrev pub Runs : {A : Type 0} → (A → Type 0) → M F A → Type 0
  Runs {A} Q m =
      (w : World F) → Fits id w → (r : A × World F) × (m w ≡ some r) × SameShape w r.1 × Q r.0

  pub Runs-bind :
      {A B : Type 0} (Q : A → Type 0) (R : B → Type 0) (m : M F A) (g : A → M F B)
      → Runs Q m
      → ((a : A) → Q a → Runs R (g a))
      → Runs R (m >>= g)
  Runs-bind Q R m g hm hg w fits =
      let (r, er, fr, q) = hm w fits in
      let (t, et, ft, p) = hg r.0 q r.1 (SameShape-Fits id w r.1 fr fits) in
      (t, rw (er, ◌>>=◌) et, SameShape-trans w r.1 t.1 fr ft, p)

  pub Runs-imp :
      {A : Type 0} (Q R : A → Type 0) (m : M F A) → ((a : A) → Q a → R a) → Runs Q m → Runs R m
  Runs-imp Q R m h hm w fits = let (r, er, fr, q) = hm w fits in (r, er, fr, h r.0 q)

  pub Runs-if :
      {A : Type 0} (Q : A → Type 0) (b : Bool) (m n : M F A)
      → (b ≡ true → Runs Q m)
      → (b ≡ false → Runs Q n)
      → Runs Q (if b then m else n)
  Runs-if Q true m n hm hn = hm refl
  Runs-if Q false m n hm hn = hn refl

  pub Runs-pure : {A : Type 0} (Q : A → Type 0) (a : A) → Q a → Runs Q (pure a)
  Runs-pure Q a q w fits = ((a, w), refl, SameShape-refl w, q)

  pub id_tag_pending-Runs : Runs Any (id_tag_pending id)
  unfolding id_tag_pending is_id_tag_pending
  id_tag_pending-Runs w fits =
      let (c, e) = slot_total w.mqtt.connectors id fits.mqtt_slot in
      ((not (is_empty c.id_tag), w), rw (e, is_id_tag_pending) refl, SameShape-refl w, tt)

  pub id_tag_of-Runs : Runs Any (id_tag_of id)
  unfolding id_tag_of pending_id_tag
  id_tag_of-Runs w fits =
      let (c, e) = slot_total w.mqtt.connectors id fits.mqtt_slot in
      ((c.id_tag, w), rw (e, pending_id_tag) refl, SameShape-refl w, tt)

  pub reset_id_tag-Runs : Runs Any (reset_id_tag id)
  unfolding reset_id_tag reset_id_tag_pending
  reset_id_tag-Runs w fits =
      let (cs, e, l) =
        modify_slot_total w.mqtt.connectors id (λ c. record c { id_tag = [] }) fits.mqtt_slot in
      (
        (tt, record w { mqtt = record w.mqtt { connectors = cs } }),
        rw (e, reset_id_tag_pending) refl,
        ground arith,
        tt,
      )

  pub remote_start_pending-Runs : Runs Any (remote_start_pending id)
  unfolding remote_start_pending is_remote_start_pending
  remote_start_pending-Runs w fits =
      let (b, e) = slot_total w.handler.remote_start_pending id fits.start_slot in
      ((b, w), rw (e, is_remote_start_pending) refl, SameShape-refl w, tt)

  pub remote_start_tag-Runs : Runs Any (remote_start_tag id)
  unfolding remote_start_tag remote_start_id_tag
  remote_start_tag-Runs w fits =
      let (b, e) = slot_total w.handler.remote_start_id_tags id fits.tag_slot in
      ((b, w), rw (e, remote_start_id_tag) refl, SameShape-refl w, tt)

  pub reset_remote_start-Runs : Runs Any (reset_remote_start id)
  unfolding reset_remote_start reset_remote_start_pending
  reset_remote_start-Runs w fits =
      let (bs, e, l) =
        modify_slot_total w.handler.remote_start_pending id (λ _. false) fits.start_slot in
      (
        (tt, record w { handler = record w.handler { remote_start_pending = bs } }),
        rw (e, reset_remote_start_pending) refl,
        ground arith,
        tt,
      )

  pub remote_stop_pending-Runs : Runs Any (remote_stop_pending id)
  unfolding remote_stop_pending is_remote_stop_pending
  remote_stop_pending-Runs w fits =
      let (b, e) = slot_total w.handler.remote_stop_pending id fits.stop_slot in
      ((b, w), rw (e, is_remote_stop_pending) refl, SameShape-refl w, tt)

  pub reset_remote_stop-Runs : Runs Any (reset_remote_stop id)
  unfolding reset_remote_stop reset_remote_stop_pending
  reset_remote_stop-Runs w fits =
      let (bs, e, l) =
        modify_slot_total w.handler.remote_stop_pending id (λ _. false) fits.stop_slot in
      (
        (tt, record w { handler = record w.handler { remote_stop_pending = bs } }),
        rw (e, reset_remote_stop_pending) refl,
        ground arith,
        tt,
      )

  -- A call on the stack touches no slot.
  pub call-Runs : (c : StackCall) → Runs Any (call c)
  call-Runs c w fits = (_, refl, ground arith, tt)

  pub authorize-Runs : (s : Stack F) (tag parent : Text) → Runs Any (authorize s id tag parent)
  unfolding authorize
  authorize-Runs s tag parent w fits = (_, refl, ground arith, tt)

  pub start_transaction-Runs : (s : Stack F) (tag : Text) → Runs Any (start_transaction s id tag)
  unfolding start_transaction
  start_transaction-Runs s tag w fits = (_, refl, ground arith, tt)

  pub notify-Runs :
      (Q : Connector F → Type 0) (c : Connector F) (st : ChargePointStatus)
      → Q c
      → Runs Q (notify c st)
  unfolding notify
  notify-Runs Q c st q w fits = (_, refl, ground arith, q)
