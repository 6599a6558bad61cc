-- ===== src/System/Sizes.antt =====
-- The requests and the messages keep the sizes of the vectors, and the end of the application.
use mathlib.Core.Option
use open_ocpp_simu.Common.{
  text_eq, codes, ℕ, zero, suc, ◌≡◌, refl, sym, ◌∙◌, Bool, true, false, Bool-cases, inl, inr,
  Option, none, some, List, Text, length, arith, modify_slot, length-modify_slot,
}
use open_ocpp_simu.Ocpp.{ChargePointStatus}
use open_ocpp_simu.Connector.{ConnectorData}
use open_ocpp_simu.Mqtt.{Mqtt}
use open_ocpp_simu.Mqtt.Topics.{filename, elements, before_last, atoi_u32}
use open_ocpp_simu.Mqtt.Messages.{
  Document, message_received, receive_command, receive_connector, receive_data,
}
use open_ocpp_simu.Handler.{Handler}
use open_ocpp_simu.Handler.Requests.{
  flag_remote_start, start_first, remote_start_transaction_requested,
  remote_stop_transaction_requested,
}

-- The sizes of the handler's vectors.
abbrev pub SameVectors : Handler → Handler → Type 0
SameVectors h g =
    (length g.remote_start_pending ≡ length h.remote_start_pending)
    × (length g.remote_stop_pending ≡ length h.remote_stop_pending)
    × (length g.remote_start_id_tags ≡ length h.remote_start_id_tags)

-- A write that succeeds keeps the size.
abbrev IsSized : {A : Type 0} → List A → Option (List A) → Type 0
IsSized xs none = Unit
IsSized xs (some ys) = length ys ≡ length xs

modify_slot-IsSized :
    {A : Type 0} (xs : List A) (id : ℕ) (g : A → A) → IsSized xs (modify_slot xs id g)
modify_slot-IsSized {A} xs id g = go (modify_slot xs id g) refl
  where
    go : (o : Option (List A)) → modify_slot xs id g ≡ o → IsSized xs o
    go none e = tt
    go (some ys) e = length-modify_slot xs ys id g e

pub flag_remote_start-SameVectors :
    (id : ℕ) (tag : Text) (h g : Handler) → flag_remote_start id tag h ≡ some g → SameVectors h g
unfolding flag_remote_start
flag_remote_start-SameVectors id tag h g =
    go (modify_slot h.remote_start_pending id (λ _. true))
      (modify_slot h.remote_start_id_tags id (λ _. tag))
      (modify_slot-IsSized h.remote_start_pending id (λ _. true))
      (modify_slot-IsSized h.remote_start_id_tags id (λ _. tag))
  where
    go :
        (o : Option (List Bool)) (p : Option (List Text))
        → IsSized h.remote_start_pending o
        → IsSized h.remote_start_id_tags p
        → elim o [
          | none ↦ none
          | some ps ↦
              Option.map (λ ts. record h { remote_start_pending = ps; remote_start_id_tags = ts }) p
        ]
          ≡ some g
        → SameVectors h g
    go none p a b e = cc
    go (some ps) none a b e = cc
    go (some ps) (some ts) a b e = ground (arith, a, b, e)

pub start_first-SameVectors :
    (status : ℕ → ChargePointStatus) (before : ChargePointStatus → Bool) (tag : Text) (i n : ℕ)
    (h g : Handler) (b : Bool)
    → start_first status before tag i n h ≡ some (g, b)
    → SameVectors h g
unfolding start_first
start_first-SameVectors status before tag i zero h g b e = ground arith
start_first-SameVectors status before tag i (suc n) h g b e =
    elim (Bool-cases (before (status i))) [
      | inl y ↦ started (flag_remote_start i tag h) refl (ground (arith, y, e))
      | inr y ↦ start_first-SameVectors status before tag (suc i) n h g b (ground (arith, y, e))
    ]
  where
    started :
        (o : Option Handler)
        → flag_remote_start i tag h ≡ o
        → Option.map {B = Handler × Bool} (λ k. (k, true)) o ≡ some (g, b)
        → SameVectors h g
    started none d f = cc
    started (some k) d f = let v = flag_remote_start-SameVectors i tag h k d in ground (arith, v, f)

pub remote_stop-SameVectors :
    (id : ℕ) (h g : Handler) (b : Bool)
    → remote_stop_transaction_requested id h ≡ some (g, b)
    → SameVectors h g
unfolding remote_stop_transaction_requested
remote_stop-SameVectors id h g b =
    go (modify_slot h.remote_stop_pending id (λ _. true))
      (modify_slot-IsSized h.remote_stop_pending id (λ _. true))
  where
    go :
        (o : Option (List Bool))
        → IsSized h.remote_stop_pending o
        → Option.map {B = Handler × Bool} (λ ps. (record h { remote_stop_pending = ps }, true)) o
          ≡ some (g, b)
        → SameVectors h g
    go none a e = cc
    go (some ps) a e = ground (arith, a, e)

pub remote_start-SameVectors :
    (status : ℕ → ChargePointStatus) (before : ChargePointStatus → Bool) (n id : ℕ) (tag : Text)
    (h g : Handler) (b : Bool)
    → remote_start_transaction_requested status before n id tag h ≡ some (g, b)
    → SameVectors h g
unfolding remote_start_transaction_requested
remote_start-SameVectors status before n zero tag h g b e =
    start_first-SameVectors status before tag 1 n h g b e
remote_start-SameVectors status before n (suc i) tag h g b f =
    go (flag_remote_start (suc i) tag h) refl f
  where
    go :
        (o : Option Handler)
        → flag_remote_start (suc i) tag h ≡ o
        → Option.map {B = Handler × Bool} (λ k. (k, true)) o ≡ some (g, b)
        → SameVectors h g
    go none d e = cc
    go (some k) d e =
        let v = flag_remote_start-SameVectors (suc i) tag h k d in ground (arith, v, e)

-- The number of connectors stays, and an end of the application that was received.
abbrev pub SameMqtt : {F : Type 0} → Mqtt F → Mqtt F → Type 0
SameMqtt m n = (length n.connectors ≡ length m.connectors) × (m.ended ≡ true → n.ended ≡ true)

module _ {F : Type 0} where
  mapped-SameMqtt :
      (m n : Mqtt F) (o : Option (List (ConnectorData F (Unit {0}))))
      → IsSized m.connectors o
      → Option.map (λ cs. record m { connectors = cs }) o ≡ some n
      → SameMqtt m n
  mapped-SameMqtt m n none a e = cc
  mapped-SameMqtt m n (some cs) a e = ground (arith, a, e)

  receive_connector-SameMqtt :
      (id : ℕ) (name : Text) (doc : Document F) (m n : Mqtt F)
      → receive_connector id name doc m ≡ some n
      → SameMqtt m n
  unfolding receive_connector
  receive_connector-SameMqtt id name doc m n e =
      let k =
        mapped-SameMqtt m n (modify_slot m.connectors id (receive_data name doc))
          (modify_slot-IsSized m.connectors id (receive_data name doc)) in
      ground (arith, e, k)

  receive_command-SameMqtt :
      (doc : Document F) (m n : Mqtt F) (b : Bool)
      → receive_command doc m ≡ some (n, b)
      → SameMqtt m n
  unfolding receive_command
  receive_command-SameMqtt doc m n b e = ground arith

  named-SameMqtt :
      (name : Text) (doc : Document F) (m n : Mqtt F) (b : Bool) (o : Option Text)
      → elim o [
        | none ↦ none
        | some t ↦
            Option.map {B = Mqtt F × Bool}
              (λ v. (v, false))
              (receive_connector (atoi_u32 t) name doc m)
      ]
        ≡ some (n, b)
      → SameMqtt m n
  named-SameMqtt name doc m n b none e = cc
  named-SameMqtt name doc m n b (some t) e = go (receive_connector (atoi_u32 t) name doc m) refl e
    where
      go :
          (o : Option (Mqtt F))
          → receive_connector (atoi_u32 t) name doc m ≡ o
          → Option.map {B = Mqtt F × Bool} (λ v. (v, false)) o ≡ some (n, b)
          → SameMqtt m n
      go none d e = cc
      go (some v) d e =
          let k = receive_connector-SameMqtt (atoi_u32 t) name doc m v d in ground (arith, k, e)

  -- A message keeps the number of connectors, and an end that was received.
  pub message_received-SameMqtt :
      (parse : Text → Option (Document F)) (topic payload : Text) (m n : Mqtt F) (b : Bool)
      → message_received parse topic payload m ≡ some (n, b)
      → SameMqtt m n
  unfolding message_received
  message_received-SameMqtt parse topic payload m n b = go (parse payload) refl
    where
      go :
          (o : Option (Document F))
          → parse payload ≡ o
          → message_received parse topic payload m ≡ some (n, b)
          → SameMqtt m n
      go none d e =
          let f : message_received parse topic payload m ≡ some (m, false) =
            rw (message_received, d) refl in
          ground (arith, f, e)
      go (some doc) d e = elim (Bool-cases (text_eq (filename topic) (codes "cmd"))) [
        | inl y ↦
            let f : message_received parse topic payload m ≡ receive_command doc m =
              rw (message_received, d, y) refl in
            receive_command-SameMqtt doc m n b (sym f ∙ e)
        | inr y ↦
            let f : message_received parse topic payload m ≡ elim (before_last (elements topic)) [
              | none ↦ none
              | some t ↦
                  Option.map {B = Mqtt F × Bool} (λ v. (v, false))
                    (receive_connector (atoi_u32 t) (filename topic) doc m)
            ] =
              rw (message_received, d, y) refl in
            named-SameMqtt (filename topic) doc m n b (before_last (elements topic)) (sym f ∙ e)
      ]
