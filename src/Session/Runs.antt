-- ===== src/Session/Runs.antt =====
-- The attempts to connect end once the end of the application is read.
use open_ocpp_simu.Common.{
  ℕ, zero, suc, ◌+◌, ◌≤◌, ◌<◌, ◌≡◌, Bool, true, false, Bool-cases, inl, inr, Option, none, some,
  List, [], ◌∷◌, Text, arith, dec_lt,
}
use open_ocpp_simu.Paho.Library.{Will, qos_0, PahoLib}
use open_ocpp_simu.Paho.{connect, subscribe, is_connected}
use open_ocpp_simu.Paho.Requests.{Request}
use open_ocpp_simu.Session.{
  Plan, Session, call, subscribe_all, publish_status, publish_alive, wait_loop, log_connection,
  attempt,
}
use open_ocpp_simu.Session.Ready.{IsReady, IsReady-perform}

-- From a session to a later one.
abbrev pub IsAfter : Will → Session → Session → Type 0
IsAfter w s t = IsReady w t.client × (s.reads ≤ t.reads)

abbrev pub Gives : (Session → Type 0) → Option Session → Type 0
Gives P none = ⊥
Gives P (some s) = P s

pub Gives-map :
    (P Q : Session → Type 0) (o : Option Session)
    → ((s : Session) → P s → Q s)
    → Gives P o
    → Gives Q o
Gives-map P Q none f h = h
Gives-map P Q (some s) f h = f s h

module _ (lib : PahoLib) (ended : ℕ → Bool) (w : Will) where
  subscribe_all-IsAfter :
      (ts : List Text) (s : Session)
      → IsReady w s.client
      → IsAfter w s (subscribe_all lib ended ts s).1
  unfolding subscribe_all
  subscribe_all-IsAfter [] s h = (h, omega arith)
  subscribe_all-IsAfter (t ∷ ts) s h =
      let r = call lib ended (subscribe lib t qos_0) s in
      let h2 = IsReady-perform lib w (Request.subscribe t qos_0) s.client tt h in
      elim (Bool-cases r.0) [
        | inl e ↦ rw e (subscribe_all-IsAfter ts r.1 h2)
        | inr e ↦ rw e (h2, omega arith)
      ]

  publish_alive-IsAfter :
      (plan : Plan) (message : Option Text) (s : Session)
      → IsReady w s.client
      → IsAfter w s (publish_alive lib ended plan message s)
  unfolding publish_status
  publish_alive-IsAfter plan none s h = (h, omega arith)
  publish_alive-IsAfter plan (some m) s h = (
    IsReady-perform lib w (Request.publish plan.status_topic m qos_0 true) s.client tt h,
    omega arith,
  )

  module _ (last : ℕ) (stays : (n : ℕ) → last ≤ n → ended n ≡ true) where
    pub before_last : (n : ℕ) → ended n ≡ false → n < last
    before_last n h = elim (dec_lt n last) [
      | yes l ↦ l
      | no l ↦ let e = stays n (omega arith) in absurd cc
    ]

    wait_loop-Gives :
        (fuel : ℕ) (s : Session)
        → IsReady w s.client
        → last < s.reads + suc fuel
        → Gives (IsAfter w s) (wait_loop lib ended (suc fuel) s)
    unfolding wait_loop
    wait_loop-Gives zero s h l = rw (stays s.reads (omega (arith, l))) (h, omega arith)
    wait_loop-Gives (suc fuel) s h l = elim (Bool-cases (ended s.reads)) [
      | inl e ↦ rw e (h, omega arith)
      | inr e ↦
          let t = record s { reads = suc s.reads } in
          let r = call lib ended (is_connected lib) t in
          let h2 = IsReady-perform lib w Request.is_connected s.client tt h in
          elim (Bool-cases r.0) [
            | inl c ↦
                rw (e, c)
                  (Gives-map (IsAfter w r.1) (IsAfter w s) (wait_loop lib ended (suc fuel) r.1)
                    (λ u g. (g.0, omega (arith, g.1)))
                    (wait_loop-Gives fuel r.1 h2 (omega (arith, l))))
            | inr c ↦ rw (e, c) (h2, omega arith)
          ]
    ]

    log_connection-Gives :
        (s : Session) (o : Option Session)
        → Gives (IsAfter w s) o
        → Gives (IsAfter w s) (log_connection lib ended o)
    log_connection-Gives s none h = h
    log_connection-Gives s (some t) h =
        (IsReady-perform lib w Request.is_connected t.client tt h.0, h.1)

    pub attempt-Gives :
        (fuel : ℕ) (plan : Plan) (s : Session)
        → IsReady w s.client
        → last < s.reads + suc fuel
        → Gives (IsAfter w s) (attempt lib ended (suc fuel) plan s)
    unfolding attempt
    attempt-Gives fuel plan s h l =
        let c = call lib ended (connect lib plan.broker_url true 1 10) s in
        let h1 = IsReady-perform lib w (Request.connect plan.broker_url true 1 10) s.client tt h in
        let b = subscribe_all lib ended plan.topics c.1 in
        let (h2, l2) = subscribe_all-IsAfter plan.topics c.1 h1 in
        let p = publish_alive lib ended plan plan.alive b.1 in
        let (h3, l3) = publish_alive-IsAfter plan plan.alive b.1 h2 in
        elim (Bool-cases c.0) [
          | inr e ↦ rw e (h1, omega arith)
          | inl e ↦ elim (Bool-cases b.0) [
            | inr d ↦ rw (e, d) (h2, omega (arith, l2))
            | inl d ↦
                rw (e, d)
                  (Gives-map (IsAfter w p) (IsAfter w s)
                    (log_connection lib ended (wait_loop lib ended (suc fuel) p))
                    (λ u g. (g.0, omega (arith, g.1, l2, l3)))
                    (log_connection-Gives p (wait_loop lib ended (suc fuel) p)
                      (wait_loop-Gives fuel p h3 (omega (arith, l, l2, l3)))))
          ]
        ]
