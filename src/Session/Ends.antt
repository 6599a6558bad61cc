-- ===== src/Session/Ends.antt =====
-- The connection loops end once the end of the application is read, and leave no handle.
use open_ocpp_simu.Common.{
  ℕ, zero, suc, ◌+◌, ◌≤◌, ◌<◌, ◌≡◌, refl, Bool, true, Bool-cases, inl, inr, Option, none, some, All,
  arith,
}
use open_ocpp_simu.Paho.Library.{Will, qos_0, PahoLib}
use open_ocpp_simu.Paho.{PahoClient, close}
use open_ocpp_simu.Paho.Requests.{Request}
use open_ocpp_simu.Paho.Resources.{handle}
use open_ocpp_simu.Session.{
  Plan, Session, publish_status, attempt, after_attempt, connection_loop, run_session, initial,
}
use open_ocpp_simu.Session.Ready.{IsWilled, will_of, IsReady, IsReady-perform, IsReady-with_will}
use open_ocpp_simu.Session.Runs.{IsAfter, Gives, Gives-map, before_last, attempt-Gives}

module _ (lib : PahoLib) (ended : ℕ → Bool) (w : Will) (last : ℕ)
    (stays : (n : ℕ) → last ≤ n → ended n ≡ true) where
  after_attempt-IsAfter :
      (plan : Plan) (s : Session)
      → IsReady w s.client
      → IsAfter w s (after_attempt lib ended plan s)
        × (suc s.reads ≤ (after_attempt lib ended plan s).reads)
  unfolding after_attempt publish_status
  after_attempt-IsAfter plan s h = elim (Bool-cases (ended s.reads)) [
    | inl e ↦ rw e (
      (
        IsReady-perform lib w (Request.publish plan.status_topic plan.dead qos_0 true) s.client tt
            h,
        omega arith,
      ),
      omega arith,
    )
    | inr e ↦ rw e ((IsReady-perform lib w Request.close s.client tt h, omega arith), omega arith)
  ]

  connection_step :
      (fuel : ℕ) (plan : Plan) (s : Session) (o : Option Session)
      → attempt lib ended (suc fuel) plan s ≡ o
      → Gives (IsAfter w s) o
      → last < s.reads + suc fuel
      → ((v : Session)
          → IsReady w v.client
          → 0 < fuel
          → last < v.reads + fuel
          → Gives (IsAfter w v) (connection_loop lib ended fuel plan v))
      → Gives (IsAfter w s) (connection_loop lib ended (suc fuel) plan s)
  unfolding connection_loop
  connection_step fuel plan s none e g l more = elim g [ ]
  connection_step fuel plan s (some t) e g l more =
      let u = after_attempt lib ended plan t in
      let v = record u { reads = suc u.reads } in
      let (h, m) = after_attempt-IsAfter plan t g.0 in
      elim (Bool-cases (ended u.reads)) [
        | inl d ↦ rw (connection_loop, e, d) (h.0, omega (arith, m, g.1))
        | inr d ↦
            let b = before_last lib ended w last stays u.reads d in
            rw (connection_loop, e, d)
              (Gives-map (IsAfter w v) (IsAfter w s) (connection_loop lib ended fuel plan v)
                (λ x f. (f.0, omega (arith, f.1, m, g.1)))
                (more v h.0 (omega (arith, b, l, m, g.1)) (omega (arith, b, l, m, g.1))))
      ]

  connection_loop-Gives :
      (fuel : ℕ) (plan : Plan) (s : Session)
      → IsReady w s.client
      → 0 < fuel
      → last < s.reads + fuel
      → Gives (IsAfter w s) (connection_loop lib ended fuel plan s)
  connection_loop-Gives zero plan s h z l = absurd (omega (arith, z))
  connection_loop-Gives (suc fuel) plan s h z l =
      connection_step fuel plan s (attempt lib ended (suc fuel) plan s) refl
        (attempt-Gives lib ended w last stays fuel plan s h l) l
        λ v. connection_loop-Gives fuel plan v

abbrev IsReleased : Plan → Option PahoClient → Type 0
IsReleased plan o =
    (c : PahoClient) × (o ≡ some c)
    × (c.client ≡ none)
    × (handle c.calls ≡ some none)
    × All (IsWilled (will_of plan)) c.calls

close-IsReleased :
    (w : Will) (c : PahoClient)
    → IsReady w c
    → ((close c).1.client ≡ none)
      × (handle (close c).1.calls ≡ some none)
      × All (IsWilled w) (close c).1.calls
unfolding close
close-IsReleased w c (h, will, all) =
    let kept = h.handle_kept in (ground arith, ground arith, ground arith)

run_session-IsReleased :
    (lib : PahoLib) (ended : ℕ → Bool) (plan : Plan) (fuel : ℕ) (o : Option Session)
    → connection_loop lib ended fuel plan (initial plan) ≡ o
    → Gives (IsAfter (will_of plan) (initial plan)) o
    → IsReleased plan (run_session lib ended fuel plan)
unfolding run_session
run_session-IsReleased lib ended plan fuel none e g = elim g [ ]
run_session-IsReleased lib ended plan fuel (some t) e g =
    let (a, b, d) = close-IsReleased (will_of plan) t.client g.0 in
    ((close t.client).1, rw (run_session, e) refl, a, b, d)

-- Once the end of the application is read and stays, the program leaves its connection loop, with as much fuel as reads. It
-- then has no handle of the library, no call used one that was not there, and every connection to the broker was made
-- with the will that its status is dead.
pub run_session-ends :
    (lib : PahoLib) (ended : ℕ → Bool) (plan : Plan) (last : ℕ)
    → ((n : ℕ) → last ≤ n → ended n ≡ true)
    → (c : PahoClient) × (run_session lib ended (suc last) plan ≡ some c)
      × (c.client ≡ none)
      × (handle c.calls ≡ some none)
      × All (IsWilled (will_of plan)) c.calls
run_session-ends lib ended plan last stays =
    run_session-IsReleased lib ended plan (suc last)
      (connection_loop lib ended (suc last) plan (initial plan)) refl
      (connection_loop-Gives lib ended (will_of plan) last stays (suc last) plan (initial plan)
        (IsReady-with_will plan) (omega arith) (omega arith))
