-- ===== src/Paho/Resources.antt =====
-- The handles of the library: no operation leaks one, or uses one that is gone.
use open_ocpp_simu.Common.{
  ℕ, ◌==◌, ◌≡◌, refl, true, false, Option, none, some, List, [], ◌∷◌, Text, arith, if◌then◌else◌,
}
use mathlib.Core.Logic.{◌↔◌}
use open_ocpp_simu.Paho.Library.{LibCall, LibCalls, PahoLib}
use open_ocpp_simu.Paho.Requests.{Request, perform, perform_all}
use open_ocpp_simu.Paho.{
  PahoClient, new_client, set_will, close, connect, publish, subscribe, unsubscribe, is_connected,
}

-- The handle that a record of calls leaves, if it respects the library: `none` for no handle, and
-- the outer `none` if the calls create a second handle or use another one than the one created.
abbrev pub uses : ℕ → Option (Option ℕ) → Option (Option ℕ)
uses h none = none
uses h (some none) = none
uses h (some (some g)) = if h == g then some (some g) else none

abbrev pub handle : LibCalls → Option (Option ℕ)
handle [] = some none
handle (LibCall.created h url id ∷ r) = elim (handle r) [
  | none ↦ none
  | some o ↦ elim o [ none ↦ some (some h) | some g ↦ none ]
]
handle (LibCall.not_created url id ∷ r) = handle r
handle (LibCall.set_callbacks h ∷ r) = uses h (handle r)
handle (LibCall.connect h clean timeout keep w ∷ r) = uses h (handle r)
handle (LibCall.publish h topic message qos retained ∷ r) = uses h (handle r)
handle (LibCall.wait_for_completion h token timeout ∷ r) = uses h (handle r)
handle (LibCall.subscribe h topic qos ∷ r) = uses h (handle r)
handle (LibCall.unsubscribe h topic ∷ r) = uses h (handle r)
handle (LibCall.disconnect h timeout ∷ r) = uses h (handle r)
handle (LibCall.is_connected h ∷ r) = uses h (handle r)
handle (LibCall.destroy h ∷ r) = elim (uses h (handle r)) [ none ↦ none | some o ↦ some none ]

-- The calls respect the library and leave the client's handle, and without a handle the URL is empty.
pub record IsClean (c : PahoClient) : Type 0 where
  pub handle_kept : handle c.calls ≡ some c.client
  pub url_empty : c.client ≡ none → c.url ≡ []

pub new_client-IsClean : (id : Text) → IsClean (new_client id)
unfolding new_client
new_client-IsClean id = record { handle_kept = refl; url_empty = λ _. refl }

==-refl : (h : ℕ) → (h == h) ≡ true
==-refl h = ground arith

pub perform-IsClean :
    (lib : PahoLib) (r : Request) (c : PahoClient) → IsClean c → IsClean (perform lib r c).1
unfolding set_will connect publish subscribe unsubscribe close is_connected
perform-IsClean lib (Request.set_will w) c h = ground arith
perform-IsClean lib (Request.connect url clean timeout keep) c h = ground arith
perform-IsClean lib (Request.publish topic message qos retained) c h = ground arith
perform-IsClean lib (Request.subscribe topic qos) c h = ground arith
perform-IsClean lib (Request.unsubscribe topic) c h = ground arith
perform-IsClean lib Request.close c h = ground arith
perform-IsClean lib Request.is_connected c h = ground arith

-- Any sequence of calls of the interface respects the library: it never creates a second handle, and
-- uses no handle that is not there. The handle left is the one that `m_client` holds, and the URL is
-- empty without one.
pub perform_all-IsClean :
    (lib : PahoLib) (rs : List Request) (id : Text) → IsClean (perform_all lib rs (new_client id))
perform_all-IsClean lib rs id = go rs (new_client id) (new_client-IsClean id)
  where
    go : (qs : List Request) (c : PahoClient) → IsClean c → IsClean (perform_all lib qs c)
    go [] c h = h
    go (q ∷ qs) c h = go qs (perform lib q c).1 (perform-IsClean lib q c h)

-- After any sequence of calls, `close` leaves no handle, and returns false exactly if there was
-- none.
pub close-perform_all :
    (lib : PahoLib) (rs : List Request) (id : Text)
    → let c = perform_all lib rs (new_client id) in
      let r = close c in
      (handle r.1.calls ≡ some none) × (r.1.client ≡ none) × ((r.0 ≡ false) ↔ (c.client ≡ none))
unfolding close
close-perform_all lib rs id =
    let h = perform_all-IsClean lib rs id in (ground arith, ground arith, ground arith)
