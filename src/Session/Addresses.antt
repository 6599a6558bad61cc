-- ===== src/Session/Addresses.antt =====
-- The topics that the programs publish on, as `std::filesystem::path` takes them apart.
use open_ocpp_simu.Common.{
  ℕ, zero, suc, ◌==◌, Bool, true, false, ◌≡◌, refl, ap, ◌∙◌, some, List, [], ◌∷◌, ◌++◌, Text, codes,
  is_empty, arith, if◌then◌else◌, ◌+◌, ◌%◌, ◌/◌,
}
use open_ocpp_simu.Mqtt.Topics.{segments, last_segment, filename, names, elements, before_last}
use open_ocpp_simu.Certificates.Names.{has_slash}
use open_ocpp_simu.Startup.Decimal.{digits, to_string}

segments_cons : (s : Text) → (x : Text) × (rest : List Text) × (segments s ≡ x ∷ rest)
unfolding segments
segments_cons [] = ([], [], refl)
segments_cons (c ∷ s) = let (x, rest, e) = segments_cons s in go (c == 47) x rest e
  where
    go :
        (b : Bool) (x : Text) (rest : List Text)
        → segments s ≡ x ∷ rest
        → (y : Text) × (more : List Text) × (elim (segments s) [
          | [] ↦ []
          | seg ∷ r ↦ if b then [] ∷ seg ∷ r else (c ∷ seg) ∷ r
        ]
            ≡ y ∷ more)
    go true x rest e = ([], x ∷ rest, rw e refl)
    go false x rest e = (c ∷ x, rest, rw e refl)

-- A text without slashes before a slash is a segment.
pub segments-slash : (a s : Text) → has_slash a ≡ false → segments (a ++ (47 ∷ s)) ≡ a ∷ segments s
unfolding segments has_slash
segments-slash [] s h = let (x, rest, e) = segments_cons s in rw (segments, e) refl
segments-slash (c ∷ a) s h =
    let plain : ((c == 47) ≡ false) × (has_slash a ≡ false) = ground (arith, h) in
    rw (segments, segments-slash a s plain.1, plain.0) refl

pub segments-plain : (a : Text) → has_slash a ≡ false → segments a ≡ a ∷ []
unfolding segments has_slash
segments-plain [] h = refl
segments-plain (c ∷ a) h =
    let plain : ((c == 47) ≡ false) × (has_slash a ≡ false) = ground (arith, h) in
    rw (segments, segments-plain a plain.1, plain.0) refl

append_slash : (a b : Text) → (a ++ codes "/") ++ b ≡ a ++ (47 ∷ b)
append_slash [] b = refl
append_slash (c ∷ a) b = ap (λ s. c ∷ s) (append_slash a b)

-- The last element and the one before it of a topic of a charge point.
pub status_topic_lem :
    (id : Text)
    → has_slash id ≡ false
    → is_empty id ≡ false
    → let topic = (codes "cp_simu/cps/" ++ (id ++ codes "/")) ++ codes "status" in
      (filename topic ≡ codes "status") × (before_last (elements topic) ≡ some id)
unfolding filename last_segment elements names before_last has_slash
status_topic_lem id h n =
    let rest = id ++ (47 ∷ codes "status") in
    let e : segments (codes "cp_simu/cps/" ++ rest)
        ≡ codes "cp_simu" ∷ codes "cps" ∷ id ∷ codes "status" ∷ [] =
      segments-slash (codes "cp_simu") (codes "cps/" ++ rest) refl
      ∙ ap (λ s. codes "cp_simu" ∷ s)
          (segments-slash (codes "cps") rest refl
            ∙ ap (λ s. codes "cps" ∷ s)
                (segments-slash id (codes "status") h
                  ∙ ap (λ s. id ∷ s) (segments-plain (codes "status") refl))) in
    rw (append_slash id (codes "status"))
      (ap last_segment e, ap (λ ss. before_last (names false ss)) e ∙ rw n refl)

-- The last two elements of a topic about a connector.
pub connector_topic_lem :
    (id x name : Text)
    → has_slash id ≡ false
    → is_empty id ≡ false
    → has_slash x ≡ false
    → is_empty x ≡ false
    → has_slash name ≡ false
    → is_empty name ≡ false
    → let topic =
        (codes "cp_simu/cps/" ++ (id ++ codes "/"))
        ++ (codes "connectors/" ++ (x ++ (47 ∷ name))) in
      (filename topic ≡ name) × (before_last (elements topic) ≡ some x)
unfolding filename last_segment elements names before_last has_slash
connector_topic_lem id x name h n hx nx hn nn =
    let rest = x ++ (47 ∷ name) in
    let more = codes "connectors/" ++ rest in
    let last : segments more ≡ codes "connectors" ∷ x ∷ name ∷ [] =
      segments-slash (codes "connectors") rest refl
      ∙ ap (λ s. codes "connectors" ∷ s)
          (segments-slash x name hx ∙ ap (λ s. x ∷ s) (segments-plain name hn)) in
    let e : segments (codes "cp_simu/cps/" ++ (id ++ (47 ∷ more)))
        ≡ codes "cp_simu" ∷ codes "cps" ∷ id ∷ codes "connectors" ∷ x ∷ name ∷ [] =
      segments-slash (codes "cp_simu") (codes "cps/" ++ (id ++ (47 ∷ more))) refl
      ∙ ap (λ s. codes "cp_simu" ∷ s)
          (segments-slash (codes "cps") (id ++ (47 ∷ more)) refl
            ∙ ap (λ s. codes "cps" ∷ s) (segments-slash id more h ∙ ap (λ s. id ∷ s) last)) in
    rw (append_slash id more)
      (ap last_segment e, ap (λ ss. before_last (names false ss)) e ∙ rw (n, nx, nn) refl)

slash-digit :
    (d : ℕ) (after : Text) → has_slash after ≡ false → has_slash ((48 + d) ∷ after) ≡ false
unfolding has_slash
slash-digit d after h = ground (arith, h)

digits-plain :
    (fuel n : ℕ) (after : Text)
    → has_slash after ≡ false
    → is_empty after ≡ false
    → (has_slash (digits fuel n after) ≡ false) × (is_empty (digits fuel n after) ≡ false)
unfolding digits
digits-plain zero n after h e = (h, e)
digits-plain (suc fuel) n after h e =
    let (plain, full) =
      digits-plain fuel (n / 10) ((48 + n % 10) ∷ after) (slash-digit (n % 10) after h) refl in
    let one = slash-digit n after h in (ground (arith, plain, one), ground (arith, full))

-- A printed number has no slash, and is not empty.
pub to_string-plain : (n : ℕ) → (has_slash (to_string n) ≡ false) × (is_empty (to_string n) ≡ false)
unfolding to_string digits has_slash
to_string-plain n =
    let (plain, full) =
      digits-plain 9 (n / 10) ((48 + n % 10) ∷ []) (slash-digit (n % 10) [] refl) refl in
    let one = slash-digit n [] refl in (ground (arith, plain, one), ground (arith, full))
