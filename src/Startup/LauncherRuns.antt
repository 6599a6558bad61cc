-- ===== src/Startup/LauncherRuns.antt =====
-- The launcher's loop on its arguments ends, and a configuration file starts its charge points.
use open_ocpp_simu.Common.{
  ℕ, zero, suc, ◌≤◌, ◌≡◌, ◌≢◌, refl, Bool, true, false, Option, none, some, List, [], ◌∷◌, Text,
  codes, text_eq, length, arith, is_empty, ◌||◌, Bool-cases, inl, inr, if◌then◌else◌,
}
use open_ocpp_simu.Certificates.Files.{join}
use open_ocpp_simu.Launcher
use open_ocpp_simu.Launcher.{Launcher, start_charge_points}
use open_ocpp_simu.Launcher.Commands.{
  Payload, launcher_message_received, dispatch_message, command_received, with_charge_points,
}
use open_ocpp_simu.Mqtt.Topics.{filename, last_segment, segments}
use open_ocpp_simu.Startup.LauncherMain.{
  LauncherParams, LauncherArg, next, bad_param, launcher_value, launcher_arg, out_of_fuel,
  null_read, usage, launcher_loop, Outside, begins, new_launcher, start_configured, begin_with,
  launcher_main,
}

-- A step leaves no more arguments than there were.
abbrev IsShort : List Text → Option LauncherArg → Type 0
IsShort rest none = Unit
IsShort rest (some (bad_param b)) = Unit
IsShort rest (some (next p left)) = length left ≤ length rest

if-IsShort :
    (rest : List Text) (b : Bool) (x y : Option LauncherArg)
    → IsShort rest x
    → IsShort rest y
    → IsShort rest (if b then x else y)
if-IsShort rest true x y h k = h
if-IsShort rest false x y h k = k

value-IsShort :
    (rest : List Text) (set : Text → LauncherParams) → IsShort rest (launcher_value rest set)
value-IsShort [] set = tt
value-IsShort (v ∷ rest) set = omega arith

launcher_arg-IsShort :
    (a : Text) (rest : List Text) (p : LauncherParams) → IsShort rest (launcher_arg a rest p)
unfolding launcher_arg
launcher_arg-IsShort a rest p =
    let w = value-IsShort rest (λ v. record p { working_dir = v }) in
    let b = value-IsShort rest (λ v. record p { broker_url = v }) in
    let c = value-IsShort rest (λ v. record p { config_file = v }) in
    let same : length rest ≤ length rest = omega arith in
    if-IsShort rest (text_eq a (codes "-h")) (some (bad_param none)) _ tt (
      if-IsShort rest (text_eq a (codes "-w")) _ _ w (
        if-IsShort rest (text_eq a (codes "-b")) _ _ b (
          if-IsShort rest (text_eq a (codes "-c")) _ _ c (
            if-IsShort rest (text_eq a (codes "-r"))
              (some (next (record p { reset_working_dir = true }) rest)) (some (bad_param (some a)))
              same tt))))

-- As much fuel as there are arguments is enough.
pub launcher_loop-ends :
    (fuel : ℕ) (args : List Text) (p : LauncherParams)
    → length args ≤ fuel
    → launcher_loop fuel args p ≢ out_of_fuel
unfolding launcher_loop
launcher_loop-ends fuel [] p h = λ e. cc
launcher_loop-ends zero (a ∷ args) p h = absurd (omega (arith, h))
launcher_loop-ends (suc fuel) (a ∷ args) p h =
    go (launcher_arg a args p) (launcher_arg-IsShort a args p)
      λ rest q s. launcher_loop-ends fuel rest q (omega (arith, s, h))
  where
    go :
        (o : Option LauncherArg)
        → IsShort args o
        → ((rest : List Text) (q : LauncherParams)
            → length rest ≤ length args
            → launcher_loop fuel rest q ≢ out_of_fuel)
        → elim o [
          | none ↦ null_read
          | some (bad_param b) ↦ usage b
          | some (next q rest) ↦ launcher_loop fuel rest q
        ]
          ≢ out_of_fuel
    go none s more = λ e. cc
    go (some (bad_param b)) s more = λ e. cc
    go (some (next q rest)) s more = more rest q s

is_empty-no : (t : Text) → t ≢ [] → is_empty t ≡ false
is_empty-no [] h = absurd (h refl)
is_empty-no (c ∷ t) h = refl

module _ {F : Type 0} (out : Outside F) where
  begin_with-configured :
      (p : LauncherParams) (text : Text) (es : List (Launcher.Entry F))
      → p.config_file ≢ []
      → (let dir = join p.working_dir (codes "chargepoints") in
          out.has_dir p.reset_working_dir dir || out.makes_dir dir)
        ≡ true
      → out.read_file p.config_file ≡ some text
      → out.charge_points text ≡ some es
      → begin_with out p ≡ begins p (start_charge_points true es (new_launcher out p.broker_url)).1
  unfolding begin_with
  begin_with-configured p text es n d r c =
      let file : is_empty p.config_file ≡ false = is_empty-no p.config_file n in
      elim (Bool-cases
        (out.has_dir p.reset_working_dir (join p.working_dir (codes "chargepoints")))) [
          | inl e ↦ rw (begin_with, e, file, r, start_configured, c) refl
          | inr e ↦
              let made : out.makes_dir (join p.working_dir (codes "chargepoints")) ≡ true =
                ground (arith, d, e) in
              rw (begin_with, e, made, file, r, start_configured, c) refl
        ]

  -- The configuration file of the launcher is a start command: with a directory that is there or
  -- can be made, a broker and a configuration file that lists charge points, the launcher goes on
  -- to the broker, and is then as a new launcher is after a message `start` with the same charge
  -- points on its command topic.
  pub launcher_main-configured :
      (parse : Text → Option (Payload F)) (kills : List (Launcher.Effect F) → Bool)
      (working_dir broker_url config_file text message : Text) (es : List (Launcher.Entry F))
      (p : Payload F)
      → config_file ≢ []
      → (let dir = join working_dir (codes "chargepoints") in
          out.has_dir false dir || out.makes_dir dir)
        ≡ true
      → out.read_file config_file ≡ some text
      → out.charge_points text ≡ some es
      → is_empty message ≡ false
      → parse message ≡ some p
      → p.type ≡ some (codes "start")
      → p.charge_points ≡ some es
      → (l : Launcher F) × (launcher_main out
            (codes "-w" ∷ working_dir ∷ codes "-b" ∷ broker_url ∷ codes "-c" ∷ config_file ∷ [])
          ≡ begins
              (record {
                working_dir = working_dir;
                broker_url = broker_url;
                config_file = config_file;
                reset_working_dir = false;
              })
              l)
        × (launcher_message_received parse kills
              (codes "cp_simu/launcher/cmd")
              message
              (new_launcher out broker_url)
            ≡ some l)
  unfolding launcher_main launcher_loop launcher_arg text_eq launcher_message_received
      dispatch_message command_received with_charge_points filename last_segment segments
  launcher_main-configured parse kills w b file text message es p n d r c full parsed type cps = (
    (start_charge_points true es (new_launcher out b)).1,
    begin_with-configured
        (record { working_dir = w; broker_url = b; config_file = file; reset_working_dir = false })
        text es n d r c,
    rw (full, parsed, type, cps) refl,
  )
