-- ===== src/Startup/LauncherMain.antt =====
-- The launcher's `main`, up to its connection loop.
use open_ocpp_simu.Common.{
  ℕ, zero, suc, Bool, true, false, not, ◌&&◌, Option, none, some, List, [], ◌∷◌, Text, codes,
  text_eq, is_empty, length, if◌then◌else◌,
}
use open_ocpp_simu.Certificates.Files.{join}
use open_ocpp_simu.Launcher
use open_ocpp_simu.Launcher.{Launcher, start_charge_points}

pub record LauncherParams : Type 0 where
  pub working_dir : Text
  pub broker_url : Text
  pub config_file : Text
  pub reset_working_dir : Bool

abbrev pub launcher_defaults : LauncherParams
launcher_defaults = record {
  working_dir = [];
  broker_url = codes "tcp://localhost:1883";
  config_file = [];
  reset_working_dir = false;
}

pub data LauncherArg : Type 0 where
  next : LauncherParams → List Text → LauncherArg
  bad_param : Option Text → LauncherArg

abbrev pub launcher_value : List Text → (Text → LauncherParams) → Option LauncherArg
launcher_value [] set = none
launcher_value (v ∷ rest) set = some (next (set v) rest)

-- The body of the loop on the arguments, `none` for the null pointer.
unfoldable pub launcher_arg : Text → List Text → LauncherParams → Option LauncherArg
launcher_arg a rest p =
    if text_eq a (codes "-h")
    then some (bad_param none)
    else if text_eq a (codes "-w")
    then launcher_value rest (λ v. record p { working_dir = v })
    else if text_eq a (codes "-b")
    then launcher_value rest (λ v. record p { broker_url = v })
    else if text_eq a (codes "-c")
    then launcher_value rest (λ v. record p { config_file = v })
    else if text_eq a (codes "-r")
    then some (next (record p { reset_working_dir = true }) rest)
    else some (bad_param (some a))

pub data LauncherParsed : Type 0 where
  out_of_fuel null_read : LauncherParsed
  usage : Option Text → LauncherParsed
  parsed : LauncherParams → LauncherParsed

unfoldable pub launcher_loop : ℕ → List Text → LauncherParams → LauncherParsed
launcher_loop fuel [] p = parsed p
launcher_loop zero (a ∷ args) p = out_of_fuel
launcher_loop (suc fuel) (a ∷ args) p = elim (launcher_arg a args p) [
  | none ↦ null_read
  | some (bad_param b) ↦ usage b
  | some (next q rest) ↦ launcher_loop fuel rest q
]

-- What the launcher reads outside: whether the directory is there or can be made, after it was removed or not, the
-- files, and the charge points of a JSON text, `none` for a text that is not valid or has no array of them.
pub record Outside (F : Type 0) : Type 0 where
  pub has_dir : Bool → Text → Bool
  pub makes_dir : Text → Bool
  pub read_file : Text → Option Text
  pub charge_points : Text → Option (List (Launcher.Entry F))

-- The program returns 1, reads the null pointer, or goes on to its connection loop.
pub data Begun (F : Type 0) : Type 0 where
  returns_1 reads_null : Begun F
  begins : LauncherParams → Launcher F → Begun F

module _ {F : Type 0} (out : Outside F) where
  -- The charge points of a configuration file are started; one that does not start is only reported.
  abbrev pub start_configured : LauncherParams → Launcher F → Option Text → Begun F
  start_configured p l none = returns_1
  start_configured p l (some text) = elim (out.charge_points text) [
    | none ↦ returns_1
    | some es ↦ begins p (start_charge_points true es l).1
  ]

  abbrev pub new_launcher : Text → Launcher F
  new_launcher broker_url = record {
    broker_url = broker_url;
    ended = false;
    cp_status = [];
    cp_pids = [];
    effects = [];
  }

  unfoldable pub begin_with : LauncherParams → Begun F
  begin_with p =
      let dir = join p.working_dir (codes "chargepoints") in
      if not (out.has_dir p.reset_working_dir dir) && not (out.makes_dir dir)
      then returns_1
      else if not (is_empty p.config_file)
      then start_configured p (new_launcher p.broker_url) (out.read_file p.config_file)
      else begins p (new_launcher p.broker_url)

  abbrev pub after_arguments : LauncherParsed → Begun F
  after_arguments out_of_fuel = returns_1
  after_arguments null_read = reads_null
  after_arguments (usage param) = returns_1
  after_arguments (parsed p) = begin_with p

  unfoldable pub launcher_main : List Text → Begun F
  launcher_main args = after_arguments (launcher_loop (length args) args launcher_defaults)
