-- ===== src/Startup/Arguments.antt =====
-- The loop on the arguments of the charge point. `none` is the null pointer after the last argument,
-- which an option that lacks its value reads.
use open_ocpp_simu.Common.{
  ℕ, zero, suc, ◌==◌, Bool, true, false, not, Option, none, some, List, [], ◌∷◌, ◌++◌, Text, codes,
  text_eq, ltb, length, if◌then◌else◌,
}
use open_ocpp_simu.Mqtt.Topics.{atoi_u32}

pub record Params : Type 0 where
  pub working_dir : Text
  pub connection_url : Text
  pub chargepoint_id : Text
  pub serial_number : Text
  pub nb_connectors : ℕ
  pub nb_phases : ℕ
  pub mqtt_broker_url : Text
  pub max_charge_point_setpoint : ℕ
  pub max_connector_setpoint : ℕ
  -- a set, in the order of its texts
  pub diag_files : List Text
  pub chargepoint_type : Text
  pub vendor_name : Text
  pub operating_voltage : ℕ

abbrev pub default_params : Params
default_params = record {
  working_dir = [];
  connection_url = [];
  chargepoint_id = [];
  serial_number = [];
  nb_connectors = 1;
  nb_phases = 3;
  mqtt_broker_url = codes "tcp://localhost:1883";
  max_charge_point_setpoint = 32;
  max_connector_setpoint = 32;
  diag_files = codes "ocpp.db" ∷ [];
  chargepoint_type = codes "AC";
  vendor_name = [];
  operating_voltage = 0;
}

-- `<` of strings
unfoldable pub text_lt : Text → Text → Bool
text_lt [] [] = false
text_lt [] (d ∷ t) = true
text_lt (c ∷ s) [] = false
text_lt (c ∷ s) (d ∷ t) =
    let rest = text_lt s t in if ltb c d then true else if ltb d c then false else rest

-- `std::set::insert`
unfoldable pub insert_file : Text → List Text → List Text
insert_file f [] = f ∷ []
insert_file f (g ∷ gs) =
    let rest = insert_file f gs in
    if text_lt f g then f ∷ g ∷ gs else if text_lt g f then g ∷ rest else g ∷ gs

-- `*argv[1] != '-'`
abbrev pub is_value : Text → Bool
is_value [] = true
is_value (c ∷ s) = not (c == 45)

-- The loops on the further values of `-f` and of `-v`, and the arguments that are left.
unfoldable pub more_files : List Text → List Text → List Text × List Text
more_files files [] = (files, [])
more_files files (a ∷ args) =
    let rest = more_files (insert_file a files) args in
    if is_value a then rest else (files, a ∷ args)

unfoldable pub more_words : Text → List Text → Text × List Text
more_words name [] = (name, [])
more_words name (a ∷ args) =
    let rest = more_words (name ++ (codes " " ++ a)) args in
    if is_value a then rest else (name, a ∷ args)

-- After an argument: the parameters and the arguments that are left, or the end of the loop with the parameter
-- that is reported.
pub data ArgStep : Type 0 where
  next : Params → List Text → ArgStep
  bad_param : Option Text → ArgStep

-- An option with one value.
abbrev pub one_value : List Text → (Text → Params) → Option ArgStep
one_value [] set = none
one_value (v ∷ rest) set = some (next (set v) rest)

abbrev pub add_files : List Text → Params → Option ArgStep
add_files [] p = none
add_files (v ∷ rest) p =
    let r = more_files (insert_file v p.diag_files) rest in
    some (next (record p { diag_files = r.0 }) r.1)

abbrev pub add_words : List Text → Params → Option ArgStep
add_words [] p = none
add_words (v ∷ rest) p =
    let r = more_words v rest in some (next (record p { vendor_name = r.0 }) r.1)

-- The body of the loop. `(argc > 1)` holds whenever it runs.
unfoldable pub arg_step : Text → List Text → Params → Option ArgStep
arg_step a rest p =
    if text_eq a (codes "-h")
    then some (bad_param none)
    else if text_eq a (codes "-w")
    then one_value rest (λ v. record p { working_dir = v })
    else if text_eq a (codes "-t")
    then one_value rest (λ v. record p { connection_url = v })
    else if text_eq a (codes "-c")
    then one_value rest (λ v. record p { chargepoint_id = v })
    else if text_eq a (codes "-s")
    then one_value rest (λ v. record p { serial_number = v })
    else if text_eq a (codes "-n")
    then one_value rest (λ v. record p { nb_connectors = atoi_u32 v })
    else if text_eq a (codes "-p")
    then one_value rest (λ v. record p { nb_phases = atoi_u32 v })
    else if text_eq a (codes "-b")
    then one_value rest (λ v. record p { mqtt_broker_url = v })
    else if text_eq a (codes "-m")
    then one_value rest (λ v. record p { max_charge_point_setpoint = atoi_u32 v })
    else if text_eq a (codes "-i")
    then one_value rest (λ v. record p { max_connector_setpoint = atoi_u32 v })
    else if text_eq a (codes "-f")
    then add_files rest p
    else if text_eq a (codes "-e")
    then one_value rest (λ v. record p { chargepoint_type = v })
    else if text_eq a (codes "-v")
    then add_words rest p
    else if text_eq a (codes "-o")
    then one_value rest (λ v. record p { operating_voltage = atoi_u32 v })
    else some (bad_param (some a))

-- The loop: it runs out of fuel, reads the null pointer, prints the usage, or gives the parameters.
pub data Parsed : Type 0 where
  out_of_fuel null_read : Parsed
  usage : Option Text → Parsed
  parsed : Params → Parsed

unfoldable pub parse_loop : ℕ → List Text → Params → Parsed
parse_loop fuel [] p = parsed p
parse_loop zero (a ∷ args) p = out_of_fuel
parse_loop (suc fuel) (a ∷ args) p = elim (arg_step a args p) [
  | none ↦ null_read
  | some (bad_param b) ↦ usage b
  | some (next q rest) ↦ parse_loop fuel rest q
]

-- The arguments after the name of the program.
unfoldable pub parse_args : List Text → Parsed
parse_args args = parse_loop (length args) args default_params
