-- ===== src/Startup/Launch.antt =====
-- The command line of the launcher, read by the charge point that it starts.
use open_ocpp_simu.Common.{
  ◌^◌, ◌<◌, ◌≡◌, ◌≢◌, refl, List, [], ◌∷◌, Text, ◌++◌, ◌==◌, ◌||◌, text_eq, codes, if◌then◌else◌,
}
use open_ocpp_simu.Certificates.Files.{join}
use open_ocpp_simu.Launcher
use open_ocpp_simu.Startup.Decimal.{to_string, atoi_u32-to_string}
use open_ocpp_simu.Startup.Arguments.{
  Params, default_params, arg_step, parsed, parse_loop, parse_args,
}

-- A word without quotes, which the shell drops if it is empty.
abbrev pub unquoted : Text → List Text → List Text
unquoted [] words = words
unquoted (c ∷ w) words = (c ∷ w) ∷ words

unquoted-some : (w : Text) (words : List Text) → w ≢ [] → unquoted w words ≡ w ∷ words
unquoted-some [] words h = absurd (h refl)
unquoted-some (c ∷ w) words h = refl

-- `operator<<` of a path: in quotes, with a backslash before quotes and backslashes.
abbrev escaped : Text → Text
escaped [] = []
escaped (c ∷ t) = let rest = escaped t in if c == 34 || c == 92 then 92 ∷ c ∷ rest else c ∷ rest

abbrev quoted_path : Text → Text
quoted_path t = codes "\"" ++ (escaped t ++ codes "\"")

module _ {F : Type 0} where
  -- The command line that the launcher gives to the shell.
  unfoldable pub command_line : Text → Text → Launcher.Params F → Text
  command_line chargepoints_dir broker_url p =
      codes "./chargepoint"
      ++ (codes " -w \"" ++ (quoted_path (join chargepoints_dir p.id) ++ codes "\""))
      ++ (codes " -t " ++ p.central_system)
      ++ (codes " -c \"" ++ (p.id ++ codes "\""))
      ++ (codes " -s \"" ++ (p.serial ++ codes "\""))
      ++ (codes " -n " ++ to_string p.nb_connectors)
      ++ (codes " -p " ++ to_string p.nb_phases)
      ++ (codes " -b " ++ broker_url)
      ++ (codes " -m " ++ to_string p.max_setpoint)
      ++ (codes " -i " ++ to_string p.max_current_per_connector)
      ++ (codes " -e " ++ p.kind)
      ++ codes " &\n"

  -- The arguments that the launcher means to give. The shell makes them of its command line where no text has
  -- a character that is special to the shell: it splits at spaces and removes the quotes.
  abbrev pub launch_args : Text → Text → Launcher.Params F → List Text
  launch_args chargepoints_dir broker_url p =
      codes "-w"
      ∷ join chargepoints_dir p.id
      ∷ codes "-t"
      ∷ unquoted p.central_system (
          codes "-c"
          ∷ p.id
          ∷ codes "-s"
          ∷ p.serial
          ∷ codes "-n"
          ∷ to_string p.nb_connectors
          ∷ codes "-p"
          ∷ to_string p.nb_phases
          ∷ codes "-b"
          ∷ unquoted broker_url (
              codes "-m"
              ∷ to_string p.max_setpoint
              ∷ codes "-i"
              ∷ to_string p.max_current_per_connector
              ∷ codes "-e"
              ∷ unquoted p.kind []))

  -- The parameters of the launcher as the charge point holds them.
  abbrev pub launched : Text → Text → Launcher.Params F → Params
  launched chargepoints_dir broker_url p = record default_params {
    working_dir = join chargepoints_dir p.id;
    connection_url = p.central_system;
    chargepoint_id = p.id;
    serial_number = p.serial;
    nb_connectors = p.nb_connectors;
    nb_phases = p.nb_phases;
    mqtt_broker_url = broker_url;
    max_charge_point_setpoint = p.max_setpoint;
    max_connector_setpoint = p.max_current_per_connector;
    chargepoint_type = p.kind;
  }

  -- A charge point reads back every parameter of the arguments that the launcher means, where the
  -- URLs and the type are not empty and the numbers have 32 bits.
  pub parse_args-launch_args :
      (chargepoints_dir broker_url : Text) (p : Launcher.Params F)
      → broker_url ≢ []
      → p.central_system ≢ []
      → p.kind ≢ []
      → p.nb_connectors < 2 ^ 32
      → p.nb_phases < 2 ^ 32
      → p.max_setpoint < 2 ^ 32
      → p.max_current_per_connector < 2 ^ 32
      → parse_args (launch_args chargepoints_dir broker_url p)
        ≡ parsed (launched chargepoints_dir broker_url p)
  unfolding parse_args parse_loop arg_step text_eq
  parse_args-launch_args dir broker p b c k n ph m i =
      rw
        (
          unquoted-some p.kind [] k,
          unquoted-some broker
              (codes "-m"
                ∷ to_string p.max_setpoint
                ∷ codes "-i"
                ∷ to_string p.max_current_per_connector
                ∷ codes "-e"
                ∷ p.kind
                ∷ [])
              b,
          unquoted-some p.central_system
              (codes "-c"
                ∷ p.id
                ∷ codes "-s"
                ∷ p.serial
                ∷ codes "-n"
                ∷ to_string p.nb_connectors
                ∷ codes "-p"
                ∷ to_string p.nb_phases
                ∷ codes "-b"
                ∷ broker
                ∷ codes "-m"
                ∷ to_string p.max_setpoint
                ∷ codes "-i"
                ∷ to_string p.max_current_per_connector
                ∷ codes "-e"
                ∷ p.kind
                ∷ [])
              c,
          atoi_u32-to_string p.nb_connectors n,
          atoi_u32-to_string p.nb_phases ph,
          atoi_u32-to_string p.max_setpoint m,
          atoi_u32-to_string p.max_current_per_connector i,
        )
        refl
