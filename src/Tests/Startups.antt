-- ===== src/Tests/Startups.antt =====
-- The two programs at concrete inputs.
use open_ocpp_simu.Common.{
  false, List, ◌++◌, ◌==◌, ◌||◌, ◌≡◌, ◌≢◌, refl, ap, true, none, some, [], ◌∷◌, Text, codes, All,
  length, leb, arith,
}
use open_ocpp_simu.Startup.Arguments.{out_of_fuel, null_read, default_params, parse_loop}
use open_ocpp_simu.Startup.Parsing.{ends_in_value, parse_loop_lem}
use open_ocpp_simu.Startup.Launch.{unquoted}
use open_ocpp_simu.Paho.{PahoClient}
use open_ocpp_simu.Paho.Resources.{handle}
use open_ocpp_simu.Session.{launcher_plan, run_session}
use open_ocpp_simu.Session.Ready.{IsWilled, will_of}
use open_ocpp_simu.Session.Ends.{run_session-ends}
use open_ocpp_simu.Tests.Settings.{file}
use open_ocpp_simu.Launcher.{Launcher}
use open_ocpp_simu.Launcher.Commands.{Payload, launcher_message_received}
use open_ocpp_simu.Startup.LauncherMain.{Outside, begins, new_launcher, launcher_main}
use open_ocpp_simu.Startup.LauncherRuns.{launcher_main-configured}
use open_ocpp_simu.Float.{Hundredths}
use open_ocpp_simu.Tests.Launches.{entry}
use open_ocpp_simu.Tests.Remote.{lib}

abbrev broker : Text
broker = codes "tcp://broker"

-- A shell that splits at spaces and drops quotes, the sign for the background and the end of the line.
abbrev words : Text → Text → List Text
words w [] = unquoted w []
words w (c ∷ t) = elim (c == 32) [
  | true ↦ unquoted w (words [] t)
  | false ↦ elim (c == 34 || (c == 38 || c == 10)) [
    | true ↦ words w t
    | false ↦ words (w ++ (c ∷ [])) t
  ]
]

abbrev without_program : List Text → List Text
without_program [] = []
without_program (program ∷ args) = args

abbrev shell : Text → List Text
shell line = without_program (words [] line)

parse_loop_lem_example :
    let args = codes "-n" ∷ codes "2" ∷ codes "-f" ∷ codes "a" ∷ codes "b" ∷ [] in
    (parse_loop 5 args default_params ≢ out_of_fuel)
    × (ends_in_value args ≡ true → parse_loop 5 args default_params ≢ null_read)
parse_loop_lem_example =
    parse_loop_lem 5 (codes "-n" ∷ codes "2" ∷ codes "-f" ∷ codes "a" ∷ codes "b" ∷ [])
      default_params (omega arith)

-- The end is read from the third time on.
run_session-ends_example :
    (c : PahoClient) × (run_session lib (λ n. leb 2 n) 3 (launcher_plan broker) ≡ some c)
    × (c.client ≡ none)
    × (handle c.calls ≡ some none)
    × All (IsWilled (will_of (launcher_plan broker))) c.calls
run_session-ends_example =
    run_session-ends lib (λ n. leb 2 n) (launcher_plan broker) 2 (λ n h. ground arith)

-- The directory is there, and every file lists one charge point.
abbrev outside : Outside Hundredths
outside = record {
  has_dir = λ reset dir. true;
  makes_dir = λ dir. true;
  read_file = λ file. some (codes "{}");
  charge_points = λ text. some (entry ∷ []);
}

abbrev start_payload : Payload Hundredths
start_payload = record {
  type = some (codes "start");
  charge_points = some (entry ∷ []);
  status = none;
  pid = none;
}

launcher_main-configured_example :
    (l : Launcher Hundredths) × (launcher_main outside
        (codes "-w" ∷ codes "/w" ∷ codes "-b" ∷ broker ∷ codes "-c" ∷ codes "file" ∷ [])
      ≡ begins
          (record {
            working_dir = codes "/w";
            broker_url = broker;
            config_file = codes "file";
            reset_working_dir = false;
          })
          l)
    × (launcher_message_received
          (λ t. some start_payload)
          (λ es. true)
          (codes "cp_simu/launcher/cmd")
          (codes "{}")
          (new_launcher outside broker)
        ≡ some l)
launcher_main-configured_example =
    launcher_main-configured outside (λ t. some start_payload) (λ es. true) (codes "/w") broker
      (codes "file") (codes "{}") (codes "{}") (entry ∷ []) start_payload
      (λ e. absurd (omega (arith, ap length e))) refl refl refl refl refl refl refl
