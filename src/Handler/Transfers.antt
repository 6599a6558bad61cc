-- ===== src/Handler/Transfers.antt =====
-- `uploadFile`, `downloadFile`, `getDiagnostics` and `getLog`: the commands that the handler gives to the shell. The
-- shell's answers and `replace` of the Open OCPP library are parameters.
use open_ocpp_simu.Common.{
  ℕ, ltb, ◌==◌, Bool, true, false, not, ◌&&◌, Option, none, some, List, [], ◌∷◌, ◌++◌, Text, codes,
  is_empty, if◌then◌else◌,
}

-- `s.find(p) == 0`
unfoldable pub begins : Text → Text → Bool
begins s [] = true
begins [] (d ∷ p) = false
begins (c ∷ s) (d ∷ p) = let rest = begins s p in if c == d then rest else false

-- The URL and the parameters for `curl`, `none` for a protocol that is not supported. `replace` is
-- given what to replace and by what.
unfoldable pub protocol_params : (Text → Text → Text → Text) → Text → Option (Text × Text)
protocol_params replace url =
    if begins url (codes "ftp://")
    then some (url, [])
    else if begins url (codes "ftps://")
    then some (replace url (codes "ftps://") (codes "ftp://"), codes "--insecure --ssl")
    else if begins url (codes "http://")
    then some (url, [])
    else if begins url (codes "https://")
    then some (url, codes "--insecure")
    else none

-- `option` is `-T` or `-o`.
abbrev pub curl_command : Text → Text → Text → Text → Text
curl_command params option file url =
    codes "curl --silent "
    ++ (params ++ (codes " " ++ (option ++ (codes " " ++ (file ++ (codes " " ++ url))))))

module _ (replace : Text → Text → Text → Text) (run : Text → ℕ) where
  -- The answer, and the command that was run.
  unfoldable pub transfer_file : Text → Text → Text → Bool × Option Text
  transfer_file option file url = elim (protocol_params replace url) [
    | none ↦ (false, none)
    | some (connection_url, params) ↦
        let command = curl_command params option file connection_url in
        (run command == 0, some command)
  ]

  unfoldable pub upload_file : Text → Text → Bool × Option Text
  upload_file file url = transfer_file (codes "-T") file url

  unfoldable pub download_file : Text → Text → Bool × Option Text
  download_file url file = transfer_file (codes "-o") file url

-- `filepath[0]` of an empty text is the zero byte.
abbrev pub is_absolute : Text → Bool
is_absolute [] = false
is_absolute (c ∷ s) = c == 47

abbrev pub diag_path : Text → Text → Text
diag_path working_dir file =
    if not (is_absolute file) && not (is_empty working_dir)
    then working_dir ++ (codes "/" ++ file)
    else file

unfoldable pub diag_arguments : (Text → Bool) → Text → List Text → Text
diag_arguments exists working_dir [] = []
diag_arguments exists working_dir (file ∷ files) =
    let rest = diag_arguments exists working_dir files in
    let path = diag_path working_dir file in
    if exists path then codes " " ++ (path ++ rest) else rest

-- The file that is made, and the command that makes it.
unfoldable pub get_diagnostics : (Text → Bool) → Text → List Text → Text × Text
get_diagnostics exists working_dir files =
    (codes "/tmp/diag.zip", codes "zip /tmp/diag.zip" ++ diag_arguments exists working_dir files)

pub data LogType : Type 0 where
  diagnostics_log security_log : LogType

-- The file, and the command if one is run. The stack writes the security log, if it keeps one.
unfoldable pub get_log : LogType → ℕ → Text → Text × Option Text
get_log security_log max_entries database_path =
    (if ltb 0 max_entries then codes "/tmp/" else [], none)
get_log diagnostics_log max_entries database_path =
    (codes "/tmp/diag.zip", some (codes "zip /tmp/diag.zip " ++ database_path))
