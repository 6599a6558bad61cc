-- ===== src/Certificates/Install.antt =====
-- The certificates that the handler receives.
use open_ocpp_simu.Common.{
  ℕ, suc, Bool, true, false, not, ◌&&◌, ◌||◌, ltb, Option, none, some, List, [], ◌∷◌, ◌++◌, Text,
  codes, is_empty, if◌then◌else◌,
}
use open_ocpp_simu.Config.Requests.{IniFile, stack_params}
use open_ocpp_simu.Certificates.Library.{CertLib, FileSystem, sha256}
use open_ocpp_simu.Certificates.Files.{
  Entry, CertificateUse, central_system_root_certificate, manufacturer_root_certificate, join,
  write_file, exists, is_file, number_of_ca, prefix_of,
}

pub data InstallStatus : Type 0 where
  accepted rejected failed : InstallStatus

pub data InstallUse : Type 0 where
  v2g_root mo_root : InstallUse

-- What the handler reads and changes. `S` is the file of the configuration.
pub record Store (S : Type 0) : Type 0 where
  pub working_dir : Text
  pub dir : List Entry
  pub config : S
  -- `m_chargepoint` is set
  pub has_chargepoint : Bool
  -- the calls of `reconnect`
  pub reconnects : ℕ
  -- what /tmp/charge_point_key.key holds, if it is there
  pub key_file : Option Text

abbrev pub install_prefix : InstallUse → Text
install_prefix v2g_root = codes "iso_v2g_root_"
install_prefix mo_root = codes "iso_mo_root_"

-- The name of the file for a received certificate.
abbrev pub file_name : {C : Type 0} → CertLib C → Text → C → Text
file_name lib prefix c = prefix ++ (lib.sha sha256 (lib.pem c) ++ codes ".pem")

module _ {S : Type 0} where
  unfoldable pub reconnect : Store S → Store S
  reconnect st = if st.has_chargepoint then record st { reconnects = suc st.reconnects } else st

  -- `std::filesystem::copy` of the key throws if there is none, if the copy is there already, or if
  -- the key cannot be read or the copy cannot be written.
  unfoldable pub copy_key : FileSystem → Text → Store S → Option (Store S)
  copy_key fs name st = elim st.key_file [
    | none ↦ none
    | some key ↦
        if exists name st.dir || not (fs.copies name)
        then none
        else some (record st { dir = write_file name key st.dir })
  ]

  -- `toFile`, in the working directory.
  unfoldable pub to_file :
      {C : Type 0} → CertLib C → FileSystem → Text → C → Store S → Bool × Store S
  to_file lib fs name c st =
      if fs.writes name
      then (true, record st { dir = write_file name (lib.pem c) st.dir })
      else (false, st)

module _ {S : Type 0} (ini : IniFile S) where
  unfoldable pub set_stack_config_value : Text → Text → S → S
  set_stack_config_value key value s = ini.set s stack_params key value

  -- `tlsServerCertificateCa()` and the getters of the client certificate.
  abbrev pub stack_value : Text → Store S → Text
  stack_value key st = ini.get st.config stack_params key

  -- A saved certificate of the central system is used at once.
  unfoldable pub use_ca : CertificateUse → Text → Store S → Store S
  use_ca central_system_root_certificate path st = reconnect (record st {
    config = set_stack_config_value (codes "TlsServerCertificateCa") path st.config;
  })
  use_ca manufacturer_root_certificate path st = st

  unfoldable pub use_client_certificate : Text → Store S → Store S
  use_client_certificate path st = reconnect (record st {
    config =
        set_stack_config_value (codes "TlsClientCertificatePrivateKey") (path ++ codes ".key")
          (set_stack_config_value (codes "TlsClientCertificate") path st.config);
  })

module _ {S C : Type 0} (ini : IniFile S) (lib : CertLib C) (fs : FileSystem) where
  -- `max_length` is `certificateStoreMaxLength()`. The additional checks of the source are still to be
  -- written there, and do nothing.
  unfoldable pub ca_certificate_received :
      ℕ → CertificateUse → C → Store S → InstallStatus × Store S
  ca_certificate_received max_length type c st =
      if ltb (number_of_ca lib true true true st.dir) max_length
      then (let name = file_name lib (prefix_of type) c in
          let path = join st.working_dir name in
          if not (is_empty path)
          then (let r = to_file lib fs name c st in
              if r.0 then (accepted, use_ca ini type path r.1) else (failed, r.1))
          else (rejected, st))
      else (rejected, st)

  unfoldable pub iso15118_certificate_received :
      ℕ → InstallUse → C → Store S → InstallStatus × Store S
  iso15118_certificate_received max_length type c st =
      if ltb (number_of_ca lib true true true st.dir) max_length
      then (let r = to_file lib fs (file_name lib (install_prefix type) c) c st in
          (if r.0 then accepted else failed, r.1))
      else (rejected, st)

  unfoldable pub charge_point_certificate_received : C → Store S → Option (Bool × Store S)
  charge_point_certificate_received c st =
      let name = file_name lib (codes "cp_") c in
      let r = to_file lib fs name c st in
      if r.0
      then elim (copy_key fs (name ++ codes ".key") r.1) [
        | none ↦ none
        | some t ↦ some (true, use_client_certificate ini (join st.working_dir name) t)
      ]
      else some (false, r.1)

  unfoldable pub iso15118_charge_point_certificate_received : C → Store S → Option (Bool × Store S)
  iso15118_charge_point_certificate_received c st =
      let name = file_name lib (codes "iso_cp_") c in
      let r = to_file lib fs name c st in
      if r.0
      then elim (copy_key fs (name ++ codes ".key") r.1) [ none ↦ none | some t ↦ some (true, t) ]
      else some (false, r.1)

module _ {S C : Type 0} (ini : IniFile S) (lib : CertLib C) where
  unfoldable pub has_central_system_ca_installed : Store S → Bool
  has_central_system_ca_installed st =
      if ltb 0 (number_of_ca lib false true false st.dir)
      then not (is_empty (stack_value ini (codes "TlsServerCertificateCa") st))
      else false

  -- The loop of `hasChargePointCertificateInstalled`; `all` is the directory.
  unfoldable pub has_charge_point_loop : List Entry → Store S → List Entry → Bool
  has_charge_point_loop all st [] = false
  has_charge_point_loop all st (e ∷ es) =
      let rest = has_charge_point_loop all st es in
      if is_file lib (codes "cp_") e
      then (if exists (e.name ++ codes ".key") all
            && (not (is_empty (stack_value ini (codes "TlsClientCertificate") st))
                && not (is_empty (stack_value ini (codes "TlsClientCertificatePrivateKey") st)))
          then true
          else rest)
      else rest

  unfoldable pub has_charge_point_certificate_installed : Store S → Bool
  unfolding has_charge_point_loop
  has_charge_point_certificate_installed st = has_charge_point_loop st.dir st st.dir
