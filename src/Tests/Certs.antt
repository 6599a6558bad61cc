-- ===== src/Tests/Certs.antt =====
-- The certificates at concrete inputs.
use mathlib.Core.Logic.{◌↔◌}
use mathlib.Core.List.{Mem}
use open_ocpp_simu.Common.{
  if◌then◌else◌, ℕ, ◌≡◌, ◌≢◌, ◌⊎◌, ◌≤◌, refl, Bool, true, false, none, some, List, [], ◌∷◌, ◌++◌,
  Text, codes, All, length, ap, arith,
}
use open_ocpp_simu.Certificates.Files.{
  new_file, join, write_file, exists, CertificateUse, central_system_root_certificate,
  get_installed_certificates, number_of_ca, iso15118_get_installed,
}
use open_ocpp_simu.Certificates.Install
use open_ocpp_simu.Certificates.Install.{
  Store, file_name, stack_value, mo_root, ca_certificate_received, iso15118_certificate_received,
  charge_point_certificate_received, has_charge_point_certificate_installed,
}
use open_ocpp_simu.Certificates.Delete.{
  accepted, not_found, matches, delete_certificate, iso15118_delete_certificate,
}
use open_ocpp_simu.Certificates.Counts.{number_of_ca-received}
use open_ocpp_simu.Certificates.Received.{ca_certificate_received_lem}
use open_ocpp_simu.Certificates.ChargePoint.{has_charge_point_certificate_installed-received}
use open_ocpp_simu.Certificates.Deletion.{
  kept, all_removable, last_status, delete_certificate_lem, iso15118_get_installed-delete,
}
use open_ocpp_simu.Certificates.Again.{here, csr, delete, charge_point_certificate_received-again}
use open_ocpp_simu.Certificates.InUse.{is_found, delete_certificate-in_use}
use open_ocpp_simu.Tests.Settings.{File, ini, ini-IsStore}
use open_ocpp_simu.Certificates.Signing.{
  KeyLib, csr_subject, generate_csr, iso15118_generate_csr, content_of, generate_csr-received,
  generate_csr-mixed,
}
use open_ocpp_simu.Tests.CertificateData.{lib, lib-IsCertLib, fs, certificate, store, asked}

number_of_ca-received_example :
    (number_of_ca lib true true true
        (ca_certificate_received ini lib fs 2 central_system_root_certificate certificate
          store).1.dir
      ≤ 2)
    × (number_of_ca lib true true true
          (iso15118_certificate_received ini lib fs 2 mo_root certificate store).1.dir
        ≤ 2)
unfolding number_of_ca open_ocpp_simu.Certificates.Files.count_entry
    open_ocpp_simu.Certificates.Files.is_file open_ocpp_simu.Common.text_eq
number_of_ca-received_example =
    number_of_ca-received lib lib-IsCertLib ini fs 2 central_system_root_certificate mo_root
      certificate store (omega arith)

ca_certificate_received_lem_example :
    let r =
      ca_certificate_received ini lib fs 2 central_system_root_certificate certificate store in
    (r.0 ≡ Install.accepted
      → Mem certificate (get_installed_certificates lib central_system_root_certificate r.1.dir))
    × (r.0 ≢ Install.accepted → r.1 ≡ store)
ca_certificate_received_lem_example =
    ca_certificate_received_lem lib lib-IsCertLib ini fs 2 central_system_root_certificate
      certificate store

-- What the reception leaves.
abbrev with_charge_point : Store File
with_charge_point = elim (charge_point_certificate_received ini lib fs certificate store) [
  | none ↦ store
  | some r ↦ r.1
]

-- A deletion and a request for a new certificate come in between.
abbrev later : Store File
later = record (delete_certificate ini lib fs asked with_charge_point).1 {
  key_file = some (codes "k2");
}

charge_point_certificate_received-again_example :
    charge_point_certificate_received ini lib fs certificate later ≡ none
unfolding charge_point_certificate_received open_ocpp_simu.Certificates.Install.to_file
    open_ocpp_simu.Certificates.Install.copy_key
    open_ocpp_simu.Certificates.Install.use_client_certificate
    open_ocpp_simu.Certificates.Install.reconnect open_ocpp_simu.Certificates.Files.write_file
    open_ocpp_simu.Common.text_eq
charge_point_certificate_received-again_example =
    charge_point_certificate_received-again ini lib fs lib-IsCertLib certificate store
      with_charge_point later refl
      (csr (some (codes "k2")) (delete_certificate ini lib fs asked with_charge_point).1
        (delete asked with_charge_point here))

has_charge_point_certificate_installed-received_example :
    has_charge_point_certificate_installed ini lib with_charge_point ≡ true
unfolding charge_point_certificate_received open_ocpp_simu.Certificates.Install.to_file
    open_ocpp_simu.Certificates.Install.copy_key
    open_ocpp_simu.Certificates.Install.use_client_certificate
    open_ocpp_simu.Certificates.Install.reconnect open_ocpp_simu.Certificates.Files.write_file
    open_ocpp_simu.Common.text_eq
has_charge_point_certificate_installed-received_example =
    has_charge_point_certificate_installed-received ini lib fs certificate store with_charge_point
      lib-IsCertLib ini-IsStore refl

delete_certificate_lem_example :
    let r = delete_certificate ini lib fs asked store in
    let ca = stack_value ini (codes "TlsServerCertificateCa") store in
    (r.1 ≡ record store { dir = kept lib fs asked ca store.dir })
    × (r.0 ≡ (
        if all_removable lib fs asked ca store.dir
        then some (last_status lib fs asked ca store.dir not_found)
        else none))
    × ((r.0 ≡ some not_found) ↔ All (λ e. matches lib asked e ≡ false) store.dir)
delete_certificate_lem_example = delete_certificate_lem lib fs asked ini store

iso15118_get_installed-delete_example :
    iso15118_get_installed lib true true true
      (iso15118_delete_certificate ini lib fs asked store).1.dir
    ≡ iso15118_get_installed lib true true true store.dir
iso15118_get_installed-delete_example =
    iso15118_get_installed-delete lib fs asked ini true true true store lib-IsCertLib

delete_certificate-in_use_example :
    let t =
      (ca_certificate_received ini lib fs 5 central_system_root_certificate certificate store).1 in
    let r = delete_certificate ini lib fs asked t in
    (is_found lib asked t.dir ≡ true)
    × (r.0 ≡ some accepted)
    × (is_found lib asked r.1.dir ≡ false)
    × (stack_value ini (codes "TlsServerCertificateCa") r.1
        ≡ join store.working_dir (file_name lib (codes "cs_") certificate))
unfolding open_ocpp_simu.Certificates.Install.ca_certificate_received
    open_ocpp_simu.Certificates.Install.to_file open_ocpp_simu.Certificates.Files.number_of_ca
    open_ocpp_simu.Certificates.Files.count_entry open_ocpp_simu.Certificates.Files.is_file
    open_ocpp_simu.Certificates.Files.join open_ocpp_simu.Certificates.Delete.is_asked
    open_ocpp_simu.Certificates.Names.has_slash open_ocpp_simu.Common.text_eq
delete_certificate-in_use_example =
    delete_certificate-in_use lib asked ini fs 5 certificate store lib-IsCertLib ini-IsStore
      (λ e. absurd (omega (arith, ap length e))) (refl, tt) refl (λ name. refl) refl refl

-- A key is its own text, and a request has the common name.
abbrev keys : KeyLib Text
keys = record {
  private_text = λ key passphrase. key ++ passphrase;
  request_pem = λ subject key. subject.common_name ++ key;
}

abbrev received_after : Store File → Store File
received_after st = elim (charge_point_certificate_received ini lib fs certificate st) [
  | none ↦ store
  | some r ↦ r.1
]

generate_csr-received_example :
    let r = generate_csr ini keys fs (codes "k1") store in
    (r.0 ≡ keys.request_pem (csr_subject ini keys fs store) (codes "k1"))
    × (content_of (file_name lib (codes "cp_") certificate ++ codes ".key") (received_after r.1).dir
        ≡ some (
            keys.private_text
              (codes "k1")
              (stack_value ini (codes "TlsClientCertificatePrivateKeyPassphrase") store)))
unfolding generate_csr charge_point_certificate_received open_ocpp_simu.Certificates.Install.to_file
    open_ocpp_simu.Certificates.Install.copy_key
    open_ocpp_simu.Certificates.Install.use_client_certificate
    open_ocpp_simu.Certificates.Install.reconnect open_ocpp_simu.Certificates.Files.write_file
    open_ocpp_simu.Common.text_eq
generate_csr-received_example =
    generate_csr-received ini lib keys fs (codes "k1") certificate store
      (received_after (generate_csr ini keys fs (codes "k1") store).1) refl refl

generate_csr-mixed_example :
    let r = generate_csr ini keys fs (codes "k1") store in
    let t = received_after (iso15118_generate_csr ini keys fs (codes "k2") r.1).1 in
    (r.0 ≡ keys.request_pem (csr_subject ini keys fs store) (codes "k1"))
    × (content_of (file_name lib (codes "cp_") certificate ++ codes ".key") t.dir
        ≡ some (
            keys.private_text
              (codes "k2")
              (stack_value ini (codes "TlsClientCertificatePrivateKeyPassphrase") store)))
unfolding generate_csr charge_point_certificate_received open_ocpp_simu.Certificates.Install.to_file
    open_ocpp_simu.Certificates.Install.copy_key
    open_ocpp_simu.Certificates.Install.use_client_certificate
    open_ocpp_simu.Certificates.Install.reconnect open_ocpp_simu.Certificates.Files.write_file
    open_ocpp_simu.Common.text_eq iso15118_generate_csr
generate_csr-mixed_example =
    generate_csr-mixed ini lib keys fs (codes "k1") (codes "k2") certificate store
      (received_after
        (iso15118_generate_csr ini keys fs (codes "k2")
          (generate_csr ini keys fs (codes "k1") store).1).1)
      refl refl
