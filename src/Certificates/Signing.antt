-- ===== src/Certificates/Signing.antt =====
-- `generateCsr` and `iso15118GenerateCsr`: the requests for a certificate, and the key that goes with them.

use open_ocpp_simu.Common.{
  ◌≡◌, refl, ap, ◌∙◌, true, Option, none, some, List, [], ◌∷◌, ◌++◌, Text, codes, text_eq,
  text_eq_refl, arith, if◌then◌else◌,
}
use open_ocpp_simu.Config.Requests.{IniFile, ocpp_params}
use open_ocpp_simu.Certificates.Library.{CertLib, FileSystem}
use open_ocpp_simu.Certificates.Files.{Entry, write_file}
use open_ocpp_simu.Certificates.Install.{
  Store, file_name, stack_value, charge_point_certificate_received, to_file, copy_key,
  use_client_certificate, reconnect,
}

-- `CertificateRequest::Subject`
pub record Subject : Type 0 where
  pub country : Text
  pub state : Text
  pub location : Text
  pub organization : Text
  pub organization_unit : Text
  pub common_name : Text
  pub email_address : Text

-- `P` is `PrivateKey`: the text that `privateToFile` writes for a passphrase, and the PEM text of a
-- `CertificateRequest`.
pub record KeyLib (P : Type 0) : Type 0 where
  pub private_text : P → Text → Text
  pub request_pem : Subject → P → Text

module _ {S P : Type 0} (ini : IniFile S) (keys : KeyLib P) (fs : FileSystem) where
  abbrev pub csr_subject : Store S → Subject
  csr_subject st = record {
    country = stack_value ini (codes "ClientCertificateRequestSubjectCountry") st;
    state = stack_value ini (codes "ClientCertificateRequestSubjectState") st;
    location = stack_value ini (codes "ClientCertificateRequestSubjectLocation") st;
    organization = ini.get st.config ocpp_params (codes "CpoName");
    organization_unit =
        stack_value ini (codes "ClientCertificateRequestSubjectOrganizationUnit") st;
    common_name = stack_value ini (codes "ChargePointSerialNumber") st;
    email_address = stack_value ini (codes "ClientCertificateRequestSubjectEmail") st;
  }

  -- `key` is the pair that the constructor of `PrivateKey` makes.
  unfoldable pub generate_csr : P → Store S → Text × Store S
  generate_csr key st =
      let passphrase = stack_value ini (codes "TlsClientCertificatePrivateKeyPassphrase") st in
      let saved =
        if fs.writes (codes "/tmp/charge_point_key.key")
        then record st { key_file = some (keys.private_text key passphrase) }
        else st in
      (keys.request_pem (csr_subject st) key, saved)

  unfoldable pub iso15118_generate_csr : P → Store S → Text × Store S
  iso15118_generate_csr key st = generate_csr key st

-- What a file of the directory holds.
abbrev pub content_of : Text → List Entry → Option Text
content_of name [] = none
content_of name (e ∷ es) = if text_eq e.name name then some e.content else content_of name es

content_of-write_file_self :
    (name content : Text) (dir : List Entry)
    → content_of name (write_file name content dir) ≡ some content
unfolding write_file
content_of-write_file_self name content [] = rw (text_eq_refl name) refl
content_of-write_file_self name content (e ∷ es) =
    ground (arith, content_of-write_file_self name content es, text_eq_refl name)

module _ {S C : Type 0} (ini : IniFile S) (lib : CertLib C) (fs : FileSystem) where
  -- The key that is there goes with the certificate.
  received_key :
      (c : C) (st t : Store S) (key : Text)
      → st.key_file ≡ some key
      → charge_point_certificate_received ini lib fs c st ≡ some (true, t)
      → content_of (file_name lib (codes "cp_") c ++ codes ".key") t.dir ≡ some key
  unfolding charge_point_certificate_received to_file copy_key use_client_certificate reconnect
  received_key c st t key e h =
      let name = file_name lib (codes "cp_") c in
      ground (
        arith,
        content_of-write_file_self (name ++ codes ".key") key (write_file name (lib.pem c) st.dir),
      )

module _ {S C P : Type 0} (ini : IniFile S) (lib : CertLib C) (keys : KeyLib P)
    (fs : FileSystem) where
  generate_csr_store :
      (key : P) (st : Store S)
      → fs.writes (codes "/tmp/charge_point_key.key") ≡ true
      → (generate_csr ini keys fs key st).1 ≡ record st {
        key_file = some (
            keys.private_text key
              (stack_value ini (codes "TlsClientCertificatePrivateKeyPassphrase") st));
      }
  unfolding generate_csr
  generate_csr_store key st w = rw w refl

  -- A request for a certificate is for the key pair that is stored with a certificate of the
  -- charge point that is received directly after it, with nothing else in between, protected by
  -- the configured passphrase, if the file of the key can be written.
  pub generate_csr-received :
      (key : P) (c : C) (st t : Store S)
      → fs.writes (codes "/tmp/charge_point_key.key") ≡ true
      → charge_point_certificate_received ini lib fs c (generate_csr ini keys fs key st).1
        ≡ some (true, t)
      → ((generate_csr ini keys fs key st).0 ≡ keys.request_pem (csr_subject ini keys fs st) key)
        × (content_of (file_name lib (codes "cp_") c ++ codes ".key") t.dir
            ≡ some (
                keys.private_text key
                  (stack_value ini (codes "TlsClientCertificatePrivateKeyPassphrase") st)))
  unfolding generate_csr
  generate_csr-received key c st t w h = (
    refl,
    received_key ini lib fs c (generate_csr ini keys fs key st).1 t _
        (ap (λ (x : Store S). x.key_file) (generate_csr_store key st w)) h,
  )

  -- A request of ISO 15118 in between replaces the key: if the file of the key can be written, a certificate that is received
  -- after both requests is stored with the key of the second one, though the first request was for another key.
  pub generate_csr-mixed :
      (key other : P) (c : C) (st t : Store S)
      → fs.writes (codes "/tmp/charge_point_key.key") ≡ true
      → charge_point_certificate_received ini lib fs c
          (iso15118_generate_csr ini keys fs other (generate_csr ini keys fs key st).1).1
        ≡ some (true, t)
      → ((generate_csr ini keys fs key st).0 ≡ keys.request_pem (csr_subject ini keys fs st) key)
        × (content_of (file_name lib (codes "cp_") c ++ codes ".key") t.dir
            ≡ some (
                keys.private_text other
                  (stack_value ini (codes "TlsClientCertificatePrivateKeyPassphrase") st)))
  unfolding generate_csr iso15118_generate_csr
  generate_csr-mixed key other c st t w h =
      let first = (generate_csr ini keys fs key st).1 in
      let pass = codes "TlsClientCertificatePrivateKeyPassphrase" in
      (
        refl,
        received_key ini lib fs c (generate_csr ini keys fs other first).1 t _
            (ap (λ (x : Store S). x.key_file) (generate_csr_store other first w)
              ∙ ap (λ (x : Store S). some (keys.private_text other (stack_value ini pass x)))
                  (generate_csr_store key st w))
            h,
      )
