-- ===== src/Certificates/Delete.antt =====
-- The deletion of a certificate.
use open_ocpp_simu.Common.{
  Bool, true, false, ◌&&◌, ◌||◌, Option, none, some, List, [], ◌∷◌, Text, codes, text_eq,
  if◌then◌else◌,
}
use open_ocpp_simu.Config.Requests.{IniFile}
use open_ocpp_simu.Certificates.Library.{CertLib, FileSystem, ShaType, sha256, sha384, sha512}
use open_ocpp_simu.Certificates.Files.{Entry, is_file}
use open_ocpp_simu.Certificates.Install.{Store, stack_value}

pub data HashAlgorithm : Type 0 where
  sha256_hash sha384_hash sha512_hash : HashAlgorithm

pub data DeleteStatus : Type 0 where
  accepted failed not_found : DeleteStatus

-- The certificate to delete.
pub record CertificateId : Type 0 where
  pub hash_algorithm : HashAlgorithm
  pub issuer_name_hash : Text
  pub issuer_key_hash : Text
  pub serial_number : Text

abbrev pub sha_type : HashAlgorithm → ShaType
sha_type sha256_hash = sha256
sha_type sha384_hash = sha384
sha_type sha512_hash = sha512

module _ {C : Type 0} (lib : CertLib C) where
  -- The certificate in a file has this serial number and these hashes.
  unfoldable pub is_asked : CertificateId → C → Bool
  is_asked q c =
      lib.is_valid c
      && (text_eq (lib.serial c) q.serial_number
          && (text_eq q.issuer_name_hash (lib.sha (sha_type q.hash_algorithm) (lib.issuer c))
              && text_eq q.issuer_key_hash
                  (lib.sha (sha_type q.hash_algorithm) (lib.public_key c))))

  unfoldable pub matches : CertificateId → Entry → Bool
  matches q e =
      (is_file lib (codes "fw_") e || is_file lib (codes "cs_") e)
      && is_asked q (lib.load e.content)

  -- The status after an entry, and whether the entry stays. `ca` is the certificate in use. `none` is
  -- the exception of `std::filesystem::remove` for a file that is there and cannot be removed.
  unfoldable pub delete_entry :
      FileSystem → CertificateId → Text → Entry → DeleteStatus → Option DeleteStatus × Bool
  delete_entry fs q ca e status =
      if matches q e
      then (if text_eq e.name ca
          then (some failed, true)
          else if fs.removes e.name
          then (some accepted, false)
          else (none, true))
      else (some status, true)

  -- An exception leaves the entries that are still to come.
  unfoldable pub delete_loop :
      FileSystem
      → CertificateId
      → Text
      → List Entry
      → DeleteStatus
      → Option DeleteStatus × List Entry
  delete_loop fs q ca [] status = (some status, [])
  delete_loop fs q ca (e ∷ es) status =
      let r = delete_entry fs q ca e status in
      elim r.0 [
        | none ↦ (none, e ∷ es)
        | some s ↦
            let rest = delete_loop fs q ca es s in (rest.0, if r.1 then e ∷ rest.1 else rest.1)
      ]

module _ {S C : Type 0} (ini : IniFile S) (lib : CertLib C) (fs : FileSystem) where
  unfoldable pub delete_certificate : CertificateId → Store S → Option DeleteStatus × Store S
  delete_certificate q st =
      let r =
        delete_loop lib fs q (stack_value ini (codes "TlsServerCertificateCa") st) st.dir
          not_found in
      (r.0, record st { dir = r.1 })

  unfoldable pub iso15118_delete_certificate :
      CertificateId → Store S → Option DeleteStatus × Store S
  unfolding delete_certificate
  iso15118_delete_certificate q st = delete_certificate q st
