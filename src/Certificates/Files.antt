-- ===== src/Certificates/Files.antt =====
-- The working directory and the certificates in it.
use open_ocpp_simu.Common.{
  ℕ, ◌+◌, Bool, true, false, not, ◌&&◌, ◌==◌, List, [], ◌∷◌, ◌++◌, Text, codes, is_empty, text_eq,
  if◌then◌else◌,
}
use open_ocpp_simu.Certificates.Library.{CertLib}

-- An entry of the directory, with what a file holds. `directory_iterator` goes through the entries in
-- an order that is not specified: the order of the list.
pub record Entry : Type 0 where
  pub name : Text
  pub is_directory : Bool
  pub content : Text

pub data CertificateUse : Type 0 where
  central_system_root_certificate manufacturer_root_certificate : CertificateUse

pub data CertificateIdUse : Type 0 where
  v2g_root_certificate mo_root_certificate v2g_certificate_chain : CertificateIdUse

-- `(dir / name).string()` for a name without slashes.
unfoldable pub join : Text → Text → Text
join [] name = name
join (c ∷ []) name = if c == 47 then c ∷ name else c ∷ 47 ∷ name
join (c ∷ d ∷ dir) name = c ∷ join (d ∷ dir) name

abbrev pub new_file : Text → Text → Entry
new_file name content = record { name = name; is_directory = false; content = content }

-- A file that is written takes the place of one with its name.
unfoldable pub write_file : Text → Text → List Entry → List Entry
write_file name content [] = new_file name content ∷ []
write_file name content (e ∷ es) =
    let rest = write_file name content es in
    if text_eq e.name name then new_file name content ∷ es else e ∷ rest

abbrev pub exists : Text → List Entry → Bool
exists name [] = false
exists name (e ∷ es) = if text_eq e.name name then true else exists name es

abbrev pub prefix_of : CertificateUse → Text
prefix_of manufacturer_root_certificate = codes "fw_"
prefix_of central_system_root_certificate = codes "cs_"

module _ {C : Type 0} (lib : CertLib C) where
  -- A file with this prefix and the extension of a certificate.
  unfoldable pub is_file : Text → Entry → Bool
  is_file prefix e =
      not e.is_directory && (lib.starts_with e.name prefix && lib.ends_with e.name (codes ".pem"))

  -- The body of the loop of `getNumberOfCaCertificateInstalled`.
  unfoldable pub count_entry : Bool → Bool → Bool → Entry → ℕ
  count_entry manufacturer central_system iso15118 e =
      (if manufacturer && is_file (codes "fw_") e then 1 else 0)
      + ((if central_system && is_file (codes "cs_") e then 1 else 0)
          + (if iso15118 && is_file (codes "iso_") e then 1 else 0))

  unfoldable pub number_of_ca : Bool → Bool → Bool → List Entry → ℕ
  number_of_ca manufacturer central_system iso15118 [] = 0
  number_of_ca manufacturer central_system iso15118 (e ∷ es) =
      count_entry manufacturer central_system iso15118 e
      + number_of_ca manufacturer central_system iso15118 es

  -- The certificates in the files with a prefix.
  unfoldable pub load_files : Text → List Entry → List C
  load_files prefix [] = []
  load_files prefix (e ∷ es) =
      let rest = load_files prefix es in
      if is_file prefix e then lib.load e.content ∷ rest else rest

  unfoldable pub get_installed_certificates : CertificateUse → List Entry → List C
  get_installed_certificates type dir = load_files (prefix_of type) dir

  -- One kind of certificate in the body of the loop of `iso15118GetInstalledCertificates`.
  abbrev pub listed : Bool → CertificateIdUse → Text → Entry → List (CertificateIdUse × C)
  listed asked kind prefix e =
      if asked && is_file prefix e then (kind, lib.load e.content) ∷ [] else []

  unfoldable pub iso15118_get_installed :
      Bool → Bool → Bool → List Entry → List (CertificateIdUse × C)
  iso15118_get_installed v2g mo chain [] = []
  iso15118_get_installed v2g mo chain (e ∷ es) =
      listed v2g v2g_root_certificate (codes "iso_v2g_root_") e
      ++ (listed mo mo_root_certificate (codes "iso_mo_root_") e
          ++ (listed chain v2g_certificate_chain (codes "iso_v2g_chain_") e
              ++ iso15118_get_installed v2g mo chain es))

  -- The two checks of the installed certificates that verify against them.
  unfoldable pub check_firmware_signing_certificate : C → List Entry → Bool
  check_firmware_signing_certificate signing dir =
      let cas = load_files (codes "fw_") dir in not (is_empty cas) && lib.verify signing cas

  unfoldable pub iso15118_check_ev_certificate : C → List Entry → Bool
  iso15118_check_ev_certificate certificate [] = false
  iso15118_check_ev_certificate certificate (e ∷ es) =
      let rest = iso15118_check_ev_certificate certificate es in
      if is_file (codes "iso_mo_root_") e && lib.verify certificate (lib.chain (lib.load e.content))
      then true
      else rest
