-- ===== src/Certificates/Counts.antt =====
-- The number of installed certificates.
use open_ocpp_simu.Common.{
  ℕ, suc, ◌≤◌, ◌≡◌, refl, true, false, Text, codes, [], ◌∷◌, arith, List, length,
}
use open_ocpp_simu.Config.Requests.{IniFile}
use open_ocpp_simu.Certificates.Library.{CertLib, IsCertLib, FileSystem}
use open_ocpp_simu.Certificates.Files.{
  Entry, CertificateUse, central_system_root_certificate, manufacturer_root_certificate, is_file,
  count_entry, number_of_ca, load_files, get_installed_certificates, write_file, new_file,
  prefix_of,
}
use open_ocpp_simu.Certificates.Names.{starts_with_fw, starts_with_cs}
use open_ocpp_simu.Certificates.Install.{
  Store, InstallUse, install_prefix, to_file, file_name, reconnect, use_ca, ca_certificate_received,
  iso15118_certificate_received,
}

module _ {C : Type 0} (lib : CertLib C) where
  length-load_files :
      (dir : List Entry)
      → (length (load_files lib (codes "fw_") dir) ≡ number_of_ca lib true false false dir)
        × (length (load_files lib (codes "cs_") dir) ≡ number_of_ca lib false true false dir)
        × (length (load_files lib (codes "iso_") dir) ≡ number_of_ca lib false false true dir)
  unfolding load_files number_of_ca count_entry
  length-load_files [] = (refl, refl, refl)
  length-load_files (e ∷ es) = ground (arith, length-load_files es)

  -- The certificates that are listed for each use are as many as are counted for it.
  pub length-get_installed_certificates :
      (dir : List Entry)
      → (length (get_installed_certificates lib manufacturer_root_certificate dir)
          ≡ number_of_ca lib true false false dir)
        × (length (get_installed_certificates lib central_system_root_certificate dir)
            ≡ number_of_ca lib false true false dir)
  unfolding get_installed_certificates
  length-get_installed_certificates dir = let (a, b, _) = length-load_files dir in (a, b)

  module _ (laws : IsCertLib lib) where
    -- A file counts at most once.
    count_entry-le : (e : Entry) → count_entry lib true true true e ≤ 1
    unfolding count_entry is_file
    count_entry-le e =
        ground (arith, starts_with_fw lib laws e.name, starts_with_cs lib laws e.name)

    number_of_ca-write_file :
        (name content : Text) (dir : List Entry)
        → number_of_ca lib true true true (write_file name content dir)
          ≤ suc (number_of_ca lib true true true dir)
    unfolding number_of_ca write_file
    number_of_ca-write_file name content [] = omega (arith, count_entry-le (new_file name content))
    number_of_ca-write_file name content (e ∷ es) =
        ground
          (arith, count_entry-le (new_file name content), number_of_ca-write_file name content es)

    module _ {S : Type 0} (ini : IniFile S) (fs : FileSystem) where
      -- The certificates that `caCertificateReceived` and `iso15118CertificateReceived` store never
      -- make the count exceed the maximum length of the store, whether they are accepted or not, if it
      -- did not exceed it before.
      pub number_of_ca-received :
          (max_length : ℕ) (type : CertificateUse) (iso_type : InstallUse) (c : C) (st : Store S)
          → number_of_ca lib true true true st.dir ≤ max_length
          → (number_of_ca lib true true true
                (ca_certificate_received ini lib fs max_length type c st).1.dir
              ≤ max_length)
            × (number_of_ca lib true true true
                  (iso15118_certificate_received ini lib fs max_length iso_type c st).1.dir
                ≤ max_length)
      unfolding ca_certificate_received iso15118_certificate_received to_file use_ca reconnect
      number_of_ca-received max_length manufacturer_root_certificate iso_type c st h = ground (
        arith,
        number_of_ca-write_file (file_name lib (prefix_of manufacturer_root_certificate) c)
            (lib.pem c) st.dir,
        number_of_ca-write_file (file_name lib (install_prefix iso_type) c) (lib.pem c) st.dir,
      )
      number_of_ca-received max_length central_system_root_certificate iso_type c st h = ground (
        arith,
        number_of_ca-write_file (file_name lib (prefix_of central_system_root_certificate) c)
            (lib.pem c) st.dir,
        number_of_ca-write_file (file_name lib (install_prefix iso_type) c) (lib.pem c) st.dir,
      )
