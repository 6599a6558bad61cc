-- ===== src/Certificates/Received.antt =====
-- What is installed is then found.
use mathlib.Core.Path.{subst}
use mathlib.Core.List.{Mem, mem-cons_of_mem, mem-cons_self}
use open_ocpp_simu.Common.{
  ℕ, ◌≡◌, ◌≢◌, Bool, true, false, Bool-cases, inl, inr, List, [], ◌∷◌, Text, text_eq, if◌then◌else◌,
  arith,
}
use open_ocpp_simu.Config.Requests.{IniFile}
use open_ocpp_simu.Certificates.Library.{CertLib, IsCertLib, FileSystem, sha256}
use open_ocpp_simu.Certificates.Files.{
  Entry, CertificateUse, central_system_root_certificate, manufacturer_root_certificate, is_file,
  load_files, get_installed_certificates, write_file, new_file, prefix_of,
}
use open_ocpp_simu.Certificates.Names.{is_file-new_file}
use open_ocpp_simu.Certificates.Install.{
  Store, accepted, to_file, file_name, reconnect, use_ca, ca_certificate_received,
}

Mem-if :
    {A : Type 0} (a x : A) (xs : List A) (b : Bool) → Mem a xs → Mem a (if b then x ∷ xs else xs)
Mem-if a x xs true m = mem-cons_of_mem x m
Mem-if a x xs false m = m

module _ {C : Type 0} (lib : CertLib C) where
  -- A file that is written is listed.
  Mem-write_file :
      (prefix name content : Text) (dir : List Entry)
      → is_file lib prefix (new_file name content) ≡ true
      → Mem (lib.load content) (load_files lib prefix (write_file name content dir))
  unfolding load_files write_file
  Mem-write_file prefix name content [] h = rw h mem-cons_self
  Mem-write_file prefix name content (e ∷ es) h = elim (Bool-cases (text_eq e.name name)) [
    | inl k ↦ rw (k, h) mem-cons_self
    | inr k ↦ rw k (
        Mem-if (lib.load content) (lib.load e.content)
          (load_files lib prefix (write_file name content es)) (is_file lib prefix e)
          (Mem-write_file prefix name content es h))
  ]

  module _ (laws : IsCertLib lib) where
    Mem-get_installed :
        (type : CertificateUse) (c : C) (dir : List Entry)
        → Mem c (
            get_installed_certificates lib type
              (write_file (file_name lib (prefix_of type) c) (lib.pem c) dir))
    unfolding get_installed_certificates
    Mem-get_installed type c dir =
        subst
          (λ d. Mem d (
            load_files lib (prefix_of type)
              (write_file (file_name lib (prefix_of type) c) (lib.pem c) dir)))
          (laws.load-pem c)
          (Mem-write_file (prefix_of type) (file_name lib (prefix_of type) c) (lib.pem c) dir
            (is_file-new_file lib laws (prefix_of type) (lib.sha sha256 (lib.pem c)) (lib.pem c)))

    module _ {S : Type 0} (ini : IniFile S) (fs : FileSystem) where
      -- A certificate of an authority that is accepted is one of the installed certificates for its use from then on,
      -- whatever was installed, and one that is not accepted leaves everything as it was.
      pub ca_certificate_received_lem :
          (max_length : ℕ) (type : CertificateUse) (c : C) (st : Store S)
          → let r = ca_certificate_received ini lib fs max_length type c st in
            (r.0 ≡ accepted → Mem c (get_installed_certificates lib type r.1.dir))
            × (r.0 ≢ accepted → r.1 ≡ st)
      unfolding ca_certificate_received to_file use_ca reconnect
      ca_certificate_received_lem max_length manufacturer_root_certificate c st =
          ground (arith, Mem-get_installed manufacturer_root_certificate c st.dir)
      ca_certificate_received_lem max_length central_system_root_certificate c st =
          ground (arith, Mem-get_installed central_system_root_certificate c st.dir)
