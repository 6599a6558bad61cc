-- ===== src/Certificates/InUse.antt =====
-- The certificate of the central system that is in use, and a deletion.
use open_ocpp_simu.Common.{
  ℕ, ◌≡◌, ◌≢◌, refl, ap, ◌∙◌, Bool, true, false, ◌&&◌, ◌||◌, List, [], ◌∷◌, Text, codes, text_eq,
  text_eq_iff, All, some, arith, if◌then◌else◌,
}
use open_ocpp_simu.Config.Requests.{IniFile, IsStore, stack_params}
use open_ocpp_simu.Certificates.Library.{CertLib, IsCertLib, FileSystem, sha256}
use open_ocpp_simu.Certificates.Files.{
  Entry, central_system_root_certificate, is_file, write_file, new_file, join,
}
use open_ocpp_simu.Certificates.Names.{has_slash, has_slash-join, is_file-new_file}
use open_ocpp_simu.Certificates.Install
use open_ocpp_simu.Certificates.Install.{
  Store, file_name, to_file, use_ca, reconnect, stack_value, set_stack_config_value,
  ca_certificate_received,
}
use open_ocpp_simu.Certificates.Delete.{
  DeleteStatus, accepted, not_found, CertificateId, is_asked, matches, delete_entry, delete_loop,
  delete_certificate,
}

-- The names of the files of a directory are not paths.
abbrev pub HasPlainNames : List Entry → Type 0
HasPlainNames dir = All (λ e. has_slash e.name ≡ false) dir

HasPlainNames-write_file :
    (name content : Text) (dir : List Entry)
    → has_slash name ≡ false
    → HasPlainNames dir
    → HasPlainNames (write_file name content dir)
unfolding write_file
HasPlainNames-write_file name content [] h p = (h, tt)
HasPlainNames-write_file name content (e ∷ es) h p =
    ground (arith, HasPlainNames-write_file name content es h p.1)

text_eq-path :
    (name path : Text) → has_slash name ≡ false → has_slash path ≡ true → text_eq name path ≡ false
text_eq-path name path a b = ground (arith, text_eq_iff name path)

or_true : (b : Bool) → ((b || true) && true) ≡ true
or_true true = refl
or_true false = refl

module _ {C : Type 0} (lib : CertLib C) (q : CertificateId) where
  abbrev pub is_found : List Entry → Bool
  is_found [] = false
  is_found (e ∷ es) = let rest = is_found es in if matches lib q e then true else rest

  is_found-write_file :
      (name content : Text) (dir : List Entry)
      → matches lib q (new_file name content) ≡ true
      → is_found (write_file name content dir) ≡ true
  unfolding write_file
  is_found-write_file name content [] h = rw h refl
  is_found-write_file name content (e ∷ es) h =
      ground (arith, is_found-write_file name content es h)

  matches-file_name :
      (c : C)
      → IsCertLib lib
      → is_asked lib q c ≡ true
      → matches lib q (new_file (file_name lib (codes "cs_") c) (lib.pem c)) ≡ true
  unfolding matches
  matches-file_name c laws h =
      let f = is_file-new_file lib laws (codes "cs_") (lib.sha sha256 (lib.pem c)) (lib.pem c) in
      rw (f, laws.load-pem c, h)
        (or_true (is_file lib (codes "fw_") (new_file (file_name lib (codes "cs_") c) (lib.pem c))))

  module _ (fs : FileSystem) where
    -- With a path as the certificate in use, nothing that matches is kept.
    delete_loop-path :
        (path : Text) (dir : List Entry) (s : DeleteStatus)
        → has_slash path ≡ true
        → HasPlainNames dir
        → ((name : Text) → fs.removes name ≡ true)
        → ((delete_loop lib fs q path dir s).0 ≡ some (if is_found dir then accepted else s))
          × (is_found (delete_loop lib fs q path dir s).1 ≡ false)
    unfolding delete_loop delete_entry
    delete_loop-path path [] s b p r = (refl, refl)
    delete_loop-path path (e ∷ es) s b p r = ground (
      arith,
      delete_loop-path path es s b p.1 r,
      delete_loop-path path es accepted b p.1 r,
      text_eq-path e.name path,
      r e.name,
    )

  module _ {S : Type 0} (ini : IniFile S) (fs : FileSystem) where
    received-central :
        (max_length : ℕ) (c : C) (st : Store S)
        → IsStore ini
        → (ca_certificate_received ini lib fs max_length central_system_root_certificate c st).0
          ≡ Install.accepted
        → let t =
            (ca_certificate_received ini lib fs max_length central_system_root_certificate c
              st).1 in
          (t.dir ≡ write_file (file_name lib (codes "cs_") c) (lib.pem c) st.dir)
          × (stack_value ini (codes "TlsServerCertificateCa") t
              ≡ join st.working_dir (file_name lib (codes "cs_") c))
    unfolding ca_certificate_received to_file use_ca reconnect set_stack_config_value
    received-central max_length c st store h =
        let path = join st.working_dir (file_name lib (codes "cs_") c) in
        let got = store.get-set_self st.config stack_params (codes "TlsServerCertificateCa") path in
        (ground arith, ground (arith, got))

    -- A certificate of the central system that is accepted is the one in use: where the working
    -- directory has a name, the names of files have no slash and every file can be removed, a
    -- deletion that names it is accepted, removes its file, and leaves the path of the removed file
    -- as the certificate in use.
    pub delete_certificate-in_use :
        (max_length : ℕ) (c : C) (st : Store S)
        → IsCertLib lib
        → IsStore ini
        → st.working_dir ≢ []
        → HasPlainNames st.dir
        → has_slash (file_name lib (codes "cs_") c) ≡ false
        → ((name : Text) → fs.removes name ≡ true)
        → is_asked lib q c ≡ true
        → (ca_certificate_received ini lib fs max_length central_system_root_certificate c st).0
          ≡ Install.accepted
        → let t =
            (ca_certificate_received ini lib fs max_length central_system_root_certificate c
              st).1 in
          let r = delete_certificate ini lib fs q t in
          (is_found t.dir ≡ true)
          × (r.0 ≡ some accepted)
          × (is_found r.1.dir ≡ false)
          × (stack_value ini (codes "TlsServerCertificateCa") r.1
              ≡ join st.working_dir (file_name lib (codes "cs_") c))
    unfolding delete_certificate
    delete_certificate-in_use max_length c st laws store w p n r a h =
        let name = file_name lib (codes "cs_") c in
        let t =
          (ca_certificate_received ini lib fs max_length central_system_root_certificate c st).1 in
        let (dir, ca) = received-central max_length c st store h in
        let found : is_found t.dir ≡ true =
          rw dir (is_found-write_file name (lib.pem c) st.dir (matches-file_name c laws a)) in
        let gone =
          delete_loop-path fs (stack_value ini (codes "TlsServerCertificateCa") t) t.dir not_found
            (rw ca (has_slash-join st.working_dir name w))
            (rw dir (HasPlainNames-write_file name (lib.pem c) st.dir n p)) r in
        (found, gone.0 ∙ ap (λ b. some (if b then accepted else not_found)) found, gone.1, ca)
