-- ===== src/Certificates/Again.antt =====
-- The certificate of the charge point, received a second time after other requests.
use open_ocpp_simu.Common.{
  ℕ, ◌≡◌, refl, ap, Bool, true, false, not, ◌||◌, Bool-cases, inl, inr, Option, none, some, List,
  [], ◌∷◌, ◌++◌, Text, codes, text_eq, text_eq_iff, arith, if◌then◌else◌,
}
use mathlib.Core.Path.{subst}
use open_ocpp_simu.Config.Requests.{IniFile}
use open_ocpp_simu.Certificates.Library.{CertLib, IsCertLib, FileSystem, sha256}
use open_ocpp_simu.Certificates.Files.{
  Entry, CertificateUse, central_system_root_certificate, manufacturer_root_certificate, is_file,
  exists, write_file, join, prefix_of,
}
use open_ocpp_simu.Certificates.Names.{other_prefix, exists-write_file_mono}
use open_ocpp_simu.Certificates.Install.{
  Store, InstallUse, install_prefix, file_name, to_file, copy_key, reconnect, use_ca,
  use_client_certificate, stack_value, ca_certificate_received, iso15118_certificate_received,
  charge_point_certificate_received, iso15118_charge_point_certificate_received,
}
use open_ocpp_simu.Certificates.Delete.{CertificateId, matches, delete_certificate}
use open_ocpp_simu.Certificates.Deletion.{kept, delete_certificate_lem}
use open_ocpp_simu.Certificates.ChargePoint.{received-copied, received-key}

abbrev head_code : Text → ℕ
head_code [] = 0
head_code (c ∷ s) = c

abbrev second_code : Text → ℕ
second_code [] = 0
second_code (c ∷ s) = head_code s

module _ {S C : Type 0} (ini : IniFile S) (lib : CertLib C) (fs : FileSystem) where
  -- Requests about certificates, one after the other, which return. A request for a new certificate
  -- writes the file of the key.
  pub data Requests (st : Store S) : Store S → Type 0 where
    here : Requests st st
    ca :
        (max : ℕ) (type : CertificateUse) (c : C) (t : Store S)
        → Requests st t
        → Requests st (ca_certificate_received ini lib fs max type c t).1
    iso_ca :
        (max : ℕ) (type : InstallUse) (c : C) (t : Store S)
        → Requests st t
        → Requests st (iso15118_certificate_received ini lib fs max type c t).1
    delete :
        (q : CertificateId) (t : Store S)
        → Requests st t
        → Requests st (delete_certificate ini lib fs q t).1
    csr :
        (key : Option Text) (t : Store S)
        → Requests st t
        → Requests st (record t { key_file = key })
    charge_point :
        (c : C) (b : Bool) (t u : Store S)
        → Requests st t
        → charge_point_certificate_received ini lib fs c t ≡ some (b, u)
        → Requests st u
    iso_charge_point :
        (c : C) (b : Bool) (t u : Store S)
        → Requests st t
        → iso15118_charge_point_certificate_received ini lib fs c t ≡ some (b, u)
        → Requests st u

  module _ (other : Text) where
    -- The file is there.
    abbrev Has : Store S → Type 0
    Has st = exists other st.dir ≡ true

    to_file-Has : (name : Text) (c : C) (st : Store S) → Has st → Has (to_file lib fs name c st).1
    unfolding to_file
    to_file-Has name c st h = ground (arith, exists-write_file_mono other name (lib.pem c) st.dir h)

    copy_key-Has : (name : Text) (st t : Store S) → copy_key fs name st ≡ some t → Has st → Has t
    unfolding copy_key
    copy_key-Has name st t e h = go st.key_file e
      where
        go :
            (o : Option Text)
            → elim o [
              | none ↦ none
              | some key ↦
                  if exists name st.dir || not (fs.copies name)
                  then none
                  else some (record st { dir = write_file name key st.dir })
            ]
              ≡ some t
            → Has t
        go none e = cc
        go (some key) e = ground (arith, e, exists-write_file_mono other name key st.dir h)

    use_ca-Has :
        (type : CertificateUse) (path : Text) (st : Store S)
        → Has st
        → Has (use_ca ini type path st)
    unfolding use_ca reconnect
    use_ca-Has central_system_root_certificate path st h = ground (arith, h)
    use_ca-Has manufacturer_root_certificate path st h = h

    use_client_certificate-Has :
        (path : Text) (st : Store S) → Has st → Has (use_client_certificate ini path st)
    unfolding use_client_certificate reconnect
    use_client_certificate-Has path st h = ground (arith, h)

    -- A file that is not a certificate of a certificate authority is not deleted.
    kept-Has :
        (q : CertificateId) (name : Text) (dir : List Entry)
        → ((e : Entry) → e.name ≡ other → matches lib q e ≡ false)
        → exists other dir ≡ true
        → exists other (kept lib fs q name dir) ≡ true
    kept-Has q name [] safe h = cc
    kept-Has q name (e ∷ es) safe h = elim (Bool-cases (text_eq e.name other)) [
      | inl y ↦ let plain = safe e ((text_eq_iff e.name other).0 y) in ground (arith, plain, y)
      | inr n ↦
          let later : exists other es ≡ true = ground (arith, h, n) in
          let rest = kept-Has q name es safe later in ground (arith, rest, later, n)
    ]

    ca-Has :
        (max : ℕ) (type : CertificateUse) (c : C) (st : Store S)
        → Has st
        → Has (ca_certificate_received ini lib fs max type c st).1
    unfolding ca_certificate_received
    ca-Has max type c st h =
        let name = file_name lib (prefix_of type) c in
        let written = to_file-Has name c st h in
        ground (
          arith,
          h,
          written,
          use_ca-Has type (join st.working_dir name) (to_file lib fs name c st).1 written,
        )

    iso_ca-Has :
        (max : ℕ) (type : InstallUse) (c : C) (st : Store S)
        → Has st
        → Has (iso15118_certificate_received ini lib fs max type c st).1
    unfolding iso15118_certificate_received
    iso_ca-Has max type c st h =
        ground (arith, h, to_file-Has (file_name lib (install_prefix type) c) c st h)

    delete-Has :
        (q : CertificateId) (st : Store S)
        → ((e : Entry) → e.name ≡ other → matches lib q e ≡ false)
        → Has st
        → Has (delete_certificate ini lib fs q st).1
    delete-Has q st safe h =
        rw (delete_certificate_lem lib fs q ini st).0
          (kept-Has q (stack_value ini (codes "TlsServerCertificateCa") st) st.dir safe h)

    -- The result after the file and after the copy of the key; `finish` is what follows.
    abbrev outcome :
        (Store S → Store S) → Bool → Store S → Option (Store S) → Option (Bool × Store S)
    outcome finish saved s o =
        if saved then elim o [ none ↦ none | some x ↦ some (true, finish x) ] else some (false, s)

    -- Both receptions of a certificate of the charge point.
    key_copied-Has :
        (prefix : Text) (c : C) (finish : Store S → Store S)
        → ((x : Store S) → Has x → Has (finish x))
        → (b : Bool) (st t : Store S)
        → (let name = file_name lib prefix c in
            let r = to_file lib fs name c st in
            outcome finish r.0 r.1 (copy_key fs (name ++ codes ".key") r.1))
          ≡ some (b, t)
        → Has st
        → Has t
    key_copied-Has prefix c finish k b st t e h =
        let name = file_name lib prefix c in
        let r = to_file lib fs name c st in
        go r.0 r.1 (copy_key fs (name ++ codes ".key") r.1) refl e (to_file-Has name c st h)
      where
        go :
            (saved : Bool) (s : Store S) (o : Option (Store S))
            → copy_key fs (file_name lib prefix c ++ codes ".key") s ≡ o
            → outcome finish saved s o ≡ some (b, t)
            → Has s
            → Has t
        go false s o q e a = ground (arith, e, a)
        go true s none q e a = cc
        go true s (some x) q e a =
            let same : finish x ≡ t = ground (arith, e) in
            subst Has same (k x (copy_key-Has (file_name lib prefix c ++ codes ".key") s x q a))

    charge_point-Has :
        (c : C) (b : Bool) (st t : Store S)
        → charge_point_certificate_received ini lib fs c st ≡ some (b, t)
        → Has st
        → Has t
    unfolding charge_point_certificate_received
    charge_point-Has c b st t e h =
        let path = join st.working_dir (file_name lib (codes "cp_") c) in
        key_copied-Has (codes "cp_") c (use_client_certificate ini path)
          (use_client_certificate-Has path) b st t e h

    iso_charge_point-Has :
        (c : C) (b : Bool) (st t : Store S)
        → iso15118_charge_point_certificate_received ini lib fs c st ≡ some (b, t)
        → Has st
        → Has t
    unfolding iso15118_charge_point_certificate_received
    iso_charge_point-Has c b st t e h =
        key_copied-Has (codes "iso_cp_") c (λ x. x) (λ x a. a) b st t e h

  module _ (laws : IsCertLib lib) where
    open laws use {starts_with_iff}

    -- The copy of the key does not have the name of a certificate of a certificate authority.
    key-plain :
        (q : CertificateId) (c : C) (e : Entry)
        → e.name ≡ file_name lib (codes "cp_") c ++ codes ".key"
        → matches lib q e ≡ false
    unfolding matches is_file
    key-plain q c e h =
        let rest = (lib.sha sha256 (lib.pem c) ++ codes ".pem") ++ codes ".key" in
        let key : lib.starts_with e.name (codes "cp_") ≡ true =
          (starts_with_iff e.name (codes "cp_")).1 (rest, h) in
        let fw =
          other_prefix lib laws e.name (codes "cp_") (codes "fw_") key
            λ t u k. absurd (omega (arith, ap head_code k)) in
        let cs =
          other_prefix lib laws e.name (codes "cp_") (codes "cs_") key
            λ t u k. absurd (omega (arith, ap second_code k)) in
        ground (arith, fw, cs)

    -- The copy of the key stays.
    Requests-Has :
        (c : C) {st t : Store S}
        → Requests st t
        → let key = file_name lib (codes "cp_") c ++ codes ".key" in Has key st → Has key t
    Requests-Has c here h = h
    Requests-Has c (ca max type d t r) h =
        ca-Has (file_name lib (codes "cp_") c ++ codes ".key") max type d t (Requests-Has c r h)
    Requests-Has c (iso_ca max type d t r) h =
        iso_ca-Has (file_name lib (codes "cp_") c ++ codes ".key") max type d t (Requests-Has c r h)
    Requests-Has c (delete q t r) h =
        delete-Has (file_name lib (codes "cp_") c ++ codes ".key") q t (key-plain q c)
          (Requests-Has c r h)
    Requests-Has c (csr key t r) h = Requests-Has c r h
    Requests-Has c (charge_point d b t u r e) h =
        charge_point-Has (file_name lib (codes "cp_") c ++ codes ".key") d b t u e
          (Requests-Has c r h)
    Requests-Has c (iso_charge_point d b t u r e) h =
        iso_charge_point-Has (file_name lib (codes "cp_") c ++ codes ".key") d b t u e
          (Requests-Has c r h)

    -- Once the certificate of the charge point is received, it is received with an exception from
    -- then on, whatever requests about certificates come in between and return: receptions,
    -- deletions and requests for new certificates, with new keys. Its file can be written then as it
    -- could before.
    pub charge_point_certificate_received-again :
        (c : C) (st t u : Store S)
        → charge_point_certificate_received ini lib fs c st ≡ some (true, t)
        → Requests t u
        → charge_point_certificate_received ini lib fs c u ≡ none
    charge_point_certificate_received-again c st t u h r =
        let (w, there) = received-key ini lib fs c st t h in
        received-copied ini lib fs c u w (Requests-Has c r there)
