-- ===== src/Certificates/Deletion.antt =====
-- What a deletion leaves, and that the certificate in use is not kept from it.
use open_ocpp_simu.Common.{
  ◌↔◌, ◌≡◌, refl, ap, sym, ◌∙◌, Bool-cases, inl, inr, Bool, true, false, not, ◌&&◌, none, some,
  List, [], ◌∷◌, Text, codes, text_eq, All, arith, if◌then◌else◌,
}
use open_ocpp_simu.Config.Requests.{IniFile}
use open_ocpp_simu.Certificates.Library.{CertLib, IsCertLib, FileSystem}
use open_ocpp_simu.Certificates.Files.{Entry, iso15118_get_installed}
use open_ocpp_simu.Certificates.Names.{is_file-iso}
use open_ocpp_simu.Certificates.Install.{Store, stack_value}
use open_ocpp_simu.Certificates.Delete.{
  DeleteStatus, accepted, failed, not_found, CertificateId, matches, delete_entry, delete_loop,
  delete_certificate, iso15118_delete_certificate,
}

module _ {C : Type 0} (lib : CertLib C) (fs : FileSystem) (q : CertificateId) where
  -- The entry is to be removed: it matches and is not the one in use.
  abbrev pub is_due : Text → Entry → Bool
  is_due ca e = matches lib q e && not (text_eq e.name ca)

  -- What stays: what is not due, and all from the first one on that is due and cannot be removed.
  abbrev pub kept : Text → List Entry → List Entry
  kept ca [] = []
  kept ca (e ∷ es) =
      let rest = kept ca es in
      if is_due ca e then (if fs.removes e.name then rest else e ∷ es) else e ∷ rest

  abbrev pub all_removable : Text → List Entry → Bool
  all_removable ca [] = true
  all_removable ca (e ∷ es) =
      let rest = all_removable ca es in if is_due ca e then fs.removes e.name && rest else rest

  -- The status is that of the last one that matches.
  abbrev pub last_status : Text → List Entry → DeleteStatus → DeleteStatus
  last_status ca [] s = s
  last_status ca (e ∷ es) s =
      last_status ca es
        (if matches lib q e then (if text_eq e.name ca then failed else accepted) else s)

  delete_loop-kept :
      (ca : Text) (dir : List Entry) (s : DeleteStatus)
      → (delete_loop lib fs q ca dir s).1 ≡ kept ca dir
  unfolding delete_loop delete_entry
  delete_loop-kept ca [] s = refl
  delete_loop-kept ca (e ∷ es) s = ground (
    arith,
    delete_loop-kept ca es s,
    delete_loop-kept ca es failed,
    delete_loop-kept ca es accepted,
  )

  delete_loop-status :
      (ca : Text) (dir : List Entry) (s : DeleteStatus)
      → (delete_loop lib fs q ca dir s).0
        ≡ (if all_removable ca dir then some (last_status ca dir s) else none)
  unfolding delete_loop delete_entry
  delete_loop-status ca [] s = refl
  delete_loop-status ca (e ∷ es) s = ground (
    arith,
    delete_loop-status ca es s,
    delete_loop-status ca es failed,
    delete_loop-status ca es accepted,
  )

  delete_loop-not_found :
      (ca : Text) (dir : List Entry) (s : DeleteStatus)
      → ((delete_loop lib fs q ca dir s).0 ≡ some not_found)
        ↔ ((s ≡ not_found) × All (λ e. matches lib q e ≡ false) dir)
  unfolding delete_loop delete_entry
  delete_loop-not_found ca [] s = ground arith
  delete_loop-not_found ca (e ∷ es) s = ground (
    arith,
    delete_loop-not_found ca es s,
    delete_loop-not_found ca es failed,
    delete_loop-not_found ca es accepted,
  )

  module _ {S : Type 0} (ini : IniFile S) where
    -- A deletion removes the files that match, in the order of the directory, but for the one whose
    -- name is that of the certificate in use, and changes nothing else. It ends with an exception
    -- exactly if one of them cannot be removed, and this one and those after it stay. Otherwise the
    -- status is that of the last one that matches: failed for the one in use, accepted for one that
    -- is removed; it is not found exactly if none matches.
    pub delete_certificate_lem :
        (st : Store S)
        → let r = delete_certificate ini lib fs q st in
          let ca = stack_value ini (codes "TlsServerCertificateCa") st in
          (r.1 ≡ record st { dir = kept ca st.dir })
          × (r.0
              ≡ (if all_removable ca st.dir then some (last_status ca st.dir not_found) else none))
          × ((r.0 ≡ some not_found) ↔ All (λ e. matches lib q e ≡ false) st.dir)
    unfolding delete_certificate
    delete_certificate_lem st =
        let ca = stack_value ini (codes "TlsServerCertificateCa") st in
        let (a, b) = delete_loop-not_found ca st.dir not_found in
        (
          ap (λ d. record st { dir = d }) (delete_loop-kept ca st.dir not_found),
          delete_loop-status ca st.dir not_found,
          (λ h. (a h).1, λ h. b (refl, h)),
        )

    -- The list of an entry and of what comes after it.
    iso-cons :
        (v2g mo chain : Bool) (e : Entry) (es fs : List Entry)
        → iso15118_get_installed lib v2g mo chain es ≡ iso15118_get_installed lib v2g mo chain fs
        → iso15118_get_installed lib v2g mo chain (e ∷ es)
          ≡ iso15118_get_installed lib v2g mo chain (e ∷ fs)
    unfolding iso15118_get_installed
    iso-cons v2g mo chain e es fs h = rw h refl

    iso-matches :
        (v2g mo chain : Bool) (e : Entry) (es : List Entry)
        → IsCertLib lib
        → matches lib q e ≡ true
        → iso15118_get_installed lib v2g mo chain (e ∷ es)
          ≡ iso15118_get_installed lib v2g mo chain es
    unfolding iso15118_get_installed matches
    iso-matches v2g mo chain e es laws h = ground (arith, is_file-iso lib laws e, h)

    is_due-matches : (ca : Text) (e : Entry) → is_due ca e ≡ true → matches lib q e ≡ true
    is_due-matches ca e h = ground (arith, h)

    iso-kept :
        (v2g mo chain : Bool) (ca : Text) (dir : List Entry)
        → IsCertLib lib
        → iso15118_get_installed lib v2g mo chain (kept ca dir)
          ≡ iso15118_get_installed lib v2g mo chain dir
    iso-kept v2g mo chain ca [] laws = refl
    iso-kept v2g mo chain ca (e ∷ es) laws =
        let rest = iso-kept v2g mo chain ca es laws in
        elim (Bool-cases (is_due ca e)) [
          | inr d ↦ rw d (iso-cons v2g mo chain e (kept ca es) es rest)
          | inl d ↦ elim (Bool-cases (fs.removes e.name)) [
            | inr r ↦ rw (d, r) refl
            | inl r ↦
                rw (d, r) (rest ∙ sym (iso-matches v2g mo chain e es laws (is_due-matches ca e d)))
          ]
        ]

    -- The deletion for ISO 15118 never removes a certificate that is installed for ISO 15118.
    pub iso15118_get_installed-delete :
        (v2g mo chain : Bool) (st : Store S)
        → IsCertLib lib
        → iso15118_get_installed lib v2g mo chain
            (iso15118_delete_certificate ini lib fs q st).1.dir
          ≡ iso15118_get_installed lib v2g mo chain st.dir
    unfolding iso15118_delete_certificate
    iso15118_get_installed-delete v2g mo chain st laws =
        let ca = stack_value ini (codes "TlsServerCertificateCa") st in
        ap (λ (t : Store S). iso15118_get_installed lib v2g mo chain t.dir)
          (delete_certificate_lem st).0
        ∙ iso-kept v2g mo chain ca st.dir laws
