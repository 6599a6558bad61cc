-- ===== src/Certificates/ChargePoint.antt =====
-- The certificate of the charge point.
use mathlib.Core.Path.{subst}
use open_ocpp_simu.Common.{
  ℕ, ◌≡◌, refl, sym, ap, ◌∙◌, true, false, Option, none, some, List, [], ◌∷◌, ◌++◌, Text, codes,
  is_empty, length, arith,
}
use open_ocpp_simu.Config.Requests.{IniFile, IsStore, stack_params}
use open_ocpp_simu.Certificates.Library.{CertLib, IsCertLib, FileSystem, sha256}
use open_ocpp_simu.Certificates.Files.{Entry, is_file, write_file, new_file, join, exists}
use open_ocpp_simu.Certificates.Names.{
  is_file-new_file, exists-write_file_self, exists-write_file_mono,
}
use open_ocpp_simu.Certificates.Install.{
  Store, to_file, file_name, reconnect, copy_key, use_client_certificate,
  charge_point_certificate_received, has_charge_point_loop, has_charge_point_certificate_installed,
  stack_value, set_stack_config_value,
}

module _ {S C : Type 0} (ini : IniFile S) (lib : CertLib C) (fs : FileSystem) where
  -- What the store is after the certificate of the charge point.
  with_certificate : C → Text → Store S → Store S
  with_certificate c key st =
      let name = file_name lib (codes "cp_") c in
      use_client_certificate ini (join st.working_dir name) (record st {
        dir = write_file (name ++ codes ".key") key (write_file name (lib.pem c) st.dir);
      })

  with_certificate-files :
      (c : C) (key : Text) (st : Store S)
      → let name = file_name lib (codes "cp_") c in
        let path = join st.working_dir name in
        ((with_certificate c key st).dir
          ≡ write_file (name ++ codes ".key") key (write_file name (lib.pem c) st.dir))
        × ((with_certificate c key st).config
            ≡ set_stack_config_value ini
                (codes "TlsClientCertificatePrivateKey")
                (path ++ codes ".key")
                (set_stack_config_value ini (codes "TlsClientCertificate") path st.config))
  unfolding with_certificate use_client_certificate reconnect
  with_certificate-files c key st = (ground arith, ground arith)

  received-some :
      (c : C) (st t : Store S) (o : Option Text)
      → st.key_file ≡ o
      → charge_point_certificate_received ini lib fs c st ≡ some (true, t)
      → let name = file_name lib (codes "cp_") c in
        (fs.writes name ≡ true)
        × (exists (name ++ codes ".key") (write_file name (lib.pem c) st.dir) ≡ false)
        × ((key : Text) × (t ≡ with_certificate c key st))
  unfolding charge_point_certificate_received to_file copy_key with_certificate
  received-some c st t none e h = ground arith
  received-some c st t (some key) e h = (ground arith, ground arith, (key, ground arith))

  -- Where the key's copy is there, the reception ends with an exception.
  pub received-copied :
      (c : C) (st : Store S)
      → let name = file_name lib (codes "cp_") c in
        fs.writes name ≡ true
        → exists (name ++ codes ".key") st.dir ≡ true
        → charge_point_certificate_received ini lib fs c st ≡ none
  unfolding charge_point_certificate_received to_file copy_key
  received-copied c st w h =
      let name = file_name lib (codes "cp_") c in
      ground (arith, exists-write_file_mono (name ++ codes ".key") name (lib.pem c) st.dir h)

  -- After the reception the certificate's file could be written, and the copy of the key is there.
  pub received-key :
      (c : C) (st t : Store S)
      → let name = file_name lib (codes "cp_") c in
        charge_point_certificate_received ini lib fs c st ≡ some (true, t)
        → (fs.writes name ≡ true) × (exists (name ++ codes ".key") t.dir ≡ true)
  received-key c st t h =
      let name = file_name lib (codes "cp_") c in
      let (w, _, more) = received-some c st t st.key_file refl h in
      (
        w,
        rw (more.1, (with_certificate-files c more.0 st).0)
            (exists-write_file_self (name ++ codes ".key") more.0
              (write_file name (lib.pem c) st.dir)),
      )

  -- The entry that the loop looks for is found.
  loop-write_file :
      (name content : Text) (all : List Entry) (st : Store S) (dir : List Entry)
      → is_file lib (codes "cp_") (new_file name content) ≡ true
      → exists (name ++ codes ".key") all ≡ true
      → is_empty (stack_value ini (codes "TlsClientCertificate") st) ≡ false
      → is_empty (stack_value ini (codes "TlsClientCertificatePrivateKey") st) ≡ false
      → has_charge_point_loop ini lib all st (write_file name content dir) ≡ true
  unfolding has_charge_point_loop write_file
  loop-write_file name content all st [] f k a b = rw (f, k, a, b) refl
  loop-write_file name content all st (e ∷ es) f k a b =
      ground (arith, loop-write_file name content all st es f k a b)

  loop-write_file_new :
      (name content : Text) (all : List Entry) (st : Store S) (dir : List Entry)
      → exists name dir ≡ false
      → has_charge_point_loop ini lib all st dir ≡ true
      → has_charge_point_loop ini lib all st (write_file name content dir) ≡ true
  unfolding has_charge_point_loop write_file
  loop-write_file_new name content all st [] n h = cc
  loop-write_file_new name content all st (e ∷ es) n h =
      ground (arith, loop-write_file_new name content all st es)

is_empty-join : (dir : Text) (x : ℕ) (name : Text) → is_empty (join dir (x ∷ name)) ≡ false
unfolding join
is_empty-join [] x name = refl
is_empty-join (c ∷ []) x name = ground arith
is_empty-join (c ∷ d ∷ dir) x name = refl

is_empty-append : (s t : Text) → is_empty s ≡ false → is_empty (s ++ t) ≡ false
is_empty-append [] t h = cc
is_empty-append (c ∷ s) t h = refl

module _ {S C : Type 0} (ini : IniFile S) (lib : CertLib C) (fs : FileSystem) where
  received-config :
      (c : C) (st t : Store S) (key : Text)
      → IsCertLib lib
      → IsStore ini
      → t ≡ with_certificate ini lib fs c key st
      → (is_empty (stack_value ini (codes "TlsClientCertificate") t) ≡ false)
        × (is_empty (stack_value ini (codes "TlsClientCertificatePrivateKey") t) ≡ false)
  unfolding set_stack_config_value
  received-config c st t key laws store e =
      let path = join st.working_dir (file_name lib (codes "cp_") c) in
      let config =
        ap (λ (x : Store S). x.config) e ∙ (with_certificate-files ini lib fs c key st).1 in
      let some_path =
        is_empty-join st.working_dir 99 (112 ∷ 95 ∷ (lib.sha sha256 (lib.pem c) ++ codes ".pem")) in
      let s = ini.set st.config stack_params (codes "TlsClientCertificate") path in
      (
        rw
            (
              config,
              store.get-set_ne s stack_params stack_params (codes "TlsClientCertificatePrivateKey")
                  (codes "TlsClientCertificate") (path ++ codes ".key")
                  (λ q. absurd (omega (arith, ap length q.1))),
              store.get-set_self st.config stack_params (codes "TlsClientCertificate") path,
            )
            some_path,
        rw
            (
              config,
              store.get-set_self s stack_params (codes "TlsClientCertificatePrivateKey")
                  (path ++ codes ".key"),
            )
            (is_empty-append path (codes ".key") some_path),
      )

  -- After the certificate of the charge point is received, a certificate of the charge point is installed.
  pub has_charge_point_certificate_installed-received :
      (c : C) (st t : Store S)
      → IsCertLib lib
      → IsStore ini
      → charge_point_certificate_received ini lib fs c st ≡ some (true, t)
      → has_charge_point_certificate_installed ini lib t ≡ true
  unfolding has_charge_point_certificate_installed
  has_charge_point_certificate_installed-received c st t laws store h =
      let name = file_name lib (codes "cp_") c in
      let (w, n, more) = received-some ini lib fs c st t st.key_file refl h in
      let files = with_certificate-files ini lib fs c more.0 st in
      let dir = ap (λ (x : Store S). x.dir) more.1 ∙ files.0 in
      let set = received-config c st t more.0 laws store more.1 in
      let first =
        loop-write_file ini lib fs name (lib.pem c) t.dir t st.dir
          (is_file-new_file lib laws (codes "cp_") (lib.sha sha256 (lib.pem c)) (lib.pem c))
          (rw dir (
            exists-write_file_self (name ++ codes ".key") more.0
              (write_file name (lib.pem c) st.dir)))
          set.0 set.1 in
      subst (λ d. has_charge_point_loop ini lib t.dir t d ≡ true) (sym dir)
        (loop-write_file_new ini lib fs (name ++ codes ".key") more.0 t.dir t
          (write_file name (lib.pem c) st.dir) n first)
