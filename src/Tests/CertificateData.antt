-- ===== src/Tests/CertificateData.antt =====
-- Certificates that are their own text, in a directory `/w`.
use open_ocpp_simu.Common.{
  ◌≡◌, refl, ap, Bool, true, false, not, some, [], ◌∷◌, ◌++◌, Text, codes, text_eq, text_eq_iff,
  text_eq_refl, is_empty, arith, if◌then◌else◌, Bool-cases, inl, inr, ◌==◌,
}
use open_ocpp_simu.Certificates.Library.{CertLib, IsCertLib, FileSystem}
use open_ocpp_simu.Certificates.Files.{new_file}
use open_ocpp_simu.Certificates.Install.{Store}
use open_ocpp_simu.Certificates.Delete.{CertificateId, sha256_hash}
use open_ocpp_simu.Tests.Settings.{File, file}

abbrev pub starts : Text → Text → Bool
starts s [] = true
starts [] (d ∷ p) = false
starts (c ∷ s) (d ∷ p) = let rest = starts s p in if c == d then rest else false

abbrev pub ends : Text → Text → Bool
ends [] p = is_empty p
ends (c ∷ s) p = let rest = ends s p in if text_eq (c ∷ s) p then true else rest

starts_some : (s p : Text) → starts s p ≡ true → (t : Text) × (s ≡ p ++ t)
starts_some s [] h = (s, refl)
starts_some [] (d ∷ p) h = absurd cc
starts_some (c ∷ s) (d ∷ p) h =
    let both : (c ≡ d) × (starts s p ≡ true) = ground arith in
    let (t, e) = starts_some s p both.1 in (t, rw (both.0, e) refl)

starts_append : (p t : Text) → starts (p ++ t) p ≡ true
starts_append [] t = refl
starts_append (d ∷ p) t = ground (arith, starts_append p t)

ends_some : (s p : Text) → ends s p ≡ true → (t : Text) × (s ≡ t ++ p)
ends_some [] [] h = ([], refl)
ends_some [] (d ∷ p) h = absurd cc
ends_some (c ∷ s) p h = elim (Bool-cases (text_eq (c ∷ s) p)) [
  | inl e ↦ ([], (text_eq_iff (c ∷ s) p).0 e)
  | inr e ↦
      let rest : ends s p ≡ true = ground arith in
      let (t, d) = ends_some s p rest in (c ∷ t, ap (λ x. c ∷ x) d)
]

ends_refl : (p : Text) → ends p p ≡ true
ends_refl [] = refl
ends_refl (c ∷ p) = rw (text_eq_refl (c ∷ p)) refl

ends_append : (t p : Text) → ends (t ++ p) p ≡ true
ends_append [] p = ends_refl p
ends_append (c ∷ t) p = ground (arith, ends_append t p)

abbrev pub lib : CertLib Text
lib = record {
  load = λ t. t;
  pem = λ c. c;
  is_valid = λ c. true;
  serial = λ c. c;
  issuer = λ c. c;
  public_key = λ c. c;
  verify = λ c cs. not (is_empty cs);
  chain = λ c. c ∷ [];
  sha = λ type t. t;
  starts_with = starts;
  ends_with = ends;
}

pub lib-IsCertLib : IsCertLib lib
lib-IsCertLib = record {
  load-pem = λ c. refl;
  starts_with_iff = λ s p. (starts_some s p, λ x. rw x.1 (starts_append p x.0));
  ends_with_iff = λ s p. (ends_some s p, λ x. rw x.1 (ends_append x.0 p));
}

-- Every file can be written and removed.
abbrev pub fs : FileSystem
fs = record { writes = λ name. true; removes = λ name. true; copies = λ name. true }

abbrev pub certificate : Text
certificate = codes "ca"

-- A certificate of ISO 15118 is installed, and a key is there to copy.
abbrev pub store : Store File
store = record {
  working_dir = codes "/w";
  dir = new_file (codes "iso_mo_root_x.pem") (codes "x") ∷ [];
  config = file;
  has_chargepoint = true;
  reconnects = 0;
  key_file = some (codes "key");
}

abbrev pub asked : CertificateId
asked = record {
  hash_algorithm = sha256_hash;
  issuer_name_hash = certificate;
  issuer_key_hash = certificate;
  serial_number = certificate;
}
