-- ===== src/Certificates/Names.antt =====
-- The names of certificate files: their prefixes exclude one another.
use mathlib.Core.List.{append_assoc}
use open_ocpp_simu.Common.{
  ℕ, ◌<◌, ap, sym, ◌∙◌, ◌≡◌, ◌≢◌, refl, Bool, true, false, ◌||◌, Text, codes, [], ◌∷◌, ◌++◌, arith,
  List, text_eq_iff, text_eq_refl, if◌then◌else◌, ◌==◌,
}
use open_ocpp_simu.Certificates.Library.{CertLib, IsCertLib}
use open_ocpp_simu.Certificates.Files.{Entry, is_file, join, write_file, new_file, exists}

abbrev head_code : Text → ℕ
head_code [] = 0
head_code (c ∷ s) = c

-- A file name has no slash.
unfoldable pub has_slash : Text → Bool
has_slash [] = false
has_slash (c ∷ s) = let rest = has_slash s in if c == 47 then true else rest

-- A path in a directory that is not empty has one.
pub has_slash-join : (dir name : Text) → dir ≢ [] → has_slash (join dir name) ≡ true
unfolding has_slash join
has_slash-join [] name h = absurd (h refl)
has_slash-join (c ∷ []) name h = ground arith
has_slash-join (c ∷ d ∷ dir) name h =
    ground (arith, has_slash-join (d ∷ dir) name (λ (e : d ∷ dir ≡ []). cc))

pub exists-write_file_self :
    (name content : Text) (dir : List Entry) → exists name (write_file name content dir) ≡ true
unfolding write_file
exists-write_file_self name content [] = rw (text_eq_refl name) refl
exists-write_file_self name content (e ∷ es) =
    ground (arith, exists-write_file_self name content es, text_eq_refl name)

pub exists-write_file_mono :
    (other name content : Text) (dir : List Entry)
    → exists other dir ≡ true
    → exists other (write_file name content dir) ≡ true
unfolding write_file
exists-write_file_mono other name content [] h = cc
exists-write_file_mono other name content (e ∷ es) h = ground (
  arith,
  exists-write_file_mono other name content es,
  text_eq_iff e.name name,
  text_eq_iff e.name other,
  text_eq_iff name other,
)

module _ {C : Type 0} (lib : CertLib C) (laws : IsCertLib lib) where
  open laws use {starts_with_iff, ends_with_iff}

  false_of_not : (b : Bool) → (b ≡ true → ⊥) → b ≡ false
  false_of_not true h = absurd (h refl)
  false_of_not false h = refl

  -- What starts with one prefix does not start with another one.
  pub other_prefix :
      (s p q : Text)
      → lib.starts_with s p ≡ true
      → ((t u : Text) → p ++ t ≢ q ++ u)
      → lib.starts_with s q ≡ false
  other_prefix s p q h apart =
      let (t, e) = (starts_with_iff s p).0 h in
      false_of_not _ λ k. let (u, d) = (starts_with_iff s q).0 k in apart t u (sym e ∙ d)

  pub starts_with_fw :
      (s : Text)
      → lib.starts_with s (codes "fw_") ≡ true
      → (lib.starts_with s (codes "cs_") ≡ false) × (lib.starts_with s (codes "iso_") ≡ false)
  starts_with_fw s h = (
    other_prefix s (codes "fw_") (codes "cs_") h λ t u e. absurd (omega (arith, ap head_code e)),
    other_prefix s (codes "fw_") (codes "iso_") h λ t u e. absurd (omega (arith, ap head_code e)),
  )

  pub starts_with_cs :
      (s : Text)
      → lib.starts_with s (codes "cs_") ≡ true
      → (lib.starts_with s (codes "fw_") ≡ false) × (lib.starts_with s (codes "iso_") ≡ false)
  starts_with_cs s h = (
    other_prefix s (codes "cs_") (codes "fw_") h λ t u e. absurd (omega (arith, ap head_code e)),
    other_prefix s (codes "cs_") (codes "iso_") h λ t u e. absurd (omega (arith, ap head_code e)),
  )

  iso_of_head :
      (s p : Text)
      → lib.starts_with s p ≡ true
      → head_code p < 105
      → p ≢ []
      → (lib.starts_with s (codes "iso_v2g_root_") ≡ false)
        × (lib.starts_with s (codes "iso_mo_root_") ≡ false)
        × (lib.starts_with s (codes "iso_v2g_chain_") ≡ false)
  iso_of_head s [] h l n = absurd (n refl)
  iso_of_head s (x ∷ p) h l n = (
    other_prefix s (x ∷ p) (codes "iso_v2g_root_") h
        λ t u e. absurd (omega (arith, ap head_code e)),
    other_prefix s (x ∷ p) (codes "iso_mo_root_") h λ t u e. absurd (omega (arith, ap head_code e)),
    other_prefix s (x ∷ p) (codes "iso_v2g_chain_") h
        λ t u e. absurd (omega (arith, ap head_code e)),
  )

  -- A file for a certificate authority is not one of ISO 15118.
  pub is_file-iso :
      (e : Entry)
      → (is_file lib (codes "fw_") e || is_file lib (codes "cs_") e) ≡ true
      → (is_file lib (codes "iso_v2g_root_") e ≡ false)
        × (is_file lib (codes "iso_mo_root_") e ≡ false)
        × (is_file lib (codes "iso_v2g_chain_") e ≡ false)
  unfolding is_file
  is_file-iso e h =
      let apart =
        λ (p : Text) (d : head_code p < 105) (n : p ≢ []) (k : lib.starts_with e.name p ≡ true).
          iso_of_head e.name p k d n in
      ground (
        arith,
        apart (codes "fw_") (omega arith) (λ n. absurd (omega (arith, ap head_code n))),
        apart (codes "cs_") (omega arith) (λ n. absurd (omega (arith, ap head_code n))),
      )

  -- A new file whose name has a prefix and the extension counts as such.
  pub is_file-new_file :
      (prefix middle content : Text)
      → is_file lib prefix (new_file (prefix ++ (middle ++ codes ".pem")) content) ≡ true
  unfolding is_file
  is_file-new_file prefix middle content =
      let name = prefix ++ (middle ++ codes ".pem") in
      let starts = (starts_with_iff name prefix).1 (middle ++ codes ".pem", refl) in
      let ends =
        (ends_with_iff name (codes ".pem")).1
          (prefix ++ middle, sym (append_assoc prefix middle (codes ".pem"))) in
      rw (starts, ends) refl
