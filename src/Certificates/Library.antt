-- ===== src/Certificates/Library.antt =====
-- What the handler uses of the Open OCPP library and of the file system.
use open_ocpp_simu.Common.{◌≡◌, ◌↔◌, Bool, true, List, ◌++◌, Text}

-- `Sha2::Type`
pub data ShaType : Type 0 where
  sha256 sha384 sha512 : ShaType

-- `C` is `Certificate`. A file holds a text, and `load` is `Certificate(path)` for what it holds.
pub record CertLib (C : Type 0) : Type 0 where
  pub load : Text → C
  pub pem : C → Text
  pub is_valid : C → Bool
  pub serial : C → Text
  pub issuer : C → Text
  pub public_key : C → Text
  -- `verify` against certificates, and the chain in a file
  pub verify : C → List C → Bool
  pub chain : C → List C
  -- the hash as a hexadecimal text
  pub sha : ShaType → Text → Text
  -- `ocpp::helpers`
  pub starts_with : Text → Text → Bool
  pub ends_with : Text → Text → Bool

-- What is documented of them.
pub record IsCertLib {C : Type 0} (lib : CertLib C) : Type 0 where
  pub load-pem : (c : C) → lib.load (lib.pem c) ≡ c
  pub starts_with_iff : (s p : Text) → (lib.starts_with s p ≡ true) ↔ ((t : Text) × (s ≡ p ++ t))
  pub ends_with_iff : (s p : Text) → (lib.ends_with s p ≡ true) ↔ ((t : Text) × (s ≡ t ++ p))

-- The answers of the file system: whether a file can be written, whether one that is there can be
-- removed, and whether a readable file can be copied to a name that is not there yet.
pub record FileSystem : Type 0 where
  pub writes : Text → Bool
  pub removes : Text → Bool
  pub copies : Text → Bool
