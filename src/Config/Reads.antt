-- ===== src/Config/Reads.antt =====
-- What the getters read after a request of the central system.
use open_ocpp_simu.Common.{
  ◌≡◌, refl, Bool, true, false, ◌&&◌, Bool-cases, inl, inr, Option, none, some, [], ◌∷◌, Text,
  text_eq, text_eq_iff, arith, ◌++◌, if◌then◌else◌, ap, sym, ◌∙◌,
}
use open_ocpp_simu.Config.Keys.{Attributes, configuration_values, find}
use open_ocpp_simu.Config.Requests.{IniFile, IsStore, ocpp_params, set_configuration, write_key}
use open_ocpp_simu.Config.Getters.{
  Conversion, Conversions, convert, read_value, core_getters, list_getters, security_getters,
}
use open_ocpp_simu.Launcher.Maps.{Map, lookup}

-- The getters of the OCPP configuration whose keys the central system knows.
abbrev pub ocpp_getters : Map Conversion
ocpp_getters = core_getters ++ (list_getters ++ security_getters)

-- The key is in the table, in the section that the getters read.
abbrev is_ocpp_key : Option Attributes → Bool
is_ocpp_key none = false
is_ocpp_key (some a) = a.is_ocpp

abbrev are_ocpp_keys : Map Conversion → Bool
are_ocpp_keys [] = true
are_ocpp_keys ((key, c) ∷ m) = is_ocpp_key (find configuration_values key) && are_ocpp_keys m

ocpp_getters-keys : are_ocpp_keys ocpp_getters ≡ true
unfolding core_getters list_getters security_getters configuration_values find text_eq
ocpp_getters-keys = refl

is_ocpp_key-lookup :
    (m : Map Conversion) (key : Text) (c : Conversion)
    → are_ocpp_keys m ≡ true
    → lookup m key ≡ some c
    → is_ocpp_key (find configuration_values key) ≡ true
unfolding lookup
is_ocpp_key-lookup [] key c h e = cc
is_ocpp_key-lookup ((k, d) ∷ m) key c h e = elim (Bool-cases (text_eq k key)) [
  | inl y ↦ let same : k ≡ key = (text_eq_iff k key).0 y in rw⁻¹ same (ground (arith, h))
  | inr y ↦ is_ocpp_key-lookup m key c (ground (arith, h)) (ground (arith, y, e))
]

module _ {S F : Type 0} (ini : IniFile S) (conv : Conversions F) where
  -- For a key of the table that has a getter in the OCPP configuration, the getter reads what the
  -- central system sets where the key may be written, and what it read before where it may not.
  -- This holds for every value, also for one that a comment of the getters says is rejected.
  pub read_value-set_configuration :
      (s : S) (key value : Text) (c : Conversion) (a : Attributes)
      → IsStore ini
      → lookup ocpp_getters key ≡ some c
      → find configuration_values key ≡ some a
      → read_value conv ini ocpp_params key c (set_configuration ini s key value).1
        ≡ convert conv c (if a.is_write then value else ini.get s ocpp_params key)
  unfolding read_value set_configuration write_key
  read_value-set_configuration s key value c a store l e =
      let known = is_ocpp_key-lookup ocpp_getters key c ocpp_getters-keys l in
      let ocpp : a.is_ocpp ≡ true = ap is_ocpp_key (sym e) ∙ known in
      elim (Bool-cases a.is_write) [
        | inl w ↦
            rw
              (set_configuration, write_key, e, w, ocpp, store.get-set_self s ocpp_params key value)
              refl
        | inr w ↦ rw (set_configuration, write_key, e, w) refl
      ]
