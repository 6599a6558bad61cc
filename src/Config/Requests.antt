-- ===== src/Config/Requests.antt =====
-- `getConfiguration` and `setConfiguration`. The file of the configuration is a parameter: `IniFile`
-- is a class of the Open OCPP library.
use open_ocpp_simu.Common.{
  ◌≡◌, Bool, not, Option, none, some, List, [], ◌∷◌, Text, is_empty, if◌then◌else◌,
}
use open_ocpp_simu.Config.Keys.{Attributes, configuration_values, find}

-- The sections that the source names `OCPP_PARAMS`, `STACK_PARAMS` and `MQTT_PARAMS`.
pub data Section : Type 0 where
  ocpp_params stack_params mqtt_params : Section

pub data ConfigurationStatus : Type 0 where
  accepted rejected reboot_required not_supported : ConfigurationStatus

-- The strings of `KeyValue` are bounded strings of the library, which cut what they are assigned.
pub record KeyValue : Type 0 where
  pub key : Text
  pub readonly : Bool
  pub value : Option Text

-- `get(section, key).toString()` and `set(section, key, value)` of a file.
pub record IniFile (S : Type 0) : Type 0 where
  pub get : S → Section → Text → Text
  pub set : S → Section → Text → Text → S
  -- `assign` to the key and to the value of a `KeyValue`
  pub key_string : Text → Text
  pub value_string : Text → Text

-- A `set` is read back at its place, and nowhere else.
pub record IsStore {S : Type 0} (ini : IniFile S) : Type 0 where
  pub get-set_self : (s : S) (p : Section) (k v : Text) → ini.get (ini.set s p k v) p k ≡ v
  pub get-set_ne :
      (s : S) (p q : Section) (k l v : Text)
      → ((p ≡ q) × (k ≡ l) → ⊥)
      → ini.get (ini.set s p k v) q l ≡ ini.get s q l

-- `(attributes & PARAM_OCPP) != 0`
abbrev pub section_of : Attributes → Section
section_of a = if a.is_ocpp then ocpp_params else stack_params

module _ {S : Type 0} (ini : IniFile S) where
  -- The body of both loops for a key of the table.
  unfoldable pub key_value : S → Text → Attributes → KeyValue
  key_value s key a = record {
    key = ini.key_string key;
    readonly = not a.is_write;
    value = if a.is_read then some (ini.value_string (ini.get s (section_of a) key)) else none;
  }

  unfoldable pub all_values : S → List (Text × Attributes) → List KeyValue
  all_values s [] = []
  all_values s ((k, a) ∷ rest) = key_value s k a ∷ all_values s rest

  -- The body of the second loop, by the result of the lookup.
  unfoldable pub answer_key :
      S → Text → Option Attributes → List KeyValue × List Text → List KeyValue × List Text
  answer_key s key none rest = (rest.0, key ∷ rest.1)
  answer_key s key (some a) rest = (key_value s key a ∷ rest.0, rest.1)

  unfoldable pub requested_values : S → List Text → List KeyValue × List Text
  requested_values s [] = ([], [])
  requested_values s (key ∷ keys) =
      answer_key s key (find configuration_values key) (requested_values s keys)

  -- The values and the unknown keys.
  unfoldable pub get_configuration : S → List Text → List KeyValue × List Text
  get_configuration s keys =
      if is_empty keys then (all_values s configuration_values, []) else requested_values s keys

  -- The branches of `setConfiguration`, by the result of the lookup.
  unfoldable pub write_key : S → Text → Text → Option Attributes → ConfigurationStatus × S
  write_key s key value none = (not_supported, s)
  write_key s key value (some a) =
      if a.is_write
      then (if a.is_reboot then reboot_required else accepted, ini.set s (section_of a) key value)
      else (rejected, s)

  unfoldable pub set_configuration : S → Text → Text → ConfigurationStatus × S
  set_configuration s key value = write_key s key value (find configuration_values key)
