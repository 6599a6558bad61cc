-- ===== src/Tests/Settings.antt =====
-- The configuration at concrete inputs.
use open_ocpp_simu.Common.{
  ◌+◌, ◌≡◌, ◌⊎◌, refl, Bool, true, false, none, some, [], ◌∷◌, All, codes, Text, text_eq,
  text_eq_iff, text_eq_refl, length, if◌then◌else◌, ◌&&◌, map,
}
use open_ocpp_simu.Float.{hundredths}
use open_ocpp_simu.Config.Keys.{Attributes, configuration_values, find}
use open_ocpp_simu.Config.Requests.{
  Section, IniFile, IsStore, get_configuration, set_configuration, requested_values, accepted,
  rejected, ocpp_params, stack_params, mqtt_params,
}
use open_ocpp_simu.Config.Answers.{
  get_configuration_all, length-requested_values, set_configuration_lem,
  get_configuration-set_configuration,
}
use open_ocpp_simu.Config.Getters.{Conversions, as_seconds, convert, read_value}
use open_ocpp_simu.Config.Reads.{read_value-set_configuration}
use open_ocpp_simu.Float.{Hundredths}

-- A file as a function of the section and the key.
abbrev pub File : Type 0
File = Section → Text → Text

abbrev pub same_section : Section → Section → Bool
same_section ocpp_params ocpp_params = true
same_section stack_params stack_params = true
same_section mqtt_params mqtt_params = true
same_section _ _ = false

abbrev pub file_set : File → Section → Text → Text → File
file_set s p k v q l = if same_section p q && text_eq k l then v else s q l

abbrev pub ini : IniFile File
ini = record { get = λ s p k. s p k; set = file_set; key_string = λ t. t; value_string = λ t. t }

same_section_iff : (p q : Section) → (same_section p q ≡ true) → p ≡ q
same_section_iff ocpp_params ocpp_params e = refl
same_section_iff stack_params stack_params e = refl
same_section_iff mqtt_params mqtt_params e = refl
same_section_iff ocpp_params stack_params e = cc
same_section_iff ocpp_params mqtt_params e = cc
same_section_iff stack_params ocpp_params e = cc
same_section_iff stack_params mqtt_params e = cc
same_section_iff mqtt_params ocpp_params e = cc
same_section_iff mqtt_params stack_params e = cc

file_set_self : (s : File) (p : Section) (k v : Text) → file_set s p k v p k ≡ v
file_set_self s ocpp_params k v = rw (text_eq_refl k) refl
file_set_self s stack_params k v = rw (text_eq_refl k) refl
file_set_self s mqtt_params k v = rw (text_eq_refl k) refl

file_set_ne :
    (s : File) (p q : Section) (k l v : Text)
    → ((p ≡ q) × (k ≡ l) → ⊥)
    → file_set s p k v q l ≡ s q l
file_set_ne s p q k l v h =
    go (same_section p q) (text_eq k l) λ a b. h (same_section_iff p q a, (text_eq_iff k l).0 b)
  where
    go : (a b : Bool) → (a ≡ true → b ≡ true → ⊥) → (if a && b then v else s q l) ≡ s q l
    go true true n = absurd (n refl refl)
    go true false n = refl
    go false b n = refl

pub ini-IsStore : IsStore ini
ini-IsStore = record { get-set_self = file_set_self; get-set_ne = file_set_ne }

abbrev pub file : File
file p k = []

abbrev key : Text
key = codes "HeartbeatInterval"

abbrev attributes : Attributes
attributes = record { is_read = true; is_write = true; is_reboot = false; is_ocpp = true }

get_configuration_all_example :
    get_configuration ini file [] ≡ get_configuration ini file (map (λ e. e.0) configuration_values)
get_configuration_all_example = get_configuration_all ini file

length-requested_values_example :
    let r = requested_values ini file (key ∷ codes "Unknown" ∷ []) in
    (length r.0 + length r.1 ≡ length (key ∷ codes "Unknown" ∷ []))
    × All (λ k. find configuration_values k ≡ none) r.1
length-requested_values_example = length-requested_values ini file (key ∷ codes "Unknown" ∷ [])

set_configuration_lem_example :
    let r = set_configuration ini file key (codes "60") in
    ((true ≡ true) × (r.0 ≡ accepted) × (r.1 ≡ file_set file ocpp_params key (codes "60")))
    ⊎ ((true ≡ false) × (r ≡ (rejected, file)))
unfolding find configuration_values text_eq
set_configuration_lem_example = set_configuration_lem ini file key (codes "60") attributes refl

get_configuration-set_configuration_example :
    get_configuration ini (set_configuration ini file key (codes "60")).1 (key ∷ [])
    ≡ (record { key = key; readonly = false; value = some (codes "60") } ∷ [], [])
unfolding find configuration_values text_eq
get_configuration-set_configuration_example =
    get_configuration-set_configuration ini file key (codes "60") attributes ini-IsStore refl refl
      refl

-- A number is the length of its text.
abbrev conversions : Conversions Hundredths
conversions = record {
  to_bool = λ t. text_eq t (codes "true");
  to_float = λ t. none;
  to_uint = λ t. length t;
}

read_value-set_configuration_example :
    read_value conversions ini ocpp_params key as_seconds
      (set_configuration ini file key (codes "60")).1
    ≡ convert conversions as_seconds (codes "60")
unfolding find configuration_values text_eq open_ocpp_simu.Launcher.Maps.lookup
    open_ocpp_simu.Config.Getters.core_getters open_ocpp_simu.Config.Getters.list_getters
    open_ocpp_simu.Config.Getters.security_getters
read_value-set_configuration_example =
    read_value-set_configuration ini conversions file key (codes "60") as_seconds attributes
      ini-IsStore refl refl
