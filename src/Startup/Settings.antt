-- ===== src/Startup/Settings.antt =====
-- What the charge point writes into its configuration before it starts.
use open_ocpp_simu.Common.{
  ℕ, zero, suc, ◌==◌, ◌≡◌, refl, sym, ap, ◌∙◌, Bool, true, false, not, ◌&&◌, ◌||◌, Bool-cases, inl,
  inr, List, [], ◌∷◌, ◌++◌, Text, text_eq, text_eq_iff, codes, is_empty, arith, if◌then◌else◌,
}
use open_ocpp_simu.Connector.{ConnectorType, ac, dc}
use open_ocpp_simu.Config.Requests.{
  Section, ocpp_params, stack_params, mqtt_params, IniFile, IsStore,
}
use open_ocpp_simu.Certificates.Files.{join}
use open_ocpp_simu.Startup.Decimal.{to_string}
use open_ocpp_simu.Startup.Arguments.{Params}

abbrev pub is_dc : ConnectorType → Bool
is_dc ac = false
is_dc dc = true

-- The loop from connector `i` on, with the number of connectors that are left. Its counter does not reach the end of 32
-- bits: with 2^32 - 1 connectors it would wrap around there and never end.
unfoldable pub rotation_loop : Text → ℕ → ℕ → ℕ → Text
rotation_loop phases nb_connectors i zero = []
rotation_loop phases nb_connectors i (suc left) =
    let rest = rotation_loop phases nb_connectors (suc i) left in
    to_string i
    ++ (codes "." ++ (phases ++ ((if not (i == nb_connectors) then codes "," else []) ++ rest)))

unfoldable pub connector_phase_rotation : ConnectorType → ℕ → ℕ → Text
connector_phase_rotation type nb_phases nb_connectors =
    rotation_loop (if is_dc type || nb_phases == 1 then codes "NotApplicable" else codes "RST")
      nb_connectors 1 nb_connectors

-- A value that is set: its section, its key and itself.
abbrev pub Setting : Type 0
Setting = Section × Text × Text

abbrev pub sampled_data : ConnectorType → Text
sampled_data ac = codes "Current.Import,Energy.Active.Import.Register,Current.Offered"
sampled_data dc =
    codes "Energy.Active.Import.Register,Power.Active.Import,Power.Factor,Voltage,Power.Offered"

abbrev pub rate_unit : ConnectorType → Text
rate_unit ac = codes "Current"
rate_unit dc = codes "Power"

-- The values that are set, in their order. The type is what `ConnectorTypeHelper.fromString` makes of its text.
unfoldable pub settings : ConnectorType → Params → List Setting
settings type p =
    (stack_params, codes "DatabasePath", join p.working_dir (codes "ocpp.db"))
    ∷ (stack_params, codes "ConnexionUrl", p.connection_url)
    ∷ (stack_params, codes "ChargePointIdentifier", p.chargepoint_id)
    ∷ (stack_params, codes "ChargePointSerialNumber", p.serial_number)
    ∷ (ocpp_params, codes "NumberOfConnectors", to_string p.nb_connectors)
    ∷ (ocpp_params, codes "MeterValuesSampledData", sampled_data type)
    ∷ (ocpp_params, codes "ChargingScheduleAllowedChargingRateUnit", rate_unit type)
    ∷ (ocpp_params, codes "ConnectorPhaseRotationMaxLength", to_string p.nb_connectors)
    ∷ (
      ocpp_params,
      codes "ConnectorPhaseRotation",
      connector_phase_rotation type p.nb_phases p.nb_connectors,
    )
    ∷ (mqtt_params, codes "BrokerUrl", p.mqtt_broker_url)
    ∷ ((if not (is_empty p.vendor_name)
          then (stack_params, codes "ChargePointVendor", p.vendor_name) ∷ []
          else [])
        ++ (if not (p.operating_voltage == 0)
            then (stack_params, codes "OperatingVoltage", to_string p.operating_voltage) ∷ []
            else []))

module _ {S : Type 0} (ini : IniFile S) where
  -- `setStackConfigValue`, `setOcppConfigValue` and `setMqttConfigValue`
  abbrev pub set_config_value : Setting → S → S
  set_config_value w s = ini.set s w.0 w.1 w.2

  unfoldable pub update_config : List Setting → S → S
  update_config [] s = s
  update_config (w ∷ ws) s = update_config ws (set_config_value w s)

-- What is read after the settings, if `old` was read before: the last value set.
abbrev section_code : Section → ℕ
section_code ocpp_params = 0
section_code stack_params = 1
section_code mqtt_params = 2

abbrev pub section_eq : Section → Section → Bool
section_eq p q = section_code p == section_code q

abbrev pub last_set : List Setting → Section → Text → Text → Text
last_set [] q key old = old
last_set (w ∷ ws) q key old =
    last_set ws q key (if section_eq w.0 q && text_eq w.1 key then w.2 else old)

section_eq-true : (p q : Section) → section_eq p q ≡ true → p ≡ q
section_eq-true ocpp_params ocpp_params h = refl
section_eq-true ocpp_params stack_params h = absurd cc
section_eq-true ocpp_params mqtt_params h = absurd cc
section_eq-true stack_params ocpp_params h = absurd cc
section_eq-true stack_params stack_params h = refl
section_eq-true stack_params mqtt_params h = absurd cc
section_eq-true mqtt_params ocpp_params h = absurd cc
section_eq-true mqtt_params stack_params h = absurd cc
section_eq-true mqtt_params mqtt_params h = refl

section_eq_refl : (p : Section) → section_eq p p ≡ true
section_eq_refl ocpp_params = refl
section_eq_refl stack_params = refl
section_eq_refl mqtt_params = refl

module _ {S : Type 0} (ini : IniFile S) where
  get-set :
      (w : Setting) (q : Section) (key : Text) (s : S)
      → IsStore ini
      → ini.get (set_config_value ini w s) q key
        ≡ (if section_eq w.0 q && text_eq w.1 key then w.2 else ini.get s q key)
  get-set (p, k, v) q key s store = elim (Bool-cases (section_eq p q && text_eq k key)) [
    | inl h ↦
        let same : (section_eq p q ≡ true) × (text_eq k key ≡ true) = ground arith in
        let a = section_eq-true p q same.0 in
        let b = (text_eq_iff k key).0 same.1 in rw (h, sym a, sym b) (store.get-set_self s p k v)
    | inr h ↦ rw h (
        store.get-set_ne s p q k key v λ e.
          let a : section_eq p q ≡ true = rw e.0 (section_eq_refl q) in
          let b : text_eq k key ≡ true = (text_eq_iff k key).1 e.1 in absurd (ground (arith, a, b)))
  ]

  get-update_config :
      (ws : List Setting) (q : Section) (key : Text) (s : S)
      → IsStore ini
      → ini.get (update_config ini ws s) q key ≡ last_set ws q key (ini.get s q key)
  unfolding update_config
  get-update_config [] q key s store = refl
  get-update_config (w ∷ ws) q key s store =
      get-update_config ws q key (set_config_value ini w s) store
      ∙ ap (last_set ws q key) (get-set w q key s store)

  -- After the settings of the charge point, each value of its configuration is the last one set for its key and section,
  -- and what it was before if none is set.
  pub get-settings :
      (type : ConnectorType) (p : Params) (q : Section) (key : Text) (s : S)
      → IsStore ini
      → ini.get (update_config ini (settings type p) s) q key
        ≡ last_set (settings type p) q key (ini.get s q key)
  get-settings type p q key s store = get-update_config (settings type p) q key s store
