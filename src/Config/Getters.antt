-- ===== src/Config/Getters.antt =====
-- src/chargepoint/ocpp/OcppConfig.h, ChargePointConfig.h and src/chargepoint/mqtt/MqttConfig.h: the
-- getters and the setter. A method has the name of its key, but for the case of its first letter.
use open_ocpp_simu.Common.{ℕ, ◌%◌, ◌^◌, Bool, [], ◌∷◌, Text, codes}
use open_ocpp_simu.Config.Requests.{Section, IniFile, ocpp_params}
use open_ocpp_simu.Startup.Decimal.{to_string}
use open_ocpp_simu.Launcher.Maps.{Map}

-- What a getter makes of the text of its key.
pub data Conversion : Type 0 where
  as_bool as_string as_float as_uint as_seconds as_milliseconds : Conversion

-- The core profile.
unfoldable pub core_getters : Map Conversion
core_getters =
    (codes "AllowOfflineTxForUnknownId", as_bool)
    ∷ (codes "AuthorizationCacheEnabled", as_bool)
    ∷ (codes "AuthorizeRemoteTxRequests", as_bool)
    ∷ (codes "BlinkRepeat", as_uint)
    ∷ (codes "ClockAlignedDataInterval", as_seconds)
    ∷ (codes "ConnectionTimeOut", as_seconds)
    ∷ (codes "ConnectorPhaseRotation", as_string)
    ∷ (codes "ConnectorPhaseRotationMaxLength", as_uint)
    ∷ (codes "GetConfigurationMaxKeys", as_uint)
    ∷ (codes "HeartbeatInterval", as_seconds)
    ∷ (codes "LightIntensity", as_uint)
    ∷ (codes "LocalAuthorizeOffline", as_bool)
    ∷ (codes "LocalPreAuthorize", as_bool)
    ∷ (codes "MaxEnergyOnInvalidId", as_uint)
    ∷ (codes "MeterValuesAlignedData", as_string)
    ∷ (codes "MeterValuesAlignedDataMaxLength", as_uint)
    ∷ (codes "MeterValuesSampledData", as_string)
    ∷ (codes "MeterValuesSampledDataMaxLength", as_uint)
    ∷ (codes "MeterValueSampleInterval", as_seconds)
    ∷ (codes "MinimumStatusDuration", as_seconds)
    ∷ (codes "NumberOfConnectors", as_uint)
    ∷ (codes "ResetRetries", as_uint)
    ∷ (codes "StopTransactionOnEVSideDisconnect", as_bool)
    ∷ (codes "StopTransactionOnInvalidId", as_bool)
    ∷ (codes "StopTxnAlignedData", as_string)
    ∷ (codes "StopTxnAlignedDataMaxLength", as_uint)
    ∷ (codes "StopTxnSampledData", as_string)
    ∷ (codes "StopTxnSampledDataMaxLength", as_uint)
    ∷ (codes "SupportedFeatureProfiles", as_string)
    ∷ (codes "SupportedFeatureProfilesMaxLength", as_uint)
    ∷ (codes "TransactionMessageAttempts", as_uint)
    ∷ (codes "TransactionMessageRetryInterval", as_seconds)
    ∷ (codes "UnlockConnectorOnEVSideDisconnect", as_bool)
    ∷ (codes "WebSocketPingInterval", as_seconds)
    ∷ []

-- The profiles for the local list, the reservations and smart charging.
unfoldable pub list_getters : Map Conversion
list_getters =
    (codes "LocalAuthListEnabled", as_bool)
    ∷ (codes "LocalAuthListMaxLength", as_uint)
    ∷ (codes "SendLocalListMaxLength", as_uint)
    ∷ (codes "ReserveConnectorZeroSupported", as_bool)
    ∷ (codes "ChargeProfileMaxStackLevel", as_uint)
    ∷ (codes "ChargingScheduleAllowedChargingRateUnit", as_string)
    ∷ (codes "ChargingScheduleMaxPeriods", as_uint)
    ∷ (codes "ConnectorSwitch3to1PhaseSupported", as_bool)
    ∷ (codes "MaxChargingProfilesInstalled", as_uint)
    ∷ []

-- The security extensions.
unfoldable pub security_getters : Map Conversion
security_getters =
    (codes "AdditionalRootCertificateCheck", as_bool)
    ∷ (codes "AuthorizationKey", as_string)
    ∷ (codes "CertificateSignedMaxChainSize", as_uint)
    ∷ (codes "CertificateStoreMaxLength", as_uint)
    ∷ (codes "CpoName", as_string)
    ∷ (codes "SecurityProfile", as_uint)
    ∷ (codes "SupportedFileTransferProtocols", as_string)
    ∷ []

-- The extensions for ISO 15118.
unfoldable pub iso15118_getters : Map Conversion
iso15118_getters =
    (codes "CentralContractValidationAllowed", as_bool)
    ∷ (codes "CertSigningWaitMinimum", as_seconds)
    ∷ (codes "CertSigningRepeatTimes", as_uint)
    ∷ (codes "ContractValidationOffline", as_bool)
    ∷ (codes "Iso15118PnCEnabled", as_bool)
    ∷ []

-- Paths and communication.
unfoldable pub connection_getters : Map Conversion
connection_getters =
    (codes "DatabasePath", as_string)
    ∷ (codes "JsonSchemasPath", as_string)
    ∷ (codes "ConnexionUrl", as_string)
    ∷ (codes "ChargePointIdentifier", as_string)
    ∷ (codes "ConnectionTimeout", as_milliseconds)
    ∷ (codes "RetryInterval", as_milliseconds)
    ∷ (codes "CallRequestTimeout", as_milliseconds)
    ∷ (codes "Tlsv12CipherList", as_string)
    ∷ (codes "Tlsv13CipherList", as_string)
    ∷ (codes "TlsServerCertificateCa", as_string)
    ∷ (codes "TlsClientCertificate", as_string)
    ∷ (codes "TlsClientCertificatePrivateKey", as_string)
    ∷ (codes "TlsClientCertificatePrivateKeyPassphrase", as_string)
    ∷ (codes "TlsAllowSelfSignedCertificates", as_bool)
    ∷ (codes "TlsAllowExpiredCertificates", as_bool)
    ∷ (codes "TlsAcceptNonTrustedCertificates", as_bool)
    ∷ (codes "TlsSkipServerNameCheck", as_bool)
    ∷ []

-- Identification, charging, authentication and logs. `firmwareVersion` is a constant.
unfoldable pub identification_getters : Map Conversion
identification_getters =
    (codes "ChargeBoxSerialNumber", as_string)
    ∷ (codes "ChargePointModel", as_string)
    ∷ (codes "ChargePointSerialNumber", as_string)
    ∷ (codes "ChargePointVendor", as_string)
    ∷ (codes "Iccid", as_string)
    ∷ (codes "Imsi", as_string)
    ∷ (codes "MeterSerialNumber", as_string)
    ∷ (codes "MeterType", as_string)
    ∷ (codes "OperatingVoltage", as_float)
    ∷ (codes "PowerFactor", as_float)
    ∷ (codes "AuthentCacheMaxEntriesCount", as_uint)
    ∷ (codes "LogMaxEntriesCount", as_uint)
    ∷ []

-- Security.
unfoldable pub certificate_getters : Map Conversion
certificate_getters =
    (codes "InternalCertificateManagementEnabled", as_bool)
    ∷ (codes "SecurityEventNotificationEnabled", as_bool)
    ∷ (codes "SecurityLogMaxEntriesCount", as_uint)
    ∷ (codes "ClientCertificateRequestHashType", as_string)
    ∷ (codes "ClientCertificateRequestKeyType", as_string)
    ∷ (codes "ClientCertificateRequestRsaKeyLength", as_uint)
    ∷ (codes "ClientCertificateRequestEcCurve", as_string)
    ∷ (codes "ClientCertificateRequestSubjectCountry", as_string)
    ∷ (codes "ClientCertificateRequestSubjectState", as_string)
    ∷ (codes "ClientCertificateRequestSubjectLocation", as_string)
    ∷ (codes "ClientCertificateRequestSubjectOrganizationUnit", as_string)
    ∷ (codes "ClientCertificateRequestSubjectEmail", as_string)
    ∷ []

-- MQTT.
unfoldable pub mqtt_getters : Map Conversion
mqtt_getters = (codes "BrokerUrl", as_string) ∷ []

-- `toBool`, `toFloat` and `toUInt` of the library.
pub record Conversions (F : Type 0) : Type 0 where
  pub to_bool : Text → Bool
  pub to_float : Text → F
  pub to_uint : Text → ℕ

pub data Value (F : Type 0) : Type 0 where
  truth : Bool → Value F
  string : Text → Value F
  float : F → Value F
  uint seconds milliseconds : ℕ → Value F

module _ {F : Type 0} (conv : Conversions F) where
  abbrev pub convert : Conversion → Text → Value F
  convert as_bool t = truth (conv.to_bool t)
  convert as_string t = string t
  convert as_float t = float (conv.to_float t)
  convert as_uint t = uint (conv.to_uint t)
  convert as_seconds t = seconds (conv.to_uint t)
  convert as_milliseconds t = milliseconds (conv.to_uint t)

  -- A getter of the class for a section.
  unfoldable pub read_value : {S : Type 0} → IniFile S → Section → Text → Conversion → S → Value F
  read_value ini section key c s = convert c (ini.get s section key)

-- The setter of the heartbeat interval, a number of seconds that is not negative.
unfoldable pub heartbeat_interval : {S : Type 0} → IniFile S → ℕ → S → S
heartbeat_interval ini interval s =
    ini.set s ocpp_params (codes "HeartbeatInterval") (to_string (interval % 2 ^ 32))
