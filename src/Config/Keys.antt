-- ===== src/Config/Keys.antt =====
-- The table of the configuration keys with their attributes.
use open_ocpp_simu.Common.{
  Bool, true, false, ◌||◌, Option, none, some, List, [], ◌∷◌, Text, codes, text_eq, if◌then◌else◌,
}

-- The bits of an attribute word.
pub record Attributes : Type 0 where
  pub is_read : Bool
  pub is_write : Bool
  pub is_reboot : Bool
  pub is_ocpp : Bool

-- `|` of two attribute words
infixl 5 ◌∪◌
abbrev ◌∪◌ : Attributes → Attributes → Attributes
a ∪ b = record {
  is_read = a.is_read || b.is_read;
  is_write = a.is_write || b.is_write;
  is_reboot = a.is_reboot || b.is_reboot;
  is_ocpp = a.is_ocpp || b.is_ocpp;
}

abbrev read : Attributes
read = record { is_read = true; is_write = false; is_reboot = false; is_ocpp = false }

abbrev write : Attributes
write = record { is_read = false; is_write = true; is_reboot = false; is_ocpp = false }

abbrev read_write : Attributes
read_write = read ∪ write

abbrev reboot : Attributes
reboot = record { is_read = false; is_write = false; is_reboot = true; is_ocpp = false }

abbrev ocpp : Attributes
ocpp = record { is_read = false; is_write = false; is_reboot = false; is_ocpp = true }

-- A `std::map`: the keys once each, in the order of their bytes.
unfoldable pub configuration_values : List (Text × Attributes)
configuration_values =
    (codes "AdditionalRootCertificateCheck", (read ∪ ocpp))
    ∷ (codes "AllowOfflineTxForUnknownId", (read_write ∪ ocpp))
    ∷ (codes "AuthorizationCacheEnabled", (read_write ∪ ocpp))
    ∷ (codes "AuthorizationKey", (write ∪ ocpp))
    ∷ (codes "AuthorizeRemoteTxRequests", (read_write ∪ ocpp))
    ∷ (codes "BlinkRepeat", (read_write ∪ ocpp))
    ∷ (codes "CertificateSignedMaxChainSize", (read ∪ ocpp))
    ∷ (codes "CertificateStoreMaxLength", (read ∪ ocpp))
    ∷ (codes "ChargePointIdentifier", (read_write ∪ reboot))
    ∷ (codes "ChargeProfileMaxStackLevel", (read ∪ ocpp))
    ∷ (codes "ChargingScheduleAllowedChargingRateUnit", (read ∪ ocpp))
    ∷ (codes "ChargingScheduleMaxPeriods", (read ∪ ocpp))
    ∷ (codes "ClockAlignedDataInterval", (read_write ∪ ocpp))
    ∷ (codes "ConnectionTimeOut", (read_write ∪ ocpp))
    ∷ (codes "ConnectorPhaseRotation", (read_write ∪ ocpp))
    ∷ (codes "ConnectorPhaseRotationMaxLength", (read ∪ ocpp))
    ∷ (codes "ConnectorSwitch3to1PhaseSupported", (read ∪ ocpp))
    ∷ (codes "ConnexionUrl", (read_write ∪ reboot))
    ∷ (codes "CpoName", (read ∪ write ∪ ocpp))
    ∷ (codes "FirmwareVersion", read)
    ∷ (codes "GetConfigurationMaxKeys", (read ∪ ocpp))
    ∷ (codes "HeartbeatInterval", (read_write ∪ ocpp))
    ∷ (codes "LightIntensity", (read_write ∪ ocpp))
    ∷ (codes "LocalAuthListEnabled", (read_write ∪ ocpp))
    ∷ (codes "LocalAuthListMaxLength", (read ∪ ocpp))
    ∷ (codes "LocalAuthorizeOffline", (read_write ∪ ocpp))
    ∷ (codes "LocalPreAuthorize", (read_write ∪ ocpp))
    ∷ (codes "MaxChargingProfilesInstalled", (read ∪ ocpp))
    ∷ (codes "MaxEnergyOnInvalidId", (read_write ∪ ocpp))
    ∷ (codes "MeterValueSampleInterval", (read_write ∪ ocpp))
    ∷ (codes "MeterValuesAlignedData", (read_write ∪ ocpp))
    ∷ (codes "MeterValuesAlignedDataMaxLength", (read ∪ ocpp))
    ∷ (codes "MeterValuesSampledData", (read_write ∪ ocpp))
    ∷ (codes "MeterValuesSampledDataMaxLength", (read ∪ ocpp))
    ∷ (codes "MinimumStatusDuration", (read_write ∪ ocpp))
    ∷ (codes "NumberOfConnectors", (read ∪ ocpp))
    ∷ (codes "ReserveConnectorZeroSupported", (read ∪ ocpp))
    ∷ (codes "ResetRetries", (read_write ∪ ocpp))
    ∷ (codes "SecurityProfile", (read_write ∪ ocpp))
    ∷ (codes "SendLocalListMaxLength", (read ∪ ocpp))
    ∷ (codes "StopTransactionOnEVSideDisconnect", (read_write ∪ ocpp))
    ∷ (codes "StopTransactionOnInvalidId", (read_write ∪ ocpp))
    ∷ (codes "StopTxnAlignedData", (read_write ∪ ocpp))
    ∷ (codes "StopTxnAlignedDataMaxLength", (read ∪ ocpp))
    ∷ (codes "StopTxnSampledData", (read_write ∪ ocpp))
    ∷ (codes "StopTxnSampledDataMaxLength", (read ∪ ocpp))
    ∷ (codes "SupportedFeatureProfiles", (read ∪ ocpp))
    ∷ (codes "SupportedFeatureProfilesMaxLength", (read ∪ ocpp))
    ∷ (codes "SupportedFileTransferProtocols", (read ∪ ocpp))
    ∷ (codes "TransactionMessageAttempts", (read_write ∪ ocpp))
    ∷ (codes "TransactionMessageRetryInterval", (read_write ∪ ocpp))
    ∷ (codes "UnlockConnectorOnEVSideDisconnect", (read_write ∪ ocpp))
    ∷ (codes "WebSocketPingInterval", (read_write ∪ reboot ∪ ocpp))
    ∷ []

-- `CONFIGURATION_VALUES.find(key)`
unfoldable pub find : List (Text × Attributes) → Text → Option Attributes
find [] key = none
find ((k, a) ∷ rest) key = if text_eq k key then some a else find rest key
