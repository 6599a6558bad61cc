-- ===== src/Tests/Devices.antt =====
-- The meter and the messages of the MQTT manager at concrete inputs.
use mathlib.Core.Logic.{◌↔◌}
use open_ocpp_simu.Common.{
  ◌+◌, ◌-◌, ◌*◌, ◌/◌, ◌^◌, ◌≡◌, ◌⊎◌, refl, Bool, true, false, none, some, [], ◌∷◌, arith, codes,
  Text, text_eq, ℤ, pos, negsuc, if◌then◌else◌,
}
use open_ocpp_simu.Connector.{dc}
use open_ocpp_simu.Float.{Hundredths, hundredths}
use open_ocpp_simu.Meter.{Meter, update, update_period}
use open_ocpp_simu.Meter.Energy.{period_energy, updates, energy-updates, energy-update_negative}
use open_ocpp_simu.Mqtt.{Mqtt}
use open_ocpp_simu.Mqtt.Messages.{Value, Document, receive_command}
use open_ocpp_simu.Mqtt.Reception.{receive_command_lem}
use open_ocpp_simu.Tests.Data.{meter, mqtt}
use open_ocpp_simu.Tests.Signed.{signed}

energy-updates_example :
    (t : Meter Hundredths) × (updates 7200 meter ≡ some t)
    × (t.energy ≡ 0 + 7200 * period_energy (2300 ∷ []))
unfolding open_ocpp_simu.Meter.new_powers open_ocpp_simu.Meter.products
energy-updates_example =
    energy-updates 7200 meter (some 230000 ∷ []) (2300 ∷ []) refl refl refl (omega arith)

-- A DC meter whose consumption is -3600 W.
abbrev negative : Meter ℤ
negative = record {
  phases_count = 1;
  voltages = pos 0 ∷ [];
  consumptions = negsuc 3599 ∷ [];
  powers = pos 0 ∷ [];
  energy = 0;
  power_factor = none;
  current_out_type = dc;
}

energy-update_negative_example :
    update {F = ℤ} ⦃f = signed⦄ negative
    ≡ some (record negative {
      powers = negsuc 3599 ∷ [];
      energy = 0 + (2 ^ 32 - 3600 * update_period / 3600);
    })
energy-update_negative_example =
    energy-update_negative {F = ℤ} ⦃f = signed⦄ negative (negsuc 3599) (pos 0) 3599 refl refl refl
      refl refl (omega arith) (omega arith)

abbrev pub text_value : Text → Value Hundredths
text_value t = record { float = none; bool = none; string = some t }

abbrev pub document : Text → Text → Document Hundredths
document name text = record {
  is_object = true;
  member = λ n. if text_eq n name then some (text_value text) else none;
}

receive_command_lem_example :
    let doc = document (codes "type") (codes "close") in
    (n : Mqtt Hundredths) × (published : Bool) × (receive_command doc mqtt ≡ some (n, published))
    × (n.connectors ≡ mqtt.connectors)
    × ((n.ended ≡ true) ↔ ((false ≡ true) ⊎ (codes "close" ≡ codes "close")))
    × ((published ≡ true) ↔ (codes "close" ≡ codes "ocpp_config"))
unfolding text_eq
receive_command_lem_example =
    receive_command_lem (document (codes "type") (codes "close")) mqtt (text_value (codes "close"))
      (codes "close") refl refl refl
