-- ===== src/Tests/Written.antt =====
-- The generated files of two resources at work.
use terraform_provider_uapi.Gen.Made.{made}
use terraform_provider_uapi.Gen.Attributes.{resource_attributes}
use terraform_provider_uapi.Resources.WirelessDevice.Schema as WirelessDeviceSchema
use terraform_provider_uapi.Base.{
  ◌⊗◌, List, inl, ◌≡◌, refl, pos, true, none, some, [], ◌∷◌, All, inr, arith,
}
use terraform_provider_uapi.Any.{
  str, arr, bool, float64, nil, cons, Object, end, entry, insert, lookup,
}
use terraform_provider_uapi.Framework.{known, null as no_value}
use terraform_provider_uapi.Provider.Values.{put_bool, put_str, put_list, put_int64}
use terraform_provider_uapi.Gen.Spec.{Field}
use terraform_provider_uapi.Gen.Render.Fits.{expected}
use terraform_provider_uapi.Resources.WirelessDevice as WirelessDeviceFile
use terraform_provider_uapi.Resources.NetworkInterface as NetworkInterfaceFile
use terraform_provider_uapi.Gen.Written.WirelessDevice
use terraform_provider_uapi.Gen.Written.WirelessDevice.Document as DeviceDocument
use terraform_provider_uapi.Gen.Written.NetworkInterface.Document as InterfaceDocument
use terraform_provider_uapi.Gen.Written.NetworkInterface
use terraform_provider_uapi.Gen.Written.Consistent.{fill-body}
use terraform_provider_uapi.Gen.Written.Statements.{IsWritten, fields_of, written_lem}
use terraform_provider_uapi.Tests.Demo.{demo, demo-Lawful}

abbrev lan_answer : Object
lan_answer = entry "id" (str "lan") (
    entry "proto" (str "static") (
      entry "device" (str "eth0") (
        entry "mtu" (float64 1400) (
          entry "dns" (arr (cons (str "9.9.9.9") nil)) (entry "has_private_key" (bool true) end)))))

abbrev radio_model : WirelessDeviceFile.Model
radio_model = record {
  id = no_value;
  managed = no_value;
  etag = no_value;
  band = no_value;
  cell_density = no_value;
  channel = no_value;
  country = no_value;
  disabled = no_value;
  htmode = no_value;
  legacy_rates = no_value;
  macaddr = no_value;
  path = no_value;
  phy = no_value;
  radio = no_value;
  txpower = no_value;
  type = no_value;
}

written_lem_example :
    ((fs : List Field) × (fields_of DeviceDocument.common DeviceDocument.descriptor
          DeviceDocument.request DeviceDocument.required_names DeviceDocument.response
        ≡ made fs)
      × IsWritten demo fs WirelessDevice.values
          (λ m. m.id)
          WirelessDeviceFile.body
          WirelessDeviceFile.fill
          radio_model
          true
          lan_answer
      × (resource_attributes true fs ≡ made WirelessDeviceSchema.attributes))
    × ((fs : List Field) × (fields_of []
            (InterfaceDocument.descriptor [])
            InterfaceDocument.request
            InterfaceDocument.required_names
            InterfaceDocument.response
          ≡ made fs)
        × IsWritten demo fs NetworkInterface.values
            (λ m. m.id)
            NetworkInterfaceFile.body
            NetworkInterfaceFile.fill
            NetworkInterfaceFile.empty
            true
            lan_answer)
written_lem_example = written_lem demo radio_model NetworkInterfaceFile.empty [] [] true lan_answer

abbrev planned_lan : NetworkInterfaceFile.Model
planned_lan = record NetworkInterfaceFile.empty {
  id = known "lan";
  proto = known "static";
  device = known "eth0";
  mtu = known (pos 1400);
  dns = known (known "9.9.9.9" ∷ []);
}

fill-body_example :
    All
      (λ (f : Field).
        NetworkInterface.values (NetworkInterfaceFile.fill demo lan_answer planned_lan).0 f.name
        ≡ expected demo f.kind f.name lan_answer (NetworkInterface.values planned_lan f.name))
      NetworkInterface.fields
    × ((NetworkInterfaceFile.fill demo lan_answer planned_lan).1 ≡ [])
unfolding NetworkInterfaceFile.body put_str put_bool put_int64 put_list insert lookup
fill-body_example =
    fill-body demo planned_lan true lan_answer demo-Lawful
      (inl refl
        ⊗ (none, refl)
        ⊗ (none, refl)
        ⊗ (none, refl)
        ⊗ (none, refl)
        ⊗ (none, refl)
        ⊗ (none, refl)
        ⊗ (some "eth0", refl)
        ⊗ (none, refl)
        ⊗ inr ("9.9.9.9" ∷ [], refl)
        ⊗ (none, refl)
        ⊗ tt
        ⊗ (none, refl)
        ⊗ (none, refl)
        ⊗ inl refl
        ⊗ (none, refl)
        ⊗ inl refl
        ⊗ (none, refl)
        ⊗ (none, refl)
        ⊗ (none, refl)
        ⊗ inl refl
        ⊗ (none, refl)
        ⊗ (none, refl)
        ⊗ refl
        ⊗ inl refl
        ⊗ (none, refl)
        ⊗ (none, refl)
        ⊗ (some (pos 1400), refl)
        ⊗ (none, refl)
        ⊗ (none, refl)
        ⊗ (none, refl)
        ⊗ tt
        ⊗ (some "static", refl)
        ⊗ (none, refl)
        ⊗ (none, refl)
        ⊗ (none, refl)
        ⊗ tt)
      ((λ h. refl)
        ⊗ (λ h. refl)
        ⊗ (λ h. refl)
        ⊗ (λ h. refl)
        ⊗ (λ h. refl)
        ⊗ (λ h. refl)
        ⊗ (λ h. refl)
        ⊗ (λ h. (str "eth0", refl, refl))
        ⊗ (λ h. refl)
        ⊗ (λ h. (arr (cons (str "9.9.9.9") nil), refl, refl))
        ⊗ (λ h. refl)
        ⊗ (λ h. absurd (ground arith))
        ⊗ (λ h. refl)
        ⊗ (λ h. refl)
        ⊗ (λ h. refl)
        ⊗ (λ h. refl)
        ⊗ (λ h. refl)
        ⊗ (λ h. refl)
        ⊗ (λ h. refl)
        ⊗ (λ h. refl)
        ⊗ (λ h. refl)
        ⊗ (λ h. refl)
        ⊗ (λ h. refl)
        ⊗ (λ h. absurd (ground arith))
        ⊗ (λ h. refl)
        ⊗ (λ h. refl)
        ⊗ (λ h. refl)
        ⊗ (λ h. (float64 1400, refl, (1400, refl, refl)))
        ⊗ (λ h. refl)
        ⊗ (λ h. refl)
        ⊗ (λ h. refl)
        ⊗ (λ h. absurd (ground arith))
        ⊗ (λ h. (str "static", refl, refl))
        ⊗ (λ h. refl)
        ⊗ (λ h. refl)
        ⊗ (λ h. refl)
        ⊗ tt)
