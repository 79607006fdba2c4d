-- ===== src/Gen/Written/Statements.antt =====
-- Resource files against the generator: from the schemas of the document and a descriptor to the
-- body(), the read() and the schema that stand in the file.
use terraform_provider_uapi.Base.{◌≡◌, refl, String, Bool, true, List, All, if◌then◌else◌}
use terraform_provider_uapi.Any.{Object}
use terraform_provider_uapi.Platform.{Platform}
use terraform_provider_uapi.Framework.{Attr}
use terraform_provider_uapi.Provider.Values.{Body, Read, empty_body, put_str}
use terraform_provider_uapi.Gen.Made.{Made, made, ◌>>=◌}
use terraform_provider_uapi.Gen.Spec.{Field, SpecProp, Descriptor}
use terraform_provider_uapi.Gen.Field.{build_resource}
use terraform_provider_uapi.Gen.Render.{Values, body_stmt, read_stmt, body_stmts, read_stmts}
use terraform_provider_uapi.Gen.Attributes.{resource_attributes}
use terraform_provider_uapi.Gen.Written.Field.{labelled}
use terraform_provider_uapi.Resources.WirelessDevice as WirelessDeviceFile
use terraform_provider_uapi.Resources.WirelessDevice.Schema as WirelessDeviceSchema
use terraform_provider_uapi.Gen.Written.WirelessDevice
use terraform_provider_uapi.Gen.Written.WirelessDevice.Document as DeviceDocument
use terraform_provider_uapi.Resources.NetworkInterface as NetworkInterfaceFile
use terraform_provider_uapi.Gen.Written.NetworkInterface
use terraform_provider_uapi.Gen.Written.NetworkInterface.Document as InterfaceDocument

-- A body() is the statements for the fields behind the id of a create, and a read() gives each field
-- and the diagnostics what the statements give.
abbrev pub IsWritten :
    {M : Type 0}
    → Platform
    → List Field
    → (M → Values)
    → (M → Attr String)
    → (Platform → M → Bool → Body)
    → (Platform → Object → M → Read M)
    → M
    → Bool
    → Object
    → Type 0
IsWritten p fields values id body fill m create obj =
    (body p m create
      ≡ body_stmts p create fields (values m)
          (if create then put_str "id" (id m) empty_body else empty_body))
    × (All
          (λ (f : Field).
            values (fill p obj m).0 f.name ≡ (read_stmts p fields obj (values m)).0 f.name)
          fields
        × ((fill p obj m).1 ≡ (read_stmts p fields obj (values m)).1))

-- The fields of the resource that the generator makes of a descriptor and the document.
abbrev pub fields_of :
    List (String × String)
    → Descriptor
    → (writable : List (String × SpecProp)) → (required_names : List String)
    → (props : List (String × SpecProp)) → Made (List Field)
fields_of common d writable required_names props =
    build_resource common d writable required_names props >>= λ r. made r.fields

-- From the schemas of a wireless device in the document and its descriptor, the generator makes
-- fields for which the file's body() and read() are the statements that it writes, for every model,
-- answer and create flag, and the file's schema has the attributes that it writes. From those of a
-- network interface it makes, with any table of descriptions, fields for which that file's body()
-- and read() are the statements that it writes.
pub written_lem :
    (p : Platform) (device : WirelessDeviceFile.Model) (network : NetworkInterfaceFile.Model)
    (common descs : List (String × String)) (create : Bool) (obj : Object)
    → ((fs : List Field) × (fields_of DeviceDocument.common DeviceDocument.descriptor
            DeviceDocument.request DeviceDocument.required_names DeviceDocument.response
          ≡ made fs)
        × IsWritten p fs WirelessDevice.values
            (λ m. m.id)
            WirelessDeviceFile.body
            WirelessDeviceFile.fill
            device
            create
            obj
        × (resource_attributes true fs ≡ made WirelessDeviceSchema.attributes))
      × ((fs : List Field) × (fields_of common
              (InterfaceDocument.descriptor descs)
              InterfaceDocument.request
              InterfaceDocument.required_names
              InterfaceDocument.response
            ≡ made fs)
          × IsWritten p fs NetworkInterface.values
              (λ m. m.id)
              NetworkInterfaceFile.body
              NetworkInterfaceFile.fill
              network
              create
              obj)
unfolding build_resource body_stmts body_stmt read_stmts read_stmt
written_lem p device network common descs create obj = (
  (
    labelled DeviceDocument.common DeviceDocument.descriptor WirelessDevice.fields,
    rw WirelessDevice.built refl,
    (WirelessDevice.body_lem p device create, WirelessDevice.fill_lem p device obj),
    WirelessDevice.schema_lem,
  ),
  (
    labelled common (InterfaceDocument.descriptor descs) NetworkInterface.fields,
    rw (NetworkInterface.built common descs) refl,
    (NetworkInterface.body_lem p network create, NetworkInterface.fill_lem p network obj),
  ),
)
