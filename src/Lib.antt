-- ===== src/Lib.antt =====
-- The Terraform provider for uapi, the REST interface of an OpenWrt router.
--
-- The provider is a plugin of Terraform: the framework calls Create, Read, Update, Delete and
-- ImportState of a resource, and ValidateConfig and ModifyPlan where it has them; these build request
-- bodies from attributes, call the client, and read the router's answer back into the state.
--
-- The parts, by the file that models them:
--   Client (internal/client/client.go): errors and their classes in Client/Error, the requests, the
--     diagnostics and the environment of a call in Client/World, the retry budget and retryWait in
--     Client/Retry, New, decodeError and the request of a round of `do` in Client/Message, its loop in
--     Client/Request, and GetObject, GetList, the writes and Delete in Client/Objects.
--   Provider/Values, Provider/Delta, Provider/Import, Provider/WriteError
--     (internal/provider/helpers.go): reading and putting attributes, mergeDelta, resolveImportID and
--     importByID, writeErr. Provider/Print has fmt's %v and reflect.DeepEqual on the values that
--     occur.
--   Provider/FieldScope (internal/provider/field_scope.go): the fields that some values of a
--     discriminator do not take, in ValidateConfig, ModifyPlan and Update.
--   Provider/Configure (internal/provider/provider.go): Configure and firstNonEmpty.
--   Provider/Crud and Provider/Singleton: the handlers that internal/gen writes into each resource
--     file. They differ in names alone, so they stand here once, over a record of what a resource
--     gives: collection, label, body, read and, where it has a scope, when it sends a PATCH.
--   Resources/* (internal/provider/*_resource.go): the model, body and read of each generated
--     resource, which fill that record; Package, CronJob, PackageFeed, AuthorizedKey and
--     SystemPassword are written by hand in the source, Resources/Token is
--     internal/provider/token_ephemeral.go, and Resources/PeerWarning
--     is internal/provider/wireguard_peer_warning.go.
--   Provider/DataSource: the Read of a data source, over a record of its path, its error texts and its
--     reading. The data source beside a generated resource reads into the model of the resource and is
--     `look_up` in its module; DataSources/* (internal/provider/*_data_source.go and
--     runtime_data_sources.go) are those with a model of their own, and the parsers of runtime blocks.
--   Upgrade (internal/provider/state_upgrades.go): the state upgraders.
--   Gen (internal/gen): the generator. Gen/Spec is what it reads of the OpenAPI document and the
--     descriptor of a resource, Gen/Names the helpers on names, Gen/Field buildResource,
--     Gen/Scope applyScope, Gen/Document main's loop over the descriptors, and Gen/Render the
--     statements that it writes into body() and read(). A statement is modelled by what it does
--     to the attributes of a model by name. `fail` ends a run with a value of Gen/Made. The
--     scope of Gen/Scope is the one that Provider/FieldScope applies. Gen/Attributes is resAttr
--     and dsAttr, over Provider/Schema (internal/provider/schema_helpers.go, ds_helpers.go).
--     Gen/Written makes the fields of two resource files from internal/gen/openapi.json and the
--     descriptors, and takes the files as what is written for them.
--   Any is Go's `any` and `map[string]any`; Framework is the types of terraform-plugin-framework that
--     the code handles; Base holds what the modules share; Tests runs the model.
--
-- A handler is an action: from an environment and a world to a result and the next world. The world
-- holds the requests sent, the waits and the diagnostics. The environment answers each attempt from
-- the whole history of requests, so it stands for any router, network, clock and context. A handler
-- gives what becomes of the state: kept, removed or stored.
--
-- Code that is not in the repository is a field of Platform: encoding/json, net/url, the refusal
-- of a request by net/http, float formatting, and list conversions of the framework. Lawful names
-- what a proof relies on. What the framework answers about a plan, a configuration and a schema is
-- an argument of the functions that use it.
--
-- Numbers: durations are nanoseconds, and the multiplication of a Retry-After wraps around as int64.
-- A time is a natural number. Floats are bit patterns that only Platform reads.
-- The request loop runs on fuel, maxAttempts + 1 rounds, since no round past attempt 50 is followed by
-- another. GetList runs on its own bound of 1000 pages.
--
-- Not modelled: the schemas of the resources (declarations for the framework) but for the attributes
-- of a wireless device, a schema's nested block, the log lines, the Go text that the generator
-- prints and the files that it writes, its tables of descriptors and descriptions but for the two
-- that Gen/Written takes, which are arguments, and main.go, which starts the plugin server.
pub mod Base
pub mod Any
pub mod Framework
pub mod Platform
pub mod Client
pub mod Provider
pub mod Resources
pub mod DataSources
pub mod Upgrade
pub mod Gen
pub mod Tests
