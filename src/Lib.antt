-- ===== src/Lib.antt =====
-- A model of mycelium, the Kubernetes controller of the agentic platform (mycelium/), in Go.
--
-- Mycelium has five kinds of resources, ecosystems, agents, tools, credential providers and
-- authorizers. The API server admits them by the validation that their types declare. The controller
-- watches them through krt collections (istio.io/istio/pkg/kube/krt): a transformation derives the
-- desired namespace of an ecosystem and the desired service account of an agent, and a sink writes
-- what was derived to the API server by server-side apply. What the collections hold is copied by the
-- generated deep copies.
--
-- The files, and the code that they are about:
--   Kubernetes.antt: the types and functions of Kubernetes' packages that the program embeds or
--     calls, as the parameter `Machinery`; `External` holds a foreign type with its deep copy.
--   Memory.antt and Memory/: pointers and slices with the addresses of their storage, `new` and
--     `make` as a counter of addresses, and what a deep copy has to be.
--   Api/Gvk, Status, Agent, Tool, CredentialProvider, Authorizer, Ecosystem: mycelium/api/v1alpha1,
--     a file for each *_types.go and groupversion_info.go. Go's CamelCase is snake_case here
--     (`CredentialProviderName` is `credential_provider_name`, `SandboxPool` is `sandbox_pool`).
--     The child DeepCopy of each has the functions of zz_generated.deepcopy.go: `DeepCopyInto` of a
--     type is `deep_copy_into_…`, `DeepCopy` and `DeepCopyObject` are `deep_copy_…`. The values
--     `…_located` say which fields of a type hold storage. Api/Isolation, Api/Agent/Sharing and
--     Api/Agent/Lists say what the copies share.
--   Admission.antt and Admission/: the +kubebuilder:validation markers of the *_types.go files,
--     `admits_…` for each type, and what they give to the readers of an admitted resource.
--   Controller/WellKnown: mycelium/pkg/wellknown/controller.go.
--   Controller/Register: mycelium/internal/controller/krt/register.go, `init` and `registerKRT`;
--     Register/Resources has the rules of mycelium/config/rbac/role.yaml.
--   Controller/Client: the objects and the calls of `client.Apply`; the server is the parameter
--     `Client`, and `ServerSideApply` states what is documented of a forced server-side apply.
--   Controller/Collection: what a derived krt collection holds.
--   Controller/Sink: the loop over events that ecosystem.go and agent.go share.
--   Controller/Ecosystem and Controller/Agent: ecosystem.go and agent.go; the children Pipeline join
--     transformation, collection, sink and server.
--   Controller/Run: the pipelines over time, as a step relation over changes of resources; the events
--     that krt emits for a change are the parameter `Krt`, and each pipeline fills the interface
--     `Reconciler` in its child Runs.
--   Controller/Keys: the equality of the names of objects.
--   Controller/Start: controller.go, `New` and `Start`.
--   ApplyConfiguration.antt and ApplyConfiguration/: mycelium/internal/applyconfiguration.
--     Agentgateway has a module for each file of v1alpha1/agentgateway: the struct is a record, the
--     constructor has its name in snake_case, `With…` is `with_…`, and `…_fields` are the fields under
--     the names of their tags. Root has the methods that the three root kinds share, Root/Chain chains
--     of their calls, and Root/Sent the members that they are sent as.
--     Maps and Appends are the loops of the methods, Json what encoding/json makes of a struct, and
--     Foreign the types of other packages.
--     Builder is the specification of a method, an edit of the object that is sent: Builder/Kinds has it
--     for each shape of a method, Builder/Chain and Builder/Gathered for chains of calls.
--     Sent lists all configurations, and its children say what a chain of calls on one sends.
--     Kinds is the function `ForKind` of utils.go, and Parser internal/internal.go with
--     `NewTypeConverter` of utils.go; Parser/Concurrent and its child
--     Progress have the steps of goroutines that call it.
--   Main: mycelium/cmd/controller/main.go.
--   Tests: concrete machinery and a concrete server, and the results below at concrete inputs.
--
-- State is passed explicitly: a sink maps the server and the printed lines to new ones, an allocation
-- maps the next free address to the one behind it. A panic and a nil pointer are `none`, an error is
-- an optional value. Every loop is a recursion on its list, so there is no fuel. Integers are copied
-- and compared, and never added: int32 and int64 fields are unbounded integers.
--
-- A deep copy is modelled on values that carry addresses, with no store beside them: a write through
-- a pointer is not modelled, only which addresses two values have in common. The order of events is
-- that of the list that a sink is given, and the theorems hold for any.
--
-- The builders of apply configurations are modelled on values: that a setter of a pointer keeps the
-- address of what it is given, and that an append may write into a shared array, is not. The entries of
-- a Go map come in the order of a list, and the maps themselves are functions, also in the JSON that is
-- made of them. The objects that are sent are compared by the contents of their members; those of the
-- metadata of a root kind stand by their path, so that metadata without a member and no metadata are one.
--
-- Not modelled: the vendored packages (mycelium/vendor), which are parameters where the program calls
-- them; the generated CRDs; the manifests, scripts and examples outside mycelium/; the defaulting of
-- `SandboxPoolConfig.Replicas`; the flag and the logger of main.go.
pub mod Prelude
pub mod Memory
pub mod Kubernetes
pub mod Api
pub mod Admission
pub mod ApplyConfiguration
pub mod Controller
pub mod Main
mod Tests
