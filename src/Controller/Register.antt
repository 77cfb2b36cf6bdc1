-- ===== src/Controller/Register.antt =====
-- register.go, and the `init` functions of mycelium/api/v1alpha1 that fill the scheme.
pub mod Resources
use agentic_platform.Prelude.{String, List, [], ◌∷◌, ◌++◌}
use agentic_platform.Kubernetes.{GroupVersionKind, GroupVersionResource}
use agentic_platform.Api.Gvk.{
  mycelium_ecosystem_gvk, mycelium_authorizer_gvk, mycelium_tool_gvk, mycelium_agent_gvk,
  mycelium_credential_provider_gvk,
}

-- The Go types whose zero values are registered.
pub data ApiType : Type 0 where
  ecosystem authorizer tool agent credential_provider : ApiType

-- The name of the Go type, from which the scheme (sigs.k8s.io/controller-runtime/pkg/scheme) takes
-- the kind.
abbrev pub go_type_name : ApiType → String
go_type_name ecosystem = "MyceliumEcosystem"
go_type_name authorizer = "MyceliumAuthorizer"
go_type_name tool = "MyceliumTool"
go_type_name agent = "MyceliumAgent"
go_type_name credential_provider = "MyceliumCredentialProvider"

-- `krtReg`, with its methods GetGVK, GetGVR and Object.
pub record KrtReg : Type 0 where
  pub gvk : GroupVersionKind
  pub gvr : GroupVersionResource
  pub obj : ApiType

-- `guess` is the plural that meta.UnsafeGuessKindToResource returns. The registry of
-- istio.io/istio/pkg/config/schema/kubetypes is the list of what was registered, in order.
module _ (guess : GroupVersionKind → GroupVersionResource) where
  unfoldable pub register_krt : GroupVersionKind → ApiType → List KrtReg → List KrtReg
  register_krt gvk zero registry =
      registry ++ record { gvk = gvk; gvr = guess gvk; obj = zero } ∷ []

  -- The function `init`.
  unfoldable pub init : List KrtReg → List KrtReg
  init registry = register_krt mycelium_credential_provider_gvk credential_provider (
      register_krt mycelium_agent_gvk agent (
        register_krt mycelium_tool_gvk tool (
          register_krt mycelium_authorizer_gvk authorizer
            (register_krt mycelium_ecosystem_gvk ecosystem registry))))
