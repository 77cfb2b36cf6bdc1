-- ===== src/Api/Gvk.antt =====
-- groupversion_info.go
use agentic_platform.Prelude.{String}
use agentic_platform.Kubernetes.{GroupVersion, GroupVersionKind}

abbrev pub group_version : GroupVersion
group_version = record { group = "mycelium.io"; version = "v1alpha1" }

-- `GroupVersion.WithKind`
abbrev pub with_kind : String → GroupVersionKind
with_kind kind = record { group_version = group_version; kind = kind }

abbrev pub mycelium_ecosystem_gvk : GroupVersionKind
mycelium_ecosystem_gvk = with_kind "MyceliumEcosystem"

abbrev pub mycelium_authorizer_gvk : GroupVersionKind
mycelium_authorizer_gvk = with_kind "MyceliumAuthorizer"

abbrev pub mycelium_tool_gvk : GroupVersionKind
mycelium_tool_gvk = with_kind "MyceliumTool"

abbrev pub mycelium_agent_gvk : GroupVersionKind
mycelium_agent_gvk = with_kind "MyceliumAgent"

abbrev pub mycelium_credential_provider_gvk : GroupVersionKind
mycelium_credential_provider_gvk = with_kind "MyceliumCredentialProvider"
