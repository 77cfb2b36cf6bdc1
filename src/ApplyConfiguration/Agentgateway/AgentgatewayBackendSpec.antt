-- ===== src/ApplyConfiguration/Agentgateway/AgentgatewayBackendSpec.antt =====
-- mycelium/internal/applyconfiguration/v1alpha1/agentgateway/agentgatewaybackendspec.go
use agentic_platform.Prelude.{List, Option, [], none, refl, some, ◌∷◌}
use agentic_platform.ApplyConfiguration.Json.{Fields, Json, object_of, pointer_field}
use agentic_platform.ApplyConfiguration.Foreign.{Foreign}
use agentic_platform.ApplyConfiguration.Builder.{Builder, Configuration, IsSound, ◌▸◌}
use agentic_platform.ApplyConfiguration.Builder.Kinds.{
  pointer_builder, pointer_IsFaithful, value_builder, value_IsFaithful,
}
use agentic_platform.ApplyConfiguration.Agentgateway.AiBackend.{AiBackend, encode_ai_backend}
use agentic_platform.ApplyConfiguration.Agentgateway.AwsBackend.{AwsBackend, encode_aws_backend}
use agentic_platform.ApplyConfiguration.Agentgateway.BackendFull.{BackendFull, encode_backend_full}
use agentic_platform.ApplyConfiguration.Agentgateway.McpBackend.{McpBackend, encode_mcp_backend}
use agentic_platform.ApplyConfiguration.Agentgateway.StaticBackend.{
  StaticBackend, encode_static_backend,
}

module _ (x : Foreign) where
  pub record AgentgatewayBackendSpec : Type 0 where
    pub static : Option (StaticBackend x)
    pub ai : Option (AiBackend x)
    pub mcp : Option (McpBackend x)
    pub dynamic_forward_proxy : Option x.dynamic_forward_proxy_backend.Carrier
    pub aws : Option (AwsBackend x)
    pub policies : Option (BackendFull x)

  abbrev pub agentgateway_backend_spec : AgentgatewayBackendSpec
  agentgateway_backend_spec = record {
    static = none;
    ai = none;
    mcp = none;
    dynamic_forward_proxy = none;
    aws = none;
    policies = none;
  }

  abbrev pub with_static :
      Option (StaticBackend x) → AgentgatewayBackendSpec → AgentgatewayBackendSpec
  with_static v b = record b { static = v }

  abbrev pub with_ai : Option (AiBackend x) → AgentgatewayBackendSpec → AgentgatewayBackendSpec
  with_ai v b = record b { ai = v }

  abbrev pub with_mcp : Option (McpBackend x) → AgentgatewayBackendSpec → AgentgatewayBackendSpec
  with_mcp v b = record b { mcp = v }

  abbrev pub with_dynamic_forward_proxy :
      x.dynamic_forward_proxy_backend.Carrier → AgentgatewayBackendSpec → AgentgatewayBackendSpec
  with_dynamic_forward_proxy v b = record b { dynamic_forward_proxy = some v }

  abbrev pub with_aws : Option (AwsBackend x) → AgentgatewayBackendSpec → AgentgatewayBackendSpec
  with_aws v b = record b { aws = v }

  abbrev pub with_policies :
      Option (BackendFull x) → AgentgatewayBackendSpec → AgentgatewayBackendSpec
  with_policies v b = record b { policies = v }

  abbrev pub agentgateway_backend_spec_fields : AgentgatewayBackendSpec → Fields
  agentgateway_backend_spec_fields b =
      ("static", pointer_field (encode_static_backend x) b.static)
      ∷ ("ai", pointer_field (encode_ai_backend x) b.ai)
      ∷ ("mcp", pointer_field (encode_mcp_backend x) b.mcp)
      ∷ (
        "dynamicForwardProxy",
        pointer_field x.dynamic_forward_proxy_backend.encode b.dynamic_forward_proxy,
      )
      ∷ ("aws", pointer_field (encode_aws_backend x) b.aws)
      ∷ ("policies", pointer_field (encode_backend_full x) b.policies)
      ∷ []

  abbrev pub encode_agentgateway_backend_spec : AgentgatewayBackendSpec → Json
  encode_agentgateway_backend_spec b = object_of (agentgateway_backend_spec_fields b)

  abbrev pub builders : List (Builder agentgateway_backend_spec_fields)
  builders =
      pointer_builder agentgateway_backend_spec_fields "static" (encode_static_backend x)
        with_static
      ∷ pointer_builder agentgateway_backend_spec_fields "ai" (encode_ai_backend x) with_ai
      ∷ pointer_builder agentgateway_backend_spec_fields "mcp" (encode_mcp_backend x) with_mcp
      ∷ value_builder agentgateway_backend_spec_fields "dynamicForwardProxy"
          x.dynamic_forward_proxy_backend.encode with_dynamic_forward_proxy
      ∷ pointer_builder agentgateway_backend_spec_fields "aws" (encode_aws_backend x) with_aws
      ∷ pointer_builder agentgateway_backend_spec_fields "policies" (encode_backend_full x)
          with_policies
      ∷ []

  abbrev pub configuration : Configuration
  configuration = record {
    Self = AgentgatewayBackendSpec;
    fields = agentgateway_backend_spec_fields;
    empty = agentgateway_backend_spec;
    builders = builders;
  }

  pub configuration-IsSound : IsSound configuration
  configuration-IsSound = record {
    unset = refl;
    faithful =
        pointer_IsFaithful 0 (λ b. refl) (λ a b. refl)
        ▸ pointer_IsFaithful 1 (λ b. refl) (λ a b. refl)
        ▸ pointer_IsFaithful 2 (λ b. refl) (λ a b. refl)
        ▸ value_IsFaithful 3 (λ b. refl) (λ a b. refl)
        ▸ pointer_IsFaithful 4 (λ b. refl) (λ a b. refl)
        ▸ pointer_IsFaithful 5 (λ b. refl) (λ a b. refl)
        ▸ tt;
  }
