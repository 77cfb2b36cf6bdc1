-- ===== src/ApplyConfiguration/Agentgateway/ExtAuth.antt =====
-- mycelium/internal/applyconfiguration/v1alpha1/agentgateway/extauth.go
use agentic_platform.Prelude.{List, Option, [], none, refl, some, ◌∷◌}
use agentic_platform.ApplyConfiguration.Json.{Fields, Json, object_of, pointer_field}
use agentic_platform.ApplyConfiguration.Foreign.{Foreign}
use agentic_platform.ApplyConfiguration.Builder.{Builder, Configuration, IsSound, ◌▸◌}
use agentic_platform.ApplyConfiguration.Builder.Kinds.{
  pointer_builder, pointer_IsFaithful, value_builder, value_IsFaithful,
}
use agentic_platform.ApplyConfiguration.Agentgateway.AgentExtAuthGrpc.{
  AgentExtAuthGrpc, encode_agent_ext_auth_grpc,
}
use agentic_platform.ApplyConfiguration.Agentgateway.AgentExtAuthHttp.{
  AgentExtAuthHttp, encode_agent_ext_auth_http,
}
use agentic_platform.ApplyConfiguration.Agentgateway.ExtAuthBody.{ExtAuthBody, encode_ext_auth_body}

module _ (x : Foreign) where
  pub record ExtAuth : Type 0 where
    pub backend_ref : Option x.backend_object_reference.Carrier
    pub failure_mode : Option x.failure_mode.Carrier
    pub grpc : Option (AgentExtAuthGrpc x)
    pub http : Option (AgentExtAuthHttp x)
    pub forward_body : Option (ExtAuthBody x)

  abbrev pub ext_auth : ExtAuth
  ext_auth = record {
    backend_ref = none;
    failure_mode = none;
    grpc = none;
    http = none;
    forward_body = none;
  }

  abbrev pub with_backend_ref : x.backend_object_reference.Carrier → ExtAuth → ExtAuth
  with_backend_ref v b = record b { backend_ref = some v }

  abbrev pub with_failure_mode : x.failure_mode.Carrier → ExtAuth → ExtAuth
  with_failure_mode v b = record b { failure_mode = some v }

  abbrev pub with_grpc : Option (AgentExtAuthGrpc x) → ExtAuth → ExtAuth
  with_grpc v b = record b { grpc = v }

  abbrev pub with_http : Option (AgentExtAuthHttp x) → ExtAuth → ExtAuth
  with_http v b = record b { http = v }

  abbrev pub with_forward_body : Option (ExtAuthBody x) → ExtAuth → ExtAuth
  with_forward_body v b = record b { forward_body = v }

  abbrev pub ext_auth_fields : ExtAuth → Fields
  ext_auth_fields b =
      ("backendRef", pointer_field x.backend_object_reference.encode b.backend_ref)
      ∷ ("failureMode", pointer_field x.failure_mode.encode b.failure_mode)
      ∷ ("grpc", pointer_field (encode_agent_ext_auth_grpc x) b.grpc)
      ∷ ("http", pointer_field (encode_agent_ext_auth_http x) b.http)
      ∷ ("forwardBody", pointer_field (encode_ext_auth_body x) b.forward_body)
      ∷ []

  abbrev pub encode_ext_auth : ExtAuth → Json
  encode_ext_auth b = object_of (ext_auth_fields b)

  abbrev pub builders : List (Builder ext_auth_fields)
  builders =
      value_builder ext_auth_fields "backendRef" x.backend_object_reference.encode with_backend_ref
      ∷ value_builder ext_auth_fields "failureMode" x.failure_mode.encode with_failure_mode
      ∷ pointer_builder ext_auth_fields "grpc" (encode_agent_ext_auth_grpc x) with_grpc
      ∷ pointer_builder ext_auth_fields "http" (encode_agent_ext_auth_http x) with_http
      ∷ pointer_builder ext_auth_fields "forwardBody" (encode_ext_auth_body x) with_forward_body
      ∷ []

  abbrev pub configuration : Configuration
  configuration = record {
    Self = ExtAuth;
    fields = ext_auth_fields;
    empty = ext_auth;
    builders = builders;
  }

  pub configuration-IsSound : IsSound configuration
  configuration-IsSound = record {
    unset = refl;
    faithful =
        value_IsFaithful 0 (λ b. refl) (λ a b. refl)
        ▸ value_IsFaithful 1 (λ b. refl) (λ a b. refl)
        ▸ pointer_IsFaithful 2 (λ b. refl) (λ a b. refl)
        ▸ pointer_IsFaithful 3 (λ b. refl) (λ a b. refl)
        ▸ pointer_IsFaithful 4 (λ b. refl) (λ a b. refl)
        ▸ tt;
  }
