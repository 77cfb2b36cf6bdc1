-- ===== src/ApplyConfiguration/Agentgateway/BackendWithAi.antt =====
-- mycelium/internal/applyconfiguration/v1alpha1/agentgateway/backendwithai.go
use agentic_platform.Prelude.{List, Option, [], none, refl, ◌++◌, ◌∷◌}
use agentic_platform.ApplyConfiguration.Json.{Fields, Json, object_of, pointer_field}
use agentic_platform.ApplyConfiguration.Foreign.{Foreign}
use agentic_platform.ApplyConfiguration.Builder.{Builder, Configuration, IsSound, ◌▸◌}
use agentic_platform.ApplyConfiguration.Builder.Kinds.{pointer_builder, pointer_IsFaithful}
use agentic_platform.ApplyConfiguration.Agentgateway.BackendAi.{BackendAi, encode_backend_ai}
use agentic_platform.ApplyConfiguration.Agentgateway.BackendAuth.{BackendAuth, encode_backend_auth}
use agentic_platform.ApplyConfiguration.Agentgateway.BackendHttp.{BackendHttp, encode_backend_http}
use agentic_platform.ApplyConfiguration.Agentgateway.BackendSimple.{
  BackendSimple, backend_simple, backend_simple_fields,
}
use agentic_platform.ApplyConfiguration.Agentgateway.BackendTcp.{BackendTcp, encode_backend_tcp}
use agentic_platform.ApplyConfiguration.Agentgateway.BackendTls.{BackendTls, encode_backend_tls}
use agentic_platform.ApplyConfiguration.Agentgateway.BackendTunnel.{
  BackendTunnel, encode_backend_tunnel,
}
use agentic_platform.ApplyConfiguration.Agentgateway.Health.{Health, encode_health}
use agentic_platform.ApplyConfiguration.Agentgateway.Transformation.{
  Transformation, encode_transformation,
}

module _ (x : Foreign) where
  pub record BackendWithAi : Type 0 where
    pub backend_simple : BackendSimple x
    pub ai : Option (BackendAi x)

  abbrev pub backend_with_ai : BackendWithAi
  backend_with_ai = record { backend_simple = backend_simple x; ai = none }

  abbrev pub with_tcp : Option (BackendTcp x) → BackendWithAi → BackendWithAi
  with_tcp v b = record b { backend_simple = record (b.backend_simple) { tcp = v } }

  abbrev pub with_tls : Option (BackendTls x) → BackendWithAi → BackendWithAi
  with_tls v b = record b { backend_simple = record (b.backend_simple) { tls = v } }

  abbrev pub with_http : Option (BackendHttp x) → BackendWithAi → BackendWithAi
  with_http v b = record b { backend_simple = record (b.backend_simple) { http = v } }

  abbrev pub with_tunnel : Option (BackendTunnel x) → BackendWithAi → BackendWithAi
  with_tunnel v b = record b { backend_simple = record (b.backend_simple) { tunnel = v } }

  abbrev pub with_transformation : Option (Transformation x) → BackendWithAi → BackendWithAi
  with_transformation v b = record b {
    backend_simple = record (b.backend_simple) { transformation = v };
  }

  abbrev pub with_auth : Option (BackendAuth x) → BackendWithAi → BackendWithAi
  with_auth v b = record b { backend_simple = record (b.backend_simple) { auth = v } }

  abbrev pub with_health : Option (Health x) → BackendWithAi → BackendWithAi
  with_health v b = record b { backend_simple = record (b.backend_simple) { health = v } }

  abbrev pub with_ai : Option (BackendAi x) → BackendWithAi → BackendWithAi
  with_ai v b = record b { ai = v }

  abbrev pub backend_with_ai_fields : BackendWithAi → Fields
  backend_with_ai_fields b =
      backend_simple_fields x b.backend_simple
      ++ ("ai", pointer_field (encode_backend_ai x) b.ai) ∷ []

  abbrev pub encode_backend_with_ai : BackendWithAi → Json
  encode_backend_with_ai b = object_of (backend_with_ai_fields b)

  abbrev pub builders : List (Builder backend_with_ai_fields)
  builders =
      pointer_builder backend_with_ai_fields "tcp" (encode_backend_tcp x) with_tcp
      ∷ pointer_builder backend_with_ai_fields "tls" (encode_backend_tls x) with_tls
      ∷ pointer_builder backend_with_ai_fields "http" (encode_backend_http x) with_http
      ∷ pointer_builder backend_with_ai_fields "tunnel" (encode_backend_tunnel x) with_tunnel
      ∷ pointer_builder backend_with_ai_fields "transformation" (encode_transformation x)
          with_transformation
      ∷ pointer_builder backend_with_ai_fields "auth" (encode_backend_auth x) with_auth
      ∷ pointer_builder backend_with_ai_fields "health" (encode_health x) with_health
      ∷ pointer_builder backend_with_ai_fields "ai" (encode_backend_ai x) with_ai
      ∷ []

  abbrev pub configuration : Configuration
  configuration = record {
    Self = BackendWithAi;
    fields = backend_with_ai_fields;
    empty = backend_with_ai;
    builders = builders;
  }

  pub configuration-IsSound : IsSound configuration
  configuration-IsSound = record {
    unset = refl;
    faithful =
        pointer_IsFaithful 0 (λ b. refl) (λ a b. refl)
        ▸ pointer_IsFaithful 1 (λ b. refl) (λ a b. refl)
        ▸ pointer_IsFaithful 2 (λ b. refl) (λ a b. refl)
        ▸ pointer_IsFaithful 3 (λ b. refl) (λ a b. refl)
        ▸ pointer_IsFaithful 4 (λ b. refl) (λ a b. refl)
        ▸ pointer_IsFaithful 5 (λ b. refl) (λ a b. refl)
        ▸ pointer_IsFaithful 6 (λ b. refl) (λ a b. refl)
        ▸ pointer_IsFaithful 7 (λ b. refl) (λ a b. refl)
        ▸ tt;
  }
