-- ===== src/ApplyConfiguration/Agentgateway/BackendSimple.antt =====
-- mycelium/internal/applyconfiguration/v1alpha1/agentgateway/backendsimple.go
use agentic_platform.Prelude.{List, Option, [], none, refl, ◌∷◌}
use agentic_platform.ApplyConfiguration.Json.{Fields, Json, object_of, pointer_field}
use agentic_platform.ApplyConfiguration.Foreign.{Foreign}
use agentic_platform.ApplyConfiguration.Builder.{Builder, Configuration, IsSound, ◌▸◌}
use agentic_platform.ApplyConfiguration.Builder.Kinds.{pointer_builder, pointer_IsFaithful}
use agentic_platform.ApplyConfiguration.Agentgateway.BackendAuth.{BackendAuth, encode_backend_auth}
use agentic_platform.ApplyConfiguration.Agentgateway.BackendHttp.{BackendHttp, encode_backend_http}
use agentic_platform.ApplyConfiguration.Agentgateway.BackendTcp.{BackendTcp, encode_backend_tcp}
use agentic_platform.ApplyConfiguration.Agentgateway.BackendTls.{BackendTls, encode_backend_tls}
use agentic_platform.ApplyConfiguration.Agentgateway.BackendTunnel.{
  BackendTunnel, encode_backend_tunnel,
}
use agentic_platform.ApplyConfiguration.Agentgateway.Health.{Health, encode_health}
use agentic_platform.ApplyConfiguration.Agentgateway.Transformation.{
  Transformation, encode_transformation,
}

module _ (x : Foreign) where
  pub record BackendSimple : Type 0 where
    pub tcp : Option (BackendTcp x)
    pub tls : Option (BackendTls x)
    pub http : Option (BackendHttp x)
    pub tunnel : Option (BackendTunnel x)
    pub transformation : Option (Transformation x)
    pub auth : Option (BackendAuth x)
    pub health : Option (Health x)

  abbrev pub backend_simple : BackendSimple
  backend_simple = record {
    tcp = none;
    tls = none;
    http = none;
    tunnel = none;
    transformation = none;
    auth = none;
    health = none;
  }

  abbrev pub with_tcp : Option (BackendTcp x) → BackendSimple → BackendSimple
  with_tcp v b = record b { tcp = v }

  abbrev pub with_tls : Option (BackendTls x) → BackendSimple → BackendSimple
  with_tls v b = record b { tls = v }

  abbrev pub with_http : Option (BackendHttp x) → BackendSimple → BackendSimple
  with_http v b = record b { http = v }

  abbrev pub with_tunnel : Option (BackendTunnel x) → BackendSimple → BackendSimple
  with_tunnel v b = record b { tunnel = v }

  abbrev pub with_transformation : Option (Transformation x) → BackendSimple → BackendSimple
  with_transformation v b = record b { transformation = v }

  abbrev pub with_auth : Option (BackendAuth x) → BackendSimple → BackendSimple
  with_auth v b = record b { auth = v }

  abbrev pub with_health : Option (Health x) → BackendSimple → BackendSimple
  with_health v b = record b { health = v }

  abbrev pub backend_simple_fields : BackendSimple → Fields
  backend_simple_fields b =
      ("tcp", pointer_field (encode_backend_tcp x) b.tcp)
      ∷ ("tls", pointer_field (encode_backend_tls x) b.tls)
      ∷ ("http", pointer_field (encode_backend_http x) b.http)
      ∷ ("tunnel", pointer_field (encode_backend_tunnel x) b.tunnel)
      ∷ ("transformation", pointer_field (encode_transformation x) b.transformation)
      ∷ ("auth", pointer_field (encode_backend_auth x) b.auth)
      ∷ ("health", pointer_field (encode_health x) b.health)
      ∷ []

  abbrev pub encode_backend_simple : BackendSimple → Json
  encode_backend_simple b = object_of (backend_simple_fields b)

  abbrev pub builders : List (Builder backend_simple_fields)
  builders =
      pointer_builder backend_simple_fields "tcp" (encode_backend_tcp x) with_tcp
      ∷ pointer_builder backend_simple_fields "tls" (encode_backend_tls x) with_tls
      ∷ pointer_builder backend_simple_fields "http" (encode_backend_http x) with_http
      ∷ pointer_builder backend_simple_fields "tunnel" (encode_backend_tunnel x) with_tunnel
      ∷ pointer_builder backend_simple_fields "transformation" (encode_transformation x)
          with_transformation
      ∷ pointer_builder backend_simple_fields "auth" (encode_backend_auth x) with_auth
      ∷ pointer_builder backend_simple_fields "health" (encode_health x) with_health
      ∷ []

  abbrev pub configuration : Configuration
  configuration = record {
    Self = BackendSimple;
    fields = backend_simple_fields;
    empty = backend_simple;
    builders = builders;
  }

  pub configuration-IsSound : IsSound configuration
  configuration-IsSound = record {
    unset = refl;
    faithful =
        pointer_IsFaithful 0 (λ b. refl) (λ a b. refl)
        ▸ pointer_IsFaithful 1 (λ b. refl) (λ a b. refl)
        ▸ pointer_IsFaithful 2 (λ b. refl) (λ a b. refl)
        ▸ pointer_IsFaithful 3 (λ b. refl) (λ a b. refl)
        ▸ pointer_IsFaithful 4 (λ b. refl) (λ a b. refl)
        ▸ pointer_IsFaithful 5 (λ b. refl) (λ a b. refl)
        ▸ pointer_IsFaithful 6 (λ b. refl) (λ a b. refl)
        ▸ tt;
  }
