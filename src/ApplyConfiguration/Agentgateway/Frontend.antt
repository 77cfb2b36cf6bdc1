-- ===== src/ApplyConfiguration/Agentgateway/Frontend.antt =====
-- mycelium/internal/applyconfiguration/v1alpha1/agentgateway/frontend.go
use agentic_platform.Prelude.{List, Option, [], none, refl, some, ◌∷◌}
use agentic_platform.ApplyConfiguration.Json.{Fields, Json, object_of, pointer_field}
use agentic_platform.ApplyConfiguration.Foreign.{Foreign}
use agentic_platform.ApplyConfiguration.Builder.{Builder, Configuration, IsSound, ◌▸◌}
use agentic_platform.ApplyConfiguration.Builder.Kinds.{
  pointer_builder, pointer_IsFaithful, value_builder, value_IsFaithful,
}
use agentic_platform.ApplyConfiguration.Agentgateway.AccessLog.{AccessLog, encode_access_log}
use agentic_platform.ApplyConfiguration.Agentgateway.FrontendHttp.{
  FrontendHttp, encode_frontend_http,
}
use agentic_platform.ApplyConfiguration.Agentgateway.FrontendTcp.{FrontendTcp, encode_frontend_tcp}
use agentic_platform.ApplyConfiguration.Agentgateway.FrontendTls.{FrontendTls, encode_frontend_tls}
use agentic_platform.ApplyConfiguration.Agentgateway.Tracing.{Tracing, encode_tracing}

module _ (x : Foreign) where
  pub record Frontend : Type 0 where
    pub tcp : Option (FrontendTcp x)
    pub network_authorization : Option x.authorization.Carrier
    pub tls : Option (FrontendTls x)
    pub http : Option (FrontendHttp x)
    pub access_log : Option (AccessLog x)
    pub tracing : Option (Tracing x)

  abbrev pub frontend : Frontend
  frontend = record {
    tcp = none;
    network_authorization = none;
    tls = none;
    http = none;
    access_log = none;
    tracing = none;
  }

  abbrev pub with_tcp : Option (FrontendTcp x) → Frontend → Frontend
  with_tcp v b = record b { tcp = v }

  abbrev pub with_network_authorization : x.authorization.Carrier → Frontend → Frontend
  with_network_authorization v b = record b { network_authorization = some v }

  abbrev pub with_tls : Option (FrontendTls x) → Frontend → Frontend
  with_tls v b = record b { tls = v }

  abbrev pub with_http : Option (FrontendHttp x) → Frontend → Frontend
  with_http v b = record b { http = v }

  abbrev pub with_access_log : Option (AccessLog x) → Frontend → Frontend
  with_access_log v b = record b { access_log = v }

  abbrev pub with_tracing : Option (Tracing x) → Frontend → Frontend
  with_tracing v b = record b { tracing = v }

  abbrev pub frontend_fields : Frontend → Fields
  frontend_fields b =
      ("tcp", pointer_field (encode_frontend_tcp x) b.tcp)
      ∷ ("networkAuthorization", pointer_field x.authorization.encode b.network_authorization)
      ∷ ("tls", pointer_field (encode_frontend_tls x) b.tls)
      ∷ ("http", pointer_field (encode_frontend_http x) b.http)
      ∷ ("accessLog", pointer_field (encode_access_log x) b.access_log)
      ∷ ("tracing", pointer_field (encode_tracing x) b.tracing)
      ∷ []

  abbrev pub encode_frontend : Frontend → Json
  encode_frontend b = object_of (frontend_fields b)

  abbrev pub builders : List (Builder frontend_fields)
  builders =
      pointer_builder frontend_fields "tcp" (encode_frontend_tcp x) with_tcp
      ∷ value_builder frontend_fields "networkAuthorization" x.authorization.encode
          with_network_authorization
      ∷ pointer_builder frontend_fields "tls" (encode_frontend_tls x) with_tls
      ∷ pointer_builder frontend_fields "http" (encode_frontend_http x) with_http
      ∷ pointer_builder frontend_fields "accessLog" (encode_access_log x) with_access_log
      ∷ pointer_builder frontend_fields "tracing" (encode_tracing x) with_tracing
      ∷ []

  abbrev pub configuration : Configuration
  configuration = record {
    Self = Frontend;
    fields = frontend_fields;
    empty = frontend;
    builders = builders;
  }

  pub configuration-IsSound : IsSound configuration
  configuration-IsSound = record {
    unset = refl;
    faithful =
        pointer_IsFaithful 0 (λ b. refl) (λ a b. refl)
        ▸ value_IsFaithful 1 (λ b. refl) (λ a b. refl)
        ▸ pointer_IsFaithful 2 (λ b. refl) (λ a b. refl)
        ▸ pointer_IsFaithful 3 (λ b. refl) (λ a b. refl)
        ▸ pointer_IsFaithful 4 (λ b. refl) (λ a b. refl)
        ▸ pointer_IsFaithful 5 (λ b. refl) (λ a b. refl)
        ▸ tt;
  }
