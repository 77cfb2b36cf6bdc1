-- ===== src/ApplyConfiguration/Agentgateway/BackendHttp.antt =====
-- mycelium/internal/applyconfiguration/v1alpha1/agentgateway/backendhttp.go
use agentic_platform.Prelude.{List, Option, [], none, refl, some, ◌∷◌}
use agentic_platform.ApplyConfiguration.Json.{Fields, Json, object_of, pointer_field}
use agentic_platform.ApplyConfiguration.Foreign.{Foreign}
use agentic_platform.ApplyConfiguration.Builder.{Builder, Configuration, IsSound, ◌▸◌}
use agentic_platform.ApplyConfiguration.Builder.Kinds.{value_builder, value_IsFaithful}

module _ (x : Foreign) where
  pub record BackendHttp : Type 0 where
    pub version : Option x.http_version.Carrier
    pub request_timeout : Option x.duration.Carrier

  abbrev pub backend_http : BackendHttp
  backend_http = record { version = none; request_timeout = none }

  abbrev pub with_version : x.http_version.Carrier → BackendHttp → BackendHttp
  with_version v b = record b { version = some v }

  abbrev pub with_request_timeout : x.duration.Carrier → BackendHttp → BackendHttp
  with_request_timeout v b = record b { request_timeout = some v }

  abbrev pub backend_http_fields : BackendHttp → Fields
  backend_http_fields b =
      ("version", pointer_field x.http_version.encode b.version)
      ∷ ("requestTimeout", pointer_field x.duration.encode b.request_timeout)
      ∷ []

  abbrev pub encode_backend_http : BackendHttp → Json
  encode_backend_http b = object_of (backend_http_fields b)

  abbrev pub builders : List (Builder backend_http_fields)
  builders =
      value_builder backend_http_fields "version" x.http_version.encode with_version
      ∷ value_builder backend_http_fields "requestTimeout" x.duration.encode with_request_timeout
      ∷ []

  abbrev pub configuration : Configuration
  configuration = record {
    Self = BackendHttp;
    fields = backend_http_fields;
    empty = backend_http;
    builders = builders;
  }

  pub configuration-IsSound : IsSound configuration
  configuration-IsSound = record {
    unset = refl;
    faithful =
        value_IsFaithful 0 (λ b. refl) (λ a b. refl)
        ▸ value_IsFaithful 1 (λ b. refl) (λ a b. refl)
        ▸ tt;
  }
