-- ===== src/ApplyConfiguration/Agentgateway/Retry.antt =====
-- mycelium/internal/applyconfiguration/v1alpha1/agentgateway/retry.go
use agentic_platform.Prelude.{List, []}
use agentic_platform.ApplyConfiguration.Json.{Fields, Json, object_of}
use agentic_platform.ApplyConfiguration.Foreign.{Foreign}
use agentic_platform.ApplyConfiguration.Builder.{Builder, Configuration, IsSound}

module _ (x : Foreign) where
  pub record Retry : Type 0 where
    pub http_route_retry : x.http_route_retry.Carrier

  abbrev pub retry : Retry
  retry = record { http_route_retry = x.http_route_retry.zero }

  abbrev pub retry_fields : Retry → Fields
  retry_fields b = x.http_route_retry.fields b.http_route_retry

  abbrev pub encode_retry : Retry → Json
  encode_retry b = object_of (retry_fields b)

  abbrev pub builders : List (Builder retry_fields)
  builders = []

  abbrev pub configuration : Configuration
  configuration = record { Self = Retry; fields = retry_fields; empty = retry; builders = builders }

  pub configuration-IsSound : IsSound configuration
  configuration-IsSound = record { unset = x.http_route_retry.zero-unset; faithful = tt }
