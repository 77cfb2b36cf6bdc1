-- ===== src/ApplyConfiguration/Agentgateway/Cors.antt =====
-- mycelium/internal/applyconfiguration/v1alpha1/agentgateway/cors.go
use agentic_platform.Prelude.{List, []}
use agentic_platform.ApplyConfiguration.Json.{Fields, Json, object_of}
use agentic_platform.ApplyConfiguration.Foreign.{Foreign}
use agentic_platform.ApplyConfiguration.Builder.{Builder, Configuration, IsSound}

module _ (x : Foreign) where
  pub record Cors : Type 0 where
    pub httpcors_filter : x.httpcors_filter.Carrier

  abbrev pub cors : Cors
  cors = record { httpcors_filter = x.httpcors_filter.zero }

  abbrev pub cors_fields : Cors → Fields
  cors_fields b = x.httpcors_filter.fields b.httpcors_filter

  abbrev pub encode_cors : Cors → Json
  encode_cors b = object_of (cors_fields b)

  abbrev pub builders : List (Builder cors_fields)
  builders = []

  abbrev pub configuration : Configuration
  configuration = record { Self = Cors; fields = cors_fields; empty = cors; builders = builders }

  pub configuration-IsSound : IsSound configuration
  configuration-IsSound = record { unset = x.httpcors_filter.zero-unset; faithful = tt }
