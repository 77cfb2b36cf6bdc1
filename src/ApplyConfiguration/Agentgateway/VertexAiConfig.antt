-- ===== src/ApplyConfiguration/Agentgateway/VertexAiConfig.antt =====
-- mycelium/internal/applyconfiguration/v1alpha1/agentgateway/vertexaiconfig.go
use agentic_platform.Prelude.{List, Option, String, [], none, refl, some, ◌∷◌}
use agentic_platform.ApplyConfiguration.Json.{Fields, Json, object_of, pointer_field, text}
use agentic_platform.ApplyConfiguration.Foreign.{Foreign}
use agentic_platform.ApplyConfiguration.Builder.{Builder, Configuration, IsSound, ◌▸◌}
use agentic_platform.ApplyConfiguration.Builder.Kinds.{value_builder, value_IsFaithful}

module _ (x : Foreign) where
  pub record VertexAiConfig : Type 0 where
    pub model : Option String
    pub project_id : Option String
    pub region : Option String

  abbrev pub vertex_ai_config : VertexAiConfig
  vertex_ai_config = record { model = none; project_id = none; region = none }

  abbrev pub with_model : String → VertexAiConfig → VertexAiConfig
  with_model v b = record b { model = some v }

  abbrev pub with_project_id : String → VertexAiConfig → VertexAiConfig
  with_project_id v b = record b { project_id = some v }

  abbrev pub with_region : String → VertexAiConfig → VertexAiConfig
  with_region v b = record b { region = some v }

  abbrev pub vertex_ai_config_fields : VertexAiConfig → Fields
  vertex_ai_config_fields b =
      ("model", pointer_field text b.model)
      ∷ ("projectId", pointer_field text b.project_id)
      ∷ ("region", pointer_field text b.region)
      ∷ []

  abbrev pub encode_vertex_ai_config : VertexAiConfig → Json
  encode_vertex_ai_config b = object_of (vertex_ai_config_fields b)

  abbrev pub builders : List (Builder vertex_ai_config_fields)
  builders =
      value_builder vertex_ai_config_fields "model" text with_model
      ∷ value_builder vertex_ai_config_fields "projectId" text with_project_id
      ∷ value_builder vertex_ai_config_fields "region" text with_region
      ∷ []

  abbrev pub configuration : Configuration
  configuration = record {
    Self = VertexAiConfig;
    fields = vertex_ai_config_fields;
    empty = vertex_ai_config;
    builders = builders;
  }

  pub configuration-IsSound : IsSound configuration
  configuration-IsSound = record {
    unset = refl;
    faithful =
        value_IsFaithful 0 (λ b. refl) (λ a b. refl)
        ▸ value_IsFaithful 1 (λ b. refl) (λ a b. refl)
        ▸ value_IsFaithful 2 (λ b. refl) (λ a b. refl)
        ▸ tt;
  }
