-- ===== src/ApplyConfiguration/Agentgateway/GoogleModelArmor.antt =====
-- mycelium/internal/applyconfiguration/v1alpha1/agentgateway/googlemodelarmor.go
use agentic_platform.Prelude.{List, Option, String, [], none, refl, some, ◌∷◌}
use agentic_platform.ApplyConfiguration.Json.{Fields, Json, object_of, pointer_field, text}
use agentic_platform.ApplyConfiguration.Foreign.{Foreign}
use agentic_platform.ApplyConfiguration.Builder.{Builder, Configuration, IsSound, ◌▸◌}
use agentic_platform.ApplyConfiguration.Builder.Kinds.{
  pointer_builder, pointer_IsFaithful, value_builder, value_IsFaithful,
}
use agentic_platform.ApplyConfiguration.Agentgateway.BackendSimple.{
  BackendSimple, encode_backend_simple,
}

module _ (x : Foreign) where
  pub record GoogleModelArmor : Type 0 where
    pub template_id : Option String
    pub project_id : Option String
    pub location : Option String
    pub policies : Option (BackendSimple x)

  abbrev pub google_model_armor : GoogleModelArmor
  google_model_armor = record {
    template_id = none;
    project_id = none;
    location = none;
    policies = none;
  }

  abbrev pub with_template_id : String → GoogleModelArmor → GoogleModelArmor
  with_template_id v b = record b { template_id = some v }

  abbrev pub with_project_id : String → GoogleModelArmor → GoogleModelArmor
  with_project_id v b = record b { project_id = some v }

  abbrev pub with_location : String → GoogleModelArmor → GoogleModelArmor
  with_location v b = record b { location = some v }

  abbrev pub with_policies : Option (BackendSimple x) → GoogleModelArmor → GoogleModelArmor
  with_policies v b = record b { policies = v }

  abbrev pub google_model_armor_fields : GoogleModelArmor → Fields
  google_model_armor_fields b =
      ("templateId", pointer_field text b.template_id)
      ∷ ("projectId", pointer_field text b.project_id)
      ∷ ("location", pointer_field text b.location)
      ∷ ("policies", pointer_field (encode_backend_simple x) b.policies)
      ∷ []

  abbrev pub encode_google_model_armor : GoogleModelArmor → Json
  encode_google_model_armor b = object_of (google_model_armor_fields b)

  abbrev pub builders : List (Builder google_model_armor_fields)
  builders =
      value_builder google_model_armor_fields "templateId" text with_template_id
      ∷ value_builder google_model_armor_fields "projectId" text with_project_id
      ∷ value_builder google_model_armor_fields "location" text with_location
      ∷ pointer_builder google_model_armor_fields "policies" (encode_backend_simple x) with_policies
      ∷ []

  abbrev pub configuration : Configuration
  configuration = record {
    Self = GoogleModelArmor;
    fields = google_model_armor_fields;
    empty = google_model_armor;
    builders = builders;
  }

  pub configuration-IsSound : IsSound configuration
  configuration-IsSound = record {
    unset = refl;
    faithful =
        value_IsFaithful 0 (λ b. refl) (λ a b. refl)
        ▸ value_IsFaithful 1 (λ b. refl) (λ a b. refl)
        ▸ value_IsFaithful 2 (λ b. refl) (λ a b. refl)
        ▸ pointer_IsFaithful 3 (λ b. refl) (λ a b. refl)
        ▸ tt;
  }
