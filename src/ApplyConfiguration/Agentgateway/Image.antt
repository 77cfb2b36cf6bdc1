-- ===== src/ApplyConfiguration/Agentgateway/Image.antt =====
-- mycelium/internal/applyconfiguration/v1alpha1/agentgateway/image.go
use agentic_platform.Prelude.{List, Option, String, [], none, refl, some, ◌∷◌}
use agentic_platform.ApplyConfiguration.Json.{Fields, Json, object_of, pointer_field, text}
use agentic_platform.ApplyConfiguration.Foreign.{Foreign}
use agentic_platform.ApplyConfiguration.Builder.{Builder, Configuration, IsSound, ◌▸◌}
use agentic_platform.ApplyConfiguration.Builder.Kinds.{value_builder, value_IsFaithful}

module _ (x : Foreign) where
  pub record Image : Type 0 where
    pub registry : Option String
    pub repository : Option String
    pub tag : Option String
    pub digest : Option String
    pub pull_policy : Option x.pull_policy.Carrier

  abbrev pub image : Image
  image = record {
    registry = none;
    repository = none;
    tag = none;
    digest = none;
    pull_policy = none;
  }

  abbrev pub with_registry : String → Image → Image
  with_registry v b = record b { registry = some v }

  abbrev pub with_repository : String → Image → Image
  with_repository v b = record b { repository = some v }

  abbrev pub with_tag : String → Image → Image
  with_tag v b = record b { tag = some v }

  abbrev pub with_digest : String → Image → Image
  with_digest v b = record b { digest = some v }

  abbrev pub with_pull_policy : x.pull_policy.Carrier → Image → Image
  with_pull_policy v b = record b { pull_policy = some v }

  abbrev pub image_fields : Image → Fields
  image_fields b =
      ("registry", pointer_field text b.registry)
      ∷ ("repository", pointer_field text b.repository)
      ∷ ("tag", pointer_field text b.tag)
      ∷ ("digest", pointer_field text b.digest)
      ∷ ("pullPolicy", pointer_field x.pull_policy.encode b.pull_policy)
      ∷ []

  abbrev pub encode_image : Image → Json
  encode_image b = object_of (image_fields b)

  abbrev pub builders : List (Builder image_fields)
  builders =
      value_builder image_fields "registry" text with_registry
      ∷ value_builder image_fields "repository" text with_repository
      ∷ value_builder image_fields "tag" text with_tag
      ∷ value_builder image_fields "digest" text with_digest
      ∷ value_builder image_fields "pullPolicy" x.pull_policy.encode with_pull_policy
      ∷ []

  abbrev pub configuration : Configuration
  configuration = record { Self = Image; fields = image_fields; empty = image; builders = builders }

  pub configuration-IsSound : IsSound configuration
  configuration-IsSound = record {
    unset = refl;
    faithful =
        value_IsFaithful 0 (λ b. refl) (λ a b. refl)
        ▸ value_IsFaithful 1 (λ b. refl) (λ a b. refl)
        ▸ value_IsFaithful 2 (λ b. refl) (λ a b. refl)
        ▸ value_IsFaithful 3 (λ b. refl) (λ a b. refl)
        ▸ value_IsFaithful 4 (λ b. refl) (λ a b. refl)
        ▸ tt;
  }
