-- ===== src/ApplyConfiguration/Agentgateway/ExtProc.antt =====
-- mycelium/internal/applyconfiguration/v1alpha1/agentgateway/extproc.go
use agentic_platform.Prelude.{List, Option, [], none, refl, some, ◌∷◌}
use agentic_platform.ApplyConfiguration.Json.{Fields, Json, object_of, pointer_field}
use agentic_platform.ApplyConfiguration.Foreign.{Foreign}
use agentic_platform.ApplyConfiguration.Builder.{Builder, Configuration, IsSound, ◌▸◌}
use agentic_platform.ApplyConfiguration.Builder.Kinds.{value_builder, value_IsFaithful}

module _ (x : Foreign) where
  pub record ExtProc : Type 0 where
    pub backend_ref : Option x.backend_object_reference.Carrier

  abbrev pub ext_proc : ExtProc
  ext_proc = record { backend_ref = none }

  abbrev pub with_backend_ref : x.backend_object_reference.Carrier → ExtProc → ExtProc
  with_backend_ref v b = record b { backend_ref = some v }

  abbrev pub ext_proc_fields : ExtProc → Fields
  ext_proc_fields b =
      ("backendRef", pointer_field x.backend_object_reference.encode b.backend_ref) ∷ []

  abbrev pub encode_ext_proc : ExtProc → Json
  encode_ext_proc b = object_of (ext_proc_fields b)

  abbrev pub builders : List (Builder ext_proc_fields)
  builders =
      value_builder ext_proc_fields "backendRef" x.backend_object_reference.encode with_backend_ref
      ∷ []

  abbrev pub configuration : Configuration
  configuration = record {
    Self = ExtProc;
    fields = ext_proc_fields;
    empty = ext_proc;
    builders = builders;
  }

  pub configuration-IsSound : IsSound configuration
  configuration-IsSound = record {
    unset = refl;
    faithful = value_IsFaithful 0 (λ b. refl) (λ a b. refl) ▸ tt;
  }
