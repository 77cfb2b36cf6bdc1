-- ===== src/Api/Status.antt =====
-- resource_status_types.go
pub mod DeepCopy
use agentic_platform.Prelude.{◌++◌}
use agentic_platform.Prelude.Int.{ℤ}
use agentic_platform.Memory.{Pointer, Slice, Located, pointer, slice}
use agentic_platform.Kubernetes.{Machinery}

module _ (k : Machinery) where
  abbrev pub Conditions : Type 0
  Conditions = Slice k.condition.Carrier

  abbrev pub conditions_located : Located Conditions
  conditions_located = slice k.condition.located

  pub record BaseMyceliumResourceStatus : Type 0 where
    pub observed_generation : ℤ
    pub conditions : Conditions

  abbrev pub base_located : Located BaseMyceliumResourceStatus
  base_located = record {
    locs = λ s. conditions_located.locs s.conditions;
    plain = λ s. record s { conditions = conditions_located.plain s.conditions };
  }

  pub record ReferencedResourceStatus : Type 0 where
    pub resource_ref : Pointer k.typed_object_reference.Carrier
    pub conditions : Conditions

  abbrev pub reference_located : Located ReferencedResourceStatus
  reference_located = record {
    locs = λ s.
        (pointer k.typed_object_reference.located).locs s.resource_ref
        ++ conditions_located.locs s.conditions;
    plain = λ s. record s {
      resource_ref = (pointer k.typed_object_reference.located).plain s.resource_ref;
      conditions = conditions_located.plain s.conditions;
    };
  }
