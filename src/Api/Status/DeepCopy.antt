-- ===== src/Api/Status/DeepCopy.antt =====
-- zz_generated.deepcopy.go: the types of resource_status_types.go.
use agentic_platform.Prelude.{refl}
use agentic_platform.Memory.{Alloc, pure, ◌>>=◌, Pointer, copy_pointer, copy_slice}
use agentic_platform.Memory.Copies.{
  IsDeepCopy, copy_pointer-IsDeepCopy, copy_slice-IsDeepCopy, CopyOf-append,
}
use agentic_platform.Kubernetes.{Machinery}
use agentic_platform.Api.Status.{
  Conditions, conditions_located, BaseMyceliumResourceStatus, base_located,
  ReferencedResourceStatus, reference_located,
}

module _ (k : Machinery) where
  -- The block over `Conditions` in each `DeepCopyInto` that has one.
  abbrev pub copy_conditions : Conditions k → Alloc (Conditions k)
  copy_conditions = copy_slice k.condition.deep_copy_into

  pub copy_conditions-IsDeepCopy : IsDeepCopy (conditions_located k) copy_conditions
  copy_conditions-IsDeepCopy =
      copy_slice-IsDeepCopy k.condition.located k.condition.deep_copy_into
        k.condition.deep_copy_into-IsDeepCopy

  pub deep_copy_into_base : BaseMyceliumResourceStatus k → Alloc (BaseMyceliumResourceStatus k)
  deep_copy_into_base s = do
    conditions ← copy_conditions s.conditions
    pure (record s { conditions = conditions })

  pub deep_copy_base :
      Pointer (BaseMyceliumResourceStatus k) → Alloc (Pointer (BaseMyceliumResourceStatus k))
  deep_copy_base = copy_pointer deep_copy_into_base

  pub deep_copy_into_reference : ReferencedResourceStatus k → Alloc (ReferencedResourceStatus k)
  deep_copy_into_reference s = do
    resource_ref ← copy_pointer k.typed_object_reference.deep_copy_into s.resource_ref
    conditions ← copy_conditions s.conditions
    pure (record s { resource_ref = resource_ref; conditions = conditions })

  pub deep_copy_reference :
      Pointer (ReferencedResourceStatus k) → Alloc (Pointer (ReferencedResourceStatus k))
  deep_copy_reference = copy_pointer deep_copy_into_reference

  pub deep_copy_into_base-IsDeepCopy : IsDeepCopy (base_located k) deep_copy_into_base
  unfolding deep_copy_into_base
  deep_copy_into_base-IsDeepCopy s n =
      let c = copy_conditions-IsDeepCopy s.conditions n in
      record { same = rw c.same refl; fresh = c.fresh }

  pub deep_copy_into_reference-IsDeepCopy :
      IsDeepCopy (reference_located k) deep_copy_into_reference
  unfolding deep_copy_into_reference
  deep_copy_into_reference-IsDeepCopy s n =
      let r =
        copy_pointer-IsDeepCopy k.typed_object_reference.located
          k.typed_object_reference.deep_copy_into k.typed_object_reference.deep_copy_into-IsDeepCopy
          s.resource_ref n in
      let c = copy_conditions-IsDeepCopy s.conditions _ in
      record { same = rw (r.same, c.same) refl; fresh = CopyOf-append r _ _ c.fresh }
