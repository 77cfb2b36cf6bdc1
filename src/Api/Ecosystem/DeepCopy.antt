-- ===== src/Api/Ecosystem/DeepCopy.antt =====
-- zz_generated.deepcopy.go: the types of ecosystem_types.go. The specification is a string.
use agentic_platform.Prelude.{refl}
use agentic_platform.Memory.{Alloc, pure, ◌>>=◌, Pointer, pointer, copy_pointer, copy_slice}
use agentic_platform.Memory.Copies.{
  IsDeepCopy, copy_pointer-IsDeepCopy, copy_slice-IsDeepCopy, CopyOf-append,
}
use agentic_platform.Kubernetes.{Machinery}
use agentic_platform.Api.Status.DeepCopy.{deep_copy_into_base, deep_copy_into_base-IsDeepCopy}
use agentic_platform.Api.Ecosystem.{
  MyceliumEcosystemSpec, MyceliumEcosystemStatus, MyceliumEcosystem, MyceliumEcosystemList,
  ecosystem_status_located, ecosystem_located, ecosystem_list_located,
}

pub deep_copy_into_ecosystem_spec : MyceliumEcosystemSpec → Alloc MyceliumEcosystemSpec
deep_copy_into_ecosystem_spec x = pure x

pub deep_copy_ecosystem_spec : Pointer MyceliumEcosystemSpec → Alloc (Pointer MyceliumEcosystemSpec)
deep_copy_ecosystem_spec = copy_pointer deep_copy_into_ecosystem_spec

module _ (k : Machinery) where
  pub deep_copy_into_ecosystem_status :
      MyceliumEcosystemStatus k → Alloc (MyceliumEcosystemStatus k)
  deep_copy_into_ecosystem_status x = do
    base ← deep_copy_into_base k x.base
    pure (record x { base = base })

  pub deep_copy_ecosystem_status :
      Pointer (MyceliumEcosystemStatus k) → Alloc (Pointer (MyceliumEcosystemStatus k))
  deep_copy_ecosystem_status = copy_pointer deep_copy_into_ecosystem_status

  pub deep_copy_into_ecosystem_status-IsDeepCopy :
      IsDeepCopy (ecosystem_status_located k) deep_copy_into_ecosystem_status
  unfolding deep_copy_into_ecosystem_status
  deep_copy_into_ecosystem_status-IsDeepCopy x n =
      let c0 = deep_copy_into_base-IsDeepCopy k x.base n in
      record { same = rw c0.same refl; fresh = c0.fresh }

  pub deep_copy_into_ecosystem : MyceliumEcosystem k → Alloc (MyceliumEcosystem k)
  deep_copy_into_ecosystem x = do
    object_meta ← k.object_meta.deep_copy_into x.object_meta
    status ← deep_copy_into_ecosystem_status x.status
    pure (record x { object_meta = object_meta; status = status })

  -- `DeepCopy`; `DeepCopyObject` returns it as an interface, nil for nil.
  pub deep_copy_ecosystem : Pointer (MyceliumEcosystem k) → Alloc (Pointer (MyceliumEcosystem k))
  deep_copy_ecosystem = copy_pointer deep_copy_into_ecosystem

  pub deep_copy_into_ecosystem-IsDeepCopy :
      IsDeepCopy (ecosystem_located k) deep_copy_into_ecosystem
  unfolding deep_copy_into_ecosystem
  deep_copy_into_ecosystem-IsDeepCopy x n =
      let c0 = k.object_meta.deep_copy_into-IsDeepCopy x.object_meta n in
      let c1 = deep_copy_into_ecosystem_status-IsDeepCopy x.status _ in
      record { same = rw (c0.same, c1.same) refl; fresh = CopyOf-append c0 _ _ c1.fresh }

  pub deep_copy_ecosystem-IsDeepCopy :
      IsDeepCopy (pointer (ecosystem_located k)) deep_copy_ecosystem
  unfolding deep_copy_ecosystem
  deep_copy_ecosystem-IsDeepCopy =
      copy_pointer-IsDeepCopy (ecosystem_located k) deep_copy_into_ecosystem
        deep_copy_into_ecosystem-IsDeepCopy

  pub deep_copy_into_ecosystem_list : MyceliumEcosystemList k → Alloc (MyceliumEcosystemList k)
  deep_copy_into_ecosystem_list x = do
    list_meta ← k.list_meta.deep_copy_into x.list_meta
    items ← copy_slice deep_copy_into_ecosystem x.items
    pure (record x { list_meta = list_meta; items = items })

  -- `DeepCopy`; `DeepCopyObject` returns it as an interface, nil for nil.
  pub deep_copy_ecosystem_list :
      Pointer (MyceliumEcosystemList k) → Alloc (Pointer (MyceliumEcosystemList k))
  deep_copy_ecosystem_list = copy_pointer deep_copy_into_ecosystem_list

  pub deep_copy_into_ecosystem_list-IsDeepCopy :
      IsDeepCopy (ecosystem_list_located k) deep_copy_into_ecosystem_list
  unfolding deep_copy_into_ecosystem_list
  deep_copy_into_ecosystem_list-IsDeepCopy x n =
      let c0 = k.list_meta.deep_copy_into-IsDeepCopy x.list_meta n in
      let c1 =
        copy_slice-IsDeepCopy (ecosystem_located k) deep_copy_into_ecosystem
          deep_copy_into_ecosystem-IsDeepCopy x.items _ in
      record { same = rw (c0.same, c1.same) refl; fresh = CopyOf-append c0 _ _ c1.fresh }

  pub deep_copy_ecosystem_list-IsDeepCopy :
      IsDeepCopy (pointer (ecosystem_list_located k)) deep_copy_ecosystem_list
  unfolding deep_copy_ecosystem_list
  deep_copy_ecosystem_list-IsDeepCopy =
      copy_pointer-IsDeepCopy (ecosystem_list_located k) deep_copy_into_ecosystem_list
        deep_copy_into_ecosystem_list-IsDeepCopy
