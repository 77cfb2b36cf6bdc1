-- ===== src/ApplyConfiguration/Root/Sent.antt =====
-- The members of the object that a root kind is sent as. Those of its metadata stand by their path; an
-- empty object of metadata has none, as no metadata has.
use agentic_platform.Prelude.{String, [], ◌∷◌, concat}
use agentic_platform.ApplyConfiguration.Json.{
  Fields, Json, text, number, pointer_field, slice_field, map_field,
}
use agentic_platform.ApplyConfiguration.Root.{Types, Root, ObjectMeta, ensured}

abbrev pub inside : String → Fields → Fields
inside path [] = []
inside path ((name, o) ∷ fs) = (concat path (concat "." name), o) ∷ inside path fs

module _ (t : Types) (time : t.Time → Json) (owner : t.Owner → Json) where
  abbrev pub meta_fields : ObjectMeta t → Fields
  meta_fields m =
      ("name", pointer_field text m.name)
      ∷ ("generateName", pointer_field text m.generate_name)
      ∷ ("namespace", pointer_field text m.namespace)
      ∷ ("uid", pointer_field text m.uid)
      ∷ ("resourceVersion", pointer_field text m.resource_version)
      ∷ ("generation", pointer_field number m.generation)
      ∷ ("creationTimestamp", pointer_field time m.creation_timestamp)
      ∷ ("deletionTimestamp", pointer_field time m.deletion_timestamp)
      ∷ ("deletionGracePeriodSeconds", pointer_field number m.deletion_grace_period_seconds)
      ∷ ("labels", map_field text m.labels)
      ∷ ("annotations", map_field text m.annotations)
      ∷ ("ownerReferences", slice_field owner m.owner_references)
      ∷ ("finalizers", slice_field text m.finalizers)
      ∷ []

  abbrev pub root_fields : (t.Spec → Json) → (t.Status → Json) → Root t → Fields
  root_fields spec status b =
      ("kind", pointer_field text b.kind)
      ∷ ("apiVersion", pointer_field text b.api_version)
      ∷ ("spec", pointer_field spec b.spec)
      ∷ ("status", pointer_field status b.status)
      ∷ inside "metadata" (meta_fields (ensured t b))
