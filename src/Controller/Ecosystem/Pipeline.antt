-- ===== src/Controller/Ecosystem/Pipeline.antt =====
-- The namespace pipeline as a whole: transformation, collection, sink and server-side apply.
use agentic_platform.Prelude.{
  ◌≡◌, ◌≢◌, refl, ap, ◌∙◌, String, true, none, some, List, [], ◌∷◌, ◌++◌, All, sym, Option-cases,
  some-eq-some, inl, inr,
}
use agentic_platform.Kubernetes.{Machinery}
use agentic_platform.Api.Ecosystem.{MyceliumEcosystem}
use agentic_platform.Controller.Client.{
  namespace_kind, ObjectKey, ApplyConfiguration, Client, ServerSideApply,
}
use agentic_platform.Controller.Collection.{derive, derive-split, All-derive}
use agentic_platform.Controller.Sink.{Event, World}
use agentic_platform.Controller.Sink.Batch.{written, send_all}
use agentic_platform.Controller.Sink.Converges.{handle_batch-last, handle_batch-other}
use agentic_platform.Controller.Ecosystem.{
  EcosystemNamespace, ecosystem_namespace, ecosystem_namespace_field_manager, namespace_writes,
  namespace_sink, apply_ecosystem_namespace,
}

module _ (k : Machinery) where
  abbrev pub name_of : MyceliumEcosystem k → String
  name_of eco = k.name eco.object_meta

  abbrev pub namespace_key : String → ObjectKey
  namespace_key n = record { kind = namespace_kind; namespace = ""; name = n }

  -- The namespace of an ecosystem: it has its name, it is owned by it, and it has two labels.
  abbrev pub asked_namespace : MyceliumEcosystem k → ApplyConfiguration
  asked_namespace eco = record {
    key = namespace_key (name_of eco);
    owner_references =
        record {
          api_version =
              k.group_version_to_string (record { group = "mycelium.io"; version = "v1alpha1" });
          kind = "MyceliumEcosystem";
          name = name_of eco;
          uid = k.uid eco.object_meta;
          controller = true;
          block_owner_deletion = true;
        }
        ∷ [];
    labels =
        ("mycelium.io/ecosystem", name_of eco)
        ∷ ("app.kubernetes.io/managed-by", "mycelium.io/mycelium")
        ∷ [];
  }

  -- The entry of an ecosystem that is not being deleted.
  abbrev pub entry : MyceliumEcosystem k → EcosystemNamespace
  entry eco = record {
    ecosystem_name = k.name eco.object_meta;
    ecosystem_uid = k.uid eco.object_meta;
  }

  pub ecosystem_namespace-entry :
      (eco : MyceliumEcosystem k)
      → k.deletion_timestamp eco.object_meta ≡ none
      → ecosystem_namespace k eco ≡ some (entry eco)
  unfolding ecosystem_namespace
  ecosystem_namespace-entry eco e = rw (e, ecosystem_namespace) refl

  ecosystem_namespace-deleting :
      (eco : MyceliumEcosystem k) (t : k.Time)
      → k.deletion_timestamp eco.object_meta ≡ some t
      → ecosystem_namespace k eco ≡ none
  unfolding ecosystem_namespace
  ecosystem_namespace-deleting eco t e = rw (e, ecosystem_namespace) refl

  pub ecosystem_namespace-name :
      (eco : MyceliumEcosystem k) (o : EcosystemNamespace)
      → ecosystem_namespace k eco ≡ some o
      → o.ecosystem_name ≡ name_of eco
  ecosystem_namespace-name eco o e = elim (Option-cases (k.deletion_timestamp eco.object_meta)) [
    | inl live ↦
        let p : some (entry eco) ≡ some o = sym (ecosystem_namespace-entry eco live) ∙ e in
        ap (λ n. n.ecosystem_name) (sym (some-eq-some p))
    | inr (t, deleting) ↦ cc (ecosystem_namespace-deleting eco t deleting)
  ]

  ecosystem_namespace-live :
      (eco : MyceliumEcosystem k) (o : EcosystemNamespace)
      → ecosystem_namespace k eco ≡ some o
      → k.deletion_timestamp eco.object_meta ≡ none
  ecosystem_namespace-live eco o e = elim (Option-cases (k.deletion_timestamp eco.object_meta)) [
    | inl live ↦ live
    | inr (t, deleting) ↦ cc (ecosystem_namespace-deleting eco t deleting)
  ]

  module _ (c : Client) (ssa : ServerSideApply c) where
    other_key :
        (eco y : MyceliumEcosystem k) (o : EcosystemNamespace)
        → ecosystem_namespace k y ≡ some o
        → name_of y ≢ name_of eco
        → (apply_ecosystem_namespace k o).desired.key ≢ namespace_key (name_of eco)
    unfolding apply_ecosystem_namespace
    other_key eco y o e ne same = ne (sym (ecosystem_namespace-name y o e) ∙ ap (λ x. x.name) same)

    -- Ecosystems `before ++ eco ∷ after` are what the root collection holds, and the batch writes
    -- the entries derived from them. If `eco` is not being deleted, no other ecosystem behind it
    -- has its name, and the apply for it succeeds, then behind the batch the server holds the
    -- namespace of `eco`, with an owner reference to it and the two labels, whatever else failed.
    pub namespace_sink-ensures :
        (es : List (Event EcosystemNamespace)) (s : World c) (before : List (MyceliumEcosystem k))
        (eco : MyceliumEcosystem k) (after : List (MyceliumEcosystem k))
        → written es ≡ derive (ecosystem_namespace k) (before ++ eco ∷ after)
        → k.deletion_timestamp eco.object_meta ≡ none
        → All (λ y. name_of y ≢ name_of eco) after
        → (c.apply
            (apply_ecosystem_namespace k (entry eco))
            (send_all (namespace_writes k c) (derive (ecosystem_namespace k) before) s.server)).0
          ≡ none
        → ssa.applied
            (namespace_sink k c es s).server
            ecosystem_namespace_field_manager
            (namespace_key (name_of eco))
          ≡ some (asked_namespace eco)
    unfolding namespace_sink apply_ecosystem_namespace
    namespace_sink-ensures es s before eco after e live names ok =
        handle_batch-last ssa (namespace_writes k c) ecosystem_namespace_field_manager es s
          (derive (ecosystem_namespace k) before) (entry eco) (derive (ecosystem_namespace k) after)
          (e
            ∙ derive-split (ecosystem_namespace k) before eco after (entry eco)
                (ecosystem_namespace-entry eco live))
          refl refl ok
          (All-derive (ecosystem_namespace k) (λ y. name_of y ≢ name_of eco) _
            (λ y o q ne. other_key eco y o q ne) after names)

    -- If every ecosystem of the root collection that is named `n` is being deleted, a batch that
    -- writes the derived entries leaves the namespace `n` as it is on the server.
    pub namespace_sink-ignores :
        (es : List (Event EcosystemNamespace)) (s : World c) (ecos : List (MyceliumEcosystem k))
        (n : String)
        → written es ≡ derive (ecosystem_namespace k) ecos
        → All (λ y. k.deletion_timestamp y.object_meta ≡ none → name_of y ≢ n) ecos
        → ssa.applied
            (namespace_sink k c es s).server
            ecosystem_namespace_field_manager
            (namespace_key n)
          ≡ ssa.applied s.server ecosystem_namespace_field_manager (namespace_key n)
    unfolding namespace_sink apply_ecosystem_namespace
    namespace_sink-ignores es s ecos n e h =
        handle_batch-other ssa (namespace_writes k c) ecosystem_namespace_field_manager
          (namespace_key n) es s
          (rw e (
            All-derive (ecosystem_namespace k)
              (λ y. k.deletion_timestamp y.object_meta ≡ none → name_of y ≢ n) _
              (λ y o q ne same.
                ne (ecosystem_namespace-live y o q)
                  (sym (ecosystem_namespace-name y o q) ∙ ap (λ x. x.name) same))
              ecos h))
