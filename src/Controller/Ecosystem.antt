-- ===== src/Controller/Ecosystem.antt =====
-- ecosystem.go: from a MyceliumEcosystem to its namespace.
pub mod Pipeline
pub mod Runs
use agentic_platform.Prelude.{String, true, Option, none, some, List, [], ◌∷◌, join, quoted}
use agentic_platform.Kubernetes.{Machinery}
use agentic_platform.Api.Gvk.{mycelium_ecosystem_gvk}
use agentic_platform.Api.Ecosystem.{MyceliumEcosystem}
use agentic_platform.Controller.WellKnown.{default_mycelium_controller_name}
use agentic_platform.Controller.Client.{
  OwnerReference, namespace_kind, ApplyConfiguration, Request, Client,
}
use agentic_platform.Controller.Sink.{Event, World, Writes, handle_batch}

abbrev pub ecosystem_namespace_field_manager : String
ecosystem_namespace_field_manager = "mycelium-ecosystem-namespace"

pub record EcosystemNamespace : Type 0 where
  pub ecosystem_name : String
  pub ecosystem_uid : String

unfoldable pub resource_name : EcosystemNamespace → String
resource_name n = n.ecosystem_name

module _ (k : Machinery) where
  -- The transformation of `ecosystemNamespaceCollection`; `none` is nil, no entry.
  unfoldable pub ecosystem_namespace : MyceliumEcosystem k → Option EcosystemNamespace
  ecosystem_namespace eco = elim (k.deletion_timestamp eco.object_meta) [
    | some t ↦ none
    | none ↦
        some (record {
          ecosystem_name = k.name eco.object_meta;
          ecosystem_uid = k.uid eco.object_meta;
        })
  ]

  -- `ownerRef` of `applyEcosystemNamespace`.
  abbrev pub owner_reference : EcosystemNamespace → OwnerReference
  owner_reference ns = record {
    api_version = k.group_version_to_string mycelium_ecosystem_gvk.group_version;
    kind = mycelium_ecosystem_gvk.kind;
    name = ns.ecosystem_name;
    uid = ns.ecosystem_uid;
    controller = true;
    block_owner_deletion = true;
  }

  abbrev pub desired_namespace : EcosystemNamespace → ApplyConfiguration
  desired_namespace ns = record {
    key = record { kind = namespace_kind; namespace = ""; name = ns.ecosystem_name };
    owner_references = owner_reference ns ∷ [];
    labels =
        ("mycelium.io/ecosystem", ns.ecosystem_name)
        ∷ ("app.kubernetes.io/managed-by", default_mycelium_controller_name)
        ∷ [];
  }

  -- The call of `Apply` that `applyEcosystemNamespace` makes.
  unfoldable pub apply_ecosystem_namespace : EcosystemNamespace → Request
  apply_ecosystem_namespace ns = record {
    desired = desired_namespace ns;
    field_owner = ecosystem_namespace_field_manager;
    force_ownership = true;
  }

  -- `"%s: failed to apply namespace for ecosystem %q: %v\n"`
  abbrev pub apply_failure : (c : Client) → EcosystemNamespace → c.Error → String
  apply_failure c ns err = join (
      ecosystem_namespace_field_manager
      ∷ ": failed to apply namespace for ecosystem "
      ∷ quoted ns.ecosystem_name
      ∷ ": "
      ∷ c.message err
      ∷ "\n"
      ∷ [])

  abbrev pub namespace_writes : (c : Client) → Writes c EcosystemNamespace
  namespace_writes c = record { request = apply_ecosystem_namespace; failure = apply_failure c }

  -- The handler that `registerNamespaceSink` registers.
  pub namespace_sink : (c : Client) → List (Event EcosystemNamespace) → World c → World c
  namespace_sink c = handle_batch (namespace_writes c)
