-- ===== src/ApplyConfiguration/Root.antt =====
-- agentgatewaybackend.go, and agentgatewaypolicy.go and agentgatewayparameters.go, which differ from
-- it in the kind, in the types of specification and status, and in `WithStatus`, which stores the
-- address of a copy of its argument. `&value` is the value, and nil is `none`.
pub mod Metadata
pub mod Chain
pub mod Sent
use agentic_platform.Prelude.{String, Option, none, some, List, [], ◌∷◌, ◌++◌}
use agentic_platform.Prelude.Int.{ℤ}
use agentic_platform.ApplyConfiguration.{Outcome, returned, panicked, map_outcome}
use agentic_platform.ApplyConfiguration.Maps.{GoMap, put_entries}
use agentic_platform.ApplyConfiguration.Appends.{append_pointers, append_values}

-- metav1.Time, OwnerReferenceApplyConfiguration, and the types of specification and status.
pub record Types : Type 1 where
  pub Time : Type 0
  pub Owner : Type 0
  pub Spec : Type 0
  pub Status : Type 0

module _ (t : Types) where
  -- ObjectMetaApplyConfiguration of k8s.io/client-go, whose fields the builders set.
  pub record ObjectMeta : Type 0 where
    pub name : Option String
    pub generate_name : Option String
    pub namespace : Option String
    pub uid : Option String
    pub resource_version : Option String
    pub generation : Option ℤ
    pub creation_timestamp : Option t.Time
    pub deletion_timestamp : Option t.Time
    pub deletion_grace_period_seconds : Option ℤ
    pub labels : GoMap String
    pub annotations : GoMap String
    pub owner_references : List t.Owner
    pub finalizers : List String

  -- `AgentgatewayBackendApplyConfiguration`
  pub record Root : Type 0 where
    pub kind : Option String
    pub api_version : Option String
    pub object_meta : Option ObjectMeta
    pub spec : Option t.Spec
    pub status : Option t.Status

  -- `&v1.ObjectMetaApplyConfiguration{}`
  abbrev pub no_meta : ObjectMeta
  no_meta = record {
    name = none;
    generate_name = none;
    namespace = none;
    uid = none;
    resource_version = none;
    generation = none;
    creation_timestamp = none;
    deletion_timestamp = none;
    deletion_grace_period_seconds = none;
    labels = none;
    annotations = none;
    owner_references = [];
    finalizers = [];
  }

  -- `ensureObjectMetaApplyConfigurationExists`: the metadata that is there behind it.
  abbrev pub ensured : Root → ObjectMeta
  ensured b = elim b.object_meta [ none ↦ no_meta | some m ↦ m ]

  abbrev pub with_meta : Root → ObjectMeta → Root
  with_meta b m = record b { object_meta = some m }

  abbrev pub with_kind : String → Root → Root
  with_kind v b = record b { kind = some v }

  abbrev pub with_api_version : String → Root → Root
  with_api_version v b = record b { api_version = some v }

  abbrev pub with_name : String → Root → Root
  with_name v b = with_meta b (record (ensured b) { name = some v })

  abbrev pub with_generate_name : String → Root → Root
  with_generate_name v b = with_meta b (record (ensured b) { generate_name = some v })

  abbrev pub with_namespace : String → Root → Root
  with_namespace v b = with_meta b (record (ensured b) { namespace = some v })

  abbrev pub with_uid : String → Root → Root
  with_uid v b = with_meta b (record (ensured b) { uid = some v })

  abbrev pub with_resource_version : String → Root → Root
  with_resource_version v b = with_meta b (record (ensured b) { resource_version = some v })

  abbrev pub with_generation : ℤ → Root → Root
  with_generation v b = with_meta b (record (ensured b) { generation = some v })

  abbrev pub with_creation_timestamp : t.Time → Root → Root
  with_creation_timestamp v b = with_meta b (record (ensured b) { creation_timestamp = some v })

  abbrev pub with_deletion_timestamp : t.Time → Root → Root
  with_deletion_timestamp v b = with_meta b (record (ensured b) { deletion_timestamp = some v })

  abbrev pub with_deletion_grace_period_seconds : ℤ → Root → Root
  with_deletion_grace_period_seconds v b =
      with_meta b (record (ensured b) { deletion_grace_period_seconds = some v })

  abbrev pub with_labels : List (String × String) → Root → Outcome Root
  with_labels entries b =
      map_outcome (λ m. with_meta b (record (ensured b) { labels = m }))
        (put_entries entries (ensured b).labels)

  abbrev pub with_annotations : List (String × String) → Root → Outcome Root
  with_annotations entries b =
      map_outcome (λ m. with_meta b (record (ensured b) { annotations = m }))
        (put_entries entries (ensured b).annotations)

  abbrev pub with_owner_references : List (Option t.Owner) → Root → Outcome Root
  with_owner_references values b =
      map_outcome (λ os. with_meta b (record (ensured b) { owner_references = os }))
        (append_pointers "WithOwnerReferences" values (ensured b).owner_references)

  abbrev pub with_finalizers : List String → Root → Root
  with_finalizers values b =
      with_meta b (record (ensured b) { finalizers = append_values values (ensured b).finalizers })

  abbrev pub with_spec : Option t.Spec → Root → Root
  with_spec v b = record b { spec = v }

  abbrev pub with_status : Option t.Status → Root → Root
  with_status v b = record b { status = v }

  abbrev pub get_kind : Root → Option String
  get_kind b = b.kind

  abbrev pub get_api_version : Root → Option String
  get_api_version b = b.api_version

  -- `GetName`: what it returns, and the receiver, which has metadata from then on.
  abbrev pub get_name : Root → Option String × Root
  get_name b = ((ensured b).name, with_meta b (ensured b))

  abbrev pub get_namespace : Root → Option String × Root
  get_namespace b = ((ensured b).namespace, with_meta b (ensured b))

  abbrev pub no_root : Root
  no_root = record {
    kind = none;
    api_version = none;
    object_meta = none;
    spec = none;
    status = none;
  }

  abbrev pub agentgateway_backend : String → String → Root
  agentgateway_backend name namespace =
      with_api_version "agentgateway.dev/agentgateway"
        (with_kind "AgentgatewayBackend" (with_namespace namespace (with_name name no_root)))

  abbrev pub agentgateway_policy : String → String → Root
  agentgateway_policy name namespace =
      with_api_version "agentgateway.dev/agentgateway"
        (with_kind "AgentgatewayPolicy" (with_namespace namespace (with_name name no_root)))

  abbrev pub agentgateway_parameters : String → String → Root
  agentgateway_parameters name namespace =
      with_api_version "agentgateway.dev/agentgateway"
        (with_kind "AgentgatewayParameters" (with_namespace namespace (with_name name no_root)))

  -- `WithStatus` of agentgatewaypolicy.go and agentgatewayparameters.go.
  abbrev pub with_status_value : t.Status → Root → Root
  with_status_value v b = record b { status = some v }
