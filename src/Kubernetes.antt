-- ===== src/Kubernetes.antt =====
-- What the program takes from Kubernetes' own Go packages (k8s.io/api, k8s.io/apimachinery and
-- k8s.io/apiextensions-apiserver): the types that its resources embed, and their deep copies.
use agentic_platform.Prelude.{String, Option}
use agentic_platform.Memory.{Alloc, Located}
use agentic_platform.Memory.Copies.{IsDeepCopy}

-- A type of another package, with its generated `DeepCopyInto`, which is documented to copy all
-- that the value reaches.
pub record External : Type 1 where
  pub Carrier : Type 0
  pub located : Located Carrier
  pub deep_copy_into : Carrier → Alloc Carrier
  pub deep_copy_into-IsDeepCopy : IsDeepCopy located deep_copy_into

-- schema.GroupVersion, schema.GroupVersionKind and schema.GroupVersionResource.
pub record GroupVersion : Type 0 where
  pub group : String
  pub version : String

pub record GroupVersionKind : Type 0 where
  pub group_version : GroupVersion
  pub open group_version use *
  pub kind : String

pub record GroupVersionResource : Type 0 where
  pub group_version : GroupVersion
  pub open group_version use *
  pub resource : String

pub record Machinery : Type 1 where
  -- metav1.TypeMeta holds strings only.
  pub TypeMeta : Type 0
  -- metav1.Time, as `DeletionTimestamp` points to it.
  pub Time : Type 0
  pub object_meta : External
  pub list_meta : External
  pub condition : External
  pub secret_key_selector : External
  pub typed_object_reference : External
  pub json : External
  -- The fields of metav1.ObjectMeta that the program reads.
  pub name : object_meta.Carrier → String
  pub namespace : object_meta.Carrier → String
  pub uid : object_meta.Carrier → String
  pub deletion_timestamp : object_meta.Carrier → Option Time
  -- `GroupVersion.String`
  pub group_version_to_string : GroupVersion → String
