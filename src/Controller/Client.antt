-- ===== src/Controller/Client.antt =====
-- The objects that the controller applies, and the client that applies them
-- (sigs.k8s.io/controller-runtime), whose server is a parameter.
use agentic_platform.Prelude.{String, ◌≡◌, ◌≢◌, Bool, true, Option, none, some, List}

-- metav1ac.OwnerReferenceApplyConfiguration with all of its fields set.
pub record OwnerReference : Type 0 where
  pub api_version : String
  pub kind : String
  pub name : String
  pub uid : String
  pub controller : Bool
  pub block_owner_deletion : Bool

pub data ObjectKind : Type 0 where
  namespace_kind service_account_kind : ObjectKind

-- What names an object on the server; a Namespace has the empty namespace.
pub record ObjectKey : Type 0 where
  pub kind : ObjectKind
  pub namespace : String
  pub name : String

-- corev1ac.NamespaceApplyConfiguration and ServiceAccountApplyConfiguration, as far as the
-- controller sets them.
pub record ApplyConfiguration : Type 0 where
  pub key : ObjectKey
  pub owner_references : List OwnerReference
  pub labels : List (String × String)

-- A call of `client.Apply` with `client.FieldOwner(…)` and `client.ForceOwnership`.
pub record Request : Type 0 where
  pub desired : ApplyConfiguration
  pub field_owner : String
  pub force_ownership : Bool

pub record Client : Type 1 where
  pub Server : Type 0
  pub Error : Type 0
  -- The text that `%v` prints.
  pub message : Error → String
  -- The error, if there is one, and the server behind the call.
  pub apply : Request → Server → Option Error × Server

-- What is documented of a server-side apply. `applied s m x` is what field manager `m` has applied
-- to the object `x`, in the state `s` of the server.
pub record ServerSideApply (c : Client) : Type 0 where
  pub applied : c.Server → String → ObjectKey → Option ApplyConfiguration
  pub applied-apply_ok :
      (r : Request) (s : c.Server)
      → (c.apply r s).0 ≡ none
      → r.force_ownership ≡ true
      → applied (c.apply r s).1 r.field_owner r.desired.key ≡ some r.desired
  pub applied-apply_other :
      (r : Request) (s : c.Server) (m : String) (x : ObjectKey)
      → r.desired.key ≢ x
      → applied (c.apply r s).1 m x ≡ applied s m x
