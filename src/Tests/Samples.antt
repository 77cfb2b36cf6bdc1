-- ===== src/Tests/Samples.antt =====
-- Kubernetes types and a server that meet the hypotheses of the theorems.
use agentic_platform.Prelude.{
  ℕ, ◌≡◌, ◌≢◌, refl, String, true, ◌&&◌, Option, none, some, [], ◌∷◌, arith, join, str_eq,
  str_eq_iff, if◌then◌else◌, Bool-cases, inl, inr,
}
use agentic_platform.Memory.{Pointer, Located, Alloc, flat, pure, ◌>>=◌, pointer, copy_pointer}
use agentic_platform.Memory.Copies.{IsDeepCopy, pure-IsDeepCopy, copy_pointer-IsDeepCopy}
use agentic_platform.Kubernetes.{External, Machinery}
use agentic_platform.Controller.Keys.{key_eq, key_eq_iff}
use agentic_platform.Controller.Client.{
  ObjectKey, ApplyConfiguration, Request, Client, ServerSideApply,
}

-- A type that is a text.
abbrev pub text : External
text = record {
  Carrier = String;
  located = flat;
  deep_copy_into = pure;
  deep_copy_into-IsDeepCopy = pure-IsDeepCopy;
}

-- metav1.ObjectMeta with the fields that the program reads; the time of deletion is a pointer.
pub record Meta : Type 0 where
  pub name : String
  pub namespace : String
  pub uid : String
  pub deletion : Pointer ℕ

abbrev pub meta_located : Located Meta
meta_located = record {
  locs = λ m. (pointer (flat {A = ℕ})).locs m.deletion;
  plain = λ m. record m { deletion = (pointer flat).plain m.deletion };
}

pub copy_meta : Meta → Alloc Meta
copy_meta m = do deletion ← copy_pointer pure m.deletion; pure (record m { deletion = deletion })

pub copy_meta-IsDeepCopy : IsDeepCopy meta_located copy_meta
unfolding copy_meta
copy_meta-IsDeepCopy m n =
    let c = copy_pointer-IsDeepCopy flat pure pure-IsDeepCopy m.deletion n in
    record { same = rw c.same refl; fresh = c.fresh }

abbrev pub meta : External
meta = record {
  Carrier = Meta;
  located = meta_located;
  deep_copy_into = copy_meta;
  deep_copy_into-IsDeepCopy = copy_meta-IsDeepCopy;
}

abbrev pub content_of : Pointer ℕ → Option ℕ
content_of none = none
content_of (some r) = some r.content

abbrev pub machinery : Machinery
machinery = record {
  TypeMeta = String;
  Time = ℕ;
  object_meta = meta;
  list_meta = text;
  condition = text;
  secret_key_selector = text;
  typed_object_reference = text;
  json = text;
  name = λ (m : Meta). m.name;
  namespace = λ (m : Meta). m.namespace;
  uid = λ (m : Meta). m.uid;
  deletion_timestamp = λ (m : Meta). content_of m.deletion;
  group_version_to_string = λ v. join (v.group ∷ "/" ∷ v.version ∷ []);
}

-- What each field manager has applied to each object.
abbrev pub Applied : Type 0
Applied = String → ObjectKey → Option ApplyConfiguration

abbrev pub record_apply : Request → Applied → Applied
record_apply r s m x =
    if str_eq r.field_owner m && key_eq r.desired.key x then some r.desired else s m x

-- A server that refuses the name `refused`.
abbrev pub client : Client
client = record {
  Server = Applied;
  Error = String;
  message = λ e. e;
  apply = λ r s.
      if str_eq r.desired.key.name "refused"
      then (some "forbidden", s)
      else (none, record_apply r s);
}

pub client-applied-ok :
    (r : Request) (s : Applied)
    → (client.apply r s).0 ≡ none
    → r.force_ownership ≡ true
    → (client.apply r s).1 r.field_owner r.desired.key ≡ some r.desired
client-applied-ok r s e f = elim (Bool-cases (str_eq r.desired.key.name "refused")) [
  | inl refused ↦ absurd (ground arith)
  | inr taken ↦
      rw
        (
          taken,
          (str_eq_iff r.field_owner r.field_owner).1 refl,
          (key_eq_iff r.desired.key r.desired.key).1 refl,
        )
        refl
]

pub client-applied-other :
    (r : Request) (s : Applied) (m : String) (x : ObjectKey)
    → r.desired.key ≢ x
    → (client.apply r s).1 m x ≡ s m x
client-applied-other r s m x ne = elim (Bool-cases (key_eq r.desired.key x)) [
  | inl same ↦ absurd (ne ((key_eq_iff r.desired.key x).0 same))
  | inr other ↦ ground arith
]

abbrev pub server_side_apply : ServerSideApply client
server_side_apply = record {
  applied = λ s m x. s m x;
  applied-apply_ok = client-applied-ok;
  applied-apply_other = client-applied-other;
}

abbrev pub empty : Applied
empty m x = none
