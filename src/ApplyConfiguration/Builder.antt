-- ===== src/ApplyConfiguration/Builder.antt =====
-- A builder as an edit of the JSON object that is sent: the specification of every `With` method of
-- mycelium/internal/applyconfiguration.
pub mod Kinds
pub mod Chain
pub mod Gathered
use agentic_platform.Prelude.{
  ◌≡◌, ◌≢◌, refl, ap, sym, ◌∙◌, ℕ, zero, suc, String, Bool, true, false, not, ◌&&◌, Option, none,
  some, List, [], ◌∷◌, All, str_eq, str_eq_iff, Bool-cases, &&-true, inl, inr, subst, arith,
  if◌then◌else◌,
}
use std.Path.{fun_ext}
use agentic_platform.ApplyConfiguration.{Outcome, returned, panicked}
use agentic_platform.ApplyConfiguration.Json.{Json, Fields, Members, no_members, member, members_of}

-- An object by the contents of its members.
abbrev pub Document : Type 0
Document = String → Option Json

abbrev pub member_in : Members → Document
member_in no_members x = none
member_in (member name j ms) x = if str_eq x name then some j else member_in ms x

-- What a reader of the object finds that is made of these fields.
abbrev pub document : Fields → Document
document fs = member_in (members_of fs)

-- One member changed.
abbrev pub update : String → (Option Json → Option Json) → Document → Document
update name f d x = if str_eq x name then f (d name) else d x

-- The receiver behind a call, also behind one that panics, and the text of the panic.
abbrev pub state : {A : Type 0} → Outcome A → A
state (returned a) = a
state (panicked e a) = a

abbrev pub error_of : {A : Type 0} → Outcome A → Option String
error_of (returned a) = none
error_of (panicked e a) = some e

-- A method of a configuration, the member that it is to edit, how, and when it is to panic.
pub record Builder {Self : Type 0} (fields : Self → Fields) : Type 1 where
  pub Arg : Type 0
  pub apply : Arg → Self → Outcome Self
  pub member : String
  pub effect : Arg → Option Json → Option Json
  pub error : Arg → Option String

-- The method edits that member as it is to, leaves all others as they are, and panics when it is to.
pub record IsFaithful {Self : Type 0} {fields : Self → Fields} (m : Builder fields) : Type 0 where
  pub edits :
      (a : m.Arg) (b : Self)
      → document (fields (state (m.apply a b))) ≡ update m.member (m.effect a) (document (fields b))
  pub ends : (a : m.Arg) (b : Self) → error_of (m.apply a b) ≡ m.error a

-- A proof for each builder of a list, one after the other.
infixr 4 ◌▸◌
pub ◌▸◌ {ℓ κ} : {A : Type ℓ} {B : Type κ} → A → B → A × B
first ▸ others = (first, others)

-- The name stands at that place in the list, and at no other.
abbrev pub avoids : String → List String → Bool
avoids n [] = true
avoids n (k ∷ ks) = not (str_eq n k) && avoids n ks

abbrev pub stands_at : ℕ → String → List String → Bool
stands_at i n [] = false
stands_at zero n (k ∷ ks) = str_eq n k && avoids n ks
stands_at (suc i) n (k ∷ ks) = not (str_eq n k) && stands_at i n ks

abbrev pub names : Fields → List String
names [] = []
names ((k, o) ∷ fs) = k ∷ names fs

abbrev pub content_at : ℕ → Fields → Option Json
content_at i [] = none
content_at zero ((k, o) ∷ fs) = o
content_at (suc i) ((k, o) ∷ fs) = content_at i fs

abbrev pub set_at : ℕ → Option Json → Fields → Fields
set_at i p [] = []
set_at zero p ((k, o) ∷ fs) = (k, p) ∷ fs
set_at (suc i) p ((k, o) ∷ fs) = (k, o) ∷ set_at i p fs

str_eq_refl : (s : String) → str_eq s s ≡ true
str_eq_refl s = (str_eq_iff s s).1 refl

document-avoids : (n : String) (fs : Fields) → avoids n (names fs) ≡ true → document fs n ≡ none
document-avoids n [] h = refl
document-avoids n ((k, none) ∷ fs) h = ground (arith, document-avoids n fs)
document-avoids n ((k, some j) ∷ fs) h = ground (arith, document-avoids n fs)

document-content_at :
    (i : ℕ) (n : String) (fs : Fields)
    → stands_at i n (names fs) ≡ true
    → document fs n ≡ content_at i fs
document-content_at i n [] h = absurd (ground arith)
document-content_at zero n ((k, none) ∷ fs) h = ground (arith, document-avoids n fs)
document-content_at zero n ((k, some j) ∷ fs) h = ground arith
document-content_at (suc i) n ((k, none) ∷ fs) h = ground (arith, document-content_at i n fs)
document-content_at (suc i) n ((k, some j) ∷ fs) h = ground (arith, document-content_at i n fs)

unequal : (n k x : String) → not (str_eq n k) ≡ true → str_eq x k ≡ true → str_eq x n ≡ false
unequal n k x ne e = elim (Bool-cases (str_eq x n)) [
  | inr other ↦ other
  | inl same ↦
      let equal : str_eq n k ≡ true =
        (str_eq_iff n k).1 (sym ((str_eq_iff x n).0 same) ∙ (str_eq_iff x k).0 e) in
      absurd (ground arith)
]

-- The field in front of others that do not have its name.
document-front :
    (n : String) (p : Option Json) (fs : Fields) (x : String)
    → avoids n (names fs) ≡ true
    → document ((n, p) ∷ fs) x ≡ (if str_eq x n then p else document fs x)
document-front n (some j) fs x h = refl
document-front n none fs x h = elim (Bool-cases (str_eq x n)) [
  | inl e ↦ rw e (ap (document fs) ((str_eq_iff x n).0 e) ∙ document-avoids n fs h)
  | inr e ↦ rw e refl
]

document-replaced :
    (n : String) (p o : Option Json) (fs : Fields) (x : String)
    → avoids n (names fs) ≡ true
    → document ((n, p) ∷ fs) x ≡ (if str_eq x n then p else document ((n, o) ∷ fs) x)
document-replaced n p o fs x h = document-front n p fs x h ∙ elim (Bool-cases (str_eq x n)) [
  | inl e ↦ rw e refl
  | inr e ↦
      let behind : document ((n, o) ∷ fs) x ≡ document fs x =
        document-front n o fs x h ∙ rw e refl in
      rw e (sym behind)
]

document-set_at :
    (i : ℕ) (n : String) (p : Option Json) (fs : Fields) (x : String)
    → stands_at i n (names fs) ≡ true
    → document (set_at i p fs) x ≡ (if str_eq x n then p else document fs x)
document-set_at i n p [] x h = absurd (ground arith)
document-set_at zero n p ((k, o) ∷ fs) x h =
    let parts = &&-true (str_eq n k) (avoids n (names fs)) h in
    subst (λ m. document ((m, p) ∷ fs) x ≡ (if str_eq x n then p else document ((m, o) ∷ fs) x))
      ((str_eq_iff n k).0 parts.0) (document-replaced n p o fs x parts.1)
document-set_at (suc i) n p ((k, none) ∷ fs) x h =
    document-set_at i n p fs x (&&-true (not (str_eq n k)) (stands_at i n (names fs)) h).1
document-set_at (suc i) n p ((k, some j) ∷ fs) x h =
    let parts = &&-true (not (str_eq n k)) (stands_at i n (names fs)) h in
    elim (Bool-cases (str_eq x k)) [
      | inl e ↦ rw (e, unequal n k x parts.0 e) refl
      | inr e ↦ rw e (document-set_at i n p fs x parts.1)
    ]

-- A method that sets the content at the place of its member, and panics when it is to, is faithful.
pub IsFaithful-set_at :
    {Self : Type 0} {fields : Self → Fields} (m : Builder fields) (i : ℕ)
    → ((b : Self) → stands_at i m.member (names (fields b)) ≡ true)
    → ((a : m.Arg) (b : Self)
        → fields (state (m.apply a b)) ≡ set_at i (m.effect a (content_at i (fields b))) (fields b))
    → ((a : m.Arg) (b : Self) → error_of (m.apply a b) ≡ m.error a)
    → IsFaithful m
IsFaithful-set_at {fields = fields} m i place edits errors = record {
  edits = λ a b. fun_ext (λ x.
      ap (λ fs. document fs x) (edits a b)
      ∙ document-set_at i m.member (m.effect a (content_at i (fields b))) (fields b) x (place b)
      ∙ ap (λ o. if str_eq x m.member then m.effect a o else document (fields b) x)
          (sym (document-content_at i m.member (fields b) (place b))));
  ends = errors;
}

-- No member is there.
abbrev pub is_unset : Fields → Bool
is_unset [] = true
is_unset ((k, none) ∷ fs) = is_unset fs
is_unset ((k, some j) ∷ fs) = false

pub document-is_unset : (fs : Fields) → is_unset fs ≡ true → (x : String) → document fs x ≡ none
document-is_unset [] h x = refl
document-is_unset ((k, none) ∷ fs) h x = ground (arith, document-is_unset fs h x)
document-is_unset ((k, some j) ∷ fs) h x = absurd (ground arith)

-- A type of configurations: what json.Marshal reads of one, the empty struct, and its builders.
pub record Configuration : Type 1 where
  pub Self : Type 0
  pub fields : Self → Fields
  pub empty : Self
  pub builders : List (Builder fields)

pub record IsSound (c : Configuration) : Type 1 where
  pub unset : is_unset (c.fields c.empty) ≡ true
  pub faithful : All IsFaithful c.builders
