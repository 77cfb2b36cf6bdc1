-- ===== src/Memory.antt =====
-- Go's shared storage, as far as a deep copy is concerned. A pointer or the backing array of a
-- slice is a `Ref`: the address of the storage and what is stored there. A value is the whole tree
-- that can be reached from it, so two values share storage where the same address stands in both.
-- Strings are immutable in Go and have no address here.
pub mod Fresh
pub mod Copies
use agentic_platform.Prelude.{ℕ, suc, Option, none, some, List, [], ◌∷◌, ◌++◌}

pub record Ref (A : Type 0) : Type 0 where
  pub addr : ℕ
  pub content : A

-- `*T`; `none` is nil.
abbrev pub Pointer : Type 0 → Type 0
Pointer A = Option (Ref A)

-- `[]T`; `none` is the nil slice, which differs from an empty one.
abbrev pub Slice : Type 0 → Type 0
Slice A = Option (Ref (List A))

-- Code that allocates: the argument is the first address not yet in use.
abbrev pub Alloc : Type 0 → Type 0
Alloc A = ℕ → A × ℕ

infixl 5 ◌>>=◌
abbrev pub ◌>>=◌ : {A B : Type 0} → Alloc A → (A → Alloc B) → Alloc B
◌>>=◌ m f n = let (a, k) = m n in f a k

abbrev pub pure : {A : Type 0} → A → Alloc A
pure a n = (a, n)

-- `new` and `make`: the address of storage that nothing else uses.
abbrev pub allocate : Alloc ℕ
allocate n = (n, suc n)

-- How a type holds storage: the addresses in a value, in the order of its fields, and the value
-- with every address replaced by 0, which is what can be read without comparing pointers.
pub record Located (A : Type 0) : Type 0 where
  pub locs : A → List ℕ
  pub plain : A → A

-- A type without pointers and slices.
abbrev pub flat : {A : Type 0} → Located A
flat = record { locs = λ _. []; plain = λ a. a }

module _ {A : Type 0} (l : Located A) where
  abbrev pub list_locs : List A → List ℕ
  list_locs [] = []
  list_locs (x ∷ xs) = l.locs x ++ list_locs xs

  abbrev pub list_plain : List A → List A
  list_plain [] = []
  list_plain (x ∷ xs) = l.plain x ∷ list_plain xs

  abbrev pub list_located : Located (List A)
  list_located = record { locs = list_locs; plain = list_plain }

module _ {A : Type 0} (l : Located A) where
  abbrev pub ref_locs : Option (Ref A) → List ℕ
  ref_locs none = []
  ref_locs (some r) = r.addr ∷ l.locs r.content

  abbrev pub ref_plain : Option (Ref A) → Option (Ref A)
  ref_plain none = none
  ref_plain (some r) = some (record { addr = 0; content = l.plain r.content })

  abbrev pub pointer : Located (Option (Ref A))
  pointer = record { locs = ref_locs; plain = ref_plain }

abbrev pub slice : {A : Type 0} → Located A → Located (Option (Ref (List A)))
slice l = pointer (list_located l)

-- `for i := range *in { (*in)[i].DeepCopyInto(&(*out)[i]) }`
pub copy_each : {A : Type 0} → (A → Alloc A) → List A → Alloc (List A)
copy_each f [] = pure []
copy_each f (x ∷ xs) = do y ← f x; ys ← copy_each f xs; pure (y ∷ ys)

-- `if in != nil { out := new(T); in.DeepCopyInto(out) }`, and nil for nil.
pub copy_pointer : {A : Type 0} → (A → Alloc A) → Option (Ref A) → Alloc (Option (Ref A))
copy_pointer f none = pure none
copy_pointer f (some r) = do
  a ← allocate
  c ← f r.content
  pure (some (record { addr = a; content = c }))

-- `if in != nil { *out = make([]T, len(*in)); for … }`; with `pure` for `f`, `copy(*out, *in)`.
pub copy_slice : {A : Type 0} → (A → Alloc A) → Slice A → Alloc (Slice A)
copy_slice f = copy_pointer (copy_each f)
