-- ===== src/Memory/Copies.antt =====
-- What a deep copy has to be: the specification of every `DeepCopyInto` and `DeepCopy`.
use agentic_platform.Prelude.{
  ℕ, suc, ◌<◌, ◌≤◌, ◌≡◌, ◌≢◌, refl, none, some, List, [], ◌∷◌, ◌++◌, All, arith,
}
use agentic_platform.Memory.{
  Alloc, pure, Located, flat, list_located, pointer, slice, copy_each, copy_pointer, copy_slice,
}
use agentic_platform.Memory.Fresh.{Fresh, Fresh-append, Fresh-All}

-- A copy `r.0` of `a`, made when the addresses from `n` on were free and those from `r.1` on are
-- left: it reads as `a` does, and every address in it was allocated by the copying, no one twice.
pub record CopyOf {A : Type 0} (l : Located A) (a : A) (n : ℕ) (r : A × ℕ) : Type 0 where
  pub same : l.plain r.0 ≡ l.plain a
  pub fresh : Fresh n (l.locs r.0) r.1

abbrev pub IsDeepCopy : {A : Type 0} → Located A → (A → Alloc A) → Type 0
IsDeepCopy l f = (a : _) (n : ℕ) → CopyOf l a n (f a n)

pub pure-IsDeepCopy : {A : Type 0} → IsDeepCopy {A = A} flat pure
pure-IsDeepCopy a n = record { same = refl; fresh = omega arith }

module _ {A : Type 0} (l : Located A) (f : A → Alloc A) (h : IsDeepCopy l f) where
  pub copy_each-IsDeepCopy : IsDeepCopy (list_located l) (copy_each f)
  unfolding copy_each
  copy_each-IsDeepCopy [] n = record { same = refl; fresh = omega arith }
  copy_each-IsDeepCopy (x ∷ xs) n = record {
    same = rw ((h x n).same, (copy_each-IsDeepCopy xs (f x n).1).same) refl;
    fresh = Fresh-append n _ (f x n).1 _ _ (h x n).fresh (copy_each-IsDeepCopy xs (f x n).1).fresh;
  }

  pub copy_pointer-IsDeepCopy : IsDeepCopy (pointer l) (copy_pointer f)
  unfolding copy_pointer
  copy_pointer-IsDeepCopy none n = record { same = refl; fresh = omega arith }
  copy_pointer-IsDeepCopy (some r) n = record {
    same = rw (h r.content (suc n)).same refl;
    fresh = (omega arith, (h r.content (suc n)).fresh);
  }

pub copy_slice-IsDeepCopy :
    {A : Type 0} (l : Located A) (f : A → Alloc A)
    → IsDeepCopy l f
    → IsDeepCopy (slice l) (copy_slice f)
unfolding copy_slice
copy_slice-IsDeepCopy l f h =
    copy_pointer-IsDeepCopy (list_located l) (copy_each f) (copy_each-IsDeepCopy l f h)

-- No address of `xs` stands in `ys`.
abbrev pub Apart : List ℕ → List ℕ → Type 0
Apart xs ys = All (λ x. All (λ y. x ≢ y) ys) xs

All-ne : (x n : ℕ) (ys : List ℕ) → n ≤ x → All (λ y. y < n) ys → All (λ y. x ≢ y) ys
All-ne x n [] h k = tt
All-ne x n (y ∷ ys) h k = (omega arith, All-ne x n ys h k.1)

Apart-of_bounds : (n : ℕ) (xs ys : List ℕ) → All (λ x. n ≤ x) xs → All (λ y. y < n) ys → Apart xs ys
Apart-of_bounds n [] ys h k = tt
Apart-of_bounds n (x ∷ xs) ys h k = (All-ne x n ys h.0 k, Apart-of_bounds n xs ys h.1 k)

-- A deep copy shares no storage with what was in use before.
pub CopyOf-Apart :
    {A : Type 0} (l : Located A) (a : A) (n : ℕ) (r : A × ℕ) (ys : List ℕ)
    → CopyOf l a n r
    → All (λ y. y < n) ys
    → Apart (l.locs r.0) ys
CopyOf-Apart l a n r ys c k =
    Apart-of_bounds n (l.locs r.0) ys (Fresh-All n n _ r.1 (omega arith) c.fresh) k

-- The storage of a field, followed by that of the fields that are copied after it.
pub CopyOf-append :
    {A : Type 0} {l : Located A} {a : A} {n : ℕ} {r : A × ℕ}
    → CopyOf l a n r
    → (ys : List ℕ) (p : ℕ) → Fresh r.1 ys p
    → Fresh n (l.locs r.0 ++ ys) p
CopyOf-append {l = l} {n = n} {r = r} c ys p g = Fresh-append n (l.locs r.0) r.1 ys p c.fresh g

-- All storage of a value lies below `n`.
abbrev pub Below : {A : Type 0} → Located A → ℕ → A → Type 0
Below l n x = All (λ a. a < n) (l.locs x)

-- `y` reads as `x` does and shares no storage with it.
abbrev pub Isolated : {A : Type 0} → Located A → A → A → Type 0
Isolated l x y = (l.plain y ≡ l.plain x) × Apart (l.locs y) (l.locs x)

pub IsDeepCopy-Isolated :
    {A : Type 0} (l : Located A) (f : A → Alloc A) (x : A) (n : ℕ)
    → IsDeepCopy l f
    → Below l n x
    → Isolated l x (f x n).0
IsDeepCopy-Isolated l f x n h b = ((h x n).same, CopyOf-Apart l x n (f x n) (l.locs x) (h x n) b)
