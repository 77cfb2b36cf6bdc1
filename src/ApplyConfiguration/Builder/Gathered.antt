-- ===== src/ApplyConfiguration/Builder/Gathered.antt =====
-- Several calls that append to the same member.
use agentic_platform.Prelude.{
  ◌≡◌, refl, ap, sym, ◌∙◌, String, Option, none, some, List, [], ◌∷◌, All, str_eq, str_eq_iff,
  Bool-cases, inl, inr, if◌then◌else◌,
}
use agentic_platform.ApplyConfiguration.Json.{
  Json, null, boolean, number, text, array, object, dictionary, Items, no_items, item, Fields,
}
use agentic_platform.ApplyConfiguration.Builder.{Document, update, state, Builder}
use agentic_platform.ApplyConfiguration.Builder.Kinds.{append_items, extend}
use agentic_platform.ApplyConfiguration.Builder.Chain.{Call, member_of, effect_of, panic_of, edit}

append_items-no_items : (is : Items) → append_items is no_items ≡ is
append_items-no_items no_items = refl
append_items-no_items (item j is) = ap (item j) (append_items-no_items is)

append_items_assoc :
    (is js ks : Items) → append_items (append_items is js) ks ≡ append_items is (append_items js ks)
append_items_assoc no_items js ks = refl
append_items_assoc (item i is) js ks = ap (item i) (append_items_assoc is js ks)

extend-array : (js is : Items) → extend js (some (array is)) ≡ some (array (append_items is js))
extend-array no_items is = ap (λ x. some (array x)) (sym (append_items-no_items is))
extend-array (item j js) is = refl

extend-extend :
    (js ks : Items) (old : Option Json)
    → extend ks (extend js old) ≡ extend (append_items js ks) old
extend-extend no_items ks old = refl
extend-extend (item j js) ks none = extend-array ks (item j js)
extend-extend (item j js) ks (some (array is)) =
    extend-array ks (append_items is (item j js))
    ∙ ap (λ x. some (array x)) (append_items_assoc is (item j js) ks)
extend-extend (item j js) no_items (some null) = refl
extend-extend (item j js) (item k ks) (some null) = refl
extend-extend (item j js) no_items (some (boolean b)) = refl
extend-extend (item j js) (item k ks) (some (boolean b)) = refl
extend-extend (item j js) no_items (some (number n)) = refl
extend-extend (item j js) (item k ks) (some (number n)) = refl
extend-extend (item j js) no_items (some (text s)) = refl
extend-extend (item j js) (item k ks) (some (text s)) = refl
extend-extend (item j js) no_items (some (object ms)) = refl
extend-extend (item j js) (item k ks) (some (object ms)) = refl
extend-extend (item j js) no_items (some (dictionary f)) = refl
extend-extend (item j js) (item k ks) (some (dictionary f)) = refl

module _ {Self : Type 0} {fields : Self → Fields} {ms : List (Builder fields)}
    (items : Call ms → Items) (n : String) where
  -- What the calls about the member append to it, one after the other.
  abbrev pub gathered : List (Call ms) → Items
  gathered [] = no_items
  gathered (c ∷ cs) =
      append_items (if str_eq n (member_of c) then items c else no_items) (gathered cs)

  -- The call appends these items if it is about the member.
  abbrev pub Appends : Call ms → Type 0
  Appends c = member_of c ≡ n → (old : Option Json) → effect_of c old ≡ extend (items c) old

  update-extend :
      (c : Call ms) (d : Document)
      → Appends c
      → update (member_of c) (effect_of c) d n
        ≡ extend (if str_eq n (member_of c) then items c else no_items) (d n)
  update-extend c d h = elim (Bool-cases (str_eq n (member_of c))) [
    | inl same ↦
        let equal = sym ((str_eq_iff n (member_of c)).0 same) in
        rw same (ap (λ m. effect_of c (d m)) equal ∙ h equal (d n))
    | inr other ↦ rw other refl
  ]

  pub edit-gathered :
      (cs : List (Call ms)) (d : Document)
      → All (λ c. panic_of c ≡ none) cs
      → All Appends cs
      → state (edit cs d) n ≡ extend (gathered cs) (d n)
  edit-gathered [] d quiet h = refl
  edit-gathered (c ∷ cs) d quiet h = rw quiet.0 (
      edit-gathered cs (update (member_of c) (effect_of c) d) quiet.1 h.1
      ∙ ap (extend (gathered cs)) (update-extend c d h.0)
      ∙ extend-extend _ (gathered cs) (d n))
