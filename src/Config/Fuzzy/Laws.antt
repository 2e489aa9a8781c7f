-- ===== src/Config/Fuzzy/Laws.antt =====
-- What the alternative names lead to.
use edgi_os.Base.{
  Bytes, codes, Bool, true, false, ◌&&◌, List, [], ◌∷◌, some, ◌≡◌, ◌⊎◌, inl, inr, refl, All,
  Bool-cases, same, same_refl, length, ltb, if◌then◌else◌, ℕ, ◌<◌, ◌-◌, take, arith,
}
use mathlib.Core.Path.{subst}
use edgi_os.Base.Strings.{has_suffix, to_lower}
use edgi_os.Config.Fuzzy.{
  Names, find_name, add_name, add_field, add_fields, drop_suffix, modify_schema,
}

-- The text stands in the list.
abbrev pub Among : Bytes → List Bytes → Type 0
Among s [] = ⊥
Among s (t ∷ ts) = (s ≡ t) ⊎ Among s ts

-- The spelling leads somewhere.
abbrev pub IsKnown : Bytes → Names → Type 0
IsKnown k ns = (n : Bytes) × (find_name k ns ≡ some n)

IsKnown-if :
    (k : Bytes) (b : Bool) (ns ms : Names)
    → IsKnown k ns
    → IsKnown k ms
    → IsKnown k (if b then ns else ms)
IsKnown-if k true ns ms h g = h
IsKnown-if k false ns ms h g = g

IsKnown-push : (k j n : Bytes) (ns : Names) → IsKnown k ns → IsKnown k ((j, n) ∷ ns)
unfolding find_name
IsKnown-push k j n ns (m, e) = elim (Bool-cases (same j k)) [
  | inl s ↦ (n, rw s refl)
  | inr s ↦ (m, rw s e)
]

IsKnown-own : (k n : Bytes) (ns : Names) → IsKnown k ((k, n) ∷ ns)
unfolding find_name
IsKnown-own k n ns = (n, rw (same_refl k) refl)

module _ (to_yaml_key : Bytes → Bytes) where
  -- The key of YAML of a field in lower case and as it is, and its name in lower case.
  abbrev pub spellings : Bytes → List Bytes
  spellings name = to_lower (to_yaml_key name) ∷ to_yaml_key name ∷ to_lower name ∷ []

  Spells : Bytes → Bytes → Type 0
  Spells t k = (k ≡ to_lower (to_yaml_key t)) ⊎ ((k ≡ to_yaml_key t) ⊎ (k ≡ to_lower t))

  -- A field's name, or what is left of it without the `s` or the `es` at its end, if anything is.
  pub IsStem : Bytes → Bytes → Type 0
  IsStem f t =
      (t ≡ f)
      ⊎ (((has_suffix f (codes "s") ≡ true) × (1 < length f) × (t ≡ take (length f - 1) f))
          ⊎ ((has_suffix f (codes "es") ≡ true) × (2 < length f) × (t ≡ take (length f - 2) f)))

  -- A spelling of a stem of a field stands for that field; `password` and `pass` stand for `passphrase`.
  pub IsAlias : List Bytes → Bytes → Bytes → Type 0
  IsAlias fields k n =
      (Among n fields × ((t : Bytes) × IsStem n t × Spells t k))
      ⊎ ((n ≡ codes "passphrase") × ((k ≡ codes "password") ⊎ (k ≡ codes "pass")))

  abbrev pub Leads : List Bytes → Names → Type 0
  Leads fields = All (λ (k, n). IsAlias fields k n)

  add_name-Leads :
      (fields : List Bytes) (t n : Bytes) (ns : Names)
      → Among n fields
      → IsStem n t
      → Leads fields ns
      → Leads fields (add_name to_yaml_key t n ns)
  unfolding add_name IsAlias Spells
  add_name-Leads fields t n ns h stem hs = (
    inl (h, (t, stem, inl refl)),
    (inl (h, (t, stem, inr (inl refl))), (inl (h, (t, stem, inr (inr refl))), hs)),
  )

  add_name-IsKnown :
      (k name to_name : Bytes) (ns : Names)
      → IsKnown k ns
      → IsKnown k (add_name to_yaml_key name to_name ns)
  unfolding add_name
  add_name-IsKnown k name to_name ns h =
      IsKnown-push k _ to_name _ (IsKnown-push k _ to_name _ (IsKnown-push k _ to_name ns h))

  add_name-spellings :
      (name to_name : Bytes) (ns : Names)
      → All (λ k. IsKnown k (add_name to_yaml_key name to_name ns)) (spellings name)
  unfolding add_name
  add_name-spellings name to_name ns = (
    IsKnown-own _ to_name _,
    (
      IsKnown-push _ _ to_name _ (IsKnown-own _ to_name _),
      (IsKnown-push _ _ to_name _ (IsKnown-push _ _ to_name _ (IsKnown-own _ to_name _)), tt),
    ),
  )

  -- What is added under the test for an ending.
  add_suffix-Leads :
      (fields : List Bytes) (suffix n : Bytes) (i : ℕ) (ns : Names)
      → Among n fields
      → (has_suffix n suffix ≡ true → i < length n → IsStem n (drop_suffix to_yaml_key n i))
      → Leads fields ns
      → Leads fields (
          if has_suffix n suffix && ltb i (length n)
          then add_name to_yaml_key (drop_suffix to_yaml_key n i) n ns
          else ns)
  add_suffix-Leads fields suffix n i ns h stem hs =
      elim (Bool-cases (has_suffix n suffix && ltb i (length n))) [
        | inl e ↦ rw e (
            add_name-Leads fields (drop_suffix to_yaml_key n i) n ns h
              (stem (ground arith) (ground arith)) hs)
        | inr e ↦ rw e hs
      ]

  add_field-Leads :
      (fields : List Bytes) (name : Bytes) (ns : Names)
      → Among name fields
      → Leads fields ns
      → Leads fields (add_field to_yaml_key name ns)
  unfolding add_field IsStem
  add_field-Leads fields name ns h hs =
      let without_s =
        add_suffix-Leads fields (codes "s") name 1 ns h (λ e l. inr (inl (e, l, refl))) hs in
      add_name-Leads fields name name _ h (inl refl)
        (add_suffix-Leads fields (codes "es") name 2 _ h (λ e l. inr (inr (e, l, refl))) without_s)

  add_field-IsKnown :
      (k name : Bytes) (ns : Names) → IsKnown k ns → IsKnown k (add_field to_yaml_key name ns)
  unfolding add_field
  add_field-IsKnown k name ns h =
      let without_s =
        IsKnown-if k (has_suffix name (codes "s") && ltb 1 (length name)) _ ns
          (add_name-IsKnown k (drop_suffix to_yaml_key name 1) name ns h) h in
      add_name-IsKnown k name name _ (
        IsKnown-if k (has_suffix name (codes "es") && ltb 2 (length name)) _ _
          (add_name-IsKnown k (drop_suffix to_yaml_key name 2) name _ without_s) without_s)

  add_fields-Leads :
      (fields more : List Bytes) (ns : Names)
      → All (λ n. Among n fields) more
      → Leads fields ns
      → Leads fields (add_fields to_yaml_key more ns)
  unfolding add_fields
  add_fields-Leads fields [] ns h hs = hs
  add_fields-Leads fields (f ∷ more) ns (h, hs) k =
      add_fields-Leads fields more (add_field to_yaml_key f ns) hs (add_field-Leads fields f ns h k)

  add_fields-IsKnown :
      (k : Bytes) (more : List Bytes) (ns : Names)
      → IsKnown k ns
      → IsKnown k (add_fields to_yaml_key more ns)
  unfolding add_fields
  add_fields-IsKnown k [] ns h = h
  add_fields-IsKnown k (f ∷ more) ns h =
      add_fields-IsKnown k more (add_field to_yaml_key f ns) (add_field-IsKnown k f ns h)

  add_field-spellings :
      (name : Bytes) (ns : Names)
      → All (λ k. IsKnown k (add_field to_yaml_key name ns)) (spellings name)
  unfolding add_field
  add_field-spellings name ns = add_name-spellings name name _

  add_fields-spellings :
      (more : List Bytes) (ns : Names)
      → All (λ f. All (λ k. IsKnown k (add_fields to_yaml_key more ns)) (spellings f)) more
  unfolding add_fields
  add_fields-spellings [] ns = tt
  add_fields-spellings (f ∷ more) ns =
      let later = λ (k : Bytes) (h : IsKnown k (add_field to_yaml_key f ns)).
        add_fields-IsKnown k more (add_field to_yaml_key f ns) h in
      let (lower_key, (key, (lower, _))) = add_field-spellings f ns in
      (
        (later _ lower_key, (later _ key, (later _ lower, tt))),
        add_fields-spellings more (add_field to_yaml_key f ns),
      )

  All-Among :
      (fields more : List Bytes)
      → ((n : Bytes) → Among n more → Among n fields)
      → All (λ n. Among n fields) more
  All-Among fields [] h = tt
  All-Among fields (f ∷ more) h = (h f (inl refl), All-Among fields more (λ n a. h n (inr a)))

  spellings-push :
      (j n : Bytes) (ns : Names) (fields : List Bytes)
      → All (λ f. All (λ k. IsKnown k ns) (spellings f)) fields
      → All (λ f. All (λ k. IsKnown k ((j, n) ∷ ns)) (spellings f)) fields
  spellings-push j n ns [] h = tt
  spellings-push j n ns (f ∷ fs) ((a, (b, (c, _))), hs) = (
    (IsKnown-push _ j n ns a, (IsKnown-push _ j n ns b, (IsKnown-push _ j n ns c, tt))),
    spellings-push j n ns fs hs,
  )

  -- Where every entry is an alias, a spelling that leads somewhere is one.
  found-IsAlias :
      (fields : List Bytes) (k n : Bytes) (ns : Names)
      → Leads fields ns
      → find_name k ns ≡ some n
      → IsAlias fields k n
  unfolding find_name
  found-IsAlias fields k n [] hs e = cc
  found-IsAlias fields k n ((j, m) ∷ ns) (h, hs) e = elim (Bool-cases (same j k)) [
    | inl s ↦
        let own : j ≡ k = ground arith in
        let here : some m ≡ some n = rw s at e in
        subst (λ (x : Bytes). IsAlias fields x n) own (subst (IsAlias fields j) (ground arith) h)
    | inr s ↦ found-IsAlias fields k n ns hs (rw s at e)
  ]

  -- The spelling leads to a field that it is an alias of.
  pub IsResolved : List Bytes → Bytes → Names → Type 0
  IsResolved fields k ns = (n : Bytes) × (find_name k ns ≡ some n) × IsAlias fields k n

  known-IsResolved :
      (fields : List Bytes) (k : Bytes) (ns : Names)
      → Leads fields ns
      → IsKnown k ns
      → IsResolved fields k ns
  unfolding IsResolved
  known-IsResolved fields k ns hs (n, e) = (n, e, found-IsAlias fields k n ns hs e)

  All-IsResolved :
      (fields more : List Bytes) (ns : Names)
      → Leads fields ns
      → All (λ f. All (λ k. IsKnown k ns) (spellings f)) more
      → All (λ f. All (λ k. IsResolved fields k ns) (spellings f)) more
  All-IsResolved fields [] ns hs h = tt
  All-IsResolved fields (f ∷ fs) ns hs ((a, (b, (c, _))), h) = (
    (
      known-IsResolved fields _ ns hs a,
      (known-IsResolved fields _ ns hs b, (known-IsResolved fields _ ns hs c, tt)),
    ),
    All-IsResolved fields fs ns hs h,
  )

  modify_schema-Leads : (fields : List Bytes) → Leads fields (modify_schema to_yaml_key fields)
  unfolding modify_schema IsAlias
  modify_schema-Leads fields = (
    inr (refl, inl refl),
    (
      inr (refl, inr refl),
      add_fields-Leads fields fields [] (All-Among fields fields (λ n a. a)) tt,
    ),
  )

  modify_schema-IsKnown :
      (fields : List Bytes)
      → All (λ f. All (λ k. IsKnown k (modify_schema to_yaml_key fields)) (spellings f)) fields
  unfolding modify_schema
  modify_schema-IsKnown fields =
      spellings-push _ _ _ fields (spellings-push _ _ _ fields (add_fields-spellings fields []))

  -- The key of YAML of each field, in lower case too, and its name in lower case lead somewhere; and
  -- every spelling leads only to a field of the schema that it spells, with or without the `s` or the
  -- `es` at its end, but for `password` and `pass`, which may lead to `passphrase`.
  pub modify_schema-names :
      (fields : List Bytes)
      → All
          (λ f. All (λ k. IsResolved fields k (modify_schema to_yaml_key fields)) (spellings f))
          fields
        × Leads fields (modify_schema to_yaml_key fields)
  modify_schema-names fields = (
    All-IsResolved fields fields (modify_schema to_yaml_key fields) (modify_schema-Leads fields)
        (modify_schema-IsKnown fields),
    modify_schema-Leads fields,
  )
