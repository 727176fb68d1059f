-- ===== src/Prelude/Dict.antt =====
-- Python's `dict` with string keys: an association list in insertion order. Writing to a key that
-- is there keeps its place.
use context_agent.Prelude.{
  ◌∙◌, subst, eq_of_some, All, String, ◌+◌, ◌≤◌, ◌≡◌, refl, sym, ap, ◌++◌, Option, none, some, Bool,
  true, false, List, [], ◌∷◌, arith, ◌==◌, eq_iff, if◌then◌else◌, length, In, contains, Bool-cases,
  inl, inr,
}

abbrev pub Dict {ℓ} : Type ℓ → Type ℓ
Dict V = List (String × V)

module _ {ℓ} {V : Type ℓ} where
  -- `d.get(k)`
  unfoldable pub get : Dict V → String → Option V
  get [] k = none
  get ((j, v) ∷ d) k = if j == k then some v else get d k

  -- `d[k] = v`
  unfoldable pub put : Dict V → String → V → Dict V
  put [] k v = (k, v) ∷ []
  put ((j, w) ∷ d) k v = if j == k then (j, v) ∷ d else (j, w) ∷ put d k v

  -- `d.pop(k, None)`
  unfoldable pub remove : Dict V → String → Dict V
  remove [] k = []
  remove ((j, w) ∷ d) k = if j == k then d else (j, w) ∷ remove d k

  -- `d.keys()`
  unfoldable pub keys : Dict V → List String
  keys [] = []
  keys ((j, v) ∷ d) = j ∷ keys d

  -- `d.values()`
  unfoldable pub values : Dict V → List V
  values [] = []
  values ((j, v) ∷ d) = v ∷ values d

  -- `{k: f(v) for k, v in d.items()}`
  unfoldable pub map_values : (V → V) → Dict V → Dict V
  map_values f [] = []
  map_values f ((j, v) ∷ d) = (j, f v) ∷ map_values f d

  -- `d.get(k, [])`
  unfoldable pub get_or : Dict V → String → V → V
  get_or [] k default = default
  get_or ((j, v) ∷ d) k default = if j == k then v else get_or d k default

  -- `k in d`
  unfoldable pub has : Dict V → String → Bool
  unfolding get
  has d k = elim (get d k) [ none ↦ false | some v ↦ true ]

  -- The keys of a dict are distinct: the association list is one that Python could build.
  abbrev pub Absent : String → Dict V → Type 0
  Absent k [] = Unit
  Absent k ((j, v) ∷ d) = ((j == k) ≡ false) × Absent k d

  abbrev pub Distinct : Dict V → Type 0
  Distinct [] = Unit
  Distinct ((j, v) ∷ d) = Absent j d × Distinct d

  pub get-put :
      (d : Dict V) (key other : String) (v : V)
      → get (put d key v) other ≡ (if key == other then some v else get d other)
  unfolding get put
  get-put [] key other v = refl
  get-put ((i, w) ∷ d) key other v =
      ground (arith, eq_iff key other, eq_iff i key, eq_iff i other, get-put d key other v)

  pub get_or-put :
      (d : Dict V) (k j : String) (v w : V)
      → get_or (put d k v) j w ≡ (if k == j then v else get_or d j w)
  unfolding get_or put
  get_or-put [] k j v w = refl
  get_or-put ((i, u) ∷ d) k j v w =
      ground (arith, eq_iff k j, eq_iff i k, eq_iff i j, get_or-put d k j v w)

  pub get_or-map_values :
      (f : V → V) (d : Dict V) (k : String) (w : V)
      → f w ≡ w
      → get_or (map_values f d) k w ≡ f (get_or d k w)
  unfolding get_or map_values
  get_or-map_values f [] k w h = sym h
  get_or-map_values f ((j, v) ∷ d) k w h = ground (arith, get_or-map_values f d k w h)

  pub get_of_Absent : (d : Dict V) (k : String) → Absent k d → get d k ≡ none
  unfolding get
  get_of_Absent [] k h = refl
  get_of_Absent ((j, v) ∷ d) k h = rw (h.0) (get_of_Absent d k h.1)

  pub get-remove :
      (d : Dict V) (key other : String)
      → Distinct d
      → get (remove d key) other ≡ (if key == other then none else get d other)
  unfolding get remove
  get-remove [] key other h = ground arith
  get-remove ((i, w) ∷ d) key other h = ground (
    arith,
    eq_iff key other,
    eq_iff i key,
    eq_iff i other,
    get-remove d key other h.1,
    get_of_Absent d other,
    get_of_Absent d i,
  )

  Absent-put :
      (d : Dict V) (i k : String) (v : V) → Absent i d → (k == i) ≡ false → Absent i (put d k v)
  unfolding put
  Absent-put [] i k v h n = (n, tt)
  Absent-put ((j, w) ∷ d) i k v h n = elim (Bool-cases (j == k)) [
    | inl q ↦ rw q h
    | inr q ↦ rw q (h.0, Absent-put d i k v h.1 n)
  ]

  pub put-Distinct : (d : Dict V) (k : String) (v : V) → Distinct d → Distinct (put d k v)
  unfolding put
  put-Distinct [] k v h = (tt, tt)
  put-Distinct ((j, w) ∷ d) k v h = elim (Bool-cases (j == k)) [
    | inl q ↦ rw q h
    | inr q ↦
        rw q
          (Absent-put d j k v h.0 (ground (arith, eq_iff j k, eq_iff k j)), put-Distinct d k v h.1)
  ]

  Absent-remove : (d : Dict V) (i k : String) → Absent i d → Absent i (remove d k)
  unfolding remove
  Absent-remove [] i k h = tt
  Absent-remove ((j, w) ∷ d) i k h = elim (Bool-cases (j == k)) [
    | inl q ↦ rw q h.1
    | inr q ↦ rw q (h.0, Absent-remove d i k h.1)
  ]

  pub remove-Distinct : (d : Dict V) (k : String) → Distinct d → Distinct (remove d k)
  unfolding remove
  remove-Distinct [] k h = tt
  remove-Distinct ((j, w) ∷ d) k h = elim (Bool-cases (j == k)) [
    | inl q ↦ rw q h.1
    | inr q ↦ rw q (Absent-remove d j k h.0, remove-Distinct d k h.1)
  ]

  pub contains-keys : (d : Dict V) (k : String) → contains (keys d) k ≡ has d k
  unfolding keys has
  contains-keys [] k = refl
  contains-keys ((j, v) ∷ d) k = ground (arith, contains-keys d k, eq_iff j k, eq_iff k j)

  pub get_of_has : (d : Dict V) (k : String) → has d k ≡ true → (v : V) × (get d k ≡ some v)
  unfolding has
  get_of_has d k h = ground arith

  pub has_of_get : (d : Dict V) (k : String) (v : V) → get d k ≡ some v → has d k ≡ true
  unfolding has
  has_of_get d k v h = ground arith

  -- A write adds at most one entry.
  pub length-put-le : (d : Dict V) (k : String) (v : V) → length (put d k v) ≤ length d + 1
  unfolding put
  length-put-le [] k v = omega arith
  length-put-le ((j, w) ∷ d) k v = ground (arith, length-put-le d k v)

  pub length-put-has :
      (d : Dict V) (k : String) (v : V) → has d k ≡ true → length (put d k v) ≡ length d
  unfolding put has
  length-put-has [] k v h = cc
  length-put-has ((j, w) ∷ d) k v h = ground (arith, length-put-has d k v)

  pub put_of_not-has :
      (d : Dict V) (k : String) (v : V) → has d k ≡ false → put d k v ≡ d ++ (k, v) ∷ []
  unfolding put has
  put_of_not-has [] k v h = refl
  put_of_not-has ((j, w) ∷ d) k v h = ground (arith, put_of_not-has d k v)

  pub keys-append : (d e : Dict V) → keys (d ++ e) ≡ keys d ++ keys e
  unfolding keys
  keys-append [] e = refl
  keys-append ((j, w) ∷ d) e = ap (◌∷◌ j) (keys-append d e)

  pub length-remove-le : (d : Dict V) (k : String) → length (remove d k) ≤ length d
  unfolding remove
  length-remove-le [] k = omega arith
  length-remove-le ((j, w) ∷ d) k = ground (arith, length-remove-le d k)

  pub length-remove :
      (d : Dict V) (k : String) (v : V) → get d k ≡ some v → length (remove d k) + 1 ≡ length d
  unfolding get remove
  length-remove [] k v h = cc
  length-remove ((j, w) ∷ d) k v h = ground (arith, length-remove d k v)

  pub get_or-none : (d : Dict V) (k : String) (v : V) → get d k ≡ none → get_or d k v ≡ v
  unfolding get get_or
  get_or-none [] k v h = refl
  get_or-none ((j, w) ∷ d) k v h = ground (arith, get_or-none d k v)

  pub get_or-some : (d : Dict V) (k : String) (v w : V) → get d k ≡ some w → get_or d k v ≡ w
  unfolding get get_or
  get_or-some [] k v w h = cc
  get_or-some ((j, x) ∷ d) k v w h = ground (arith, get_or-some d k v w)

  pub has-put : (d : Dict V) (k j : String) (v : V) → has d j ≡ true → has (put d k v) j ≡ true
  unfolding has
  has-put d k j v h = ground (arith, get-put d k j v)

  pub has-put_self : (d : Dict V) (k : String) (v : V) → has (put d k v) k ≡ true
  unfolding has
  has-put_self d k v = ground (arith, get-put d k k v, eq_iff k k)

-- What a write does to the keys.
add_key : List String → String → List String
add_key [] k = k ∷ []
add_key (j ∷ l) k = if j == k then j ∷ l else j ∷ add_key l k

keys-put {ℓ} :
    {V : Type ℓ} (d : Dict V) (k : String) (v : V) → keys (put d k v) ≡ add_key (keys d) k
unfolding keys put add_key
keys-put [] k v = refl
keys-put ((j, w) ∷ d) k v = ground (arith, keys-put d k v)

pub keys-put-eq {ℓ κ} :
    {V : Type ℓ} {W : Type κ} (d : Dict V) (e : Dict W) (k : String) (v : V) (w : W)
    → keys d ≡ keys e
    → keys (put d k v) ≡ keys (put e k w)
keys-put-eq d e k v w h = keys-put d k v ∙ ap (λ l. add_key l k) h ∙ sym (keys-put e k w)

module _ {V : Type 0} where
  -- What holds of all entries, and of the one written, holds after the write.
  pub All-put :
      (P : String × V → Type 0) (d : Dict V) (k : String) (v : V)
      → All P d
      → P (k, v)
      → All P (put d k v)
  unfolding put
  All-put P [] k v h p = (p, tt)
  All-put P ((j, w) ∷ d) k v h p = elim (Bool-cases (j == k)) [
    | inl q ↦ rw q (subst (λ i. P (i, v)) (sym ((eq_iff j k).0 q)) p, h.1)
    | inr q ↦ rw q (h.0, All-put P d k v h.1 p)
  ]

  pub All-get :
      (P : String × V → Type 0) (d : Dict V) (k : String) (v : V)
      → All P d
      → get d k ≡ some v
      → P (k, v)
  unfolding get
  All-get P [] k v h e = cc
  All-get P ((j, w) ∷ d) k v h e = elim (Bool-cases (j == k)) [
    | inl q ↦
        subst P
          (ap (λ i. (i, w)) ((eq_iff j k).0 q)
            ∙ ap (λ x. (k, x)) (eq_of_some (ap (λ c. if c then some w else get d k) (sym q) ∙ e)))
          h.0
    | inr q ↦ All-get P d k v h.1 (ap (λ c. if c then some w else get d k) (sym q) ∙ e)
  ]

  -- A value of a dict stands under some key.
  pub get_of_In :
      (d : Dict V) (v : V) → In v (values d) → Distinct d → (k : String) × (get d k ≡ some v)
  unfolding get values
  get_of_In [] v m h = absurd m
  get_of_In ((j, w) ∷ d) v (inl e) h = (j, ground (arith, eq_iff j j))
  get_of_In ((j, w) ∷ d) v (inr m) h =
      let (k, found) = get_of_In d v m h.1 in (k, ground (arith, eq_iff j k, get_of_Absent d j h.0))

  pub In-get : (d : Dict V) (k : String) (v : V) → get d k ≡ some v → In v (values d)
  unfolding get values
  In-get [] k v e = cc
  In-get ((j, w) ∷ d) k v e = elim (Bool-cases (j == k)) [
    | inl q ↦ inl (ground arith)
    | inr q ↦ inr (In-get d k v (ground arith))
  ]

pub ruleset dict_laws = (get-put, get-remove)
