-- ===== src/Jit/Pruning.antt =====
-- What pruning the cache does.
use context_agent.Prelude.{
  ℕ, suc, ◌+◌, ◌-◌, ◌≤◌, String, ◌≡◌, ◌≢◌, ◌↔◌, refl, sym, ap, ◌∙◌, subst, none, some, true, false,
  List, [], ◌∷◌, arith, ◌==◌, eq_iff, if◌then◌else◌, length, contains, contains_iff, All, All-of,
  All-take, All→, Pairwise, Pairwise-take, Bool-cases, inl, inr, length-take,
}
use context_agent.Prelude.Dict.{
  Dict, get, remove, keys, has, Distinct, get-remove, remove-Distinct, length-remove,
  length-remove-le, get_of_has, has_of_get, contains-keys, Absent,
}
use context_agent.Prelude.Sort.{sort_desc, length-sort_desc, All-sort_desc, Pairwise-sort_desc}
use context_agent.Jit.Cache.{
  CacheEntry, is_expired, expired_keys, pop_all, younger, oldest_keys, prune,
}

abbrev pub Cached : Type 0 → Type 0
Cached A = Dict (CacheEntry A)

module _ {A : Type 0} where
  pop_all-Distinct : (d : Cached A) (ks : List String) → Distinct d → Distinct (pop_all d ks)
  unfolding pop_all
  pop_all-Distinct d [] h = h
  pop_all-Distinct d (k ∷ ks) h = pop_all-Distinct (remove d k) ks (remove-Distinct d k h)

  pub get-pop_all :
      (d : Cached A) (ks : List String) (j : String)
      → Distinct d
      → get (pop_all d ks) j ≡ (if contains ks j then none else get d j)
  unfolding pop_all
  get-pop_all d [] j h = refl
  get-pop_all d (k ∷ ks) j h = ground (
    arith,
    get-pop_all (remove d k) ks j (remove-Distinct d k h),
    get-remove d k j h,
    eq_iff k j,
    eq_iff j k,
  )

  get-pop_all-some :
      (d : Cached A) (ks : List String) (j : String) (e : CacheEntry A)
      → Distinct d
      → get (pop_all d ks) j ≡ some e
      → (get d j ≡ some e) × (contains ks j ≡ false)
  get-pop_all-some d ks j e h q = ground (arith, get-pop_all d ks j h)

  -- Popping distinct keys that are there takes away one entry each.
  length-pop_all :
      (d : Cached A) (ks : List String)
      → Distinct d
      → All (λ k. has d k ≡ true) ks
      → Pairwise (λ a b. a ≢ b) ks
      → length (pop_all d ks) + length ks ≡ length d
  unfolding pop_all
  length-pop_all d [] h a p = omega arith
  length-pop_all d (k ∷ ks) h a p =
      let (v, e) = get_of_has d k a.0 in
      omega (
        arith,
        length-remove d k v e,
        length-pop_all (remove d k) ks (remove-Distinct d k h)
            (All-of (λ j. has (remove d k) j ≡ true) ks
              (λ j m. still j (All→ _ j ks p.0 m) (All→ _ j ks a.1 m)))
            p.1,
      )
    where
      still : (j : String) → k ≢ j → has d j ≡ true → has (remove d k) j ≡ true
      still j n q =
          let (w, f) = get_of_has d j q in
          has_of_get (remove d k) j w (ground (arith, get-remove d k j h, eq_iff k j))

  length-pop_all-le : (d : Cached A) (ks : List String) → length (pop_all d ks) ≤ length d
  unfolding pop_all
  length-pop_all-le d [] = omega arith
  length-pop_all-le d (k ∷ ks) =
      omega (arith, length-remove-le d k, length-pop_all-le (remove d k) ks)

  keys-Pairwise : (d : Cached A) → Distinct d → Pairwise (λ a b. a ≢ b) (keys d)
  unfolding keys
  keys-Pairwise [] h = tt
  keys-Pairwise ((k, e) ∷ d) h = (apart d h.0, keys-Pairwise d h.1)
    where
      apart : (d : Cached A) → Absent k d → All (λ j. k ≢ j) (keys d)
      apart [] a = tt
      apart ((j, w) ∷ d) a = ((λ s. cc (a.0, (eq_iff j k).1 (sym s))), apart d a.1)

  keys-has : (d : Cached A) → All (λ k. has d k ≡ true) (keys d)
  keys-has d = All-of _ (keys d) (λ k m. sym (contains-keys d k) ∙ (contains_iff (keys d) k).1 m)

  expired_keys_of_Absent :
      (d : Cached A) (now : ℕ) (k : String) → Absent k d → contains (expired_keys d now) k ≡ false
  unfolding expired_keys
  expired_keys_of_Absent [] now k h = refl
  expired_keys_of_Absent ((j, w) ∷ d) now k h =
      ground (arith, expired_keys_of_Absent d now k h.1, eq_iff j k, eq_iff k j)

  pub expired_keys-contains :
      (d : Cached A) (now : ℕ) (k : String) (e : CacheEntry A)
      → Distinct d
      → get d k ≡ some e
      → contains (expired_keys d now) k ≡ is_expired e now
  unfolding expired_keys get
  expired_keys-contains [] now k e h q = cc
  expired_keys-contains ((j, w) ∷ d) now k e h q = elim (Bool-cases (j == k)) [
    | inl s ↦
        let same : w ≡ e = ground arith in
        subst
          (λ x.
            contains (if is_expired w now then j ∷ expired_keys d now else expired_keys d now) k
            ≡ is_expired x now)
          same (here ((eq_iff j k).0 s))
    | inr n ↦ ground (arith, expired_keys-contains d now k e h.1, eq_iff k j, eq_iff j k)
  ]
    where
      here :
          j ≡ k
          → contains (if is_expired w now then j ∷ expired_keys d now else expired_keys d now) k
            ≡ is_expired w now
      here s = ground (
        arith,
        expired_keys_of_Absent d now j h.0,
        eq_iff k j,
        ap (contains (expired_keys d now)) s,
      )

  -- Dropping the expired entries: the first half of `prune`.
  abbrev pub live : Cached A → ℕ → Cached A
  live d now = pop_all d (expired_keys d now)

  -- After it the entries are those that have not expired.
  pub get-live :
      (d : Cached A) (now : ℕ) (k : String) (e : CacheEntry A)
      → Distinct d
      → (get (live d now) k ≡ some e) ↔ ((get d k ≡ some e) × (is_expired e now ≡ false))
  get-live d now k e h = (
    λ q.
        let (found, kept) = get-pop_all-some d (expired_keys d now) k e h q in
        (found, sym (expired_keys-contains d now k e h found) ∙ kept),
    λ (q, n).
        get-pop_all d (expired_keys d now) k h ∙ rw (expired_keys-contains d now k e h q, n) q,
  )

  oldest_keys-has : (d : Cached A) (n : ℕ) → All (λ k. has d k ≡ true) (oldest_keys d n)
  unfolding oldest_keys
  oldest_keys-has d n = All-take _ n _ (All-sort_desc (younger d) _ (keys d) (keys-has d))

  oldest_keys-Pairwise :
      (d : Cached A) (n : ℕ) → Distinct d → Pairwise (λ a b. a ≢ b) (oldest_keys d n)
  unfolding oldest_keys
  oldest_keys-Pairwise d n h = Pairwise-take _ n _ (
      Pairwise-sort_desc (younger d) (λ a b. a ≢ b) (λ a b n e. n (sym e)) (keys d)
        (keys-Pairwise d h))

  pub length-keys : (d : Cached A) → length (keys d) ≡ length d
  unfolding keys
  length-keys [] = refl
  length-keys ((k, e) ∷ d) = ap suc (length-keys d)

  length-oldest_keys : (d : Cached A) (n : ℕ) → n ≤ length d → length (oldest_keys d n) ≡ n
  unfolding oldest_keys
  length-oldest_keys d n h = omega (
    arith,
    length-take n (sort_desc (younger d) (keys d)),
    length-sort_desc (younger d) (keys d),
    length-keys d,
  )

  module _ (max_entries : ℕ) (d : Cached A) (now : ℕ) (h : Distinct d) where
    pub prune-Distinct : Distinct (prune max_entries d now)
    unfolding prune
    prune-Distinct = pop_all-Distinct _ _ (pop_all-Distinct d (expired_keys d now) h)

    -- Pruning leaves at most `max_entries` entries.
    pub length-prune-le : length (prune max_entries d now) ≤ max_entries
    unfolding prune
    length-prune-le =
        let l = live d now in
        let n = length l - max_entries in
        omega (
          arith,
          length-pop_all l (oldest_keys l n) (pop_all-Distinct d (expired_keys d now) h)
              (oldest_keys-has l n)
              (oldest_keys-Pairwise l n (pop_all-Distinct d (expired_keys d now) h)),
          length-oldest_keys l n (omega arith),
        )

    -- It adds nothing, and leaves nothing that has expired.
    pub get-prune :
        (k : String) (e : CacheEntry A)
        → get (prune max_entries d now) k ≡ some e
        → (get d k ≡ some e) × (is_expired e now ≡ false)
    unfolding prune
    get-prune k e q =
        (get-live d now k e h).0
          (get-pop_all-some (live d now)
            (oldest_keys (live d now) (length (live d now) - max_entries)) k e
            (pop_all-Distinct d (expired_keys d now) h) q).0

    -- A cache that is within its bound loses only what has expired.
    pub prune_of_length-le : length d ≤ max_entries → prune max_entries d now ≡ live d now
    unfolding prune oldest_keys pop_all
    prune_of_length-le small =
        let none_over : length (live d now) - max_entries ≡ 0 =
          omega (arith, length-pop_all-le d (expired_keys d now)) in
        rw none_over refl
