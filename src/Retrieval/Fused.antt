-- ===== src/Retrieval/Fused.antt =====
-- What the fusion gives.
use context_agent.Prelude.{
  ℕ, ◌≤◌, ◌≡◌, refl, sym, ap, subst, ◌∙◌, String, Option, none, some, Bool, true, false, List, [],
  ◌∷◌, arith, ◌⊎◌, inl, inr, Bool-cases, ◌==◌, map, length, length-map, take, take_of_length-le,
  length-take, min, contains, contains_iff, In, All, All-of, All-imp, All-take, Pairwise,
  Pairwise-take, Pairwise-imp, if◌then◌else◌, eq_iff, leb, leb→le, leb_false→lt,
}
use context_agent.Prelude.Dict.{
  Dict, get_or, keys, has, Distinct, Absent, All-get, get_of_has, contains-keys,
}
use context_agent.Prelude.Floats.{Floats, IsOrdered, lt_irrefl}
use context_agent.Prelude.Sort.{sort_desc, any-sort_desc, All-sort_desc, Pairwise-sort_desc}
use context_agent.Models.Context.{ContextItem}
use context_agent.Retrieval.Hotness.{Maths, compute_hotness}
use context_agent.Retrieval.Fusion.{Tally, count_lists, less, capped, blend, collect, rrf_fuse}
use context_agent.Retrieval.Counted.{
  Everywhere, IsTally, Counted, count_lists-IsTally, count_lists-counts,
}

-- An item is in one of the lists.
abbrev pub Anywhere : {F : Type 0} → ContextItem F → List (List (ContextItem F)) → Type 0
Anywhere i [] = ⊥
Anywhere i (l ∷ ls) = In i l ⊎ Anywhere i ls

module _ {F : Type 0} (o : Floats F) where
  -- A fusion of the lists: items of theirs with new scores, of distinct ids and at most `n` of them,
  -- none scored above 1.0, and either exactly `n` or one for every id.
  pub record IsFusion (lists : List (List (ContextItem F))) (n : ℕ) (result : List (ContextItem F))
      : Type 0 where
    pub from :
        All
          (λ r. (i : ContextItem F) × Anywhere i lists × (r ≡ record i { score = r.score }))
          result
    pub distinct : Pairwise (λ (a b : ContextItem F). (a.item_id == b.item_id) ≡ false) result
    pub at_most_one : All (λ (r : ContextItem F). o.lt o.one r.score ≡ false) result
    pub complete :
        (length result ≤ n)
        × ((length result ≡ n)
            ⊎ All
                (All (λ (i : ContextItem F).
                  contains (map (λ (r : ContextItem F). r.item_id) result) i.item_id ≡ true))
                lists)

-- Distinct texts, both ways round.
Differ : String → String → Type 0
Differ a b = ((a == b) ≡ false) × ((b == a) ≡ false)

module _ {V : Type 0} where
  Absent-Differ : (j : String) (d : Dict V) → Absent j d → All (Differ j) (keys d)
  unfolding keys Differ
  Absent-Differ j [] h = tt
  Absent-Differ j ((k, v) ∷ d) h =
      ((ground (arith, eq_iff j k, eq_iff k j), h.0), Absent-Differ j d h.1)

  keys-Differ : (d : Dict V) → Distinct d → Pairwise Differ (keys d)
  unfolding keys
  keys-Differ [] h = tt
  keys-Differ ((j, v) ∷ d) h = (Absent-Differ j d h.0, keys-Differ d h.1)

module _ {A B : Type 0} (f : A → B) where
  All-unmap : (P : B → Type 0) (xs : List A) → All P (map f xs) → All (λ a. P (f a)) xs
  All-unmap P [] h = tt
  All-unmap P (x ∷ xs) h = (h.0, All-unmap P xs h.1)

  Pairwise-unmap :
      (R : B → B → Type 0) (xs : List A)
      → Pairwise R (map f xs)
      → Pairwise (λ a b. R (f a) (f b)) xs
  Pairwise-unmap R [] h = tt
  Pairwise-unmap R (x ∷ xs) h = (All-unmap (R (f x)) xs h.0, Pairwise-unmap R xs h.1)

All-Everywhere :
    {F : Type 0} (P : ContextItem F → Type 0) (ls : List (List (ContextItem F)))
    → ((i : ContextItem F) → Anywhere i ls → P i)
    → Everywhere P ls
unfolding Everywhere
All-Everywhere P [] h = tt
All-Everywhere P (l ∷ ls) h =
    (All-of P l (λ i m. h i (inl m)), All-Everywhere P ls (λ i m. h i (inr m)))

module _ {F : Type 0} (o : Floats F) (m : Maths F) (now k : ℕ) (alpha half_life_days : F)
    (ord : IsOrdered o) (positive : o.lt o.zero half_life_days ≡ true) where
  Blended : (ContextItem F → Type 0) → ContextItem F → Type 0
  Blended P r =
      ((i : ContextItem F) × P i × (r ≡ record i { score = r.score }))
      × (o.lt o.one r.score ≡ false)

  capped-le : (v : F) → o.lt o.one (capped o v) ≡ false
  unfolding capped
  capped-le v = ground (arith, ord.lt_asymm v o.one, lt_irrefl o ord o.one)

  not_none :
      (c : Bool) (x : F)
      → c ≡ true
      → (h : F) × ((if (if c then false else true) then none else some x) ≡ some h)
  not_none true x e = (x, refl)
  not_none false x e = cc

  hot :
      (active_count updated_at : Option ℕ)
      → (h : F) × (compute_hotness o m now active_count updated_at half_life_days ≡ some h)
  unfolding compute_hotness
  hot active_count updated_at = not_none (o.lt o.zero half_life_days) _ positive

  blend-some :
      (P : ContextItem F → Type 0) (rrf : F) (i : ContextItem F)
      → P i
      → (r : ContextItem F) × (blend o m now k alpha half_life_days rrf i ≡ some r)
        × (r.item_id ≡ i.item_id)
        × Blended P r
  unfolding blend Blended
  blend-some P rrf i p =
      let (h, e) = hot (some i.active_count) (some i.updated_at) in
      rw (e, blend) (_, refl, refl, ((i, p, refl), capped-le _))

  module _ (P : ContextItem F → Type 0) (t : Tally F) (good : IsTally o P t) where
    collect-some :
        (ids : List String)
        → All (λ id. has t.item_map id ≡ true) ids
        → (result : List (ContextItem F)) × (collect o m now k alpha half_life_days t ids
            ≡ some result)
          × (map (λ (r : ContextItem F). r.item_id) result ≡ ids)
          × All (Blended P) result
    unfolding collect
    collect-some [] h = ([], refl, refl, tt)
    collect-some (id ∷ ids) h =
        let (result, e, same, all) = collect-some ids h.1 in
        let (i, found) = get_of_has t.item_map id h.0 in
        let (same_id, p) = All-get _ t.item_map id i good.items found in
        let (r, e', id_kept, bl) = blend-some P (get_or t.scores id o.zero) i p in
        (
          r ∷ result,
          rw (found, e', e) refl,
          ap (λ x. x ∷ map (λ (r : ContextItem F). r.item_id) result) (id_kept ∙ same_id)
              ∙ ap (◌∷◌ id) same,
          (bl, all),
        )

    -- The ids that are fused.
    sorted_ids : List String
    sorted_ids = sort_desc (less o t.scores) (keys t.scores)

    sorted-has : All (λ id. has t.item_map id ≡ true) sorted_ids
    unfolding sorted_ids
    sorted-has =
        All-sort_desc (less o t.scores) (λ id. has t.item_map id ≡ true) (keys t.scores)
          (All-of _ (keys t.scores) (λ id inside.
            sym (contains-keys t.item_map id)
            ∙ ap (λ l. contains l id) (sym good.same_keys)
            ∙ (contains_iff (keys t.scores) id).1 inside))

    sorted-Differ : Pairwise Differ sorted_ids
    unfolding sorted_ids Differ
    sorted-Differ =
        Pairwise-sort_desc (less o t.scores) Differ (λ a b h. (h.1, h.0)) (keys t.scores)
          (keys-Differ t.scores good.distinct)

    sorted-contains : (i : ContextItem F) → Counted o t i → contains sorted_ids i.item_id ≡ true
    unfolding sorted_ids Counted
    sorted-contains i h =
        any-sort_desc (less o t.scores) (λ id. i.item_id == id) (keys t.scores)
        ∙ contains-keys t.scores i.item_id
        ∙ h

    -- The result of collecting the first `n` of them.
    collected :
        (lists : List (List (ContextItem F))) (n : ℕ) (result : List (ContextItem F))
        → Everywhere (Counted o t) lists
        → map (λ (r : ContextItem F). r.item_id) result ≡ take n sorted_ids
        → (length result ≤ n)
          × ((length result ≡ n)
              ⊎ All
                  (All (λ (i : ContextItem F).
                    contains (map (λ (r : ContextItem F). r.item_id) result) i.item_id ≡ true))
                  lists)
    unfolding Everywhere
    collected lists n result counted same =
        let l : length result ≡ min n (length sorted_ids) =
          sym (length-map _ result) ∙ ap length same ∙ length-take n sorted_ids in
        (
          omega (arith, l),
          elim (Bool-cases (leb (length sorted_ids) n)) [
            | inl q ↦ inr (
                All-imp _ _
                  (λ list h.
                    All-imp _ _
                      (λ i c.
                        ap (λ x. contains x i.item_id)
                          (same ∙ take_of_length-le n sorted_ids (leb→le _ _ q))
                        ∙ sorted-contains i c)
                      list h)
                  lists counted)
            | inr q ↦ inl (omega (arith, l, leb_false→lt _ _ q))
          ],
        )

  -- With a positive half-life, fusing never raises, and gives a fusion of the lists: items of theirs
  -- with new scores and distinct ids, none scored above 1.0, and either `top_k` of them, or fewer and
  -- one for every id in the lists.
  pub rrf_fuse-IsFusion :
      (top_k : ℕ) (lists : List (List (ContextItem F)))
      → (result : List (ContextItem F)) × (rrf_fuse o m now k alpha half_life_days top_k lists
          ≡ some result)
        × IsFusion o lists top_k result
  unfolding rrf_fuse sorted_ids keys Blended Differ
  rrf_fuse-IsFusion top_k lists =
      let t : Tally F = count_lists o k lists (record { scores = []; item_map = [] }) in
      let good : IsTally o (λ i. Anywhere i lists) t =
        count_lists-IsTally o (λ i. Anywhere i lists) k lists _ (All-Everywhere _ lists (λ i h. h))
          (record { same_keys = refl; distinct = tt; items = tt }) in
      let (result, e, same, all) =
        collect-some (λ i. Anywhere i lists) t good
          (take top_k (sorted_ids (λ i. Anywhere i lists) t good))
          (All-take _ top_k _ (sorted-has (λ i. Anywhere i lists) t good)) in
      (
        result,
        e,
        record {
          from = All-imp _ _ (λ r b. b.0) result all;
          distinct =
              Pairwise-imp _ _ (λ a b h. h.0) result
                (Pairwise-unmap (λ (r : ContextItem F). r.item_id) Differ result
                  (subst (Pairwise Differ) (sym same)
                    (Pairwise-take Differ top_k _ (sorted-Differ (λ i. Anywhere i lists) t good))));
          at_most_one = All-imp _ _ (λ r b. b.1) result all;
          complete =
              collected (λ i. Anywhere i lists) t good lists top_k result
                (count_lists-counts o k lists (record { scores = []; item_map = [] })) same;
        },
      )
