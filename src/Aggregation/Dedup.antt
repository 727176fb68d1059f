-- ===== src/Aggregation/Dedup.antt =====
-- `_deduplicate`: one item for each id, the one with the highest score.
use context_agent.Prelude.{
  String, ◌≡◌, ◌≢◌, refl, sym, ◌∙◌, Option, none, some, Bool, true, false, List, [], ◌∷◌, arith,
  ◌==◌, eq_iff, if◌then◌else◌, In, All, All-of, Pairwise, subst, eq_of_some, Option-cases,
  Bool-cases, inl, inr, ◌⊎◌,
}
use context_agent.Prelude.Dict.{
  Dict, get, put, values, Distinct, get-put, put-Distinct, get_of_In, In-get, get_of_Absent,
}
use context_agent.Prelude.Floats.{Floats, IsOrdered, lt_irrefl}
use context_agent.Models.Context.{ContextItem}

module _ {F : Type 0} (o : Floats F) where
  -- `key not in seen or item.score > seen[key].score`
  replaces : ContextItem F → Option (ContextItem F) → Bool
  replaces item none = true
  replaces item (some old) = o.lt old.score item.score

  keep_best : Dict (ContextItem F) → ContextItem F → Dict (ContextItem F)
  unfolding replaces
  keep_best seen item =
      if replaces item (get seen item.item_id) then put seen item.item_id item else seen

  dedup_from : Dict (ContextItem F) → List (ContextItem F) → Dict (ContextItem F)
  unfolding keep_best
  dedup_from seen [] = seen
  dedup_from seen (item ∷ items) = dedup_from (keep_best seen item) items

  unfoldable pub deduplicate : List (ContextItem F) → List (ContextItem F)
  unfolding dedup_from
  deduplicate items = values (dedup_from [] items)

  -- Every entry stands under its own id, and comes from `items`.
  record IsIndexed (items : List (ContextItem F)) (seen : Dict (ContextItem F)) : Type 0 where
    distinct : Distinct seen
    own_id : (k : String) (i : ContextItem F) → get seen k ≡ some i → i.item_id ≡ k
    source : (k : String) (i : ContextItem F) → get seen k ≡ some i → In i items

  -- There is an entry with the id of `item`, and its score is not lower.
  abbrev Covers : Dict (ContextItem F) → ContextItem F → Type 0
  Covers seen item =
      (i : ContextItem F) × (get seen item.item_id ≡ some i) × (o.lt i.score item.score ≡ false)

  keep_best-IsIndexed :
      (items : List (ContextItem F)) (seen : Dict (ContextItem F)) (item : ContextItem F)
      → IsIndexed items seen
      → In item items
      → IsIndexed items (keep_best seen item)
  unfolding keep_best
  keep_best-IsIndexed items seen item h m =
      elim (Bool-cases (replaces item (get seen item.item_id))) [
        | inl q ↦ rw q (record {
          distinct = put-Distinct seen item.item_id item h.distinct;
          own_id = λ k i e.
              ground (arith, get-put seen item.item_id k item, eq_iff item.item_id k, h.own_id k i);
          source = λ k i e. from k i (sym (get-put seen item.item_id k item) ∙ e);
        })
        | inr q ↦ rw q h
      ]
    where
      from :
          (k : String) (i : ContextItem F)
          → (if item.item_id == k then some item else get seen k) ≡ some i
          → In i items
      from k i e = elim (Bool-cases (item.item_id == k)) [
        | inl q ↦ subst (λ x. In x items) (eq_of_some (rw q at e)) m
        | inr q ↦ h.source k i (rw q at e)
      ]

  module _ (ord : IsOrdered o) where
    keep_best-Covers_self :
        (seen : Dict (ContextItem F)) (item : ContextItem F) → Covers (keep_best seen item) item
    unfolding keep_best replaces
    keep_best-Covers_self seen item = elim (Option-cases (get seen item.item_id)) [
      | inl e ↦ (
        item,
        ground
            (arith, get-put seen item.item_id item.item_id item, eq_iff item.item_id item.item_id),
        lt_irrefl o ord item.score,
      )
      | inr (i, e) ↦ elim (Bool-cases (o.lt i.score item.score)) [
        | inl q ↦ (
          item,
          ground (
            arith,
            get-put seen item.item_id item.item_id item,
            eq_iff item.item_id item.item_id,
          ),
          lt_irrefl o ord item.score,
        )
        | inr q ↦ (i, ground arith, q)
      ]
    ]

    keep_best-Covers :
        (seen : Dict (ContextItem F)) (item other : ContextItem F)
        → Covers seen other
        → Covers (keep_best seen item) other
    unfolding keep_best replaces
    keep_best-Covers seen item other (i, e, le) =
        elim (Bool-cases (item.item_id == other.item_id)) [
          | inl same ↦ elim (Bool-cases (o.lt i.score item.score)) [
            | inl q ↦ (
              item,
              ground (
                arith,
                get-put seen item.item_id other.item_id item,
                eq_iff item.item_id other.item_id,
              ),
              ord.not_lt_trans item.score i.score other.score (ord.lt_asymm i.score item.score q)
                  le,
            )
            | inr q ↦ (i, ground (arith, eq_iff item.item_id other.item_id), le)
          ]
          | inr differs ↦ (i, ground (arith, get-put seen item.item_id other.item_id item), le)
        ]

    dedup_from-Covers :
        (seen : Dict (ContextItem F)) (items : List (ContextItem F)) (other : ContextItem F)
        → (Covers seen other ⊎ In other items)
        → Covers (dedup_from seen items) other
    unfolding dedup_from
    dedup_from-Covers seen [] other (inl c) = c
    dedup_from-Covers seen [] other (inr m) = absurd m
    dedup_from-Covers seen (item ∷ items) other (inl c) =
        dedup_from-Covers (keep_best seen item) items other
          (inl (keep_best-Covers seen item other c))
    dedup_from-Covers seen (item ∷ items) other (inr (inl e)) =
        dedup_from-Covers (keep_best seen item) items other
          (inl (subst (Covers (keep_best seen item)) (sym e) (keep_best-Covers_self seen item)))
    dedup_from-Covers seen (item ∷ items) other (inr (inr m)) =
        dedup_from-Covers (keep_best seen item) items other (inr m)

  dedup_from-IsIndexed :
      (all seen_items : List (ContextItem F)) (seen : Dict (ContextItem F))
      → IsIndexed all seen
      → All (λ i. In i all) seen_items
      → IsIndexed all (dedup_from seen seen_items)
  unfolding dedup_from
  dedup_from-IsIndexed all [] seen h m = h
  dedup_from-IsIndexed all (item ∷ items) seen h m =
      dedup_from-IsIndexed all items (keep_best seen item) (keep_best-IsIndexed all seen item h m.0)
        m.1

  abbrev pub DifferentIds : ContextItem F → ContextItem F → Type 0
  DifferentIds a b = a.item_id ≢ b.item_id

  -- The tail of an indexed dict is indexed, and its keys differ from the first one.
  tail_key :
      (j k : String) (w i : ContextItem F) (seen : Dict (ContextItem F))
      → Distinct ((j, w) ∷ seen)
      → get seen k ≡ some i
      → (j == k) ≡ false
  unfolding get
  tail_key j k w i seen d e = ground (arith, eq_iff j k, get_of_Absent seen j d.0)

  values-Pairwise :
      (seen : Dict (ContextItem F))
      → Distinct seen
      → ((k : String) (i : ContextItem F) → get seen k ≡ some i → i.item_id ≡ k)
      → Pairwise DifferentIds (values seen)
  unfolding values get
  values-Pairwise [] d own = tt
  values-Pairwise ((j, w) ∷ seen) d own = (
    All-of (DifferentIds w) (values seen) apart,
    values-Pairwise seen d.1 (λ k i e. own k i (rw (tail_key j k w i seen d e) e)),
  )
    where
      apart : (v : ContextItem F) → In v (values seen) → DifferentIds w v
      apart v m same =
          let (k, e) = get_of_In seen v m d.1 in
          let differs = tail_key j k w v seen d e in
          let here = own j w (rw ((eq_iff j j).1 refl)) in
          let there = own k v (rw differs e) in
          cc (differs, (eq_iff j k).1 (sym here ∙ same ∙ there))

  -- Of the given items one is kept for each id: the kept ones are among the given, no two have the
  -- same id, and each given item has a kept one of the same id whose score is not lower.
  pub record IsDeduplicated (items result : List (ContextItem F)) : Type 0 where
    pub distinct : Pairwise DifferentIds result
    pub source : (i : ContextItem F) → In i result → In i items
    pub covered :
        (i : ContextItem F)
        → In i items
        → (j : ContextItem F) × In j result
          × (j.item_id ≡ i.item_id)
          × (o.lt j.score i.score ≡ false)

  module _ (ord : IsOrdered o) (items : List (ContextItem F)) where
    all_IsIndexed : IsIndexed items (dedup_from [] items)
    unfolding get
    all_IsIndexed = dedup_from-IsIndexed items items [] start (All-of _ items (λ a m. m))
      where
        start : IsIndexed items []
        start = record { distinct = tt; own_id = λ k i e. cc; source = λ k i e. cc }

    -- Deduplication keeps, of the items with one id, one with the highest score, and drops no id,
    -- when the scores are ordered as floats are that are not NaN.
    pub deduplicate-IsDeduplicated : IsDeduplicated items (deduplicate items)
    unfolding deduplicate
    deduplicate-IsDeduplicated = record {
      distinct = values-Pairwise _ all_IsIndexed.distinct all_IsIndexed.own_id;
      source = λ i m.
          let (k, e) = get_of_In (dedup_from [] items) i m all_IsIndexed.distinct in
          all_IsIndexed.source k i e;
      covered = λ i m.
          let (j, e, le) = dedup_from-Covers ord [] items i (inr m) in
          (j, In-get _ i.item_id j e, all_IsIndexed.own_id i.item_id j e, le);
    }
