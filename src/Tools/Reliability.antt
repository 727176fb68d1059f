-- ===== src/Tools/Reliability.antt =====
-- The statistics of a tool over any number of calls.
use context_agent.Prelude.{
  ℕ, ◌+◌, String, ◌≡◌, refl, sym, ap, ◌∙◌, Option, none, some, Bool, List, [], ◌∷◌, arith, ◌==◌,
  if◌then◌else◌, Bool-cases, inl, inr, Option-cases, eq_iff, eq_of_some, keep, length,
}
use context_agent.Prelude.Dict.{get, get-put}
use context_agent.Prelude.Floats.{Floats}
use context_agent.Tools.Governor.{
  ToolStats, ToolDefinition, ToolContextGovernor, counted, record_tool_result,
}

-- The arguments of one `record_tool_result`.
pub record Call (F : Type 0) : Type 0 where
  pub tool_id : String
  pub success : Bool
  pub duration_ms : F
  pub prompt : ℕ
  pub completion : ℕ

-- A number of the statistics, 0 where there are none yet.
abbrev pub stat : {F : Type 0} → (ToolStats F → ℕ) → Option (ToolStats F) → ℕ
stat f none = 0
stat f (some s) = f s

abbrev pub sum_of : {F : Type 0} → (Call F → ℕ) → List (Call F) → ℕ
sum_of f [] = 0
sum_of f (c ∷ cs) = f c + sum_of f cs

-- The calls of one tool.
abbrev pub calls_of : {F : Type 0} → String → List (Call F) → List (Call F)
calls_of tool_id cs = keep (λ c. c.tool_id == tool_id) cs

module _ {F : Type 0} (o : Floats F) where
  abbrev pub total : Option (ToolStats F) → F
  total none = o.zero
  total (some s) = s.total_duration_ms

  -- The durations added one after the other.
  abbrev pub durations : F → List (Call F) → F
  durations x [] = x
  durations x (c ∷ cs) = durations (o.add x c.duration_ms) cs

  -- The results of some calls, recorded one after the other.
  abbrev pub record_all : ToolContextGovernor F → List (Call F) → ToolContextGovernor F
  record_all g [] = g
  record_all g (c ∷ cs) =
      record_all (record_tool_result o g c.tool_id c.success c.duration_ms c.prompt c.completion) cs

  -- The statistics `after` are those `before` and what the calls add.
  pub record IsTally (before : Option (ToolStats F)) (cs : List (Call F))
      (after : Option (ToolStats F)) : Type 0 where
    pub call_time : stat (λ s. s.call_time) after ≡ stat (λ s. s.call_time) before + length cs
    pub success_time :
        stat (λ s. s.success_time) after
        ≡ stat (λ s. s.success_time) before + length (keep (λ c. c.success) cs)
    pub total_duration_ms : total after ≡ durations (total before) cs
    pub prompt_tokens :
        stat (λ s. s.prompt_tokens) after
        ≡ stat (λ s. s.prompt_tokens) before + sum_of (λ c. c.prompt) cs
    pub completion_tokens :
        stat (λ s. s.completion_tokens) after
        ≡ stat (λ s. s.completion_tokens) before + sum_of (λ c. c.completion) cs

  -- The statistics after one more call.
  one_more : Call F → Option (ToolStats F) → ToolStats F
  one_more c s = counted o c.success c.duration_ms c.prompt c.completion s

  empty-IsTally : (s : Option (ToolStats F)) → IsTally s [] s
  empty-IsTally s = record {
    call_time = omega arith;
    success_time = omega arith;
    total_duration_ms = refl;
    prompt_tokens = omega arith;
    completion_tokens = omega arith;
  }

  step-IsTally :
      (c : Call F) (cs : List (Call F)) (s after : Option (ToolStats F))
      → IsTally (some (one_more c s)) cs after
      → IsTally s (c ∷ cs) after
  unfolding one_more counted
  step-IsTally c cs none after h = record {
    call_time = omega (arith, h.call_time);
    success_time = ground (arith, h.success_time);
    total_duration_ms = h.total_duration_ms;
    prompt_tokens = omega (arith, h.prompt_tokens);
    completion_tokens = omega (arith, h.completion_tokens);
  }
  step-IsTally c cs (some s) after h = record {
    call_time = omega (arith, h.call_time);
    success_time = ground (arith, h.success_time);
    total_duration_ms = h.total_duration_ms;
    prompt_tokens = omega (arith, h.prompt_tokens);
    completion_tokens = omega (arith, h.completion_tokens);
  }

  -- What one result does to the entry of a tool: nothing to the tools of other names.
  get-record_tool_result :
      (g : ToolContextGovernor F) (c : Call F) (tool_id : String) (t : ToolDefinition F)
      → get g.tools tool_id ≡ some t
      → get
          (record_tool_result o g c.tool_id c.success c.duration_ms c.prompt c.completion).tools
          tool_id
        ≡ some (
            if c.tool_id == tool_id
            then record t { tool_stats = some (one_more c t.tool_stats) }
            else t)
  unfolding record_tool_result one_more
  get-record_tool_result g c tool_id t e = elim (Option-cases (get g.tools c.tool_id)) [
    | inl q ↦
        rw (q, record_tool_result)
          (e ∙ ap some (ground (arith, eq_iff c.tool_id tool_id, q, e, ap (get g.tools))))
    | inr (u, q) ↦
        rw (q, record_tool_result)
          (get-put g.tools c.tool_id tool_id
              (record u { tool_stats = some (one_more c u.tool_stats) })
            ∙ (elim (Bool-cases (c.tool_id == tool_id)) [
              | inl s ↦
                  let same : u ≡ t =
                    eq_of_some (sym q ∙ ap (get g.tools) ((eq_iff c.tool_id tool_id).0 s) ∙ e) in
                  rw (s, same) refl
              | inr s ↦ rw s e
            ]))
  ]

  -- After the results of any calls, in any order, a registered tool is what it was but for its
  -- statistics: they are those from before and its own calls, its successful ones, their durations
  -- added one after the other, and their tokens, and nothing of the calls of other tools.
  pub record_tool_result-IsTally :
      (g : ToolContextGovernor F) (tool_id : String) (t : ToolDefinition F) (cs : List (Call F))
      → get g.tools tool_id ≡ some t
      → (after : Option (ToolStats F)) × (get (record_all g cs).tools tool_id
          ≡ some (record t { tool_stats = after }))
        × IsTally t.tool_stats (calls_of tool_id cs) after
  record_tool_result-IsTally g tool_id t [] e = (t.tool_stats, e, empty-IsTally t.tool_stats)
  record_tool_result-IsTally g tool_id t (c ∷ cs) e = elim (Bool-cases (c.tool_id == tool_id)) [
    | inl q ↦
        let t' = record t { tool_stats = some (one_more c t.tool_stats) } in
        let (after, found, tally) =
          record_tool_result-IsTally
            (record_tool_result o g c.tool_id c.success c.duration_ms c.prompt c.completion) tool_id
            t' cs (get-record_tool_result g c tool_id t e ∙ rw q refl) in
        (after, found, rw q (step-IsTally c (calls_of tool_id cs) t.tool_stats after tally))
    | inr q ↦
        let (after, found, tally) =
          record_tool_result-IsTally
            (record_tool_result o g c.tool_id c.success c.duration_ms c.prompt c.completion) tool_id
            t cs (get-record_tool_result g c tool_id t e ∙ rw q refl) in
        (after, found, rw q tally)
  ]
