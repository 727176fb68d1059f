-- ===== src/Compression/Truncation.antt =====
-- The truncations that the strategies fall back to.
use context_agent.Prelude.{
  ℕ, ◌+◌, ◌*◌, ◌-◌, Bool, not, List, [], ◌∷◌, ◌++◌, if◌then◌else◌, leb, eqb, length, keep, drop,
  text_length, ◌==◌,
}
use context_agent.Compression.Messages.{Message, chars}

unfoldable pub is_system : Message → Bool
is_system m = m.role == "system"

-- `list(reversed(l))`
abbrev pub reverse : List Message → List Message
reverse [] = []
reverse (m ∷ ms) = reverse ms ++ m ∷ []

-- The loop that skips what does not fit: `_structured_truncate`, `_keep_recent` and `_simple_window`
-- write it out alike.
unfoldable pub fit : ℕ → ℕ → List Message → List Message → List Message
fit chars_budget chars_used [] kept = kept
fit chars_budget chars_used (m ∷ ms) kept =
    let fits = leb (chars_used + text_length m.content) chars_budget in
    fit chars_budget (if fits then chars_used + text_length m.content else chars_used) ms
      (if fits then m ∷ kept else kept)

unfoldable pub keep_fitting : List Message → ℕ → List Message
unfolding fit is_system
keep_fitting messages token_budget =
    let system = keep is_system messages in
    system
    ++ fit (token_budget * 4) (chars system) (reverse (keep (λ m. not (is_system m)) messages)) []

-- The loop that ends at the first message that does not fit, as `_truncate` and `_fast_truncate`
-- have it.
unfoldable pub fit_until : ℕ → ℕ → List Message → List Message → List Message
fit_until chars_budget chars_used [] kept = kept
fit_until chars_budget chars_used (m ∷ ms) kept =
    let rest = fit_until chars_budget (chars_used + text_length m.content) ms (m ∷ kept) in
    if leb (chars_used + text_length m.content) chars_budget then rest else kept

unfoldable pub truncate : List Message → ℕ → List Message
unfolding fit_until is_system
truncate messages token_budget =
    let system = keep is_system messages in
    system
    ++ fit_until (token_budget * 4) (chars system)
        (reverse (keep (λ m. not (is_system m)) messages)) []

-- `l[-n:]`, which is the whole list where `n` is 0
unfoldable pub last_n : ℕ → List Message → List Message
last_n n l = if eqb n 0 then l else drop (length l - n) l

unfoldable pub fast_truncate : ℕ → List Message → ℕ → List Message
unfolding fit_until is_system last_n
fast_truncate keep_last_n messages token_budget =
    let system = keep is_system messages in
    system
    ++ fit_until (token_budget * 4) (chars system)
        (reverse (last_n keep_last_n (keep (λ m. not (is_system m)) messages))) []
