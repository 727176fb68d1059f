-- ===== src/Compression/Truncated.antt =====
-- What the truncations keep.
use context_agent.Prelude.{
  ℕ, ◌*◌, ◌≤◌, ◌≡◌, ap, not, List, ◌++◌, arith, ◌⊎◌, inl, inr, leb, keep, Bool-cases, leb→le,
  leb_false→lt,
}
use mathlib.Core.List.{append-nil}
use context_agent.Compression.Messages.{Message, chars}
use context_agent.Compression.Truncation.{is_system, keep_fitting, truncate, last_n, fast_truncate}
use context_agent.Compression.Loops.{
  longest_end, fitting, chars-append, fit-reverse, fit_until-reverse, fitting-le, fitting_over,
  longest_end-le, longest_end_over,
}

-- The messages with the role `system`, and the others.
unfoldable pub system_of : List Message → List Message
unfolding is_system
system_of messages = keep is_system messages

unfoldable pub others_of : List Message → List Message
unfolding is_system
others_of messages = keep (λ m. not (is_system m)) messages

-- What the truncations keep, said plainly: every system message first, then, in their order, for the
-- two that stop at the first message that is too long the longest end of the others (of the last `n`
-- of them, or of all where `n` is 0) that fits beside the system messages, and for the one that skips
-- the messages that fit, from the last to the first, beside those that are kept.
pub truncations :
    (messages : List Message) (token_budget n : ℕ)
    → (let room = token_budget * 4 in
        let used = chars (system_of messages) in
        (truncate messages token_budget
          ≡ system_of messages ++ longest_end room used (others_of messages))
        × (fast_truncate n messages token_budget
            ≡ system_of messages ++ longest_end room used (last_n n (others_of messages)))
        × (keep_fitting messages token_budget
            ≡ system_of messages ++ fitting room used (others_of messages)))
unfolding truncate fast_truncate keep_fitting system_of others_of
truncations messages token_budget n =
    let room = token_budget * 4 in
    let system = system_of messages in
    (
      ap (λ l. system ++ l) (fit_until-reverse room (chars system) (others_of messages)),
      ap (λ l. system ++ l) (fit_until-reverse room (chars system) (last_n n (others_of messages))),
      ap (λ l. system ++ l) (fit-reverse room (chars system) (others_of messages)),
    )

-- Within the budget, or nothing but the system messages.
abbrev pub Fits : List Message → ℕ → List Message → Type 0
Fits messages token_budget kept = (chars kept ≤ token_budget * 4) ⊎ (kept ≡ system_of messages)

end_Fits :
    (messages : List Message) (token_budget : ℕ) (l : List Message)
    → Fits messages token_budget
        (system_of messages ++ longest_end (token_budget * 4) (chars (system_of messages)) l)
end_Fits messages n l = elim (Bool-cases (leb (chars (system_of messages)) (n * 4))) [
  | inl q ↦ inl (
      omega (
        arith,
        longest_end-le (n * 4) (chars (system_of messages)) l (leb→le _ _ q),
        chars-append (system_of messages) (longest_end (n * 4) (chars (system_of messages)) l),
      ))
  | inr q ↦ inr (
      rw (longest_end_over (n * 4) (chars (system_of messages)) l (leb_false→lt _ _ q))
        (append-nil (system_of messages)))
]

fitting-Fits :
    (messages : List Message) (token_budget : ℕ) (l : List Message)
    → Fits messages token_budget
        (system_of messages ++ fitting (token_budget * 4) (chars (system_of messages)) l)
fitting-Fits messages n l = elim (Bool-cases (leb (chars (system_of messages)) (n * 4))) [
  | inl q ↦ inl (
      omega (
        arith,
        fitting-le (n * 4) (chars (system_of messages)) l (leb→le _ _ q),
        chars-append (system_of messages) (fitting (n * 4) (chars (system_of messages)) l),
      ))
  | inr q ↦ inr (
      rw (fitting_over (n * 4) (chars (system_of messages)) l (leb_false→lt _ _ q))
        (append-nil (system_of messages)))
]

-- A truncation is within the budget of four characters for each token, in the contents of the
-- messages that it keeps, unless it keeps the system messages and no other.
pub truncations-Fits :
    (messages : List Message) (token_budget n : ℕ)
    → Fits messages token_budget (truncate messages token_budget)
      × Fits messages token_budget (fast_truncate n messages token_budget)
      × Fits messages token_budget (keep_fitting messages token_budget)
truncations-Fits messages token_budget n =
    let (a, b, c) = truncations messages token_budget n in
    (
      rw a (end_Fits messages token_budget (others_of messages)),
      rw b (end_Fits messages token_budget (last_n n (others_of messages))),
      rw c (fitting-Fits messages token_budget (others_of messages)),
    )
