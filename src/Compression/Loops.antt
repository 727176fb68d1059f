-- ===== src/Compression/Loops.antt =====
-- The loops of the truncations, against plain definitions of what they keep.
use context_agent.Prelude.{
  ℕ, ◌+◌, ◌≤◌, ◌<◌, ◌≡◌, refl, sym, ap, ◌∙◌, List, [], ◌∷◌, ◌++◌, arith, inl, inr, if◌then◌else◌,
  leb, Bool-cases, text_length, leb→le, leb_false→lt,
}
use mathlib.Core.List.{append_assoc, append-nil}
use context_agent.Compression.Messages.{Message, chars}
use context_agent.Compression.Truncation.{reverse, fit, fit_until}

-- The longest end of a list that fits into what is left of the budget.
unfoldable pub longest_end : ℕ → ℕ → List Message → List Message
longest_end budget used [] = []
longest_end budget used (m ∷ ms) =
    let rest = longest_end budget used ms in
    if leb (used + chars (m ∷ ms)) budget then m ∷ ms else rest

-- From the last message to the first, each that fits beside those that are kept.
unfoldable pub fitting : ℕ → ℕ → List Message → List Message
fitting budget used [] = []
fitting budget used (m ∷ ms) =
    let kept = fitting budget used ms in
    if leb (used + chars kept + text_length m.content) budget then m ∷ kept else kept

pub chars-append : (l m : List Message) → chars (l ++ m) ≡ chars l + chars m
chars-append [] m = omega arith
chars-append (x ∷ l) m = omega (arith, chars-append l m)

chars-reverse : (l : List Message) → chars (reverse l) ≡ chars l
chars-reverse [] = refl
chars-reverse (x ∷ l) = omega (arith, chars-append (reverse l) (x ∷ []), chars-reverse l)

reverse-append : (l : List Message) (m : Message) → reverse (l ++ m ∷ []) ≡ m ∷ reverse l
reverse-append [] m = refl
reverse-append (x ∷ l) m = ap (λ r. r ++ x ∷ []) (reverse-append l m)

reverse-reverse : (l : List Message) → reverse (reverse l) ≡ l
reverse-reverse [] = refl
reverse-reverse (x ∷ l) = reverse-append (reverse l) x ∙ ap (◌∷◌ x) (reverse-reverse l)

-- What is used up at the end of the loop that skips.
used_by : ℕ → ℕ → List Message → ℕ
used_by b u [] = u
used_by b u (m ∷ ms) =
    used_by b (if leb (u + text_length m.content) b then u + text_length m.content else u) ms

used_by-fit : (b u : ℕ) (l k : List Message) → used_by b u l + chars k ≡ u + chars (fit b u l k)
unfolding fit used_by
used_by-fit b u [] k = refl
used_by-fit b u (m ∷ ms) k = elim (Bool-cases (leb (u + text_length m.content) b)) [
  | inl q ↦ rw q (omega (arith, used_by-fit b (u + text_length m.content) ms (m ∷ k)))
  | inr q ↦ rw q (used_by-fit b u ms k)
]

fit-append :
    (b u : ℕ) (l : List Message) (m : Message) (k : List Message)
    → fit b u (l ++ m ∷ []) k
      ≡ (if leb (used_by b u l + text_length m.content) b then m ∷ fit b u l k else fit b u l k)
unfolding fit used_by
fit-append b u [] m k = refl
fit-append b u (x ∷ l) m k =
    let fits = leb (u + text_length x.content) b in
    fit-append b (if fits then u + text_length x.content else u) l m (if fits then x ∷ k else k)

pub fit-reverse : (b u : ℕ) (l : List Message) → fit b u (reverse l) [] ≡ fitting b u l
unfolding fit fitting
fit-reverse b u [] = refl
fit-reverse b u (m ∷ ms) =
    fit-append b u (reverse ms) m []
    ∙ ap
        (λ n.
          if leb (n + text_length m.content) b
          then m ∷ fit b u (reverse ms) []
          else fit b u (reverse ms) [])
        used
    ∙ ap (λ l. if leb (u + chars l + text_length m.content) b then m ∷ l else l)
        (fit-reverse b u ms)
  where
    used : used_by b u (reverse ms) ≡ u + chars (fit b u (reverse ms) [])
    used = omega (arith, used_by-fit b u (reverse ms) [])

fit_until_all :
    (b u : ℕ) (l k : List Message) → u + chars l ≤ b → fit_until b u l k ≡ reverse l ++ k
unfolding fit_until
fit_until_all b u [] k h = refl
fit_until_all b u (m ∷ ms) k h = elim (Bool-cases (leb (u + text_length m.content) b)) [
  | inl q ↦ rw q (
      fit_until_all b (u + text_length m.content) ms (m ∷ k) (omega arith)
      ∙ sym (append_assoc (reverse ms) (m ∷ []) k))
  | inr q ↦ absurd (omega (arith, leb_false→lt _ _ q))
]

-- A further message at the end changes nothing where the loop has ended before.
fit_until_some :
    (b u : ℕ) (l : List Message) (m : Message) (k : List Message)
    → b < u + chars l
    → fit_until b u (l ++ m ∷ []) k ≡ fit_until b u l k
unfolding fit_until
fit_until_some b u [] m k h = ground arith
fit_until_some b u (x ∷ l) m k h = elim (Bool-cases (leb (u + text_length x.content) b)) [
  | inl q ↦ rw q (fit_until_some b (u + text_length x.content) l m (x ∷ k) (omega arith))
  | inr q ↦ rw q refl
]

fit_until_last :
    (b u : ℕ) (l : List Message) (m : Message) (k : List Message)
    → u + chars l ≤ b
    → fit_until b u (l ++ m ∷ []) k ≡ (
        if leb (u + chars l + text_length m.content) b
        then m ∷ (reverse l ++ k)
        else reverse l ++ k)
unfolding fit_until
fit_until_last b u [] m k h = ground arith
fit_until_last b u (x ∷ l) m k h = elim (Bool-cases (leb (u + text_length x.content) b)) [
  | inl q ↦ rw q (
      fit_until_last b (u + text_length x.content) l m (x ∷ k) (omega arith)
      ∙ rw (sym (append_assoc (reverse l) (x ∷ []) k)) (
          ap
            (λ n.
              if leb (n + text_length m.content) b
              then m ∷ ((reverse l ++ x ∷ []) ++ k)
              else (reverse l ++ x ∷ []) ++ k)
            (omega arith)))
  | inr q ↦ absurd (omega (arith, leb_false→lt _ _ q))
]

longest_end_all : (b u : ℕ) (l : List Message) → u + chars l ≤ b → longest_end b u l ≡ l
unfolding longest_end
longest_end_all b u [] h = refl
longest_end_all b u (m ∷ ms) h = ground arith

end_step :
    (b u : ℕ) (m : Message) (ms : List Message)
    → longest_end b u (m ∷ ms)
      ≡ (if leb (u + chars ms + text_length m.content) b then m ∷ ms else longest_end b u ms)
unfolding longest_end
end_step b u m ms = ground arith

pub fit_until-reverse :
    (b u : ℕ) (l : List Message) → fit_until b u (reverse l) [] ≡ longest_end b u l
unfolding longest_end fit_until
fit_until-reverse b u [] = refl
fit_until-reverse b u (m ∷ ms) = elim (Bool-cases (leb (u + chars ms) b)) [
  | inl q ↦
      fit_until_last b u (reverse ms) m [] (omega (arith, leb→le _ _ q, chars-reverse ms))
      ∙ rw (append-nil (reverse (reverse ms)), reverse-reverse ms, chars-reverse ms)
          (sym (end_step b u m ms ∙ rw (longest_end_all b u ms (leb→le _ _ q)) refl))
  | inr q ↦
      fit_until_some b u (reverse ms) m [] (omega (arith, leb_false→lt _ _ q, chars-reverse ms))
      ∙ fit_until-reverse b u ms
      ∙ sym (ground (arith, end_step b u m ms))
]

pub fitting-le : (b u : ℕ) (l : List Message) → u ≤ b → u + chars (fitting b u l) ≤ b
unfolding fitting
fitting-le b u [] h = omega arith
fitting-le b u (m ∷ ms) h = ground (arith, fitting-le b u ms h)

pub fitting_over : (b u : ℕ) (l : List Message) → b < u → fitting b u l ≡ []
unfolding fitting
fitting_over b u [] h = refl
fitting_over b u (m ∷ ms) h = ground (arith, fitting_over b u ms h)

pub longest_end-le : (b u : ℕ) (l : List Message) → u ≤ b → u + chars (longest_end b u l) ≤ b
unfolding longest_end
longest_end-le b u [] h = omega arith
longest_end-le b u (m ∷ ms) h = ground (arith, longest_end-le b u ms h)

pub longest_end_over : (b u : ℕ) (l : List Message) → b < u → longest_end b u l ≡ []
unfolding longest_end
longest_end_over b u [] h = refl
longest_end_over b u (m ∷ ms) h = ground (arith, longest_end_over b u ms h)
