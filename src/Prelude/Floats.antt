-- ===== src/Prelude/Floats.antt =====
-- Python's `float`, which the language has and this library has not: a type with the operations
-- that the program calls, and the order laws that hold of all floats that are not NaN.
use context_agent.Prelude.{ℕ, ◌≡◌, Bool, true, false, if◌then◌else◌, arith}

pub record Floats (F : Type 0) : Type 0 where
  pub zero : F
  pub one : F
  -- the literal `n / 100`, such as `0.12`
  pub hundredths : ℕ → F
  -- `float(n)`
  pub of_int : ℕ → F
  -- `a < b`
  pub lt : F → F → Bool
  pub add : F → F → F
  pub sub : F → F → F
  pub mul : F → F → F
  pub div : F → F → F

-- `<` on floats that are not NaN is a strict weak order (0.0 and -0.0 are two floats, and neither
-- is less), and 0.0 < 1.0.
pub record IsOrdered {F : Type 0} (o : Floats F) : Type 0 where
  pub lt_asymm : (a b : F) → o.lt a b ≡ true → o.lt b a ≡ false
  pub not_lt_trans : (a b c : F) → o.lt a b ≡ false → o.lt b c ≡ false → o.lt a c ≡ false
  pub zero_lt_one : o.lt o.zero o.one ≡ true

module _ {F : Type 0} (o : Floats F) where
  -- `max(0.0, min(1.0, v))`
  unfoldable pub clamp : F → F
  clamp v = let m = if o.lt v o.one then v else o.one in if o.lt o.zero m then m else o.zero

  -- `v` lies between 0.0 and 1.0.
  abbrev pub InUnit : F → Type 0
  InUnit v = (o.lt v o.zero ≡ false) × (o.lt o.one v ≡ false)

  module _ (ord : IsOrdered o) where
    pub lt_irrefl : (a : F) → o.lt a a ≡ false
    lt_irrefl a = ground (arith, ord.lt_asymm a a)

    pub clamp-InUnit : (v : F) → InUnit (clamp v)
    unfolding clamp
    clamp-InUnit v = ground (
      arith,
      ord.lt_asymm o.zero v,
      ord.lt_asymm v o.one,
      ord.lt_asymm o.zero o.one,
      ord.zero_lt_one,
      lt_irrefl o.zero,
      lt_irrefl o.one,
    )

    -- A value that is in the range already stays what it is, up to the two zeros.
    pub clamp_of_InUnit : (v : F) → o.lt o.zero v ≡ true → o.lt v o.one ≡ true → clamp v ≡ v
    unfolding clamp
    clamp_of_InUnit v h k = rw (k, h)
