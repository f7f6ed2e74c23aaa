-- ===== src/Prelude/Text.antt =====
-- What the code uses of the text functions of the language: they are parameters of the model.
use Prim.Native.String.{String}
use mathlib.Core.Bool.{Bool}
use Prim.Native.Nat.{ℕ}

-- `s.trim()`, `s.toLowerCase()`, `s.includes(t)`, `s.slice(0, n)`, `s.length`
pub record TextOps : Type 0 where
  pub trim : String → String
  pub lower : String → String
  pub includes : String → String → Bool
  pub prefix : ℕ → String → String
  pub size : String → ℕ
