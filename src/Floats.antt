-- ===== src/Floats.antt =====
-- Python's float, which the kernel does not have: the type and the operations that the code uses.
-- The values are finite numbers; the operations round as they do in Python.
use chat_doc.Prelude.{Bool, Option, Text, ℕ}

pub record Floats : Type 1 where
  pub F : Type 0
  -- The literal m * 10 ^ -k.
  pub literal : ℕ → ℕ → F
  pub add : F → F → F
  pub sub : F → F → F
  pub mul : F → F → F
  pub div : F → F → F
  pub neg : F → F
  pub abs : F → F
  pub lt : F → F → Bool
  pub eq : F → F → Bool
  -- round(x) and round(x, 2).
  pub round : F → F
  pub round2 : F → F
  -- f"{x:,.2f}" and f"{x:,.0f}".
  pub format2 : F → Text
  pub format0 : F → Text
  -- float(text), with none for a ValueError.
  pub parse : Text → Option F
