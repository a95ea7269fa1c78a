-- ===== src/Common/Unicode.antt =====
-- The methods of Python's `str` that stand on the tables of Unicode or on positions in a text.
use Prim.Native.Nat.{ℕ}
use Prim.Native.String.{String}
use mathlib.Core.List.{List}

pub record Texts : Type 0 where
  pub casefold : String → String
  pub lower : String → String
  pub strip : String → String
  -- `text.split(separator)`, `text.split()` and `separator.join(texts)`
  pub split : String → String → List String
  pub split_spaces : String → List String
  pub join : String → List String → String
  -- `text[n:]`, `text[:n]` and `str(n)`
  pub from : ℕ → String → String
  pub until : ℕ → String → String
  pub decimal : ℕ → String
