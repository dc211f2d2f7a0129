-- ===== src/Parser/Trees.antt =====
-- Texts whose brackets match, for the search of src/prxref/parser.py for balanced spans.
use prxref.Base.{ℕ, false, ◌≡◌, List, [], ◌∷◌, ◌++◌, ◌==◌}
use prxref.Base.Text.{Text}
use prxref.Parser.{quote}

-- A character of a string literal: as it is, or behind a backslash.
pub data StringChar : Type 0 where
  bare escaped : ℕ → StringChar

-- Text with brackets of one kind that match, whatever stands in its string literals.
mutual
  pub data Tree : Type 0 where
    char : ℕ → Tree
    literal : List StringChar → Tree
    group : Trees → Tree

  pub data Trees : Type 0 where
    nil : Trees
    cons : Tree → Trees → Trees

abbrev pub show_chars : List StringChar → Text
show_chars [] = quote ∷ []
show_chars (bare c ∷ cs) = c ∷ show_chars cs
show_chars (escaped c ∷ cs) = 92 ∷ c ∷ show_chars cs

-- A bare character is neither a quote nor a backslash.
abbrev pub IsLiteral : List StringChar → Type 0
IsLiteral [] = Unit
IsLiteral (bare c ∷ cs) = ((c == quote) ≡ false) × ((c == 92) ≡ false) × IsLiteral cs
IsLiteral (escaped c ∷ cs) = IsLiteral cs

unfoldable mutual
  pub show_tree : ℕ → ℕ → Tree → Text
  show_tree opening closing (char c) = c ∷ []
  show_tree opening closing (literal cs) = quote ∷ show_chars cs
  show_tree opening closing (group ts) = opening ∷ (show_trees opening closing ts ++ closing ∷ [])

  pub show_trees : ℕ → ℕ → Trees → Text
  show_trees opening closing nil = []
  show_trees opening closing (cons t ts) =
      show_tree opening closing t ++ show_trees opening closing ts

-- A character outside a literal is neither a quote nor one of the brackets.
unfoldable mutual
  pub IsTree : ℕ → ℕ → Tree → Type 0
  IsTree opening closing (char c) =
      ((c == quote) ≡ false) × ((c == opening) ≡ false) × ((c == closing) ≡ false)
  IsTree opening closing (literal cs) = IsLiteral cs
  IsTree opening closing (group ts) = IsTrees opening closing ts

  pub IsTrees : ℕ → ℕ → Trees → Type 0
  IsTrees opening closing nil = Unit
  IsTrees opening closing (cons t ts) = IsTree opening closing t × IsTrees opening closing ts
