-- ===== src/Reviewer/Paths.antt =====
-- The paths that src/prxref/reviewer.py writes after `---` and `+++`, read by `_clean_path` of
-- src/prxref/triage.py.
use prxref.Base.{
  ℕ, true, false, Option, none, some, [], ◌∷◌, ◌≡◌, refl, ap, ◌∙◌, if◌then◌else◌, arith, All, ◌==◌,
}
use prxref.Base.Text.{Text, codes, text_eq, drop_prefix, split_at, before}
use prxref.Triage.Lines.{is_boundary, Clean}
use prxref.Triage.Diff.{strip_cr, unquote, strip_prefixes, path_prefixes, clean_path}
use prxref.Reviewer.{is_path, operand_of}

-- A path that a diff can name: not empty, without a tab and without a line boundary.
abbrev pub PlainPath : Option Text → Type 0
PlainPath none = Unit {0}
PlainPath (some p) = (is_path (some p) ≡ true) × All (λ c. (c == 9) ≡ false) p × Clean p

tabless : (p : Text) → All (λ c. (c == 9) ≡ false) p → split_at (9 ∷ []) p ≡ none
unfolding split_at drop_prefix
tabless [] h = refl
tabless (c ∷ p) h = ground (arith, tabless p h.1)

not_return : (c : ℕ) → is_boundary c ≡ false → (c == 13) ≡ false
unfolding is_boundary
not_return c h = ground arith

no_return : (p : Text) → Clean p → strip_cr p ≡ p
unfolding strip_cr
no_return [] h = refl
no_return (c ∷ []) h = ground (arith, not_return c h.0)
no_return (c ∷ d ∷ p) h = rw (no_return (d ∷ p) h.1, strip_cr) refl

uncut : (t : Text) → All (λ c. (c == 9) ≡ false) t → Clean t → strip_cr (before (9 ∷ []) t) ≡ t
unfolding before
uncut t h k =
    let whole : before (9 ∷ []) t ≡ t = rw (tabless t h, before) refl in
    ap strip_cr whole ∙ no_return t k

-- What `_clean_path` does with a text that it does not cut.
abbrev clean_rest : Text → Option Text
unfolding unquote text_eq strip_prefixes
clean_rest t =
    let rest = unquote t in
    if text_eq rest (codes "/dev/null") then none else some (strip_prefixes path_prefixes rest)

pub clean_path-old : (p : Option Text) → PlainPath p → clean_path (operand_of (codes "a/") p) ≡ p
unfolding clean_path is_boundary
clean_path-old none h = refl
clean_path-old (some p) h =
    ap clean_rest (uncut (97 ∷ 47 ∷ p) (refl, (refl, h.1)) (refl, (refl, h.2)))

pub clean_path-new : (p : Option Text) → PlainPath p → clean_path (operand_of (codes "b/") p) ≡ p
unfolding clean_path is_boundary
clean_path-new none h = refl
clean_path-new (some p) h =
    ap clean_rest (uncut (98 ∷ 47 ∷ p) (refl, (refl, h.1)) (refl, (refl, h.2)))
