-- ===== src/Parser/Tests.antt =====
-- Runs of src/prxref/parser.py.
use prxref.Base.{◌≡◌, refl, some, [], ◌∷◌, ◌++◌, length}
use prxref.Base.Text.{codes}
use prxref.Parser.{scan, outside, largest_balanced_span}
use prxref.Parser.Trees.{
  bare, escaped, Trees, literal, group, nil, cons, IsTree, IsTrees, show_tree,
}
use prxref.Parser.Span.{scan-group, AtLeast, largest_balanced_span-finds}

-- {"}\""}
abbrev brace_in_string : Trees
brace_in_string = cons (literal (bare b'}' ∷ escaped b'"' ∷ [])) nil

brace_in_string-IsTrees : IsTrees b'{' b'}' brace_in_string
unfolding IsTree
brace_in_string-IsTrees = ((refl, refl, tt), tt)

found_in_reply :
    largest_balanced_span (codes "Sure: {" ++ 34 ∷ (codes "}" ++ 34 ∷ codes "} done"))
    ≡ some (codes "{" ++ 34 ∷ (codes "}" ++ 34 ∷ codes "}"))
unfolding largest_balanced_span
found_in_reply = refl

scan-group_example :
    scan b'{' b'}' outside 0 (show_tree b'{' b'}' (group brace_in_string) ++ codes " and }")
    ≡ some (show_tree b'{' b'}' (group brace_in_string))
scan-group_example =
    scan-group b'{' b'}' refl refl refl brace_in_string (codes " and }") brace_in_string-IsTrees

largest_balanced_span-finds_example :
    AtLeast (length (show_tree b'{' b'}' (group brace_in_string))) (
      largest_balanced_span
        (codes "ok " ++ (show_tree b'{' b'}' (group brace_in_string) ++ codes " }")))
largest_balanced_span-finds_example =
    largest_balanced_span-finds (codes "ok ") (codes " }") brace_in_string brace_in_string-IsTrees
