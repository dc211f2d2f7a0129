-- ===== src/Parser/Span.antt =====
-- What the search of src/prxref/parser.py for balanced spans finds.
use prxref.Base.{
  ℕ, ◌+◌, ◌-◌, ◌≤◌, true, false, ◌≡◌, refl, sym, ap, ◌∙◌, subst, Option, none, some, List, [], ◌∷◌,
  ◌++◌, length, ltb, ◌==◌, append_assoc, ==-refl, some_inj, Bool-cases, inl, inr, arith,
  if◌then◌else◌,
}
use prxref.Base.Text.{Text}
use prxref.Parser.{outside, in_string, quote, prepend, scan, longer, spans, largest_balanced_span}
use prxref.Parser.Trees.{
  StringChar, bare, escaped, Tree, Trees, char, literal, group, nil, cons, show_chars, IsLiteral,
  show_tree, show_trees, IsTree, IsTrees,
}

-- `prepend` of a whole text.
unfoldable pub prepend_all : Text → Option Text → Option Text
prepend_all [] o = o
prepend_all (c ∷ s) o = prepend c (prepend_all s o)

prepend_all-append :
    (s t : Text) (o : Option Text) → prepend_all (s ++ t) o ≡ prepend_all s (prepend_all t o)
unfolding prepend_all
prepend_all-append [] t o = refl
prepend_all-append (c ∷ s) t o = ap (prepend c) (prepend_all-append s t o)

prepend_all-some : (s t : Text) → prepend_all s (some t) ≡ some (s ++ t)
unfolding prepend_all
prepend_all-some [] t = refl
prepend_all-some (c ∷ s) t = ap (prepend c) (prepend_all-some s t)

scan-show_chars :
    (opening closing d : ℕ) (cs : List StringChar) (rest : Text)
    → IsLiteral cs
    → scan opening closing in_string d (show_chars cs ++ rest)
      ≡ prepend_all (show_chars cs) (scan opening closing outside d rest)
unfolding scan prepend_all
scan-show_chars opening closing d [] rest h = refl
scan-show_chars opening closing d (bare c ∷ cs) rest h =
    ground (arith, scan-show_chars opening closing d cs rest)
scan-show_chars opening closing d (escaped c ∷ cs) rest h =
    ground (arith, scan-show_chars opening closing d cs rest)

-- Brackets of a kind are two characters, and no quotes.
module _ (opening closing : ℕ) (o : (opening == quote) ≡ false) (q : (closing == quote) ≡ false)
    (x : (closing == opening) ≡ false) where
  scan-opening :
      (d : ℕ) (s : Text)
      → scan opening closing outside d (opening ∷ s)
        ≡ prepend opening (scan opening closing outside (d + 1) s)
  unfolding scan
  scan-opening d s = ground (arith, ==-refl opening)

  scan-closing :
      (d : ℕ) (s : Text)
      → 1 ≤ d
      → scan opening closing outside (d + 1) (closing ∷ s)
        ≡ prepend closing (scan opening closing outside d s)
  unfolding scan
  scan-closing d s h =
      let e : d + 1 - 1 ≡ d = omega arith in
      ground (arith, ==-refl closing, ap (λ n. scan opening closing outside n s) e)

  scan-last : (s : Text) → scan opening closing outside 1 (closing ∷ s) ≡ some (closing ∷ [])
  unfolding scan
  scan-last s = ground (arith, ==-refl closing)

  scan-char :
      (d c : ℕ) (s : Text)
      → IsTree opening closing (char c)
      → scan opening closing outside d (c ∷ s) ≡ prepend c (scan opening closing outside d s)
  unfolding scan IsTree
  scan-char d c s h = ground arith

  scan-quote :
      (d : ℕ) (s : Text)
      → scan opening closing outside d (quote ∷ s)
        ≡ prepend quote (scan opening closing in_string d s)
  unfolding scan
  scan-quote d s = ground arith

  -- Inside a bracket, matching text leads back to the same depth.
  mutual
    unfolding prepend_all show_tree IsTree

    scan-show_tree :
        (d : ℕ) (t : Tree) (rest : Text)
        → 1 ≤ d
        → IsTree opening closing t
        → scan opening closing outside d (show_tree opening closing t ++ rest)
          ≡ prepend_all (show_tree opening closing t) (scan opening closing outside d rest)
    scan-show_tree d (char c) rest n h = scan-char d c rest h
    scan-show_tree d (literal cs) rest n h =
        scan-quote d (show_chars cs ++ rest)
        ∙ ap (prepend quote) (scan-show_chars opening closing d cs rest h)
    scan-show_tree d (group ts) rest n h =
        let inner = show_trees opening closing ts in
        scan-opening d ((inner ++ closing ∷ []) ++ rest)
        ∙ ap (prepend opening) (
            ap (scan opening closing outside (d + 1)) (append_assoc inner (closing ∷ []) rest)
            ∙ scan-show_trees (d + 1) ts (closing ∷ rest) (omega arith) h
            ∙ ap (prepend_all inner) (scan-closing d rest n)
            ∙ sym (prepend_all-append inner (closing ∷ []) (scan opening closing outside d rest)))

    scan-show_trees :
        (d : ℕ) (ts : Trees) (rest : Text)
        → 1 ≤ d
        → IsTrees opening closing ts
        → scan opening closing outside d (show_trees opening closing ts ++ rest)
          ≡ prepend_all (show_trees opening closing ts) (scan opening closing outside d rest)
    scan-show_trees d nil rest n h = refl
    scan-show_trees d (cons t ts) rest n h =
        let first = show_tree opening closing t in
        let others = show_trees opening closing ts in
        ap (scan opening closing outside d) (append_assoc first others rest)
        ∙ scan-show_tree d t (others ++ rest) n h.0
        ∙ ap (prepend_all first) (scan-show_trees d ts rest n h.1)
        ∙ sym (prepend_all-append first others (scan opening closing outside d rest))

  -- From an opening bracket, the scan finds the text up to the bracket that matches it, whatever
  -- brackets stand in string literals on the way and whatever follows.
  pub scan-group :
      (ts : Trees) (rest : Text)
      → IsTrees opening closing ts
      → scan opening closing outside 0 (show_tree opening closing (group ts) ++ rest)
        ≡ some (show_tree opening closing (group ts))
  unfolding show_tree
  scan-group ts rest h =
      let inner = show_trees opening closing ts in
      scan-opening 0 ((inner ++ closing ∷ []) ++ rest)
      ∙ ap (prepend opening) (
          ap (scan opening closing outside 1) (append_assoc inner (closing ∷ []) rest)
          ∙ scan-show_trees 1 ts (closing ∷ rest) (omega arith) h
          ∙ ap (prepend_all inner) (scan-last rest)
          ∙ prepend_all-some inner (closing ∷ []))

-- A span of at least n characters.
abbrev pub AtLeast : ℕ → Option Text → Type 0
AtLeast n found = (t : Text) × (found ≡ some t) × (n ≤ length t)

longer-AtLeast : (n : ℕ) (found new : Option Text) → AtLeast n found → AtLeast n (longer found new)
unfolding longer
longer-AtLeast n found none a = a
longer-AtLeast n none (some s) a = let (t, e, h) = a in (s, refl, ground arith)
longer-AtLeast n (some l) (some s) a =
    let (t, e, h) = a in
    elim (Bool-cases (ltb (length l) (length s))) [
      | inl b ↦ (s, rw b refl, ground (arith, some_inj e))
      | inr b ↦ (l, rw b refl, ground (arith, some_inj e))
    ]

longer-new : (found : Option Text) (s : Text) → AtLeast (length s) (longer found (some s))
unfolding longer
longer-new none s = (s, refl, omega arith)
longer-new (some l) s = elim (Bool-cases (ltb (length l) (length s))) [
  | inl b ↦ (s, rw b refl, omega arith)
  | inr b ↦ (l, rw b refl, ground arith)
]

spans-AtLeast :
    (opening closing n : ℕ) (found : Option Text) (s : Text)
    → AtLeast n found
    → AtLeast n (spans opening closing found s)
unfolding spans
spans-AtLeast opening closing n found [] a = a
spans-AtLeast opening closing n found (c ∷ s) a =
    elim (c == opening)
      as (λ b. AtLeast n (
        if b
        then spans opening closing (longer found (scan opening closing outside 0 (c ∷ s))) s
        else spans opening closing found s)) [
          | true ↦
              spans-AtLeast opening closing n
                (longer found (scan opening closing outside 0 (c ∷ s))) s
                (longer-AtLeast n found (scan opening closing outside 0 (c ∷ s)) a)
          | false ↦ spans-AtLeast opening closing n found s a
        ]

spans-opening :
    (opening closing : ℕ) (found : Option Text) (s : Text)
    → spans opening closing found (opening ∷ s)
      ≡ spans opening closing (longer found (scan opening closing outside 0 (opening ∷ s))) s
unfolding spans
spans-opening opening closing found s =
    ap
      (λ b.
        if b
        then spans opening closing (longer found (scan opening closing outside 0 (opening ∷ s))) s
        else spans opening closing found s)
      (==-refl opening)

spans-finds :
    (opening closing : ℕ) (found : Option Text) (pre s span : Text)
    → scan opening closing outside 0 (opening ∷ s) ≡ some span
    → AtLeast (length span) (spans opening closing found (pre ++ opening ∷ s))
unfolding spans
spans-finds opening closing found [] s span e =
    subst (AtLeast (length span))
      (sym (
        spans-opening opening closing found s
        ∙ ap (λ o. spans opening closing (longer found o) s) e))
      (spans-AtLeast opening closing (length span) (longer found (some span)) s
        (longer-new found span))
spans-finds opening closing found (c ∷ pre) s span e =
    elim (c == opening)
      as (λ b. AtLeast (length span) (
        if b
        then spans opening closing
            (longer found (scan opening closing outside 0 (c ∷ (pre ++ opening ∷ s))))
            (pre ++ opening ∷ s)
        else spans opening closing found (pre ++ opening ∷ s))) [
          | true ↦
              spans-finds opening closing
                (longer found (scan opening closing outside 0 (c ∷ (pre ++ opening ∷ s)))) pre s
                span e
          | false ↦ spans-finds opening closing found pre s span e
        ]

-- An object whose braces match stands in a reply at any place: the search answers a span that is at
-- least as long as the object.
pub largest_balanced_span-finds :
    (pre rest : Text) (ts : Trees)
    → IsTrees b'{' b'}' ts
    → AtLeast
        (length (show_tree b'{' b'}' (group ts)))
        (largest_balanced_span (pre ++ (show_tree b'{' b'}' (group ts) ++ rest)))
unfolding largest_balanced_span show_tree
largest_balanced_span-finds pre rest ts h =
    let object = show_tree b'{' b'}' (group ts) in
    let s = pre ++ (object ++ rest) in
    spans-AtLeast b'[' b']' (length object) (spans b'{' b'}' none s) s (
      spans-finds b'{' b'}' none pre ((show_trees b'{' b'}' ts ++ b'}' ∷ []) ++ rest) object
        (scan-group b'{' b'}' refl refl refl ts rest h))
