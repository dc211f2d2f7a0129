-- ===== src/Reviewer/Heads.antt =====
-- How src/prxref/triage.py reads the lines that src/prxref/reviewer.py writes before a hunk's body.
use prxref.Base.{ℕ, false, Option, some, [], ◌∷◌, ◌++◌, ◌≡◌, refl}
use prxref.Base.Text.{Text, codes, text_eq, drop_prefix, starts_with, is_digit, show_number}
use prxref.Triage.Diff.{Hunk, FileDiff, range, match_hunk}
use prxref.Triage.Parse.{
  header, old_operand, new_operand, hunk_header, rename_from, rename_to, copy_from, copy_to, other,
  classify, classify_hunk, classify_extended, operand, is_binary_line, takes_hunks,
}
use prxref.Reviewer.{hunk_head}
use prxref.Reviewer.Decimal.{number-show_number}

range-show :
    (a b c : ℕ) (s : Text)
    → is_digit c ≡ false
    → range (show_number a ++ (codes "," ++ (show_number b ++ c ∷ s))) ≡ some (a, b, c ∷ s)
unfolding range drop_prefix is_digit
range-show a b c s h =
    rw (number-show_number a b',' (show_number b ++ c ∷ s) refl, range)
      (rw (number-show_number b c s h) refl)

abbrev pub empty_hunk : ℕ → ℕ → ℕ → ℕ → Hunk
empty_hunk o a n b = record {
  old_start = o;
  old_count = a;
  new_start = n;
  new_count = b;
  lines = [];
}

match_hunk-hunk_head : (o a n b : ℕ) → match_hunk (hunk_head o a n b) ≡ some (empty_hunk o a n b)
unfolding match_hunk starts_with drop_prefix is_digit
match_hunk-hunk_head o a n b =
    let tail = codes "+" ++ (show_number n ++ (codes "," ++ (show_number b ++ codes " @@"))) in
    rw (range-show o a 32 tail refl, match_hunk)
      (rw (range-show n b 32 (codes "@@") refl, match_hunk) refl)

-- A printed hunk header is read back, in a file that is not binary.
pub classify-hunk_head :
    (f : FileDiff) (o a n b : ℕ)
    → f.is_binary ≡ false
    → classify (some f) (hunk_head o a n b) ≡ hunk_header (empty_hunk o a n b)
unfolding classify classify_hunk starts_with drop_prefix takes_hunks
classify-hunk_head f o a n b h = rw (match_hunk-hunk_head o a n b, h) refl

module _ (f : FileDiff) (p : Text) where
  pub classify-diff_git :
      (cur : Option FileDiff)
      → classify cur (codes "diff --git a/" ++ p) ≡ header (codes "diff --git a/" ++ p)
  unfolding classify starts_with drop_prefix
  classify-diff_git cur = refl

  pub classify-old : classify (some f) (codes "--- " ++ p) ≡ old_operand p
  unfolding classify starts_with drop_prefix
  classify-old = refl

  pub classify-new : classify (some f) (codes "+++ " ++ p) ≡ new_operand p
  unfolding classify starts_with drop_prefix
  classify-new = refl

  pub classify-rename_from :
      classify (some f) (codes "rename" ++ codes " from " ++ p) ≡ rename_from p
  unfolding classify classify_hunk classify_extended operand is_binary_line match_hunk starts_with
      text_eq drop_prefix
  classify-rename_from = refl

  pub classify-rename_to : classify (some f) (codes "rename" ++ codes " to " ++ p) ≡ rename_to p
  unfolding classify classify_hunk classify_extended operand is_binary_line match_hunk starts_with
      text_eq drop_prefix
  classify-rename_to = refl

  pub classify-copy_from : classify (some f) (codes "copy" ++ codes " from " ++ p) ≡ copy_from p
  unfolding classify classify_hunk classify_extended operand is_binary_line match_hunk starts_with
      text_eq drop_prefix
  classify-copy_from = refl

  pub classify-copy_to : classify (some f) (codes "copy" ++ codes " to " ++ p) ≡ copy_to p
  unfolding classify classify_hunk classify_extended operand is_binary_line match_hunk starts_with
      text_eq drop_prefix
  classify-copy_to = refl

-- The line between two files says nothing.
pub classify-empty : (cur : Option FileDiff) → classify cur [] ≡ other
unfolding classify classify_hunk classify_extended operand is_binary_line match_hunk starts_with
    text_eq drop_prefix
classify-empty cur = refl
