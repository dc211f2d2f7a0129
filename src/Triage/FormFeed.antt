-- ===== src/Triage/FormFeed.antt =====
-- A form feed inside an added line, as `parse_unified_diff` of src/prxref/triage.py reads it: the
-- diff is cut by `splitlines()`, which ends a line there, where git does not.
use prxref.Base.{ℕ, ◌+◌, false, none, some, [], ◌∷◌, ◌++◌, ◌≡◌, refl, ap, ◌∙◌, arith, ◌==◌}
use prxref.Base.Text.{Text}
use prxref.Triage.Lines.{split_lines, is_boundary, Clean, split_lines-line}
use prxref.Triage.Diff.{
  plus, context, Hunk, parse_hunk_body, parse_body, body_line, body_step, first_char, skip_markers,
  is_backslash,
}

-- The body that git writes for two added lines, the first of them with a form feed in it.
abbrev pub two_added : Text → Text → Text → Text
two_added a t c = (b'+' ∷ a) ++ 12 ∷ (t ++ 10 ∷ ((b'+' ∷ c) ++ 10 ∷ []))

abbrev pub two_new : ℕ → ℕ → Hunk
two_new o n = record { old_start = o; old_count = 0; new_start = n; new_count = 2; lines = [] }

split_lines-two_added :
    (a t c : Text)
    → Clean a
    → Clean t
    → Clean c
    → split_lines (two_added a t c) ≡ (b'+' ∷ a) ∷ t ∷ (b'+' ∷ c) ∷ []
unfolding is_boundary split_lines
split_lines-two_added a t c ha ht hc =
    split_lines-line (b'+' ∷ a) 12 _ (refl, ha) refl refl
    ∙ ap (λ r. (b'+' ∷ a) ∷ r)
        (split_lines-line t 10 _ ht refl refl
          ∙ ap (λ r. t ∷ r) (split_lines-line (b'+' ∷ c) 10 [] (refl, hc) refl refl))

parse_cut_body :
    (o n : ℕ) (a : Text) (x : ℕ) (t c : Text)
    → (x == b'+') ≡ false
    → (x == 92) ≡ false
    → (x == 32) ≡ false
    → parse_hunk_body (two_new o n) ((b'+' ∷ a) ∷ (x ∷ t) ∷ (b'+' ∷ c) ∷ []) ≡ (
      record (two_new o n) {
        lines =
            record { kind = plus; text = a; old_line = none; new_line = some n }
            ∷ record { kind = context; text = x ∷ t; old_line = some o; new_line = some (n + 1) }
            ∷ [];
      },
      (b'+' ∷ c) ∷ [],
    )
unfolding parse_hunk_body parse_body body_line body_step first_char skip_markers is_backslash
parse_cut_body o n a x t c h h' h'' = ground arith

-- Under a header of two new lines, the body of two added lines of which the first has a form feed
-- in it, followed by a character other than a plus, a backslash or a blank, is read as one added
-- line, cut off at the form feed, and one context line; the second added line is left outside.
pub parse_hunk_body-form_feed :
    (o n : ℕ) (a : Text) (x : ℕ) (t c : Text)
    → Clean a
    → Clean (x ∷ t)
    → Clean c
    → (x == b'+') ≡ false
    → (x == 92) ≡ false
    → (x == 32) ≡ false
    → parse_hunk_body (two_new o n) (split_lines (two_added a (x ∷ t) c)) ≡ (
      record (two_new o n) {
        lines =
            record { kind = plus; text = a; old_line = none; new_line = some n }
            ∷ record { kind = context; text = x ∷ t; old_line = some o; new_line = some (n + 1) }
            ∷ [];
      },
      (b'+' ∷ c) ∷ [],
    )
parse_hunk_body-form_feed o n a x t c ha ht hc h h' h'' =
    ap (parse_hunk_body (two_new o n)) (split_lines-two_added a (x ∷ t) c ha ht hc)
    ∙ parse_cut_body o n a x t c h h' h''
