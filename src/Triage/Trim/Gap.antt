-- ===== src/Triage/Trim/Gap.antt =====
-- A gap that `trim_hunk_context` of src/prxref/triage.py leaves inside one hunk.
use prxref.Base.{ℕ, ◌+◌, ◌≡◌, [], ◌∷◌, none, some, arith, any, count_where}
use prxref.Base.Text.{Text}
use prxref.Triage.Diff.{
  Hunk, plus, context, parse_hunk_body, parse_body, body_line, body_step, first_char, skip_markers,
  is_backslash,
}
use prxref.Triage.Trim.{trim_hunk_context, old_side, new_side}

-- Two added lines with one unchanged line between them.
abbrev pub apart : ℕ → ℕ → Text → Text → Text → Hunk
apart o n a c d = record {
  old_start = o;
  old_count = 1;
  new_start = n;
  new_count = 3;
  lines =
      record { kind = plus; text = a; old_line = none; new_line = some n }
      ∷ record { kind = context; text = c; old_line = some o; new_line = some (n + 1) }
      ∷ record { kind = plus; text = d; old_line = none; new_line = some (n + 2) }
      ∷ [];
}

-- Trimmed to no context, they stand in one hunk next to each other, and who reads it by its header
-- numbers the second n + 1, although it is line n + 2.
pub trim_gap :
    (o n : ℕ) (a c d : Text)
    → let t = trim_hunk_context (apart o n a c d) 0 in
      (t.lines
        ≡ record { kind = plus; text = a; old_line = none; new_line = some n }
          ∷ record { kind = plus; text = d; old_line = none; new_line = some (n + 2) }
          ∷ [])
      × ((parse_hunk_body (record t { lines = [] }) ((b'+' ∷ a) ∷ (b'+' ∷ d) ∷ [])).0.lines
          ≡ record { kind = plus; text = a; old_line = none; new_line = some n }
            ∷ record { kind = plus; text = d; old_line = none; new_line = some (n + 1) }
            ∷ [])
unfolding trim_hunk_context parse_hunk_body parse_body body_line body_step first_char skip_markers
    is_backslash any old_side new_side count_where
trim_gap o n a c d = ground arith
