-- ===== src/Triage/Files.antt =====
-- What every file that `parse_unified_diff` of src/prxref/triage.py returns satisfies, by the rounds
-- of its loop.
use prxref.Base.{
  true, false, Option, none, some, Option-cases, List, [], ◌∷◌, ◌++◌, ◌≡◌, refl, sym, subst, arith,
  ◌⊎◌, inl, inr, length, All, if◌then◌else◌,
}
use prxref.Base.Text.{Text}
use prxref.Triage.Lines.{split_lines}
use prxref.Triage.Diff.{Hunk, FileDiff, clean_path}
use prxref.Triage.Numbers.{HunkFits, parse_hunk_body-HunkFits}
use prxref.Triage.Branches.{
  Parser, initial, on_header, on_old, on_new, on_binary, on_rename_from, on_rename_to, on_copy_from,
  on_copy_to, with_cur, copied_to, new_file, status_of, or_path, or_else, close_current,
}
use prxref.Triage.Parse.{
  Line, header, old_operand, new_operand, hunk_header, binary, rename_from, rename_to, copy_from,
  copy_to, new_mode, deleted_mode, other, classify, takes_hunks, on_line, add_hunk,
  parse_unified_diff,
}
use prxref.Triage.Loop.{Rounds, at_end, hunk_round, line_round, classify-hunk, parse_lines-Rounds}

-- The numbers of each hunk fit, and a binary file has no hunks.
abbrev pub FileFits : FileDiff → Type 0
FileFits f = All HunkFits f.hunks × ((f.is_binary ≡ false) ⊎ (f.hunks ≡ []))

abbrev CurFits : Option FileDiff → Type 0
CurFits none = Unit
CurFits (some f) = FileFits f

abbrev ParserFits : Parser → Type 0
ParserFits st = All FileFits st.files × CurFits st.cur

All-snoc {ℓ κ} :
    {A : Type ℓ} (P : A → Type κ) (xs : List A) (x : A) → All P xs → P x → All P (xs ++ x ∷ [])
All-snoc P [] x h p = (p, tt)
All-snoc P (y ∷ xs) x h p = (h.0, All-snoc P xs x h.1 p)

CurFits-with_cur :
    (g : FileDiff → FileDiff) (st : Parser)
    → ((f : FileDiff) → st.cur ≡ some f → FileFits f → FileFits (g f))
    → ParserFits st
    → ParserFits (with_cur g st)
unfolding with_cur
CurFits-with_cur g st k h = elim (Option-cases st.cur) [
  | inl e ↦ subst ParserFits (sym (with_cur_none e)) h
  | inr (f, e) ↦ subst ParserFits (sym (with_cur_some f e)) (h.0, k f e (subst CurFits e h.1))
]
  where
    with_cur_none : st.cur ≡ none → with_cur g st ≡ st
    with_cur_none e = rw e refl

    with_cur_some :
        (f : FileDiff) → st.cur ≡ some f → with_cur g st ≡ record st { cur = some (g f) }
    with_cur_some f e = rw e refl

close_current-fits : (st : Parser) → ParserFits st → ParserFits (close_current st)
unfolding close_current
close_current-fits st h = elim (Option-cases st.cur) [
  | inl e ↦ subst ParserFits (sym (closed_none e)) h
  | inr (f, e) ↦
      subst ParserFits (sym (closed_some f e))
        (All-snoc FileFits st.files _ h.0 (subst CurFits e h.1), tt)
]
  where
    closed_none : st.cur ≡ none → close_current st ≡ st
    closed_none e = rw e refl

    closed_some :
        (f : FileDiff)
        → st.cur ≡ some f
        → close_current st
          ≡ record st { files = st.files ++ record f { status = status_of st f } ∷ []; cur = none }
    closed_some f e = rw e refl

copied_to-fits : (o : Option Text) (f : FileDiff) → FileFits f → FileFits (copied_to o f)
copied_to-fits none f h = h
copied_to-fits (some []) f h = h
copied_to-fits (some (c ∷ s)) f h = h

on_new-fits : (st : Parser) (raw : Text) → ParserFits st → ParserFits (on_new st raw)
unfolding on_new
on_new-fits st raw h = (h.0, on_new_cur st.cur h.1)
  where
    on_new_cur :
        (c : Option FileDiff)
        → CurFits c
        → CurFits (elim c [
          | none ↦ some (
              new_file st.pending_old
                (clean_path raw)
                (or_path (clean_path raw) (or_path st.pending_old [])))
          | some f ↦
              let old = if st.have_pending_old then st.pending_old else f.old_path in
              some (record f {
                old_path = old;
                new_path = clean_path raw;
                path = or_path (clean_path raw) (or_path old f.path);
              })
        ])
    on_new_cur none k = (tt, inr refl)
    on_new_cur (some f) k = k

on_line-fits : (st : Parser) (l : Line) → ParserFits st → ParserFits (on_line st l)
unfolding on_line on_header on_old on_binary on_rename_from on_rename_to on_copy_from on_copy_to
on_line-fits st (header l) h = ((close_current-fits st h).0, (tt, inr refl))
on_line-fits st (old_operand raw) h = h
on_line-fits st (new_operand raw) h = on_new-fits st raw h
on_line-fits st (hunk_header g) h = h
on_line-fits st binary h = CurFits-with_cur _ st (λ f e k. (tt, inr refl)) h
on_line-fits st (rename_from raw) h =
    CurFits-with_cur (λ f. record f { old_path = some raw }) st (λ f e k. k) h
on_line-fits st (rename_to raw) h =
    CurFits-with_cur (λ f. record f { new_path = some raw; path = raw }) st (λ f e k. k) h
on_line-fits st (copy_from raw) h =
    CurFits-with_cur (λ f. record f { old_path = or_else (clean_path raw) f.old_path }) st
      (λ f e k. k) h
on_line-fits st (copy_to raw) h =
    CurFits-with_cur (copied_to (clean_path raw)) st (λ f e k. copied_to-fits (clean_path raw) f k)
      h
on_line-fits st new_mode h = h
on_line-fits st deleted_mode h = h
on_line-fits st other h = h

add_hunk-fits :
    (st : Parser) (g : Hunk)
    → takes_hunks st.cur ≡ true
    → HunkFits g
    → ParserFits st
    → ParserFits (add_hunk st g)
unfolding add_hunk takes_hunks
add_hunk-fits st g t k h =
    CurFits-with_cur (λ f. record f { hunks = f.hunks ++ g ∷ [] }) st
      (λ f e n.
        let takes : takes_hunks (some f) ≡ true = subst (λ c. takes_hunks c ≡ true) e t in
        (All-snoc HunkFits f.hunks g n.0 k, inl (ground arith)))
      h

Rounds-fits :
    (st : Parser) (ls : List Text) (last : Parser)
    → Rounds st ls last
    → ParserFits st
    → ParserFits last
Rounds-fits st [] last (at_end _) h = h
Rounds-fits st (l ∷ ls) last (hunk_round g e r) h =
    let c = classify-hunk st.cur l g e in
    let f = parse_hunk_body-HunkFits g ls c.1 in
    Rounds-fits _ _ last r (add_hunk-fits st _ c.0 f.0 h)
Rounds-fits st (l ∷ ls) last (line_round e r) h =
    Rounds-fits _ _ last r (on_line-fits st (classify st.cur l) h)

-- For any text: in every file that the parser returns, each hunk's numbers are consecutive from its
-- header's starts, no more lines are added or removed than the header counts, and a binary file has
-- no hunks.
pub parse_unified_diff-FileFits : (diff : Text) → All FileFits (parse_unified_diff diff)
unfolding parse_unified_diff
parse_unified_diff-FileFits diff =
    (close_current-fits _ (
      Rounds-fits initial (split_lines diff) _
        (parse_lines-Rounds (length (split_lines diff)) initial (split_lines diff) (omega arith))
        (tt, tt))).0
