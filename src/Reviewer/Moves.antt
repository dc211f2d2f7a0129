-- ===== src/Reviewer/Moves.antt =====
-- How `parse_unified_diff` of src/prxref/triage.py reads the head of a file that `_render_file` of
-- src/prxref/reviewer.py wrote, up to its rename or copy lines.
use prxref.Base.{
  Bool, true, false, Option, none, some, List, [], ◌∷◌, ◌++◌, ◌≡◌, refl, sym, subst, All,
  false≢true,
}
use prxref.Base.Text.{Text, codes}
use prxref.Triage.Diff.{Status, added, modified, removed, renamed, copied, FileDiff, clean_path}
use prxref.Triage.Lines.{Clean}
use prxref.Triage.Branches.{
  Parser, on_header, on_rename_from, on_rename_to, on_copy_from, on_copy_to, copied_to, or_else,
  with_cur, new_file, close_current, or_path,
}
use prxref.Triage.Parse.{Line, classify, on_line, rename_from, rename_to, copy_from, copy_to}
use prxref.Triage.Loop.{Rounds, line_round, is_hunk}
use prxref.Reviewer.{is_renamed, is_copied, moved, renames, copies, any_hunks}
use prxref.Reviewer.Heads.{
  classify-diff_git, classify-rename_from, classify-rename_to, classify-copy_from, classify-copy_to,
}
use prxref.Reviewer.Rounds.{Numbered}
use prxref.Reviewer.Paths.{PlainPath}

-- A status that a diff shows by its paths or by its rename or copy lines.
abbrev pub StatusFits : Status → Option Text → Option Text → Type 0
StatusFits renamed (some a) (some b) = Unit {0}
StatusFits copied (some a) (some b) = Unit {0}
StatusFits added none (some b) = Unit {0}
StatusFits removed (some a) none = Unit {0}
StatusFits modified (some a) (some b) = a ≡ b
StatusFits _ _ _ = ⊥

-- A text file of a diff with at least one hunk, whose paths and lines have no line boundary.
pub record IsWritten (f : FileDiff) : Type 0 where
  pub text : f.is_binary ≡ false
  pub changed : any_hunks f.hunks ≡ true
  pub numbered : All Numbered f.hunks
  pub old : PlainPath f.old_path
  pub new : PlainPath f.new_path
  pub path : f.path ≡ or_path f.new_path (or_path f.old_path [])
  pub status : StatusFits f.status f.old_path f.new_path
  pub clean : All (λ h. All (λ l. Clean l.text) h.lines) f.hunks

-- A round that takes one line.
pub one_line :
    (st : Parser) (l : Text) (ls : List Text) (last : Parser) (c : Line)
    → classify st.cur l ≡ c
    → is_hunk c ≡ false
    → Rounds (on_line st c) ls last
    → Rounds st (l ∷ ls) last
one_line st l ls last c e h r =
    line_round (subst (λ x. is_hunk x ≡ false) (sym e) h)
      (subst (λ x. Rounds (on_line st x) ls last) (sym e) r)

-- A file that was opened, with what its rename or copy lines say.
abbrev pub opened : Parser → Bool → Bool → FileDiff → Parser
opened st c r g = record (close_current st) {
  cur = some g;
  copy_hint = c;
  rename_hint = r;
  added_hint = false;
  removed_hint = false;
}

abbrev pub Opens : Parser → Bool → Bool → List Text → Parser → Type 0
Opens st c r ls last =
    (a b : Option Text) (p : Text) → Rounds (opened st c r (new_file a b p)) ls last

pub head_round :
    (st : Parser) (t : Text) (ls : List Text) (last : Parser)
    → Opens st false false ls last
    → Rounds st ((codes "diff --git a/" ++ t) ∷ ls) last
unfolding on_line on_header is_hunk
head_round st t ls last k =
    one_line st (codes "diff --git a/" ++ t) ls last _
      (classify-diff_git (new_file none none []) t st.cur) refl (k _ _ _)

copied_new :
    (o a b : Option Text) (p : Text) (P : FileDiff → Type 0)
    → ((x : Option Text) (q : Text) → P (new_file a x q))
    → P (copied_to o (new_file a b p))
copied_new none a b p P k = k b p
copied_new (some []) a b p P k = k b p
copied_new (some (c ∷ t)) a b p P k = k (some (c ∷ t)) (c ∷ t)

rename-Rounds :
    (st : Parser) (o n : Text) (ls : List Text) (last : Parser)
    → Opens st false true ls last
    → Opens st false false (moved (codes "rename") (some o) (some n) ++ ls) last
unfolding on_line on_rename_from on_rename_to with_cur is_hunk
rename-Rounds st o n ls last k a b p =
    one_line _ _ _ last (rename_from o) (classify-rename_from (new_file a b p) o) refl (
      one_line _ _ _ last (rename_to n) (classify-rename_to (new_file (some o) b p) n) refl
        (k (some o) (some n) n))

copy-Rounds :
    (st : Parser) (o n : Text) (ls : List Text) (last : Parser)
    → Opens st true false ls last
    → Opens st false false (moved (codes "copy") (some o) (some n) ++ ls) last
unfolding on_line on_copy_from on_copy_to with_cur is_hunk
copy-Rounds st o n ls last k a b p =
    one_line _ _ _ last (copy_from o) (classify-copy_from (new_file a b p) o) refl (
      one_line _ _ _ last (copy_to n) (classify-copy_to (new_file (or_else (clean_path o) a) b p) n)
        refl
        (copied_new (clean_path n) (or_else (clean_path o) a) b p
          (λ g. Rounds (opened st true false g) ls last) (k (or_else (clean_path o) a))))

-- The rename or copy lines.
pub moves-Rounds :
    (s : Status) (o n : Option Text) (st : Parser) (ls : List Text) (last : Parser)
    → StatusFits s o n
    → PlainPath o
    → PlainPath n
    → Opens st (is_copied s) (is_renamed s) ls last
    → Opens st false false (renames s o n ++ (copies s o n ++ ls)) last
moves-Rounds renamed (some (c ∷ o)) (some (d ∷ n)) st ls last h x y k =
    rename-Rounds st (c ∷ o) (d ∷ n) ls last k
moves-Rounds copied (some (c ∷ o)) (some (d ∷ n)) st ls last h x y k =
    copy-Rounds st (c ∷ o) (d ∷ n) ls last k
moves-Rounds added none (some n) st ls last h x y k = k
moves-Rounds removed (some o) none st ls last h x y k = k
moves-Rounds modified (some o) (some n) st ls last h x y k = k
moves-Rounds renamed (some []) n st ls last h x y k = absurd (false≢true x.0)
moves-Rounds renamed o (some []) st ls last h x y k = absurd (false≢true y.0)
moves-Rounds copied (some []) n st ls last h x y k = absurd (false≢true x.0)
moves-Rounds copied o (some []) st ls last h x y k = absurd (false≢true y.0)
moves-Rounds _ _ _ st ls last h x y k = absurd h
