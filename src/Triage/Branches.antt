-- ===== src/Triage/Branches.antt =====
-- The state of `parse_unified_diff` of src/prxref/triage.py, and what its branches do to it.
use prxref.Base.{
  Bool, true, false, not, Option, none, some, List, [], ◌∷◌, ◌++◌, if◌then◌else◌, is_some,
}
use prxref.Base.Text.{Text, text_eq}
use prxref.Triage.Diff.{
  Status, added, modified, removed, renamed, copied, FileDiff, clean_path, match_diff_git,
}

-- The local variables of `parse_unified_diff`. `cur.status` is the default until the file is closed.
pub record Parser : Type 0 where
  pub files : List FileDiff
  pub pending_old : Option Text
  pub have_pending_old : Bool
  pub cur : Option FileDiff
  pub copy_hint : Bool
  pub rename_hint : Bool
  pub added_hint : Bool
  pub removed_hint : Bool

abbrev pub initial : Parser
initial = record {
  files = [];
  pending_old = none;
  have_pending_old = false;
  cur = none;
  copy_hint = false;
  rename_hint = false;
  added_hint = false;
  removed_hint = false;
}

unfoldable pub same_path : Option Text → Option Text → Bool
same_path none none = true
same_path (some a) (some b) = text_eq a b
same_path _ _ = false

-- The status that `close_current` gives.
unfoldable pub status_of : Parser → FileDiff → Status
unfolding same_path
status_of st f =
    if st.copy_hint
    then copied
    else if st.rename_hint
    then renamed
    else if st.added_hint
    then added
    else if st.removed_hint
    then removed
    else if not (is_some f.old_path)
    then added
    else if not (is_some f.new_path)
    then removed
    else if not (same_path f.old_path f.new_path)
    then renamed
    else modified

unfoldable pub close_current : Parser → Parser
unfolding status_of
close_current st = elim st.cur [
  | none ↦ st
  | some f ↦ record st { files = st.files ++ record f { status = status_of st f } ∷ []; cur = none }
]

-- `a or b or c` over paths: the first that is there and not empty, else the last.
unfoldable pub or_path : Option Text → Text → Text
or_path none t = t
or_path (some []) t = t
or_path (some (c ∷ s)) t = c ∷ s

abbrev pub new_file : Option Text → Option Text → Text → FileDiff
new_file old new path = record {
  path = path;
  old_path = old;
  new_path = new;
  status = modified;
  is_binary = false;
  hunks = [];
}

-- A `diff --git` line.
unfoldable pub on_header : Parser → Text → Parser
unfolding match_diff_git close_current or_path
on_header st line =
    let closed = close_current st in
    let paths = match_diff_git line in
    let old : Option Text = elim paths [ none ↦ none | some (a, b) ↦ some a ] in
    let new : Option Text = elim paths [ none ↦ none | some (a, b) ↦ some b ] in
    record closed {
      cur = some (new_file old new (or_path new (or_path old [])));
      copy_hint = false;
      rename_hint = false;
      added_hint = false;
      removed_hint = false;
    }

-- A `--- ` line; the argument is what follows the marker.
unfoldable pub on_old : Parser → Text → Parser
unfolding clean_path
on_old st raw = record st { pending_old = clean_path raw; have_pending_old = true }

-- A `+++ ` line.
unfoldable pub on_new : Parser → Text → Parser
unfolding clean_path or_path
on_new st raw =
    let new = clean_path raw in
    record st {
      cur = elim st.cur [
        | none ↦ some (new_file st.pending_old new (or_path new (or_path st.pending_old [])))
        | some f ↦
            let old = if st.have_pending_old then st.pending_old else f.old_path in
            some
              (record f { old_path = old; new_path = new; path = or_path new (or_path old f.path) })
      ];
      pending_old = none;
      have_pending_old = false;
    }

unfoldable pub with_cur : (FileDiff → FileDiff) → Parser → Parser
with_cur f st = elim st.cur [ none ↦ st | some x ↦ record st { cur = some (f x) } ]

-- `_clean_path(…) or cur.old_path`
abbrev pub or_else : Option Text → Option Text → Option Text
or_else none b = b
or_else (some []) b = b
or_else (some (c ∷ s)) b = some (c ∷ s)

unfoldable pub on_binary : Parser → Parser
unfolding with_cur
on_binary st = with_cur (λ f. record f { is_binary = true; hunks = [] }) st

unfoldable pub on_rename_from : Parser → Text → Parser
unfolding with_cur
on_rename_from st raw = record (with_cur (λ f. record f { old_path = some raw }) st) {
  rename_hint = true;
}

unfoldable pub on_rename_to : Parser → Text → Parser
unfolding with_cur
on_rename_to st raw = record (with_cur (λ f. record f { new_path = some raw; path = raw }) st) {
  rename_hint = true;
}

unfoldable pub on_copy_from : Parser → Text → Parser
unfolding clean_path with_cur
on_copy_from st raw =
    record (with_cur (λ f. record f { old_path = or_else (clean_path raw) f.old_path }) st) {
      copy_hint = true;
    }

-- `if cleaned: cur.new_path = cur.path = cleaned`
abbrev pub copied_to : Option Text → FileDiff → FileDiff
copied_to none f = f
copied_to (some []) f = f
copied_to (some (c ∷ s)) f = record f { new_path = some (c ∷ s); path = c ∷ s }

unfoldable pub on_copy_to : Parser → Text → Parser
unfolding clean_path with_cur
on_copy_to st raw = record (with_cur (copied_to (clean_path raw)) st) { copy_hint = true }
