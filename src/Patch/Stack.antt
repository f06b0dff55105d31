-- ===== src/Patch/Stack.antt =====
-- A whole plan, applied in order and rolled back from the last patch to the first.
use sisu_kodo.Prelude.{
  ℕ, suc, ◌+◌, ◌≤◌, ◌<◌, String, Option, none, some, Bool, true, not, List, [], ◌∷◌, ◌++◌, ◌≡◌,
  refl, sym, ap, ◌∙◌, arith, reverse, filter, eq_iff, length, append_assoc, append-nil,
  reverse-cons, Bool-cases, inl, inr, is_some, ◌||◌,
}
use sisu_kodo.Failure.{Result, ok, err}
use sisu_kodo.Failure.Async.{continue}
use sisu_kodo.Patch.{
  PatchHistoryRow, PatchWorld, PatchItem, ReversiblePatchInput, read_utf8, find_patch_history,
  mark_patch_rolled_back, in_step, list_patch_history_by_step, order_by_index,
  rollback_reversible_patch, rollback_rows, rollback_applied_patches, resolve_patch_path_or_throw,
  apply_plan, patch_input,
}
use sisu_kodo.Patch.History.{find-mark_rolled_back_ne, find-concat, find-concat_ne}
use sisu_kodo.Patch.Single.{SameFiles, first_row, applied_files, apply_fresh, rollback_first}

abbrev step : String
step = "ApplyPatchST"

-- The table has no row of the step at index `i` or above.
abbrev FreshFrom : String → ℕ → List PatchHistoryRow → Type 0
FreshFrom run i rows = (j : ℕ) → i ≤ j → find_patch_history rows run step j ≡ none

-- The rows of a plan, numbered from `i`.
abbrev IsRun : String → ℕ → List PatchHistoryRow → Type 0
IsRun run i [] = Unit
IsRun run i (r ∷ rs) = (in_step run step r ≡ true) × (r.patch_index ≡ i) × IsRun run (suc i) rs

module _ (sha256 : String → String) (now : ℕ) where
  -- A rollback that got through a part goes on with the rest.
  rollback_rows-append :
      (run : String) (rows more : List PatchHistoryRow) (n : ℕ) (u : PatchWorld) {m : ℕ}
      {v : PatchWorld}
      → rollback_rows sha256 now run step rows n u ≡ (ok m, v)
      → rollback_rows sha256 now run step (rows ++ more) n u
        ≡ rollback_rows sha256 now run step more m v
  unfolding rollback_rows
  rollback_rows-append run [] more n u h = ground arith
  rollback_rows-append run (r ∷ rows) more n u {m} {v} h =
      elim (Bool-cases (not (is_some r.applied_at) || is_some r.rolled_back_at)) [
        | inl skip ↦ rw skip (rollback_rows-append run rows more n u (rw skip at h))
        | inr undo ↦ rw undo (
            after (rollback_reversible_patch sha256 now run step r.patch_index u).0
              (rollback_reversible_patch sha256 now run step r.patch_index u).1
              (λ y e. rollback_rows-append run rows more (n + 1) y e) (rw undo at h))
      ]
    where
      after :
          (res : Result Unit) (x : PatchWorld)
          → ((y : PatchWorld)
              → rollback_rows sha256 now run step rows (n + 1) y ≡ (ok m, v)
              → rollback_rows sha256 now run step (rows ++ more) (n + 1) y
                ≡ rollback_rows sha256 now run step more m v)
          → continue res (λ _. rollback_rows sha256 now run step rows (n + 1)) x ≡ (ok m, v)
          → continue res (λ _. rollback_rows sha256 now run step (rows ++ more) (n + 1)) x
            ≡ rollback_rows sha256 now run step more m v
      after (ok _) x ih e = ih x e
      after (err _) x ih e = cc

  -- How the worlds before and after a part of a plan fit together: the rows that it added, and that
  -- rolling them back, the last one first, restores the files and the older rows.
  record Undoable (run : String) (i k : ℕ) (w w' : PatchWorld) : Type 0 where
    added : List PatchHistoryRow
    history : w'.history ≡ w.history ++ added
    numbered : IsRun run i added
    sized : length added ≡ k
    back : PatchWorld
    undo :
        (n : ℕ)
        → rollback_rows sha256 now run step (reverse added) n w' ≡ (ok (n + length added), back)
    files : SameFiles sha256 now back.files w.files
    older :
        (j : ℕ)
        → j < i
        → find_patch_history back.history run step j ≡ find_patch_history w.history run step j

  -- The world after one fresh patch.
  abbrev first_world : ReversiblePatchInput → PatchWorld → PatchWorld
  first_world input w = record {
    files = applied_files sha256 now w.files input.target_path input.postimage_content;
    history = w.history ++ first_row sha256 now input w ∷ [];
  }

  -- Before an undoable part, one more fresh patch is undoable.
  extend :
      (run : String) (i k : ℕ) (item : PatchItem) (t : String) (w w' : PatchWorld)
      → FreshFrom run i w.history
      → Undoable run (suc i) k (first_world (patch_input run i item t) w) w'
      → Undoable run i (suc k) w w'
  extend run i k item t w w' fresh rest = record {
    added = row ∷ rest.added;
    history = rest.history ∙ append_assoc w.history (row ∷ []) rest.added;
    numbered = (ground (arith, eq_iff run run), refl, rest.numbered);
    sized = ap suc rest.sized;
    back = after_last;
    undo = λ n. rw (reverse-cons row rest.added) (
        rollback_rows-append run (reverse rest.added) (row ∷ []) n w' (rest.undo n)
        ∙ one_more (n + length rest.added)
        ∙ ap (λ m. (ok m, after_last)) (omega arith));
    files = last.1;
    older = λ j below.
        find-mark_rolled_back_ne now run step rest.back.history j i (omega arith)
        ∙ rest.older j (omega arith)
        ∙ find-concat_ne w.history row run step j (ground arith);
  }
    where
      row : PatchHistoryRow
      row = first_row sha256 now (patch_input run i item t) w

      found : find_patch_history rest.back.history run step i ≡ some row
      found =
          rest.older i (omega arith)
          ∙ find-concat w.history row run step i (fresh i (omega arith))
          ∙ ground (arith, eq_iff run run)

      last :
          (g : String → Option String) × SameFiles sha256 now g w.files
          × (rollback_reversible_patch sha256 now run step i rest.back ≡ (
            ok tt,
            record { files = g; history = mark_patch_rolled_back now run step i rest.back.history },
          ))
      last = rollback_first sha256 now (patch_input run i item t) w rest.back found rest.files

      after_last : PatchWorld
      after_last = record {
        files = last.0;
        history = mark_patch_rolled_back now run step i rest.back.history;
      }

      one_more :
          (m : ℕ)
          → rollback_rows sha256 now run step (row ∷ []) m rest.back ≡ (ok (m + 1), after_last)
      one_more m = unfold rollback_rows in rw last.2 refl

  plan_Undoable :
      (resolve : String → String) (starts_with : String → String → Bool) (run : String) (i : ℕ)
      (items : List PatchItem) (w : PatchWorld)
      → FreshFrom run i w.history
      → (apply_plan sha256 now resolve starts_with run i items w).0 ≡ ok tt
      → Undoable run i (length items) w (apply_plan sha256 now resolve starts_with run i items w).1
  unfolding apply_plan
  plan_Undoable resolve starts_with run i [] w fresh h = record {
    added = [];
    history = sym (append-nil _);
    numbered = tt;
    sized = refl;
    back = w;
    undo = λ n. unfold rollback_rows in ground arith;
    files = λ q. refl;
    older = λ j _. refl;
  }
  plan_Undoable resolve starts_with run i (item ∷ items) w fresh h =
      go (plan_Undoable resolve starts_with run (suc i) items)
        (resolve_patch_path_or_throw resolve starts_with item.target_path) refl
    where
      go :
          ((x : PatchWorld)
            → FreshFrom run (suc i) x.history
            → (apply_plan sha256 now resolve starts_with run (suc i) items x).0 ≡ ok tt
            → Undoable run
                (suc i)
                (length items)
                x
                (apply_plan sha256 now resolve starts_with run (suc i) items x).1)
          → (r : Result String)
          → resolve_patch_path_or_throw resolve starts_with item.target_path ≡ r
          → Undoable run i
              (suc (length items))
              w
              (apply_plan sha256 now resolve starts_with run i (item ∷ items) w).1
      go rest (err e) bad = let stuck : (err e) ≡ ok tt = (rw bad at h) in cc
      go rest (ok t) good =
          let w1 = first_world (patch_input run i item t) w in
          let first = apply_fresh sha256 now (patch_input run i item t) w (fresh i (omega arith)) in
          let steps : apply_plan sha256 now resolve starts_with run i (item ∷ items) w
              ≡ apply_plan sha256 now resolve starts_with run (suc i) items w1 =
            rw good (rw first refl) in
          rw steps (
            extend run i (length items) item t w _ fresh (
              rest w1
                (λ j le.
                  find-concat_ne w.history _ run step j (ground arith) ∙ fresh j (omega arith))
                (rw (← steps) h)))

insert-numbered :
    (run : String) (i : ℕ) (r : PatchHistoryRow) (rs : List PatchHistoryRow)
    → r.patch_index ≡ i
    → IsRun run (suc i) rs
    → order_by_index rs ≡ rs
    → order_by_index (r ∷ rs) ≡ r ∷ rs
unfolding order_by_index
insert-numbered run i r [] e h s = refl
insert-numbered run i r (x ∷ xs) e (_, k, _) s = rw s (ground arith)

order_numbered :
    (run : String) (i : ℕ) (rs : List PatchHistoryRow) → IsRun run i rs → order_by_index rs ≡ rs
order_numbered run i [] h = unfold order_by_index in refl
order_numbered run i (r ∷ rs) (_, e, h) =
    insert-numbered run i r rs e h (order_numbered run (suc i) rs h)

filter-numbered :
    (run : String) (i : ℕ) (rows rs : List PatchHistoryRow)
    → filter (in_step run step) rows ≡ []
    → IsRun run i rs
    → filter (in_step run step) (rows ++ rs) ≡ rs
filter-numbered run i [] [] none_there h = refl
filter-numbered run i [] (r ∷ rs) none_there (e, _, h) =
    rw e (ap (◌∷◌ r) (filter-numbered run (suc i) [] rs refl h))
filter-numbered run i (x ∷ rows) rs none_there h = ground (arith, filter-numbered run i rows rs)

fresh_of_filter :
    (run : String) (rows : List PatchHistoryRow) (j : ℕ)
    → filter (in_step run step) rows ≡ []
    → find_patch_history rows run step j ≡ none
unfolding find_patch_history
fresh_of_filter run [] j h = refl
fresh_of_filter run (x ∷ rows) j h = ground (arith, fresh_of_filter run rows j)

listed_numbered :
    (run : String) (rows rs : List PatchHistoryRow)
    → filter (in_step run step) rows ≡ []
    → IsRun run 0 rs
    → list_patch_history_by_step (rows ++ rs) run step ≡ rs
unfolding list_patch_history_by_step
listed_numbered run rows rs none_there h =
    rw (filter-numbered run 0 rows rs none_there h) (order_numbered run 0 rs h)

-- A run's plan that was applied to the end and is then rolled back leaves every file as it was before
-- the plan, also where patches share a target: each patch is rolled back once, and none is refused.
pub rollback-apply_plan :
    (sha256 : String → String) (now : ℕ) (resolve : String → String)
    (starts_with : String → String → Bool) (run : String) (items : List PatchItem) (w : PatchWorld)
    → filter (in_step run "ApplyPatchST") w.history ≡ []
    → (apply_plan sha256 now resolve starts_with run 0 items w).0 ≡ ok tt
    → (back : PatchWorld) × (rollback_applied_patches sha256 now run "ApplyPatchST"
          (apply_plan sha256 now resolve starts_with run 0 items w).1
        ≡ (ok (length items), back))
      × ((path : String) → read_utf8 back.files path ≡ read_utf8 w.files path)
unfolding rollback_applied_patches
rollback-apply_plan sha256 now resolve starts_with run items w unused done =
    let u =
      plan_Undoable sha256 now resolve starts_with run 0 items w
        (λ j _. fresh_of_filter run w.history j unused) done in
    let listed = listed_numbered run w.history u.added unused u.numbered in
    (
      u.back,
      rw u.history (rw listed (u.undo 0 ∙ ap (λ n. (ok n, u.back)) (omega (arith, u.sized)))),
      u.files,
    )
