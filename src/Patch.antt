-- ===== src/Patch.antt =====
-- Reversible patches: src/workflow/patch/reversible.ts, the table of src/db/patchHistoryRepo.ts, the
-- plan loop of src/workflow/steps/apply-patch.step.ts and the rollback loop of
-- src/workflow/steps/run-intent.steps.ts. A statement on the table is atomic, a write of a file
-- succeeds, and the artifact rows that describe a patch are left out.
pub mod History
pub mod Single
pub mod Stack
pub mod Confined
use sisu_kodo.Prelude.{
  ℕ, suc, ◌+◌, String, Option, none, some, Bool, true, false, not, ◌&&◌, ◌||◌, List, [], ◌∷◌, ◌++◌,
  reverse, find, filter, update_where, leb, ◌==◌, ◌===◌, ◌<>◌, decimal, if◌then◌else◌, ◌or_default◌,
  is_some,
}
use sisu_kodo.Failure.{Error, plain, Result, ok, err}
use sisu_kodo.Failure.Async.{Async, pure, throw, ◌>>=◌, ◌>>◌}

pub record PatchHistoryRow : Type 0 where
  pub run_id : String
  pub step_id : String
  pub patch_index : ℕ
  pub target_path : String
  pub preimage_hash : String
  pub postimage_hash : String
  pub diff_hash : String
  pub preimage_content : String
  pub postimage_content : String
  pub applied_at : Option ℕ
  pub rolled_back_at : Option ℕ

pub record ReversiblePatchInput : Type 0 where
  pub run_id : String
  pub step_id : String
  pub patch_index : ℕ
  pub target_path : String
  pub postimage_content : String
  pub diff_text : String

-- The file tree and the table app.patch_history, in order of insertion.
pub record PatchWorld : Type 0 where
  pub files : String → Option String
  pub history : List PatchHistoryRow

pub record PatchHashes : Type 0 where
  pub preimage_hash : String
  pub postimage_hash : String
  pub diff_hash : String

-- A file that cannot be read counts as empty.
abbrev pub read_utf8 : (String → Option String) → String → String
read_utf8 files path = files path or_default ""

abbrev pub write_file : (String → Option String) → String → String → String → Option String
write_file files path content q = if path === q then some content else files q

-- WHERE run_id = $1 AND step_id = $2 AND patch_index = $3
abbrev pub has_key : String → String → ℕ → PatchHistoryRow → Bool
has_key run step index row = row.run_id === run && row.step_id === step && row.patch_index == index

unfoldable pub find_patch_history :
    List PatchHistoryRow → String → String → ℕ → Option PatchHistoryRow
find_patch_history rows run step index = find (has_key run step index) rows

-- COALESCE(applied_at, now)
abbrev pub set_applied : ℕ → PatchHistoryRow → PatchHistoryRow
set_applied now row = record row { applied_at = some (row.applied_at or_default now) }

abbrev pub set_rolled_back : ℕ → PatchHistoryRow → PatchHistoryRow
set_rolled_back now row = record row { rolled_back_at = some (row.rolled_back_at or_default now) }

unfoldable pub mark_patch_applied :
    ℕ → String → String → ℕ → List PatchHistoryRow → List PatchHistoryRow
mark_patch_applied now run step index rows =
    update_where (has_key run step index) (set_applied now) rows

unfoldable pub mark_patch_rolled_back :
    ℕ → String → String → ℕ → List PatchHistoryRow → List PatchHistoryRow
mark_patch_rolled_back now run step index rows =
    update_where (has_key run step index) (set_rolled_back now) rows

abbrev insert_ordered : PatchHistoryRow → List PatchHistoryRow → List PatchHistoryRow
insert_ordered r [] = r ∷ []
insert_ordered r (x ∷ xs) =
    let rest = insert_ordered r xs in
    if leb r.patch_index x.patch_index then r ∷ x ∷ xs else x ∷ rest

-- ORDER BY patch_index ASC
unfoldable pub order_by_index : List PatchHistoryRow → List PatchHistoryRow
order_by_index [] = []
order_by_index (r ∷ rs) = insert_ordered r (order_by_index rs)

abbrev pub in_step : String → String → PatchHistoryRow → Bool
in_step run step row = row.run_id === run && row.step_id === step

unfoldable pub list_patch_history_by_step :
    List PatchHistoryRow → String → String → List PatchHistoryRow
unfolding order_by_index
list_patch_history_by_step rows run step = order_by_index (filter (in_step run step) rows)

-- `sha256` is the digest of node:crypto, `now` the clock.
module _ (sha256 : String → String) (now : ℕ) where
  abbrev pub new_history_row : ReversiblePatchInput → String → PatchHistoryRow
  new_history_row input preimage = record {
    run_id = input.run_id;
    step_id = input.step_id;
    patch_index = input.patch_index;
    target_path = input.target_path;
    preimage_hash = sha256 preimage;
    postimage_hash = sha256 input.postimage_content;
    diff_hash = sha256 input.diff_text;
    preimage_content = preimage;
    postimage_content = input.postimage_content;
    applied_at = none;
    rolled_back_at = none;
  }

  -- ON CONFLICT (run_id, step_id, patch_index) DO NOTHING, then the row that stands.
  abbrev pub keep_or_insert :
      Option PatchHistoryRow
      → PatchHistoryRow
      → List PatchHistoryRow
      → PatchHistoryRow × List PatchHistoryRow
  keep_or_insert (some existing) row rows = (existing, rows)
  keep_or_insert none row rows = (row, rows ++ row ∷ [])

  unfoldable pub insert_patch_history :
      PatchHistoryRow → List PatchHistoryRow → PatchHistoryRow × List PatchHistoryRow
  unfolding find_patch_history
  insert_patch_history row rows =
      keep_or_insert (find_patch_history rows row.run_id row.step_id row.patch_index) row rows

  -- What follows the insert, with the row that stands in the table.
  unfoldable pub apply_row :
      ReversiblePatchInput → PatchHashes → PatchHistoryRow → Async PatchWorld PatchHashes
  unfolding mark_patch_applied
  apply_row input hashes row w =
      let current_hash : String = sha256 (read_utf8 w.files input.target_path) in
      let marked : List PatchHistoryRow =
        mark_patch_applied now input.run_id input.step_id input.patch_index w.history in
      if current_hash === row.postimage_hash
      then (
        ok (record {
          preimage_hash = row.preimage_hash;
          postimage_hash = row.postimage_hash;
          diff_hash = hashes.diff_hash;
        }),
        record w { history = marked },
      )
      else if not (current_hash === row.preimage_hash)
      then (err (plain ("PREIMAGE_MISMATCH:" <> input.target_path)), w)
      else (
        ok hashes,
        record {
          files = write_file w.files input.target_path row.postimage_content;
          history = marked;
        },
      )

  unfoldable pub apply_reversible_patch : ReversiblePatchInput → Async PatchWorld PatchHashes
  unfolding insert_patch_history apply_row
  apply_reversible_patch input w =
      let preimage : String = read_utf8 w.files input.target_path in
      let hashes : PatchHashes = record {
        preimage_hash = sha256 preimage;
        postimage_hash = sha256 input.postimage_content;
        diff_hash = sha256 input.diff_text;
      } in
      let inserted = insert_patch_history (new_history_row input preimage) w.history in
      apply_row input hashes inserted.0 (record w { history = inserted.1 })

  unfoldable pub rollback_row : PatchHistoryRow → String → String → ℕ → Async PatchWorld Unit
  unfolding mark_patch_rolled_back
  rollback_row row run step index w =
      let current_hash : String = sha256 (read_utf8 w.files row.target_path) in
      let marked : List PatchHistoryRow = mark_patch_rolled_back now run step index w.history in
      if current_hash === row.preimage_hash
      then (ok tt, record w { history = marked })
      else if not (current_hash === row.postimage_hash)
      then (err (plain ("POSTIMAGE_MISMATCH:" <> row.target_path)), w)
      else (
        ok tt,
        record {
          files = write_file w.files row.target_path row.preimage_content;
          history = marked;
        },
      )

  abbrev pub rollback_found : Option PatchHistoryRow → String → String → ℕ → Async PatchWorld Unit
  rollback_found none run step index =
      throw (plain ("PATCH_HISTORY_NOT_FOUND:" <> run <> ":" <> step <> ":" <> decimal index))
  rollback_found (some row) run step index = rollback_row row run step index

  unfoldable pub rollback_reversible_patch : String → String → ℕ → Async PatchWorld Unit
  unfolding find_patch_history rollback_row
  rollback_reversible_patch run step index w =
      rollback_found (find_patch_history w.history run step index) run step index w

  -- The loop of `rollbackAppliedPatches`, over the rows from the last to the first.
  unfoldable pub rollback_rows : String → String → List PatchHistoryRow → ℕ → Async PatchWorld ℕ
  unfolding pure ◌>>=◌ ◌>>◌
  rollback_rows run step [] count = pure count
  rollback_rows run step (row ∷ rows) count =
      let skip = rollback_rows run step rows count in
      let undo = (do
        rollback_reversible_patch run step row.patch_index
        rollback_rows run step rows (count + 1)) in
      if not (is_some row.applied_at) || is_some row.rolled_back_at then skip else undo

  unfoldable pub rollback_applied_patches : String → String → Async PatchWorld ℕ
  unfolding list_patch_history_by_step rollback_rows
  rollback_applied_patches run step w =
      rollback_rows run step (reverse (list_patch_history_by_step w.history run step)) 0 w

pub record PatchItem : Type 0 where
  pub target_path : String
  pub postimage_content : String
  pub diff_text : String

-- `resolve` is node:path's, from the working directory; `starts_with` tests a prefix of a path.
module _ (resolve : String → String) (starts_with : String → String → Bool) where
  -- A target is allowed below, or at, the directory .tmp.
  unfoldable pub is_allowed : String → Bool
  is_allowed resolved = starts_with resolved (resolve ".tmp" <> "/") || resolved === resolve ".tmp"

  unfoldable pub resolve_patch_path_or_throw : String → Result String
  unfolding is_allowed
  resolve_patch_path_or_throw target_path =
      if is_allowed (resolve target_path)
      then ok (resolve target_path)
      else err (plain ("PATCH_PATH_NOT_ALLOWED:" <> target_path))

abbrev pub patch_input : String → ℕ → PatchItem → String → ReversiblePatchInput
patch_input run_id i item target_path = record {
  run_id = run_id;
  step_id = "ApplyPatchST";
  patch_index = i;
  target_path = target_path;
  postimage_content = item.postimage_content;
  diff_text = item.diff_text;
}

module _ (sha256 : String → String) (now : ℕ) (resolve : String → String)
    (starts_with : String → String → Bool) where
  -- The loop over `compiled.patchPlan`, from index `i`.
  unfoldable pub apply_plan : String → ℕ → List PatchItem → Async PatchWorld Unit
  unfolding pure ◌>>=◌ ◌>>◌
  apply_plan run_id i [] = pure tt
  apply_plan run_id i (item ∷ items) = do
    target_path ← λ w. (resolve_patch_path_or_throw resolve starts_with item.target_path, w)
    apply_reversible_patch sha256 now (patch_input run_id i item target_path)
    apply_plan run_id (suc i) items
