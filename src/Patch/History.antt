-- ===== src/Patch/History.antt =====
-- Lookups in the patch history after a row is added or marked (src/db/patchHistoryRepo.ts).
use sisu_kodo.Prelude.{
  ℕ, String, none, some, Bool, true, false, List, [], ◌∷◌, ◌++◌, ◌≡◌, ◌≢◌, refl, ap, arith, find,
  update_where, eq_iff, if◌then◌else◌, ◌∙◌,
}
use sisu_kodo.Patch.{
  PatchHistoryRow, has_key, find_patch_history, set_applied, set_rolled_back, mark_patch_applied,
  mark_patch_rolled_back,
}

module _ (p : PatchHistoryRow → Bool) where
  -- A row that is not there is found in what is added behind.
  find-append_none :
      (rows more : List PatchHistoryRow) → find p rows ≡ none → find p (rows ++ more) ≡ find p more
  find-append_none [] more h = refl
  find-append_none (r ∷ rows) more h = ground (arith, find-append_none rows more)

  update_where-append :
      (f : PatchHistoryRow → PatchHistoryRow) (rows more : List PatchHistoryRow)
      → update_where p f (rows ++ more) ≡ update_where p f rows ++ update_where p f more
  update_where-append f [] more = refl
  update_where-append f (r ∷ rows) more =
      ap (◌∷◌ (if p r then f r else r)) (update_where-append f rows more)

  -- An update that finds no row changes none.
  update_where-none :
      (f : PatchHistoryRow → PatchHistoryRow) (rows : List PatchHistoryRow)
      → find p rows ≡ none
      → update_where p f rows ≡ rows
  update_where-none f [] h = refl
  update_where-none f (r ∷ rows) h = ground (arith, update_where-none f rows)

  module _ (q : PatchHistoryRow → Bool) (f : PatchHistoryRow → PatchHistoryRow)
      (keeps_q : (r : PatchHistoryRow) → q (f r) ≡ q r) where
    -- Rows that the update does not hit are found as before.
    find-update_where_ne :
        (rows : List PatchHistoryRow)
        → ((r : PatchHistoryRow) → q r ≡ true → p r ≡ false)
        → find q (update_where p f rows) ≡ find q rows
    find-update_where_ne [] apart = refl
    find-update_where_ne (r ∷ rows) apart =
        ground (arith, apart r, keeps_q r, find-update_where_ne rows apart)

ap_key_apart :
    (run step : String) (j k : ℕ) (r : PatchHistoryRow)
    → j ≢ k
    → has_key run step j r ≡ true
    → has_key run step k r ≡ false
ap_key_apart run step j k r n h = ground arith

-- A mark on one index leaves the lookups of the others.
pub find-mark_rolled_back_ne :
    (now : ℕ) (run step : String) (rows : List PatchHistoryRow) (j k : ℕ)
    → j ≢ k
    → find_patch_history (mark_patch_rolled_back now run step k rows) run step j
      ≡ find_patch_history rows run step j
unfolding find_patch_history mark_patch_rolled_back
find-mark_rolled_back_ne now run step rows j k n =
    find-update_where_ne (has_key run step k) (has_key run step j) (set_rolled_back now) (λ r. refl)
      rows (λ r. ap_key_apart run step j k r n)

-- A fresh row, added and marked as applied, stands behind the old ones.
pub mark_applied_concat :
    (now : ℕ) (rows : List PatchHistoryRow) (r : PatchHistoryRow)
    → find_patch_history rows r.run_id r.step_id r.patch_index ≡ none
    → mark_patch_applied now r.run_id r.step_id r.patch_index (rows ++ r ∷ [])
      ≡ rows ++ set_applied now r ∷ []
unfolding find_patch_history mark_patch_applied
mark_applied_concat now rows r h =
    let p = has_key r.run_id r.step_id r.patch_index in
    update_where-append p (set_applied now) rows (r ∷ [])
    ∙ ground (
      arith,
      update_where-none p (set_applied now) rows h,
      eq_iff r.run_id r.run_id,
      eq_iff r.step_id r.step_id,
    )

-- Such a row is the one found under its key.
pub find-concat :
    (rows : List PatchHistoryRow) (r : PatchHistoryRow) (run step : String) (k : ℕ)
    → find_patch_history rows run step k ≡ none
    → find_patch_history (rows ++ r ∷ []) run step k
      ≡ (if has_key run step k r then some r else none)
unfolding find_patch_history
find-concat rows r run step k h = find-append_none (has_key run step k) rows (r ∷ []) h

-- A row added under another key does not show.
pub find-concat_ne :
    (rows : List PatchHistoryRow) (r : PatchHistoryRow) (run step : String) (k : ℕ)
    → has_key run step k r ≡ false
    → find_patch_history (rows ++ r ∷ []) run step k ≡ find_patch_history rows run step k
unfolding find_patch_history
find-concat_ne [] r run step k h = rw h refl
find-concat_ne (x ∷ rows) r run step k h = ground (arith, find-concat_ne rows r run step k h)
