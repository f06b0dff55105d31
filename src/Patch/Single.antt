-- ===== src/Patch/Single.antt =====
-- One reversible patch: src/workflow/patch/reversible.ts.
use sisu_kodo.Prelude.{
  ℕ, String, Option, none, some, List, [], ◌∷◌, ◌++◌, ◌≡◌, ◌≢◌, refl, arith, ◌===◌, ◌∙◌, eq_iff,
  eq_refl, if◌then◌else◌, Bool-cases, inl, inr, ◌⊎◌, ◌<>◌,
}
use sisu_kodo.Failure.{plain, ok, err}
use sisu_kodo.Patch.{
  PatchHistoryRow, ReversiblePatchInput, PatchWorld, PatchHashes, read_utf8, write_file,
  find_patch_history, set_applied, mark_patch_applied, mark_patch_rolled_back, new_history_row,
  insert_patch_history, apply_row, apply_reversible_patch, rollback_row, rollback_reversible_patch,
}
use sisu_kodo.Patch.History.{mark_applied_concat}

module _ (sha256 : String → String) (now : ℕ) where
  -- The files after a first application: nothing is written where the digest is there already.
  abbrev pub applied_files : (String → Option String) → String → String → String → Option String
  applied_files files target post =
      if sha256 (read_utf8 files target) === sha256 post
      then files
      else write_file files target post

  abbrev pub first_row : ReversiblePatchInput → PatchWorld → PatchHistoryRow
  first_row input w =
      set_applied now (new_history_row sha256 now input (read_utf8 w.files input.target_path))

  abbrev pub fresh_hashes : ReversiblePatchInput → PatchWorld → PatchHashes
  fresh_hashes input w = record {
    preimage_hash = sha256 (read_utf8 w.files input.target_path);
    postimage_hash = sha256 input.postimage_content;
    diff_hash = sha256 input.diff_text;
  }

  apply_row_fresh :
      (input : ReversiblePatchInput) (files : String → Option String) (rows : List PatchHistoryRow)
      → let w : PatchWorld = record { files = files; history = rows } in
        apply_row sha256 now input
          (fresh_hashes input w)
          (new_history_row sha256 now input (read_utf8 files input.target_path))
          w
        ≡ (
          ok (fresh_hashes input w),
          record {
            files = applied_files files input.target_path input.postimage_content;
            history = mark_patch_applied now input.run_id input.step_id input.patch_index rows;
          },
        )
  unfolding apply_row
  apply_row_fresh input files rows =
      elim (Bool-cases
        (sha256 (read_utf8 files input.target_path) === sha256 input.postimage_content)) [
          | inl same ↦ rw same refl
          | inr other ↦ rw other (rw (eq_refl (sha256 (read_utf8 files input.target_path))) refl)
        ]

  insert_fresh :
      (row : PatchHistoryRow) (rows : List PatchHistoryRow)
      → find_patch_history rows row.run_id row.step_id row.patch_index ≡ none
      → insert_patch_history sha256 now row rows ≡ (row, rows ++ row ∷ [])
  unfolding insert_patch_history
  insert_fresh row rows h = rw h refl

  -- A patch that the table does not know applies, and is recorded as applied with its preimage.
  pub apply_fresh :
      (input : ReversiblePatchInput) (w : PatchWorld)
      → find_patch_history w.history input.run_id input.step_id input.patch_index ≡ none
      → apply_reversible_patch sha256 now input w ≡ (
        ok (fresh_hashes input w),
        record {
          files = applied_files w.files input.target_path input.postimage_content;
          history = w.history ++ first_row input w ∷ [];
        },
      )
  apply_fresh input w h =
      let row = new_history_row sha256 now input (read_utf8 w.files input.target_path) in
      unfold apply_reversible_patch in
      rw (insert_fresh row w.history h) (
        apply_row_fresh input w.files (w.history ++ row ∷ [])
        ∙ rw (mark_applied_concat now w.history row h) refl)

  abbrev pub SameFiles : (String → Option String) → (String → Option String) → Type 0
  SameFiles f g = (q : String) → read_utf8 f q ≡ read_utf8 g q

  -- The files after a rollback of the recorded patch.
  abbrev rolled_back_files :
      (String → Option String) → ReversiblePatchInput → String → String → Option String
  rolled_back_files files input pre =
      if sha256 (read_utf8 files input.target_path) === sha256 pre
      then files
      else write_file files input.target_path pre

  rollback_row_known :
      (row : PatchHistoryRow) (run step : String) (k : ℕ) (u : PatchWorld)
      → let current = sha256 (read_utf8 u.files row.target_path) in
        (current ≡ row.preimage_hash) ⊎ (current ≡ row.postimage_hash)
        → rollback_row sha256 now row run step k u ≡ (
          ok tt,
          record {
            files =
                if current === row.preimage_hash
                then u.files
                else write_file u.files row.target_path row.preimage_content;
            history = mark_patch_rolled_back now run step k u.history;
          },
        )
  unfolding rollback_row
  rollback_row_known row run step k u known =
      let current : String = sha256 (read_utf8 u.files row.target_path) in
      ground (arith, eq_iff current row.preimage_hash, eq_iff current row.postimage_hash)

  read-applied_files :
      (files : String → Option String) (t post : String)
      → (sha256 (read_utf8 (applied_files files t post) t) ≡ sha256 (read_utf8 files t))
        ⊎ (sha256 (read_utf8 (applied_files files t post) t) ≡ sha256 post)
  read-applied_files files t post = ground (arith, eq_iff t t)

  read-rolled_back_files :
      (input : ReversiblePatchInput) (files g : String → Option String)
      → SameFiles g (applied_files files input.target_path input.postimage_content)
      → SameFiles (rolled_back_files g input (read_utf8 files input.target_path)) files
  read-rolled_back_files input files g same q = ground (
    arith,
    same q,
    same input.target_path,
    eq_iff input.target_path q,
    eq_iff input.target_path input.target_path,
    eq_iff (sha256 (read_utf8 files input.target_path)) (sha256 input.postimage_content),
    eq_iff (sha256 (read_utf8 g input.target_path)) (sha256 (read_utf8 files input.target_path)),
  )

  -- Rolling the recorded patch back from the files that it left gives the files that it found.
  pub rollback_first :
      (input : ReversiblePatchInput) (w u : PatchWorld)
      → find_patch_history u.history input.run_id input.step_id input.patch_index
        ≡ some (first_row input w)
      → SameFiles u.files (applied_files w.files input.target_path input.postimage_content)
      → (g : String → Option String) × SameFiles g w.files
        × (rollback_reversible_patch sha256 now input.run_id input.step_id input.patch_index u ≡ (
          ok tt,
          record {
            files = g;
            history =
                mark_patch_rolled_back now input.run_id input.step_id input.patch_index u.history;
          },
        ))
  rollback_first input w u h same = (
    rolled_back_files u.files input (read_utf8 w.files input.target_path),
    read-rolled_back_files input w.files u.files same,
    unfold rollback_reversible_patch in
        rw h (
          rollback_row_known (first_row input w) input.run_id input.step_id input.patch_index u (
            rw (same input.target_path)
              (read-applied_files w.files input.target_path input.postimage_content))),
  )

  -- A patch whose target holds neither the recorded preimage nor the recorded postimage is refused,
  -- and neither the files nor the table change.
  pub apply_mismatch :
      (input : ReversiblePatchInput) (w : PatchWorld) (row : PatchHistoryRow)
      → find_patch_history w.history input.run_id input.step_id input.patch_index ≡ some row
      → let current = sha256 (read_utf8 w.files input.target_path) in
        current ≢ row.preimage_hash
        → current ≢ row.postimage_hash
        → apply_reversible_patch sha256 now input w
          ≡ (err (plain ("PREIMAGE_MISMATCH:" <> input.target_path)), w)
  unfolding apply_reversible_patch
  apply_mismatch input w row h no_pre no_post =
      let current : String = sha256 (read_utf8 w.files input.target_path) in
      rw h (ground (arith, eq_iff current row.preimage_hash, eq_iff current row.postimage_hash))

  -- A rollback of a patch whose target was changed since is refused, and changes nothing.
  pub rollback_mismatch :
      (run step : String) (k : ℕ) (w : PatchWorld) (row : PatchHistoryRow)
      → find_patch_history w.history run step k ≡ some row
      → let current = sha256 (read_utf8 w.files row.target_path) in
        current ≢ row.preimage_hash
        → current ≢ row.postimage_hash
        → rollback_reversible_patch sha256 now run step k w
          ≡ (err (plain ("POSTIMAGE_MISMATCH:" <> row.target_path)), w)
  unfolding rollback_reversible_patch
  rollback_mismatch run step k w row h no_pre no_post =
      let current : String = sha256 (read_utf8 w.files row.target_path) in
      rw h (ground (arith, eq_iff current row.preimage_hash, eq_iff current row.postimage_hash))
