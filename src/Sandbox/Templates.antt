-- ===== src/Sandbox/Templates.antt =====
-- The sandbox template of a run: src/sbx/template-resolver.ts. The registered templates are a
-- parameter, found by recipe and dependencies.
use sisu_kodo.Prelude.{
  String, Bool, true, not, ◌||◌, Option, none, some, List, ◌===◌, ◌<>◌, if◌then◌else◌, ◌or_default◌,
}
use sisu_kodo.Prelude.Json.{Json, str, obj, field, end}
use sisu_kodo.Failure.{plain, Result, ok, err}
use sisu_kodo.Runs.{RunRow, find_run_by_id}

pub record TemplateRow : Type 0 where
  pub template_id : String
  pub template_key : String

pub record TemplateRef : Type 0 where
  pub id : String
  pub v : String

pub data ColdReason : Type 0 where
  no_recipe_ref missing_recipe_hash template_unregistered : ColdReason

pub data ResolvedSbxTemplate : Type 0 where
  hot : (template_id template_key deps_hash : String) → TemplateRef → ResolvedSbxTemplate
  cold :
      (env_ref template_key deps_hash : String)
      → Option TemplateRef
      → ColdReason
      → ResolvedSbxTemplate

abbrev pub blank : Option String → Bool
blank none = true
blank (some s) = s === ""

-- `digest` is the SHA-256 of a value.
module _ (digest : Json → String) (find_template : TemplateRef → String → Option TemplateRow) where
  abbrev pub template_key_of : TemplateRef → String → String
  template_key_of ref deps_hash = ref.id <> (":" <> (ref.v <> (":" <> deps_hash)))

  unfoldable pub resolve_registered : String → TemplateRef → String → Result ResolvedSbxTemplate
  resolve_registered fallback ref deps_hash =
      let key : String = template_key_of ref deps_hash in
      elim (find_template ref deps_hash) [
        | none ↦ ok (cold fallback key deps_hash (some ref) template_unregistered)
        | some row ↦
            if not (row.template_key === key)
            then err (
                plain (
                  "SBX template key drift for " <> ref.id <> "@" <> ref.v <> ":" <> deps_hash
                  <> " (" <> row.template_key <> " != " <> key <> ")"))
            else ok (hot row.template_id row.template_key deps_hash ref)
      ]

  unfoldable pub resolve_for_run : RunRow → String → Result ResolvedSbxTemplate
  unfolding resolve_registered
  resolve_for_run run fallback =
      let ref : TemplateRef = record {
        id = run.recipe_id or_default "";
        v = run.recipe_v or_default "";
      } in
      let deps_hash : String = run.recipe_hash or_default "" in
      if blank run.recipe_id || blank run.recipe_v
      then ok (
          cold fallback ("env:" <> fallback) (digest (obj (field "envRef" (str fallback) end))) none
            no_recipe_ref)
      else if deps_hash === ""
      then ok (
          cold fallback
            (template_key_of ref (digest (obj (field "fallbackEnvRef" (str fallback) end))))
            (digest (
              obj (
                field "recipeRef" (obj (field "id" (str ref.id) (field "v" (str ref.v) end)))
                  (field "fallbackEnvRef" (str fallback) end))))
            (some ref) missing_recipe_hash)
      else resolve_registered fallback ref deps_hash

  unfoldable pub resolve_sbx_template_selection :
      List RunRow → String → String → Result ResolvedSbxTemplate
  unfolding resolve_for_run
  resolve_sbx_template_selection runs run_id fallback = elim (find_run_by_id runs run_id) [
    | none ↦ err (plain ("Run " <> (run_id <> " not found for SBX template resolution")))
    | some run ↦ resolve_for_run run fallback
  ]
