-- ===== src/Oc/Sessions.antt =====
-- Sessions of runs: src/oc/session-store.ts, src/oc/session-rotation.ts.
use sisu_kodo.Prelude.{
  ℕ, ◌+◌, ◌<◌, leb, String, Bool, true, false, not, ◌||◌, Option, none, some, List, [], ◌∷◌, ◌===◌,
  find, filter, update_where, ◌<>◌, if◌then◌else◌, ◌≡◌, refl, ap, ◌∙◌, arith, eq_iff, Option-cases,
  Bool-cases, inl, inr, Given, find-update_where,
}
use mathlib.Core.Option
use sisu_kodo.Failure.{plain, Result, ok, err}

pub record SessionStats : Type 0 where
  pub session_id : String
  pub message_count : ℕ
  pub token_count : ℕ

-- An entry of the map.
pub record Session : Type 0 where
  pub run_id : String
  pub stats : SessionStats

abbrev pub entry : List Session → String → Option Session
entry sessions run_id = find (λ (s : Session). s.run_id === run_id) sessions

abbrev pub fresh_stats : String → SessionStats
fresh_stats id = record { session_id = id; message_count = 0; token_count = 0 }

unfoldable pub set_session : List Session → String → String → Result (List Session)
set_session sessions run_id session_id = elim (entry sessions run_id) [
  | none ↦ ok (record { run_id = run_id; stats = fresh_stats session_id } ∷ sessions)
  | some existing ↦
      if not (existing.stats.session_id === session_id)
      then err (
          plain (
            "session-conflict: run "
            <> (run_id <> (" already has session " <> existing.stats.session_id))))
      else ok sessions
]

unfoldable pub get_stats : List Session → String → Option SessionStats
get_stats sessions run_id = Option.map Session.stats (entry sessions run_id)

unfoldable pub get_session : List Session → String → Option String
unfolding get_stats
get_session sessions run_id = Option.map SessionStats.session_id (get_stats sessions run_id)

abbrev pub add_stats : ℕ → ℕ → Session → Session
add_stats messages tokens s = record s {
  stats = record {
    session_id = s.stats.session_id;
    message_count = s.stats.message_count + messages;
    token_count = s.stats.token_count + tokens;
  };
}

unfoldable pub increment_stats : List Session → String → ℕ → ℕ → List Session
increment_stats sessions run_id messages tokens =
    update_where (λ (s : Session). s.run_id === run_id) (add_stats messages tokens) sessions

unfoldable pub clear_session : List Session → String → List Session
clear_session sessions run_id = filter (λ (s : Session). not (s.run_id === run_id)) sessions

-- The budgets that the policy has by default.
abbrev pub message_budget : ℕ
message_budget = 20

abbrev pub token_budget : ℕ
token_budget = 100000

unfoldable pub should_rotate : SessionStats → Bool
should_rotate stats = leb message_budget stats.message_count || leb token_budget stats.token_count

-- `if (stats && shouldRotate(stats)) clear(runId)`
abbrev pub rotate : List Session → String → Option SessionStats → List Session
rotate sessions run_id none = sessions
rotate sessions run_id (some stats) =
    if should_rotate stats then clear_session sessions run_id else sessions

-- The store after a prompt of a run: its session is counted, and dropped when a budget is used up.
unfoldable pub count_prompt : List Session → String → ℕ → List Session
count_prompt sessions run_id tokens =
    let counted = increment_stats sessions run_id 1 tokens in
    rotate counted run_id (get_stats counted run_id)

-- A session is never replaced by another one: what a run has been given it keeps until it is cleared.
pub get-set_session :
    (sessions : List Session) (run_id session_id k : String) {after : List Session}
    → set_session sessions run_id session_id ≡ ok after
    → get_session after k ≡ (if k === run_id then some session_id else get_session sessions k)
unfolding set_session get_session get_stats
get-set_session sessions run_id session_id k {after} h =
    elim (Option-cases (entry sessions run_id)) [
      | inl missing ↦ ground (arith, missing, h, eq_iff k run_id, eq_iff run_id k)
      | inr (s, found) ↦ elim (Bool-cases (s.stats.session_id === session_id)) [
        | inl same ↦
            ground (arith, found, same, h, eq_iff k run_id, eq_iff s.stats.session_id session_id)
        | inr other ↦ absurd (ground (arith, found, other, h))
      ]
    ]

get_stats-increment :
    (sessions : List Session) (run_id k : String) (tokens : ℕ)
    → k === run_id ≡ false
    → get_stats (increment_stats sessions run_id 1 tokens) k ≡ get_stats sessions k
unfolding get_stats increment_stats
get_stats-increment sessions run_id k tokens other =
    rw (find-update_where Session.run_id (add_stats 1 tokens) (λ r. refl) sessions run_id k, other)
      refl

entry-clear :
    (sessions : List Session) (run_id k : String)
    → entry (clear_session sessions run_id) k ≡ (if k === run_id then none else entry sessions k)
unfolding clear_session
entry-clear [] run_id k = ground arith
entry-clear (s ∷ sessions) run_id k = ground (
  arith,
  entry-clear sessions run_id k,
  eq_iff s.run_id run_id,
  eq_iff s.run_id k,
  eq_iff k run_id,
)

get_stats-clear :
    (sessions : List Session) (run_id k : String)
    → get_stats (clear_session sessions run_id) k
      ≡ (if k === run_id then none else get_stats sessions k)
unfolding get_stats
get_stats-clear sessions run_id k = ground (arith, entry-clear sessions run_id k)

-- What a store holds of a run, as long as it holds it, is below twenty messages and a hundred thousand
-- tokens.
abbrev pub WithinBudgets : List Session → String → Type 0
WithinBudgets sessions k =
    Given (get_stats sessions k)
      (λ stats. (stats.message_count < 20) × (stats.token_count < 100000))

within_none : (xs : List Session) (k : String) → get_stats xs k ≡ none → WithinBudgets xs k
within_none xs k e = rw e tt

within_some :
    (xs : List Session) (k : String) {stats : SessionStats}
    → get_stats xs k ≡ some stats
    → should_rotate stats ≡ false
    → WithinBudgets xs k
unfolding should_rotate
within_some xs k {stats} e h = rw e (ground (arith, h), ground (arith, h))

within_same :
    (xs ys : List Session) (k : String)
    → get_stats xs k ≡ get_stats ys k
    → WithinBudgets ys k
    → WithinBudgets xs k
within_same xs ys k e h = rw e h

module _ (sessions : List Session) (run_id : String) (tokens : ℕ) where
  abbrev counted : List Session
  counted = increment_stats sessions run_id 1 tokens

  count_prompt-missing :
      get_stats counted run_id ≡ none → count_prompt sessions run_id tokens ≡ counted
  unfolding count_prompt
  count_prompt-missing e = rw e refl

  count_prompt-full :
      {stats : SessionStats}
      → get_stats counted run_id ≡ some stats
      → should_rotate stats ≡ true
      → count_prompt sessions run_id tokens ≡ clear_session counted run_id
  unfolding count_prompt
  count_prompt-full e h = rw (e, h) refl

  count_prompt-below :
      {stats : SessionStats}
      → get_stats counted run_id ≡ some stats
      → should_rotate stats ≡ false
      → count_prompt sessions run_id tokens ≡ counted
  unfolding count_prompt
  count_prompt-below e h = rw (e, h) refl

  within_counted :
      (k : String) → k === run_id ≡ false → WithinBudgets sessions k → WithinBudgets counted k
  within_counted k other h =
      within_same counted sessions k (get_stats-increment sessions run_id k tokens other) h

  within_cleared :
      (k : String) → WithinBudgets sessions k → WithinBudgets (clear_session counted run_id) k
  within_cleared k h = elim (Bool-cases (k === run_id)) [
    | inl same ↦
        within_none (clear_session counted run_id) k
          (get_stats-clear counted run_id k ∙ rw same refl)
    | inr other ↦
        within_same (clear_session counted run_id) counted k
          (get_stats-clear counted run_id k ∙ rw other refl) (within_counted k other h)
  ]

  -- With the default budgets, counting a prompt keeps every session below twenty messages and a hundred
  -- thousand tokens: a session that reaches one of them is dropped.
  pub count_prompt-WithinBudgets :
      (k : String)
      → WithinBudgets sessions k
      → WithinBudgets (count_prompt sessions run_id tokens) k
  count_prompt-WithinBudgets k h = elim (Option-cases (get_stats counted run_id)) [
    | inl missing ↦ rw (count_prompt-missing missing) (elim (Bool-cases (k === run_id)) [
      | inl same ↦
          within_none counted k (ap (get_stats counted) ((eq_iff k run_id).0 same) ∙ missing)
      | inr other ↦ within_counted k other h
    ])
    | inr (stats, found) ↦ elim (Bool-cases (should_rotate stats)) [
      | inl full ↦ rw (count_prompt-full found full) (within_cleared k h)
      | inr below ↦ rw (count_prompt-below found below) (elim (Bool-cases (k === run_id)) [
        | inl same ↦
            within_some counted k (ap (get_stats counted) ((eq_iff k run_id).0 same) ∙ found) below
        | inr other ↦ within_counted k other h
      ])
    ]
  ]
