-- ===== src/Hitl/Interactions/Dedupe.antt =====
-- An interaction is recorded once for its key.
use sisu_kodo.Prelude.{
  ℕ, Bool, true, false, not, ◌&&◌, ◌||◌, Option, none, some, List, [], ◌∷◌, ◌++◌, find, same,
  same_iff, ◌===◌, eq_refl, ltb, arith, ◌≡◌, refl, ap, if◌then◌else◌,
}
use sisu_kodo.Failure.{then_ok, bind_ok, value_or, Result, ok, err}
use sisu_kodo.Hitl.Topic.{normalize_hitl_gate_key}
use sisu_kodo.Hitl.Interactions.{
  drift_error, HumanInteraction, NewInteraction, Answer, has_dedupe_key, has_unique_key, latest,
  newer, check_drift, insert_or_read, insert_row, new_interaction, normalized_topic,
  insert_human_interaction,
}
use sisu_kodo.Hitl.Interactions.Once.{find-append}

-- The latest of the rows that satisfy `p` satisfies it, and fails a test that every row fails.
latest-find :
    (p q : HumanInteraction → Bool) (rows : List HumanInteraction) (r : HumanInteraction)
    → latest p rows ≡ some r
    → find q rows ≡ none
    → (p r ≡ true) × (q r ≡ false)
unfolding latest
latest-find p q [] r h k = cc
latest-find p q (x ∷ rows) r h k =
    go (latest p rows) (latest-find p q rows) (p x) (q x) refl refl h k
  where
    go :
        (o : Option HumanInteraction)
        → ((s : HumanInteraction) → o ≡ some s → find q rows ≡ none → (p s ≡ true) × (q s ≡ false))
        → (b c : Bool) → p x ≡ b
        → q x ≡ c
        → (if b then newer x o else o) ≡ some r
        → (if c then some x else find q rows) ≡ none
        → (p r ≡ true) × (q r ≡ false)
    go o ih b true e f h k = cc
    go o ih false false e f h k = ih r h k
    go none ih true false e f h k = ground (arith, h, e, f)
    go (some s) ih true false e f h k = pick (ltb x.created_at s.created_at) refl
      where
        pick : (l : Bool) → ltb x.created_at s.created_at ≡ l → (p r ≡ true) × (q r ≡ false)
        pick true m = let same_row : (some s) ≡ some r = (rw m at h) in ih r same_row k
        pick false m =
            let same_row : (some x) ≡ some r = (rw m at h) in ground (arith, same_row, e, f)

latest-append :
    (p : HumanInteraction → Bool) (rows : List HumanInteraction) (r : HumanInteraction)
    → latest p rows ≡ none
    → p r ≡ true
    → latest p (rows ++ (r ∷ [])) ≡ some r
unfolding latest
latest-append p [] r h k = ground arith
latest-append p (x ∷ rows) r h k = go (latest p rows) (λ e. latest-append p rows r e k) (p x) h
  where
    go :
        (o : Option HumanInteraction)
        → (o ≡ none → latest p (rows ++ (r ∷ [])) ≡ some r)
        → (b : Bool) → (if b then newer x o else o) ≡ none
        → (if b then newer x (latest p (rows ++ (r ∷ []))) else latest p (rows ++ (r ∷ [])))
          ≡ some r
    go none ih true m = cc
    go (some s) ih true m = pick (ltb x.created_at s.created_at) m
      where
        pick :
            (l : Bool)
            → (if l then some s else some x) ≡ none
            → newer x (latest p (rows ++ (r ∷ []))) ≡ some r
        pick true e = cc
        pick false e = cc
    go o ih false m = ih m

-- The row that `r` is compared with at its insertion.
abbrev earlier : List HumanInteraction → HumanInteraction → Option HumanInteraction
earlier rows r = latest (has_dedupe_key r.workflow_id r.gate_key r.dedupe_key) rows

clash :
    (s : HumanInteraction) (a b t d p : Bool)
    → a && b && d ≡ true
    → a && b && t && d ≡ false
    → (let r : Result (Unit {0}) = if not t || not p then err drift_error else ok tt in r ≡ ok tt)
    → (some s) ≡ none
clash s false b t d p x y z = cc
clash s true false t d p x y z = cc
clash s true true t false p x y z = cc
clash s true true true true p x y z = cc
clash s true true false true p x y z = cc

-- Without a row of its key, a row with its workflow, gate and deduplication key has another topic.
no_earlier :
    (rows : List HumanInteraction) (row : HumanInteraction)
    → check_drift (earlier rows row) row.topic row.payload_hash ≡ ok tt
    → find (has_unique_key row) rows ≡ none
    → earlier rows row ≡ none
no_earlier rows row h k = go (earlier rows row) refl h
  where
    go :
        (o : Option HumanInteraction)
        → earlier rows row ≡ o
        → check_drift o row.topic row.payload_hash ≡ ok tt
        → o ≡ none
    go none e h = refl
    go (some s) e h =
        let fits =
          latest-find (has_dedupe_key row.workflow_id row.gate_key row.dedupe_key)
            (has_unique_key row) rows s e k in
        clash s (s.workflow_id === row.workflow_id) (same s.gate_key row.gate_key)
          (same s.topic row.topic) (s.dedupe_key === row.dedupe_key)
          (s.payload_hash === row.payload_hash) fits.0 fits.1 h

own_key :
    (row : HumanInteraction) → has_dedupe_key row.workflow_id row.gate_key row.dedupe_key row ≡ true
own_key row =
    rw
      (eq_refl row.workflow_id, eq_refl row.dedupe_key, (same_iff row.gate_key row.gate_key).1 refl)
      refl

own_unique : (row : HumanInteraction) → has_unique_key row row ≡ true
own_unique row =
    rw
      (
        eq_refl row.workflow_id,
        eq_refl row.dedupe_key,
        (same_iff row.gate_key row.gate_key).1 refl,
        (same_iff row.topic row.topic).1 refl,
      )
      refl

no_drift : (row : HumanInteraction) → check_drift (some row) row.topic row.payload_hash ≡ ok tt
no_drift row = rw (eq_refl row.payload_hash, (same_iff row.topic row.topic).1 refl) refl

insert_row-again :
    (rows : List HumanInteraction) (row : HumanInteraction) (now : ℕ) (a : Answer)
    → insert_row rows row ≡ ok a
    → insert_row a.rows (record row { created_at = now }) ≡ ok (record a { inserted = false })
unfolding insert_row
insert_row-again rows row now a h =
    let parts = then_ok (check_drift (earlier rows row) row.topic row.payload_hash) _ a h in
    go (find (has_unique_key row) rows) refl parts.0 parts.1
  where
    go :
        (u : Option HumanInteraction)
        → find (has_unique_key row) rows ≡ u
        → check_drift (earlier rows row) row.topic row.payload_hash ≡ ok tt
        → insert_or_read u row rows ≡ ok a
        → insert_row a.rows (record row { created_at = now }) ≡ ok (record a { inserted = false })
    go none e clear h = rw (← ap (value_or a) h) (
        rw
          (latest-append (has_dedupe_key row.workflow_id row.gate_key row.dedupe_key) rows row
            (no_earlier rows row clear e) (own_key row))
          (rw (no_drift row) (
            rw (find-append (has_unique_key row) rows row e (own_unique row))
              (rw (no_drift row) refl))))
    go (some x) e clear h =
        let read = then_ok (check_drift (some x) row.topic row.payload_hash) _ a h in
        rw (← ap (value_or a) read.1) (rw clear (rw e (rw read.0 refl)))

-- An interaction that was recorded, or that was a repetition, is a repetition when it comes again,
-- at any time: the same row is returned and no row is added.
pub insert_human_interaction-again :
    (now later : ℕ) (rows : List HumanInteraction) (i : NewInteraction) (a : Answer)
    → insert_human_interaction now rows i ≡ ok a
    → insert_human_interaction later a.rows i ≡ ok (record a { inserted = false })
unfolding insert_human_interaction
insert_human_interaction-again now later rows i a h =
    let keyed = bind_ok (normalize_hitl_gate_key i.gate_key) _ a h in
    let topical = bind_ok (normalized_topic keyed.0 i.topic) _ a keyed.2 in
    rw keyed.1 (
      rw topical.1
        (insert_row-again rows (new_interaction now i keyed.0 topical.0) later a topical.2))
