-- ===== src/Oc/Wrapper/Replay.antt =====
-- A prompt that was answered is not asked again: src/oc/wrapper.ts.
use sisu_kodo.Prelude.{
  String, Bool, true, false, Option, none, some, List, [], ◌∷◌, ◌===◌, find, any, if◌then◌else◌,
  ◌≡◌, refl, ap, ◌∙◌, arith, eq_iff, ◌or_default◌,
}
use sisu_kodo.Failure.{Error, Result, ok, err}
use sisu_kodo.Failure.Async.{lift, ◌>>=◌, lift_of_ok, lift_returns}
use sisu_kodo.Oc.Guard.{assert_no_child_session}
use sisu_kodo.Oc.Ledger.{
  OcOutput, OpencodeCallRow, CacheEntry, cache_get, cache_set, find_opencode_call_by_op_key,
  insert_opencode_call, persisted_output, assert_tool_allowlist,
}
use sisu_kodo.Oc.Wrapper.{
  Client, OcConfig, Outside, Prompt, prompt_json, create_op_key, attempt_prompt, ledger_call,
  call_row, accept_output, call_out, remember, look_up_or_call, answer_known, prompt_structured,
}

cache_get-cache_set :
    (cache : List CacheEntry) (k : String) (o : OcOutput)
    → cache_get (cache_set cache k o) k ≡ some o
unfolding cache_get cache_set
cache_get-cache_set cache k o = rw ((eq_iff k k).1 refl) refl

find-insert_opencode_call :
    (rows : List OpencodeCallRow) (row : OpencodeCallRow)
    → find_opencode_call_by_op_key rows row.op_key ≡ none
    → find_opencode_call_by_op_key (insert_opencode_call rows row) row.op_key ≡ some row
unfolding find_opencode_call_by_op_key insert_opencode_call
find-insert_opencode_call rows row h =
    rw (absent rows h) (rw ((eq_iff row.op_key row.op_key).1 refl) refl)
  where
    absent :
        (rs : List OpencodeCallRow)
        → find (λ (r : OpencodeCallRow). r.op_key === row.op_key) rs ≡ none
        → any (λ (r : OpencodeCallRow). r.op_key === row.op_key) rs ≡ false
    absent [] e = refl
    absent (r ∷ rs) e = ground (arith, e, absent rs)

abbrev pub unforced : Prompt → Prompt
unforced p = record p { force = false }

module _ {S : Type 0} (config : OcConfig) (out : Outside S) (p : Prompt) where
  abbrev op_key : String
  op_key = create_op_key config out p

  -- A prompt whose answer the cache holds returns it and changes nothing.
  prompt-cached :
      (writes : Bool) (id : String) (w : Client S) {o : OcOutput}
      → assert_no_child_session (prompt_json p) ≡ ok tt
      → cache_get w.cache op_key ≡ some o
      → prompt_structured config out writes id (unforced p) w ≡ (ok o, w)
  unfolding prompt_structured look_up_or_call answer_known create_op_key
  prompt-cached writes id w g c =
      lift_of_ok (assert_no_child_session (prompt_json p)) _ w tt g ∙ rw c refl

  remember-cached :
      (o : OcOutput) (w : Client S) {o' : OcOutput}
      → (remember config out p o w).0 ≡ ok o'
      → cache_get (remember config out p o w).1.cache op_key ≡ some o'
  unfolding remember
  remember-cached o w h = cache_get-cache_set w.cache op_key o ∙ cc h

  accept-cached :
      (o : OcOutput) (w : Client S) {o' : OcOutput}
      → (accept_output config out p o w).0 ≡ ok o'
      → cache_get (accept_output config out p o w).1.cache op_key ≡ some o'
  unfolding accept_output
  accept-cached o w h =
      let (x, allowed, rest) =
        lift_returns (assert_tool_allowlist (p.agent or_default "build") o.toolcalls) _ w h in
      rw
        (lift_of_ok (assert_tool_allowlist (p.agent or_default "build") o.toolcalls)
          (λ _. remember config out p o) w x allowed)
        (remember-cached o w rest)

  call_out-cached :
      (writes : Bool) (id : String) (w : Client S) {o' : OcOutput}
      → (call_out config out writes id p w).0 ≡ ok o'
      → cache_get (call_out config out writes id p w).1.cache op_key ≡ some o'
  unfolding call_out
  call_out-cached writes id w h =
      let left = attempt_prompt config out p w in
      let (o, returned, rest) = lift_returns left.0 _ _ h in
      rw
        (lift_of_ok left.0 (accept_output config out p)
          (ledger_call config out writes id p left.0 left.1) o returned)
        (accept-cached o _ rest)

  look_up_or_call-cached :
      (writes : Bool) (id : String) (w : Client S) {o' : OcOutput}
      → (look_up_or_call config out writes id p w).0 ≡ ok o'
      → cache_get (look_up_or_call config out writes id p w).1.cache op_key ≡ some o'
  unfolding look_up_or_call answer_known
  look_up_or_call-cached writes id w {o'} h =
      go p.force (cache_get w.cache op_key) (find_opencode_call_by_op_key w.ledger op_key) refl h
    where
      outcome : Bool → Option OcOutput → Option OpencodeCallRow → Result OcOutput × Client S
      outcome f c r =
          if f
          then call_out config out writes id p w
          else answer_known config out c r p (call_out config out writes id p) w

      go :
          (f : Bool) (c : Option OcOutput) (r : Option OpencodeCallRow)
          → cache_get w.cache op_key ≡ c
          → (outcome f c r).0 ≡ ok o'
          → cache_get (outcome f c r).1.cache op_key ≡ some o'
      go true c r e k = call_out-cached writes id w k
      go false (some o) r e k = e ∙ cc k
      go false none (some row) e k =
          cache_get-cache_set w.cache op_key (persisted_output row) ∙ cc k
      go false none none e k = call_out-cached writes id w k

  -- After a prompt that returned an answer, forced or not, the same prompt without force returns that
  -- answer again and changes nothing: neither the SDK nor a fixture is asked, and no session is counted.
  -- A prompt that is forced the second time is asked again.
  pub prompt_structured-again :
      (writes again : Bool) (id later : String) (w : Client S) {o : OcOutput}
      → (prompt_structured config out writes id p w).0 ≡ ok o
      → let left = (prompt_structured config out writes id p w).1 in
        prompt_structured config out again later (unforced p) left ≡ (ok o, left)
  unfolding prompt_structured
  prompt_structured-again writes again id later w {o} h =
      let (x, guarded, rest) = lift_returns (assert_no_child_session (prompt_json p)) _ w h in
      let e =
        lift_of_ok (assert_no_child_session (prompt_json p))
          (λ _. look_up_or_call config out writes id p) w x guarded in
      prompt-cached again later _ guarded
        (ap (λ y. cache_get y.1.cache op_key) e ∙ look_up_or_call-cached writes id w rest)

  prompt-out :
      (writes : Bool) (id : String) (w : Client S)
      → assert_no_child_session (prompt_json p) ≡ ok tt
      → p.force ≡ false
      → cache_get w.cache op_key ≡ none
      → find_opencode_call_by_op_key w.ledger op_key ≡ none
      → prompt_structured config out writes id p w ≡ call_out config out writes id p w
  unfolding prompt_structured look_up_or_call answer_known
  prompt-out writes id w g f c l =
      lift_of_ok (assert_no_child_session (prompt_json p)) _ w tt g ∙ rw (c, l, f) refl

  prompt-known :
      (writes : Bool) (id : String) (w : Client S) (row : OpencodeCallRow)
      → assert_no_child_session (prompt_json p) ≡ ok tt
      → p.force ≡ false
      → cache_get w.cache op_key ≡ none
      → find_opencode_call_by_op_key w.ledger op_key ≡ some row
      → (prompt_structured config out writes id p w).0 ≡ ok (persisted_output row)
  unfolding prompt_structured look_up_or_call answer_known
  prompt-known writes id w row g f c l =
      ap (λ x. x.0) (lift_of_ok (assert_no_child_session (prompt_json p)) _ w tt g)
      ∙ rw (c, l, f) refl

  call_out-denied :
      (writes : Bool) (id : String) (w : Client S) (o : OcOutput) (e : Error)
      → (attempt_prompt config out p w).0 ≡ ok o
      → assert_tool_allowlist (p.agent or_default "build") o.toolcalls ≡ err e
      → call_out config out writes id p w
        ≡ (err e, ledger_call config out writes id p (ok o) (attempt_prompt config out p w).1)
  unfolding call_out accept_output ◌>>=◌ lift
  call_out-denied writes id w o e a d = rw (a, d) refl

  -- The allowlist does not cover the ledger: when the output of a call uses a tool that its agent may
  -- not use, the call throws, but its row is written first, and the same prompt then returns an
  -- output with those tool calls.
  pub prompt_structured-denied :
      (again : Bool) (id later : String) (w : Client S) (o : OcOutput) (e : Error)
      → assert_no_child_session (prompt_json p) ≡ ok tt
      → p.force ≡ false
      → cache_get w.cache op_key ≡ none
      → find_opencode_call_by_op_key w.ledger op_key ≡ none
      → (attempt_prompt config out p w).0 ≡ ok o
      → cache_get (attempt_prompt config out p w).1.cache op_key ≡ none
      → find_opencode_call_by_op_key (attempt_prompt config out p w).1.ledger op_key ≡ none
      → assert_tool_allowlist (p.agent or_default "build") o.toolcalls ≡ err e
      → ((prompt_structured config out true id p w).0 ≡ err e)
        × (replayed : OcOutput) × ((prompt_structured config out again later p
              (prompt_structured config out true id p w).1).0
            ≡ ok replayed)
        × (replayed.toolcalls ≡ o.toolcalls)
  unfolding call_row persisted_output ledger_call
  prompt_structured-denied again id later w o e g f c l a c' l' d = (
    ap (λ x. x.0) thrown,
    persisted_output row,
    ap (λ x. (prompt_structured config out again later p x.1).0) thrown ∙ found,
    refl,
  )
    where
      row : OpencodeCallRow
      row = call_row config out id p (ok o)

      noted : Client S
      noted = ledger_call config out true id p (ok o) (attempt_prompt config out p w).1

      thrown : prompt_structured config out true id p w ≡ (err e, noted)
      thrown = prompt-out true id w g f c l ∙ call_out-denied true id w o e a d

      found : (prompt_structured config out again later p noted).0 ≡ ok (persisted_output row)
      found =
          prompt-known again later noted row g f c'
            (find-insert_opencode_call (attempt_prompt config out p w).1.ledger row l')
