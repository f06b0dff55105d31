-- ===== src/Hitl/Interactions/Once.antt =====
-- A gate is recorded once.
use sisu_kodo.Prelude.{
  ℕ, Bool, true, Option, none, some, List, [], ◌∷◌, ◌++◌, find, Text, same_iff, String, eq_iff,
  arith, ◌≡◌, refl,
}
use sisu_kodo.Hitl.Interactions.{
  HumanGate, is_gate, find_human_gate, insert_human_gate, append_unless,
}

pub find-append :
    {A : Type 0} (q : A → Bool) (rows : List A) (r : A)
    → find q rows ≡ none
    → q r ≡ true
    → find q (rows ++ (r ∷ [])) ≡ some r
find-append q [] r h k = ground arith
find-append q (x ∷ rows) r h k = ground (arith, find-append q rows r)

-- A gate that was opened is found, with the row of the first opening, and opening it again, at any
-- time and with any topic, changes nothing.
pub insert_human_gate-once :
    (now later : ℕ) (rows : List HumanGate) (run_id : String) (gate_key topic topic' : Text)
    → (g : HumanGate) × (find_human_gate
          (insert_human_gate now rows run_id gate_key topic)
          run_id
          gate_key
        ≡ some g)
      × (insert_human_gate later
            (insert_human_gate now rows run_id gate_key topic)
            run_id
            gate_key
            topic'
          ≡ insert_human_gate now rows run_id gate_key topic)
unfolding insert_human_gate
insert_human_gate-once now later rows run_id gate_key topic topic' =
    go (find (is_gate run_id gate_key) rows) refl
  where
    g : HumanGate
    g = record { run_id = run_id; gate_key = gate_key; topic = topic; created_at = now }

    go :
        (o : Option HumanGate)
        → find (is_gate run_id gate_key) rows ≡ o
        → (x : HumanGate) × (find (is_gate run_id gate_key) (append_unless o g rows) ≡ some x)
          × (append_unless
                (find (is_gate run_id gate_key) (append_unless o g rows))
                (record {
                  run_id = run_id;
                  gate_key = gate_key;
                  topic = topic';
                  created_at = later;
                })
                (append_unless o g rows)
              ≡ append_unless o g rows)
    go none e =
        let found =
          find-append (is_gate run_id gate_key) rows g e
            (ground (arith, eq_iff run_id run_id, (same_iff gate_key gate_key).1 refl)) in
        (g, found, rw found refl)
    go (some x) e = (x, e, rw e refl)
