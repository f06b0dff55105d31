-- ===== src/Repro/Scope/Closed.antt =====
-- The loop of discoverDbosWorkflowScope of src/lib/repro.ts ends, with all that the run's workflows
-- lead to.
use sisu_kodo.Prelude.{
  ℕ, zero, suc, ◌+◌, ◌≤◌, ◌<◌, String, true, false, not, some, List, [], ◌∷◌, ◌≡◌, ◌↔◌, refl, arith,
  ◌===◌, any, count, length, eq_iff, Bool-cases, inl, inr,
}
use sisu_kodo.Repro.Scope.{StatusRow, member, child_text, children, add_new, explore}
use sisu_kodo.Repro.Scope.Members.{
  add_new-ids, add_new-frontier, is_edge, children_complete, children_sound,
}

module _ (rows : List StatusRow) (starts : List String) where
  -- What the starts lead to, along the rows.
  pub data InScope : String → Type 0 where
    first : {x : String} → member x starts ≡ true → InScope x
    child :
        {p c : String} → InScope p → (c === "") ≡ false → any (is_edge p c) rows ≡ true → InScope c

  -- The ids so far, with those whose children are not asked for yet.
  pub record Explored (ids frontier : List String) : Type 0 where
    pub known : (x : String) → member x frontier ≡ true → member x ids ≡ true
    pub closed :
        (p c : String)
        → member p ids ≡ true
        → member p frontier ≡ false
        → (c === "") ≡ false
        → any (is_edge p c) rows ≡ true
        → member c ids ≡ true
    pub sound : (x : String) → member x ids ≡ true → InScope x
    pub started : (x : String) → member x starts ≡ true → member x ids ≡ true

  pub Explored-first : Explored starts starts
  Explored-first = record {
    known = λ x h. h;
    closed = λ p c h n. cc;
    sound = λ x h. first h;
    started = λ x h. h;
  }

  module _ (ids frontier : List String) (inv : Explored ids frontier) where
    abbrev answer : List String
    answer = children rows frontier

    abbrev ids' : List String
    ids' = (add_new answer ids []).0

    abbrev frontier' : List String
    frontier' = (add_new answer ids []).1

    grown : (x : String) → member x ids ≡ true → member x ids' ≡ true
    grown x h = ground (arith, h, add_new-ids x answer ids [])

    asked :
        (p c : String)
        → member p frontier ≡ true
        → (c === "") ≡ false
        → any (is_edge p c) rows ≡ true
        → member c ids' ≡ true
    asked p c h n e =
        ground (arith, n, add_new-ids c answer ids [], children_complete p c rows frontier h e)

    round_closed :
        (p c : String)
        → member p ids' ≡ true
        → member p frontier' ≡ false
        → (c === "") ≡ false
        → any (is_edge p c) rows ≡ true
        → member c ids' ≡ true
    round_closed p c h f n e = elim (Bool-cases (member p frontier)) [
      | inl now ↦ asked p c now n e
      | inr before ↦ elim (Bool-cases (member p ids)) [
        | inl old ↦ grown c (inv.closed p c old before n e)
        | inr new ↦ absurd (
            ground
              (arith, h, f, new, add_new-ids p answer ids [], add_new-frontier p answer ids []))
      ]
    ]

    round_sound : (x : String) → member x ids' ≡ true → InScope x
    round_sound x h = elim (Bool-cases (member x ids)) [
      | inl old ↦ inv.sound x old
      | inr new ↦
          let found : member x answer ≡ true =
            ground (arith, h, new, add_new-ids x answer ids []) in
          let (p, now, edge) = children_sound x rows frontier found in
          child (inv.sound p (inv.known p now))
            (ground (arith, h, new, add_new-ids x answer ids [])) edge
    ]

    Explored-round : Explored ids' frontier'
    Explored-round = record {
      known =
          λ x h. ground (arith, h, add_new-ids x answer ids [], add_new-frontier x answer ids []);
      closed = round_closed;
      sound = round_sound;
      started = λ x h. grown x (inv.started x h);
    }

  -- The rows whose child is not known.
  abbrev pending : List StatusRow → List String → ℕ
  pending rs ids = count (λ r. not (member (child_text r) ids)) rs

  pending-le :
      (ids more : List String)
      → ((x : String) → member x ids ≡ true → member x more ≡ true)
      → (rs : List StatusRow) → pending rs more ≤ pending rs ids
  pending-le ids more keep [] = omega arith
  pending-le ids more keep (r ∷ rs) =
      ground (arith, keep (child_text r), pending-le ids more keep rs)

  pending-lt :
      (ids more : List String)
      → ((x : String) → member x ids ≡ true → member x more ≡ true)
      → (p c : String) → member c ids ≡ false
      → member c more ≡ true
      → (rs : List StatusRow) → any (is_edge p c) rs ≡ true
      → pending rs more < pending rs ids
  pending-lt ids more keep p c old new [] e = cc
  pending-lt ids more keep p c old new (r ∷ rs) e = elim (Bool-cases (is_edge p c r)) [
    | inl this ↦
        let same : child_text r ≡ c = ground (arith, this, eq_iff (child_text r) c) in
        rw same (ground (arith, old, new, pending-le ids more keep rs))
    | inr other ↦
        ground (arith, other, e, keep (child_text r), pending-lt ids more keep p c old new rs)
  ]

  explore-nil : (fuel : ℕ) (ids : List String) → 1 ≤ fuel → explore fuel rows ids [] ≡ some ids
  unfolding explore
  explore-nil zero ids h = absurd (omega arith)
  explore-nil (suc fuel) ids h = refl

  -- A round that leaves a frontier has found a child that was not known.
  round_pending :
      (ids frontier : List String) (inv : Explored ids frontier) (y : String)
      → member y (frontier' ids frontier inv) ≡ true
      → pending rows (ids' ids frontier inv) < pending rows ids
  round_pending ids frontier inv y h =
      let added = add_new-frontier y (children rows frontier) ids [] in
      let new : member y ids ≡ false = ground (arith, h, added) in
      let (p, now, edge) = children_sound y rows frontier (ground (arith, h, added)) in
      pending-lt ids (ids' ids frontier inv) (grown ids frontier inv) p y new
        (ground (arith, h, added, add_new-ids y (children rows frontier) ids [])) rows edge

  abbrev Ends : ℕ → List String → List String → Type 0
  Ends fuel ids frontier =
      (out : List String) × (explore fuel rows ids frontier ≡ some out) × Explored out []

  explore-Explored :
      (fuel : ℕ) (ids frontier : List String)
      → Explored ids frontier
      → pending rows ids + 2 ≤ fuel
      → Ends fuel ids frontier
  unfolding explore
  explore-Explored zero ids frontier inv h = absurd (omega arith)
  explore-Explored (suc fuel) ids [] inv h = (ids, refl, inv)
  explore-Explored (suc fuel) ids (x ∷ frontier) inv h =
      after (frontier' ids (x ∷ frontier) inv) refl (
        explore-Explored fuel (ids' ids (x ∷ frontier) inv) (frontier' ids (x ∷ frontier) inv)
          (Explored-round ids (x ∷ frontier) inv))
    where
      more : List String
      more = ids' ids (x ∷ frontier) inv

      after :
          (left : List String)
          → frontier' ids (x ∷ frontier) inv ≡ left
          → (pending rows more + 2 ≤ fuel → Ends fuel more (frontier' ids (x ∷ frontier) inv))
          → Ends fuel more (frontier' ids (x ∷ frontier) inv)
      after [] e ih = (
        more,
        (rw e (explore-nil fuel more (omega arith))),
        (rw (← e) (Explored-round ids (x ∷ frontier) inv)),
      )
      after (y ∷ ys) e ih =
          let fewer = round_pending ids (x ∷ frontier) inv y (rw e (ground (arith, eq_iff y y))) in
          ih (omega (arith, fewer))

  pending-le-length : (ids : List String) (rs : List StatusRow) → pending rs ids ≤ length rs
  pending-le-length ids [] = omega arith
  pending-le-length ids (r ∷ rs) = ground (arith, pending-le-length ids rs)

  all_found : (out : List String) → Explored out [] → {x : String} → InScope x → member x out ≡ true
  all_found out inv (first h) = inv.started _ h
  all_found out inv (child {p} {c} from n e) = inv.closed p c (all_found out inv from) refl n e

  -- From any first ids the loop ends within its fuel, and its answer has exactly what they lead to.
  pub explore-InScope :
      (out : List String) × (explore (suc (suc (length rows))) rows starts starts ≡ some out)
      × ((x : String) → (member x out ≡ true) ↔ InScope x)
  explore-InScope =
      let run =
        explore-Explored (suc (suc (length rows))) starts starts Explored-first
          (omega (arith, pending-le-length starts rows)) in
      (run.0, run.1, λ x. (run.2.sound x, λ s. all_found run.0 run.2 s))
