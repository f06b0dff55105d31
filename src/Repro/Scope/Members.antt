-- ===== src/Repro/Scope/Members.antt =====
-- What a round of discoverDbosWorkflowScope of src/lib/repro.ts adds.
use sisu_kodo.Prelude.{
  String, Bool, true, false, not, ◌&&◌, ◌||◌, Option, none, some, List, [], ◌∷◌, ◌++◌, ◌≡◌, refl,
  ◌∙◌, arith, ◌===◌, any, if◌then◌else◌, eq_iff, Bool-cases, inl, inr, ◌⊎◌,
}
use sisu_kodo.Repro.Scope.{StatusRow, member, in_frontier, child_text, children, is_new, add_new}

pub member-append :
    (x : String) (ys zs : List String) → member x (ys ++ zs) ≡ (member x ys || member x zs)
member-append x [] zs = refl
member-append x (y ∷ ys) zs = ground (arith, member-append x ys zs)

-- After a round, the ids are the old ones and the answers that are not empty.
pub add_new-ids :
    (x : String) (cs ids frontier : List String)
    → member x (add_new cs ids frontier).0 ≡ (member x ids || (not (x === "") && member x cs))
unfolding add_new
add_new-ids x [] ids frontier = ground arith
add_new-ids x (c ∷ cs) ids frontier = ground (
  arith,
  add_new-ids x cs (if is_new c ids then ids ++ c ∷ [] else ids)
      (if is_new c ids then frontier ++ c ∷ [] else frontier),
  member-append x ids (c ∷ []),
  eq_iff c x,
  eq_iff x "",
  eq_iff c "",
)

-- And the new frontier is what was added.
pub add_new-frontier :
    (x : String) (cs ids frontier : List String)
    → member x (add_new cs ids frontier).1
      ≡ (member x frontier || ((not (x === "") && member x cs) && not (member x ids)))
unfolding add_new
add_new-frontier x [] ids frontier = ground arith
add_new-frontier x (c ∷ cs) ids frontier = ground (
  arith,
  add_new-frontier x cs (if is_new c ids then ids ++ c ∷ [] else ids)
      (if is_new c ids then frontier ++ c ∷ [] else frontier),
  member-append x ids (c ∷ []),
  member-append x frontier (c ∷ []),
  eq_iff c x,
  eq_iff x "",
  eq_iff c "",
)

-- There is a row with this parent and this child.
abbrev pub is_edge : String → String → StatusRow → Bool
is_edge p c r = elim r.parent [ none ↦ false | some q ↦ q === p ] && child_text r === c

children-step :
    (c : String) (r : StatusRow) (rows : List StatusRow) (frontier : List String)
    → member c (children (r ∷ rows) frontier)
      ≡ ((in_frontier frontier r.parent && child_text r === c) || member c (children rows frontier))
unfolding children
children-step c r rows frontier = elim (Bool-cases (child_text r === c)) [
  | inl this ↦
      let same : child_text r ≡ c = (eq_iff (child_text r) c).0 this in
      rw same (ground (arith, eq_iff c c))
  | inr other ↦ ground (arith, other)
]

pub children_complete :
    (p c : String) (rows : List StatusRow) (frontier : List String)
    → member p frontier ≡ true
    → any (is_edge p c) rows ≡ true
    → member c (children rows frontier) ≡ true
children_complete p c [] frontier h e = cc
children_complete p c (r ∷ rows) frontier h e =
    children-step c r rows frontier ∙ split (children_complete p c rows frontier h) r.parent refl
  where
    split :
        (any (is_edge p c) rows ≡ true → member c (children rows frontier) ≡ true)
        → (o : Option String) → r.parent ≡ o
        → ((in_frontier frontier r.parent && child_text r === c)
            || member c (children rows frontier))
          ≡ true
    split ih none f = ground (arith, e, f, ih)
    split ih (some q) f = ground (arith, e, f, h, eq_iff q p, ih)

-- A child in the answer has a row whose parent is in the frontier.
pub children_sound :
    (c : String) (rows : List StatusRow) (frontier : List String)
    → member c (children rows frontier) ≡ true
    → (p : String) × (member p frontier ≡ true) × (any (is_edge p c) rows ≡ true)
children_sound c [] frontier h = unfold children in (cc)
children_sound c (r ∷ rows) frontier h =
    split (children_sound c rows frontier) r.parent refl
      (Bool-cases (member c (children rows frontier)))
  where
    split :
        (member c (children rows frontier) ≡ true
          → (p : String) × (member p frontier ≡ true) × (any (is_edge p c) rows ≡ true))
        → (o : Option String) → r.parent ≡ o
        → (member c (children rows frontier) ≡ true) ⊎ (member c (children rows frontier) ≡ false)
        → (p : String) × (member p frontier ≡ true) × (any (is_edge p c) (r ∷ rows) ≡ true)
    split ih o f (inl later) = let (p, known, edge) = ih later in (p, known, ground (arith, edge))
    split ih none f (inr no_more) =
        absurd (ground (arith, h, f, no_more, children-step c r rows frontier))
    split ih (some q) f (inr no_more) = (
      q,
      ground (arith, h, f, no_more, children-step c r rows frontier),
      ground (arith, h, f, no_more, children-step c r rows frontier, eq_iff q q),
    )
