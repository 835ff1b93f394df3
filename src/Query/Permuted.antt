-- ===== src/Query/Permuted.antt =====
-- Queries whose clauses list their conditions in another order: the validation and the evaluation of
-- src/include/bit_lsm_query.cpp do not depend on it.
use mathlib.Core.List.{Permᴰ}
use mathlib.Core.Path.{subst}
use bit_lsm.Base.{◌≡◌, refl, sym, ap, ◌∙◌, Bool, true, false, List, [], ◌∷◌, arith}
use bit_lsm.Schema.{AttrSpec}
use bit_lsm.Query.{QueryCondition, OrClause}
use bit_lsm.Query.Validity.{Fits, AllFit, GroupsFit}
use bit_lsm.Query.Evaluation.{Values, holds, clause_holds, groups_hold}

-- The same clauses in the same order, each with its conditions in some order.
pub data Rearranged : List OrClause → List OrClause → Type 0 where
  no_clauses : Rearranged [] []
  clauses :
      {a b : OrClause} {groups others : List OrClause}
      → Permᴰ a b
      → Rearranged groups others
      → Rearranged (a ∷ groups) (b ∷ others)

abbrev has_none : OrClause → Bool
has_none [] = true
has_none (c ∷ clause) = false

has_none-Perm : {a b : OrClause} → Permᴰ a b → has_none b ≡ has_none a
has_none-Perm Permᴰ.nil = refl
has_none-Perm (Permᴰ.cons e p) = refl
has_none-Perm (Permᴰ.swap e f) = refl
has_none-Perm (Permᴰ.trans p q) = has_none-Perm q ∙ has_none-Perm p

AllFit-Perm : (specs : List AttrSpec) {a b : OrClause} → Permᴰ a b → AllFit specs a → AllFit specs b
AllFit-Perm specs Permᴰ.nil fit = tt
AllFit-Perm specs (Permᴰ.cons e p) (first, rest) =
    (subst (Fits specs) e first, AllFit-Perm specs p rest)
AllFit-Perm specs (Permᴰ.swap e f) (first, (second, rest)) =
    (subst (Fits specs) f second, (subst (Fits specs) e first, rest))
AllFit-Perm specs (Permᴰ.trans p q) fit = AllFit-Perm specs q (AllFit-Perm specs p fit)

GroupsFit-cons :
    (specs : List AttrSpec) (clause : OrClause) (groups : List OrClause)
    → has_none clause ≡ false
    → AllFit specs clause
    → GroupsFit specs groups
    → GroupsFit specs (clause ∷ groups)
GroupsFit-cons specs [] groups some_left fit rest = absurd (ground (arith, some_left))
GroupsFit-cons specs (c ∷ clause) groups some_left fit rest = (fit, rest)

pub GroupsFit-Rearranged :
    (specs : List AttrSpec) {a b : List OrClause}
    → Rearranged a b
    → GroupsFit specs a
    → GroupsFit specs b
GroupsFit-Rearranged specs no_clauses fit = tt
GroupsFit-Rearranged specs (clauses {a = []} p r) fit = absurd fit
GroupsFit-Rearranged specs (clauses {a = c ∷ a} {b = b} {others = others} p r) (fit, rest) =
    GroupsFit-cons specs b others (has_none-Perm p) (AllFit-Perm specs p fit)
      (GroupsFit-Rearranged specs r rest)

clause_holds-Perm :
    (row : Values) {a b : OrClause} → Permᴰ a b → clause_holds row b ≡ clause_holds row a
unfolding clause_holds
clause_holds-Perm row Permᴰ.nil = refl
clause_holds-Perm row (Permᴰ.cons {a = a} {b = b} e p) =
    let head : holds b (row b.attr_idx) ≡ holds a (row a.attr_idx) =
      sym (ap (λ (c : QueryCondition). holds c (row c.attr_idx)) e) in
    rw (head, clause_holds-Perm row p) refl
clause_holds-Perm row (Permᴰ.swap {a = a} {b = b} {a' = a'} {b' = b'} e f) =
    let value : QueryCondition → Bool = λ c. holds c (row c.attr_idx) in
    let first : value b' ≡ value a = sym (ap value e) in
    let second : value a' ≡ value b = sym (ap value f) in ground (arith, first, second)
clause_holds-Perm row (Permᴰ.trans p q) = clause_holds-Perm row q ∙ clause_holds-Perm row p

pub groups_hold-Rearranged :
    (row : Values) {a b : List OrClause} → Rearranged a b → groups_hold row b ≡ groups_hold row a
unfolding groups_hold
groups_hold-Rearranged row no_clauses = refl
groups_hold-Rearranged row (clauses p r) =
    rw (clause_holds-Perm row p, groups_hold-Rearranged row r) refl
