-- ===== src/Compiled/Predicate.antt =====
-- One predicate of a `CompiledQuery` and the condition that it stands for.
use mathlib.Core.Path.{subst}
use bit_lsm.Compiled.Extension.{resolved_pred}
use bit_lsm.Compiled.Resolved.{IsStored, Resolves}
use bit_lsm.Base.{
  ℕ, zero, suc, ◌≡◌, refl, ap, sym, ◌∙◌, inl, inr, true, false, Bool-cases, some, none, get_or,
  drop, Ordering, ◌==◌, if◌then◌else◌, arith,
}
use bit_lsm.Base.Int.{pos}
use bit_lsm.Bytes.{Bytes}
use bit_lsm.Memory.{read}
use bit_lsm.Schema.{
  AttrSpec, BitLsmOptions, PhysicalType, is_fixed, is_fixed_type, is_numeric, is_numeric_type,
  spec_at,
}
use bit_lsm.Row.{
  Attr, value_layout, decode_fixed, decode_attr, decode_variable, is_marked_null, variable_start,
}
use bit_lsm.Row.Decoded.{is_fixed-value_layout, specs-value_layout}
use bit_lsm.Query.{
  CompareOp, Comparand, QueryCondition, eval_condition, type_matches, sign, apply_compare_op,
  i64_comparison,
}
use bit_lsm.Query.Evaluation.{holds}
use bit_lsm.Compiled.{
  Pred, CompiledQuery, pass_op, pred_start, pred_bytes, numeric_passes, eval_pred, blank_pred,
}

-- The comparand that a numeric predicate holds.
abbrev IsActive : Pred → Comparand → Type 0
IsActive p (Comparand.int x) = p.ival ≡ x
IsActive p (Comparand.uint x) = p.uval ≡ x
IsActive p (Comparand.float x) = p.dval ≡ x
IsActive p (Comparand.text s) = ⊥

numeric_passes-holds :
    (t : PhysicalType) (w : Comparand) (p : Pred) (src : Bytes) (idx : ℕ)
    → p.spec.physical_type ≡ t
    → type_matches t w ≡ true
    → IsActive p w
    → numeric_passes t p src
      ≡ some (holds (record { attr_idx = idx; op = p.op; value = w }) (decode_fixed src p.spec))
unfolding holds eval_condition decode_fixed
numeric_passes-holds PhysicalType.int (Comparand.int x) p src idx e h a = rw (e, a) refl
numeric_passes-holds PhysicalType.uint (Comparand.uint x) p src idx e h a = rw (e, a) refl
numeric_passes-holds PhysicalType.float (Comparand.float x) p src idx e h a =
    elim (Bool-cases (p.spec.width == 8)) [
      | inl eight ↦ rw (e, eight, a) refl
      | inr four ↦ rw (e, four, a) refl
    ]
numeric_passes-holds t (Comparand.text s) p src idx e h a = absurd a
numeric_passes-holds t w p src idx e h a = cc

pass_op-apply_compare_op :
    (op : CompareOp) (o : Ordering)
    → pass_op op o ≡ apply_compare_op i64_comparison op (sign o) (pos 0)
pass_op-apply_compare_op op o = ground arith

holds-null : (cond : QueryCondition) → holds cond Attr.null ≡ false
unfolding holds eval_condition
holds-null cond = refl

active-numeric :
    (t : PhysicalType) (w : Comparand) (p : Pred)
    → type_matches t w ≡ true
    → IsActive p w
    → is_numeric_type t ≡ true
active-numeric t (Comparand.text s) p h a = absurd a
active-numeric t (Comparand.int x) p h a = ground arith
active-numeric t (Comparand.uint x) p h a = ground arith
active-numeric t (Comparand.float x) p h a = ground arith

numeric-fixed : (t : PhysicalType) → is_numeric_type t ≡ true → is_fixed_type t ≡ true
numeric-fixed t h = ground arith

module _ (o : BitLsmOptions) (base : Bytes) (c : CompiledQuery) where
  abbrev pub IsBased : Type 0
  IsBased =
      (c.variable_base ≡ (value_layout o).variable_base)
      × (c.null_bitmap_bytes ≡ (value_layout o).null_bitmap_bytes)

  abbrev layout_spec : QueryCondition → AttrSpec
  layout_spec cond = spec_at (value_layout o).specs cond.attr_idx

  pred_start-variable_start :
      IsBased → (rank : ℕ) → pred_start c base rank ≡ variable_start (value_layout o) base rank
  unfolding pred_start variable_start
  pred_start-variable_start b zero = refl
  pred_start-variable_start b (suc rank) = rw b.1 refl

  -- What the slot of a predicate holds.
  abbrev slot_value : Pred → Attr
  slot_value p =
      if is_fixed p.spec
      then decode_fixed (drop p.slot base) p.spec
      else decode_variable (value_layout o) base p.slot

  -- A predicate with the fields of the condition's attribute.
  record IsOf (cond : QueryCondition) (p : Pred) : Type 0 where
    op_same : p.op ≡ cond.op
    null_same : get_or (value_layout o).null_bit cond.attr_idx none ≡ p.null_bit
    slot_same : get_or (value_layout o).slot cond.attr_idx 0 ≡ p.slot
    spec_same : layout_spec cond ≡ p.spec
    numeric_same : p.is_numeric ≡ is_numeric p.spec

  decode_attr-slot_value :
      (cond : QueryCondition) (p : Pred)
      → IsOf cond p
      → decode_attr (value_layout o) base cond.attr_idx
        ≡ (if is_marked_null base p.null_bit then Attr.null else slot_value p)
  unfolding decode_attr
  decode_attr-slot_value cond p of =
      let spec : spec_at o.attr_specs cond.attr_idx ≡ p.spec =
        ap (λ specs. spec_at specs cond.attr_idx) (sym (specs-value_layout o)) ∙ of.spec_same in
      rw (of.null_same, of.slot_same, of.spec_same, is_fixed-value_layout o cond.attr_idx, spec)
        refl

  -- The bytes that a predicate on text compares.
  slot_value-pred_bytes :
      (p : Pred) (t : PhysicalType)
      → IsBased
      → p.spec.physical_type ≡ t
      → is_numeric_type t ≡ false
      → slot_value p ≡ Attr.text (pred_bytes c base p)
  unfolding pred_bytes decode_fixed decode_variable read
  slot_value-pred_bytes p PhysicalType.binary b e n = rw (e, decode_fixed) refl
  slot_value-pred_bytes p PhysicalType.var_binary b e n =
      rw (e, sym (pred_start-variable_start b p.slot), sym b.0, sym b.1) refl
  slot_value-pred_bytes p t b e n = cc

  eval_pred-text :
      (cond : QueryCondition) (p : Pred) (s : Bytes) (t : PhysicalType)
      → IsBased
      → IsOf cond p
      → p.spec.physical_type ≡ t
      → type_matches t (Comparand.text s) ≡ true
      → read c.arena p.soff p.slen ≡ s
      → eval_pred c base p
        ≡ some (
            holds
              (record { attr_idx = cond.attr_idx; op = cond.op; value = Comparand.text s })
              (decode_attr (value_layout o) base cond.attr_idx))
  unfolding eval_pred holds eval_condition
  eval_pred-text cond p s t b of e h stored =
      let text_type : is_numeric_type t ≡ false = ground arith in
      let numeric : p.is_numeric ≡ false = of.numeric_same ∙ ap is_numeric_type e ∙ text_type in
      rw (decode_attr-slot_value cond p of, slot_value-pred_bytes p t b e text_type)
        (elim (Bool-cases (is_marked_null base p.null_bit)) [
          | inl n ↦ rw n refl
          | inr n ↦
              rw (n, numeric, stored, of.op_same) (ap some (pass_op-apply_compare_op cond.op _))
        ])

  eval_pred-numeric :
      (cond : QueryCondition) (p : Pred) (w : Comparand) (t : PhysicalType)
      → IsOf cond p
      → p.spec.physical_type ≡ t
      → type_matches t w ≡ true
      → IsActive p w
      → eval_pred c base p
        ≡ some (
            holds
              (record { attr_idx = cond.attr_idx; op = cond.op; value = w })
              (decode_attr (value_layout o) base cond.attr_idx))
  unfolding eval_pred
  eval_pred-numeric cond p w t of e h a =
      let number : is_numeric_type t ≡ true = active-numeric t w p h a in
      let numeric : p.is_numeric ≡ true = of.numeric_same ∙ ap is_numeric_type e ∙ number in
      let in_slot : is_fixed p.spec ≡ true = ap is_fixed_type e ∙ numeric-fixed t number in
      rw (decode_attr-slot_value cond p of, in_slot)
        (elim (Bool-cases (is_marked_null base p.null_bit)) [
          | inl n ↦ rw n (
              sym (
                ap some
                  (holds-null (record { attr_idx = cond.attr_idx; op = cond.op; value = w }))))
          | inr n ↦
              simp (n, numeric, e, sym of.op_same)
                (numeric_passes-holds t w p (drop p.slot base) cond.attr_idx e h a)
        ])

  resolved-eval_pred :
      (cond : QueryCondition) (before : Bytes) (t : PhysicalType) (w : Comparand)
      → IsBased
      → (layout_spec cond).physical_type ≡ t
      → type_matches t w ≡ true
      → IsStored c.arena (resolved_pred before (blank_pred (value_layout o) cond) w) w
      → eval_pred c base (resolved_pred before (blank_pred (value_layout o) cond) w)
        ≡ some (
            holds
              (record { attr_idx = cond.attr_idx; op = cond.op; value = w })
              (decode_attr (value_layout o) base cond.attr_idx))
  resolved-eval_pred cond before t (Comparand.text s) b e h stored =
      eval_pred-text cond
        (resolved_pred before (blank_pred (value_layout o) cond) (Comparand.text s)) s t b
        (record {
          op_same = refl;
          null_same = refl;
          slot_same = refl;
          spec_same = refl;
          numeric_same = refl;
        })
        e h stored
  resolved-eval_pred cond before t (Comparand.int x) b e h stored =
      eval_pred-numeric cond
        (resolved_pred before (blank_pred (value_layout o) cond) (Comparand.int x))
        (Comparand.int x) t
        (record {
          op_same = refl;
          null_same = refl;
          slot_same = refl;
          spec_same = refl;
          numeric_same = refl;
        })
        e h refl
  resolved-eval_pred cond before t (Comparand.uint x) b e h stored =
      eval_pred-numeric cond
        (resolved_pred before (blank_pred (value_layout o) cond) (Comparand.uint x))
        (Comparand.uint x) t
        (record {
          op_same = refl;
          null_same = refl;
          slot_same = refl;
          spec_same = refl;
          numeric_same = refl;
        })
        e h refl
  resolved-eval_pred cond before t (Comparand.float x) b e h stored =
      eval_pred-numeric cond
        (resolved_pred before (blank_pred (value_layout o) cond) (Comparand.float x))
        (Comparand.float x) t
        (record {
          op_same = refl;
          null_same = refl;
          slot_same = refl;
          spec_same = refl;
          numeric_same = refl;
        })
        e h refl

  pub eval_pred-Resolves :
      (cond : QueryCondition) (p : Pred)
      → IsBased
      → Resolves (value_layout o) c.arena p cond
      → type_matches (layout_spec cond).physical_type cond.value ≡ true
      → eval_pred c base p ≡ some (holds cond (decode_attr (value_layout o) base cond.attr_idx))
  eval_pred-Resolves cond p b r h = rw r.same (
      resolved-eval_pred cond r.before (layout_spec cond).physical_type cond.value b refl h
        (subst (λ q. IsStored c.arena q cond.value) r.same r.stored))
