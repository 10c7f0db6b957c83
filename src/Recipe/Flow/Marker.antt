-- ===== src/Recipe/Flow/Marker.antt =====
-- A marker of an IF block keeps the stack of the run in step with that of the check.
use servers.Base.{
  ◌≡◌, ◌≢◌, ◌⊎◌, refl, sym, ap, ◌∙◌, Bool, true, false, not, ◌&&◌, List, [], ◌∷◌, none, some, ok,
  err, arith, Result-cases, Bool-cases, inl, inr, length,
}
use servers.Recipe.Flow.{
  Control, normal, if_marker, elseif_marker, else_marker, end_marker, Statement, RunError,
  no_open_if, Machine, CondFrame, cond_active, eval_cond, open_block, next_branch, apply_control,
  validate_from,
}
use servers.Recipe.Flow.Valid.{eval_cond-no_open_if}

-- The check's stack stands for the run's.
pub record Fits (vs : List Bool) (stack : List CondFrame) (sts : List Statement) : Type 0 where
  pub depth : length vs ≡ length stack
  pub valid : validate_from vs sts ≡ ok tt

pub validate_from-if :
    (st : Statement) (sts : List Statement) (vs : List Bool)
    → st.control ≡ if_marker
    → validate_from vs (st ∷ sts) ≡ validate_from (false ∷ vs) sts
unfolding validate_from
validate_from-if st sts [] c = ground arith
validate_from-if st sts (v ∷ vs) c = ground arith

pub validate_from-normal :
    (st : Statement) (sts : List Statement) (vs : List Bool)
    → st.control ≡ normal
    → validate_from vs (st ∷ sts) ≡ validate_from vs sts
unfolding validate_from
validate_from-normal st sts [] c = ground arith
validate_from-normal st sts (v ∷ vs) c = ground arith

-- A marker other than IF is checked only where an IF is open.
validate_from-open :
    (st : Statement) (sts : List Statement) (vs : List Bool)
    → (st.control ≡ elseif_marker) ⊎ ((st.control ≡ else_marker) ⊎ (st.control ≡ end_marker))
    → validate_from vs (st ∷ sts) ≡ ok tt
    → (v : Bool) × (rest : List Bool) × (vs ≡ v ∷ rest)
unfolding validate_from
validate_from-open st sts [] (inl c) h = absurd (ground arith)
validate_from-open st sts [] (inr (inl c)) h = absurd (ground arith)
validate_from-open st sts [] (inr (inr c)) h = absurd (ground arith)
validate_from-open st sts (v ∷ rest) c h = (v, rest, refl)

module _ {ℓ} {W : Type ℓ} (k : Machine W) where
  -- After a marker the stacks still fit, unless its condition failed.
  unfoldable pub StepOk : Statement → List Statement → List CondFrame → W → Type 0
  StepOk st sts stack w =
      ((after : List Bool) × ((apply_control k st stack w).1 ≡ none)
        × Fits after (apply_control k st stack w).0 sts)
      ⊎ ((e : RunError) × ((apply_control k st stack w).1 ≡ some e) × (e ≢ no_open_if))

  if-StepOk :
      (st : Statement) (sts : List Statement) (vs : List Bool) (stack : List CondFrame) (w : W)
      → st.control ≡ if_marker
      → Fits vs stack (st ∷ sts)
      → StepOk st sts stack w
  unfolding StepOk apply_control open_block
  if-StepOk st sts vs stack w c f =
      let valid : validate_from (false ∷ vs) sts ≡ ok tt =
        sym (validate_from-if st sts vs c) ∙ f.valid in
      elim (Bool-cases (cond_active stack)) [
        | inr a ↦
            inl
              (false ∷ vs, ground arith, record { depth = ground (arith, f.depth); valid = valid })
        | inl a ↦ elim (Result-cases (eval_cond k st w)) [
          | inl (m, h) ↦
              inl (
                false ∷ vs,
                ground arith,
                record { depth = ground (arith, f.depth); valid = valid },
              )
          | inr (e, h) ↦
              inr (e, ground arith, λ q. absurd (eval_cond-no_open_if k st w (h ∙ ap err q)))
        ]
      ]

  elseif-StepOk :
      (st : Statement) (sts : List Statement) (v : Bool) (vs : List Bool) (f : CondFrame)
      (stack : List CondFrame) (w : W)
      → st.control ≡ elseif_marker
      → Fits (v ∷ vs) (f ∷ stack) (st ∷ sts)
      → StepOk st sts (f ∷ stack) w
  unfolding StepOk apply_control next_branch validate_from
  elseif-StepOk st sts v vs f stack w c t =
      let valid : validate_from (v ∷ vs) sts ≡ ok tt = ground (arith, t.valid) in
      elim (Bool-cases (f.enclosing_active && not f.any_matched)) [
        | inr a ↦
            inl (v ∷ vs, ground arith, record { depth = ground (arith, t.depth); valid = valid })
        | inl a ↦ elim (Result-cases (eval_cond k st w)) [
          | inl (true, h) ↦
              inl (v ∷ vs, ground arith, record { depth = ground (arith, t.depth); valid = valid })
          | inl (false, h) ↦
              inl (v ∷ vs, ground arith, record { depth = ground (arith, t.depth); valid = valid })
          | inr (e, h) ↦
              inr (e, ground arith, λ q. absurd (eval_cond-no_open_if k st w (h ∙ ap err q)))
        ]
      ]

  else-StepOk :
      (st : Statement) (sts : List Statement) (v : Bool) (vs : List Bool) (f : CondFrame)
      (stack : List CondFrame) (w : W)
      → st.control ≡ else_marker
      → Fits (v ∷ vs) (f ∷ stack) (st ∷ sts)
      → StepOk st sts (f ∷ stack) w
  unfolding StepOk apply_control validate_from
  else-StepOk st sts v vs f stack w c t = inl (
    true ∷ vs,
    ground arith,
    record { depth = ground (arith, t.depth); valid = ground (arith, t.valid) },
  )

  end-StepOk :
      (st : Statement) (sts : List Statement) (v : Bool) (vs : List Bool) (f : CondFrame)
      (stack : List CondFrame) (w : W)
      → st.control ≡ end_marker
      → Fits (v ∷ vs) (f ∷ stack) (st ∷ sts)
      → StepOk st sts (f ∷ stack) w
  unfolding StepOk apply_control validate_from
  end-StepOk st sts v vs f stack w c t = inl (
    vs,
    ground arith,
    record { depth = ground (arith, t.depth); valid = ground (arith, t.valid) },
  )

  unfoldable pub IsMarker : Control → Type 0
  IsMarker c = (c ≡ if_marker) ⊎ ((c ≡ elseif_marker) ⊎ ((c ≡ else_marker) ⊎ (c ≡ end_marker)))

  pub control-cases : (c : Control) → (c ≡ normal) ⊎ IsMarker c
  unfolding IsMarker
  control-cases normal = inl refl
  control-cases if_marker = inr (inl refl)
  control-cases elseif_marker = inr (inr (inl refl))
  control-cases else_marker = inr (inr (inr (inl refl)))
  control-cases end_marker = inr (inr (inr (inr refl)))

  open-StepOk :
      (st : Statement) (sts : List Statement) (vs : List Bool) (stack : List CondFrame) (w : W)
      → (st.control ≡ elseif_marker) ⊎ ((st.control ≡ else_marker) ⊎ (st.control ≡ end_marker))
      → Fits vs stack (st ∷ sts)
      → StepOk st sts stack w
  open-StepOk st sts [] stack w c f =
      let (v, rest, e) = validate_from-open st sts [] c f.valid in absurd (ground arith)
  open-StepOk st sts (v ∷ vs) [] w c f = absurd (ground (arith, f.depth))
  open-StepOk st sts (v ∷ vs) (x ∷ stack) w (inl c) f = elseif-StepOk st sts v vs x stack w c f
  open-StepOk st sts (v ∷ vs) (x ∷ stack) w (inr (inl c)) f = else-StepOk st sts v vs x stack w c f
  open-StepOk st sts (v ∷ vs) (x ∷ stack) w (inr (inr c)) f = end-StepOk st sts v vs x stack w c f

  pub marker-StepOk :
      (st : Statement) (sts : List Statement) (vs : List Bool) (stack : List CondFrame) (w : W)
      → IsMarker st.control
      → Fits vs stack (st ∷ sts)
      → StepOk st sts stack w
  unfolding IsMarker
  marker-StepOk st sts vs stack w (inl c) f = if-StepOk st sts vs stack w c f
  marker-StepOk st sts vs stack w (inr c) f = open-StepOk st sts vs stack w c f
