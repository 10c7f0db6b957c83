-- ===== src/Recipe/Flow/Safe.antt =====
-- A recipe that passes the check of its IF blocks never fails for a missing IF.
use servers.Base.{
  ◌≡◌, ◌≢◌, refl, sym, ◌∙◌, Bool, false, List, [], ◌∷◌, none, some, is_empty, if◌then◌else◌, ok,
  err, arith, Result-cases, Bool-cases, inl, inr,
}
use servers.Recipe.Flow.{
  normal, Statement, no_open_if, Machine, CondFrame, cond_active, apply_control, perform, run_from,
  run_recipe, validate_control_flow,
}
use servers.Recipe.Flow.Valid.{perform-no_open_if}
use servers.Recipe.Flow.Marker.{
  Fits, validate_from-normal, StepOk, IsMarker, control-cases, marker-StepOk,
}

module _ {ℓ} {W : Type ℓ} (k : Machine W) where
  -- What a marker leaves to be done.
  run_from-marker :
      (st : Statement) (sts : List Statement) (stack : List CondFrame) (w : W)
      → IsMarker k st.control
      → run_from k false (st ∷ sts) stack w [] ≡ elim (apply_control k st stack w).1 [
        | none ↦ run_from k false sts (apply_control k st stack w).0 w []
        | some e ↦ err (e ∷ [])
      ]
  unfolding run_from IsMarker
  run_from-marker st sts stack w (inl c) = ground arith
  run_from-marker st sts stack w (inr (inl c)) = ground arith
  run_from-marker st sts stack w (inr (inr (inl c))) = ground arith
  run_from-marker st sts stack w (inr (inr (inr c))) = ground arith

  run_from-normal :
      (st : Statement) (sts : List Statement) (stack : List CondFrame) (w : W)
      → st.control ≡ normal
      → run_from k false (st ∷ sts) stack w [] ≡ (
          if cond_active stack
          then elim (perform k st w) [
            | ok w' ↦ run_from k false sts stack w' []
            | err e ↦ err (e ∷ [])
          ]
          else run_from k false sts stack w [])
  unfolding run_from
  run_from-normal st sts stack w c = ground arith

  run_from-nil : (stack : List CondFrame) (w : W) → run_from k false [] stack w [] ≡ ok w
  unfolding run_from is_empty
  run_from-nil stack w = refl

  run_from-safe :
      (sts : List Statement) (vs : List Bool) (stack : List CondFrame) (w : W)
      → Fits vs stack sts
      → run_from k false sts stack w [] ≢ err (no_open_if ∷ [])
  unfolding StepOk
  run_from-safe [] vs stack w f h = let eq = sym (run_from-nil stack w) ∙ h in absurd (ground arith)
  run_from-safe (st ∷ sts) vs stack w f h = elim (control-cases k st.control) [
    | inl c ↦
        let rest : Fits vs stack sts = record {
          depth = f.depth;
          valid = sym (validate_from-normal st sts vs c) ∙ f.valid;
        } in
        let eq = sym (run_from-normal st sts stack w c) ∙ h in
        elim (Bool-cases (cond_active stack)) [
          | inr a ↦ run_from-safe sts vs stack w rest (ground (arith, eq))
          | inl a ↦ elim (Result-cases (perform k st w)) [
            | inl (w', p) ↦ run_from-safe sts vs stack w' rest (ground (arith, eq))
            | inr (e, p) ↦ absurd (perform-no_open_if k st w (p ∙ ground (arith, eq)))
          ]
        ]
    | inr c ↦
        let eq = sym (run_from-marker st sts stack w c) ∙ h in
        elim (marker-StepOk k st sts vs stack w c f) [
          | inl (after, p, t) ↦
              run_from-safe sts after (apply_control k st stack w).0 w t (ground (arith, eq))
          | inr (e, p, n) ↦ absurd (n (ground (arith, eq)))
        ]
  ]

  -- A recipe that passes the check of its IF blocks is never refused, when it runs, for an ELSE or
  -- END without an IF, where the run stops at the first failure.
  pub run_recipe-validated :
      (sts : List Statement) (w : W)
      → validate_control_flow sts ≡ ok tt
      → run_recipe k false sts w ≢ err (no_open_if ∷ [])
  unfolding run_recipe validate_control_flow
  run_recipe-validated sts w v h = run_from-safe sts [] [] w (record { depth = refl; valid = v }) h
