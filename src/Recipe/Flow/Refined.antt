-- ===== src/Recipe/Flow/Refined.antt =====
-- The loop over the flat statements runs the tree.
use servers.Base.{
  ◌≡◌, refl, sym, ◌∙◌, Bool, true, false, not, ◌&&◌, List, [], ◌∷◌, is_empty, if◌then◌else◌, Result,
  ok, err, ◌>>=◌, arith, Result-cases, inl, inr,
}
use servers.Recipe.Flow.{
  normal, if_marker, elseif_marker, else_marker, Statement, RunError, Machine, CondFrame,
  cond_active, eval_cond, open_block, next_branch, apply_control, perform, run_from, run_recipe,
}
use servers.Recipe.Flow.Nested.{
  Block, nothing, plain, choose, Branches, no_more, else_if, otherwise, marked, end_statement,
  flatten, flatten_branches, alone, run_block, run_branches,
}

bind_cong {ℓ κ ι} :
    {E : Type ℓ} {A : Type κ} {B : Type ι} (r : Result E A) (f g : A → Result E B)
    → ((a : A) → f a ≡ g a)
    → (r >>= f) ≡ (r >>= g)
bind_cong (ok a) f g h = h a
bind_cong (err e) f g h = refl

bind_assoc {ℓ κ ι θ} :
    {E : Type ℓ} {A : Type κ} {B : Type ι} {C : Type θ} (r : Result E A) (f : A → Result E B)
    (g : B → Result E C)
    → ((r >>= f) >>= g) ≡ (r >>= λ a. f a >>= g)
bind_assoc (ok a) f g = refl
bind_assoc (err e) f g = refl

-- A frame that may still take a branch.
abbrev is_open : CondFrame → Bool
is_open f = f.enclosing_active && not f.any_matched

module _ {ℓ} {W : Type ℓ} (k : Machine W) where
  -- A run that stops at the first failure.
  abbrev go : List Statement → List CondFrame → W → Result (List RunError) W
  go sts stack w = run_from k false sts stack w []

  abbrev taken : Bool → CondFrame
  taken m = record { enclosing_active = true; any_matched = m; branch_active = m }

  abbrev shut : CondFrame
  shut = record { enclosing_active = false; any_matched = false; branch_active = false }

  go-normal :
      (st : Statement) (sts : List Statement) (stack : List CondFrame) (w : W)
      → cond_active stack ≡ true
      → go (marked normal st ∷ sts) stack w
        ≡ (alone (perform k (marked normal st) w) >>= λ w'. go sts stack w')
  unfolding run_from
  go-normal st sts stack w a = elim (Result-cases (perform k (marked normal st) w)) [
    | inl (w', h) ↦ ground arith
    | inr (e, h) ↦ ground arith
  ]

  go-skipped :
      (st : Statement) (sts : List Statement) (stack : List CondFrame) (w : W)
      → cond_active stack ≡ false
      → go (marked normal st ∷ sts) stack w ≡ go sts stack w
  unfolding run_from
  go-skipped st sts stack w a = ground arith

  go-if :
      (st : Statement) (sts : List Statement) (stack : List CondFrame) (w : W)
      → cond_active stack ≡ true
      → go (marked if_marker st ∷ sts) stack w
        ≡ (alone (eval_cond k (marked if_marker st) w) >>= λ m. go sts (taken m ∷ stack) w)
  unfolding run_from apply_control open_block
  go-if st sts stack w a = elim (Result-cases (eval_cond k (marked if_marker st) w)) [
    | inl (m, h) ↦ ground arith
    | inr (e, h) ↦ ground arith
  ]

  go-if_shut :
      (st : Statement) (sts : List Statement) (stack : List CondFrame) (w : W)
      → cond_active stack ≡ false
      → go (marked if_marker st ∷ sts) stack w ≡ go sts (shut ∷ stack) w
  unfolding run_from apply_control
  go-if_shut st sts stack w a = ground arith

  go-elseif :
      (st : Statement) (sts : List Statement) (f : CondFrame) (stack : List CondFrame) (w : W)
      → is_open f ≡ true
      → go (marked elseif_marker st ∷ sts) (f ∷ stack) w
        ≡ (alone (eval_cond k (marked elseif_marker st) w) >>= λ m. go sts (taken m ∷ stack) w)
  unfolding run_from apply_control next_branch
  go-elseif st sts f stack w o = elim (Result-cases (eval_cond k (marked elseif_marker st) w)) [
    | inl (true, h) ↦ ground arith
    | inl (false, h) ↦ ground arith
    | inr (e, h) ↦ ground arith
  ]

  go-elseif_shut :
      (st : Statement) (sts : List Statement) (f : CondFrame) (stack : List CondFrame) (w : W)
      → is_open f ≡ false
      → go (marked elseif_marker st ∷ sts) (f ∷ stack) w
        ≡ go sts (record f { branch_active = false } ∷ stack) w
  unfolding run_from apply_control
  go-elseif_shut st sts f stack w o = ground arith

  go-else :
      (st : Statement) (sts : List Statement) (f : CondFrame) (stack : List CondFrame) (w : W)
      → is_open f ≡ true
      → go (marked else_marker st ∷ sts) (f ∷ stack) w ≡ go sts (taken true ∷ stack) w
  unfolding run_from apply_control
  go-else st sts f stack w o = ground arith

  go-else_shut :
      (st : Statement) (sts : List Statement) (f : CondFrame) (stack : List CondFrame) (w : W)
      → is_open f ≡ false
      → go (marked else_marker st ∷ sts) (f ∷ stack) w
        ≡ go sts (record f { branch_active = false } ∷ stack) w
  unfolding run_from apply_control
  go-else_shut st sts f stack w o = ground arith

  go-end :
      (sts : List Statement) (f : CondFrame) (stack : List CondFrame) (w : W)
      → go (end_statement ∷ sts) (f ∷ stack) w ≡ go sts stack w
  unfolding run_from apply_control
  go-end sts f stack w = refl

  inactive :
      (f : CondFrame) (stack : List CondFrame)
      → f.branch_active ≡ false
      → cond_active (f ∷ stack) ≡ false
  unfolding cond_active
  inactive f stack h = h

  active_frame :
      (m : Bool) (stack : List CondFrame) → m ≡ true → cond_active (taken m ∷ stack) ≡ true
  unfolding cond_active
  active_frame m stack h = h

  mutual
    unfolding flatten run_block

    skipped :
        (b : Block) (sts : List Statement) (stack : List CondFrame) (w : W)
        → cond_active stack ≡ false
        → go (flatten b sts) stack w ≡ go sts stack w
    skipped nothing sts stack w a = refl
    skipped (plain st b) sts stack w a =
        go-skipped st (flatten b sts) stack w a ∙ skipped b sts stack w a
    skipped (choose st body branches b) sts stack w a =
        go-if_shut st (flatten body (flatten_branches branches (flatten b sts))) stack w a
        ∙ (skipped body (flatten_branches branches (flatten b sts)) (shut ∷ stack) w
              (inactive shut stack refl)
            ∙ (closed branches (flatten b sts) shut stack w refl ∙ skipped b sts stack w a))

    closed :
        (branches : Branches) (sts : List Statement) (f : CondFrame) (stack : List CondFrame)
        (w : W)
        → is_open f ≡ false
        → go (flatten_branches branches sts) (f ∷ stack) w ≡ go sts stack w
    closed no_more sts f stack w o = go-end sts f stack w
    closed (else_if st body branches) sts f stack w o =
        let off : CondFrame = record f { branch_active = false } in
        go-elseif_shut st (flatten body (flatten_branches branches sts)) f stack w o
        ∙ (skipped body (flatten_branches branches sts) (off ∷ stack) w (inactive off stack refl)
            ∙ closed branches sts off stack w o)
    closed (otherwise st body) sts f stack w o =
        let off : CondFrame = record f { branch_active = false } in
        go-else_shut st (flatten body (end_statement ∷ sts)) f stack w o
        ∙ (skipped body (end_statement ∷ sts) (off ∷ stack) w (inactive off stack refl)
            ∙ go-end sts off stack w)

  -- The first branch, or the others, by the condition's value.
  chosen :
      (body : Block) (branches : Branches) (m : Bool) (sts : List Statement)
      (stack : List CondFrame) (w : W)
      → go (flatten body (flatten_branches branches sts)) (taken true ∷ stack) w
        ≡ (run_block k body w >>= λ w'. go (flatten_branches branches sts) (taken true ∷ stack) w')
      → go (flatten_branches branches sts) (taken false ∷ stack) w
        ≡ (run_branches k branches w >>= λ w'. go sts stack w')
      → go (flatten body (flatten_branches branches sts)) (taken m ∷ stack) w
        ≡ ((if m then run_block k body w else run_branches k branches w) >>= λ w'. go sts stack w')
  chosen body branches true sts stack w first others =
      first
      ∙ bind_cong (run_block k body w)
          (λ w'. go (flatten_branches branches sts) (taken true ∷ stack) w') (λ w'. go sts stack w')
          (λ w'. closed branches sts (taken true) stack w' refl)
  chosen body branches false sts stack w first others =
      skipped body (flatten_branches branches sts) (taken false ∷ stack) w
        (inactive (taken false) stack refl)
      ∙ others

  mutual
    unfolding flatten run_block

    active :
        (b : Block) (sts : List Statement) (stack : List CondFrame) (w : W)
        → cond_active stack ≡ true
        → go (flatten b sts) stack w ≡ (run_block k b w >>= λ w'. go sts stack w')
    active nothing sts stack w a = refl
    active (plain st b) sts stack w a =
        go-normal st (flatten b sts) stack w a
        ∙ (bind_cong (alone (perform k (marked normal st) w)) (λ w'. go (flatten b sts) stack w')
              (λ w'. run_block k b w' >>= λ w''. go sts stack w'') (λ w'. active b sts stack w' a)
            ∙ sym (
                bind_assoc (alone (perform k (marked normal st) w)) (λ w'. run_block k b w')
                  (λ w'. go sts stack w')))
    active (choose st body branches b) sts stack w a =
        let cond = alone (eval_cond k (marked if_marker st) w) in
        let branch : Bool → Result (List RunError) W =
          (λ m. if m then run_block k body w else run_branches k branches w) in
        let after : W → Result (List RunError) W = (λ w'. go (flatten b sts) stack w') in
        go-if st (flatten body (flatten_branches branches (flatten b sts))) stack w a
        ∙ (bind_cong cond
              (λ m.
                go (flatten body (flatten_branches branches (flatten b sts))) (taken m ∷ stack) w)
              (λ m. branch m >>= after)
              (λ m.
                chosen body branches m (flatten b sts) stack w
                  (active body (flatten_branches branches (flatten b sts)) (taken true ∷ stack) w
                    (active_frame true stack refl))
                  (opened branches (flatten b sts) (taken false) stack w refl))
            ∙ (sym (bind_assoc cond branch after)
                ∙ (bind_cong (cond >>= branch) after
                      (λ w'. run_block k b w' >>= λ w''. go sts stack w'')
                      (λ w'. active b sts stack w' a)
                    ∙ sym (
                        bind_assoc (cond >>= branch) (λ w'. run_block k b w')
                          (λ w'. go sts stack w')))))

    opened :
        (branches : Branches) (sts : List Statement) (f : CondFrame) (stack : List CondFrame)
        (w : W)
        → is_open f ≡ true
        → go (flatten_branches branches sts) (f ∷ stack) w
          ≡ (run_branches k branches w >>= λ w'. go sts stack w')
    opened no_more sts f stack w o = go-end sts f stack w
    opened (else_if st body branches) sts f stack w o =
        let cond = alone (eval_cond k (marked elseif_marker st) w) in
        let branch : Bool → Result (List RunError) W =
          (λ m. if m then run_block k body w else run_branches k branches w) in
        let after : W → Result (List RunError) W = (λ w'. go sts stack w') in
        go-elseif st (flatten body (flatten_branches branches sts)) f stack w o
        ∙ (bind_cong cond
              (λ m. go (flatten body (flatten_branches branches sts)) (taken m ∷ stack) w)
              (λ m. branch m >>= after)
              (λ m.
                chosen body branches m sts stack w
                  (active body (flatten_branches branches sts) (taken true ∷ stack) w
                    (active_frame true stack refl))
                  (opened branches sts (taken false) stack w refl))
            ∙ sym (bind_assoc cond branch after))
    opened (otherwise st body) sts f stack w o =
        go-else st (flatten body (end_statement ∷ sts)) f stack w o
        ∙ (active body (end_statement ∷ sts) (taken true ∷ stack) w (active_frame true stack refl)
            ∙ bind_cong (run_block k body w)
                (λ w'. go (end_statement ∷ sts) (taken true ∷ stack) w') (λ w'. go sts stack w')
                (λ w'. go-end sts (taken true) stack w'))

  go-nil : (w : W) → go [] [] w ≡ ok w
  unfolding run_from is_empty
  go-nil w = refl

  finish : (r : Result (List RunError) W) → (r >>= λ w. go [] [] w) ≡ r
  finish (ok w) = go-nil w
  finish (err e) = refl

  -- The loop over the statements of nested IF blocks, with its stack, does what the blocks say: of
  -- each IF the first branch whose condition holds is run and no other, in order, and the first
  -- error ends the run, if the run stops at failures.
  pub run_recipe-flatten :
      (b : Block) (w : W) → run_recipe k false (flatten b []) w ≡ run_block k b w
  unfolding run_recipe
  run_recipe-flatten b w = active b [] [] w start ∙ finish (run_block k b w)
    where
      start : cond_active [] ≡ true
      start = unfold cond_active in refl
