-- ===== src/Recipe/Include/Balanced.antt =====
-- A recipe with its includes: the blocks stay balanced, and so the run never misses an IF.
use servers.Base.{
  ℕ, zero, suc, ◌≡◌, ◌≢◌, refl, sym, ap, ◌∙◌, Bool, true, false, List, [], ◌∷◌, ◌++◌, none, some,
  Text, one_of, lookup, ok, err, arith, All, All-append, subst, append-nil, Bool-cases,
  Option-cases, Result-cases, >>=-eq-ok, inl, inr, split_byte, unix_lines, is_some,
}
use servers.Recipe.Flow.{
  Control, normal, if_marker, elseif_marker, else_marker, end_marker, Statement, no_open_if,
  Machine, run_recipe, validate_from, validate_control_flow,
}
use servers.Recipe.Flow.Safe.{run_recipe-validated}
use servers.Recipe.Flow.Marker.{validate_from-normal, validate_from-if}
use servers.Recipe.Tokens.{parse_statements}
use servers.Recipe.Tokens.Sound.{IsStatement, parse_statements_sound}
use servers.Recipe.Header.{Float64, Recipe, parse_pragma, parse_requires, parse_body, parse_file}
use servers.Recipe.Include.{
  FilePaths, Files, out_of_fuel, include_of, Resolver, target_of, load_recipe, without_requires,
  inlined, resolve_with, resolve_includes, parse,
}

-- A statement that passes the check changes the stack in one way, whatever follows it and whatever
-- blocks are open around it.
validate_from-step :
    (vs : List Bool) (st : Statement) (sts : List Statement)
    → validate_from vs (st ∷ sts) ≡ ok tt
    → (vs' : List Bool) × ((stack : List Bool) (zs : List Statement)
        → validate_from (vs ++ stack) (st ∷ zs) ≡ validate_from (vs' ++ stack) zs)
validate_from-step vs st sts h = by_control st.control refl vs h
  where
    by_control :
        (c : Control)
        → st.control ≡ c
        → (vs : List Bool) → validate_from vs (st ∷ sts) ≡ ok tt
        → (vs' : List Bool) × ((stack : List Bool) (zs : List Statement)
            → validate_from (vs ++ stack) (st ∷ zs) ≡ validate_from (vs' ++ stack) zs)
    by_control normal c vs h = (vs, λ stack zs. validate_from-normal st zs (vs ++ stack) c)
    by_control if_marker c vs h = (false ∷ vs, λ stack zs. validate_from-if st zs (vs ++ stack) c)
    by_control elseif_marker c [] h = absurd (unfold validate_from in ground arith)
    by_control elseif_marker c (true ∷ vs) h = absurd (unfold validate_from in ground arith)
    by_control elseif_marker c (false ∷ vs) h =
        (false ∷ vs, λ stack zs. unfold validate_from in ground arith)
    by_control else_marker c [] h = absurd (unfold validate_from in ground arith)
    by_control else_marker c (true ∷ vs) h = absurd (unfold validate_from in ground arith)
    by_control else_marker c (false ∷ vs) h =
        (true ∷ vs, λ stack zs. unfold validate_from in ground arith)
    by_control end_marker c [] h = absurd (unfold validate_from in ground arith)
    by_control end_marker c (v ∷ vs) h = (vs, λ stack zs. unfold validate_from in ground arith)

validate_from-rest :
    (vs vs' : List Bool) (st : Statement) (zs : List Statement)
    → ((stack : List Bool) (ys : List Statement)
        → validate_from (vs ++ stack) (st ∷ ys) ≡ validate_from (vs' ++ stack) ys)
    → validate_from vs (st ∷ zs) ≡ validate_from vs' zs
validate_from-rest vs vs' st zs h =
    subst (λ l. validate_from l (st ∷ zs) ≡ validate_from vs' zs) (append-nil vs)
      (subst (λ l. validate_from (vs ++ []) (st ∷ zs) ≡ validate_from l zs) (append-nil vs')
        (h [] zs))

-- Balanced statements leave the stack as it was.
validate_from-append :
    (vs stack : List Bool) (xs ys : List Statement)
    → validate_from vs xs ≡ ok tt
    → validate_from (vs ++ stack) (xs ++ ys) ≡ validate_from stack ys
validate_from-append [] stack [] ys h = refl
validate_from-append (v ∷ vs) stack [] ys h = absurd (unfold validate_from in ground arith)
validate_from-append vs stack (st ∷ xs) ys h =
    let (vs', e) = validate_from-step vs st xs h in
    e stack (xs ++ ys)
    ∙ validate_from-append vs' stack xs ys (sym (validate_from-rest vs vs' st xs e) ∙ h)

-- A file that parses has well-formed statements and balanced blocks.
parse_file_sound :
    (fl : Float64) (path src : Text) (rc : Recipe fl)
    → parse_file fl path src ≡ ok rc
    → All (IsStatement path) rc.statements × (validate_control_flow rc.statements ≡ ok tt)
unfolding parse_file parse_body
parse_file_sound fl path src rc h =
    let lines = split_byte b'\n' (unix_lines src) in
    let (version, p, h1) = >>=-eq-ok (parse_pragma lines) _ h in
    let ((start, req), q, h2) = >>=-eq-ok (parse_requires fl lines) _ h1 in
    elim (Result-cases (parse_statements path lines start)) [
      | inr (e, s) ↦ absurd (ground arith)
      | inl (sts, s) ↦
          let same : sts ≡ rc.statements = ground arith in
          subst (λ out. All (IsStatement path) out × (validate_control_flow out ≡ ok tt)) same
            (parse_statements_sound path lines start sts s)
    ]

abbrev pub NoInclude : Statement → Type 0
NoInclude st = include_of st ≡ none

-- An include is a command.
include_of-normal :
    (path : Text) (st : Statement) {words : List Text}
    → IsStatement path st
    → include_of st ≡ some words
    → st.control ≡ normal
include_of-normal path st {words} s i = by_control st.control refl
  where
    by_control : (c : Control) → st.control ≡ c → st.control ≡ normal
    by_control normal c = c
    by_control if_marker c = absurd (unfold include_of in ground (arith, s.carries))
    by_control elseif_marker c = absurd (unfold include_of in ground (arith, s.carries))
    by_control else_marker c = absurd (unfold include_of in ground (arith, s.carries))
    by_control end_marker c = absurd (unfold include_of in ground (arith, s.carries))

module _ (fl : Float64) (paths : FilePaths) (files : Files) where
  -- What the resolution of the statements of an included file gives.
  abbrev Resolves : Resolver fl paths files → Type 0
  Resolves nested =
      (path : Text) (sts : List Statement) (base : Text) (chain : List Text) (out : List Statement)
      → All (IsStatement path) sts
      → validate_control_flow sts ≡ ok tt
      → nested sts base chain ≡ ok out
      → (validate_control_flow out ≡ ok tt) × All NoInclude out

  load_recipe_sound :
      (path src : Text) (rc : Recipe fl)
      → load_recipe fl paths files path src ≡ ok rc
      → All (IsStatement path) rc.statements × (validate_control_flow rc.statements ≡ ok tt)
  unfolding load_recipe
  load_recipe_sound path src rc h = elim (Result-cases (parse_file fl path src)) [
    | inr (e, p) ↦ absurd (ground arith)
    | inl (rc', p) ↦
        let same : rc' ≡ rc = ground arith in parse_file_sound fl path src rc (p ∙ ap ok same)
  ]

  inlined_sound :
      (nested : Resolver fl paths files) (line : ℕ) (words : List Text) (base : Text)
      (chain : List Text) (out : List Statement)
      → Resolves nested
      → inlined fl paths files nested line words base chain ≡ ok out
      → (validate_control_flow out ≡ ok tt) × All NoInclude out
  unfolding inlined without_requires
  inlined_sound nested line [] base chain out r h = absurd (ground arith)
  inlined_sound nested line (a ∷ b ∷ words) base chain out r h = absurd (ground arith)
  inlined_sound nested line (path ∷ []) base chain out r h =
      let abs = target_of fl paths files base path in
      elim (Bool-cases (one_of abs chain)) [
        | inl o ↦ absurd (ground arith)
        | inr o ↦ elim (Option-cases (lookup abs files)) [
          | inl l ↦ absurd (ground arith)
          | inr (src, l) ↦ elim (Result-cases (load_recipe fl paths files abs src)) [
            | inr (e, q) ↦ absurd (ground arith)
            | inl (rc, q) ↦ elim (Bool-cases (is_some rc.requires)) [
              | inl own ↦ absurd (ground arith)
              | inr own ↦
                  let (shaped, valid) = load_recipe_sound abs src rc q in
                  r abs rc.statements (paths.dir abs) (abs ∷ chain) out shaped valid (ground arith)
            ]
          ]
        ]
      ]

  resolve_with_sound :
      (nested : Resolver fl paths files) (path : Text) (sts : List Statement) (base : Text)
      (chain : List Text) (vs : List Bool) (out : List Statement)
      → Resolves nested
      → All (IsStatement path) sts
      → validate_from vs sts ≡ ok tt
      → resolve_with fl paths files nested sts base chain ≡ ok out
      → (validate_from vs out ≡ ok tt) × All NoInclude out
  unfolding resolve_with
  resolve_with_sound nested path [] base chain vs out r a v h =
      let same : [] ≡ out = ground arith in
      subst (λ o. (validate_from vs o ≡ ok tt) × All NoInclude o) same (v, tt)
  resolve_with_sound nested path (st ∷ sts) base chain vs out r a v h =
      elim (Option-cases (include_of st)) [
        | inl i ↦
            let (vs', e) = validate_from-step vs st sts v in
            let step = λ (zs : List Statement). validate_from-rest vs vs' st zs e in
            elim (Result-cases (resolve_with fl paths files nested sts base chain)) [
              | inr (x, q) ↦ absurd (ground arith)
              | inl (rest, q) ↦
                  let (valid, free) =
                    resolve_with_sound nested path sts base chain vs' rest r a.1
                      (sym (step sts) ∙ v) q in
                  let same : st ∷ rest ≡ out = ground arith in
                  subst (λ o. (validate_from vs o ≡ ok tt) × All NoInclude o) same
                    (step rest ∙ valid, (i, free))
            ]
        | inr (words, i) ↦
            let c = include_of-normal path st a.0 i in
            let left = sym (validate_from-normal st sts vs c) ∙ v in
            elim (Result-cases (inlined fl paths files nested st.line words base chain)) [
              | inr (x, j) ↦ absurd (ground arith)
              | inl (here, j) ↦
                  let (balanced, free_here) =
                    inlined_sound nested st.line words base chain here r j in
                  elim (Result-cases (resolve_with fl paths files nested sts base chain)) [
                    | inr (x, q) ↦ absurd (ground arith)
                    | inl (rest, q) ↦
                        let (valid, free) =
                          resolve_with_sound nested path sts base chain vs rest r a.1 left q in
                        let same : here ++ rest ≡ out = ground arith in
                        subst (λ o. (validate_from vs o ≡ ok tt) × All NoInclude o) same
                          (
                            validate_from-append [] vs here rest
                                  (unfold validate_control_flow in balanced)
                                ∙ valid,
                            All-append NoInclude here rest free_here free,
                          )
                  ]
            ]
      ]

  resolve_includes_sound : (fuel : ℕ) → Resolves (resolve_includes fl paths files fuel)
  unfolding resolve_includes validate_control_flow
  resolve_includes_sound zero path sts base chain out a v h =
      resolve_with_sound (λ _ _ _. err out_of_fuel) path sts base chain [] out
        (λ _ _ _ _ _ _ _ bad. absurd (ground (arith, bad))) a v h
  resolve_includes_sound (suc fuel) path sts base chain out a v h =
      resolve_with_sound (resolve_includes fl paths files fuel) path sts base chain [] out
        (resolve_includes_sound fuel) a v h

-- A recipe that loads, with whatever it includes, has no include left; its blocks are balanced over
-- the borders of the files, so that a run that stops at the first failure is never refused for an
-- ELSE or END without an IF, whatever the commands do.
pub parse_sound {ℓ} :
    {W : Type ℓ} (k : Machine W) (w : W) (fl : Float64) (paths : FilePaths) (files : Files)
    (fuel : ℕ) (path src : Text) (rc : Recipe fl)
    → parse fl paths files fuel path src ≡ ok rc
    → All NoInclude rc.statements
      × (validate_control_flow rc.statements ≡ ok tt)
      × (run_recipe k false rc.statements w ≢ err (no_open_if ∷ []))
unfolding parse
parse_sound k w fl paths files fuel path src rc h =
    elim (Result-cases (load_recipe fl paths files path src)) [
      | inr (e, l) ↦ absurd (ground arith)
      | inl (rc', l) ↦
          let (shaped, valid) = load_recipe_sound fl paths files path src rc' l in
          let base = paths.dir (paths.abs path) in
          let chain : List Text = paths.abs path ∷ [] in
          elim (Result-cases (resolve_includes fl paths files fuel rc'.statements base chain)) [
            | inr (e, r) ↦ absurd (ground arith)
            | inl (sts, r) ↦
                let (balanced, free) =
                  resolve_includes_sound fl paths files fuel path rc'.statements base chain sts
                    shaped valid r in
                let same : sts ≡ rc.statements = ground arith in
                let balanced' = subst (λ o. validate_control_flow o ≡ ok tt) same balanced in
                (
                  subst (All NoInclude) same free,
                  balanced',
                  run_recipe-validated k rc.statements w balanced',
                )
          ]
    ]
