-- ===== src/Recipe/Include/Ends.antt =====
-- Includes come to an end.
use servers.Base.{
  ℕ, zero, suc, ◌+◌, ◌≤◌, ◌<◌, ◌≡◌, ◌≢◌, false, List, [], ◌∷◌, some, Text, eqt, eqt_iff, one_of,
  lookup, if◌then◌else◌, err, arith, length, Bool-cases, Option-cases, Result-cases, inl, inr,
}
use servers.Recipe.Flow.{Statement}
use servers.Recipe.Header.{Float64, Recipe}
use servers.Recipe.Include.{
  FilePaths, Files, out_of_fuel, include_of, Resolver, target_of, load_recipe, without_requires,
  inlined, resolve_with, resolve_includes, parse,
}

-- The files that are not open.
abbrev pub unopened : List Text → Files → ℕ
unopened chain [] = 0
unopened chain ((k, v) ∷ m) = (if one_of k chain then 0 else 1) + unopened chain m

unopened-le : (k : Text) (chain : List Text) (m : Files) → unopened (k ∷ chain) m ≤ unopened chain m
unfolding one_of
unopened-le k chain [] = omega arith
unopened-le k chain ((j, v) ∷ m) = ground (arith, unopened-le k chain m)

-- Opening a file that is there, and is not open, leaves fewer.
unopened-lt :
    (k : Text) (chain : List Text) (m : Files) {src : Text}
    → one_of k chain ≡ false
    → lookup k m ≡ some src
    → unopened (k ∷ chain) m < unopened chain m
unfolding one_of lookup
unopened-lt k chain [] {src} o h = absurd (ground arith)
unopened-lt k chain ((j, v) ∷ m) {src} o h = elim (Bool-cases (eqt j k)) [
  | inl e ↦ ground (arith, eqt_iff j k, unopened-le k chain m)
  | inr e ↦ ground (arith, unopened-lt k chain m {src = src} o (ground arith))
]

unopened-le-length : (chain : List Text) (m : Files) → unopened chain m ≤ length m
unopened-le-length chain [] = omega arith
unopened-le-length chain ((j, v) ∷ m) = ground (arith, unopened-le-length chain m)

module _ (fl : Float64) (paths : FilePaths) (files : Files) where
  -- A resolver that does not run out where fewer files are unopened.
  abbrev Suffices : ℕ → Resolver fl paths files → Type 0
  Suffices n nested =
      (sts : List Statement) (base : Text) (chain : List Text)
      → unopened chain files < n
      → nested sts base chain ≢ err out_of_fuel

  without_requires-fuel :
      (line : ℕ) (rc : Recipe fl) → without_requires fl paths files line rc ≢ err out_of_fuel
  unfolding without_requires
  without_requires-fuel line rc h = absurd (ground arith)

  load_recipe-fuel : (path src : Text) → load_recipe fl paths files path src ≢ err out_of_fuel
  unfolding load_recipe
  load_recipe-fuel path src h = absurd (ground arith)

  inlined-fuel :
      (n : ℕ) (nested : Resolver fl paths files) (line : ℕ) (words : List Text) (base : Text)
      (chain : List Text)
      → Suffices n nested
      → unopened chain files ≤ n
      → inlined fl paths files nested line words base chain ≢ err out_of_fuel
  unfolding inlined
  inlined-fuel n nested line [] base chain s u h = absurd (ground arith)
  inlined-fuel n nested line (a ∷ b ∷ words) base chain s u h = absurd (ground arith)
  inlined-fuel n nested line (path ∷ []) base chain s u h =
      let abs = target_of fl paths files base path in
      elim (Bool-cases (one_of abs chain)) [
        | inl o ↦ absurd (ground arith)
        | inr o ↦ elim (Option-cases (lookup abs files)) [
          | inl l ↦ absurd (ground arith)
          | inr (src, l) ↦ elim (Result-cases (load_recipe fl paths files abs src)) [
            | inr (e, r) ↦ absurd (ground (arith, load_recipe-fuel abs src))
            | inl (rc, r) ↦ elim (Result-cases (without_requires fl paths files line rc)) [
              | inr (e, w) ↦ absurd (ground (arith, without_requires-fuel line rc))
              | inl (sts, w) ↦
                  let fewer = unopened-lt abs chain files o l in
                  s sts (paths.dir abs) (abs ∷ chain) (omega arith) (ground arith)
            ]
          ]
        ]
      ]

  resolve_with-fuel :
      (n : ℕ) (nested : Resolver fl paths files) (sts : List Statement) (base : Text)
      (chain : List Text)
      → Suffices n nested
      → unopened chain files ≤ n
      → resolve_with fl paths files nested sts base chain ≢ err out_of_fuel
  unfolding resolve_with
  resolve_with-fuel n nested [] base chain s u h = absurd (ground arith)
  resolve_with-fuel n nested (st ∷ sts) base chain s u h = elim (Option-cases (include_of st)) [
    | inl i ↦ elim (Result-cases (resolve_with fl paths files nested sts base chain)) [
      | inl (rest, r) ↦ absurd (ground arith)
      | inr (e, r) ↦ resolve_with-fuel n nested sts base chain s u (ground arith)
    ]
    | inr (words, i) ↦
        elim (Result-cases (inlined fl paths files nested st.line words base chain)) [
          | inr (e, j) ↦ inlined-fuel n nested st.line words base chain s u (ground arith)
          | inl (here, j) ↦
              elim (Result-cases (resolve_with fl paths files nested sts base chain)) [
                | inl (rest, r) ↦ absurd (ground arith)
                | inr (e, r) ↦ resolve_with-fuel n nested sts base chain s u (ground arith)
              ]
        ]
  ]

  resolve_includes-fuel : (fuel : ℕ) → Suffices (suc fuel) (resolve_includes fl paths files fuel)
  unfolding resolve_includes
  resolve_includes-fuel zero sts base chain u =
      resolve_with-fuel 0 (λ _ _ _. err out_of_fuel) sts base chain
        (λ sts' base' chain' v. absurd (omega arith)) (omega arith)
  resolve_includes-fuel (suc fuel) sts base chain u =
      resolve_with-fuel (suc fuel) (resolve_includes fl paths files fuel) sts base chain
        (resolve_includes-fuel fuel) (omega arith)

-- The loading of a recipe with its includes ends in a recipe or in an error of the source's own,
-- whatever the files hold and however they include one another: calls nested as deep as there are
-- files are enough.
pub parse_ends :
    (fl : Float64) (paths : FilePaths) (files : Files) (fuel : ℕ) (path src : Text)
    → length files ≤ fuel
    → parse fl paths files fuel path src ≢ err out_of_fuel
unfolding parse
parse_ends fl paths files fuel path src enough h =
    elim (Result-cases (load_recipe fl paths files path src)) [
      | inr (e, r) ↦ absurd (ground (arith, load_recipe-fuel fl paths files path src))
      | inl (rc, r) ↦
          let few = unopened-le-length (paths.abs path ∷ []) files in
          let base = paths.dir (paths.abs path) in
          let chain : List Text = paths.abs path ∷ [] in
          elim (Result-cases (resolve_includes fl paths files fuel rc.statements base chain)) [
            | inl (sts, i) ↦ absurd (ground arith)
            | inr (e, i) ↦
                resolve_includes-fuel fl paths files fuel rc.statements base chain (omega arith)
                  (ground arith)
          ]
    ]
