-- ===== src/Market/Versions.antt =====
-- pkg/market/sqlstore.go: the order on versions, and the latest one.
use servers.Base.{
  Bool, true, false, not, ◌&&◌, ◌||◌, List, [], ◌∷◌, Option, none, some, Text, eqt, eqt_refl,
  eqt_iff, is_empty, split_byte, parse_int, parse_int_bound, slt64, ltb, if◌then◌else◌, ◌==◌, ◌≡◌,
  refl, sym, ap, ◌∙◌, arith, Bool-cases, Option-cases, inl, inr,
}

-- Go's order on strings, by bytes.
unfoldable pub text_less : Text → Text → Bool
text_less _ [] = false
text_less [] (y ∷ ys) = true
text_less (x ∷ xs) (y ∷ ys) = if ltb x y then true else x == y && text_less xs ys

-- How one component of a version settles the order: `none` leaves it to the next one.
unfoldable pub component_less : Text → Text → Option Bool
unfolding text_less
component_less x y = elim (parse_int x) [
  | none ↦ if eqt x y then none else some (text_less x y)
  | some nx ↦ elim (parse_int y) [
    | none ↦ if eqt x y then none else some (text_less x y)
    | some ny ↦ if nx == ny then none else some (slt64 nx ny)
  ]
]

-- The loop over the components; a missing one reads as empty.
unfoldable pub components_less : List Text → List Text → Bool
unfolding component_less
components_less [] [] = false
components_less [] (y ∷ ys) =
    let rest = components_less [] ys in elim (component_less [] y) [ some b ↦ b | none ↦ rest ]
components_less (x ∷ xs) [] =
    let rest = components_less xs [] in elim (component_less x []) [ some b ↦ b | none ↦ rest ]
components_less (x ∷ xs) (y ∷ ys) =
    let rest = components_less xs ys in elim (component_less x y) [ some b ↦ b | none ↦ rest ]

unfoldable pub semver_less : Text → Text → Bool
unfolding components_less
semver_less a b = components_less (split_byte b'.' a) (split_byte b'.' b)

unfoldable pub latest_from : Text → List Text → Text
unfolding semver_less
latest_from latest [] = latest
latest_from latest (v ∷ vs) =
    latest_from (if is_empty latest || semver_less latest v then v else latest) vs

-- The scan of `refreshLatest`.
unfoldable pub latest_of : List Text → Text
unfolding latest_from
latest_of = latest_from []

-- The opposite verdict.
abbrev flip : Option Bool → Option Bool
flip none = none
flip (some b) = some (not b)

text_less-flip : (x y : Text) → eqt x y ≡ false → text_less y x ≡ not (text_less x y)
unfolding text_less eqt
text_less-flip [] [] h = absurd (ground arith)
text_less-flip [] (y ∷ ys) h = refl
text_less-flip (x ∷ xs) [] h = refl
text_less-flip (x ∷ xs) (y ∷ ys) h = ground (arith, text_less-flip xs ys)

same_component : (x y : Text) → x ≡ y → component_less y x ≡ flip (component_less x y)
same_component x y e =
    ap (λ z. component_less z x) (sym e) ∙ (self ∙ ap (λ z. flip (component_less x z)) e)
  where
    self : component_less x x ≡ flip (component_less x x)
    self = unfold component_less in ground (arith, eqt_refl x)

component_less-flip : (x y : Text) → component_less y x ≡ flip (component_less x y)
unfolding component_less
component_less-flip x y = elim (Bool-cases (eqt x y)) [
  | inl same ↦ same_component x y ((eqt_iff x y).0 same)
  | inr differ ↦ elim (Option-cases (parse_int x)) [
    | inl e ↦ elim (Option-cases (parse_int y)) [
      | inl f ↦ ground (arith, text_less-flip x y differ, eqt_iff x y, eqt_iff y x)
      | inr (ny, f) ↦ ground (arith, text_less-flip x y differ, eqt_iff x y, eqt_iff y x)
    ]
    | inr (nx, e) ↦ elim (Option-cases (parse_int y)) [
      | inl f ↦ ground (arith, text_less-flip x y differ, eqt_iff x y, eqt_iff y x)
      | inr (ny, f) ↦ ground (arith, parse_int_bound x nx e, parse_int_bound y ny f)
    ]
  ]
]

components_less_asym :
    (xs ys : List Text) → components_less xs ys ≡ true → components_less ys xs ≡ false
unfolding components_less
components_less_asym [] [] h = refl
components_less_asym [] (y ∷ ys) h = elim (Option-cases (component_less [] y)) [
  | inl e ↦ ground (arith, component_less-flip [] y, components_less_asym [] ys)
  | inr (b, e) ↦ ground (arith, component_less-flip [] y)
]
components_less_asym (x ∷ xs) [] h = elim (Option-cases (component_less x [])) [
  | inl e ↦ ground (arith, component_less-flip x [], components_less_asym xs [])
  | inr (b, e) ↦ ground (arith, component_less-flip x [])
]
components_less_asym (x ∷ xs) (y ∷ ys) h = elim (Option-cases (component_less x y)) [
  | inl e ↦ ground (arith, component_less-flip x y, components_less_asym xs ys)
  | inr (b, e) ↦ ground (arith, component_less-flip x y)
]

-- No two versions are each less than the other, and so none is less than itself.
semver_less_asym : (a b : Text) → semver_less a b ≡ true → semver_less b a ≡ false
unfolding semver_less
semver_less_asym a b = components_less_asym (split_byte b'.' a) (split_byte b'.' b)
