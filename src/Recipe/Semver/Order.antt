-- ===== src/Recipe/Semver/Order.antt =====
-- The comparison of versions is an order.
use servers.Base.{ℕ, ◌≡◌, ◌≢◌, refl, ap, ◌∙◌, List, [], ◌∷◌, Text, arith}
use servers.Recipe.Semver.{
  Verdict, less, same, greater, compare_nums, compare_semver, split_ver_nums,
}

abbrev pub flip : Verdict → Verdict
flip less = greater
flip same = same
flip greater = less

compare_nums-flip : (xs ys : List ℕ) → compare_nums ys xs ≡ flip (compare_nums xs ys)
unfolding compare_nums
compare_nums-flip [] [] = refl
compare_nums-flip (x ∷ xs) [] = ground (arith, compare_nums-flip xs [])
compare_nums-flip [] (y ∷ ys) = ground (arith, compare_nums-flip [] ys)
compare_nums-flip (x ∷ xs) (y ∷ ys) = ground (arith, compare_nums-flip xs ys)

-- 1 for `greater`.
abbrev pub is_greater : Verdict → ℕ
is_greater less = 0
is_greater same = 0
is_greater greater = 1

-- The first of two comparisons that is not the same.
abbrev pub settle : Verdict → Verdict → Verdict
settle less v = less
settle same v = v
settle greater v = greater

compare_nums_trans :
    (xs ys zs : List ℕ)
    → is_greater (compare_nums xs ys) ≡ 0
    → is_greater (compare_nums ys zs) ≡ 0
    → compare_nums xs zs ≡ settle (compare_nums xs ys) (compare_nums ys zs)
unfolding compare_nums
compare_nums_trans [] [] [] h k = refl
compare_nums_trans [] [] (z ∷ zs) h k = ground (arith, compare_nums_trans [] [] zs)
compare_nums_trans [] (y ∷ ys) [] h k = ground (arith, compare_nums_trans [] ys [])
compare_nums_trans [] (y ∷ ys) (z ∷ zs) h k = ground (arith, compare_nums_trans [] ys zs)
compare_nums_trans (x ∷ xs) [] [] h k = ground (arith, compare_nums_trans xs [] [])
compare_nums_trans (x ∷ xs) [] (z ∷ zs) h k = ground (arith, compare_nums_trans xs [] zs)
compare_nums_trans (x ∷ xs) (y ∷ ys) [] h k = ground (arith, compare_nums_trans xs ys [])
compare_nums_trans (x ∷ xs) (y ∷ ys) (z ∷ zs) h k = ground (arith, compare_nums_trans xs ys zs)

not_greater : (v : Verdict) → v ≢ greater → is_greater v ≡ 0
not_greater less h = refl
not_greater same h = refl
not_greater greater h = absurd (h refl)

-- The comparison of versions is an order, whatever the texts: if the first is not greater than the
-- second, nor the second than the third, then the first is the same as the third if both pairs are
-- the same, and less otherwise; and the comparison the other way round says the opposite.
compare_semver_trans :
    (a b c : Text)
    → compare_semver a b ≢ greater
    → compare_semver b c ≢ greater
    → (compare_semver a c ≡ settle (compare_semver a b) (compare_semver b c))
      × (compare_semver c a ≡ flip (settle (compare_semver a b) (compare_semver b c)))
unfolding compare_semver
compare_semver_trans a b c h k =
    let x = split_ver_nums a in
    let y = split_ver_nums b in
    let z = split_ver_nums c in
    let e =
      compare_nums_trans x y z (not_greater (compare_nums x y) h)
        (not_greater (compare_nums y z) k) in
    (e, compare_nums-flip x z ∙ ap flip e)
