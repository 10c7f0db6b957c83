-- ===== src/Market/AppRecipe/Platforms.antt =====
-- What a list of platforms that passes the check looks like.
use servers.Base.{
  ◌≡◌, ◌↔◌, refl, true, false, List, [], ◌∷◌, Text, is_empty, one_of, trim_space, split_byte,
  if◌then◌else◌, ok, arith, All, Bool-cases, inl, inr,
}
use servers.Market.AppRecipe.{is_os_arch, platforms_from, validate_platform_list}

-- The items of the list, trimmed, without the empty ones.
abbrev pub items_of : List Text → List Text
items_of [] = []
items_of (raw ∷ items) =
    if is_empty (trim_space raw) then items_of items else trim_space raw ∷ items_of items

-- None stands among those before it.
abbrev pub AllFresh : List Text → List Text → Type 0
AllFresh seen [] = Unit
AllFresh seen (x ∷ xs) = (one_of x seen ≡ false) × AllFresh (x ∷ seen) xs

platforms_from_sound :
    (seen items : List Text)
    → platforms_from seen items ≡ ok tt
    → All (λ x. is_os_arch x ≡ true) (items_of items) × AllFresh seen (items_of items)
unfolding platforms_from
platforms_from_sound seen [] h = (tt, tt)
platforms_from_sound seen (raw ∷ items) h =
    let item = trim_space raw in
    elim (Bool-cases (is_empty item)) [
      | inl e ↦ rw e (platforms_from_sound seen items (ground arith))
      | inr e ↦ elim (Bool-cases (is_os_arch item)) [
        | inr o ↦ absurd (ground arith)
        | inl o ↦ elim (Bool-cases (one_of item seen)) [
          | inl s ↦ absurd (ground arith)
          | inr s ↦
              let (shaped, fresh) = platforms_from_sound (item ∷ seen) items (ground arith) in
              rw e ((o, shaped), (s, fresh))
        ]
      ]
    ]

platforms_from_complete :
    (seen items : List Text)
    → All (λ x. is_os_arch x ≡ true) (items_of items)
    → AllFresh seen (items_of items)
    → platforms_from seen items ≡ ok tt
unfolding platforms_from
platforms_from_complete seen [] a f = refl
platforms_from_complete seen (raw ∷ items) a f =
    let item = trim_space raw in
    elim (Bool-cases (is_empty item)) [
      | inl e ↦ rw e (platforms_from_complete seen items (rw e at a) (rw e at f))
      | inr e ↦
          let a' : (is_os_arch item ≡ true) × All (λ x. is_os_arch x ≡ true) (items_of items) =
            rw e at a in
          let f' : (one_of item seen ≡ false) × AllFresh (item ∷ seen) (items_of items) =
            rw e at f in
          rw e (rw a'.0 (rw f'.0 (platforms_from_complete (item ∷ seen) items a'.1 f'.1)))
    ]

-- The check of the platforms passes exactly the lists whose items, trimmed and without the empty ones,
-- are each `os/arch` with both halves, and of which none stands there twice.
validate_platform_list_iff :
    (list : Text)
    → (validate_platform_list list ≡ ok tt) ↔ (
        All (λ x. is_os_arch x ≡ true) (items_of (split_byte b',' list))
        × AllFresh [] (items_of (split_byte b',' list)))
unfolding validate_platform_list
validate_platform_list_iff list = (
  platforms_from_sound [] (split_byte b',' list),
  λ h. platforms_from_complete [] (split_byte b',' list) h.0 h.1,
)
