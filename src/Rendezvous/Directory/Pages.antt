-- ===== src/Rendezvous/Directory/Pages.antt =====
-- The pages of the list of nodes.
use servers.Base.{
  take-nil, take-drop, take-long, drop-long, length-drop, ℕ, zero, suc, ◌+◌, ◌-◌, ◌*◌, ◌%◌, ◌≤◌,
  ◌<◌, ◌≡◌, ap, sym, ◌∙◌, List, [], ◌++◌, Option, none, some, length, take, drop, leb, add64, two63,
  two64, min, arith, Bool-cases, inl, inr,
}
use servers.Rendezvous.Directory.{clip, slice, slice_page}

clip-min : (total n : ℕ) → total < two63 → n < two63 → clip total n ≡ min total n
unfolding clip
clip-min total n t h = ground arith

module _ {A : Type 0} where
  slice_lem :
      (all : List A) (start end : ℕ)
      → start ≤ end
      → end < two63
      → slice all start end ≡ some (take (end - start) (drop start all))
  unfolding slice
  slice_lem all start end o h = ground arith

  take-min-length : (n : ℕ) (xs : List A) → take (min (length xs) n) xs ≡ take n xs
  take-min-length n xs = elim (Bool-cases (leb (length xs) n)) [
    | inl long ↦
        ap (λ k. take k xs) (ground arith)
        ∙ take-long (length xs) xs (omega arith)
        ∙ sym (take-long n xs (ground arith))
    | inr short ↦ ap (λ k. take k xs) (ground arith)
  ]

  -- What is cut off where the list ends was not there.
  take-min :
      (all : List A) (o limit : ℕ)
      → take
          (min (length all) (min (length all) o + limit) - min (length all) o)
          (drop (min (length all) o) all)
        ≡ take limit (drop o all)
  take-min all o limit = elim (Bool-cases (leb (length all) o)) [
    | inl past ↦
        let at : min (length all) o ≡ length all = ground arith in
        let gone : drop (length all) all ≡ [] = drop-long (length all) all (omega arith) in
        let none_left : drop o all ≡ [] = drop-long o all (ground arith) in
        rw at (rw gone (rw none_left (take-nil _ ∙ sym (take-nil limit))))
    | inr within ↦
        let at : min (length all) o ≡ o = ground arith in
        let size : min (length all) (o + limit) - o ≡ min (length (drop o all)) limit =
          ground (arith, length-drop o all) in
        rw at (rw size (take-min-length limit (drop o all)))
  ]

  -- A page behind the offset `o`, where nothing wraps round.
  slice_page-inside :
      (all : List A) (page limit o : ℕ)
      → (page - 1) * limit ≡ o
      → o + limit < two63
      → length all < two63
      → slice_page all page limit ≡ some (take limit (drop o all))
  slice_page-inside all page limit o e small few =
      let total = length all in
      let offset : ((page - 1) * limit) % two64 ≡ o = rw e (omega arith) in
      let start : clip total (((page - 1) * limit) % two64) ≡ min total o =
        ap (clip total) offset ∙ clip-min total o few (omega arith) in
      let stop : clip total (add64 (min total o) limit) ≡ min total (min total o + limit) =
        ap (clip total) (omega arith) ∙ clip-min total (min total o + limit) few (omega arith) in
      unfold slice_page in
      rw start
        (rw stop (slice_lem all _ _ (omega arith) (omega arith) ∙ ap some (take-min all o limit)))

  -- The pages from the first on, one behind the other.
  abbrev pub first_pages : List A → ℕ → ℕ → Option (List A)
  first_pages all limit zero = some []
  first_pages all limit (suc k) = elim (first_pages all limit k) [
    | none ↦ none
    | some before ↦ elim (slice_page all (suc k) limit) [
      | none ↦ none
      | some page ↦ some (before ++ page)
    ]
  ]

  -- The pages of the list, one behind the other, are the beginning of the list, as long as the pages
  -- are together: no node is missing, none stands twice, and once they are long enough they are the
  -- whole list, as long as the sizes are below 2^63.
  pub first_pages-take :
      (all : List A) (limit k : ℕ)
      → k * limit < two63
      → length all < two63
      → first_pages all limit k ≡ some (take (k * limit) all)
  first_pages-take all limit zero small few =
      let nothing : 0 ≡ 0 * limit = omega arith in ap (λ n. some (take n all)) nothing
  first_pages-take all limit (suc k) small few =
      let sum : k * limit + limit ≡ suc k * limit = omega arith in
      let before : suc k - 1 ≡ k = omega arith in
      let at : (suc k - 1) * limit ≡ k * limit = ap (λ n. n * limit) before in
      let ih = first_pages-take all limit k (omega arith) few in
      rw ih (
        rw (slice_page-inside all (suc k) limit (k * limit) at (omega arith) few)
          (ap some (take-drop (k * limit) limit all ∙ ap (λ n. take n all) sum)))
