-- ===== src/Pagination/Cursors.antt =====
-- Finding the cursor, and one page at a position.
use native.Mathlib.Decide.{dec_lt}
use text.Mathlib.TextPositions.{eq_refl}
use domainry_foundation.Prelude.{
  ℕ, suc, ◌+◌, ◌-◌, ◌<◌, ◌≤◌, pos, ◌≡◌, refl, sym, ap, ◌∙◌, true, false, String, str_eq, eq_iff,
  trim_space, trim_space_idem, none, some, List, [], ◌∷◌, ◌++◌, length, take, length-append,
  length-take, drop-append, take_all, take-take, leb, arith, Bool-cases, inl, inr, if◌then◌else◌,
  ltb_ℤ, pos-add, wrap-pos, int64_bound, leb-eq-true, leb-eq-false, ltb-eq-true, ltb-eq-false,
}
use domainry_foundation.Pagination.Model.{
  Cursor, fetch_limit, page, Page, find_start, last_id, boundary, slice_from, slice_items,
}

module _ {ℓ} {T : Type ℓ} (item_id : T → String) where
  -- Ids are not empty and no two items share one, spaces at the ends not counted.
  abbrev pub IsKeyed : List T → Type 0
  IsKeyed [] = Unit {0}
  IsKeyed (x ∷ xs) =
      (str_eq (trim_space (item_id x)) "" ≡ false)
      × (find_start item_id (trim_space (item_id x)) xs ≡ none)
      × IsKeyed xs

  pub find_start-last_id :
      (x : T) (xs zs : List T)
      → IsKeyed (x ∷ xs ++ zs)
      → find_start item_id (last_id item_id (x ∷ xs)) (x ∷ xs ++ zs) ≡ some (suc (length xs))
  unfolding find_start last_id
  find_start-last_id x [] zs k = rw (eq_refl (trim_space (item_id x))) refl
  find_start-last_id x (y ∷ xs) zs k =
      let later = find_start-last_id y xs zs k.2 in
      let id = trim_space (item_id x) in
      elim (Bool-cases (str_eq id (last_id item_id (y ∷ xs)))) [
        | inl same ↦ cc ((eq_iff id (last_id item_id (y ∷ xs))).0 same, later, k.1)
        | inr other ↦ rw (other, later) refl
      ]

  pub last_id-nonempty :
      (x : T) (xs zs : List T)
      → IsKeyed (x ∷ xs ++ zs)
      → str_eq (last_id item_id (x ∷ xs)) "" ≡ false
  unfolding last_id
  last_id-nonempty x [] zs k = k.0
  last_id-nonempty x (y ∷ xs) zs k = last_id-nonempty y xs zs k.2

  pub last_id-append :
      (xs : List T) (y : T) (ys : List T)
      → last_id item_id (xs ++ y ∷ ys) ≡ last_id item_id (y ∷ ys)
  unfolding last_id
  last_id-append [] y ys = refl
  last_id-append (x ∷ []) y ys = refl
  last_id-append (x ∷ x' ∷ xs) y ys = last_id-append (x' ∷ xs) y ys

  pub trim_space-last_id : (xs : List T) → trim_space (last_id item_id xs) ≡ last_id item_id xs
  unfolding last_id
  trim_space-last_id [] = unfold trim_space in refl
  trim_space-last_id (x ∷ []) = trim_space_idem (item_id x)
  trim_space-last_id (x ∷ y ∷ xs) = trim_space-last_id (y ∷ xs)

  -- The page that starts behind `pre`.
  abbrev pub page_at : ℕ → List T → Page T
  page_at n rest =
      if leb (length rest) n
      then record { items = rest; has_next = false; next_id = "" }
      else record { items = take n rest; has_next = true; next_id = last_id item_id (take n rest) }

module _ {ℓ} {T : Type ℓ} (item_id : T → String) where
  slice_items-at :
      (e : ℕ) (pre rest : List T)
      → length pre ≤ e
      → e ≤ length (pre ++ rest)
      → slice_items (pos (length pre)) (pos e) (pre ++ rest) ≡ some (take (e - length pre) rest)
  unfolding slice_items
  slice_items-at e pre rest h k =
      rw (drop-append pre rest, leb-eq-true (length pre) e h, leb-eq-true e _ k) refl

  -- The rows that `Slice` hands to `Boundary`: one more than the page, if there are so many.
  fetched_rows :
      (n : ℕ) (pre rest : List T)
      → let total = length (pre ++ rest) in
        let e = length pre + n in
        slice_items
          (pos (length pre))
          (if ltb_ℤ (pos total) (pos e) then pos total else pos e)
          (pre ++ rest)
        ≡ some (take n rest)
  fetched_rows n pre rest = elim (dec_lt (length rest) n) [
    | yes short ↦
        rw
          (ltb-eq-true (length (pre ++ rest) + 0) (length pre + n + 0)
            (omega (arith, length-append pre rest)))
          (slice_items-at (length (pre ++ rest)) pre rest (omega (arith, length-append pre rest))
              (omega arith)
            ∙ ap some (
                ap (λ (k : ℕ). take k rest) (omega (arith, length-append pre rest))
                ∙ take_all (length rest) rest (omega arith)
                ∙ sym (take_all n rest (omega arith))))
    | no long ↦
        rw
          (ltb-eq-false (length (pre ++ rest) + 0) (length pre + n + 0)
            (omega (arith, length-append pre rest)))
          (slice_items-at (length pre + n) pre rest (omega arith)
              (omega (arith, length-append pre rest))
            ∙ ap (λ (k : ℕ). some (take k rest)) (omega arith))
  ]

  slice_items-prefix :
      (n : ℕ) (xs : List T) → n ≤ length xs → slice_items (pos 0) (pos n) xs ≡ some (take n xs)
  slice_items-prefix n xs h =
      slice_items-at n [] xs (omega arith) h ∙ ap (λ (k : ℕ). some (take k xs)) (omega arith)

  boundary-page_at :
      (n : ℕ) (c : Cursor) (rest : List T)
      → c.page_size ≡ pos n
      → boundary item_id c (take (n + 1) rest) ≡ page (page_at item_id n rest)
  unfolding boundary
  boundary-page_at n c rest e = elim (dec_lt n (length rest)) [
    | yes more ↦
        rw
          (
            e,
            leb-eq-false (length (take (n + 1) rest) + 0) (n + 0)
                (omega (arith, length-take (n + 1) rest)),
            leb-eq-false (length rest) n more,
            slice_items-prefix n (take (n + 1) rest) (omega (arith, length-take (n + 1) rest)),
            take-take n (n + 1) rest (omega arith),
          )
          refl
    | no last ↦
        rw
          (
            e,
            leb-eq-true (length (take (n + 1) rest) + 0) (n + 0)
                (omega (arith, length-take (n + 1) rest)),
            leb-eq-true (length rest) n (omega arith),
            take_all (n + 1) rest (omega arith),
          )
          refl
  ]

  -- `Slice` from a position gives the page that starts there.
  pub slice_from-page_at :
      (n : ℕ) (c : Cursor) (pre rest : List T)
      → c.page_size ≡ pos n
      → length (pre ++ rest) + n + 1 < int64_bound
      → slice_from item_id c (pre ++ rest) (length pre) ≡ page (page_at item_id n rest)
  unfolding slice_from fetch_limit
  slice_from-page_at n c pre rest e h =
      rw
        (
          slice_from,
          fetch_limit,
          e,
          pos-add n 1,
          wrap-pos (n + 1) (omega arith),
          pos-add (length pre) (n + 1),
          wrap-pos (length pre + (n + 1)) (omega (arith, length-append pre rest)),
          fetched_rows (n + 1) pre rest,
        )
        (boundary-page_at n c rest e)
