-- ===== src/Pagination/Walk.antt =====
-- A client that asks for page after page until `HasNext` is false.
use native.Mathlib.Decide.{dec_lt}
use mathlib.Core.List.{append_assoc}
use domainry_foundation.Prelude.{
  ℕ, zero, suc, ◌+◌, ◌<◌, ◌≤◌, ℤ, pos, ◌≡◌, refl, sym, ap, ◌∙◌, String, trim_space, List, [], ◌∷◌,
  ◌++◌, length, take, drop, length-drop, take-append-drop, arith, if◌then◌else◌, int64_bound,
  leb-eq-true, leb-eq-false,
}
use domainry_foundation.Pagination.Model.{
  CursorOptions, new_cursor, normal_size, page, last_id, slice,
}
use domainry_foundation.Pagination.Cursors.{
  IsKeyed, find_start-last_id, last_id-nonempty, last_id-append, trim_space-last_id, page_at,
  slice_from-page_at,
}

module _ {ℓ} {T : Type ℓ} (item_id : T → String) where
  -- The client: it asks with `NewCursor` and `Slice`, at most `fuel` times.
  unfoldable pub walk : ℕ → String → ℤ → CursorOptions → List T → List T
  walk zero after requested o items = []
  walk (suc fuel) after requested o items =
      elim (slice item_id (new_cursor after requested o) items) [
        | page p ↦
            (let later = walk fuel p.next_id requested o items in
              if p.has_next then p.items ++ later else p.items)
        | _ ↦ []
      ]

  -- The cursor text behind `pre`.
  abbrev after_id : List T → String
  after_id [] = ""
  after_id (x ∷ xs) = last_id item_id (x ∷ xs)

  slice-page_at :
      (n : ℕ) (o : CursorOptions) (requested : ℤ) (pre rest : List T)
      → normal_size requested o.default_page_size o.maximum_page_size ≡ pos n
      → length (pre ++ rest) + n + 1 < int64_bound
      → IsKeyed item_id (pre ++ rest)
      → slice item_id (new_cursor (after_id pre) requested o) (pre ++ rest)
        ≡ page (page_at item_id n rest)
  unfolding slice new_cursor
  slice-page_at n o requested [] rest e h k =
      unfold trim_space in slice_from-page_at item_id n _ [] rest e h
  slice-page_at n o requested (x ∷ xs) rest e h k =
      rw
        (
          trim_space-last_id item_id (x ∷ xs),
          last_id-nonempty item_id x xs rest k,
          find_start-last_id item_id x xs rest k,
        )
        (slice_from-page_at item_id n _ (x ∷ xs) rest e h)

  after_id-append :
      (xs : List T) (y : T) (ys : List T) → after_id (xs ++ y ∷ ys) ≡ last_id item_id (y ∷ ys)
  after_id-append [] y ys = refl
  after_id-append (x ∷ xs) y ys = last_id-append item_id (x ∷ xs) y ys

  after_id-take :
      (n : ℕ) (pre rest : List T)
      → n < length rest
      → after_id (pre ++ take (suc n) rest) ≡ last_id item_id (take (suc n) rest)
  after_id-take n pre [] h = absurd (omega arith)
  after_id-take n pre (y ∷ rest) h = after_id-append pre y (take n rest)

  walk-rest :
      (fuel n : ℕ) (o : CursorOptions) (requested : ℤ) (items : List T) (after : String)
      (pre rest : List T)
      → items ≡ pre ++ rest
      → after ≡ after_id pre
      → normal_size requested o.default_page_size o.maximum_page_size ≡ pos (suc n)
      → length items + suc n + 1 < int64_bound
      → IsKeyed item_id items
      → length rest ≤ fuel
      → walk fuel after requested o items ≡ rest
  unfolding walk
  walk-rest zero n o requested items after pre [] split a e h k m = refl
  walk-rest zero n o requested items after pre (x ∷ rest) split a e h k m = absurd (omega arith)
  walk-rest (suc fuel) n o requested items after pre rest split a e h k m =
      let asked : slice item_id (new_cursor after requested o) items
          ≡ page (page_at item_id (suc n) rest) =
        rw (a, split)
          (slice-page_at (suc n) o requested pre rest e (rw split at h) (rw split at k)) in
      elim (dec_lt (suc n) (length rest)) [
        | yes more ↦
            rw
              (
                walk,
                asked,
                leb-eq-false (length rest) (suc n) more,
                walk-rest fuel n o requested items (last_id item_id (take (suc n) rest))
                    (pre ++ take (suc n) rest) (drop (suc n) rest)
                    (split
                      ∙ ap (λ l. pre ++ l) (sym (take-append-drop (suc n) rest))
                      ∙ sym (append_assoc pre (take (suc n) rest) (drop (suc n) rest)))
                    (sym (after_id-take n pre rest (omega arith))) e h k
                    (omega (arith, length-drop (suc n) rest)),
              )
              (take-append-drop (suc n) rest)
        | no last ↦ rw (walk, asked, leb-eq-true (length rest) (suc n) (omega arith)) refl
      ]

  -- A client that starts with no cursor and asks for the page behind the last id until `HasNext` is
  -- false receives all the items, each once and in order, provided that the ids are distinct and not
  -- empty, that the page size is positive and that the end of a page fits an `int`; as many requests
  -- as there are items are enough.
  pub walk-items :
      (n : ℕ) (o : CursorOptions) (requested : ℤ) (items : List T)
      → normal_size requested o.default_page_size o.maximum_page_size ≡ pos (suc n)
      → length items + suc n + 1 < int64_bound
      → IsKeyed item_id items
      → walk (length items) "" requested o items ≡ items
  walk-items n o requested items e h k =
      walk-rest (length items) n o requested items "" [] items refl refl e h k (omega arith)
