-- ===== src/Pagination/Examples.antt =====
-- The theorems on pages at concrete collections.
use domainry_foundation.Prelude.{
  ◌≡◌, refl, pos, String, some, List, [], ◌∷◌, take, drop, arith, trim_space, wrap, ◌+ℤ◌,
}
use domainry_foundation.Pagination.Model.{
  CursorOptions, new_cursor, normal_size, find_start, last_id, slice_from, slice, slice_items,
  boundary, fetch_limit, slice_numbered,
}
use domainry_foundation.Pagination.Walk.{walk, walk-items}
use domainry_foundation.Pagination.Numbers.{
  numbered, slice_numbered-window, first_pages, first_pages-take,
}

abbrev identity : String → String
identity s = s

abbrev names : List String
names = "ada" ∷ "bob" ∷ "cyd" ∷ "dee" ∷ "eve" ∷ []

abbrev options : CursorOptions
options = record { default_page_size = pos 0; maximum_page_size = pos 2 }

names-walk : walk identity 3 "" (pos 9) options names ≡ names
unfolding walk new_cursor normal_size slice find_start slice_from slice_items boundary fetch_limit
    wrap ◌+ℤ◌ trim_space last_id
names-walk = refl

walk-items_example : walk identity 5 "" (pos 9) options names ≡ names
unfolding normal_size find_start trim_space
walk-items_example =
    walk-items identity 1 options (pos 9) names refl (omega arith)
      (refl, refl, (refl, refl, (refl, refl, (refl, refl, (refl, refl, tt)))))

slice_numbered-window_example :
    (slice_numbered (numbered 2 2) names).0 ≡ some (take 2 (drop 4 names))
slice_numbered-window_example = slice_numbered-window 2 2 names (omega arith) (omega arith)

first_pages-take_example : first_pages 2 2 names ≡ take 4 names
first_pages-take_example = first_pages-take 2 2 names (omega arith) (omega arith)
