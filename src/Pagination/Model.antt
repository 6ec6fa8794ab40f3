-- ===== src/Pagination/Model.antt =====
-- pagination/cursor.go and pagination/numbered.go. `int` values are integers brought into 64 bits
-- after each operation; an index out of range is a panic.
use domainry_foundation.Prelude.{
  ℕ, suc, ◌-◌, ℤ, pos, ◌+ℤ◌, ◌-ℤ◌, ◌*ℤ◌, wrap, ltb_ℤ, leb_ℤ, Bool, true, false, ◌&&◌, String,
  str_eq, trim_space, Option, none, some, List, [], ◌∷◌, length, take, drop, leb, if◌then◌else◌,
}

-- The page size of `NewCursor` and of `NewNumbered`, which normalise it by the same lines.
unfoldable pub normal_size : ℤ → ℤ → ℤ → ℤ
normal_size requested default maximum =
    let size = if ltb_ℤ requested (pos 1) then default else requested in
    let size' = if ltb_ℤ size (pos 1) then pos 1 else size in
    if ltb_ℤ (pos 0) maximum && ltb_ℤ maximum size' then maximum else size'

-- `items[start:end]`; `none` is a panic.
unfoldable pub slice_items {ℓ} : {A : Type ℓ} → ℤ → ℤ → List A → Option (List A)
slice_items (pos s) (pos e) xs =
    if leb s e && leb e (length xs) then some (take (e - s) (drop s xs)) else none
slice_items _ _ xs = none

pub record CursorOptions : Type 0 where
  pub default_page_size : ℤ
  pub maximum_page_size : ℤ

pub record Cursor : Type 0 where
  pub after_id : String
  pub page_size : ℤ

unfoldable pub new_cursor : String → ℤ → CursorOptions → Cursor
new_cursor after_id requested o = record {
  after_id = trim_space after_id;
  page_size = normal_size requested o.default_page_size o.maximum_page_size;
}

unfoldable pub fetch_limit : Cursor → ℤ
fetch_limit c = wrap (c.page_size +ℤ pos 1)

pub record Page {ℓ} (T : Type ℓ) : Type ℓ where
  pub items : List T
  pub has_next : Bool
  pub next_id : String

-- The outcomes of `Slice`.
pub data Outcome {ℓ} (T : Type ℓ) : Type ℓ where
  page : Page T → Outcome T
  cursor_not_found : String → Outcome T
  panic : Outcome T

module _ {ℓ} {T : Type ℓ} (item_id : T → String) where
  -- The position behind the first item that has the cursor's id.
  unfoldable pub find_start : String → List T → Option ℕ
  find_start target [] = none
  find_start target (x ∷ xs) =
      let rest = find_start target xs in
      if str_eq (trim_space (item_id x)) target
      then some 1
      else elim rest [ none ↦ none | some n ↦ some (suc n) ]

  -- The id of the last item.
  unfoldable pub last_id : List T → String
  last_id [] = ""
  last_id (x ∷ []) = trim_space (item_id x)
  last_id (x ∷ y ∷ xs) = last_id (y ∷ xs)

  -- `Boundary`; `fetched[:pageSize]` panics for a negative page size.
  unfoldable pub boundary : Cursor → List T → Outcome T
  unfolding last_id
  boundary c fetched =
      if leb_ℤ (pos (length fetched)) c.page_size
      then page (record { items = fetched; has_next = false; next_id = "" })
      else elim (slice_items (pos 0) c.page_size fetched) [
        | none ↦ panic
        | some items ↦ page (record { items = items; has_next = true; next_id = last_id items })
      ]

  unfoldable pub slice_from : Cursor → List T → ℕ → Outcome T
  slice_from c items start =
      let end = wrap (pos start +ℤ fetch_limit c) in
      let end' = if ltb_ℤ (pos (length items)) end then pos (length items) else end in
      elim (slice_items (pos start) end' items) [ none ↦ panic | some fetched ↦ boundary c fetched ]

  -- `Slice`
  unfoldable pub slice : Cursor → List T → Outcome T
  slice c items =
      if str_eq c.after_id "" then slice_from c items 0 else elim (find_start c.after_id items) [
        | none ↦ cursor_not_found c.after_id
        | some start ↦ slice_from c items start
      ]

pub record Numbered : Type 0 where
  pub page : ℤ
  pub page_size : ℤ

pub record Window : Type 0 where
  pub start : ℤ
  pub end : ℤ
  pub has_next : Bool
  pub next_page : ℤ

pub record NumberedOptions : Type 0 where
  pub default_page_size : ℤ
  pub maximum_page_size : ℤ

unfoldable pub new_numbered : ℤ → ℤ → NumberedOptions → Numbered
new_numbered number requested o = record {
  page = if ltb_ℤ number (pos 1) then pos 1 else number;
  page_size = normal_size requested o.default_page_size o.maximum_page_size;
}

-- `if value > total { value = total }`
unfoldable pub at_most : ℤ → ℤ → ℤ
at_most total value = if ltb_ℤ total value then total else value

-- `if total < 0 { total = 0 }`
unfoldable pub non_negative : ℤ → ℤ
non_negative total = if ltb_ℤ total (pos 0) then pos 0 else total

-- `Bounds`
unfoldable pub bounds : Numbered → ℤ → Window
bounds p given =
    let total = non_negative given in
    let start = at_most total (wrap (wrap (p.page -ℤ pos 1) *ℤ p.page_size)) in
    let end = at_most total (wrap (start +ℤ p.page_size)) in
    let has_next = ltb_ℤ end total in
    record {
      start = start;
      end = end;
      has_next = has_next;
      next_page = if has_next then wrap (p.page +ℤ pos 1) else pos 0;
    }

unfoldable pub slice_numbered {ℓ} : {T : Type ℓ} → Numbered → List T → Option (List T) × Window
slice_numbered p items =
    let w = bounds p (pos (length items)) in (slice_items w.start w.end items, w)
