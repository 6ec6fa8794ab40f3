-- ===== src/Action/Usage/Requests.antt =====
-- What the checks of a request of action/usage.go say.
use domainry_foundation.Prelude.{
  and_then, and_then-none, one_of, refuse, refuse-none, ◌+◌, ◌≤◌, ◌≡◌, refl, subst, ◌∙◌, inl, inr,
  true, false, not, ◌||◌, Bool-cases, none, some, String, str_eq, eq_iff, List, [], ◌∷◌, Map,
  lookup, lookup-insert, insert, arith, All, count_if, map, trim_space,
}
use domainry_foundation.Action.Validation.{is_stable_key, is_empty}
use domainry_foundation.Action.Usage.{
  PermissionUsageQuery, owner_invalid, owner_repeated, check_query_keys, check_queries, requested,
}
use domainry_foundation.Action.Usage.Entries.{names_key, among}

pub query_keys-stable :
    (seen raws : List String)
    → check_query_keys seen raws ≡ none
    → All (λ raw. is_stable_key (trim_space raw) ≡ true) raws
unfolding check_query_keys
query_keys-stable seen [] h = tt
query_keys-stable seen (raw ∷ raws) h =
    (ground (arith, h), query_keys-stable (trim_space raw ∷ seen) raws (ground (arith, h)))

pub query_keys-single :
    (seen raws : List String)
    → check_query_keys seen raws ≡ none
    → (k : String) → count_if (names_key k) raws + among seen k ≤ 1
unfolding check_query_keys
query_keys-single seen [] h k = ground arith
query_keys-single seen (raw ∷ raws) h k =
    let later = query_keys-single (trim_space raw ∷ seen) raws (ground (arith, h)) k in
    ground (arith, later, h, eq_iff (trim_space raw) k, eq_iff k (trim_space raw))

pub asked_for :
    (keys raws : List String)
    → ((k : String) → one_of (map trim_space raws) k ≡ true → one_of keys k ≡ true)
    → All (λ raw. is_stable_key (trim_space raw) ≡ true) raws
    → All
        (λ raw. (is_stable_key (trim_space raw) ≡ true) × (one_of keys (trim_space raw) ≡ true))
        raws
asked_for keys [] within h = tt
asked_for keys (raw ∷ raws) within (h, hs) = (
  (h, within (trim_space raw) (ground (arith, eq_iff (trim_space raw) (trim_space raw)))),
  asked_for keys raws (λ k there. within k (ground (arith, there))) hs,
)

-- What the check of a query says.
pub query-checked :
    (seen : List String) (q : PermissionUsageQuery) (qs : List PermissionUsageQuery)
    → check_queries seen (q ∷ qs) ≡ none
    → (is_stable_key (trim_space q.source_owner) ≡ true)
      × (one_of seen (trim_space q.source_owner) ≡ false)
      × (check_query_keys [] q.permission_keys ≡ none)
      × (check_queries (trim_space q.source_owner ∷ seen) qs ≡ none)
unfolding check_queries
query-checked seen q qs h =
    let owner = trim_space q.source_owner in
    let behind = check_queries (owner ∷ seen) qs in
    let keyed = and_then (check_query_keys [] q.permission_keys) behind in
    let single = refuse (one_of seen owner) (owner_repeated owner) keyed in
    let first =
      refuse-none (not (is_stable_key owner) || is_empty q.permission_keys) (owner_invalid owner)
        single h in
    let second = refuse-none (one_of seen owner) (owner_repeated owner) keyed first.1 in
    let last = and_then-none (check_query_keys [] q.permission_keys) behind second.1 in
    (ground (arith, first.0), second.0, last.0, last.1)

-- An owner that was seen is not asked again.
lookup-requested :
    (owner : String) (seen : List String) (qs : List PermissionUsageQuery) (m : Map (List String))
    → check_queries seen qs ≡ none
    → one_of seen owner ≡ true
    → lookup owner (requested qs m) ≡ lookup owner m
lookup-requested owner seen [] m h there = refl
lookup-requested owner seen (q ∷ qs) m h there =
    let (_, new, _, later) = query-checked seen q qs h in
    let mine = trim_space q.source_owner in
    let keys = map trim_space q.permission_keys in
    let skipped =
      lookup-requested owner (mine ∷ seen) qs (insert mine keys m) later (ground (arith, there)) in
    elim (Bool-cases (str_eq mine owner)) [
      | inl same ↦
          let again : one_of seen owner ≡ false =
            subst (λ s. one_of seen s ≡ false) ((eq_iff mine owner).0 same) new in
          absurd (cc (again, there))
      | inr other ↦ skipped ∙ lookup-insert mine owner keys m ∙ rw other refl
    ]

pub requested-Asked :
    (seen : List String) (qs : List PermissionUsageQuery) (m : Map (List String))
    → check_queries seen qs ≡ none
    → All
        (λ q.
          lookup (trim_space q.source_owner) (requested qs m)
          ≡ some (map trim_space q.permission_keys))
        qs
requested-Asked seen [] m h = tt
requested-Asked seen (q ∷ qs) m h =
    let (_, _, _, later) = query-checked seen q qs h in
    let owner = trim_space q.source_owner in
    let keys = map trim_space q.permission_keys in
    let mine = (eq_iff owner owner).1 refl in
    (
      lookup-requested owner (owner ∷ seen) qs (insert owner keys m) later (rw mine refl)
          ∙ lookup-insert owner owner keys m
          ∙ rw mine refl,
      requested-Asked (owner ∷ seen) qs (insert owner keys m) later,
    )
