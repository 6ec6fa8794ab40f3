-- ===== src/Secrets/Revocation.antt =====
-- Reading the keys of a ring by their ids, after rotations and revocations.
use domainry_foundation.Prelude.{
  ◌≡◌, refl, sym, ◌∙◌, inl, inr, Bool, true, false, not, ◌&&◌, ◌||◌, Option, none, some, String,
  str_eq, eq_iff, List, [], ◌∷◌, arith, lookup, lookup-insert, lookup-insert_self, Bool-cases,
  Option-cases, trim_space,
}
use domainry_foundation.Secrets.KeyRing.{
  KeyStatus, key_active, key_decrypt_only, key_revoked, is_active, Key, KeyResult, key_error,
  key_found, revoked_error, MemoryKeyRing, is_empty, admitted, usable_key, by_id, retired, rotate,
  revoked, revoke, Operation, rotate_to, revoke_id, step, run,
}
use domainry_foundation.Secrets.Rotation.{IsValid, is_kept, step-IsValid}

abbrev is_revoked : KeyStatus → Bool
is_revoked key_revoked = true
is_revoked _ = false

-- The key can be read, with this material and algorithm.
abbrev pub Reads : KeyResult → Key → Type 0
Reads (key_error _) key = ⊥
Reads (key_found k) key = (k.material ≡ key.material) × (k.algorithm ≡ key.algorithm)

Reads-usable :
    (s : KeyStatus) (k key : Key)
    → k.status ≡ s
    → is_active s ≡ true
    → Reads (usable_key (some k)) key
    → (k.material ≡ key.material) × (k.algorithm ≡ key.algorithm)
Reads-usable key_active k key e a h = rw e at h
Reads-usable key_decrypt_only k key e a h = absurd (ground (arith, a))
Reads-usable key_revoked k key e a h = absurd (ground (arith, a))

retired-Reads :
    (r : MemoryKeyRing) (id : String) (key : Key)
    → IsValid r
    → Reads (usable_key (lookup id r.keys)) key
    → Reads (usable_key (lookup id (retired (lookup r.active_id r.keys) r.keys))) key
retired-Reads r id key v h = elim (Option-cases (lookup r.active_id r.keys)) [
  | inl gone ↦ rw gone h
  | inr (k, found) ↦
      let stored = v.kept r.active_id in
      let own : is_kept r.active_id r.active_id (some k) ≡ true = rw found at stored in
      let e : k.id ≡ r.active_id = ground (arith, own, eq_iff k.id r.active_id) in
      elim (Bool-cases (str_eq k.id id)) [
        | inr other ↦
            rw (found, lookup-insert k.id id (record k { status = key_decrypt_only }) r.keys, other)
              h
        | inl same ↦
            let same' : r.active_id ≡ id = sym e ∙ (eq_iff k.id id).0 same in
            let here : lookup id r.keys ≡ some k = rw same' at found in
            let live : is_active k.status ≡ true =
              ground (arith, own, eq_iff r.active_id r.active_id) in
            let h' : Reads (usable_key (some k)) key = rw here at h in
            rw (found, lookup-insert k.id id (record k { status = key_decrypt_only }) r.keys, same)
              (Reads-usable k.status k key refl live h')
      ]
]

-- A rotation takes no key away: a key that `ByID` finds is found, with its material and algorithm, after
-- a rotation to another id.
pub rotate-Reads :
    (r : MemoryKeyRing) (next : Key) (id : String) (key : Key)
    → IsValid r
    → str_eq (trim_space next.id) (trim_space id) ≡ false
    → Reads (by_id false r id) key
    → Reads (by_id false (rotate next r).0 id) key
unfolding by_id rotate
rotate-Reads r next id key v other h =
    let k = admitted key_active next in
    let old = retired (lookup r.active_id r.keys) r.keys in
    elim (Bool-cases (str_eq k.id "" || is_empty k.material)) [
      | inl invalid ↦ rw invalid h
      | inr good ↦
          rw (good, lookup-insert k.id (trim_space id) k old, other)
            (retired-Reads r (trim_space id) key v h)
    ]

-- What is stored is a revoked key.
abbrev is_gone : Option Key → Bool
is_gone none = false
is_gone (some k) = is_revoked k.status

-- The operation is no rotation to the id.
abbrev pub avoids : String → Operation → Bool
avoids id (rotate_to next) = not (str_eq (trim_space next.id) id)
avoids id (revoke_id _) = true

abbrev pub all_avoid : String → List Operation → Bool
all_avoid id [] = true
all_avoid id (o ∷ os) = let rest = all_avoid id os in avoids id o && rest

active_gone : (s : KeyStatus) → is_active s ≡ true → is_revoked s ≡ false
active_gone key_active h = refl
active_gone key_decrypt_only h = refl
active_gone key_revoked h = absurd (ground (arith, h))

retired-gone :
    (r : MemoryKeyRing) (id : String)
    → IsValid r
    → is_gone (lookup id r.keys) ≡ true
    → is_gone (lookup id (retired (lookup r.active_id r.keys) r.keys)) ≡ true
retired-gone r id v h = elim (Option-cases (lookup r.active_id r.keys)) [
  | inl gone ↦ rw gone h
  | inr (k, found) ↦
      let stored = v.kept r.active_id in
      let own : is_kept r.active_id r.active_id (some k) ≡ true = rw found at stored in
      let e : k.id ≡ r.active_id = ground (arith, own, eq_iff k.id r.active_id) in
      let live : is_active k.status ≡ true = ground (arith, own, eq_iff r.active_id r.active_id) in
      elim (Bool-cases (str_eq k.id id)) [
        | inr other ↦
            rw (found, lookup-insert k.id id (record k { status = key_decrypt_only }) r.keys, other)
              h
        | inl same ↦
            let same' : r.active_id ≡ id = sym e ∙ (eq_iff k.id id).0 same in
            let here : lookup id r.keys ≡ some k = rw same' at found in
            let h' : is_revoked k.status ≡ true = rw here at h in
            absurd (ground (arith, h', active_gone k.status live))
      ]
]

rotate-gone :
    (next : Key) (r : MemoryKeyRing) (id : String)
    → IsValid r
    → str_eq (trim_space next.id) id ≡ false
    → is_gone (lookup id r.keys) ≡ true
    → is_gone (lookup id (rotate next r).0.keys) ≡ true
unfolding rotate
rotate-gone next r id v other h =
    let k = admitted key_active next in
    let old = retired (lookup r.active_id r.keys) r.keys in
    elim (Bool-cases (str_eq k.id "" || is_empty k.material)) [
      | inl invalid ↦ rw invalid h
      | inr good ↦ rw (good, lookup-insert k.id id k old, other) (retired-gone r id v h)
    ]

revoke_step-gone :
    (target : String) (r : MemoryKeyRing) (id : String)
    → is_gone (lookup id r.keys) ≡ true
    → is_gone (lookup id (revoke target r).0.keys) ≡ true
unfolding revoke
revoke_step-gone target r id h = elim (Bool-cases (str_eq (trim_space target) r.active_id)) [
  | inl current ↦ rw current h
  | inr other ↦ elim (Option-cases (lookup (trim_space target) r.keys)) [
    | inl gone ↦ rw (other, gone) h
    | inr (k, found) ↦
        rw (other, found, lookup-insert (trim_space target) id (revoked k) r.keys)
          (ground (arith, h))
  ]
]

step-gone :
    (o : Operation) (r : MemoryKeyRing) (id : String)
    → IsValid r
    → avoids id o ≡ true
    → is_gone (lookup id r.keys) ≡ true
    → is_gone (lookup id (step o r).keys) ≡ true
step-gone (rotate_to next) r id v a h = rotate-gone next r id v (ground (arith, a)) h
step-gone (revoke_id target) r id v a h = revoke_step-gone target r id h

run-gone :
    (os : List Operation) (r : MemoryKeyRing) (id : String)
    → IsValid r
    → all_avoid id os ≡ true
    → is_gone (lookup id r.keys) ≡ true
    → is_gone (lookup id (run os r).keys) ≡ true
run-gone [] r id v a h = h
run-gone (o ∷ os) r id v a h =
    let here : avoids id o ≡ true = ground (arith, a) in
    let there : all_avoid id os ≡ true = ground (arith, a) in
    run-gone os (step o r) id (step-IsValid o r v) there (step-gone o r id v here h)

revoke-gone :
    (r : MemoryKeyRing) (id : String)
    → (revoke id r).1 ≡ none
    → is_gone (lookup (trim_space id) (revoke id r).0.keys) ≡ true
unfolding revoke
revoke-gone r id e = elim (Bool-cases (str_eq (trim_space id) r.active_id)) [
  | inl current ↦ let e' = rw current at e in absurd (ground (arith, e'))
  | inr other ↦ elim (Option-cases (lookup (trim_space id) r.keys)) [
    | inl gone ↦ let e' = rw (other, gone) at e in absurd (ground (arith, e'))
    | inr (k, found) ↦ rw (other, found, lookup-insert_self (trim_space id) (revoked k) r.keys) refl
  ]
]

usable_key-gone : (o : Option Key) → is_gone o ≡ true → usable_key o ≡ key_error revoked_error
usable_key-gone none h = absurd (ground (arith, h))
usable_key-gone (some k) h = go k.status refl h
  where
    go :
        (s : KeyStatus)
        → k.status ≡ s
        → is_revoked k.status ≡ true
        → usable_key (some k) ≡ key_error revoked_error
    go key_active e h = absurd (ground (arith, e, h))
    go key_decrypt_only e h = absurd (ground (arith, e, h))
    go key_revoked e h = rw e refl

-- A revoked key stays revoked: after a successful `Revoke`, `ByID` reports the revocation whatever
-- rotations and revocations follow, unless one is a rotation to the same id.
pub revoke-stays :
    (r : MemoryKeyRing) (id : String) (os : List Operation)
    → IsValid r
    → (revoke id r).1 ≡ none
    → all_avoid (trim_space id) os ≡ true
    → by_id false (run os (revoke id r).0) id ≡ key_error revoked_error
unfolding by_id
revoke-stays r id os v e a = usable_key-gone _ (
    run-gone os (revoke id r).0 (trim_space id) (step-IsValid (revoke_id id) r v) a
      (revoke-gone r id e))

-- A rotation to the active id replaces its key: `ByID` then finds the new material, and what the old
-- material encrypted can be read no more.
rotate-replaces :
    (r : MemoryKeyRing) (next : Key)
    → str_eq (trim_space next.id) r.active_id ≡ true
    → str_eq r.active_id "" ≡ false
    → is_empty next.material ≡ false
    → by_id false (rotate next r).0 next.id ≡ key_found (admitted key_active next)
unfolding by_id rotate
rotate-replaces r next same named full =
    let k = admitted key_active next in
    let old = retired (lookup r.active_id r.keys) r.keys in
    let good : str_eq k.id "" ≡ false = ground (arith, same, named, eq_iff k.id r.active_id) in
    rw (good, full, lookup-insert_self k.id k old) refl
