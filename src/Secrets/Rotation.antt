-- ===== src/Secrets/Rotation.antt =====
-- The active key, and what a rotation keeps.
use domainry_foundation.Prelude.{
  ◌≡◌, refl, inl, inr, Bool, true, false, not, ◌&&◌, ◌||◌, Option, none, some, String, str_eq,
  eq_iff, List, [], ◌∷◌, arith, Map, lookup, insert, IsMap, lookup-insert, insert-IsMap, Bool-cases,
  Option-cases, trim_space, if◌then◌else◌,
}
use domainry_foundation.Secrets.KeyRing.{
  key_active, key_decrypt_only, is_active, Key, key_found, MemoryKeyRing, is_empty, admitted,
  add_keys, with_keys, new_memory_key_ring, active, retired, rotate, revoked, revoke, Operation,
  rotate_to, revoke_id, step, run,
}

-- What is stored under an id: a key of that id, active with material exactly if the id is the active one.
abbrev pub is_kept : String → String → Option Key → Bool
is_kept active_id id none = not (str_eq active_id id)
is_kept active_id id (some key) =
    str_eq key.id id
    && (if str_eq active_id id
        then is_active key.status && not (is_empty key.material)
        else not (is_active key.status))

-- The ring is a map in which the active id has the one active key.
pub record IsValid (r : MemoryKeyRing) : Type 0 where
  pub map : IsMap r.keys
  pub kept : (id : String) → is_kept r.active_id id (lookup id r.keys) ≡ true

retired-IsMap : (o : Option Key) (keys : Map Key) → IsMap keys → IsMap (retired o keys)
retired-IsMap none keys h = h
retired-IsMap (some k) keys h = insert-IsMap k.id _ keys h

-- After a retirement no key is active, and every key is stored under its own id.
abbrev is_idle : String → Option Key → Bool
is_idle id none = true
is_idle id (some key) = str_eq key.id id && not (is_active key.status)

retired-idle :
    (r : MemoryKeyRing)
    → IsValid r
    → (id : String) → is_idle id (lookup id (retired (lookup r.active_id r.keys) r.keys)) ≡ true
retired-idle r v id = elim (Option-cases (lookup r.active_id r.keys)) [
  | inl gone ↦
      let k = v.kept r.active_id in
      let k' : not (str_eq r.active_id r.active_id) ≡ true = rw gone at k in
      let same = (eq_iff r.active_id r.active_id).1 refl in absurd (ground (arith, k', same))
  | inr (k, found) ↦
      let here = v.kept id in
      let stored = v.kept r.active_id in
      let own : is_kept r.active_id r.active_id (some k) ≡ true = rw found at stored in
      rw (found, lookup-insert k.id id (record k { status = key_decrypt_only }) r.keys)
        (ground (arith, here, own, eq_iff k.id r.active_id, eq_iff r.active_id id, eq_iff k.id id))
]

rotate-IsValid : (next : Key) (r : MemoryKeyRing) → IsValid r → IsValid (rotate next r).0
unfolding rotate
rotate-IsValid next r v =
    let k = admitted key_active next in
    let old = retired (lookup r.active_id r.keys) r.keys in
    elim (Bool-cases (str_eq k.id "" || is_empty k.material)) [
      | inl invalid ↦ rw invalid v
      | inr good ↦ rw good (record {
        map = insert-IsMap k.id k old (retired-IsMap (lookup r.active_id r.keys) r.keys v.map);
        kept = λ id.
            (let idle = retired-idle r v id in
              rw (lookup-insert k.id id k old) (ground (arith, good, idle, eq_iff k.id id)));
      })
    ]

revoke-IsValid : (id : String) (r : MemoryKeyRing) → IsValid r → IsValid (revoke id r).0
unfolding revoke
revoke-IsValid id r v = elim (Bool-cases (str_eq (trim_space id) r.active_id)) [
  | inl current ↦ rw current v
  | inr other ↦ elim (Option-cases (lookup (trim_space id) r.keys)) [
    | inl gone ↦ rw (other, gone) v
    | inr (k, found) ↦
        rw (other, found)
          (record {
            map = insert-IsMap (trim_space id) (revoked k) r.keys v.map;
            kept = λ j.
                (let here = v.kept j in
                  let stored = v.kept (trim_space id) in
                  let own : is_kept r.active_id (trim_space id) (some k) ≡ true =
                    rw found at stored in
                  rw (lookup-insert (trim_space id) j (revoked k) r.keys) (
                    ground (
                      arith,
                      other,
                      here,
                      own,
                      eq_iff (trim_space id) j,
                      eq_iff r.active_id (trim_space id),
                      eq_iff (trim_space id) r.active_id,
                    )));
          })
  ]
]

-- The keys of a ring that is being built.
abbrev Kept : String → Map Key → Type 0
Kept active_id keys = IsMap keys × ((id : String) → is_kept active_id id (lookup id keys) ≡ true)

abbrev KeptIfAny : String → Option (Map Key) → Type 0
KeptIfAny active_id none = Unit {0}
KeptIfAny active_id (some keys) = Kept active_id keys

add_keys-Kept :
    (active_id : String) (rest : List Key) (keys : Map Key)
    → Kept active_id keys
    → KeptIfAny active_id (add_keys active_id rest keys)
unfolding add_keys
add_keys-Kept active_id [] keys h = h
add_keys-Kept active_id (key ∷ rest) keys h =
    let k = admitted key_decrypt_only key in
    elim (Bool-cases (str_eq k.id "" || (is_empty k.material || str_eq k.id active_id))) [
      | inl invalid ↦ rw invalid tt
      | inr good ↦ rw good (
          add_keys-Kept active_id rest (insert k.id k keys) (
            insert-IsMap k.id k keys (h.0),
            λ id.
                (let here = h.1 id in
                  rw (lookup-insert k.id id k keys) (
                    ground (
                      arith,
                      good,
                      here,
                      eq_iff k.id id,
                      eq_iff active_id id,
                      eq_iff k.id active_id,
                    ))),
          ))
    ]

ValidIfAny : Option MemoryKeyRing → Type 0
ValidIfAny none = Unit {0}
ValidIfAny (some r) = IsValid r

with_keys-valid :
    (active_id : String) (o : Option (Map Key))
    → KeptIfAny active_id o
    → ValidIfAny (with_keys active_id o)
unfolding ValidIfAny
with_keys-valid active_id none h = tt
with_keys-valid active_id (some keys) h = record { map = h.0; kept = h.1 }

new_memory_key_ring-valid :
    (first : Key) (others : List Key) → ValidIfAny (new_memory_key_ring first others)
unfolding new_memory_key_ring ValidIfAny
new_memory_key_ring-valid first others =
    let k = admitted key_active first in
    elim (Bool-cases (str_eq k.id "" || is_empty k.material)) [
      | inl invalid ↦ rw invalid tt
      | inr good ↦ rw good (
          with_keys-valid k.id (add_keys k.id others ((k.id, k) ∷ [])) (
            add_keys-Kept k.id others ((k.id, k) ∷ [])
              ((refl, tt), λ id. ground (arith, good, eq_iff k.id id, eq_iff k.id k.id))))
    ]

pub step-IsValid : (o : Operation) (r : MemoryKeyRing) → IsValid r → IsValid (step o r)
step-IsValid (rotate_to next) r v = rotate-IsValid next r v
step-IsValid (revoke_id id) r v = revoke-IsValid id r v

pub run-IsValid : (os : List Operation) (r : MemoryKeyRing) → IsValid r → IsValid (run os r)
run-IsValid [] r v = v
run-IsValid (o ∷ os) r v = run-IsValid os (step o r) (step-IsValid o r v)

pub new_ring-IsValid :
    (first : Key) (others : List Key) (r : MemoryKeyRing)
    → new_memory_key_ring first others ≡ some r
    → IsValid r
unfolding ValidIfAny
new_ring-IsValid first others r e = let v = new_memory_key_ring-valid first others in rw e at v

-- `Active` finds an active key with material, under the active id, and no other id has an active key.
abbrev pub HasOneActive : MemoryKeyRing → Type 0
HasOneActive r =
    ((k : Key) × (active false r ≡ key_found k)
      × (k.id ≡ r.active_id)
      × (is_active k.status ≡ true)
      × (is_empty k.material ≡ false))
    × ((id : String) (k : Key)
        → lookup id r.keys ≡ some k
        → is_active k.status ≡ true
        → r.active_id ≡ id)

IsValid-HasOneActive : (r : MemoryKeyRing) → IsValid r → HasOneActive r
unfolding active
IsValid-HasOneActive r v = (
  elim (Option-cases (lookup r.active_id r.keys)) [
    | inl gone ↦
        let k = v.kept r.active_id in
        let k' : not (str_eq r.active_id r.active_id) ≡ true = rw gone at k in
        let same = (eq_iff r.active_id r.active_id).1 refl in absurd (ground (arith, k', same))
    | inr (k, found) ↦
        let stored = v.kept r.active_id in
        let own : is_kept r.active_id r.active_id (some k) ≡ true = rw found at stored in
        let same = (eq_iff r.active_id r.active_id).1 refl in
        let status : is_active k.status ≡ true = ground (arith, own, same) in
        let full : is_empty k.material ≡ false = ground (arith, own, same) in
        (k, rw (found, status) refl, ground (arith, own, eq_iff k.id r.active_id), status, full)
  ],
  λ id k found live.
      (let stored = v.kept id in
        let own : is_kept r.active_id id (some k) ≡ true = rw found at stored in
        ground (arith, own, live, eq_iff r.active_id id)),
)

-- Whatever rotations and revocations follow the construction of a ring, successful or not, it has exactly
-- one active key, which `Active` returns, with material and under the active id.
pub run-HasOneActive :
    (first : Key) (others : List Key) (r : MemoryKeyRing) (os : List Operation)
    → new_memory_key_ring first others ≡ some r
    → HasOneActive (run os r)
run-HasOneActive first others r os e =
    IsValid-HasOneActive (run os r) (run-IsValid os r (new_ring-IsValid first others r e))
