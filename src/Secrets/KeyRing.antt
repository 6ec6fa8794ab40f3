-- ===== src/Secrets/KeyRing.antt =====
-- secrets/keyring.go, and `Key` of secrets/provider.go: the key ring in memory. The lock makes each
-- method one step. Values are not shared, so `cloneKey` copies nothing here. The ring overwrites the
-- status of every key that it is given, so a status is one of the three constants.
use domainry_foundation.Prelude.{
  ℕ, Bool, true, false, ◌||◌, Option, none, some, String, str_eq, List, [], ◌∷◌, Map, lookup,
  insert, trim_space, if◌then◌else◌,
}

pub data KeyStatus : Type 0 where
  key_active : KeyStatus
  key_decrypt_only : KeyStatus
  key_revoked : KeyStatus

abbrev pub is_active : KeyStatus → Bool
is_active key_active = true
is_active _ = false

-- `material` holds bytes.
pub record Key : Type 0 where
  pub id : String
  pub algorithm : String
  pub status : KeyStatus
  pub material : List ℕ

pub data KeyError : Type 0 where
  context_error : KeyError
  provider_unavailable : KeyError
  secret_not_found : KeyError
  revoked_error : KeyError
  invalid_key : KeyError
  active_key : KeyError

pub data KeyResult : Type 0 where
  key_error : KeyError → KeyResult
  key_found : Key → KeyResult

pub record MemoryKeyRing : Type 0 where
  pub active_id : String
  pub keys : Map Key

abbrev pub is_empty : List ℕ → Bool
is_empty [] = true
is_empty (_ ∷ _) = false

-- A key with its trimmed id, a status, and its algorithm or the default one.
abbrev pub admitted : KeyStatus → Key → Key
admitted status key = record {
  id = trim_space key.id;
  algorithm = if str_eq key.algorithm "" then "AES-256-GCM" else key.algorithm;
  status = status;
  material = key.material;
}

-- The loop of `NewMemoryKeyRing`; `none` is its error.
unfoldable pub add_keys : String → List Key → Map Key → Option (Map Key)
add_keys active_id [] keys = some keys
add_keys active_id (key ∷ rest) keys =
    let k = admitted key_decrypt_only key in
    let added = add_keys active_id rest (insert k.id k keys) in
    if str_eq k.id "" || (is_empty k.material || str_eq k.id active_id) then none else added

abbrev pub with_keys : String → Option (Map Key) → Option MemoryKeyRing
with_keys active_id none = none
with_keys active_id (some keys) = some (record { active_id = active_id; keys = keys })

unfoldable pub new_memory_key_ring : Key → List Key → Option MemoryKeyRing
unfolding add_keys
new_memory_key_ring active decrypt_only =
    let k = admitted key_active active in
    if str_eq k.id "" || is_empty k.material
    then none
    else with_keys k.id (add_keys k.id decrypt_only ((k.id, k) ∷ []))

abbrev pub active_key_of : Option Key → KeyResult
active_key_of none = key_error provider_unavailable
active_key_of (some key) =
    if is_active key.status then key_found key else key_error provider_unavailable

-- `Active`; `cancelled` tells whether `ctx.Err()` is an error.
unfoldable pub active : Bool → MemoryKeyRing → KeyResult
active cancelled r =
    if cancelled then key_error context_error else active_key_of (lookup r.active_id r.keys)

abbrev pub usable_key : Option Key → KeyResult
usable_key none = key_error secret_not_found
usable_key (some key) = elim key.status [
  | key_revoked ↦ key_error revoked_error
  | _ ↦ key_found key
]

unfoldable pub by_id : Bool → MemoryKeyRing → String → KeyResult
by_id cancelled r id =
    if cancelled then key_error context_error else usable_key (lookup (trim_space id) r.keys)

-- The keys after the active one, if there is one, is only for decryption.
abbrev pub retired : Option Key → Map Key → Map Key
retired none keys = keys
retired (some previous) keys =
    insert previous.id (record previous { status = key_decrypt_only }) keys

-- `Rotate`, with its error.
unfoldable pub rotate : Key → MemoryKeyRing → MemoryKeyRing × Option KeyError
rotate next r =
    let k = admitted key_active next in
    if str_eq k.id "" || is_empty k.material then (r, some invalid_key) else (
      record {
        active_id = k.id;
        keys = insert k.id k (retired (lookup r.active_id r.keys) r.keys);
      },
      none,
    )

abbrev pub revoked : Key → Key
revoked key = record key { status = key_revoked; material = [] }

abbrev pub revoke_found : String → Option Key → MemoryKeyRing → MemoryKeyRing × Option KeyError
revoke_found id none r = (r, some secret_not_found)
revoke_found id (some key) r = (record r { keys = insert id (revoked key) r.keys }, none)

-- `Revoke`, with its error.
unfoldable pub revoke : String → MemoryKeyRing → MemoryKeyRing × Option KeyError
revoke id r =
    let i = trim_space id in
    if str_eq i r.active_id then (r, some active_key) else revoke_found i (lookup i r.keys) r

pub data Operation : Type 0 where
  rotate_to : Key → Operation
  revoke_id : String → Operation

abbrev pub step : Operation → MemoryKeyRing → MemoryKeyRing
step (rotate_to next) r = (rotate next r).0
step (revoke_id id) r = (revoke id r).0

-- Operations in a row, the first one first.
abbrev pub run : List Operation → MemoryKeyRing → MemoryKeyRing
run [] r = r
run (o ∷ os) r = run os (step o r)
