-- ===== src/Secrets/Examples.antt =====
-- The theorems on the key ring at concrete rings.
use domainry_foundation.Prelude.{
  String, ◌≡◌, refl, true, false, none, some, List, [], ◌∷◌, ℕ, trim_space, str_eq,
}
use domainry_foundation.Secrets.KeyRing.{
  key_active, Key, key_error, revoked_error, MemoryKeyRing, new_memory_key_ring, by_id, rotate,
  revoke, rotate_to, revoke_id, run, add_keys,
}
use domainry_foundation.Secrets.Rotation.{
  IsValid, HasOneActive, run-HasOneActive, run-IsValid, new_ring-IsValid,
}
use domainry_foundation.Secrets.Revocation.{Reads, all_avoid, rotate-Reads, revoke-stays}

abbrev key_of : String → List ℕ → Key
key_of id material = record {
  id = id;
  algorithm = "AES-256-GCM";
  status = key_active;
  material = material;
}

abbrev first : Key
first = key_of "k1" (1 ∷ [])

abbrev ring : MemoryKeyRing
ring = record { active_id = "k1"; keys = ("k1", first) ∷ [] }

ring_made : new_memory_key_ring first [] ≡ some ring
unfolding new_memory_key_ring add_keys trim_space
ring_made = refl

run-HasOneActive_example :
    HasOneActive (run (rotate_to (key_of "k2" (2 ∷ [])) ∷ revoke_id "k1" ∷ []) ring)
run-HasOneActive_example =
    run-HasOneActive first [] ring (rotate_to (key_of "k2" (2 ∷ [])) ∷ revoke_id "k1" ∷ [])
      ring_made

ring-IsValid : IsValid ring
ring-IsValid = new_ring-IsValid first [] ring ring_made

ids_differ : str_eq (trim_space "k2") (trim_space "k1") ≡ false
unfolding trim_space
ids_differ = refl

first-Reads : Reads (by_id false ring "k1") first
unfolding by_id trim_space
first-Reads = (refl, refl)

rotate-Reads_example : Reads (by_id false (rotate (key_of "k2" (2 ∷ [])) ring).0 "k1") first
rotate-Reads_example =
    rotate-Reads ring (key_of "k2" (2 ∷ [])) "k1" first ring-IsValid ids_differ first-Reads

-- After a rotation the first key can be revoked.
abbrev rotated : MemoryKeyRing
rotated = (rotate (key_of "k2" (2 ∷ [])) ring).0

revoke_succeeds : (revoke "k1" rotated).1 ≡ none
unfolding revoke rotate trim_space
revoke_succeeds = refl

k3_avoids : all_avoid (trim_space "k1") (rotate_to (key_of "k3" (3 ∷ [])) ∷ []) ≡ true
unfolding trim_space
k3_avoids = refl

revoke-stays_example :
    by_id false (run (rotate_to (key_of "k3" (3 ∷ [])) ∷ []) (revoke "k1" rotated).0) "k1"
    ≡ key_error revoked_error
revoke-stays_example =
    revoke-stays rotated "k1" (rotate_to (key_of "k3" (3 ∷ [])) ∷ [])
      (run-IsValid (rotate_to (key_of "k2" (2 ∷ [])) ∷ []) ring ring-IsValid) revoke_succeeds
      k3_avoids

same_id : str_eq (trim_space "k1") "k1" ≡ true
unfolding trim_space
same_id = refl
