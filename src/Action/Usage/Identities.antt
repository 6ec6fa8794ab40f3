-- ===== src/Action/Usage/Identities.antt =====
-- The identities of permissions in action/validation.go: what is joined can be told apart.
use Prim.Native.Char.{Char, nul, code}
use Prim.Native.String.{◌++◌}
use Prim.Native.String.append
use domainry_foundation.Action.Validation.{is_lower, is_digit, key_rest, is_stable_key}
use domainry_foundation.Prelude.{
  ℕ, trim_space, codes, ◌∙◌, ap, ◌≡◌, refl, Bool, true, not, ◌&&◌, ◌||◌, sym, subst, ◌==◌, String,
  arith,
}
use domainry_foundation.Action.Model.{joined, permission_identity}

abbrev plain : String → Bool
plain String.[] = true
plain (String.◌∷◌ c s) = let rest = plain s in not (code c == 0) && rest

joined-cons : (c : Char) (s t : String) → joined (String.◌∷◌ c s) t ≡ String.◌∷◌ c (joined s t)
joined-cons c s t = append.cons c s (String.◌∷◌ nul String.[] ++ t)

joined-nil : (t : String) → joined "" t ≡ String.◌∷◌ nul t
joined-nil t =
    append.nil (String.◌∷◌ nul String.[] ++ t)
    ∙ append.cons nul String.[] t
    ∙ ap (String.◌∷◌ nul) (append.nil t)

joined_injective :
    (s s' t t' : String)
    → plain s ≡ true
    → plain s' ≡ true
    → joined s t ≡ joined s' t'
    → (s ≡ s') × (t ≡ t')
joined_injective String.[] String.[] t t' p p' e = (refl, cc (joined-nil t, joined-nil t', e))
joined_injective String.[] (String.◌∷◌ c s') t t' p p' e =
    let same : nul ≡ c = cc (joined-nil t, joined-cons c s' t', e) in
    absurd (cc (subst (λ c. plain (String.◌∷◌ c s') ≡ true) (sym same) p'))
joined_injective (String.◌∷◌ c s) String.[] t t' p p' e =
    let same : nul ≡ c = cc (joined-nil t', joined-cons c s t, e) in
    absurd (cc (subst (λ c. plain (String.◌∷◌ c s) ≡ true) (sym same) p))
joined_injective (String.◌∷◌ c s) (String.◌∷◌ d s') t t' p p' e =
    let first : c ≡ d = cc (joined-cons c s t, joined-cons d s' t', e) in
    let rest : joined s t ≡ joined s' t' = cc (joined-cons c s t, joined-cons d s' t', e) in
    let (heads, tails) = joined_injective s s' t t' (ground (arith, p)) (ground (arith, p')) rest in
    (cc (first, heads), tails)

abbrev in_key : ℕ → Bool
in_key c = is_lower c || is_digit c

key_rest-plain :
    (begun : Bool) (s : String) → key_rest in_key begun (codes s) ≡ true → plain s ≡ true
unfolding key_rest
key_rest-plain begun String.[] h = refl
key_rest-plain begun (String.◌∷◌ c s) h = ground (arith, key_rest-plain (in_key (code c)) s, h)

is_stable_key-plain : (s : String) → is_stable_key s ≡ true → plain s ≡ true
unfolding is_stable_key
is_stable_key-plain String.[] h = refl
is_stable_key-plain (String.◌∷◌ c s) h = ground (arith, key_rest-plain true s, h)

-- Two stable owners with their keys have one identity only if they are the same.
pub permission_identity_injective :
    (owner owner' key key' : String)
    → is_stable_key (trim_space owner) ≡ true
    → is_stable_key (trim_space owner') ≡ true
    → permission_identity owner key ≡ permission_identity owner' key'
    → (trim_space owner ≡ trim_space owner') × (trim_space key ≡ trim_space key')
permission_identity_injective owner owner' key key' stable stable' e =
    joined_injective (trim_space owner) (trim_space owner') (trim_space key) (trim_space key')
      (is_stable_key-plain (trim_space owner) stable)
      (is_stable_key-plain (trim_space owner') stable') e
