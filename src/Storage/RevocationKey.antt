-- ===== src/Storage/RevocationKey.antt =====
-- The keys under which the two revocation stores keep an entry.
use blindvault.Base.{◌≡◌, refl, ◌≢◌, ◌++◌, [], ◌∷◌, Text, bytes, is_empty, if◌then◌else◌}
use blindvault.Validation.Formats.{NoColon}

-- InMemoryRevocationStore.revocationKey
unfoldable pub revocation_key : Text → Text → Text
revocation_key class epoch =
    if is_empty epoch
    then bytes "revoke:" ++ class
    else bytes "revoke:" ++ (class ++ (bytes ":" ++ epoch))

-- RedisRevocationStore.revocationKey
unfoldable pub redis_revocation_key : Text → Text → Text
redis_revocation_key class epoch =
    if is_empty epoch
    then bytes "revoke:" ++ (class ++ bytes ":all")
    else bytes "revoke:" ++ (class ++ (bytes ":" ++ epoch))

split_colon :
    (a b s t : Text) → NoColon a → NoColon b → a ++ (b':' ∷ s) ≡ b ++ (b':' ∷ t) → (a ≡ b) × (s ≡ t)
split_colon [] [] s t _ _ h = (refl, cc)
split_colon [] (y ∷ b) s t _ nb h = absurd (nb.0 (cc))
split_colon (x ∷ a) [] s t na _ h = absurd (na.0 (cc))
split_colon (x ∷ a) (y ∷ b) s t na nb h =
    let rest = split_colon a b s t na.1 nb.1 (cc) in (cc (rest.0), rest.1)

NoColon-inside : (a b s : Text) → NoColon a → a ≢ b ++ (b':' ∷ s)
NoColon-inside [] [] s na h = cc
NoColon-inside [] (y ∷ b) s na h = cc
NoColon-inside (x ∷ a) [] s na h = na.0 (cc)
NoColon-inside (x ∷ a) (y ∷ b) s na h = NoColon-inside a b s na.1 (cc)

-- In the memory store two keys agree only if class and epoch agree, for classes without a colon.
pub revocation_key_injective :
    (class epoch class' epoch' : Text)
    → NoColon class
    → NoColon class'
    → revocation_key class epoch ≡ revocation_key class' epoch'
    → (class ≡ class') × (epoch ≡ epoch')
unfolding revocation_key
revocation_key_injective class [] class' [] nc nc' h = (cc, refl)
revocation_key_injective class [] class' (e' ∷ es') nc nc' h =
    absurd (NoColon-inside class class' (e' ∷ es') nc (cc))
revocation_key_injective class (e ∷ es) class' [] nc nc' h =
    absurd (NoColon-inside class' class (e ∷ es) nc' (cc))
revocation_key_injective class (e ∷ es) class' (e' ∷ es') nc nc' h =
    split_colon class class' (e ∷ es) (e' ∷ es') nc nc' (cc)
