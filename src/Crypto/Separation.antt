-- ===== src/Crypto/Separation.antt =====
-- The zero bytes in the key-derivation info (pkg/crypto/derive.go) and in the input of the
-- nullifier (nullifier.go) keep epochs and classes apart.
use blindvault.Base.{ℕ, ◌≡◌, refl, ◌≢◌, [], ◌∷◌, ◌++◌, Text, All}
use blindvault.Crypto.Derive.{key_info}
use blindvault.Crypto.Nullifier.{nullifier_input}

-- No zero byte occurs in the text.
abbrev pub NoNul : Text → Type 0
NoNul = All (λ b. b ≢ 0)

-- The text in front of the first zero byte, and the text behind it, can be read off.
pub split_nul :
    (a b s t : Text) → NoNul a → NoNul b → a ++ (0 ∷ s) ≡ b ++ (0 ∷ t) → (a ≡ b) × (s ≡ t)
split_nul [] [] s t _ _ h = (refl, cc)
split_nul [] (y ∷ b) s t _ nb h = absurd (nb.0 (cc))
split_nul (x ∷ a) [] s t na _ h = absurd (na.0 (cc))
split_nul (x ∷ a) (y ∷ b) s t na nb h =
    let rest = split_nul a b s t na.1 nb.1 (cc) in (cc (rest.0), rest.1)

append_cancel : (a s t : Text) → a ++ s ≡ a ++ t → s ≡ t
append_cancel [] s t h = h
append_cancel (x ∷ a) s t h = append_cancel a s t (cc)

drop_last : (s t : Text) (b : ℕ) → s ++ (b ∷ []) ≡ t ++ (b ∷ []) → s ≡ t
drop_last [] [] b h = refl
drop_last [] (y ∷ []) b h = cc
drop_last [] (y ∷ z ∷ t) b h = cc
drop_last (x ∷ []) [] b h = cc
drop_last (x ∷ z ∷ s) [] b h = cc
drop_last (x ∷ s) (y ∷ t) b h = cc (drop_last s t b (cc))

-- Two credentials have the same hash input only if epoch, class and signature bytes all agree,
-- where epochs and classes hold no zero byte.
pub nullifier_input_injective :
    (epoch class sig epoch' class' sig' : Text)
    → NoNul epoch
    → NoNul class
    → NoNul epoch'
    → NoNul class'
    → nullifier_input epoch class sig ≡ nullifier_input epoch' class' sig'
    → (epoch ≡ epoch') × (class ≡ class') × (sig ≡ sig')
unfolding nullifier_input
nullifier_input_injective epoch class sig epoch' class' sig' ne nc ne' nc' h =
    let (same_epoch, rest) = split_nul epoch epoch' _ _ ne ne' (cc) in
    let (same_class, tail) = split_nul class class' _ _ nc nc' rest in
    (same_epoch, same_class, drop_last sig sig' 1 tail)

-- Two signing keys are derived from the same info only if epoch and class both agree, where epochs
-- hold no zero byte.
pub key_info_injective :
    (epoch class epoch' class' : Text)
    → NoNul epoch
    → NoNul epoch'
    → key_info epoch class ≡ key_info epoch' class'
    → (epoch ≡ epoch') × (class ≡ class')
unfolding key_info
key_info_injective epoch class epoch' class' ne ne' h = split_nul epoch epoch' _ _ ne ne' (cc)
