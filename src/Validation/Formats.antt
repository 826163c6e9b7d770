-- ===== src/Validation/Formats.antt =====
-- What a valid class and a valid epoch cannot contain: the separators of keys and hashes.
use blindvault.Base.{ℕ, ◌≡◌, refl, ◌≢◌, true, false, is_empty, [], ◌∷◌, Text, All, arith}
use blindvault.Crypto.Separation.{NoNul}
use blindvault.Validation.{is_class_char, all_chars, epoch, class}

-- No byte of the text is the colon of the revocation keys.
abbrev pub NoColon : Text → Type 0
NoColon = All (λ b. b ≢ b':')

class_char_bounds : (c : ℕ) → is_class_char c ≡ true → (c ≢ 0) × (c ≢ b':')
unfolding is_class_char
class_char_bounds c h = ground arith

chars-NoNul : (s : Text) → all_chars is_class_char s ≡ true → NoNul s
unfolding all_chars
chars-NoNul [] h = tt
chars-NoNul (c ∷ s) h = ((class_char_bounds c (ground arith)).0, chars-NoNul s (ground arith))

chars-NoColon : (s : Text) → all_chars is_class_char s ≡ true → NoColon s
unfolding all_chars
chars-NoColon [] h = tt
chars-NoColon (c ∷ s) h = ((class_char_bounds c (ground arith)).1, chars-NoColon s (ground arith))

class_chars : (s : Text) → class s ≡ true → all_chars is_class_char s ≡ true
unfolding class
class_chars s h = ground arith

pub class-NoNul : (s : Text) → class s ≡ true → NoNul s
class-NoNul s h = chars-NoNul s (class_chars s h)

pub class-NoColon : (s : Text) → class s ≡ true → NoColon s
class-NoColon s h = chars-NoColon s (class_chars s h)

pub class_nonempty : (s : Text) → class s ≡ true → s ≢ []
unfolding class
class_nonempty [] h = cc
class_nonempty (c ∷ s) h = λ e. cc

pub epoch-NoNul : (s : Text) → epoch s ≡ true → NoNul s
unfolding epoch
epoch-NoNul (a ∷ b ∷ c ∷ d ∷ e ∷ f ∷ g ∷ []) h = ground arith
epoch-NoNul _ h = cc

pub epoch_nonempty : (s : Text) → epoch s ≡ true → is_empty s ≡ false
unfolding epoch
epoch_nonempty [] h = cc
epoch_nonempty (c ∷ s) h = refl
