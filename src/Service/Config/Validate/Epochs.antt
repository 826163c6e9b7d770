-- ===== src/Service/Config/Validate/Epochs.antt =====
-- What the loop of Validate over the supported epochs ensures (internal/service/config.go).
use blindvault.Base.{◌≡◌, refl, true, false, List, [], ◌∷◌, Text, contains, All, IsDistinct, arith}
use blindvault.Service.Config.Validate.{ConfigError, epoch_errors}
use blindvault.Validation.{epoch}

-- An epoch that is well formed and none of those seen.
abbrev IsFresh : List Text → Text → Type 0
IsFresh seen e = (epoch e ≡ true) × (contains seen e ≡ false)

IsFresh-of_cons :
    (x : Text) (seen es : List Text) → All (IsFresh (x ∷ seen)) es → All (IsFresh seen) es
IsFresh-of_cons x seen [] h = tt
IsFresh-of_cons x seen (e ∷ es) h = ((h.0.0, ground arith), IsFresh-of_cons x seen es h.1)

absent_of_fresh :
    (x : Text) (seen es : List Text) → All (IsFresh (x ∷ seen)) es → contains es x ≡ false
absent_of_fresh x seen [] h = refl
absent_of_fresh x seen (e ∷ es) h = ground (arith, absent_of_fresh x seen es h.1)

IsFresh-of_no_errors :
    (seen es : List Text) (later : List ConfigError)
    → epoch_errors seen es later ≡ []
    → All (IsFresh seen) es × IsDistinct es × (later ≡ [])
unfolding epoch_errors
IsFresh-of_no_errors seen [] later h = (tt, tt, h)
IsFresh-of_no_errors seen (e ∷ es) later h =
    let (fresh, distinct, done) = IsFresh-of_no_errors (e ∷ seen) es later (ground arith) in
    (
      ((ground arith, ground arith), IsFresh-of_cons e seen es fresh),
      (absent_of_fresh e seen es fresh, distinct),
      done,
    )

valid_of_fresh : (es : List Text) → All (IsFresh []) es → All (λ e. epoch e ≡ true) es
valid_of_fresh [] h = tt
valid_of_fresh (e ∷ es) h = (h.0.0, valid_of_fresh es h.1)

-- The loop is silent only if every epoch is well formed, no two are equal, and nothing is found
-- after it.
pub epoch_errors_nil :
    (es : List Text) (later : List ConfigError)
    → epoch_errors [] es later ≡ []
    → All (λ e. epoch e ≡ true) es × IsDistinct es × (later ≡ [])
epoch_errors_nil es later h =
    let (fresh, distinct, done) = IsFresh-of_no_errors [] es later h in
    (valid_of_fresh es fresh, distinct, done)

IsFresh-step :
    (x : Text) (seen es : List Text)
    → All (IsFresh seen) es
    → contains es x ≡ false
    → All (IsFresh (x ∷ seen)) es
IsFresh-step x seen [] h n = tt
IsFresh-step x seen (e ∷ es) h n =
    ((h.0.0, ground arith), IsFresh-step x seen es h.1 (ground arith))

no_errors_of_fresh :
    (seen es : List Text) (later : List ConfigError)
    → All (IsFresh seen) es
    → IsDistinct es
    → epoch_errors seen es later ≡ later
unfolding epoch_errors
no_errors_of_fresh seen [] later h d = refl
no_errors_of_fresh seen (e ∷ es) later h d =
    rw (no_errors_of_fresh (e ∷ seen) es later (IsFresh-step e seen es h.1 d.0) d.1) (ground arith)

IsFresh-of_valid : (es : List Text) → All (λ e. epoch e ≡ true) es → All (IsFresh []) es
IsFresh-of_valid [] h = tt
IsFresh-of_valid (e ∷ es) h = ((h.0, refl), IsFresh-of_valid es h.1)

-- Well-formed epochs of which no two are equal pass the loop.
pub epoch_errors_of_distinct :
    (es : List Text) (later : List ConfigError)
    → All (λ e. epoch e ≡ true) es
    → IsDistinct es
    → epoch_errors [] es later ≡ later
epoch_errors_of_distinct es later v d = no_errors_of_fresh [] es later (IsFresh-of_valid es v) d
