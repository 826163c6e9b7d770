-- ===== src/Service/Credentials/Consume/Sequence.antt =====
-- No nullifier is accepted twice, in any order of redemptions, issuances and changes of the
-- revocations (internal/service/credentials.go).
use blindvault.Base.{
  ◌≡◌, refl, ℕ, true, false, ◌||◌, Option, none, some, List, [], ◌∷◌, Text, All, contains,
  IsDistinct, arith, if◌then◌else◌,
}
use blindvault.Apperr.{Result}
use blindvault.Context.{Context}
use blindvault.Crypto.Blst.{Blst, Platform}
use blindvault.Crypto.Nullifier.{compute_nullifier}
use blindvault.Service.Config.Seed.{master_seed}
use blindvault.Service.Credentials.{Service}
use blindvault.Service.Credentials.Consume.{Redemption, spend, consume}
use blindvault.Service.Credentials.Consume.Outcome.{was_accepted, nullifier_of}
use blindvault.Service.Credentials.Issue.{issue}
use blindvault.Storage.{NullifierStore, RevocationStore}
use blindvault.Storage.Contract.{IsNullifierSet}
use blindvault.Service.Credentials.Consume.OneTime.{spend-IsSpent, consume-IsSpent, marks}

abbrev pub add_spent : Option Text → List Text → List Text
add_spent none ks = ks
add_spent (some k) ks = k ∷ ks

module _ (P : Platform) (B : Blst) {N : NullifierStore} {V : RevocationStore}
    (S : IsNullifierSet N) where
  -- The nullifier that a request spends, if it is accepted.
  abbrev pub spent : Context → ℕ → Redemption → Service P N V → Option Text
  spent ctx now r s = if was_accepted (consume P B ctx now r s).0 then nullifier_of P B r else none

  -- The nullifier that the last step of a redemption spends, if the store takes it.
  abbrev pub spent_last : Context → ℕ → B.G1 → Text → Text → Service P N V → Option Text
  spent_last ctx now sig class epoch s =
      if was_accepted (spend P B ctx now sig class epoch s).0
      then some (compute_nullifier P B epoch class sig)
      else none

  -- One operation on the service, with the nullifier that it spends. Of a redemption only the call
  -- of CheckAndStore needs to be one step: `spends` is the end of a redemption whose checks were
  -- made in earlier states, while other requests ran, and `seals` is its call of MasterSeed.
  pub data Step : Service P N V → Service P N V → Option Text → Type 0 where
    redeems :
        (ctx : Context) (now : ℕ) (r : Redemption) (s : Service P N V)
        → Step s (consume P B ctx now r s).1 (spent ctx now r s)
    spends :
        (ctx : Context) (now : ℕ) (sig : B.G1) (class epoch : Text) (s : Service P N V)
        → Step s (spend P B ctx now sig class epoch s).1 (spent_last ctx now sig class epoch s)
    seals : (s : Service P N V) → Step s (record s { config = (master_seed P s.config).1 }) none
    issues :
        (ctx : Context) (random : Result Text) (blinded class : Text) (s : Service P N V)
        → Step s (issue P B ctx random blinded class s).1 none
    administers :
        (v : Option V.State) (s : Service P N V) → Step s (record s { revocation_store = v }) none

  -- Any sequence of operations, with the nullifiers that were spent, in order.
  pub data Run : Service P N V → Service P N V → List Text → Type 0 where
    stop : (s : Service P N V) → Run s s []
    step :
        {s t u : Service P N V} {k : Option Text} {ks : List Text}
        → Step s t k
        → Run t u ks
        → Run s u (add_spent k ks)

  -- The effect of a step on the set of nullifiers.
  record Extends (s t : Service P N V) (k : Option Text) : Type 0 where
    added : (j : Text) → S.holds t.store j ≡ (marks k j || S.holds s.store j)
    fresh : (j : Text) → marks k j ≡ true → S.holds s.store j ≡ false

  Step-Extends : {s t : Service P N V} {k : Option Text} → Step s t k → Extends s t k
  Step-Extends (redeems ctx now r s) =
      let e = consume-IsSpent P B S ctx now r s in
      record { added = λ j. ground (arith, e.added j); fresh = λ j m. ground (arith, e.fresh j) }
  Step-Extends (spends ctx now sig class epoch s) =
      let e = spend-IsSpent P B S ctx now sig class epoch s in
      record { added = λ j. ground (arith, e.added j); fresh = λ j m. ground (arith, e.fresh j) }
  Step-Extends (seals s) = record { added = λ j. refl; fresh = λ j m. cc }
  Step-Extends (issues ctx random blinded class s) =
      unfold issue in record { added = λ j. ground arith; fresh = λ j m. cc }
  Step-Extends (administers v s) = record { added = λ j. refl; fresh = λ j m. cc }

  abbrev Unheld : Service P N V → List Text → Type 0
  Unheld s = All (λ k. S.holds s.store k ≡ false)

  Unheld-before :
      {s t : Service P N V} {k : Option Text} (ks : List Text)
      → Extends s t k
      → Unheld t ks
      → Unheld s ks
  Unheld-before [] e h = tt
  Unheld-before (j ∷ ks) e h = (ground (arith, e.added j), Unheld-before ks e h.1)

  absent :
      {s t : Service P N V} (k : Text) (ks : List Text)
      → Extends s t (some k)
      → Unheld t ks
      → contains ks k ≡ false
  absent k [] e h = refl
  absent k (j ∷ ks) e h = ground (arith, e.added j, absent k ks e h.1)

  extend_run :
      {s t : Service P N V} (k : Option Text) (ks : List Text)
      → Extends s t k
      → Unheld t ks × IsDistinct ks
      → Unheld s (add_spent k ks) × IsDistinct (add_spent k ks)
  extend_run none ks e h = (Unheld-before ks e h.0, h.1)
  extend_run (some k) ks e h =
      ((ground (arith, e.fresh k), Unheld-before ks e h.0), (absent k ks e h.0, h.1))

  -- In any sequence of operations, the last steps of concurrent redemptions among them, every
  -- nullifier that is spent was not held at the start, and none is spent twice.
  pub Run-IsDistinct :
      {s t : Service P N V} {ks : List Text} → Run s t ks → Unheld s ks × IsDistinct ks
  Run-IsDistinct (stop s) = (tt, tt)
  Run-IsDistinct (step {k = k} {ks = ks} st rest) =
      extend_run k ks (Step-Extends st) (Run-IsDistinct rest)
