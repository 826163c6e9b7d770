-- ===== src/Service/Credentials/Consume/OneTime.antt =====
-- What each outcome of Consume does to the set of nullifiers (internal/service/credentials.go).
use blindvault.Base.{
  ◌≡◌, refl, ℕ, Bool, true, false, ◌&&◌, ◌||◌, Option, none, some, Text, ◌==◌, arith,
}
use blindvault.Apperr.{Result, ok, err}
use blindvault.Context.{Context, Call, check_context}
use blindvault.Crypto.Blst.{Blst, Platform}
use blindvault.Crypto.Nullifier.{compute_nullifier}
use blindvault.Service.Config.Seed.{master_seed}
use blindvault.Service.Credentials.{Service, ConsumeResult}
use blindvault.Service.Credentials.Consume.{
  Redemption, read_points, verify_credential, admit, spend, redeem, consume,
}
use blindvault.Service.Credentials.Consume.Outcome.{was_accepted, nullifier_of, admit-revoked}
use blindvault.Storage.{NullifierStore, RevocationStore}
use blindvault.Storage.Contract.{IsNullifierSet}

-- `k` is the nullifier `n`.
abbrev pub marks : Option Text → Text → Bool
marks none j = false
marks (some k) j = k == j

-- the nullifier of a request, from the result of `read_points`
abbrev key_of : (P : Platform) (B : Blst) → Redemption → Result (B.G1 × B.G1) → Option Text
key_of P B r p = elim p [
  | err e ↦ none
  | ok (sig, witness) ↦ some (compute_nullifier P B r.epoch r.class sig)
]

module _ (P : Platform) (B : Blst) {N : NullifierStore} {V : RevocationStore}
    (S : IsNullifierSet N) where
  abbrev pub holds : Service P N V → Text → Bool
  holds s k = S.holds s.store k

  -- What an outcome did to the nullifiers: exactly the nullifier of an accepted request is added,
  -- and it was not there before.
  pub record IsSpent (k : Option Text) (s : Service P N V)
      (out : Result ConsumeResult × Service P N V) : Type 0 where
    pub added : (j : Text) → holds out.1 j ≡ ((was_accepted out.0 && marks k j) || holds s j)
    pub fresh : (j : Text) → was_accepted out.0 ≡ true → marks k j ≡ true → holds s j ≡ false
    pub known : was_accepted out.0 ≡ true → (n : Text) × (k ≡ some n)

  -- The last step of Consume already has that effect, whatever was checked before it.
  pub spend-IsSpent :
      (ctx : Context) (now : ℕ) (sig : B.G1) (class epoch : Text) (s : Service P N V)
      → IsSpent
          (some (compute_nullifier P B epoch class sig))
          s
          (spend P B ctx now sig class epoch s)
  unfolding spend
  spend-IsSpent ctx now sig class epoch s = answer_cases (N.check_and_store call n s.store).0 refl
    where
      n : Text
      n = compute_nullifier P B epoch class sig

      call : Call
      call = record { done = check_context ctx 1; now = now }

      answer_cases :
          (a : Result Bool)
          → (N.check_and_store call n s.store).0 ≡ a
          → IsSpent (some n) s (spend P B ctx now sig class epoch s)
      answer_cases (err e) p = record {
        added = λ j. ground (arith, S.failed call n j s.store e p);
        fresh = λ j h m. absurd (ground arith);
        known = λ h. (n, refl);
      }
      answer_cases (ok false) p = record {
        added =
            λ j. ground (arith, S.stored call n j s.store false p, S.answer call n s.store false p);
        fresh = λ j h m. absurd (ground arith);
        known = λ h. (n, refl);
      }
      answer_cases (ok true) p = record {
        added = λ j. ground (arith, S.stored call n j s.store true p);
        fresh = λ j h m. ground (arith, S.answer call n s.store true p);
        known = λ h. (n, refl);
      }

  unspent :
      (k : Option Text) (s t : Service P N V) (r : Result ConsumeResult)
      → was_accepted r ≡ false
      → t.store ≡ s.store
      → IsSpent k s (r, t)
  unspent k s t r refused same = record {
    added = λ j. ground arith;
    fresh = λ j h m. cc;
    known = λ h. cc;
  }

  redeem-IsSpent :
      (ctx : Context) (now : ℕ) (sig witness : B.G1) (class epoch : Text) (s : Service P N V)
      → IsSpent
          (some (compute_nullifier P B epoch class sig))
          s
          (redeem P B ctx now sig witness class epoch s)
  unfolding redeem
  redeem-IsSpent ctx now sig witness class epoch s =
      let seeded = master_seed P s.config in
      let s' : Service P N V = record s { config = seeded.1 } in
      cases (verify_credential P B ctx sig witness class epoch seeded.0) s' refl
    where
      cases :
          (v : Result (Unit {0})) (s' : Service P N V)
          → s'.store ≡ s.store
          → IsSpent
              (some (compute_nullifier P B epoch class sig))
              s
              (elim v [ err e ↦ (err e, s') | ok _ ↦ spend P B ctx now sig class epoch s' ])
      cases (err e) s' same = unspent _ s s' (err e) refl same
      cases (ok u) s' same =
          let e = spend-IsSpent ctx now sig class epoch s' in
          record {
            added = λ j. ground (arith, e.added j);
            fresh = λ j h m. ground (arith, e.fresh j h m);
            known = e.known;
          }

  -- Consume and the nullifier, from the results of `admit` and `read_points`.
  abbrev outcome :
      Context
      → ℕ
      → Redemption
      → Service P N V
      → Result (Option ConsumeResult)
      → Result (B.G1 × B.G1)
      → Result ConsumeResult × Service P N V
  outcome ctx now r s a p = elim a [
    | err e ↦ (err e, s)
    | ok (some result) ↦ (ok result, s)
    | ok none ↦ elim p [
      | err e ↦ (err e, s)
      | ok (sig, witness) ↦ redeem P B ctx now sig witness r.class r.epoch s
    ]
  ]

  -- After any request the store holds exactly what it held, and the nullifier of the request if
  -- that was accepted; then it was not held before. A request that is refused, for whatever reason,
  -- spends nothing.
  pub consume-IsSpent :
      (ctx : Context) (now : ℕ) (r : Redemption) (s : Service P N V)
      → IsSpent (nullifier_of P B r) s (consume P B ctx now r s)
  unfolding consume nullifier_of
  consume-IsSpent ctx now r s = admit_cases (admit P B now r.class r.epoch s) refl
    where
      points_cases :
          (p : Result (B.G1 × B.G1)) → IsSpent (key_of P B r p) s (outcome ctx now r s (ok none) p)
      points_cases (err e) = unspent none s s (err e) refl refl
      points_cases (ok (sig, witness)) = redeem-IsSpent ctx now sig witness r.class r.epoch s

      admit_cases :
          (a : Result (Option ConsumeResult))
          → admit P B now r.class r.epoch s ≡ a
          → IsSpent
              (key_of P B r (read_points P B r.signature r.witness))
              s
              (outcome ctx now r s a (read_points P B r.signature r.witness))
      admit_cases (err e) p = unspent _ s s (err e) refl refl
      admit_cases (ok (some result)) p =
          unspent _ s s (ok result)
            (ground (arith, admit-revoked P B now r.class r.epoch s result p)) refl
      admit_cases (ok none) p = points_cases (read_points P B r.signature r.witness)
