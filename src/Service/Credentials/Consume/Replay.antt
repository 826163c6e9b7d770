-- ===== src/Service/Credentials/Consume/Replay.antt =====
-- A credential that was redeemed, presented again (internal/service/credentials.go).
use blindvault.Base.{◌≡◌, ◌∙◌, ap, ℕ, Bool, true, none, some, Text, bytes, arith, ==-refl}
use blindvault.Apperr.{ok}
use blindvault.Context.{Context, check_context}
use blindvault.Crypto.Blst.{Blst, Platform}
use blindvault.Crypto.Nullifier.{compute_nullifier}
use blindvault.Service.Config.Seed.{master_seed, master_seed_twice}
use blindvault.Service.Credentials.{Service, ConsumeResult, duplicate}
use blindvault.Service.Credentials.Consume.{
  Redemption, verify_credential, admit, settle, spend, redeem, consume,
}
use blindvault.Service.Credentials.Consume.OneTime.{consume-IsSpent}
use blindvault.Service.Credentials.Consume.Outcome.{
  IsVerified, was_accepted, nullifier_of, consume-IsVerified,
}
use blindvault.Storage.{NullifierStore, RevocationStore}
use blindvault.Storage.Contract.{IsNullifierSet}

-- What a request for a redeemed credential gets.
abbrev pub already_redeemed : ConsumeResult
already_redeemed = record { status = duplicate; error = bytes "credential already redeemed" }

module _ (P : Platform) (B : Blst) {N : NullifierStore} {V : RevocationStore} where
  verify_credential-IsVerified :
      (now : ℕ) (r : Redemption) (s : Service P N V) (ctx : Context)
      → (v : IsVerified P B now r s) → check_context ctx 0 ≡ none
      → verify_credential P B ctx v.sig v.witness r.class r.epoch (master_seed P s.config).0 ≡ ok tt
  unfolding verify_credential
  verify_credential-IsVerified now r s ctx v live = ground (arith, v.seed, v.key, v.valid)

  -- The nullifier under which a verified request is remembered.
  abbrev key : (now : ℕ) (r : Redemption) (s : Service P N V) → IsVerified P B now r s → Text
  key now r s v = compute_nullifier P B r.epoch r.class v.sig

  module _ (S : IsNullifierSet N) where
    -- A verified request is a duplicate at a later service with the same seed whose store holds its
    -- nullifier.
    pub consume-held :
        (now later : ℕ) (r : Redemption) (s t : Service P N V) (ctx : Context) (b : Bool)
        → (v : IsVerified P B now r s) → (master_seed P t.config).0 ≡ (master_seed P s.config).0
        → admit P B later r.class r.epoch t ≡ ok none
        → check_context ctx 0 ≡ none
        → S.holds t.store (key now r s v) ≡ true
        → (N.check_and_store
            (record { done = check_context ctx 1; now = later })
            (key now r s v)
            t.store).0
          ≡ ok b
        → (consume P B ctx later r t).0 ≡ ok already_redeemed
    unfolding consume redeem spend settle
    consume-held now later r s t ctx b v seed admitted live held answered = ground (
      arith,
      v.points,
      verify_credential-IsVerified now r s ctx v live,
      S.answer (record { done = check_context ctx 1; now = later }) (key now r s v) t.store b
          answered,
    )

    consume-key :
        (ctx : Context) (now : ℕ) (r : Redemption) (s : Service P N V)
        → (v : IsVerified P B now r s) → was_accepted (consume P B ctx now r s).0 ≡ true
        → S.holds (consume P B ctx now r s).1.store (key now r s v) ≡ true
    unfolding nullifier_of
    consume-key ctx now r s v accepts = ground (
      arith,
      v.points,
      (consume-IsSpent P B S ctx now r s).added (key now r s v),
      ==-refl (key now r s v),
    )

    consume-master_seed :
        (ctx : Context) (now : ℕ) (r : Redemption) (s : Service P N V)
        → (master_seed P (consume P B ctx now r s).1.config).0 ≡ (master_seed P s.config).0
    unfolding consume redeem spend settle
    consume-master_seed ctx now r s = ground (arith, master_seed_twice P s.config)

    -- A request that was accepted is answered as a duplicate when it is made again, if its class is
    -- still admitted then, the second request is not cancelled and the store answers it.
    pub consume_twice :
        (ctx ctx' : Context) (now later : ℕ) (r : Redemption) (s : Service P N V) (b : Bool)
        (k : Text)
        → let t = (consume P B ctx now r s).1 in
          was_accepted (consume P B ctx now r s).0 ≡ true
          → nullifier_of P B r ≡ some k
          → admit P B later r.class r.epoch t ≡ ok none
          → check_context ctx' 0 ≡ none
          → (N.check_and_store (record { done = check_context ctx' 1; now = later }) k t.store).0
            ≡ ok b
          → (consume P B ctx' later r t).0 ≡ ok already_redeemed
    unfolding nullifier_of
    consume_twice ctx ctx' now later r s b k accepts named admitted live answered =
        let v = consume-IsVerified P B ctx now r s accepts in
        let same : key now r s v ≡ k = ground (arith, v.points) in
        consume-held now later r s (consume P B ctx now r s).1 ctx' b v
          (consume-master_seed ctx now r s) admitted live (consume-key ctx now r s v accepts)
          (ap
              (λ x.
                (N.check_and_store (record { done = check_context ctx' 1; now = later }) x
                  (consume P B ctx now r s).1.store).0)
              same
            ∙ answered)
