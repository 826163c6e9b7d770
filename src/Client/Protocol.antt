-- ===== src/Client/Protocol.antt =====
-- The protocol from end to end: pkg/client/client.go against internal/service/credentials.go.
use blindvault.Base.{◌≡◌, refl, ◌∙◌, ap, ℕ, Option, none, some, true, false, Text, arith, []}
use blindvault.Apperr.{Result, ok, err, ok_of_bind}
use blindvault.Api.Handlers.Consume.{redemption}
use blindvault.Client.{redeem_request, BlindResult, blind, blind_point, unblind, read_point}
use blindvault.Client.State.{ClientState, Disk, pending, get, store, get-store}
use blindvault.Context.{Context, check_context}
use blindvault.Crypto.Blst.{Blst, Platform}
use blindvault.Crypto.Derive.{derive_signing_key}
use blindvault.Crypto.Engine.{hash_to_curve, blind_message, unblind_signature}
use blindvault.Crypto.Engine.RoundTrip.{
  deserialize_g1-compress1, mult1-mult1_inverse, new_random_scalar_nonzero,
  scalar_from_bytes-serialize,
}
use blindvault.Crypto.Laws.{IsEncoding, IsField, IsGroup, IsPairing}
use blindvault.Crypto.Scalar.{is_zero, new_random_scalar}
use blindvault.Service.Config.Seed.{master_seed, master_seed_twice}
use blindvault.Service.Credentials.{IssueResult, Service, accepted}
use blindvault.Service.Credentials.Consume.{admit, consume}
use blindvault.Service.Credentials.Consume.Acceptance.{consume_credential}
use blindvault.Service.Credentials.Issue.{read_blinded, issue_result, issue}
use blindvault.Service.Credentials.Issue.Correctness.{issue-IsIssued}
use blindvault.Service.Credentials.Points.{hex_g1, IsBytes, decode-hex_g1}
use blindvault.Storage.{NullifierStore, RevocationStore}

module _ (B : Blst) where
  -- What Blind has done when it reports no error.
  pub record IsBlinded (msg : Text) (out : Result (BlindResult B) × ClientState) (b : BlindResult B)
      : Type 0 where
    pub r : B.Scalar
    pub nonzero : is_zero B r ≡ false
    pub blinded : b.blinded ≡ B.mult1 b.witness r
    pub kept : get b.request_id out.1 ≡ ok (pending B r msg b.witness)
    pub member : B.in_g1 b.witness ≡ true

  module _ (F : IsField B) (E : IsEncoding B) where
    pub blind_point-IsBlinded :
        (dst : Option Text) (random : Result Text) (msg : Text) (point : B.G1) (r : B.Scalar)
        (blinded : B.G1)
        → blind_point B dst random msg ≡ ok (point, r, blinded)
        → (is_zero B r ≡ false) × (blinded ≡ B.mult1 point r) × (B.in_g1 point ≡ true)
    unfolding blind_point hash_to_curve blind_message
    blind_point-IsBlinded (some d) random msg point r blinded h =
        let (t, drawn, h1) = ok_of_bind (new_random_scalar B random) _ h in
        (
          new_random_scalar_nonzero B F random r (ground arith),
          ground arith,
          ground (arith, E.in_g1-hash_to_g1 msg d),
        )
    blind_point-IsBlinded none random msg point r blinded h = absurd (ground arith)

    pub blind-IsBlinded :
        (disk : Disk) (dst : Option Text) (random : Result Text) (id msg : Text) (s : ClientState)
        (b : BlindResult B)
        → (blind B disk dst random id msg s).0 ≡ ok b
        → IsBlinded msg (blind B disk dst random id msg s) b
    unfolding blind store
    blind-IsBlinded disk dst random id msg s b h = cases (blind_point B dst random msg) refl
      where
        cases :
            (p : Result (B.G1 × B.Scalar × B.G1))
            → blind_point B dst random msg ≡ p
            → IsBlinded msg (blind B disk dst random id msg s) b
        cases (err e) p = absurd (ground arith)
        cases (ok (point, r, blinded)) p =
            let (nonzero, product, member) =
              blind_point-IsBlinded dst random msg point r blinded p in
            record {
              r = r;
              nonzero = nonzero;
              blinded = ground (arith, product);
              kept = ground (arith, get-store B disk id id r msg point s);
              member = ground (arith, member);
            }

    -- Unblinding a signature of the blinded point gives the signature of the witness.
    unblind-IsBlinded :
        IsGroup B
        → (disk : Disk) (msg : Text) (out : Result (BlindResult B) × ClientState)
          (b : BlindResult B) (sk : B.Scalar)
        → IsBlinded msg out b
        → (unblind B disk b.request_id (B.mult1 b.blinded sk) out.1).0 ≡ ok (B.mult1 b.witness sk)
    unfolding unblind unblind_signature pending
    unblind-IsBlinded G disk msg out b sk h = ground (
      arith,
      h.kept,
      scalar_from_bytes-serialize B F h.r,
      ap (λ p. B.mult1 (B.mult1 p sk) (B.scalar_inverse h.r)) h.blinded
          ∙ mult1-mult1_inverse B G b.witness h.r sk h.member h.nonzero,
    )

module _ (P : Platform) (B : Blst) (E : IsEncoding B) (W : IsBytes B) where
  pub read_point-hex_g1 : (p : B.G1) → B.in_g1 p ≡ true → read_point B (hex_g1 B p) ≡ ok p
  unfolding read_point
  read_point-hex_g1 p h = ground (arith, decode-hex_g1 B W p, deserialize_g1-compress1 B E p h)

  -- The server reads the point that a client has written.
  pub read_blinded-hex_g1 :
      (ctx : Context) (p q : B.G1) (class : Text)
      → B.in_g1 p ≡ true
      → read_blinded P B ctx (hex_g1 B p) class ≡ ok q
      → q ≡ p
  unfolding read_blinded
  read_blinded-hex_g1 ctx p q class h e =
      ground (arith, decode-hex_g1 B W p, deserialize_g1-compress1 B E p h)

module _ (P : Platform) (B : Blst) (G : IsGroup B) (F : IsField B) (E : IsEncoding B)
    (W : IsBytes B) where
  -- What the client holds at the end of the issuance.
  pub record IsHeld (disk : Disk) (b : BlindResult B) (st : ClientState) (epoch class : Text)
      (seed : Result P.Enclave) (result : IssueResult) : Type 0 where
    pub blind_sig : B.G1
    pub text : result.blind_signature ≡ hex_g1 B blind_sig
    pub inside : B.in_g1 blind_sig ≡ true
    pub read : read_point B result.blind_signature ≡ ok blind_sig
    pub enclave : P.Enclave
    pub opened : seed ≡ ok enclave
    pub sk : B.Scalar
    pub key : derive_signing_key P B (some enclave) epoch class ≡ ok sk
    pub unblinded : (unblind B disk b.request_id blind_sig st).0 ≡ ok (B.mult1 b.witness sk)
    pub member : B.in_g1 b.witness ≡ true

  module _ {N : NullifierStore} {V : RevocationStore} where
    -- When the server has answered the request for a point that a client has blinded, the client reads
    -- the blind signature and unblinds it to the signature of its witness, under the key of the
    -- active epoch and the class.
    pub issue-IsHeld :
        (disk : Disk) (msg : Text) (out : Result (BlindResult B) × ClientState) (b : BlindResult B)
        → IsBlinded B msg out b
        → (ctx : Context) (server_random : Result Text) (class : Text) (s : Service P N V)
          (result : IssueResult)
        → (issue P B ctx server_random (hex_g1 B b.blinded) class s).0 ≡ ok result
        → IsHeld disk b out.1 s.config.active_epoch class (master_seed P s.config).0 result
    unfolding issue_result
    issue-IsHeld disk msg out b h ctx server_random class s result issues =
        let i = issue-IsIssued P B G ctx server_random (hex_g1 B b.blinded) class s result issues in
        let inside : B.in_g1 b.blinded ≡ true =
          rw h.blinded (E.in_g1-mult1 b.witness h.r h.member) in
        let same : i.blinded ≡ b.blinded =
          read_blinded-hex_g1 P B E W ctx b.blinded i.blinded class inside i.read in
        record {
          blind_sig = B.mult1 b.blinded i.sk;
          text = rw (i.response, same) refl;
          inside = E.in_g1-mult1 b.blinded i.sk inside;
          read =
              rw (i.response, same)
                (read_point-hex_g1 P B E W (B.mult1 b.blinded i.sk)
                  (E.in_g1-mult1 b.blinded i.sk inside));
          enclave = i.enclave;
          opened = i.opened;
          sk = i.sk;
          key = i.key;
          unblinded = unblind-IsBlinded B F E G disk msg out b i.sk h;
          member = h.member;
        }

    -- Issuing keeps the seed that a later redemption reads.
    pub issue-master_seed :
        (ctx : Context) (random : Result Text) (blinded_hex class : Text) (s : Service P N V)
        → (master_seed P (issue P B ctx random blinded_hex class s).1.config).0
          ≡ (master_seed P s.config).0
    unfolding issue
    issue-master_seed ctx random blinded_hex class s = ground (arith, master_seed_twice P s.config)

    module _ (Q : IsPairing B) where
      -- What the client holds is accepted by the server.
      pub consume-IsHeld :
          (disk : Disk) (b : BlindResult B) (st : ClientState) (ctx ctx' : Context)
          (server_random : Result Text) (class : Text) (s : Service P N V) (result : IssueResult)
          (now : ℕ)
          (h : IsHeld disk b st s.config.active_epoch class (master_seed P s.config).0 result)
          → let t = (issue P B ctx server_random (hex_g1 B b.blinded) class s).1 in
            admit P B now class s.config.active_epoch t ≡ ok none
            → ((k : Text)
                → (N.check_and_store
                    (record { done = check_context ctx' 1; now = now })
                    k
                    t.store).0
                  ≡ ok true)
            → check_context ctx' 0 ≡ none
            → (consume P B ctx' now
                (redemption
                  (redeem_request B (B.mult1 b.witness h.sk) b.witness class s.config.active_epoch))
                t).0
              ≡ ok (record { status = accepted; error = [] })
      unfolding redemption redeem_request
      consume-IsHeld disk b st ctx ctx' server_random class s result now h admitted fresh live =
          consume_credential P B E W Q ctx' now b.witness h.sk class s.config.active_epoch h.enclave
            (issue P B ctx server_random (hex_g1 B b.blinded) class s).1 admitted
            (issue-master_seed ctx server_random (hex_g1 B b.blinded) class s ∙ h.opened) h.key live
            h.member (fresh _)

      -- A credential that was blinded by the client, issued by the server and unblinded by the client is
      -- accepted by that server, if the class and the active epoch are admitted, the store takes every
      -- nullifier as new and the request is not cancelled.
      pub redeem-unblind-issue-blind :
          (disk : Disk) (dst : Option Text) (random : Result Text) (id msg : Text)
          (st : ClientState) (b : BlindResult B) (ctx ctx' : Context) (server_random : Result Text)
          (class : Text) (s : Service P N V) (result : IssueResult) (blind_sig sig : B.G1) (now : ℕ)
          → (blind B disk dst random id msg st).0 ≡ ok b
          → (issue P B ctx server_random (hex_g1 B b.blinded) class s).0 ≡ ok result
          → read_point B result.blind_signature ≡ ok blind_sig
          → (unblind B disk b.request_id blind_sig (blind B disk dst random id msg st).1).0 ≡ ok sig
          → let t = (issue P B ctx server_random (hex_g1 B b.blinded) class s).1 in
            admit P B now class s.config.active_epoch t ≡ ok none
            → ((k : Text)
                → (N.check_and_store
                    (record { done = check_context ctx' 1; now = now })
                    k
                    t.store).0
                  ≡ ok true)
            → check_context ctx' 0 ≡ none
            → (consume P B ctx' now
                (redemption (redeem_request B sig b.witness class s.config.active_epoch))
                t).0
              ≡ ok (record { status = accepted; error = [] })
      redeem-unblind-issue-blind disk dst random id msg st b ctx ctx' server_random class s result
            blind_sig sig now blinds issues reads unblinds admitted fresh live =
          let h =
            issue-IsHeld disk msg (blind B disk dst random id msg st) b
              (blind-IsBlinded B F E disk dst random id msg st b blinds) ctx server_random class s
              result issues in
          let same : sig ≡ B.mult1 b.witness h.sk = ground (arith, h.read, h.unblinded) in
          rw same (
            consume-IsHeld disk b (blind B disk dst random id msg st).1 ctx ctx' server_random class
              s result now h admitted fresh live)
