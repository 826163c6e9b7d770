-- ===== src/Commands/Verify/Issued.antt =====
-- verifyCmd (cmd/bv/verify.go) on what Issue answered (internal/service/credentials.go).
use blindvault.Base.{
  ◌≡◌, refl, sym, lookup, insert, Text_discrete, true, false, [], ◌∷◌, List, Text, bytes, is_empty,
  length, arith,
}
use blindvault.Apperr.{Result, ok}
use blindvault.Client.{verify_proof}
use blindvault.Client.Protocol.{read_blinded-hex_g1}
use blindvault.Client.Files.{Os}
use blindvault.Commands.{Client, exit, line, new_client, must}
use blindvault.Commands.Flags.{flag, parse, with_parsed}
use blindvault.Commands.Points.{ProofTexts, read_proof}
use blindvault.Commands.Verify.{proof_texts, some_missing, report_proof, verify_texts, verify_cmd}
use blindvault.Context.{Context}
use blindvault.Crypto.Blst.{Blst, Platform}
use blindvault.Crypto.Dleq.{DleqProof}
use blindvault.Crypto.Engine.RoundTrip.{
  deserialize_g1-compress1, deserialize_g2-compress2, scalar_from_bytes-serialize,
}
use blindvault.Crypto.Laws.{IsEncoding, IsField, IsGroup}
use blindvault.Crypto.Scalar.{pub_key}
use blindvault.Service.Credentials.{IssueResult, Service}
use blindvault.Service.Credentials.Issue.{issue_result, issue}
use blindvault.Service.Credentials.Issue.Correctness.{issue-IsIssued}
use blindvault.Service.Credentials.Points.{IsBytes, hex_g1}
use blindvault.Storage.{NullifierStore, RevocationStore}
use blindvault.Validation.Hex.{encode_to_string, decode_string-encode}

-- The arguments for a blinded point, and for what the server answered to it.
abbrev pub verify_args : Text → IssueResult → List Text
verify_args blinded r =
    bytes "--blinded"
    ∷ (blinded
        ∷ (bytes "--signature"
            ∷ (r.blind_signature
                ∷ (bytes "--public-key"
                    ∷ (r.public_key
                        ∷ (bytes "--proof-r1"
                            ∷ (r.proof_r1
                                ∷ (bytes "--proof-r2"
                                    ∷ (r.proof_r2
                                        ∷ (bytes "--proof-s"
                                            ∷ (r.proof_s
                                                ∷ (bytes "--proof-c" ∷ (r.proof_c ∷ [])))))))))))))

-- The same as values of the flags.
abbrev issued_texts : Text → IssueResult → ProofTexts
issued_texts blinded r = record {
  blinded = blinded;
  signature = r.blind_signature;
  public_key = r.public_key;
  r1 = r.proof_r1;
  r2 = r.proof_r2;
  s = r.proof_s;
  c = r.proof_c;
}

module _ (O : Os) (B : Blst) where
  verify_cmd-verify_args :
      (blinded : Text) (r : IssueResult) (fs : O.Fs)
      → verify_cmd O B (verify_args blinded r) fs
        ≡ verify_texts O B
            (issued_texts blinded r)
            (bytes "http://localhost:8080")
            (bytes "BCIS-V1-MESSAGE")
            fs
  unfolding verify_cmd with_parsed parse proof_texts flag lookup insert Text_discrete
  verify_cmd-verify_args blinded r fs = refl

pub is_empty-encode : (s : Text) → is_empty (encode_to_string s) ≡ is_empty s
unfolding encode_to_string
is_empty-encode [] = refl
is_empty-encode (b ∷ s) = refl

nonempty_of_length : (s : Text) → length s ≡ 32 → is_empty s ≡ false
nonempty_of_length [] h = absurd (omega arith)
nonempty_of_length (b ∷ s) h = refl

module _ (P : Platform) (B : Blst) (F : IsField B) (E : IsEncoding B) (W : IsBytes B) where
  -- The points and scalars of a proof are read back from the hex texts of the response.
  read_proof-issue_result :
      (blinded sig : B.G1) (pk : B.G2) (epoch : Text) (proof : DleqProof B)
      → B.in_g1 blinded ≡ true
      → B.in_g1 sig ≡ true
      → B.in_g2 pk ≡ true
      → B.in_g2 proof.r1 ≡ true
      → B.in_g1 proof.r2 ≡ true
      → read_proof B (issued_texts (hex_g1 B blinded) (issue_result P B sig pk epoch proof))
        ≡ ok (record { proof = proof; blinded = blinded; signature = sig; public_key = pk })
  unfolding read_proof must issue_result
  read_proof-issue_result blinded sig pk epoch proof b s p c1 c2 =
      rw
        (
          decode_string-encode (B.compress1 blinded) (W.compress1_bytes blinded),
          decode_string-encode (B.compress1 sig) (W.compress1_bytes sig),
          decode_string-encode (B.compress2 pk) (W.compress2_bytes pk),
          decode_string-encode (B.compress2 proof.r1) (W.compress2_bytes proof.r1),
          decode_string-encode (B.compress1 proof.r2) (W.compress1_bytes proof.r2),
          decode_string-encode (B.scalar_serialize proof.s) (W.serialize_bytes proof.s),
          decode_string-encode (B.scalar_serialize proof.c) (W.serialize_bytes proof.c),
          deserialize_g1-compress1 B E blinded b,
          deserialize_g1-compress1 B E sig s,
          deserialize_g2-compress2 B E pk p,
          deserialize_g2-compress2 B E proof.r1 c1,
          deserialize_g1-compress1 B E proof.r2 c2,
          scalar_from_bytes-serialize B F proof.s,
          scalar_from_bytes-serialize B F proof.c,
        )
        refl

  some_missing-issue_result :
      (blinded sig : B.G1) (pk : B.G2) (epoch : Text) (proof : DleqProof B)
      → some_missing (issued_texts (hex_g1 B blinded) (issue_result P B sig pk epoch proof)) ≡ false
  unfolding some_missing issue_result
  some_missing-issue_result blinded sig pk epoch proof = simp (
    is_empty-encode,
    E.compress1_nonempty,
    E.compress2_nonempty,
    nonempty_of_length (B.scalar_serialize proof.s) (F.length-scalar_serialize proof.s),
    nonempty_of_length (B.scalar_serialize proof.c) (F.length-scalar_serialize proof.c),
  )

  module _ (O : Os) (G : IsGroup B) {N : NullifierStore} {V : RevocationStore} where
    -- `bv verify` reports success, with status 0, on every blinded point of the group and the texts
    -- that the server answered for it, if the directory of the client can be opened.
    pub verify_cmd-issue :
        (ctx : Context) (random : Result Text) (p : B.G1) (class : Text) (s : Service P N V)
        (result : IssueResult) (fs : O.Fs) (client : Client)
        → B.in_g1 p ≡ true
        → (issue P B ctx random (hex_g1 B p) class s).0 ≡ ok result
        → (new_client O (bytes "http://localhost:8080") (bytes "BCIS-V1-MESSAGE") fs).0 ≡ ok client
        → (verify_cmd O B (verify_args (hex_g1 B p) result) fs).0
          ≡ exit 0 (line (bytes "DLEQ proof is valid"))
    unfolding verify_texts report_proof verify_proof pub_key
    verify_cmd-issue ctx random p class s result fs client inside issued opened =
        let i = issue-IsIssued P B G ctx random (hex_g1 B p) class s result issued in
        let same : i.blinded ≡ p =
          read_blinded-hex_g1 P B E W ctx p i.blinded class inside i.read in
        let sig : B.G1 = B.mult1 i.blinded i.sk in
        let texts = issue_result P B sig (pub_key B i.sk) s.config.active_epoch i.proof in
        let member : B.in_g1 i.blinded ≡ true = rw same inside in
        rw (verify_cmd-verify_args O B (hex_g1 B p) result fs, i.response)
          (rw (sym same) (
            ground (
              arith,
              opened,
              i.proven,
              some_missing-issue_result i.blinded sig (pub_key B i.sk) s.config.active_epoch
                  i.proof,
              read_proof-issue_result i.blinded sig (pub_key B i.sk) s.config.active_epoch i.proof
                  member (E.in_g1-mult1 i.blinded i.sk member) (E.in_g2-mult2 i.sk)
                  (rw i.commitments.first (E.in_g2-mult2 i.nonce))
                  (rw i.commitments.second (E.in_g1-mult1 i.blinded i.nonce member)),
            )))
