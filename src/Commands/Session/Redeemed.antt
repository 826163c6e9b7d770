-- ===== src/Commands/Session/Redeemed.antt =====
-- The session of cmd/bv/main_test.go, against the credential service: `bv blind`, the server's
-- Issue, `bv unblind` and `bv redeem`, each command in a process of its own.
use blindvault.Base.{
  ℕ, ◌≡◌, sym, ◌∙◌, ap, subst, Bool, true, false, none, some, [], ◌++◌, Text, bytes, is_empty,
  arith,
}
use blindvault.Apperr.{Result, ok}
use blindvault.Api.Handlers.Consume.{redemption, consume_response}
use blindvault.Api.Response.{Response, Payload, error_body, consume_body, respond_json}
use blindvault.Api.Types.{ConsumeRequest}
use blindvault.Client.{Reply, redeem, redeem_request}
use blindvault.Client.Files.{Os, IsOs, Opened, state_dir, disk_of, save, generate_id}
use blindvault.Client.Protocol.{IsBlinded, blind-IsBlinded, issue-IsHeld, consume-IsHeld}
use blindvault.Client.State.{get}
use blindvault.Commands.{exit, line, blinded_json, new_client}
use blindvault.Commands.Blind.{Entropy, IsEntropy, blind_cmd}
use blindvault.Commands.Redeem.{redeem_cmd}
use blindvault.Commands.Session.{
  default_url, default_dst, blind_args, unblind_args, redeem_args, unblind_cmd-unblind,
  redeem_cmd-redeem,
}
use blindvault.Commands.Session.Saved.{
  client_of, blinds, HasBlinded, blind_cmd-HasBlinded, HasBlinded-is_ascii, new_client-path,
  blinds-save, IsKept, save-IsKept,
}
use blindvault.Commands.Unblind.{unblind_cmd}
use blindvault.Context.{Context, check_context}
use blindvault.Crypto.Blst.{Blst, Platform}
use blindvault.Crypto.Laws.{IsEncoding, IsField, IsGroup, IsPairing}
use blindvault.Service.Credentials.{IssueResult, ConsumeResult, Service, accepted}
use blindvault.Service.Credentials.Consume.{admit, consume}
use blindvault.Service.Credentials.Issue.{issue}
use blindvault.Service.Credentials.Points.{IsBytes, hex_g1}
use blindvault.Storage.{NullifierStore, RevocationStore}

-- What the client decodes of the JSON of a response: the fields `valid` and `error`.
abbrev valid_of : Payload → Bool
valid_of (consume_body valid text) = valid
valid_of _ = false

abbrev error_of : Payload → Text
error_of (consume_body valid text) = text
error_of (error_body text code) = text
error_of _ = []

abbrev pub received : Response → Reply
received r = record {
  status = r.status;
  valid = ok (valid_of r.payload);
  error = ok (error_of r.payload);
}

module _ (B : Blst) where
  redeem_accepted :
      (post : ConsumeRequest → Result Reply) (sig witness : B.G1) (class epoch : Text)
      → post (redeem_request B sig witness class epoch)
        ≡ ok (received (consume_response accepted []))
      → redeem B post sig witness class epoch ≡ ok true
  unfolding redeem consume_response respond_json
  redeem_accepted post sig witness class epoch answered = ground (arith, answered)

module _ (O : Os) (B : Blst) (n : Entropy) (msg : Text) (fs : O.Fs) where
  -- The file system behind `bv blind`.
  abbrev after : O.Fs
  after = (blind_cmd O B n (blind_args msg) fs).1

  blind_cmd-IsKept :
      (home blinded witness id : Text)
      → IsOs O
      → IsEntropy n
      → O.user_home_dir ≡ ok home
      → (h : HasBlinded O B n msg fs blinded witness id)
      → (O.mkdir_all (state_dir O home) after).0 ≡ none
      → IsKept O B after id (blinds O B n msg h.state h.fs').1
  blind_cmd-IsKept home blinded witness id L T at h made =
      let requests = (blinds O B n msg h.state h.fs').1 in
      let place = new_client-path O B home fs h.fs' h.state at h.opened in
      let file = h.saved ∙ ap (λ path. (save O path requests h.fs').1) place in
      let done = blinds-save O B n msg h.state h.fs' h.b h.made in
      subst (λ fs'. IsKept O B fs' id requests) (sym file)
        (save-IsKept O B L home id requests h.fs' at
          (ap (λ path. (save O path requests h.fs').0) (sym place) ∙ done)
          (HasBlinded-is_ascii O B n msg fs blinded witness id T h)
          (ap (λ fs'. (O.mkdir_all (state_dir O home) fs').0) (sym file) ∙ made))

  -- What the next process holds is what `bv blind` has blinded.
  IsKept-IsBlinded :
      (blinded witness id : Text)
      → IsField B
      → IsEncoding B
      → (h : HasBlinded O B n msg fs blinded witness id)
      → (k : IsKept O B after id (blinds O B n msg h.state h.fs').1)
      → IsBlinded B msg (ok h.b, k.state.requests) h.b
  IsKept-IsBlinded blinded witness id F E h k =
      let i =
        blind-IsBlinded B F E (disk_of O h.state.path h.fs') (some default_dst) n.scalar_random
          (generate_id n.id_random n.time) msg h.state.requests h.b h.made in
      record {
        r = i.r;
        nonzero = i.nonzero;
        blinded = i.blinded;
        kept =
            ap (λ x. get x k.state.requests) (sym h.id_text)
            ∙ k.found
            ∙ ap (λ x. get x (blinds O B n msg h.state h.fs').1) h.id_text
            ∙ i.kept;
        member = i.member;
      }

module _ (P : Platform) (B : Blst) (G : IsGroup B) (F : IsField B) (E : IsEncoding B)
    (W : IsBytes B) (Q : IsPairing B) (O : Os) (L : IsOs O) {N : NullifierStore}
    {V : RevocationStore} where
  -- When `bv blind` has printed a blinded point, the server has issued a credential for it, and the
  -- state file can be opened again, `bv unblind` prints a signature, and `bv redeem` with it and the
  -- printed witness reports success, if the server admits the class and the active epoch, its store
  -- takes every nullifier as new, the request is not cancelled, the client gets the response of the
  -- consume handler, and rand.Read yields bytes and the time is written in ASCII digits.
  pub redeem_cmd-unblind_cmd-blind_cmd :
      (n : Entropy) (msg home blinded witness id class : Text) (fs fs3 fs4 : O.Fs) (state3 : Opened)
      (ctx ctx' : Context) (server_random : Result Text) (s : Service P N V) (result : IssueResult)
      (now : ℕ) (post : Text → ConsumeRequest → Result Reply)
      → IsEntropy n
      → O.user_home_dir ≡ ok home
      → is_empty id ≡ false
      → (blind_cmd O B n (blind_args msg) fs).0 ≡ exit 0 (blinded_json blinded witness id)
      → (issue P B ctx server_random blinded class s).0 ≡ ok result
      → let fs2 = (blind_cmd O B n (blind_args msg) fs).1 in
        (O.mkdir_all (state_dir O home) fs2).0 ≡ none
        → new_client O default_url default_dst fs3 ≡ (ok (client_of O B state3), fs4)
        → let t = (issue P B ctx server_random blinded class s).1 in
          admit P B now class s.config.active_epoch t ≡ ok none
          → ((k : Text)
              → (N.check_and_store (record { done = check_context ctx' 1; now = now }) k t.store).0
                ≡ ok true)
          → check_context ctx' 0 ≡ none
          → is_empty class ≡ false
          → is_empty s.config.active_epoch ≡ false
          → ((req : ConsumeRequest) (r : ConsumeResult)
              → (consume P B ctx' now (redemption req) t).0 ≡ ok r
              → post default_url req ≡ ok (received (consume_response r.status r.error)))
          → (sig : B.G1) × ((unblind_cmd O B (unblind_args result.blind_signature id) fs2).0
              ≡ exit 0 (line (bytes "Unblinded signature: " ++ hex_g1 B sig)))
            × ((redeem_cmd O B post
                  (redeem_args (record {
                    signature = hex_g1 B sig;
                    witness = witness;
                    class = class;
                    epoch = s.config.active_epoch;
                  }))
                  fs3).0
                ≡ exit 0 (line (bytes "Credential redeemed successfully")))
  redeem_cmd-unblind_cmd-blind_cmd n msg home blinded witness id class fs fs3 fs4 state3 ctx ctx'
        server_random s result now post T at has_id printed issued made opened admitted fresh live
        has_class has_epoch answers =
      let h = blind_cmd-HasBlinded O B n msg fs blinded witness id printed in
      let kept = blind_cmd-IsKept O B n msg fs home blinded witness id L T at h made in
      let i = IsKept-IsBlinded O B n msg fs blinded witness id F E h kept in
      let disk = disk_of O kept.state.path kept.fs' in
      let held =
        issue-IsHeld P B G F E W disk msg (ok h.b, kept.state.requests) h.b i ctx server_random
          class s result (rw (sym h.blinded_text) issued) in
      let sig : B.G1 = B.mult1 h.b.witness held.sk in
      let accepts =
        consume-IsHeld P B G F E W Q disk h.b kept.state.requests ctx ctx' server_random class s
          result now held (rw (sym h.blinded_text) admitted)
          (λ k. rw (sym h.blinded_text) (fresh k)) live in
      let answer =
        answers (redeem_request B sig h.b.witness class s.config.active_epoch)
          (record { status = accepted; error = [] }) (rw h.blinded_text accepts) in
      (
        sig,
        rw (held.text, h.id_text)
            (unblind_cmd-unblind O B P E W _ kept.fs' kept.state h.b.request_id held.blind_sig sig
              (ap is_empty (sym h.id_text) ∙ has_id) held.inside kept.opened held.unblinded),
        rw h.witness_text (
            redeem_cmd-redeem O B P E W post fs3 fs4 state3 sig h.b.witness class
              s.config.active_epoch has_class has_epoch
              (E.in_g1-mult1 h.b.witness held.sk held.member) held.member opened
              (redeem_accepted B (post default_url) sig h.b.witness class s.config.active_epoch
                answer)),
      )
