-- ===== src/Tests/ToyOs.antt =====
-- A file system with one file, and a codec for a state of at most one request: instances of the
-- parameters of Client.Files that compute.
use blindvault.Base.{
  ℕ, zero, suc, ◌≡◌, refl, true, Option, none, some, [], ◌∷◌, ◌++◌, Text, bytes, length, arith,
}
use blindvault.Apperr.{plain, Result, ok, err}
use blindvault.Client.Files.{Os, IsOs}
use blindvault.Client.State.{ClientState, PendingRequest}

-- a text with its length in front
abbrev put : Text → Text → Text
put a rest = length a ∷ (a ++ rest)

abbrev cut : ℕ → Text → Text × Text
cut zero s = ([], s)
cut (suc n) [] = ([], [])
cut (suc n) (c ∷ s) = let (a, rest) = cut n s in (c ∷ a, rest)

abbrev take_text : Text → Text × Text
take_text [] = ([], [])
take_text (n ∷ s) = cut n s

cut-append : (a rest : Text) → cut (length a) (a ++ rest) ≡ (a, rest)
cut-append [] rest = refl
cut-append (c ∷ a) rest = rw (cut-append a rest) refl

take_text-put : (a rest : Text) → take_text (put a rest) ≡ (a, rest)
take_text-put a rest = cut-append a rest

unfoldable pub encode : ClientState → Result Text
encode [] = ok []
encode ((id, r) ∷ []) = ok (put id (put r.blinding_factor (put r.text (put r.witness []))))
encode (_ ∷ (_ ∷ _)) = err (plain (bytes "too many"))

unfoldable pub decode : Text → Result ClientState
decode [] = ok []
decode (n ∷ s) =
    let (id, s1) = take_text (n ∷ s) in
    let (factor, s2) = take_text s1 in
    let (msg, s3) = take_text s2 in
    let (witness, s4) = take_text s3 in
    ok ((id, record { blinding_factor = factor; text = msg; witness = witness }) ∷ [])

unfoldable pub read : Text → Option Text → Result Text
read path none = err (plain (bytes "no such file"))
read path (some text) = ok text

abbrev pub toy_os : Os
toy_os = record {
  Fs = Option Text;
  user_home_dir = ok (bytes "/home");
  join = λ a b. a ++ b;
  mkdir_all = λ dir fs. (none, fs);
  read_file = read;
  write_file = λ path text fs. (none, some text);
  is_not_exist = λ e. true;
  marshal = encode;
  unmarshal = decode;
}

abbrev one_request : Text → PendingRequest → Text
one_request id r = put id (put r.blinding_factor (put r.text (put r.witness [])))

decode_one : (id : Text) (r : PendingRequest) → decode (one_request id r) ≡ ok ((id, r) ∷ [])
unfolding decode
decode_one id r =
    rw
      (
        cut-append id (put r.blinding_factor (put r.text (put r.witness []))),
        cut-append r.blinding_factor (put r.text (put r.witness [])),
        cut-append r.text (put r.witness []),
        cut-append r.witness [],
      )
      refl

decode-encode : (s : ClientState) (text : Text) → encode s ≡ ok text → decode text ≡ ok s
unfolding encode decode
decode-encode [] text h = ground arith
decode-encode ((id, r) ∷ []) text h =
    let same : text ≡ one_request id r = ground arith in rw same (decode_one id r)
decode-encode (_ ∷ (_ ∷ _)) text h = absurd (ground arith)

pub toy_IsOs : IsOs toy_os
unfolding read
toy_IsOs = record {
  read-write = λ path text fs h. refl;
  read-mkdir = λ dir path fs. refl;
  unmarshal-marshal = λ s text h. (s, decode-encode s text h, λ id plain. refl);
}
