-- ===== src/Tests/ToyCodec.antt =====
-- A codec of revocation entries that computes: each text with its codes raised by one, ended by 0.
use blindvault.Base.{ℕ, ◌≡◌, refl, zero, suc, Option, none, some, [], ◌∷◌, Text, bytes, arith}
use blindvault.Apperr.{Result, ok, err, plain}
use blindvault.Storage.{RevocationEntry}
use blindvault.Storage.Redis.Revocation.{EntryCodec}
use blindvault.Storage.Redis.Revocation.Effects.{IsCodec}

unfoldable pub write : Text → Text → Text
write [] rest = 0 ∷ rest
write (c ∷ text) rest = suc c ∷ write text rest

unfoldable pub read : Text → Text × Text
read [] = ([], [])
read (zero ∷ rest) = ([], rest)
read (suc c ∷ rest) = let (text, left) = read rest in (c ∷ text, left)

read-write : (text rest : Text) → read (write text rest) ≡ (text, rest)
unfolding read write
read-write [] rest = refl
read-write (c ∷ text) rest = rw (read-write text rest) refl

abbrev end_code : Option ℕ → ℕ
end_code none = 0
end_code (some t) = suc t

abbrev end_of : ℕ → Option ℕ
end_of zero = none
end_of (suc t) = some t

unfoldable pub write_entry : RevocationEntry → Text
write_entry e =
    e.revoked_at
    ∷ end_code e.revoked_until
    ∷ write e.credential_class (write e.key_epoch (write e.reason (write e.revoked_by [])))

unfoldable pub read_entry : Text → Result RevocationEntry
read_entry (now ∷ end ∷ rest) =
    let (class, rest1) = read rest in
    let (epoch, rest2) = read rest1 in
    let (reason, rest3) = read rest2 in
    let (by, rest4) = read rest3 in
    ok (record {
      credential_class = class;
      key_epoch = epoch;
      reason = reason;
      revoked_at = now;
      revoked_until = end_of end;
      revoked_by = by;
    })
read_entry text = err (plain (bytes "unexpected end of JSON input"))

abbrev pub toy_codec : EntryCodec
toy_codec = record { marshal = λ e. ok (write_entry e); unmarshal = read_entry }

read_entry-write_entry : (e : RevocationEntry) → read_entry (write_entry e) ≡ ok e
unfolding read_entry write_entry
read_entry-write_entry e =
    let r4 = read-write e.revoked_by [] in
    let r3 = read-write e.reason (write e.revoked_by []) in
    let r2 = read-write e.key_epoch (write e.reason (write e.revoked_by [])) in
    let r1 =
      read-write e.credential_class (write e.key_epoch (write e.reason (write e.revoked_by []))) in
    ground (arith, r1, r2, r3, r4)

pub toy_codec-IsCodec : IsCodec toy_codec
toy_codec-IsCodec = record {
  unmarshal-marshal = λ e text h. (e, ground (arith, read_entry-write_entry e), refl);
}
