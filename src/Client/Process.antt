-- ===== src/Client/Process.antt =====
-- Client.Blind and Client.Unblind with the file that they save to (pkg/client/client.go, state.go).
use blindvault.Base.{some, Text}
use blindvault.Apperr.{Result, ok, err}
use blindvault.Client.{BlindResult, blind_point, blind, unblind}
use blindvault.Client.Files.{Os, Opened, disk_of, save}
use blindvault.Crypto.Blst.{Blst}

module _ (O : Os) (B : Blst) where
  -- Client.Blind; Store saves once, where it is reached
  unfoldable pub blind_saved :
      Text → Result Text → Text → Text → Opened → O.Fs → Result (BlindResult B) × O.Fs
  blind_saved dst random id msg state fs = elim (blind_point B (some dst) random msg) [
    | err e ↦ (err e, fs)
    | ok point ↦
        let (result, requests) =
          blind B (disk_of O state.path fs) (some dst) random id msg state.requests in
        (result, (save O state.path requests fs).1)
  ]

  -- Client.Unblind; Delete saves once, where it is reached
  unfoldable pub unblind_saved : Text → B.G1 → Opened → O.Fs → Result B.G1 × O.Fs
  unblind_saved request_id blind_sig state fs =
      let (result, requests) =
        unblind B (disk_of O state.path fs) request_id blind_sig state.requests in
      elim result [
        | err e ↦ (err e, fs)
        | ok unblinded ↦ (ok unblinded, (save O state.path requests fs).1)
      ]
