-- ===== src/Api/Types.antt =====
-- internal/api/types.go: the bodies of requests and the rules on their fields.
use blindvault.Base.{
  ℕ, ◌≡◌, ◌↔◌, Bool, true, false, ◌&&◌, Option, none, some, List, [], ◌∷◌, Text, is_empty, ltb,
  if◌then◌else◌,
}
use blindvault.Apperr.{GoError, Result}
use blindvault.Validation.{epoch, class}
use blindvault.Validation.Schema.{hex_len}

-- IssueRequest
pub record IssueRequest : Type 0 where
  pub blinded_message : Text
  pub credential_class : Text

-- ConsumeRequest
pub record ConsumeRequest : Type 0 where
  pub unblinded_signature : Text
  pub witness : Text
  pub credential_class : Text
  pub key_epoch : Text

-- AdminRevokeRequest
pub record AdminRevokeRequest : Type 0 where
  pub credential_class : Text
  pub key_epoch : Text
  pub reason : Text
  pub revoked_until : Option ℕ

-- AdminUnrevokeRequest
pub record AdminUnrevokeRequest : Type 0 where
  pub credential_class : Text
  pub key_epoch : Text

-- the parts of a `validate` tag
pub data Rule : Type 0 where
  required omitempty class_rule epoch_rule gt_rule : Rule
  hex_len_rule : ℕ → Rule

-- A field with its rules, as the validator sees it.
pub data Field : Type 0 where
  text_field : Text → List Rule → Field
  time_field : Option ℕ → List Rule → Field

unfoldable pub issue_fields : IssueRequest → List Field
issue_fields r =
    text_field r.blinded_message (required ∷ hex_len_rule 48 ∷ [])
    ∷ text_field r.credential_class (required ∷ class_rule ∷ [])
    ∷ []

unfoldable pub consume_fields : ConsumeRequest → List Field
consume_fields r =
    text_field r.unblinded_signature (required ∷ hex_len_rule 48 ∷ [])
    ∷ text_field r.witness (required ∷ hex_len_rule 48 ∷ [])
    ∷ text_field r.credential_class (required ∷ class_rule ∷ [])
    ∷ text_field r.key_epoch (required ∷ epoch_rule ∷ [])
    ∷ []

unfoldable pub revoke_fields : AdminRevokeRequest → List Field
revoke_fields r =
    text_field r.credential_class (required ∷ class_rule ∷ [])
    ∷ text_field r.key_epoch (omitempty ∷ epoch_rule ∷ [])
    ∷ text_field r.reason (required ∷ [])
    ∷ time_field r.revoked_until (omitempty ∷ gt_rule ∷ [])
    ∷ []

unfoldable pub unrevoke_fields : AdminUnrevokeRequest → List Field
unrevoke_fields r =
    text_field r.credential_class (required ∷ class_rule ∷ [])
    ∷ text_field r.key_epoch (omitempty ∷ epoch_rule ∷ [])
    ∷ []

-- What the rules mean, from left to right: `required` and `omitempty` as the validator documents
-- them, the three others by the functions that schema.go registers.
unfoldable pub text_passes : List Rule → Text → Bool
text_passes [] t = true
text_passes (required ∷ rules) t =
    let rest = text_passes rules t in if is_empty t then false else rest
text_passes (omitempty ∷ rules) t =
    let rest = text_passes rules t in if is_empty t then true else rest
text_passes (class_rule ∷ rules) t =
    let rest = text_passes rules t in if class t then rest else false
text_passes (epoch_rule ∷ rules) t =
    let rest = text_passes rules t in if epoch t then rest else false
text_passes (gt_rule ∷ rules) t = text_passes rules t
text_passes (hex_len_rule n ∷ rules) t =
    let rest = text_passes rules t in if hex_len n t then rest else false

-- `gt` of a time: later than now
unfoldable pub time_passes : ℕ → List Rule → Option ℕ → Bool
time_passes now [] t = true
time_passes now (gt_rule ∷ rules) none = false
time_passes now (gt_rule ∷ rules) (some t) =
    let rest = time_passes now rules (some t) in if ltb now t then rest else false
time_passes now (omitempty ∷ rules) none = true
time_passes now (omitempty ∷ rules) (some t) = time_passes now rules (some t)
time_passes now (required ∷ rules) none = false
time_passes now (required ∷ rules) (some t) = time_passes now rules (some t)
time_passes now (rule ∷ rules) t = time_passes now rules t

unfoldable pub passes : ℕ → List Field → Bool
unfolding text_passes time_passes
passes now [] = true
passes now (text_field t rules ∷ fields) = text_passes rules t && passes now fields
passes now (time_field t rules ∷ fields) = time_passes now rules t && passes now fields

-- github.com/go-playground/validator/v10 with those functions, at a time: nil, or the errors
pub record Validator : Type 0 where
  pub struct_errors : ℕ → List Field → Option GoError

-- What its documentation promises: no error exactly when every field passes its rules.
pub record IsValidator (W : Validator) : Type 0 where
  pub struct_errors_iff :
      (now : ℕ) (fields : List Field)
      → (W.struct_errors now fields ≡ none) ↔ (passes now fields ≡ true)

-- A request body, with the limit that http.MaxBytesReader sets on what is read of it.
pub record Body : Type 0 where
  pub content : Text
  pub limit : Option ℕ

-- encoding/json: the decoders of the bodies
pub record Decoders : Type 0 where
  pub issue : Body → Result IssueRequest
  pub consume : Body → Result ConsumeRequest
  pub revoke : Body → Result AdminRevokeRequest
  pub unrevoke : Body → Result AdminUnrevokeRequest
  -- the field `ciphertext` of the demo request
  pub demo : Body → Result Text
