-- ===== src/Api/HostPort.antt =====
-- net.SplitHostPort, as internal/api/rate_limiter.go and middleware.go use it: the host, or an error.
use blindvault.Base.{ℕ, Bool, true, false, Option, none, some, [], ◌∷◌, Text, nat_eq, if◌then◌else◌}

has_byte : ℕ → Text → Bool
has_byte b [] = false
has_byte b (c ∷ s) = let rest = has_byte b s in if nat_eq c b then true else rest

-- the text in front of the last colon and the text behind it
cut_last_colon : Text → Option (Text × Text)
cut_last_colon [] = none
cut_last_colon (c ∷ s) = elim (cut_last_colon s) [
  | some (host, port) ↦ some (c ∷ host, port)
  | none ↦ if nat_eq c b':' then some ([], s) else none
]

-- the text in front of the first `]` and the text behind it
cut_bracket : Text → Option (Text × Text)
cut_bracket [] = none
cut_bracket (c ∷ s) =
    let rest = cut_bracket s in
    if nat_eq c b']'
    then some ([], s)
    else elim rest [ some (inside, behind) ↦ some (c ∷ inside, behind) | none ↦ none ]

-- `s` is a colon and a port without brackets and colons
is_port_suffix : Text → Bool
is_port_suffix [] = false
is_port_suffix (c ∷ s) =
    if nat_eq c b':'
    then (if has_byte b':' s
        then false
        else if has_byte b'[' s
        then false
        else if has_byte b']' s
        then false
        else true)
    else false

bracketed : Text → Option Text
bracketed s = elim (cut_bracket s) [
  | none ↦ none
  | some (inside, behind) ↦
      if is_port_suffix behind then (if has_byte b'[' inside then none else some inside) else none
]

bare : Text → Option Text
bare s = elim (cut_last_colon s) [
  | none ↦ none
  | some (host, port) ↦
      if has_byte b':' host
      then none
      else if has_byte b'[' s
      then none
      else if has_byte b']' s
      then none
      else some host
]

unfoldable pub split_host_port : Text → Option Text
unfolding bare bracketed has_byte cut_last_colon cut_bracket is_port_suffix
split_host_port [] = none
split_host_port (c ∷ s) = if nat_eq c b'[' then bracketed s else bare (c ∷ s)
