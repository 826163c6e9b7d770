-- ===== src/Commands/Flags.antt =====
-- The flags of the commands, as the package flag of Go reads them with ExitOnError: all are texts.
use blindvault.Base.{
  Option, none, some, List, [], ◌∷◌, Text, bytes, Map, lookup, insert, is_empty, nat_eq, ◌==◌, ◌||◌,
  ◌++◌, if◌then◌else◌,
}
use blindvault.Commands.{Outcome, exit, help, usage}

-- What Parse comes to: the values, a call for help, or a failure.
pub data Parsed : Type 0 where
  parsed : Map Text → Parsed
  asks_help bad_flag : Parsed

-- how one argument reads: the end of the flags, a flag with `=value`, a flag that takes the next
-- argument, or a malformed one
pub data Argument : Type 0 where
  ends malformed : Argument
  sets : Text → Text → Argument
  wants : Text → Argument

-- a name up to `=`; the name is not empty, so `=` in front was refused before
assignment : Text → Text → Argument
assignment name [] = wants name
assignment name (c ∷ s) =
    let rest = assignment (name ++ (c ∷ [])) s in if nat_eq c b'=' then sets name s else rest

-- the text behind the dashes
name_and_value : Text → Argument
unfolding assignment
name_and_value [] = malformed
name_and_value (c ∷ s) = if nat_eq c b'-' || nat_eq c b'=' then malformed else assignment (c ∷ []) s

-- the text behind one dash; a second dash is dropped, and `--` alone ends the flags
behind_dash : Text → Argument
unfolding name_and_value
behind_dash [] = ends
behind_dash (c ∷ s) =
    if nat_eq c b'-'
    then (if is_empty s then ends else name_and_value s)
    else name_and_value (c ∷ s)

-- the head of FlagSet.parseOne
argument : Text → Argument
unfolding behind_dash
argument [] = ends
argument (c ∷ s) = if nat_eq c b'-' then behind_dash s else ends

undefined : Text → Parsed
undefined name = if name == bytes "help" || name == bytes "h" then asks_help else bad_flag

-- FlagSet.Parse over the flags that are defined, with their values so far; the first argument is
-- the flag that takes the next text. Of two values for a flag the last one stays.
parse_from : Option Text → Map Text → List Text → Parsed
unfolding argument undefined
parse_from none flags [] = parsed flags
parse_from (some name) flags [] = bad_flag
parse_from (some name) flags (value ∷ args) = parse_from none (insert name value flags) args
parse_from none flags (a ∷ args) = elim (argument a) [
  | ends ↦ parsed flags
  | malformed ↦ bad_flag
  | sets name value ↦ elim (lookup name flags) [
    | none ↦ undefined name
    | some old ↦ parse_from none (insert name value flags) args
  ]
  | wants name ↦ elim (lookup name flags) [
    | none ↦ undefined name
    | some old ↦ parse_from (some name) flags args
  ]
]

-- FlagSet.Parse; the map holds the defaults
unfoldable pub parse : Map Text → List Text → Parsed
unfolding parse_from
parse defaults args = parse_from none defaults args

-- the value behind the pointer of a flag
unfoldable pub flag : Map Text → Text → Text
flag flags name = elim (lookup name flags) [ none ↦ [] | some value ↦ value ]

-- the `-dst` and `-server` flags that every command defines
abbrev pub common : Map Text
common =
    (bytes "dst", bytes "BCIS-V1-MESSAGE") ∷ ((bytes "server", bytes "http://localhost:8080") ∷ [])

-- flags that are empty unless they are given, in front of the common ones
abbrev pub with_flags : List Text → Map Text
with_flags [] = common
with_flags (name ∷ names) = (name, []) ∷ with_flags names

-- Parse with ExitOnError, and the rest of the command
unfoldable pub with_parsed :
    {S : Type 0} → Map Text → List Text → (Map Text → S → Outcome × S) → S → Outcome × S
with_parsed defaults args body s = elim (parse defaults args) [
  | asks_help ↦ (exit 0 help, s)
  | bad_flag ↦ (exit 2 (usage (bytes "flag")), s)
  | parsed flags ↦ body flags s
]
