-- ===== src/Gfw.antt =====
-- core/gfw.go, and ReadGfwRules of cs_client.go. regexp is a parameter: `compile` is
-- regexp.Compile, a pattern's FindString or nothing. So is base64's DecodeString. TrimSpace is that
-- of ASCII text.
pub mod Matching
pub mod Rules
use gocs.Prelude.{
  ℕ, zero, suc, ◌+◌, ◌-◌, Bool, true, false, not, ◌&&◌, ◌||◌, Option, none, some, List, [], ◌∷◌,
  ◌++◌, ◌≡◌, refl, Bytes, codes, length, ltb, leb, eqb, if◌then◌else◌, ◌==◌, bytes_eq, has_prefix,
}
use gocs.Prelude.Dict.{Dict, lookup, insert}
use gocs.Errors.{Error, errorf, message, Result, ok, err}
use gocs.GoText.{split, join, trim}

abbrev pub gfw_proxy : Bytes
gfw_proxy = codes "proxy"

abbrev pub gfw_local : Bytes
gfw_local = codes "local"

pub record Gfw : Type 0 where
  pub list : Dict Bytes Bytes

pub new_gfw : Gfw
new_gfw = record { list = (codes "*", gfw_local) ∷ [] }

pub set : Gfw → Bytes → Bytes → Gfw
set g list target = record { list = insert list target g.list }

-- A missing key reads as the empty string.
abbrev or_empty : Option Bytes → Bytes
or_empty none = []
or_empty (some v) = v

pub get : Gfw → Bytes → Bytes
get g list = or_empty (lookup list g.list)

abbrev pub is_empty : Bytes → Bool
is_empty [] = true
is_empty (b ∷ s) = false

-- The cutset " \t." of Find.
abbrev pub domain_cut : ℕ → Bool
domain_cut c = eqb c b' ' || eqb c b'\t' || eqb c b'.'

unfoldable pub pattern_of : List Bytes → Bytes
unfolding join
pattern_of parts =
    codes "(?m)^[^\\@]*[\\|\\.]*(http://)?(https://)?" ++ (join (codes "\\.") parts ++ codes "$")

-- The first entry, in the order of the range, whose key holds a match.
pub first_match : (Bytes → Bytes) → Dict Bytes Bytes → Bytes
first_match find_string [] = []
first_match find_string ((key, val) ∷ m) =
    if is_empty (find_string key) then first_match find_string m else val

-- Without a pattern, where Compile fails, there is no match.
pub match_in : Dict Bytes Bytes → Option (Bytes → Bytes) → Bytes
unfolding first_match
match_in list none = []
match_in list (some find_string) = first_match find_string list

abbrev pub or_default : Gfw → Bytes → Bytes
or_default g target = if is_empty target then get g (codes "*") else target

module _ (compile : Bytes → Option (Bytes → Bytes)) where
  pub check : Gfw → List Bytes → Bytes
  unfolding match_in pattern_of
  check g parts = match_in g.list (compile (pattern_of parts))

  -- The loop of Find over the ends of the domain that have two labels or more.
  pub find_suffix : Gfw → List Bytes → Bytes
  unfolding check
  find_suffix g [] = []
  find_suffix g (p ∷ []) = []
  find_suffix g (p ∷ q ∷ ps) =
      let target = check g (p ∷ q ∷ ps) in
      let shorter = find_suffix g (q ∷ ps) in if is_empty target then shorter else target

  pub find_parts : Gfw → List Bytes → Bytes
  unfolding find_suffix
  find_parts g parts = if ltb (length parts) 2 then check g parts else find_suffix g parts

  pub find : Gfw → Bytes → Bytes
  unfolding find_parts get trim split
  find g domain =
      let d = trim domain_cut domain in
      if is_empty d then get g (codes "*") else or_default g (find_parts g (split b'.' d))

  pub is_proxy : Gfw → Bytes → Bool
  unfolding find
  is_proxy g domain = find g domain == gfw_proxy

-- unicode.IsSpace, below 128
abbrev pub is_space : ℕ → Bool
is_space c = (leb 9 c && leb c 13) || eqb c b' '

abbrev pub is_gfw_comment : Bytes → Bool
is_gfw_comment rule = has_prefix (codes "[") rule || has_prefix (codes "!") rule

abbrev pub is_user_comment : Bytes → Bool
is_user_comment rule = has_prefix (codes "--") rule || has_prefix (codes "!") rule

abbrev pub trim_space : Bytes → Bytes
trim_space = trim is_space

-- The loop of ReadGfwlist over the lines.
pub gfw_rules : List Bytes → List Bytes
unfolding has_prefix trim
gfw_rules [] = []
gfw_rules (rule ∷ lines) =
    let rest = gfw_rules lines in
    if is_gfw_comment rule || is_empty (trim_space rule) then rest else rule ∷ rest

-- The loop of ReadUserRules over the lines.
pub user_rules : List Bytes → List Bytes
unfolding has_prefix trim
user_rules [] = []
user_rules (line ∷ lines) =
    let rest = user_rules lines in
    let rule = trim_space line in
    if is_user_comment rule || is_empty (trim_space rule) then rest else rule ∷ rest

abbrev pub newline : ℕ
newline = 10

abbrev decoded_rules : Result Bytes → Result (List Bytes)
decoded_rules (err e) = err (errorf (codes "decode gfwlist.txt fail with " ++ message e))
decoded_rules (ok text) = ok (gfw_rules (split newline text))

-- ReadGfwlist, from what reading the file returns.
pub read_gfwlist : (Bytes → Result Bytes) → Result Bytes → Result (List Bytes)
unfolding gfw_rules split message
read_gfwlist decode (err e) = err e
read_gfwlist decode (ok raw) = decoded_rules (decode raw)

pub read_user_rules : Result Bytes → Result (List Bytes)
unfolding user_rules split
read_user_rules (err e) = err e
read_user_rules (ok text) = ok (user_rules (split newline text))

abbrev or_no_rules : Result (List Bytes) → List Bytes
or_no_rules (err e) = []
or_no_rules (ok rules) = rules

abbrev with_user : Result (List Bytes) → Result (List Bytes) → Result (List Bytes)
with_user (err e) user = err e
with_user (ok rules) user = ok (rules ++ or_no_rules user)

-- ReadGfwRules of the client, from what reading gfwlist.txt and user_rules.txt returns.
pub read_gfw_rules : (Bytes → Result Bytes) → Result Bytes → Result Bytes → Result (List Bytes)
unfolding read_gfwlist read_user_rules
read_gfw_rules decode gfw_file user_file =
    with_user (read_gfwlist decode gfw_file) (read_user_rules user_file)
