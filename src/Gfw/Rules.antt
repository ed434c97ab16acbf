-- ===== src/Gfw/Rules.antt =====
-- What ReadGfwRules makes of the two files.
use gocs.Prelude.{
  ◌≡◌, refl, Bool, false, not, ◌||◌, List, [], ◌∷◌, ◌++◌, Bytes, if◌then◌else◌, arith, All,
}
use gocs.Errors.{Result, ok}
use gocs.GoText.{join}
use gocs.GoText.Splitting.{Lacks, split-join}
use gocs.Gfw.{
  is_empty, trim_space, is_gfw_comment, is_user_comment, newline, gfw_rules, user_rules,
  read_gfwlist, read_user_rules, read_gfw_rules,
}

-- A line of gfwlist.txt that is a rule, and one of user_rules.txt, blanks around it set aside.
abbrev pub IsGfwRule : Bytes → Type 0
IsGfwRule r = (is_gfw_comment r ≡ false) × (is_empty (trim_space r) ≡ false)

abbrev pub IsUserRule : Bytes → Type 0
IsUserRule r = (is_user_comment r ≡ false) × (is_empty (trim_space r) ≡ false)

abbrev is_gfw_rule : Bytes → Bool
is_gfw_rule r = not (is_gfw_comment r || is_empty (trim_space r))

abbrev is_user_rule : Bytes → Bool
is_user_rule r = not (is_user_comment r || is_empty (trim_space r))

-- The rules of the lines, in order, each line by itself.
abbrev pub wanted_gfw : List Bytes → List Bytes
wanted_gfw [] = []
wanted_gfw (r ∷ ls) = (if is_gfw_rule r then r ∷ [] else []) ++ wanted_gfw ls

abbrev pub wanted_user : List Bytes → List Bytes
wanted_user [] = []
wanted_user (l ∷ ls) =
    (if is_user_rule (trim_space l) then trim_space l ∷ [] else []) ++ wanted_user ls

gfw_rules-wanted : (ls : List Bytes) → gfw_rules ls ≡ wanted_gfw ls
unfolding gfw_rules
gfw_rules-wanted [] = refl
gfw_rules-wanted (r ∷ ls) = ground (arith, gfw_rules-wanted ls)

user_rules-wanted : (ls : List Bytes) → user_rules ls ≡ wanted_user ls
unfolding user_rules
user_rules-wanted [] = refl
user_rules-wanted (l ∷ ls) = ground (arith, user_rules-wanted ls)

-- Where gfwlist.txt decodes to lines joined by newlines, and user_rules.txt is such a text, the
-- rules are those of the first file and then those of the second, each in order: every line that
-- is a rule and no other, those of the user without the blanks around them.
pub read_gfw_rules-lines :
    (decode : Bytes → Result Bytes) (raw g u : Bytes) (gs us : List Bytes)
    → decode raw ≡ ok (join (newline ∷ []) (g ∷ gs))
    → All (Lacks newline) (g ∷ gs)
    → All (Lacks newline) (u ∷ us)
    → read_gfw_rules decode (ok raw) (ok (join (newline ∷ []) (u ∷ us)))
      ≡ ok (wanted_gfw (g ∷ gs) ++ wanted_user (u ∷ us))
unfolding read_gfw_rules read_gfwlist read_user_rules
read_gfw_rules-lines decode raw g u gs us d hg hu = rw (
  d,
  split-join newline g gs hg,
  split-join newline u us hu,
  gfw_rules-wanted (g ∷ gs),
  user_rules-wanted (u ∷ us),
)
