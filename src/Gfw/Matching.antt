-- ===== src/Gfw/Matching.antt =====
-- Find against a description of what it should return.
use gocs.Prelude.{
  ◌≡◌, ◌≢◌, ◌∙◌, refl, ap, Bool, true, false, not, ◌||◌, Option, none, some, List, [], ◌∷◌, Bytes,
  codes, if◌then◌else◌, bytes_eq, beq_bytes_iff, arith, All,
}
use gocs.GoText.{split, join, trim}
use gocs.GoText.Splitting.{Lacks, split-join}
use gocs.Gfw.{
  Gfw, gfw_proxy, gfw_local, new_gfw, set, get, is_empty, domain_cut, pattern_of, match_in, check,
  find_suffix, find_parts, or_default, find,
}

-- The names that a domain is looked up by: itself if it has one label, else every end of it that
-- has two labels or more, longest first.
abbrev pub ends : List Bytes → List (List Bytes)
ends [] = []
ends (p ∷ []) = []
ends (p ∷ q ∷ ps) = (p ∷ q ∷ ps) ∷ ends (q ∷ ps)

abbrev pub names : List Bytes → List (List Bytes)
names [] = [] ∷ []
names (p ∷ []) = (p ∷ []) ∷ []
names (p ∷ q ∷ ps) = ends (p ∷ q ∷ ps)

-- The labels of a domain, once blanks and dots are trimmed off it.
abbrev pub labels : Bytes → List Bytes
labels domain = split b'.' (trim domain_cut domain)

-- The list that the client builds: "*" is local, the rules' text is proxy.
abbrev pub client_gfw : Bytes → Gfw
client_gfw rules = set new_gfw rules gfw_proxy

client_list :
    (rules : Bytes)
    → rules ≢ codes "*"
    → (client_gfw rules).list ≡ (codes "*", gfw_local) ∷ (rules, gfw_proxy) ∷ []
unfolding set new_gfw
client_list rules ne = ground (arith, beq_bytes_iff (codes "*") rules)

get-star : (rules : Bytes) → rules ≢ codes "*" → get (client_gfw rules) (codes "*") ≡ gfw_local
unfolding get
get-star rules ne = rw (client_list rules ne)

-- A compiled pattern finds a match in a key.
abbrev pub hit_by : Bytes → Option (Bytes → Bytes) → Bool
hit_by key none = false
hit_by key (some find_string) = not (is_empty (find_string key))

match_in-client :
    (rules : Bytes) (o : Option (Bytes → Bytes))
    → hit_by (codes "*") o ≡ false
    → match_in ((codes "*", gfw_local) ∷ (rules, gfw_proxy) ∷ []) o
      ≡ (if hit_by rules o then gfw_proxy else [])
unfolding match_in
match_in-client rules none quiet = refl
match_in-client rules (some f) quiet = ground arith

branch :
    (a b : Bool) (t : Bytes)
    → t ≡ (if b then gfw_proxy else [])
    → (if is_empty (if a then gfw_proxy else []) then t else (if a then gfw_proxy else []))
      ≡ (if a || b then gfw_proxy else [])
branch true b t h = refl
branch false b t h = h

by_hit :
    (b : Bool)
    → (if is_empty (if b then gfw_proxy else []) then gfw_local else (if b then gfw_proxy else []))
      ≡ (if b then codes "proxy" else codes "local")
by_hit true = refl
by_hit false = refl

is_empty-some : (s : Bytes) → s ≢ [] → is_empty s ≡ false
is_empty-some [] h = absurd (h refl)
is_empty-some (c ∷ s) h = refl

module _ (compile : Bytes → Option (Bytes → Bytes)) where
  -- The first answer that is not empty.
  abbrev pub first_answer : Gfw → List (List Bytes) → Bytes
  first_answer g [] = []
  first_answer g (n ∷ ns) =
      if is_empty (check compile g n) then first_answer g ns else check compile g n

  find_suffix-ends :
      (g : Gfw) (ps : List Bytes) → find_suffix compile g ps ≡ first_answer g (ends ps)
  unfolding find_suffix
  find_suffix-ends g [] = refl
  find_suffix-ends g (p ∷ []) = refl
  find_suffix-ends g (p ∷ q ∷ ps) = ground (arith, find_suffix-ends g (q ∷ ps))

  or_nil : (t : Bytes) → t ≡ (if is_empty t then [] else t)
  or_nil [] = refl
  or_nil (b ∷ s) = refl

  find_parts-names :
      (g : Gfw) (ps : List Bytes) → find_parts compile g ps ≡ first_answer g (names ps)
  unfolding find_parts
  find_parts-names g [] = or_nil (check compile g [])
  find_parts-names g (p ∷ []) = or_nil (check compile g (p ∷ []))
  find_parts-names g (p ∷ q ∷ ps) = ground (arith, find_suffix-ends g (p ∷ q ∷ ps))

  -- Find trims the domain and gives the first answer that is not empty among those for its names,
  -- or the entry "*" where there is none or the domain is blank.
  pub find_lem :
      (g : Gfw) (domain : Bytes)
      → find compile g domain ≡ (
          if is_empty (trim domain_cut domain)
          then get g (codes "*")
          else or_default g (first_answer g (names (labels domain))))
  unfolding find
  find_lem g domain =
      ap (λ t. if is_empty (trim domain_cut domain) then get g (codes "*") else or_default g t)
        (find_parts-names g (labels domain))

  -- The pattern of a name finds a match in a key.
  abbrev pub hits : List Bytes → Bytes → Bool
  hits name key = hit_by key (compile (pattern_of name))

  abbrev pub any_hit : Bytes → List (List Bytes) → Bool
  any_hit key [] = false
  any_hit key (n ∷ ns) = hits n key || any_hit key ns

  check-client :
      (rules : Bytes) (n : List Bytes)
      → rules ≢ codes "*"
      → hits n (codes "*") ≡ false
      → check compile (client_gfw rules) n ≡ (if hits n rules then gfw_proxy else [])
  unfolding check
  check-client rules n ne quiet =
      rw (client_list rules ne) (match_in-client rules (compile (pattern_of n)) quiet)

  first_answer-client :
      (rules : Bytes) (ns : List (List Bytes))
      → rules ≢ codes "*"
      → All (λ n. hits n (codes "*") ≡ false) ns
      → first_answer (client_gfw rules) ns ≡ (if any_hit rules ns then gfw_proxy else [])
  first_answer-client rules [] ne quiet = refl
  first_answer-client rules (n ∷ ns) ne quiet =
      rw (check-client rules n ne quiet.0)
        (branch (hits n rules) (any_hit rules ns) _ (first_answer-client rules ns ne quiet.1))

  -- With the client's list, and rules that are not just "*", a domain of these labels, without blanks
  -- and dots around it, is answered "proxy" if the pattern of one of its names finds a match in the
  -- text of the rules, and else "local", provided that none of these patterns finds one in the key
  -- "*". Its names are all its ends of two labels or more, or itself if it has one label.
  pub find-client :
      (rules p : Bytes) (ps : List Bytes)
      → rules ≢ codes "*"
      → All (Lacks b'.') (p ∷ ps)
      → join (codes ".") (p ∷ ps) ≢ []
      → trim domain_cut (join (codes ".") (p ∷ ps)) ≡ join (codes ".") (p ∷ ps)
      → All (λ n. hits n (codes "*") ≡ false) (names (p ∷ ps))
      → find compile (client_gfw rules) (join (codes ".") (p ∷ ps))
        ≡ (if any_hit rules (names (p ∷ ps)) then codes "proxy" else codes "local")
  find-client rules p ps other lacks some_text trimmed quiet =
      let domain = join (codes ".") (p ∷ ps) in
      let parts : labels domain ≡ p ∷ ps = ap (split b'.') trimmed ∙ split-join b'.' p ps lacks in
      let filled : is_empty (trim domain_cut domain) ≡ false =
        ap is_empty trimmed ∙ is_empty-some domain some_text in
      find_lem (client_gfw rules) domain
      ∙ rw
          (
            filled,
            parts,
            first_answer-client rules (names (p ∷ ps)) other quiet,
            get-star rules other,
          )
          (by_hit (any_hit rules (names (p ∷ ps))))
