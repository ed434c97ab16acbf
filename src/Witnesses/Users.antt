-- ===== src/Witnesses/Users.antt =====
-- A concrete user file.
use gocs.Prelude.{
  ◌≡◌, ◌≢◌, ◌↔◌, refl, ap, ◌∙◌, true, Option, none, some, List, [], ◌∷◌, ◌++◌, All, ltb, ℕ, length,
  take, drop, Bytes, codes, arith, bytes_eq,
}
use gocs.Prelude.Dict.{lookup, insert, lookup-insert}
use gocs.Errors.{Error, external, Result, ok, err}
use gocs.Files.{Json, write_json}
use gocs.Files.Saving.{IsCodec, IsWrite}
use gocs.Auth.Restart.{IsUser, restarted, add_user-restarted}
use gocs.Auth.{Auth, Users, Request, admits, admin_refusal, add_user, remove_user}
use gocs.Auth.Refinement.{
  Change, adds, removes, apply_all, users_of, spec_admits, spec_apply_all, admits-apply_all,
}
use gocs.Auth.Access.{IsDigest, with_basic, admits_iff, add_user-guarded}

-- A digest with one mark in front of the text.
abbrev pub digest : Bytes → Bytes
digest text = b'#' ∷ text

pub digest-IsDigest : IsDigest digest
digest-IsDigest p e = absurd (ground arith)

abbrev pub auth : Auth
auth = record {
  admin_user = (codes "root", codes "#secret") ∷ [];
  normal_user = (codes "ann", codes "#1") ∷ [];
  user_file = none;
}

abbrev by_root : Request
by_root = record {
  basic = some (codes "root", codes "secret");
  username = codes "bob";
  password = codes "2";
}

abbrev by_ann : Request
by_ann = record {
  basic = some (codes "ann", codes "1");
  username = codes "bob";
  password = codes "2";
}

-- A format for at most one user: the length of the name, the name, and the digest.
abbrev encode : Users → Result Bytes
encode [] = ok []
encode ((name, pass) ∷ []) = ok (length name ∷ name ++ pass)
encode (u ∷ v ∷ users) = err (external (codes "too many users"))

abbrev decode : Users → Bytes → Option Error × Users
decode users [] = (none, users)
decode users (n ∷ text) = (none, insert (take n text) (drop n text) users)

abbrev json : Json Users
json = record { encode = encode; decode = decode; write = λ text. (none, some text) }

halves : (s t : Bytes) → (take (length s) (s ++ t) ≡ s) × (drop (length s) (s ++ t) ≡ t)
halves [] t = (refl, refl)
halves (c ∷ s) t = ground (arith, halves s t)

-- Text of ASCII alone.
abbrev IsText : Bytes → Type 0
IsText = All (λ (c : ℕ). ltb c 128 ≡ true)

json-IsCodec : IsCodec (IsUser digest IsText) json
json-IsCodec [] text name users h = ground arith
json-IsCodec ((n, p) ∷ []) text name users h = ground (arith, halves n p, lookup-insert n name p [])
json-IsCodec (u ∷ v ∷ users) text name all h = absurd (ground arith)

json-IsWrite : IsWrite json
json-IsWrite text h = refl

abbrev alone : Auth
alone = record auth { normal_user = [] }

accepted : (add_user digest json by_root alone).0.status ≡ 200
unfolding add_user admin_refusal write_json
accepted = refl

add_user-restarted_example :
    let b = (add_user digest json by_root alone).1 in
    (admits digest (restarted json b) (with_basic (codes "bob") (codes "2")) ≡ true)
    × (admits digest (restarted json b) by_ann ≡ admits digest b by_ann)
add_user-restarted_example =
    add_user-restarted digest IsText json by_root by_ann alone json-IsCodec json-IsWrite tt
      (refl, (refl, (refl, tt))) (refl, (refl, tt)) accepted

admits_iff_test : (admits digest auth by_ann ≡ true) ↔ (
    (name : Bytes) × (pass : Bytes) × (by_ann.basic ≡ some (name, pass))
    × (lookup name auth.normal_user ≡ some (digest pass)))
admits_iff_test = admits_iff digest auth by_ann digest-IsDigest

ann_no_admin :
    (name pass : Bytes)
    → by_ann.basic ≡ some (name, pass)
    → lookup name auth.admin_user ≢ some (digest pass)
ann_no_admin name pass e h =
    let n : codes "ann" ≡ name = ground arith in
    let k : lookup (codes "ann") auth.admin_user ≡ some (digest pass) =
      ap (λ x. lookup x auth.admin_user) n ∙ h in
    absurd (ground arith)

add_user-guarded_test :
    ((add_user digest json by_ann auth).0.status ≡ 401)
    × ((add_user digest json by_ann auth).1 ≡ auth)
    × ((remove_user digest json by_ann auth).0.status ≡ 401)
    × ((remove_user digest json by_ann auth).1 ≡ auth)
add_user-guarded_test = add_user-guarded digest json by_ann auth ann_no_admin digest-IsDigest

abbrev changes : List (Json Users × Change)
changes = (json, adds by_root) ∷ (json, removes by_ann) ∷ (json, removes by_root) ∷ []

admits-apply_all_example :
    admits digest (apply_all digest changes auth) by_ann
    ≡ spec_admits digest (spec_apply_all digest auth.admin_user changes (users_of auth)) by_ann
admits-apply_all_example = admits-apply_all digest changes auth by_ann
