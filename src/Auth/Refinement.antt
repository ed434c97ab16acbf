-- ===== src/Auth/Refinement.antt =====
-- What the users of a server are for the outside: a map from names to digests, whatever the order of
-- the entries and whatever becomes of the writes.
use mathlib.Core.Quot
use mathlib.Core.Quot.{Quot, Quot-set}
use gocs.Prelude.{
  ◌≡◌, ◌∙◌, ap, ap₂, refl, Bool, false, not, ◌&&◌, ◌||◌, Option, none, some, List, [], ◌∷◌, Bytes,
  bytes_eq, ◌==◌, if◌then◌else◌, arith,
}
use gocs.Prelude.Dict.{lookup}
use gocs.Prelude.Maps.{Map, map_of, put, erase}
use gocs.Files.{Json}
use gocs.Auth.{
  Auth, Users, Request, is_empty, or_empty, basic_auth, admits, admin_refusal, add_user,
  remove_user,
}

-- The requests that change the users.
pub data Change : Type 0 where
  adds removes : Request → Change

abbrev pub UserMap : Type 0
UserMap = Map Bytes Bytes

abbrev pub users_of : Auth → UserMap
users_of a = map_of a.normal_user

-- The digest of a name.
unfoldable pub digest_of : Bytes → UserMap → Option Bytes
digest_of name = Quot.lift (hlevel) (lookup name) λ m n h. h name

module _ (sha1 : Bytes → Bytes) where
  -- The code: the changes in their order, each with what the file system answers to it.
  pub apply_all : List (Json Users × Change) → Auth → Auth
  apply_all [] a = a
  apply_all ((json, adds req) ∷ cs) a = apply_all cs (add_user sha1 json req a).1
  apply_all ((json, removes req) ∷ cs) a = apply_all cs (remove_user sha1 json req a).1

  -- The specification, for administrators that stay the same.
  abbrev pub by_admin : Users → Request → Bool
  by_admin admin req = elim req.basic [
    | none ↦ false
    | some (name, pass) ↦ sha1 pass == or_empty (lookup name admin)
  ]

  abbrev pub spec_apply : Users → Change → UserMap → UserMap
  spec_apply admin (adds req) m =
      if by_admin admin req && not (is_empty req.username || is_empty req.password)
      then put req.username (sha1 req.password) m
      else m
  spec_apply admin (removes req) m =
      if by_admin admin req && not (is_empty req.username) then erase req.username m else m

  unfoldable pub spec_apply_all : Users → List (Json Users × Change) → UserMap → UserMap
  spec_apply_all admin [] m = m
  spec_apply_all admin ((json, c) ∷ cs) m = spec_apply_all admin cs (spec_apply admin c m)

  pub spec_admits : UserMap → Request → Bool
  spec_admits m req = elim req.basic [
    | none ↦ false
    | some (name, pass) ↦ sha1 pass == or_empty (digest_of name m)
  ]

  add_user-spec :
      (json : Json Users) (req : Request) (a : Auth)
      → (users_of (add_user sha1 json req a).1 ≡ spec_apply a.admin_user (adds req) (users_of a))
        × ((add_user sha1 json req a).1.admin_user ≡ a.admin_user)
  unfolding add_user admin_refusal put
  add_user-spec json req a = ground arith

  remove_user-spec :
      (json : Json Users) (req : Request) (a : Auth)
      → (users_of (remove_user sha1 json req a).1
          ≡ spec_apply a.admin_user (removes req) (users_of a))
        × ((remove_user sha1 json req a).1.admin_user ≡ a.admin_user)
  unfolding remove_user admin_refusal erase
  remove_user-spec json req a = ground arith

  admits-spec : (a : Auth) (req : Request) → admits sha1 a req ≡ spec_admits (users_of a) req
  unfolding admits basic_auth spec_admits digest_of
  admits-spec a req = ground arith

  pub apply_all-spec :
      (cs : List (Json Users × Change)) (a : Auth)
      → users_of (apply_all cs a) ≡ spec_apply_all a.admin_user cs (users_of a)
  unfolding apply_all spec_apply_all
  apply_all-spec [] a = refl
  apply_all-spec ((json, adds req) ∷ cs) a =
      let (u, d) = add_user-spec json req a in
      apply_all-spec cs (add_user sha1 json req a).1 ∙ ap₂ (λ d' u'. spec_apply_all d' cs u') d u
  apply_all-spec ((json, removes req) ∷ cs) a =
      let (u, d) = remove_user-spec json req a in
      apply_all-spec cs (remove_user sha1 json req a).1 ∙ ap₂ (λ d' u'. spec_apply_all d' cs u') d u

  -- The users implement a map from names to digests: after any requests to add and remove users,
  -- whatever becomes of the writes of the user file, a connection is admitted exactly if the map
  -- admits it that the requests of administrators with what they need in them make of the first one;
  -- the order in which the users are held does not show.
  pub admits-apply_all :
      (cs : List (Json Users × Change)) (a : Auth) (req : Request)
      → admits sha1 (apply_all cs a) req
        ≡ spec_admits (spec_apply_all a.admin_user cs (users_of a)) req
  admits-apply_all cs a req =
      admits-spec (apply_all cs a) req ∙ ap (λ m. spec_admits m req) (apply_all-spec cs a)
