-- ===== src/Auth/Access.antt =====
-- Who is let in, and who may change that.
use gocs.Prelude.{
  ◌≡◌, ◌≢◌, ◌↔◌, refl, true, false, Option, none, some, [], Bytes, bytes_eq, beq_bytes_iff, arith,
}
use gocs.Prelude.Dict.{lookup, lookup-insert, lookup-delete}
use gocs.Files.{Json}
use gocs.Auth.{
  Auth, Request, Users, basic_auth, admits, admin_refusal, add_user, remove_user, knows,
}

-- What the code relies on in SHA1: the printed digest of no text is empty.
abbrev pub IsDigest : (Bytes → Bytes) → Type 0
IsDigest sha1 = (p : Bytes) → sha1 p ≢ []

abbrev pub with_basic : Bytes → Bytes → Request
with_basic name pass = record { basic = some (name, pass); username = []; password = [] }

module _ (sha1 : Bytes → Bytes) where
  knows_iff :
      (users : Users) (name pass : Bytes)
      → IsDigest sha1
      → (knows sha1 users name pass ≡ true) ↔ (lookup name users ≡ some (sha1 pass))
  knows_iff users name pass digest = go (lookup name users) refl
    where
      go :
          (o : Option Bytes)
          → lookup name users ≡ o
          → (knows sha1 users name pass ≡ true) ↔ (lookup name users ≡ some (sha1 pass))
      go none q = rw q (ground (arith, digest pass, beq_bytes_iff (sha1 pass) []))
      go (some v) q = rw q (ground (arith, beq_bytes_iff (sha1 pass) v))

  -- A connection is admitted exactly if its request has credentials, its user is known, and the
  -- digest of its password is the one stored for that user, if no password has an empty digest.
  pub admits_iff :
      (a : Auth) (req : Request)
      → IsDigest sha1
      → (admits sha1 a req ≡ true) ↔ (
          (name : Bytes) × (pass : Bytes) × (req.basic ≡ some (name, pass))
          × (lookup name a.normal_user ≡ some (sha1 pass)))
  unfolding admits basic_auth
  admits_iff a req digest = go req.basic refl
    where
      clash : (n p : Bytes) → req.basic ≡ some (n, p) → req.basic ≡ none → admits sha1 a req ≡ true
      clash n p e q = absurd (ground arith)

      go :
          (b : Option (Bytes × Bytes))
          → req.basic ≡ b
          → (admits sha1 a req ≡ true) ↔ (
              (name : Bytes) × (pass : Bytes) × (req.basic ≡ some (name, pass))
              × (lookup name a.normal_user ≡ some (sha1 pass)))
      go none q = (
        λ t. absurd (ground arith),
        λ (t : (name : Bytes) × (pass : Bytes) × (req.basic ≡ some (name, pass))
              × (lookup name a.normal_user ≡ some (sha1 pass))).
            clash t.0 t.1 t.2 q,
      )
      go (some (name, pass)) q = (
        λ t. (name, pass, q, (knows_iff a.normal_user name pass digest).0 (ground arith)),
        λ t. found t.0 t.1 t.2 t.3,
      )
        where
          found :
              (n p : Bytes)
              → req.basic ≡ some (n, p)
              → lookup n a.normal_user ≡ some (sha1 p)
              → admits sha1 a req ≡ true
          found n p e l = let k = (knows_iff a.normal_user n p digest).1 l in ground arith

  -- A user that an administrator adds, with a name and a password that are not empty, is admitted
  -- with that password, whatever becomes of the write of the user file.
  pub add_user-admits :
      (json : Json Users) (req : Request) (a : Auth)
      → admin_refusal sha1 a req ≡ none
      → req.username ≢ []
      → req.password ≢ []
      → admits sha1 ((add_user sha1 json req a).1) (with_basic req.username req.password) ≡ true
  unfolding admits basic_auth add_user
  add_user-admits json req a granted named secret = ground (
    arith,
    beq_bytes_iff req.username req.username,
    beq_bytes_iff (sha1 req.password) (sha1 req.password),
    lookup-insert req.username req.username (sha1 req.password) a.normal_user,
  )

  -- A user that an administrator removes is admitted with no password, if no password has an empty
  -- digest.
  pub remove_user-refuses :
      (json : Json Users) (req : Request) (a : Auth) (pass : Bytes)
      → IsDigest sha1
      → admin_refusal sha1 a req ≡ none
      → req.username ≢ []
      → admits sha1 ((remove_user sha1 json req a).1) (with_basic req.username pass) ≡ false
  unfolding admits basic_auth remove_user
  remove_user-refuses json req a pass digest granted named = ground (
    arith,
    digest pass,
    beq_bytes_iff req.username req.username,
    beq_bytes_iff (sha1 pass) [],
    lookup-delete req.username req.username a.normal_user,
  )

  -- A request without the name and password of an administrator changes no user: the reply to it,
  -- as AddUser or as RemoveUser, has status 401, and the users are as they were, if no password
  -- has an empty digest.
  pub add_user-guarded :
      (json : Json Users) (req : Request) (a : Auth)
      → ((name pass : Bytes)
          → req.basic ≡ some (name, pass)
          → lookup name a.admin_user ≢ some (sha1 pass))
      → IsDigest sha1
      → ((add_user sha1 json req a).0.status ≡ 401)
        × ((add_user sha1 json req a).1 ≡ a)
        × ((remove_user sha1 json req a).0.status ≡ 401)
        × ((remove_user sha1 json req a).1 ≡ a)
  unfolding add_user remove_user admin_refusal
  add_user-guarded json req a stranger digest = go req.basic refl
    where
      go :
          (b : Option (Bytes × Bytes))
          → req.basic ≡ b
          → ((add_user sha1 json req a).0.status ≡ 401)
            × ((add_user sha1 json req a).1 ≡ a)
            × ((remove_user sha1 json req a).0.status ≡ 401)
            × ((remove_user sha1 json req a).1 ≡ a)
      go none q = ground arith
      go (some (name, pass)) q =
          ground (arith, stranger name pass q, (knows_iff a.admin_user name pass digest).0)
