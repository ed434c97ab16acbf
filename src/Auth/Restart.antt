-- ===== src/Auth/Restart.antt =====
-- The users of a server that is started again, from its user file.
use gocs.Prelude.{
  ◌≡◌, ◌≢◌, ◌∙◌, sym, subst, ap, refl, true, Option, none, some, [], All, Bytes, bytes_eq, arith,
}
use gocs.Prelude.Dict.{lookup, insert, All-insert}
use gocs.Files.{Json}
use gocs.Files.Saving.{IsCodec, IsWrite, saved-read}
use gocs.Auth.{
  Auth, Users, Request, Response, new_auth, read_auth_file, basic_auth, admits, admin_refusal, save,
  add_user,
}
use gocs.Auth.Access.{with_basic, add_user-admits}

-- The users of the next start with this user file.
abbrev pub restarted : Json Users → Auth → Auth
restarted json a = new_auth json a.admin_user (some a.user_file)

module _ (sha1 : Bytes → Bytes) where
  admits-same :
      (a b : Auth) (req : Request)
      → ((name : Bytes) → lookup name a.normal_user ≡ lookup name b.normal_user)
      → admits sha1 a req ≡ admits sha1 b req
  unfolding admits basic_auth
  admits-same a b req h = go req.basic refl
    where
      go : (x : Option (Bytes × Bytes)) → req.basic ≡ x → admits sha1 a req ≡ admits sha1 b req
      go none e = ground arith
      go (some (name, pass)) e = ground (arith, h name)

  abbrev added : Request → Auth → Auth
  added req a = record a { normal_user = insert req.username (sha1 req.password) a.normal_user }

  add_user-accepted :
      (json : Json Users) (req : Request) (a : Auth)
      → (add_user sha1 json req a).0.status ≡ 200
      → (admin_refusal sha1 a req ≡ none)
        × (req.username ≢ [])
        × (req.password ≢ [])
        × (add_user sha1 json req a ≡ save sha1 json (added req a))
  unfolding add_user admin_refusal
  add_user-accepted json req a h = ground arith

module _ (sha1 : Bytes → Bytes) (IsText : Bytes → Type 0) where
  -- A user whose name and digest are text that encoding/json keeps.
  abbrev pub IsUser : Bytes × Bytes → Type 0
  IsUser (name, digest) = IsText name × IsText digest

  save-restarted :
      (json : Json Users) (a : Auth) (name : Bytes)
      → IsCodec IsUser json
      → IsWrite json
      → All IsUser a.normal_user
      → (save sha1 json a).0.status ≡ 200
      → lookup name (restarted json (save sha1 json a).1).normal_user ≡ lookup name a.normal_user
  unfolding new_auth read_auth_file
  save-restarted json a name codec writes users h =
      (saved-read IsUser json a.user_file a.normal_user name codec writes users (ground arith)).1

  add_user-same :
      (json : Json Users) (req : Request) (a : Auth) (name : Bytes)
      → IsCodec IsUser json
      → IsWrite json
      → All IsUser a.normal_user
      → IsText req.username
      → IsText (sha1 req.password)
      → (add_user sha1 json req a).0.status ≡ 200
      → lookup name (restarted json (add_user sha1 json req a).1).normal_user
        ≡ lookup name (add_user sha1 json req a).1.normal_user
  add_user-same json req a name codec writes users text text' h =
      let (granted, named, secret, e) = add_user-accepted sha1 json req a h in
      subst
        (λ (r : Response × Auth).
          lookup name (restarted json r.1).normal_user ≡ lookup name r.1.normal_user)
        (sym e)
        (save-restarted json (added sha1 req a) name codec writes
          (All-insert IsUser req.username (sha1 req.password) a.normal_user (text, text') users)
          (ap (λ (r : Response × Auth). r.0.status) (sym e) ∙ h))

  -- A user that is added, with a reply of 200, is admitted with its password by the server that is
  -- started again with the user file, and every other request is admitted by that server exactly if
  -- it is by this one. It needs that the name and the digest of the user and of those that the
  -- server has already are text, that the JSON of users of text decodes to the same entries, and
  -- that a write without an error has written its text. Text stands for valid UTF-8, which is what
  -- encoding/json keeps.
  pub add_user-restarted :
      (json : Json Users) (req other : Request) (a : Auth)
      → IsCodec IsUser json
      → IsWrite json
      → All IsUser a.normal_user
      → IsText req.username
      → IsText (sha1 req.password)
      → (add_user sha1 json req a).0.status ≡ 200
      → let b = (add_user sha1 json req a).1 in
        (admits sha1 (restarted json b) (with_basic req.username req.password) ≡ true)
        × (admits sha1 (restarted json b) other ≡ admits sha1 b other)
  add_user-restarted json req other a codec writes users text text' h =
      let (granted, named, secret, e) = add_user-accepted sha1 json req a h in
      let b = (add_user sha1 json req a).1 in
      (
        admits-same sha1 (restarted json b) b (with_basic req.username req.password)
              (λ name. add_user-same json req a name codec writes users text text' h)
            ∙ add_user-admits sha1 json req a granted named secret,
        admits-same sha1 (restarted json b) b other
            (λ name. add_user-same json req a name codec writes users text text' h),
      )
