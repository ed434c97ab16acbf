-- ===== src/Auth.antt =====
-- core/auth.go: the users of a server. `sha1` is xhash.SHA1, a parameter. `user_file` is what the
-- user file holds. A missing key of a Go map reads as the
-- empty string. The page that ListUser renders stands for the list of names in it.
pub mod Access
pub mod Restart
pub mod Refinement
use gocs.Prelude.{
  ℕ, Bool, true, false, not, ◌&&◌, ◌||◌, Option, none, some, List, [], ◌∷◌, ◌≡◌, refl, Bytes, codes,
  if◌then◌else◌, ◌==◌, bytes_eq, map,
}
use gocs.Prelude.Dict.{Dict, lookup, insert, delete}
use gocs.Files.{File, Json, read_json, write_json}
use gocs.Errors.{Error, errorf, message, Result, ok, err}

abbrev pub Users : Type 0
Users = Dict Bytes Bytes

pub record Auth : Type 0 where
  pub admin_user : Users
  pub normal_user : Users
  pub user_file : File

-- readAuthFile, of a file: what ReadJSON leaves in the emptied map, all of the file or, where that
-- fails, what was decoded before the failure.
unfoldable pub read_auth_file : Json Users → File → Auth → Auth
read_auth_file json file a = record a { normal_user = (read_json json file []).1; user_file = file }

-- NewJSONFileAuth; without a file name there is no file.
unfoldable pub new_auth : Json Users → Users → Option File → Auth
unfolding read_auth_file
new_auth json admin none = record { admin_user = admin; normal_user = []; user_file = none }
new_auth json admin (some file) =
    read_auth_file json file (record { admin_user = admin; normal_user = []; user_file = none })

-- A request's basic authentication, if it has one, and the two values of its query.
pub record Request : Type 0 where
  pub basic : Option (Bytes × Bytes)
  pub username : Bytes
  pub password : Bytes

-- The status and body of a response; 200 is the status where none was set.
pub record Response : Type 0 where
  pub status : ℕ
  pub body : Bytes

abbrev pub or_empty : Option Bytes → Bytes
or_empty none = []
or_empty (some v) = v

abbrev pub is_empty : Bytes → Bool
is_empty [] = true
is_empty (b ∷ s) = false

module _ (sha1 : Bytes → Bytes) where
  -- `xhash.SHA1(pass) == users[name]`
  abbrev pub knows : Users → Bytes → Bytes → Bool
  knows users name pass = sha1 pass == or_empty (lookup name users)

  -- BasicAuth: the user name, ok, and the error.
  pub basic_auth : Auth → Request → Bytes × Bool × Option Error
  basic_auth a req = elim req.basic [
    | none ↦ ([], false, none)
    | some (name, pass) ↦ (
      name,
      true,
      (if knows a.normal_user name pass
          then none
          else some (errorf (codes "username/password is not correct"))),
    )
  ]

  -- The guard of wsHandler: `ok && err == nil`.
  pub admits : Auth → Request → Bool
  unfolding basic_auth
  admits a req =
      let (name, present, e) = basic_auth a req in
      present && (elim e [ none ↦ true | some x ↦ false ])

  -- adminBasicAuth: nothing, or the response that it wrote.
  unfoldable pub admin_refusal : Auth → Request → Option Response
  admin_refusal a req = elim req.basic [
    | none ↦ some (record { status = 401; body = codes "Login Required.\n" })
    | some (name, pass) ↦
        if knows a.admin_user name pass
        then none
        else some (record { status = 401; body = codes "auth fail" })
  ]

  abbrev reply : Option Error → Response
  reply none = record { status = 200; body = codes "ok" }
  reply (some e) = record { status = 500; body = message e }

  abbrev bad_request : Bytes → Response
  bad_request text = record { status = 400; body = text }

  -- The write of the file at the end of addUser and removeUser, and the reply to what it answers.
  abbrev pub save : Json Users → Auth → Response × Auth
  save json a =
      let (e, file) = write_json json a.user_file a.normal_user in
      (reply e, record a { user_file = file })

  -- AddUser; addUser writes to the map before it writes the file.
  unfoldable pub add_user : Json Users → Request → Auth → Response × Auth
  unfolding admin_refusal
  add_user json req a = elim (admin_refusal a req) [
    | some refusal ↦ (refusal, a)
    | none ↦
        if is_empty req.username || is_empty req.password
        then (bad_request (codes "username/password is required"), a)
        else save json
            (record a { normal_user = insert req.username (sha1 req.password) a.normal_user })
  ]

  -- RemoveUser
  unfoldable pub remove_user : Json Users → Request → Auth → Response × Auth
  unfolding admin_refusal
  remove_user json req a = elim (admin_refusal a req) [
    | some refusal ↦ (refusal, a)
    | none ↦
        if is_empty req.username
        then (bad_request (codes "username is required"), a)
        else save json (record a { normal_user = delete req.username a.normal_user })
  ]

  abbrev names : Users → List Bytes
  names = map (λ (e : Bytes × Bytes). e.0)

  -- ListUser: the refusal, or the names on the page.
  pub list_user : Request → Auth → Option Response × List Bytes
  unfolding admin_refusal
  list_user req a = elim (admin_refusal a req) [
    | some refusal ↦ (some refusal, [])
    | none ↦ (none, names a.normal_user)
  ]
