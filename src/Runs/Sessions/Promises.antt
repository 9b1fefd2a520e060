-- ===== src/Runs/Sessions/Promises.antt =====
-- What sessions and project data keys promise.
use buffdata.Prelude.{
  ℕ, String, List, first, any, Bool, ◌==◌, true, select, ◌≡◌, false, none, some, not, if◌then◌else◌,
  ◌++◌, ◌∷◌, ltb, arith, string_eq, [], refl, eq_iff, ◌+◌,
}
use buffdata.Runs.Tables.{Session, ProjectKey, Outside, Db, has_project}
use buffdata.Runs.Sessions.{get_or_create_data_key, session, KeyManager, save_session}
use buffdata.Prelude.Json.{Json}
use buffdata.Prelude.Exec.{ok}

gone :
    (id : String) (rs : List Session)
    → first (λ r. r.id == id) (select (λ r. not (r.id == id)) rs) ≡ none
gone id [] = refl
gone id (r ∷ rs) = ground (arith, gone id rs)

-- A session that was asked for to be consumed is not there in a request right after it, whenever that
-- is made and whether it consumes or not.
pub session_once :
    (hash : String → String) (o o' : Outside) (token : String) (again : Bool) (d : Db)
    → (session hash o' token again (session hash o token true d).1).0 ≡ ok none
unfolding session
session_once hash o o' token again d = rw (gone (hash token) d.sessions)

appended :
    (r : Session) (rs : List Session) (id : String)
    → any (λ q. q.id == id) rs ≡ false
    → r.id ≡ id
    → first (λ q. q.id == id) (rs ++ r ∷ []) ≡ some r
appended r [] id fresh same = ground (arith, eq_iff r.id id)
appended r (q ∷ rs) id fresh same = ground (arith, appended r rs id)

-- A session saved under a token whose hash is new is found until its lifetime has passed, and not
-- from then on.
pub session-save_session :
    (hash : String → String) (o o' : Outside) (token : String) (body : Json) (lifetime : ℕ)
    (consume : Bool) (d : Db)
    → any (λ q. q.id == hash token) d.sessions ≡ false
    → (session hash o' token consume (save_session hash o token body lifetime d).1).0
      ≡ ok (if ltb o'.now (o.now + lifetime) then some body else none)
unfolding session save_session
session-save_session hash o o' token body lifetime consume d fresh =
    rw
      (
        fresh,
        appended (record { id = hash token; expires = o.now + lifetime; body = body }) d.sessions
            (hash token) fresh refl,
      )
      (ground arith)

key_appended :
    (k : ProjectKey) (rs : List ProjectKey) (project : String)
    → first (λ r. r.project == project) rs ≡ none
    → k.project ≡ project
    → first (λ r. r.project == project) (rs ++ k ∷ []) ≡ some k
key_appended k [] project missing same = ground (arith, eq_iff k.project project)
key_appended k (r ∷ rs) project missing same = ground (arith, key_appended k rs project)

-- In a project without a data key, a call creates the key that it answers, and a call right after it
-- answers the same and changes no table. The key manager must unseal what it sealed.
pub data_key_stays :
    (k : KeyManager) (o o' : Outside) (project : String) (d : Db)
    → k.unseal (k.seal o.token) ≡ some o.token
    → has_project d.projects project ≡ true
    → first (λ r. r.project == project) d.project_keys ≡ none
    → let (key, d') = get_or_create_data_key k o project d in
      (key ≡ ok o.token) × (get_or_create_data_key k o' project d' ≡ (ok o.token, d'))
unfolding get_or_create_data_key
data_key_stays k o o' project d round has new = (
  rw (has, new),
  rw (
    has,
    new,
    has,
    key_appended (record { project = project; wrapped_data_key = k.seal o.token }) d.project_keys
        project new refl,
    round,
  ),
)
