-- ===== src/Tests/Sessions.antt =====
-- Samples for the logins of server/server.go.
use ftpserver.Base.{
  ℕ, ◌≡◌, refl, none, some, List, [], ◌∷◌, Text, bytes, text_eq, has_prefix, unknown_user, ok, err,
  done,
}
use ftpserver.Confpar.{AccessesWebhook}
use ftpserver.Config.{get_access, is_keycloak}
use ftpserver.Fs.{Fs, base_path_fs, os_fs, read_only_fs}
use ftpserver.Fs.Loader.{load_fs}
use ftpserver.Server.{Server, ClientContext, new_server}
use ftpserver.Server.Webhook.{Http, get_access_from_webhook}
use ftpserver.Server.Auth.{
  cached, load_cached, give_session, select_access, open_session, auth_user,
}
use ftpserver.Server.Auth.Cache.{load_cached_unshared}
use ftpserver.Server.Auth.Sessions.{IsAdmitted, auth_user-IsAdmitted}
use ftpserver.Server.Auth.Remote.{IsAnswered, auth_user-IsAnswered}
use ftpserver.Server.Auth.Faults.{keycloak_any_password, keycloak_mix_up}
use ftpserver.Tests.{
  alice, guest, portal, make_content, env, two_users, one_portal, cloud, closed_cloud, client,
}

-- The authorities that a webhook asks: every request is answered by `null`.
abbrev pub http : Http
http = record {
  marshal_credentials = λ u p. ok u;
  new_request = λ m u. none;
  do_request = λ r. ok (record { status_code = 200; body = bytes "null" });
  read_all = λ r. ok r.body;
  unmarshal_access = λ t. ok none;
}

abbrev webhook : AccessesWebhook
webhook = record { url = bytes "http://auth"; headers = []; timeout = 5 }

abbrev disk_fs : Fs
disk_fs = base_path_fs os_fs (bytes "/srv")

abbrev archive_cache : List (Text × Fs)
archive_cache = (bytes "bob", read_only_fs disk_fs) ∷ []

abbrev two_users_server : Server Text
two_users_server = new_server two_users

abbrev pub portal_server : Server Text
portal_server = new_server one_portal

abbrev webhook_server : Server Text
webhook_server = new_server (record two_users {
  content = record (make_content {Entry = ℕ} []) { accesses_webhook = some webhook };
})

load_cached_unshared_example :
    load_cached cloud alice archive_cache ≡ (archive_cache, load_fs cloud alice)
unfolding cached text_eq
load_cached_unshared_example = load_cached_unshared cloud alice archive_cache refl refl

alice_login :
    auth_user env http cloud two_users_server client (bytes "alice") (bytes "secret")
    ≡ done (two_users_server, client, ok disk_fs)
unfolding auth_user new_server text_eq has_prefix
alice_login = refl

auth_user-IsAdmitted_example :
    IsAdmitted env cloud two_users_server two_users_server client client
      (bytes "alice")
      (bytes "secret")
      disk_fs
unfolding new_server
auth_user-IsAdmitted_example =
    auth_user-IsAdmitted env http cloud two_users_server two_users_server client client
      (bytes "alice") (bytes "secret") disk_fs refl alice_login

alice_refused : (get_access env two_users (bytes "alice") (bytes "x")).1 ≡ err unknown_user
unfolding get_access text_eq has_prefix
alice_refused = refl

-- The portal after a login of eve.
abbrev pub eve_server : Server Text
eve_server =
    record (new_server
      (record one_portal { heap = record portal { user = bytes "eve"; pass = bytes "x" } ∷ [] })) {
        accesses = (bytes "eve", base_path_fs os_fs (bytes "/srv/eve")) ∷ [];
      }

eve_login :
    auth_user env http cloud portal_server client (bytes "eve") (bytes "x")
    ≡ done (eve_server, client, ok (base_path_fs os_fs (bytes "/srv/eve")))
unfolding auth_user new_server text_eq has_prefix
eve_login = refl

keycloak_any_password_example :
    (s'' : Server Text) × (later' : ClientContext) × (auth_user env http closed_cloud eve_server
        client
        (bytes "eve")
        (bytes "wrong")
      ≡ done (s'', later', ok (base_path_fs os_fs (bytes "/srv/eve"))))
unfolding new_server is_keycloak text_eq
keycloak_any_password_example =
    keycloak_any_password env http cloud closed_cloud portal_server eve_server client client client
      (bytes "eve") (bytes "x") (bytes "wrong") refl refl refl refl refl refl eve_login

keycloak_mix_up_example :
    let (s1, chosen) = select_access env http portal_server (bytes "eve") (bytes "x") in
    let (s2, chosen') = select_access env http s1 (bytes "dan") (bytes "y") in
    (chosen ≡ ok (some 0))
    × (chosen' ≡ ok (some 0))
    × (open_session cloud s2 client (some 0)
        ≡ done (
            give_session s2 client
              (record portal { user = bytes "dan"; pass = bytes "y" })
              (load_cached cloud (record portal { user = bytes "dan"; pass = bytes "y" }) [])))
unfolding new_server is_keycloak text_eq
keycloak_mix_up_example =
    keycloak_mix_up env http cloud portal_server client (bytes "eve") (bytes "x") (bytes "dan")
      (bytes "y") refl refl refl refl refl

null_answer : get_access_from_webhook http webhook (bytes "eve") (bytes "x") ≡ ok none
unfolding get_access_from_webhook
null_answer = refl

-- An authority that knows Alice.
abbrev authority : Http
authority = record http { unmarshal_access = λ t. ok (some alice) }

abbrev answered_server : Server Text
answered_server = record webhook_server {
  config = record (webhook_server.config) { heap = alice ∷ guest ∷ alice ∷ [] };
}

answered_login :
    auth_user env authority cloud webhook_server client (bytes "alice") (bytes "x")
    ≡ done (answered_server, client, ok disk_fs)
unfolding auth_user new_server text_eq
answered_login = refl

auth_user-IsAnswered_example :
    IsAnswered authority webhook cloud webhook_server answered_server client client
      (bytes "alice")
      (bytes "x")
      disk_fs
unfolding new_server
auth_user-IsAnswered_example =
    auth_user-IsAnswered env authority cloud webhook webhook_server answered_server client client
      (bytes "alice") (bytes "x") disk_fs refl answered_login
