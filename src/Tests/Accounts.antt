-- ===== src/Tests/Accounts.antt =====
-- Samples for config/config.go.
use ftpserver.Base.{
  ◌≡◌, refl, ◌↔◌, none, some, [], ◌∷◌, bytes, text_eq, get_elem?, length, All, has_prefix, true,
  not_found, ok, arith,
}
use ftpserver.Config.{scheme_of, check_pass, get_access}
use ftpserver.Config.Login.{Verifies, IsFirst, check_pass_iff, get_access_iff}
use ftpserver.Config.Hashing.{hash_plaintext_passwords}
use ftpserver.Config.Hashing.Step.{IsLawful}
use ftpserver.Config.Hashing.Keeps.{get_access-hash_plaintext_passwords}
use ftpserver.Config.Hashing.Again.{hash_plaintext_passwords_again}
use ftpserver.Config.Hashing.Covers.{IsCovered, hash_plaintext_passwords-IsCovered}
use ftpserver.Config.Loading.{allocate, addresses, load}
use ftpserver.Config.Loading.Reload.{IsWellFormed, get_elem?-load, load_replaces_on_failure}
use ftpserver.Tests.{alice, guest, make_content, env, env_no_salt, two_users}

check_pass_iff_example :
    (check_pass env alice (bytes "secret") ≡ ok true) ↔ Verifies env alice (bytes "secret")
check_pass_iff_example = check_pass_iff env alice (bytes "secret")

get_access_iff_example : ((get_access env two_users (bytes "anonymous") (bytes "any")).1 ≡ ok 1) ↔ (
    (env.new_decoder_all ≡ none)
    × IsFirst env (bytes "anonymous") (bytes "any") two_users.heap two_users.content.accesses 1)
get_access_iff_example = get_access_iff env two_users (bytes "anonymous") (bytes "any") 1

pub env-IsLawful : IsLawful env
unfolding scheme_of has_prefix
env-IsLawful = record {
  prefixed = λ d e. cc;
  decode-encode = λ d. refl;
  matches = λ salt p q short h. cc;
}

no_salt-IsLawful : IsLawful env_no_salt
unfolding scheme_of has_prefix
no_salt-IsLawful = record {
  prefixed = λ d e. cc;
  decode-encode = λ d. refl;
  matches = λ salt p q short h. cc;
}

-- The passwords are kept although the hashing fails.
get_access-hash_plaintext_passwords_example :
    (get_access env (hash_plaintext_passwords env two_users []).0 (bytes "alice") (bytes "x")).1
    ≡ (get_access env two_users (bytes "alice") (bytes "x")).1
get_access-hash_plaintext_passwords_example =
    get_access-hash_plaintext_passwords env env-IsLawful two_users [] (bytes "alice") (bytes "x")
      (omega arith)

two_hashed : (hash_plaintext_passwords env two_users []).2 ≡ none
unfolding hash_plaintext_passwords text_eq has_prefix
two_hashed = refl

hash_plaintext_passwords-IsCovered_example :
    All
      (λ p. IsCovered (get_elem? (hash_plaintext_passwords env two_users []).0.heap p))
      (0 ∷ 1 ∷ [])
hash_plaintext_passwords-IsCovered_example =
    hash_plaintext_passwords-IsCovered env env-IsLawful two_users [] two_hashed

two_users-IsWellFormed : IsWellFormed two_users
two_users-IsWellFormed = (omega arith, (omega arith, tt))

get_elem?-load_example : get_elem? (load env two_users []).0.heap 1 ≡ some guest
get_elem?-load_example = get_elem?-load env two_users [] 1 (omega arith)

unsalted :
    (hash_plaintext_passwords env_no_salt
      (allocate two_users (make_content (alice ∷ guest ∷ [])))
      []).2
    ≡ some not_found
unfolding hash_plaintext_passwords allocate text_eq has_prefix
unsalted = refl

load_replaces_on_failure_example :
    ((load env_no_salt two_users []).2 ≡ some not_found)
    × ((load env_no_salt two_users []).0.content.accesses
        ≡ addresses (length two_users.heap) (alice ∷ guest ∷ []))
    × ((load env_no_salt two_users []).0.content.listen_address ≡ [])
load_replaces_on_failure_example =
    load_replaces_on_failure env_no_salt two_users [] refl refl refl unsalted

-- The second time without a source of random salt, on another disk.
hash_plaintext_passwords_again_example :
    hash_plaintext_passwords env_no_salt (hash_plaintext_passwords env two_users []).0 (bytes "x")
    ≡ ((hash_plaintext_passwords env two_users []).0, bytes "x", none)
hash_plaintext_passwords_again_example =
    hash_plaintext_passwords_again env env_no_salt env-IsLawful two_users [] (bytes "x") two_hashed
      refl
