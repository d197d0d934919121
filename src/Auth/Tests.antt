-- ===== src/Auth/Tests.antt =====
-- The theorem on the throttle applied to a short history.
use wirescope.Prelude.{
  arith, ◌≡◌, ◌≢◌, ◌⊎◌, ◌↔◌, refl, List, [], ◌∷◌, ◌++◌, leb, keep, length, All, String, some, false,
  true,
}
use wirescope.Auth.Accounts.{authenticate, create_user, change_password, keep_digest, set_password}
use wirescope.Auth.Attempts.{IsAttempt, change_password-IsAttempt}
use wirescope.Auth.Changes.{set_password-authenticate}
use wirescope.Auth.Registration.{create_user-authenticate}
use wirescope.Table.Keys.{Distinct}
use wirescope.Auth.Example.{fill, fill-IsBytes, lengths, lengths-HashLaws}
use wirescope.Auth.Hashes.{verify_password-hash_password}
use wirescope.Auth.Passwords.{Bytes, IsBytes, formatted, hash_password, verify_password}
use wirescope.Auth.Sessions.{create_session, resolve_token, revoke_token}
use wirescope.Auth.Tokens.{
  IsLive, create_session-resolve_token, resolve_token_iff, revoke_token-resolve_token,
}
use wirescope.Auth.Users.{
  AuthDb, Role, SessionModel, SessionUser, UserModel, granted, user_key, name_key, user_record,
  text_length,
}
use wirescope.Table.{find, replace}
use wirescope.Auth.Throttle.{blocked, in_window}
use wirescope.Auth.Window.{Call, fails, asks, run, recorded, blocked-run}

abbrev calls : List Call
calls = fails "user-1" 10 ∷ asks "user-1" 20 ∷ fails "user-2" 30 ∷ fails "user-1" 40 ∷ []

blocked-run_example :
    (blocked 900 8 "user-1" 50 (run 900 8 calls [])).0
    ≡ leb 8 (length (keep (in_window 900 50) (recorded "user-1" [] calls)))
blocked-run_example = blocked-run 900 8 "user-1" calls 50 (ground arith)

abbrev zeros : Bytes
zeros = fill 16 0

zeros-IsBytes : IsBytes zeros
zeros-IsBytes = fill-IsBytes 16 0 (omega arith)

-- Hashes of texts of eight and of ten letters.
abbrev hash_of : String → String
hash_of p = formatted lengths zeros (fill 32 (text_length p))

abbrev alice : UserModel
alice = record {
  id = "u1";
  username = "alice";
  password_hash = hash_of "12345678";
  role = Role.auditor;
  disabled = false;
  created_at = 1;
}

abbrev alice_user : SessionUser
alice_user = record { id = "u1"; username = "alice"; role = Role.auditor; created_at = 1 }

abbrev session_of : String → String → SessionModel
session_of k owner = record {
  id = k;
  user_id = owner;
  created_at = 5;
  expires_at = 50;
  last_seen_at = 5;
}

abbrev accounts : AuthDb
accounts = record {
  users = alice ∷ [];
  sessions = session_of "t1" "u1" ∷ session_of "t2" "u1" ∷ [];
}

abbrev same_text : String → String
same_text s = s

hashed : hash_password lengths "12345678" zeros ≡ some (hash_of "12345678")
unfolding hash_password text_length
hashed = refl

verify_password-hash_password_example :
    (verify_password lengths "87654321" (hash_of "12345678") ≡ some true)
    ↔ (lengths.pbkdf2 "87654321" zeros 210000 32 ≡ lengths.pbkdf2 "12345678" zeros 210000 32)
verify_password-hash_password_example =
    verify_password-hash_password lengths lengths-HashLaws "12345678" "87654321"
      (hash_of "12345678") zeros zeros-IsBytes hashed

abbrev changed : AuthDb
changed = record {
  users = record alice { password_hash = hash_of "1234567890" } ∷ [];
  sessions = session_of "t2" "u1" ∷ [];
}

was_set :
    set_password lengths same_text same_text zeros "alice" "1234567890" (some "t2") accounts
    ≡ granted (alice_user, changed)
unfolding set_password find replace
was_set = refl

set_password-authenticate_example :
    (authenticate lengths same_text same_text zeros "alice" "1234567890" changed
      ≡ granted alice_user)
    × All
        (λ s. (s.user_id ≢ "u1") ⊎ (keep_digest same_text (some "t2") ≡ some s.id))
        changed.sessions
set_password-authenticate_example =
    set_password-authenticate lengths lengths-HashLaws same_text same_text zeros zeros "alice"
      "1234567890" (some "t2") accounts alice_user changed zeros-IsBytes (tt, tt) was_set

change_password-IsAttempt_example :
    IsAttempt lengths same_text same_text 900 10 11 zeros zeros alice_user "12345678" "1234567890"
      (some "t2")
      []
      accounts
      (change_password lengths same_text same_text 900 10 11 zeros zeros alice_user "12345678"
        "1234567890"
        (some "t2")
        []
        accounts)
change_password-IsAttempt_example =
    change_password-IsAttempt lengths same_text same_text 900 10 11 zeros zeros alice_user
      "12345678" "1234567890" (some "t2") [] accounts

resolve_token_iff_example :
    ((resolve_token same_text 20 (some "t1") accounts).0 ≡ some alice_user)
    ↔ IsLive same_text 20 "t1" accounts alice_user
resolve_token_iff_example = resolve_token_iff same_text 20 "t1" refl accounts alice_user

abbrev one_more : AuthDb
one_more = record accounts {
  sessions =
      accounts.sessions
      ++ record { id = "t3"; user_id = "u1"; created_at = 7; expires_at = 107; last_seen_at = 7 }
        ∷ [];
}

was_created : create_session same_text 7 100 "t3" alice_user accounts ≡ granted ("t3", one_more)
unfolding create_session find
was_created = refl

owner : find user_key "u1" accounts.users ≡ some alice
unfolding find
owner = refl

create_session-resolve_token_example :
    (resolve_token same_text 60 (some "t3") one_more).0 ≡ some (user_record alice)
create_session-resolve_token_example =
    create_session-resolve_token same_text 7 60 100 "t3" "t3" alice_user alice accounts one_more
      was_created refl owner refl (omega arith)

revoke_token-resolve_token_example :
    (resolve_token same_text 20 (some "t2") (revoke_token same_text (some "t1") accounts)).0
    ≡ (resolve_token same_text 20 (some "t2") accounts).0
revoke_token-resolve_token_example = revoke_token-resolve_token same_text 20 "t1" "t2" accounts refl

abbrev nobody : AuthDb
nobody = record { users = []; sessions = [] }

abbrev only_alice : AuthDb
only_alice = record { users = alice ∷ []; sessions = [] }

was_registered :
    create_user lengths same_text same_text 1 "u1" zeros "alice" "12345678" Role.auditor nobody
    ≡ granted (alice_user, only_alice)
unfolding create_user find
was_registered = refl

create_user-authenticate_example :
    (authenticate lengths same_text same_text zeros "alice" "12345678" only_alice
      ≡ granted alice_user)
    × Distinct user_key only_alice.users
    × Distinct name_key only_alice.users
create_user-authenticate_example =
    create_user-authenticate lengths lengths-HashLaws same_text same_text 1 "u1" zeros zeros "alice"
      "12345678" Role.auditor nobody alice_user only_alice zeros-IsBytes tt tt was_registered
