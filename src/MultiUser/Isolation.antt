-- ===== src/MultiUser/Isolation.antt =====
-- What adding and removing a user in multi_user.rs leaves of the users with other ids.
use adk_gateway.Common.{
  ℕ, String, List, [], ◌∷◌, ◌++◌, some, not, filter, is_some, ◌≡◌, ◌≢◌, refl, inl, inr, arith,
  Bool-cases, Option-cases, eq_iff,
}
use adk_gateway.Common.Map.{Map, lookup, insert, lookup-insert, lookup-remove}
use adk_gateway.Router.{ChannelType}
use adk_gateway.MultiUser.{
  PairedUser, SessionHandle, MultiUserManager, has_key, is_user, find_user, get_user, add_user,
  remove_user,
}

-- What there is under an id: the users of every channel, the session and the heartbeat.
pub record IsSameFor (id : String) (before after : MultiUserManager) : Type 0 where
  pub user : (channel : ChannelType) → get_user after channel id ≡ get_user before channel id
  pub session : lookup id after.sessions ≡ lookup id before.sessions
  pub heartbeat : lookup id after.schedules ≡ lookup id before.schedules

find_user-append :
    (channel : ChannelType) (id : String) (users : List PairedUser) (new : PairedUser)
    → new.user_id ≢ id
    → find_user (has_key channel id) (users ++ new ∷ []) ≡ find_user (has_key channel id) users
unfolding find_user
find_user-append channel id [] new ne = ground (arith, eq_iff new.user_id id)
find_user-append channel id (user ∷ rest) new ne =
    ground (arith, find_user-append channel id rest new ne)

find_user-filter :
    (channel removed : ChannelType) (id other : String) (users : List PairedUser)
    → other ≢ id
    → find_user (has_key channel id) (filter (λ user. not (has_key removed other user)) users)
      ≡ find_user (has_key channel id) users
unfolding find_user
find_user-filter channel removed id other [] ne = refl
find_user-filter channel removed id other (user ∷ rest) ne = ground (
  arith,
  find_user-filter channel removed id other rest ne,
  eq_iff user.user_id id,
  eq_iff user.user_id other,
)

find_user-is_user :
    (id : String) (users : List PairedUser) (found : PairedUser)
    → find_user (is_user id) users ≡ some found
    → found.user_id ≡ id
unfolding find_user
find_user-is_user id [] found h = ground arith
find_user-is_user id (user ∷ rest) found h =
    ground (arith, find_user-is_user id rest found, eq_iff user.user_id id)

lookup-insert_other :
    (key other : String) (session : SessionHandle) (sessions : Map SessionHandle)
    → key ≢ other
    → lookup other (insert key session sessions) ≡ lookup other sessions
lookup-insert_other key other session sessions ne =
    ground (arith, lookup-insert key other session sessions, eq_iff key other)

add_user-IsSameFor :
    (manager : MultiUserManager) (user : PairedUser) (now : ℕ) (other : String)
    → user.user_id ≢ other
    → IsSameFor other manager (add_user manager user now).0
unfolding add_user get_user
add_user-IsSameFor manager user now other ne =
    elim (Bool-cases (is_some (get_user manager user.channel_type user.user_id))) [
      | inl e ↦ rw (e, add_user) (record { user = λ c. refl; session = refl; heartbeat = refl })
      | inr e ↦
          rw (e, add_user)
            (record {
              user = λ channel. find_user-append channel other manager.paired_users user ne;
              session = lookup-insert_other user.user_id other _ manager.sessions ne;
              heartbeat = refl;
            })
    ]

remove_user-IsSameFor :
    (manager : MultiUserManager) (id other : String)
    → id ≢ other
    → IsSameFor other manager (remove_user manager id).0
unfolding remove_user get_user
remove_user-IsSameFor manager id other ne =
    elim (Option-cases (find_user (is_user id) manager.paired_users)) [
      | inl e ↦ rw (e, remove_user) (record { user = λ c. refl; session = refl; heartbeat = refl })
      | inr (user, e) ↦
          let same = find_user-is_user id manager.paired_users user e in
          rw (e, remove_user)
            (record {
              user = λ channel.
                  find_user-filter channel user.channel_type other user.user_id manager.paired_users
                    (ground (arith, same));
              session = ground (arith, lookup-remove id other manager.sessions, eq_iff id other);
              heartbeat = ground (arith, lookup-remove id other manager.schedules, eq_iff id other);
            })
    ]

-- Adding a user, and removing one, leaves the user, the session and the heartbeat under every other id
-- as they were, on every channel.
pub others_stay :
    (manager : MultiUserManager) (user : PairedUser) (id : String) (now : ℕ)
    → ((other : String)
        → user.user_id ≢ other
        → IsSameFor other manager (add_user manager user now).0)
      × ((other : String) → id ≢ other → IsSameFor other manager (remove_user manager id).0)
others_stay manager user id now =
    (add_user-IsSameFor manager user now, remove_user-IsSameFor manager id)
