-- ===== src/Examples/Accounts.antt =====
-- A registration, the sign-in of a user and the renewal of a session at concrete inputs.
use db_backup_tool.Base.{String, ◌≡◌, ◌≢◌, refl, some, none, [], ◌∷◌, true}
use db_backup_tool.Errors.{ok}
use db_backup_tool.Model.{User, disabled}
use db_backup_tool.Effects.{user_find_by_email, verify_password, hash_password}
use db_backup_tool.Effects.Io.{gave, ◌>>=◌, try_catch, for_each}
use db_backup_tool.Auth.{get_user_permissions, union, add, has}
use db_backup_tool.Audit.{audit, append_entry}
use db_backup_tool.Routes.Sessions.{Session, login, signed_in, refresh, renew}
use db_backup_tool.Routes.Sessions.Checked.{
  IsGranted, login-IsGranted, IsRenewed, refresh-IsRenewed,
}
use db_backup_tool.Effects.Happened.{Happened}
use db_backup_tool.Tenancy.{
  RegisterInput, register_tenant, create_tenant, create_others, create_role, slug_of, slug_or,
  dashed, ensure_permissions,
}
use db_backup_tool.Tenancy.Owned.{IsOwned}
use db_backup_tool.Tenancy.Registered.{register_tenant-IsOwned}
use db_backup_tool.Tenancy.Named.{AllSlugs, digits-IsSlug, register_tenant-AllSlugs}
use db_backup_tool.Examples.World.{world, user_row, tenant_row, new_user}

abbrev session : Session
session = record {
  access_token = "access";
  refresh_token = "fresh";
  user = user_row;
  permissions = "server:read" ∷ "backup:run" ∷ [];
}

signs_in :
    login "ann@shop" "secret" none world []
    ≡ (ok session, (login "ann@shop" "secret" none world []).1)
unfolding login signed_in get_user_permissions union add has audit append_entry try_catch ◌>>=◌
signs_in = refl

login-IsGranted_example :
    (user : User) × (user.status ≢ disabled)
    × Happened
        (gave (user_find_by_email "ann@shop") (ok (some user)))
        (login "ann@shop" "secret" none world []).1
    × Happened
        (gave (verify_password "secret" user.password_hash) (ok true))
        (login "ann@shop" "secret" none world []).1
    × IsGranted user user.email session (login "ann@shop" "secret" none world []).1
login-IsGranted_example =
    login-IsGranted "ann@shop" "secret" none world [] session
      (login "ann@shop" "secret" none world []).1 signs_in

renews : refresh (some "old") world [] ≡ (ok ("access", "fresh"), (refresh (some "old") world []).1)
unfolding refresh renew try_catch ◌>>=◌
renews = refl

refresh-IsRenewed_example : IsRenewed "old" "access" "fresh" (refresh (some "old") world []).1
refresh-IsRenewed_example =
    refresh-IsRenewed "old" world [] "access" "fresh" (refresh (some "old") world []).1 renews

abbrev bob : RegisterInput
bob = record { tenant_name = "Shop"; email = "bob@shop"; password = "secret"; name = none }

registers :
    register_tenant bob world [] ≡ (ok (tenant_row, new_user), (register_tenant bob world []).1)
unfolding register_tenant create_tenant create_others create_role slug_or slug_of dashed
    ensure_permissions for_each audit append_entry try_catch ◌>>=◌
registers = refl

register_tenant-IsOwned_example :
    (password_hash : String) × Happened
      (gave (user_find_by_email "bob@shop") (ok none))
      (register_tenant bob world []).1
    × Happened (gave (hash_password "secret") (ok password_hash)) (register_tenant bob world []).1
    × IsOwned bob password_hash tenant_row new_user (register_tenant bob world []).1
register_tenant-IsOwned_example =
    register_tenant-IsOwned bob world [] tenant_row new_user (register_tenant bob world []).1
      registers

-- The slug of the new tenant is "hop-7": the capital letter is not put in small letters here.
register_tenant-AllSlugs_example : AllSlugs (register_tenant bob world []).1
register_tenant-AllSlugs_example = register_tenant-AllSlugs world bob [] digits-IsSlug tt
