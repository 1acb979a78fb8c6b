-- ===== src/Access/Roles.antt =====
-- The checks of a user's role in Backend/app/core/rbac.py. Roles are ASCII texts: `lower` and
-- `upper` leave every other character as it is.
use Prim.Native.Char.{Char, code}
use Prim.Native.String.{[] as end_of_text, ◌∷◌ as ◌followed_by◌}
use apna_mandla.Prelude.{
  String, Bool, false, not, ◌&&◌, ◌||◌, List, [], ◌∷◌, map, get_or, ◌==◌, if◌then◌else◌,
}
use apna_mandla.Prelude.Text.{str_eq}
use apna_mandla.Session.{http_exception}
use apna_mandla.Access.Tables.{User}
use apna_mandla.Access.Connection.{M, ◌>>=◌, ◌>>◌, pure, raise_if}
use apna_mandla.Access.Tokens.{Outside}
use apna_mandla.Access.Sessions.{Request, get_current_user}

-- The character of the second text at the place of `c` in the first.
unfoldable pub shift_case : Char → String → String → Char
shift_case c (x followed_by xs) (y followed_by ys) =
    let rest = shift_case c xs ys in if code c == code x then y else rest
shift_case c _ _ = c

unfoldable pub lower : String → String
lower end_of_text = end_of_text
lower (c followed_by s) =
    shift_case c "ABCDEFGHIJKLMNOPQRSTUVWXYZ" "abcdefghijklmnopqrstuvwxyz" followed_by lower s

unfoldable pub upper : String → String
upper end_of_text = end_of_text
upper (c followed_by s) =
    shift_case c "abcdefghijklmnopqrstuvwxyz" "ABCDEFGHIJKLMNOPQRSTUVWXYZ" followed_by upper s

-- `(current_user.user_type or "").lower()`
unfoldable pub role_of : User → String
role_of u = lower (get_or u.user_type "")

unfoldable pub one_of : String → List String → Bool
one_of role [] = false
one_of role (r ∷ rs) = str_eq role r || one_of role rs

unfoldable pub allow : Bool → User → M User
allow ok current_user = do raise_if (not ok) (http_exception 403); pure current_user

unfoldable pub require_roles : List String → User → M User
require_roles allowed_roles u =
    let role = role_of u in
    allow (str_eq role "super_admin" || one_of role (map lower allowed_roles)) u

unfoldable pub require_customer : User → M User
require_customer = require_roles ("customer" ∷ [])

unfoldable pub require_shop : User → M User
require_shop = require_roles ("shop" ∷ [])

unfoldable pub require_rider : User → M User
require_rider = require_roles ("rider" ∷ [])

-- A user has no attribute `is_admin`, so the fallback never applies.
unfoldable pub require_admin : User → M User
require_admin u = allow (one_of (role_of u) ("admin" ∷ "super_admin" ∷ [])) u

unfoldable pub require_super_admin : User → M User
require_super_admin u = allow (str_eq (role_of u) "super_admin") u

unfoldable pub require_admin_field : String → User → M User
require_admin_field field_role u =
    let role = upper (get_or u.user_type "") in
    allow
      (str_eq role "SUPER_ADMIN"
        || (str_eq role "ADMIN" && str_eq (upper (get_or u.admin_role "")) (upper field_role)))
      u

unfoldable pub require_business_user : User → M User
require_business_user u = allow (one_of (role_of u) ("customer" ∷ "shop" ∷ "rider" ∷ [])) u

-- A route with one of these checks gets the user of the request's access token first.
unfoldable pub guarded : Outside → (User → M User) → Request → M User
guarded out check rq = do u ← get_current_user out rq.bearer; check u
