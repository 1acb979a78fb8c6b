-- ===== src/Access/Tables.antt =====
-- The rows of users, sessions and one-time codes: user.py, active_session.py and otp.py of
-- Backend/app/models. Names, addresses and devices are left out. Rows stand newest first.
use apna_mandla.Prelude.{ℕ, String, Bool, true, Option, List, [], ◌∷◌, if◌then◌else◌}

pub record User : Type 0 where
  pub id : ℕ
  pub phone_number : String
  pub hashed_password : String
  pub user_type : Option String
  pub admin_role : Option String
  pub is_active : Bool

pub record ActiveSession : Type 0 where
  pub id : ℕ
  pub user_id : ℕ
  pub refresh_token : String
  pub is_revoked : Bool

pub record Otp : Type 0 where
  pub id : ℕ
  pub user_id : Option ℕ
  pub phone_number : Option String
  pub otp_hash : String
  pub purpose : String
  pub expires_at : ℕ
  pub created_at : ℕ
  pub is_used : Bool
  pub attempt_count : ℕ

pub record AuthTables : Type 0 where
  pub users : List User
  pub sessions : List ActiveSession
  pub next_session_id : ℕ
  pub otps : List Otp

abbrev pub user_ids : User → ℕ
user_ids u = u.id

abbrev pub session_ids : ActiveSession → ℕ
session_ids s = s.id

abbrev pub otp_ids : Otp → ℕ
otp_ids o = o.id

abbrev pub revoked : ActiveSession → ActiveSession
revoked s = record s { is_revoked = true }

-- `.filter(p).update({"is_revoked": True})`
unfoldable pub revoke_where : (ActiveSession → Bool) → List ActiveSession → List ActiveSession
revoke_where p [] = []
revoke_where p (s ∷ ss) = let rest = revoke_where p ss in (if p s then revoked s else s) ∷ rest
