-- ===== src/Api/Accounts/Sessions.antt =====
-- api/middleware/jwt.go: the check of a session's token. What the JWT library makes of a text,
-- its signature and its expiry checked, is an argument: its claims, or `none` on any error.
pub mod Laws
use bangmod_monitor.Prelude.{String, Option, none, some}
use bangmod_monitor.Prelude.Text.{strip_prefix}
use bangmod_monitor.Api.Accounts.{Claims}

abbrev check_bearer : (String → Option Claims) → Option String → Option Claims
check_bearer verify none = none
check_bearer verify (some token) = verify token

-- RequireAuth: the claims that it puts into the context, or `none` for its 401. AuthHandler.Me
-- answers with them.
unfoldable pub require_auth : (String → Option Claims) → String → Option Claims
require_auth verify header = check_bearer verify (strip_prefix "Bearer " header)
