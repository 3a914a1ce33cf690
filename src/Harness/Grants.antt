-- ===== src/Harness/Grants.antt =====
-- harness/tool_grants.py: which tools a session may use. `ToolGrant(text)` raises `ValueError` for
-- an unknown text. The allowed set is a list, of which only membership is read.
use computer_use_orchestrato.Prelude.{
  String, ◌<>◌, ◌≡◌, refl, Bool, true, false, List, [], ◌∷◌, ◌==◌, any, if◌then◌else◌, Result, ok,
  err, ◌>>=◌,
}

pub data ToolGrant : Type 0 where
  browser shell file_system desktop network : ToolGrant

abbrev pub value : ToolGrant → String
value browser = "browser"
value shell = "shell"
value file_system = "file_system"
value desktop = "desktop"
value network = "network"

abbrev pub same_grant : ToolGrant → ToolGrant → Bool
same_grant browser browser = true
same_grant shell shell = true
same_grant file_system file_system = true
same_grant desktop desktop = true
same_grant network network = true
same_grant _ _ = false

pub record ToolGrantPolicy : Type 0 where
  pub allowed : List ToolGrant
  pub denied_reason : String

abbrev pub default_denied_reason : String
default_denied_reason = "Tool grant is not enabled for this session"

unfoldable pub local_demo_default : ToolGrantPolicy
local_demo_default = record {
  allowed = browser ∷ desktop ∷ network ∷ file_system ∷ [];
  denied_reason = default_denied_reason;
}

unfoldable pub locked_down : ToolGrantPolicy
locked_down = record { allowed = []; denied_reason = default_denied_reason }

pub data GrantError : Type 0 where
  value_error : String → GrantError
  permission_error : String → GrantError

-- `ToolGrant(text)`
unfoldable pub parse_grant : String → Result GrantError ToolGrant
parse_grant text =
    if text == "browser"
    then ok browser
    else if text == "shell"
    then ok shell
    else if text == "file_system"
    then ok file_system
    else if text == "desktop"
    then ok desktop
    else if text == "network"
    then ok network
    else err (value_error text)

unfoldable pub allows : ToolGrantPolicy → String → Result GrantError Bool
unfolding parse_grant
allows policy grant = do
  parsed ← parse_grant grant
  ok (any (λ other. same_grant other parsed) policy.allowed)

-- The exception that a denied grant raises; it reads the grant's text once more.
denial_of : ToolGrantPolicy → String → Result GrantError GrantError
unfolding parse_grant
denial_of policy grant = do
  parsed ← parse_grant grant
  ok (permission_error (value parsed <> (": " <> policy.denied_reason)))

unfoldable pub require : ToolGrantPolicy → String → Result GrantError (Unit {0})
unfolding allows denial_of parse_grant
require policy grant = do
  allowed ← allows policy grant
  denial ← denial_of policy grant
  if allowed then ok tt else err denial

-- Reading back the text of a grant gives the grant.
pub parse_grant-value : (g : ToolGrant) → parse_grant (value g) ≡ ok g
unfolding parse_grant
parse_grant-value browser = refl
parse_grant-value shell = refl
parse_grant-value file_system = refl
parse_grant-value desktop = refl
parse_grant-value network = refl

abbrev pub is_allowed : ToolGrantPolicy → ToolGrant → Bool
is_allowed policy g = any (λ other. same_grant other g) policy.allowed

-- A known grant passes exactly when the policy lists it, and otherwise the error names the grant.
pub require_cases :
    (policy : ToolGrantPolicy) (g : ToolGrant)
    → require policy (value g) ≡ (
        if is_allowed policy g
        then ok tt
        else err (permission_error (value g <> (": " <> policy.denied_reason))))
unfolding require allows
require_cases policy browser = refl
require_cases policy shell = refl
require_cases policy file_system = refl
require_cases policy desktop = refl
require_cases policy network = refl

-- A text that names no grant is a `ValueError`, whatever the policy.
pub require_unknown :
    (policy : ToolGrantPolicy) (text : String)
    → parse_grant text ≡ err (value_error text)
    → require policy text ≡ err (value_error text)
unfolding require allows
require_unknown policy text h = rw h
