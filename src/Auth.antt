-- ===== src/Auth.antt =====
-- TwoSocks/microsocks/sockssrv.c: the choice of a method and the check of a name and a password.
pub mod Methods
pub mod Password
use two_socks.Prelude.{
  ℕ, zero, suc, ◌+◌, Bool, ◌&&◌, not, List, [], ◌∷◌, Option, none, some, length, drop, ltb, ◌==◌,
  if◌then◌else◌,
}
use two_socks.Codes.{
  ErrorCode, success, general_failure, not_allowed, AuthMethod, no_auth, username, invalid,
  method_value,
}
use two_socks.Text.{c_str, str_eq}
use two_socks.Buffer.{Result, ok, ◌>>=◌, at, slice}

-- `auth_user` and `auth_pass`: `socks_main` lets neither stand without the other.
pub record Credentials : Type 0 where
  pub user : List ℕ
  pub pass : List ℕ

-- What one offered method is answered with, if it ends the search. `whitelisted` is what
-- `is_in_authed_list` says of the client, and false where there is no list.
unfoldable pub judge_method : Option Credentials → Bool → ℕ → Option AuthMethod
judge_method none whitelisted b = if b == method_value no_auth then some no_auth else none
judge_method (some _) whitelisted b =
    if b == method_value no_auth
    then (if whitelisted then some no_auth else none)
    else if b == method_value username
    then some username
    else none

-- `while(idx < n && n_methods > 0)`
unfoldable pub scan_methods : Option Credentials → Bool → ℕ → List ℕ → AuthMethod
scan_methods creds whitelisted zero bs = invalid
scan_methods creds whitelisted (suc n_methods) [] = invalid
scan_methods creds whitelisted (suc n_methods) (b ∷ bs) =
    let rest = scan_methods creds whitelisted n_methods bs in
    elim (judge_method creds whitelisted b) [ some m ↦ m | none ↦ rest ]

unfoldable pub check_auth_method : Option Credentials → Bool → List ℕ → Result AuthMethod
check_auth_method creds whitelisted buf = do
  ver ← at buf 0
  if not (ver == 5)
      then ok invalid
      else if not (ltb 1 (length buf))
      then ok invalid
      else do n_methods ← at buf 1; ok (scan_methods creds whitelisted n_methods (drop 2 buf))

unfoldable pub check_credentials : Credentials → List ℕ → Result ErrorCode
check_credentials creds buf = if ltb (length buf) 5 then ok general_failure else do
  b0 ← at buf 0
  if not (b0 == 1) then ok general_failure else do
    ulen ← at buf 1
    if ltb (length buf) (2 + ulen + 2) then ok general_failure else do
      plen ← at buf (2 + ulen)
      if ltb (length buf) (2 + ulen + 1 + plen) then ok general_failure else do
        user ← slice buf 2 ulen
        pass ← slice buf (2 + ulen + 1) plen
        ok (
            if str_eq (c_str user) creds.user && str_eq (c_str pass) creds.pass
            then success
            else not_allowed)
