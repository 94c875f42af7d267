-- ===== src/Auth/Refresh.antt =====
-- auth/refresh.go: rotation of refresh tokens and logout, for a service that has a validator. The
-- store of tokens is behind the interface `RefreshTokenStore`, whose state, with that of the audit
-- log, is S.
pub mod Rotation
pub mod Replay
use iroum_ax.Prelude.{
  String, ℕ, ℤ, Bool, true, false, ◌||◌, Option, none, some, List, [], ◌∷◌, if◌then◌else◌, ◌==◌,
}
use iroum_ax.Errors.{
  Error, sentinel, wrap, Result, ok, err, token_invalid_signature, token_blacklisted,
  refresh_token_reuse_detected,
}
use iroum_ax.Audit.{Event, auth_logout}
use iroum_ax.Auth.Claims.{get, text_or_empty, ValidatedToken}
use iroum_ax.Auth.Authn.{Verify}

-- `RefreshTokenStore`.
pub record TokenStore (S : Type 0) : Type 0 where
  pub blacklist_jti : String → Option ℤ → S → Option Error × S
  pub is_blacklisted : String → S → Result Bool
  pub invalidate_family : String → S → Option Error × S
  pub add_to_family : String → String → Option ℤ → S → Option Error × S
  pub get_family_members : String → S → Result (List String)

pub record RefreshTokenPair : Type 0 where
  pub access_token : String
  pub refresh_token : String

-- `issue_token_pair` is the issuer's; `log_event` is none where there is no audit logger.
pub record RefreshService (S : Type 0) : Type 0 where
  pub store : TokenStore S
  pub issue_token_pair : String → String → Result RefreshTokenPair
  pub log_event : Option (Event → S → Option Error × S)

module _ {S : Type 0} (service : RefreshService S) where
  -- `doRefresh` from its end to its beginning, for a token of the family and its user.
  module _ (jti family user_id : String) (expiry : Option ℤ) where
    abbrev issued : Result RefreshTokenPair → S → Result RefreshTokenPair × S
    issued (err e) s = (err (wrap "토큰 발급 실패" e), s)
    issued (ok pair) s = (ok pair, s)

    abbrev added : Option Error × S → Result RefreshTokenPair × S
    added (some e, s) = (err (wrap "family 등록 실패" e), s)
    added (none, s) = issued (service.issue_token_pair user_id family) s

    abbrev invalidated : Option Error × S → Result RefreshTokenPair × S
    invalidated (some e, s) = (err (wrap "family 무효화 실패" e), s)
    invalidated (none, s) =
        (err (wrap "refresh token reuse 탐지" (sentinel refresh_token_reuse_detected)), s)

    -- What one member leads to; none goes on with the loop.
    abbrev member_checked :
        S
        → Result Bool
        → Option (Result RefreshTokenPair × S)
        → Option (Result RefreshTokenPair × S)
    member_checked s (err e) rest = some (err (wrap "family 멤버 블랙리스트 조회 실패" e), s)
    member_checked s (ok true) rest = some (invalidated (service.store.invalidate_family family s))
    member_checked s (ok false) rest = rest

    unfoldable pub check_members : List String → S → Option (Result RefreshTokenPair × S)
    check_members [] s = none
    check_members (member ∷ members) s =
        let rest = check_members members s in
        if member == jti
        then rest
        else member_checked s (service.store.is_blacklisted member s) rest

    abbrev register : S → Option (Result RefreshTokenPair × S) → Result RefreshTokenPair × S
    register s none = added (service.store.add_to_family family jti expiry s)
    register s (some result) = result

    abbrev with_members : S → Result (List String) → Result RefreshTokenPair × S
    with_members s (err e) = (err (wrap "family 멤버 조회 실패" e), s)
    with_members s (ok members) = register s (check_members members s)

    abbrev unless_blacklisted : S → Result Bool → Result RefreshTokenPair × S
    unless_blacklisted s (err e) = (err (wrap "블랙리스트 조회 실패" e), s)
    unless_blacklisted s (ok true) =
        (err (wrap "블랙리스트된 refresh 토큰" (sentinel token_blacklisted)), s)
    unless_blacklisted s (ok false) = with_members s (service.store.get_family_members family s)

    unfoldable pub do_refresh : S → Result RefreshTokenPair × S
    unfolding check_members
    do_refresh s = unless_blacklisted s (service.store.is_blacklisted jti s)

  abbrev refresh_verified : Result ValidatedToken → S → Result RefreshTokenPair × S
  refresh_verified (err e) s = (err (wrap "refresh 토큰 검증 실패" e), s)
  refresh_verified (ok vt) s =
      let jti = text_or_empty (get "jti" vt.claims) in
      let family = text_or_empty (get "family_id" vt.claims) in
      if jti == "" || family == ""
      then (err (wrap "refresh 토큰에 jti 또는 family_id가 없습니다" (sentinel token_invalid_signature)), s)
      else do_refresh jti family vt.subject vt.expires_at s

  unfoldable pub refresh_session : Verify → String → S → Result RefreshTokenPair × S
  unfolding get do_refresh
  refresh_session verify old_refresh_token s = refresh_verified (verify old_refresh_token) s

  abbrev logged : Option Error × S → Result (Unit {0}) × S
  logged (some e, s) = (err (wrap "감사 이벤트 기록 실패" e), s)
  logged (none, s) = (ok tt, s)

  abbrev log_logout : ℕ → String → Option (Event → S → Option Error × S) → S → Result (Unit {0}) × S
  log_logout now subject none s = (ok tt, s)
  log_logout now subject (some log) s = logged (
      log
        (record {
          timestamp = now;
          action = auth_logout;
          resource_type = "";
          user_id = subject;
          details = none;
          resource_id = 0;
        })
        s)

  abbrev and_then : String → (S → Result (Unit {0}) × S) → Option Error × S → Result (Unit {0}) × S
  and_then message next (some e, s) = (err (wrap message e), s)
  and_then message next (none, s) = next s

  -- `if jti != "" { BlacklistJTI(…) }` and what follows it.
  unfoldable pub blacklist_then :
      String → ValidatedToken → (S → Result (Unit {0}) × S) → S → Result (Unit {0}) × S
  unfolding get
  blacklist_then message vt next s =
      let jti = text_or_empty (get "jti" vt.claims) in
      if jti == ""
      then next s
      else and_then message next (service.store.blacklist_jti jti vt.expires_at s)

  unfoldable pub do_logout : ℕ → ValidatedToken → ValidatedToken → S → Result (Unit {0}) × S
  unfolding blacklist_then
  do_logout now access refresh = blacklist_then "access 토큰 블랙리스트 등록 실패" access (
      blacklist_then "refresh 토큰 블랙리스트 등록 실패" refresh
        (log_logout now access.subject service.log_event))

  unfoldable pub logout : Verify → ℕ → String → String → S → Result (Unit {0}) × S
  unfolding do_logout
  logout verify now access_token refresh_token s = elim (verify access_token) [
    | err e ↦ (err (wrap "access 토큰 검증 실패" e), s)
    | ok access ↦ elim (verify refresh_token) [
      | err e ↦ (err (wrap "refresh 토큰 검증 실패" e), s)
      | ok refresh ↦ do_logout now access refresh s
    ]
  ]
