-- ===== src/Router/Calls.antt =====
-- ChangePassword from the HTTP request to the tables: the switch, the chain and the handler.
use skillsphere_api.Common.{
  ◌≤◌, arith, ℕ, String, ◌≡◌, ◌⊎◌, refl, ◌∙◌, inl, inr, some, ◌||◌, is_empty, Bool-cases,
}
use skillsphere_api.Errors.{ok}
use skillsphere_api.World.{World, Env, Claims}
use skillsphere_api.Interceptors.Context.{Context, background, get_claims_from_context}
use skillsphere_api.Interceptors.Server.{Server, Interceptor}
use skillsphere_api.Interceptors.Limits.{Limiter}
use skillsphere_api.Interceptors.Auth.Guard.{Bears}
use skillsphere_api.Interceptors.Chain.{RateLimits}
use skillsphere_api.Interceptors.Chain.Passage.{Passes, tables}
use skillsphere_api.Interceptors.Chain.Authentication.{auth, chain-Authenticated}
use skillsphere_api.Auth.Service.{AuthService}
use skillsphere_api.Auth.Passwords.{change_password}
use skillsphere_api.Auth.Handler.{ChangePasswordRequest, acting_user, handle_change_password}
use skillsphere_api.Router.Rpcs.{
  procedure, change_password_request, change_password_rpc, find_rpc-path,
}
use skillsphere_api.Router.{Codec, HttpRequest, method, incoming, serve_auth}

module _ (env : Env) (s : AuthService) where
  -- The handler changes no table, or does what ChangePassword of the service does for the user of
  -- the claims.
  handle-tables :
      (ctx : Context) (c : Claims) (m : ChangePasswordRequest) (w : World)
      → ctx.claims ≡ some c
      → let after = (handle_change_password env s ctx m w).1 in
        let user = acting_user env s (ok c) m.user_id in
        (after.db ≡ w.db)
        ⊎ (after.db ≡ (change_password env s user m.current_password m.new_password w).1.db)
  unfolding handle_change_password get_claims_from_context
  handle-tables ctx c m w has =
      elim (Bool-cases (is_empty m.current_password || is_empty m.new_password)) [
        | inl missing ↦ inl (rw missing refl)
        | inr given ↦ elim (Bool-cases (is_empty (acting_user env s (ok c) m.user_id))) [
          | inl nobody ↦ inl (ground arith)
          | inr somebody ↦ inr (ground arith)
        ]
      ]

module _ (env : Env) (s : AuthService) (codec : Codec) (validate : Interceptor)
    (new_limiter : ℕ → ℕ → Limiter) (limits : RateLimits) (secret : String) where
  -- A change of password on behalf of the claims of an accepted token.
  pub record OnBehalf (r : HttpRequest) (m : ChangePasswordRequest) (v out : Server) : Type 0 where
    pub claims : Claims
    pub reading : Server
    pub since : v.app.draws ≤ reading.app.draws
    pub bears :
        Bears env
          (auth env validate new_limiter secret)
          background
          (incoming env s codec validate new_limiter limits secret change_password_rpc r)
          claims
          reading
    pub start : World
    pub starts : start.db ≡ tables v
    pub ends :
        tables out
        ≡ (change_password env s
            (acting_user env s (ok claims) m.user_id)
            m.current_password
            m.new_password
            start).1.db

  -- Where the validation interceptor lets a call through or changes no table, and the body of a
  -- request to the path of ChangePassword is decoded to a message of that method: the call changes
  -- no table, or it bears a token that the library accepts under the configured secret, at a draw
  -- since the call began, and that has not expired at the next, and the tables are then those that the service's ChangePassword leaves for
  -- the user of the token's claims (for the user of the request, if the claims name none), when it
  -- starts from the tables as they were.
  pub serve-change_password :
      (r : HttpRequest) (m : ChangePasswordRequest) (v : Server)
      → Passes validate
      → r.path ≡ procedure change_password_rpc
      → codec.decode change_password_rpc r ≡ ok (change_password_request m)
      → let out = (serve_auth env s codec validate new_limiter limits secret r v).1 in
        (tables out ≡ tables v) ⊎ OnBehalf r m v out
  unfolding serve_auth method
  serve-change_password r m v valid at decoded =
      let found = (find_rpc-path r.path change_password_rpc).1 at in
      let req = incoming env s codec validate new_limiter limits secret change_password_rpc r in
      let next = method env s codec (change_password_request m) in
      rw (found, decoded)
        (elim (chain-Authenticated env validate new_limiter secret next req refl refl limits
          background v valid) [
            | inl same ↦ inl same
            | inr a ↦
                elim (handle-tables env s a.inner.context a.claims m a.inner.state.app
                  a.inner.has_claims) [
                    | inl kept ↦ inl (a.inner.ends ∙ kept ∙ a.inner.starts)
                    | inr done ↦ inr (record {
                      claims = a.claims;
                      reading = a.reading;
                      since = a.since;
                      bears = a.bears;
                      start = a.inner.state.app;
                      starts = a.inner.starts;
                      ends = a.inner.ends ∙ done;
                    })
                  ]
          ])
