-- ===== src/Database/Masking.antt =====
-- The value that New logs as dsn_host.
use skillsphere_api.Common.{String, ◌≡◌, ap, ltb, length, arith, true, ◌++◌}
use skillsphere_api.Errors.{ok}
use skillsphere_api.Strconv.{Bytes, ascii}
use skillsphere_api.Config.{Config, load, dsn}
use skillsphere_api.Config.Dsn.{take-dsn, length-dsn, load-named}
use skillsphere_api.Database.{mask_dsn}

-- For a configuration that Load returns, the text that New logs of its connection string is the
-- same whatever the password is, so the log shows nothing of it.
pub mask_dsn-dsn :
    (getenv : String → Bytes) (c : Config) (password : Bytes)
    → load getenv ≡ ok c
    → mask_dsn (dsn (record c.database { password = password })) ≡ mask_dsn (dsn c.database)
unfolding mask_dsn
mask_dsn-dsn getenv c password h =
    let (named, known) = load-named getenv c h in
    let d = record c.database { password = password } in
    let long : ltb 30 (length (dsn d)) ≡ true = ground (arith, length-dsn d named known) in
    let long_c : ltb 30 (length (dsn c.database)) ≡ true =
      ground (arith, length-dsn c.database named known) in
    rw (long, long_c) (ap (λ s. s ++ ascii "...") (take-dsn c.database password named known))
