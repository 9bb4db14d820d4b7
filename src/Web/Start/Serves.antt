-- ===== src/Web/Start/Serves.antt =====
-- What stands behind a server that serves.
use hemsidor.Prelude.{◌≡◌, refl, ok, err, map_err, map_err_ok, ok_injective, >>=-ok, if◌then◌else◌}
use mathlib.Core.Path.{subst}
use hemsidor.Env.{Env}
use hemsidor.Notify.Notifier.{Lettre}
use hemsidor.Web.Config.{Config, from_env}
use hemsidor.Web.Start.{not_bound, rate_limit, Platform, Postage, Serving, postage, serve, start}

module _ (p : Platform) (l : Lettre) where
  -- The parts of the server are what each step of its start gave.
  abbrev StartedWith : Config p.IpAddr → Serving p l → Type 0
  StartedWith config server =
      (p.connect_pool config.database_url ≡ ok server.pool)
      × (p.migrate server.pool ≡ ok tt)
      × (p.bind config.host config.port ≡ ok server.listener)
      × (server.state.ip_hash_salt ≡ config.ip_hash_salt)
      × (postage l config.smtp
          ≡ ok (record {
            notifier = server.notifier;
            notify_to = server.state.notify_to;
            notify_from = server.state.notify_from;
          }))

  serve_ok :
      (config : Config p.IpAddr) (pool : p.Pool) (post : Postage l) (server : Serving p l)
      → p.connect_pool config.database_url ≡ ok pool
      → p.migrate pool ≡ ok tt
      → postage l config.smtp ≡ ok post
      → serve p l config pool post ≡ ok server
      → StartedWith config server
  unfolding serve
  serve_ok config pool post server connected migrated posted h =
      let (u, e0, h0) = >>=-ok (if p.limits_ok then ok tt else err rate_limit) _ h in
      let (listener, e1, h1) = >>=-ok (map_err not_bound (p.bind config.host config.port)) _ h0 in
      subst (StartedWith config) (ok_injective _ server h1)
        (connected, migrated, map_err_ok not_bound _ e1, refl, posted)

  -- A server that serves has a configuration that was read from the environment; its pool is
  -- connected to the configured database and every migration has been applied to it, it listens
  -- at the configured address, hashes with the configured salt, and mails as its settings say.
  start-StartedWith :
      (env : Env) (server : Serving p l)
      → start p l env ≡ ok server
      → (config : Config p.IpAddr) × (from_env p.parse_ip env ≡ ok config)
        × StartedWith config server
  unfolding start
  start-StartedWith env server h =
      let (config, e0, h0) = >>=-ok (map_err _ (from_env p.parse_ip env)) _ h in
      let (pool, e1, h1) = >>=-ok (map_err _ (p.connect_pool config.database_url)) _ h0 in
      let (u, e2, h2) = >>=-ok (map_err _ (p.migrate pool)) _ h1 in
      let (post, e3, h3) = >>=-ok (postage l config.smtp) _ h2 in
      (
        config,
        map_err_ok _ _ e0,
        serve_ok config pool post server (map_err_ok _ _ e1) (map_err_ok _ _ e2) e3 h3,
      )
