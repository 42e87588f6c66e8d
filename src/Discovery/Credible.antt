-- ===== src/Discovery/Credible.antt =====
-- discovery/mod.rs: which probe results count as an app.
use raemote_server.Prelude.{◌<◌, ◌≡◌, ◌↔◌, ◌⊎◌, true, false, arith, nat_instance, list_instance}
use raemote_server.Discovery.Model.{origin_instance}
use raemote_server.Discovery.Engine.{ProbeResult, is_credible, has_error_title}

-- A page is credible exactly if its title, if there is one, is no error title, and its status is below
-- 400 or one of 401 and 403.
pub is_credible_iff :
    (r : ProbeResult)
    → (is_credible r ≡ true) ↔ (
        (has_error_title r.title ≡ false)
        × ((r.status < 400) ⊎ ((r.status ≡ 401) ⊎ (r.status ≡ 403))))
unfolding is_credible
is_credible_iff r = ground arith
