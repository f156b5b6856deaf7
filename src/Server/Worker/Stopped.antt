-- ===== src/Server/Worker/Stopped.antt =====
-- `service_worker`, once the client's threads are told to stop.
use tinyfile.Common.{ℕ, ◌≡◌, refl, true, Option, List, [], ◌∷◌}
use tinyfile.Common.Run.{ok}
use tinyfile.Types.{Request}
use tinyfile.Server.Compress.{World}
use tinyfile.Server.Worker.{Work, service_worker}

-- A worker that is told to stop takes no further message, whatever comes.
pub service_worker-stopped :
    (sizeof_entry : ℕ) (rounds : List (Option Request × World)) (s : Work)
    → s.stop_client_threads ≡ true
    → service_worker sizeof_entry rounds s ≡ ok tt s
unfolding service_worker
service_worker-stopped size [] s stop = refl
service_worker-stopped size (r ∷ rounds) s stop = simp stop
