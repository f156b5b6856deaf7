-- ===== src/Server/Worker/Crew/Tests.antt =====
-- Two workers, one of which takes a request: the theorem on the counters applies to them.
use tinyfile.Common.{◌≡◌, ◌↔◌, refl, arith, [], ◌∷◌}
use tinyfile.Types.{Request, compress}
use tinyfile.Server.Worker.Crew.{
  testing, serving, goes_on, receives, starts, Crew, turn, Reach, here, next, fresh,
}
use tinyfile.Server.Worker.Crew.Counts.{all_begun, Reach-begun}

abbrev asked : Request
asked = record { service = compress; priority = 1; request_id = 0; entry_idx = 0; pid = 7 }

-- The first worker has begun the request, the second has not moved.
abbrev one_begun : Crew
one_begun = record {
  shared = record ((fresh 300 2 [] []).shared) { num_requests_started = 1 };
  stages = serving asked ∷ testing ∷ [];
}

one_begun-Reach : Reach 300 (fresh 300 2 [] []) one_begun
one_begun-Reach =
    next
      (next (next here (turn [] (testing ∷ []) (goes_on refl)))
        (turn [] (testing ∷ []) (receives asked (omega arith))))
      (turn [] (testing ∷ []) starts)

Reach-begun_example :
    (one_begun.shared.num_requests_started ≡ one_begun.shared.num_requests_completed)
    ↔ (all_begun one_begun.stages ≡ 0)
Reach-begun_example = Reach-begun 300 300 2 [] [] one_begun (omega arith) one_begun-Reach
