-- ===== src/Apiserver/Lifetime.antt =====
-- The whole life of the process: its start, and then any steps.
use game_server_orchestrator.Prelude.{String, Option, none, some, List, [], ◌∷◌}
use game_server_orchestrator.Prelude.Int.{ℤ}
use game_server_orchestrator.Prelude.Float.{Float64}
use game_server_orchestrator.V1alpha1.Fleet.{Pod}
use game_server_orchestrator.Pool.Invariant.{IsValid}
use game_server_orchestrator.Cluster.{Client}
use game_server_orchestrator.RateLimiter.{RateLimiter, IsLimited}
use game_server_orchestrator.Api.{Request, AllocateRequest, ReleaseRequest}
use game_server_orchestrator.Apiserver.{Process, resync, serve_request, serve_allocation}

-- A step of the process: a request, a reconciliation of an allocation resource, or a tick.
pub data ProcessStep (B : Type 0) : Type 0 where
  receives : Request B → ProcessStep B
  reconciles_allocation : String → String → ProcessStep B
  ticks : ProcessStep B

-- The limiter keeps its tokens within its rate, which is positive.
abbrev pub Limits : Option RateLimiter → Type 0
Limits none = Unit
Limits (some rl) = IsLimited rl

module _ {B W : Type 0} (cl : Client W) (list_labelled : W → Option (List Pod) × W)
    (decode_allocate : B → Option AllocateRequest) (decode_release : B → Option ReleaseRequest)
    {F : Type 0} ⦃fl : Float64 F⦄ (seconds : ℤ → F) where
  -- One step, at a time.
  unfoldable pub step_process : ℤ → ProcessStep B → Process W → Process W
  step_process now (receives q) p =
      (serve_request cl decode_allocate decode_release seconds now q p).1
  step_process now (reconciles_allocation ns req) p = (serve_allocation cl now ns req p).1
  step_process now ticks p = resync list_labelled now p

  unfoldable pub run_process : List (ℤ × ProcessStep B) → Process W → Process W
  run_process [] p = p
  run_process ((now, s) ∷ steps) p = run_process steps (step_process now s p)

  -- What holds of the process at all times.
  abbrev pub IsSound : Process W → Type 0
  IsSound p = IsValid p.pool × Limits p.limiter
