-- ===== src/Process/Same.antt =====
-- Steps of the process of engine/src/main.cc that leave the arena alone.
use semantic_sentinel.Base.{◌≡◌, arith, Option}
use semantic_sentinel.Result.{Result}
use semantic_sentinel.Process.{
  Grpc, Point, Worker, Process, signal_handler, grpc_step, admit, wait_for, warmed, shut, unblock,
}

module _ {F Session Server : Type 0} where
  pub grpc_step-same :
      (grpc : Grpc Server) (server : Option Server) (worker : Worker) (p : Process F Session Server)
      → p.memory_arena ≡ (grpc_step grpc server worker p).memory_arena
  grpc_step-same grpc server worker p = ground arith

  pub admit-same :
      (grpc : Grpc Server) (server : Option Server) (p : Process F Session Server)
      → p.memory_arena ≡ (admit grpc server p).memory_arena
  admit-same grpc server p = ground arith

  pub signal_handler-same :
      (point : Point) (p : Process F Session Server)
      → p.memory_arena ≡ (signal_handler point p).memory_arena
  signal_handler-same point p = ground arith

  pub warmed-same :
      (r : Result (Unit {0})) (instance : Option Session) (p : Process F Session Server)
      → p.memory_arena ≡ (warmed (r, instance) p).memory_arena
  warmed-same r instance p = ground arith

  pub shut-same :
      (grpc : Grpc Server) (server : Option Server) (p : Process F Session Server)
      → p.memory_arena ≡ (shut grpc server p).memory_arena
  shut-same grpc server p = ground arith

  pub unblock-same :
      (grpc : Grpc Server) (server : Option Server) (p : Process F Session Server)
      → p.memory_arena ≡ (unblock grpc server p).memory_arena
  unblock-same grpc server p = ground arith

  pub wait_for-same :
      (worker : Worker) (next p : Process F Session Server)
      → p.memory_arena ≡ next.memory_arena
      → p.memory_arena ≡ (wait_for worker next p).memory_arena
  wait_for-same worker next p e = ground arith
