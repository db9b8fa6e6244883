-- ===== src/Examples/Buffers.antt =====
-- The buffer at small inputs.
use rpc_framework.Prelude.{List, [], ◌∷◌}
use rpc_framework.Network.Buffer.{new}
use rpc_framework.Network.Buffer.Contents.{contents, new-IsValid}
use rpc_framework.Network.Buffer.Fifo.{
  Op, appends, retrieves, takes, run, run_queue, Agrees, run-refines-queue,
}

abbrev some_ops : List Op
some_ops = appends (1 ∷ 2 ∷ 3 ∷ []) ∷ retrieves 1 ∷ takes 1 ∷ takes 9 ∷ []

run-refines-queue_example : Agrees (run new some_ops) (run_queue (contents new) some_ops)
run-refines-queue_example = run-refines-queue new some_ops new-IsValid
