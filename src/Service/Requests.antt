-- ===== src/Service/Requests.antt =====
-- A server's life: requests one after the other, each under its own pattern of faults.
pub mod Sound
pub mod Journal
pub mod Booked
pub mod Ledger
use ledger_x.Prelude.{◌∷◌, [], List, ℕ}
use ledger_x.Repo.World.{World, Fault, Action}
use ledger_x.Service.Types.{TransferInput, TransactionDto, ReverseInput, Env, CreateInput}
use ledger_x.Service.Transactions.Create.{transfer, create}
use ledger_x.Service.Transactions.Reverse.{reverse}

pub data Request : Type 0 where
  create_request : CreateInput → Request
  transfer_request : TransferInput → Request
  reverse_request : ReverseInput → Request

abbrev pub handle : Env → Request → Action TransactionDto
handle env (create_request input) = create env input
handle env (transfer_request input) = transfer env input
handle env (reverse_request input) = reverse env input

unfoldable pub serve_all : Env → List (List Fault × Request) → World → World
serve_all env [] w = w
serve_all env ((faults, r) ∷ later) w =
    serve_all env later (handle env r (record w { faults = faults })).1
