-- ===== src/Transport/Accounts/Tests.antt =====
-- The accounts of the sample world, listed.
use ledger_x.Transport.Accounts.{list_accounts, account_dto, AccountDto}
use ledger_x.Transport.Accounts.Listed.{list_accounts_own, IsOwnPage}
use ledger_x.Prelude.{ℕ, ◌≡◌, ◌∷◌, some, refl, [], List}
use ledger_x.Service.Samples.{sample_world, account}
use ledger_x.Repo.World.{call, answer}
use ledger_x.Repo.Accounts.{list_accounts_by_user}
use ledger_x.Repo.Models.{normal}
use ledger_x.Transport.Handlers.{replied}

abbrev first_page : List AccountDto
first_page = account_dto (account 1 1 "cash" normal) ∷ account_dto (account 2 1 "bank" normal) ∷ []

listed_page : (list_accounts (some 1) 2 0 sample_world).0 ≡ replied 200 first_page
unfolding list_accounts list_accounts_by_user call answer
listed_page = refl

list_accounts_own_example : ◌≡◌ {A = ℕ} 200 200 × IsOwnPage 1 2 first_page
list_accounts_own_example = list_accounts_own 1 2 0 200 sample_world first_page listed_page
