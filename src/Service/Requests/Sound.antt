-- ===== src/Service/Requests/Sound.antt =====
-- Double entry, over any history of requests.
use ledger_x.Prelude.Int.{leb_ℤ, eq_ℤ, ◌+ℤ◌, ℤ, zero-+ℤ, pos, int_laws, +ℤ_assoc}
use ledger_x.Repo.World.{zero_amount, unbalanced, raise, World, Fault, Error, Action}
use ledger_x.Repo.Atomic.{IsReady, Atomic-IsReady}
use ledger_x.Service.Types.{TransactionDto, Env, BalancedInput}
use ledger_x.Prelude.{
  ◌≤◌, ◌≡◌, ◌∷◌, ◌∙◌, ◌||◌, ◌==◌, ◌&&◌, ℕ, zero, true, sym, suc, refl, max, ltb, if◌then◌else◌,
  false, arith, [], List, Bool,
}
use ledger_x.Repo.Commit.{IsBalanced}
use ledger_x.Repo.Models.{Posting}
use ledger_x.Service.Requests.{
  transfer_request, serve_all, reverse_request, handle, create_request, Request,
}
use ledger_x.Service.Transactions.Create.{
  transfer_legs, transfer, create_legs, create_balanced, create,
}
use ledger_x.Service.Transactions.AllOrNothing.{create_balanced-Atomic}
use ledger_x.Service.Transactions.Reversed.{reverse-Atomic}
use ledger_x.Repo.Tx.{tx_sum}

create_balanced-IsReady :
    (env : Env) (input : BalancedInput) (w : World)
    → IsReady w
    → IsReady (create_balanced env input w).1
create_balanced-IsReady env input w h =
    Atomic-IsReady h.balanced (create_balanced-Atomic env input w h)

if_raise-IsReady :
    (b : Bool) (e : Error) (m : Action TransactionDto) (w : World)
    → IsReady w
    → IsReady (m w).1
    → IsReady ((if b then raise e else m) w).1
if_raise-IsReady true e m w h k = h
if_raise-IsReady false e m w h k = k

pub handle-IsReady : (env : Env) (r : Request) (w : World) → IsReady w → IsReady (handle env r w).1
unfolding create transfer
handle-IsReady env (create_request input) w h =
    if_raise-IsReady (eq_ℤ input.amount_minor (pos 0)) zero_amount
      (create_balanced env (create_legs input)) w h
      (create_balanced-IsReady env (create_legs input) w h)
handle-IsReady env (transfer_request input) w h =
    if_raise-IsReady (leb_ℤ input.amount_minor (pos 0)) zero_amount
      (if input.from_account_id == input.to_account_id
        then raise unbalanced
        else create_balanced env (transfer_legs input))
      w h
      (if_raise-IsReady (input.from_account_id == input.to_account_id) unbalanced
        (create_balanced env (transfer_legs input)) w h
        (create_balanced-IsReady env (transfer_legs input) w h))
handle-IsReady env (reverse_request input) w h =
    Atomic-IsReady h.balanced (reverse-Atomic env input w h)

-- After any sequence of creations, transfers and reversals under any faults, no transaction is
-- open and the postings of every transaction sum to zero, when it was so before.
pub serve_all-IsReady :
    (env : Env) (history : List (List Fault × Request)) (w : World)
    → IsReady w
    → IsReady (serve_all env history w)
unfolding serve_all
serve_all-IsReady env [] w h = h
serve_all-IsReady env ((faults, r) ∷ later) w h = serve_all-IsReady env later _ (
    handle-IsReady env r (record w { faults = faults })
      (record { idle = h.idle; balanced = h.balanced }))

-- The sum of all postings, and of those of the transactions with ids below `n`.
abbrev pub total : List Posting → ℤ
total [] = pos 0
total (p ∷ ps) = p.amount_minor +ℤ total ps

unfoldable below : ℕ → List Posting → ℤ
below zero ps = pos 0
below (suc n) ps = tx_sum n ps +ℤ below n ps

below_none : (n : ℕ) → below n [] ≡ pos 0
unfolding below
below_none zero = refl
below_none (suc n) = rw (below_none n) (zero-+ℤ (pos 0))

below_zero : (n : ℕ) (ps : List Posting) → IsBalanced ps → below n ps ≡ pos 0
unfolding below
below_zero zero ps h = refl
below_zero (suc n) ps h = rw (h n, below_zero n ps h) (zero-+ℤ (pos 0))

below_cons :
    (n : ℕ) (p : Posting) (ps : List Posting)
    → below n (p ∷ ps)
      ≡ (if ltb p.transaction_id n then p.amount_minor +ℤ below n ps else below n ps)
unfolding below
below_cons zero p ps = rw (not_below p.transaction_id) refl
  where
    not_below : (t : ℕ) → ltb t 0 ≡ false
    not_below t = ground arith
below_cons (suc n) p ps = rw (below_cons n p ps) (
    pick (p.transaction_id == n) (ltb p.transaction_id n) (ltb p.transaction_id (suc n))
      p.amount_minor (tx_sum n ps) (below n ps) (ground arith) (ground arith))
  where
    pick :
        (here lower upto : Bool) (x s t : ℤ)
        → upto ≡ here || lower
        → here && lower ≡ false
        → (if here then x +ℤ s else s) +ℤ (if lower then x +ℤ t else t)
          ≡ (if upto then x +ℤ (s +ℤ t) else s +ℤ t)
    pick true true upto x s t e f = cc
    pick true false upto x s t e f = rw e (+ℤ_assoc x s t)
    pick false true upto x s t e f = rw e (omega int_laws)
    pick false false upto x s t e f = rw e refl

-- An id above those of all postings.
above : List Posting → ℕ
above [] = 0
above (p ∷ ps) = max (suc p.transaction_id) (above ps)

below_all : (n : ℕ) (ps : List Posting) → above ps ≤ n → below n ps ≡ total ps
unfolding above
below_all n [] h = below_none n
below_all n (p ∷ ps) h =
    let low : ltb p.transaction_id n ≡ true = ground arith in
    let rest : above ps ≤ n = ground arith in rw (below_cons n p ps, low, below_all n ps rest) refl

pub balanced_total : (ps : List Posting) → IsBalanced ps → total ps ≡ pos 0
balanced_total ps h = sym (below_all (above ps) ps (omega arith)) ∙ below_zero (above ps) ps h

-- After any sequence of creations, transfers and reversals under any faults, the sum of all
-- postings is zero, when no transaction was open and each transaction's postings summed to zero
-- before.
pub serve_all-total :
    (env : Env) (history : List (List Fault × Request)) (w : World)
    → IsReady w
    → total (serve_all env history w).db.postings ≡ pos 0
serve_all-total env history w h = balanced_total _ (serve_all-IsReady env history w h).balanced
