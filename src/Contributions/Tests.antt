-- ===== src/Contributions/Tests.antt =====
-- The contributions of frontend/lib/vault/contributions.ts after concrete calls.
use sorosense.Base.{[], ◌∷◌, ◌≡◌}
use sorosense.Int.{pos}
use sorosense.Sum.{sum_over}
use sorosense.Seam.{usd, eur}
use sorosense.Contributions.{deposited, withdrew, cleared, after_calls, get_contributions}
use sorosense.Contributions.Ledger.{change_of, since_reset, get_contributions_lem}

get_contributions_lem_example :
    get_contributions usd (
      after_calls
        (deposited usd (pos 9) ∷ cleared ∷ deposited eur (pos 5) ∷ withdrew usd (pos 2) ∷ [])
        [])
    ≡ sum_over (change_of usd) (
        since_reset []
          (deposited usd (pos 9) ∷ cleared ∷ deposited eur (pos 5) ∷ withdrew usd (pos 2) ∷ []))
get_contributions_lem_example =
    get_contributions_lem
      (deposited usd (pos 9) ∷ cleared ∷ deposited eur (pos 5) ∷ withdrew usd (pos 2) ∷ []) usd
