-- ===== src/Runner/Ledger.antt =====
-- The ledger of events over every operation of the runner, in any order.
use zapadka.Common.{Bool, List}
use zapadka.Manifest.{Library}
use zapadka.Migration.{Migration}
use zapadka.Registry.{UnresolvedAttempt}
use zapadka.Server.{Server, Wire, Runner}
use zapadka.Runner.{deploy_one, deploy_nontransactional, verify_one, revert_one, resolve, baseline}

-- One operation of the runner, whatever the server answers to its calls.
module _ {ℓ} {S : Type ℓ} (lib : Library) (server : Server S) where
  pub data Step : Runner S → Runner S → Type ℓ where
    deploys : (w : Wire) (m : Migration) (r : Runner S) → Step r (deploy_one lib server w m r).0
    deploys_alone :
        (w : Wire) (m : Migration) (r : Runner S)
        → Step r (deploy_nontransactional lib server w m r).0
    verifies : (w : Wire) (m : Migration) (r : Runner S) → Step r (verify_one lib server w m r).0
    reverts : (w : Wire) (m : Migration) (r : Runner S) → Step r (revert_one lib server w m r).0
    resolves :
        (w : Wire) (a : UnresolvedAttempt) (applied : Bool) (r : Runner S)
        → Step r (resolve lib server w a applied r).0
    baselines :
        (w : Wire) (ms : List Migration) (r : Runner S) → Step r (baseline lib server w ms r).0

  pub data Reach (r : Runner S) : Runner S → Type ℓ where
    here : Reach r r
    next : {a b : Runner S} → Reach r a → Step a b → Reach r b
