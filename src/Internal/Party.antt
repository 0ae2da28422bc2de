-- ===== src/Internal/Party.antt =====
-- legacy/app/api/internal/party: work.py, tasks.py and results.py there have the text of the files
-- of legacy/app/api/internal/parcel, so that their handlers work on the same queues and lists.
use taxlien_gateway.Prelude.{ℕ, Option, List, String, Bool}
use taxlien_gateway.Models.Auth.{AuthContext}
use taxlien_gateway.Models.Worker.{ParcelResult}
use taxlien_gateway.Redis.{Redis}
use taxlien_gateway.Database.{Database}
use taxlien_gateway.WorkerQueue.{Codec}
use taxlien_gateway.Internal.{WorkAnswer, get_work, complete, fail_task}
use taxlien_gateway.Results.{Work, submit_results}

module _ (redis : Redis) (codec : Codec) where
  open redis use {State}

  abbrev pub get_party_work : AuthContext → Option ℕ → List String → State → WorkAnswer × State
  get_party_work = get_work redis codec

  abbrev pub complete_party_task : AuthContext → String → State → Option Bool × State
  complete_party_task = complete redis codec

  abbrev pub fail_party_task : AuthContext → String → State → String × State
  fail_party_task = fail_task redis codec

  module _ (db : Database) (task_error : String) where
    open db use {Session}

    abbrev pub submit_party_results :
        AuthContext → List ParcelResult → State → Session → Work State Session
    submit_party_results = submit_results redis db codec task_error
