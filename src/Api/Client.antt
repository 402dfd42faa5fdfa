-- ===== src/Api/Client.antt =====
-- What the admission webhooks use of the API server: `client.Client` of controller-runtime, read
-- at the moment of the call. It is not part of the repository, so it is a parameter.
use projectresourcequota.Prelude.{String, List}
use projectresourcequota.Api.{ProjectResourceQuota}
use projectresourcequota.Api.Result.{Result}

pub record Reader (Q : Type 0) : Type 0 where
  -- `List(ctx, prqList)`, and its `Items`
  pub list : Result Q (List (ProjectResourceQuota Q))
  -- `Get(ctx, types.NamespacedName{Name: name}, prq)`
  pub get : String → Result Q (ProjectResourceQuota Q)
